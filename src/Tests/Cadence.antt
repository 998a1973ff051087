-- ===== src/Tests/Cadence.antt =====
-- The cadence on a small bd list.
use hngh.Prelude.{
  ℕ, ◌+◌, ◌≡◌, refl, String, Option, none, some, List, [], ◌∷◌, true, false, ◌||◌, ◌⊎◌, pos, Python,
  str_eq, contains, arith, map, take, length, ◌≤◌, ◌<◌, All, if◌then◌else◌,
}
use hngh.Ng.Contract.{Answer, done}
use hngh.Ng.Ledger.{Ledger, version, append}
use hngh.Ng.Ledger.Versions.{IsOrdered, append-IsOrdered}
use hngh.Ng.Tiering.{Leg, leg_order}
use hngh.Ng.Cadence.Config.{Config, first_usable, attempt_cap, token_cap, dispatch_cap}
use hngh.Ng.Cadence.Config.Legs.{first_usable-leg_order, find, or_find, is_prepaid, is_usable}
use hngh.Ng.Cadence.State.{State, Entry, deferred, exhausted}
use hngh.Ng.Cadence.Handle.{Judgment, bead_close}
use hngh.Ng.Cadence.Handle.Outcomes.{IsRun}
use hngh.Ng.Cadence.Handle.Reports.{named}
use hngh.Ng.Cadence.Handle.Halts.{capped}
use hngh.Ng.Cadence.Beat.{
  Row, failed, polled, Outside, Queue, collect, queue, beat, start, entry_id,
}
use hngh.Ng.Cadence.Beat.Accounts.{beat-IsRun}
use hngh.Ng.Cadence.Beat.Keeps.{has}
use hngh.Ng.Cadence.Beat.Conserves.{beat-keeps_deferred}
use hngh.Ng.Cadence.Beat.Young.{Young, beat-attempts_lt_cap}
use hngh.Ng.Cadence.Beat.Asked.{Affordable, collect_bounds}
use hngh.Ng.Cadence.Beat.Exhausted.{Clear, queue-Clear, beat-keeps_exhausted, failed_poll_forgets}

-- A host whose numbers are "2" only.
abbrev py : Python
py = record {
  lower = λ s. s;
  upper = λ s. s;
  strip = λ s. s;
  within = λ k s. str_eq k s;
  split = λ s sep. s ∷ [];
  partition = λ s sep. (s, "");
  int_of = λ s. if str_eq s "2" then some (pos 2) else none;
}

abbrev config : Config
config = record {
  py = py;
  today = "2026-10-01";
  token_cap_env = none;
  attempt_cap_env = some "2";
  dispatch_cap_env = some "2";
  legs_env = none;
  params = none;
}

abbrev answer : String → Answer
answer label = record {
  verdict = done;
  label = some label;
  evidence = [];
  state_version = 0;
  input_tokens = pos 10;
}

-- Every question is answered alike.
abbrev answering : String → Outside
answering label = record {
  jev = some (record {
    ask = λ env base q. some (answer label);
    ask_batch = λ env qs. some (map (λ q. answer label) qs);
  });
  age = λ s. none;
  dumped = λ ev. some 80;
  jev_url = none;
}

abbrev row : String → Row
row id = record {
  id = some id;
  title = some id;
  status = some "open";
  created_at = none;
  tier_hint = none;
}

abbrev entry : String → ℕ → Entry
entry id attempts = record {
  event = record {
    state_version = 0;
    payload = record {
      id = id;
      title = id;
      status = "open";
      age_days = pos 0;
      tier_hint = some "T2";
      tier = none;
      attempts = none;
    };
    marked = none;
  };
  attempts = attempts;
}

abbrev file : Option State
file = some (record {
  budget = none;
  dispatch = none;
  deferred = some (entry "b-1" 1 ∷ entry "b-2" 0 ∷ []);
  exhausted = some ("b-9" ∷ []);
})

abbrev ledger : Ledger Judgment
ledger = record { version_file = some 7; events = [] }

program : Unit {0}
unfolding beat exhausted deferred first_usable leg_order attempt_cap token_cap dispatch_cap collect
program = tt

-- With "retry" the first bead is at the cap and leaves the loop; the second is parked again.
retry_run :
    (exhausted (beat (config) (answering "retry") 16 (polled (row "b-9" ∷ [])) file ledger).file
      ≡ "b-1" ∷ "b-9" ∷ [])
    × (map entry_id
          (deferred (beat config (answering "retry") 16 (polled (row "b-9" ∷ [])) file ledger).file)
        ≡ "b-2" ∷ [])
unfolding program
retry_run = (refl, refl)

append-IsOrdered_example :
    IsOrdered (append "bead.close" (bead_close "b") [] ledger).1
    × (version (append "bead.close" (bead_close "b") [] ledger).1 ≡ version ledger + 1)
    × ((append "bead.close" (bead_close "b") [] ledger).0.state_version ≡ version ledger + 1)
    × ((append "bead.close" (bead_close "b") [] ledger).1.events
        ≡ some (append "bead.close" (bead_close "b") [] ledger).0 ∷ [])
unfolding version
append-IsOrdered_example = append-IsOrdered "bead.close" (bead_close "b") [] ledger (omega arith)

beat-IsRun_example :
    IsRun config file ledger
      (beat config (answering "file") 16 (polled (row "b-3" ∷ row "b-4" ∷ [])) file ledger)
beat-IsRun_example =
    beat-IsRun config (answering "file") 16 (polled (row "b-3" ∷ row "b-4" ∷ [])) file ledger

beat-keeps_deferred_example :
    let after = beat config (answering "file") 1 (polled []) file ledger in
    (has (deferred after.file) "b-2" || named after.emitted "b-2") ≡ true
unfolding program
beat-keeps_deferred_example =
    beat-keeps_deferred config (answering "file") 1 (polled []) file ledger "b-2" refl refl

beat-attempts_lt_cap_example :
    let after = beat config (answering "retry") 16 (polled []) file ledger in
    Young config (deferred after.file) ⊎ (capped after.emitted ≡ true)
unfolding program
beat-attempts_lt_cap_example =
    beat-attempts_lt_cap config (answering "retry") 16 (polled []) file ledger (omega arith)

abbrev asking : Queue
asking = (entry "b-1" 1, true) ∷ (entry "b-2" 0, true) ∷ []

collect_bounds_example :
    let asked =
      (collect config (answering "file") (start config file ledger) (take 1 asking)).askable in
    (length asked ≤ 1)
    × All (Affordable config (answering "file") (start config file ledger)) asked
    × ((asked ≡ []) ⊎ ((start config file ledger).spent < token_cap config))
collect_bounds_example =
    collect_bounds config (answering "file") (start config file ledger) 1 asking

queue-Clear_example : Clear ("b-1" ∷ []) (entry "b-1" 1 ∷ entry "b-2" 0 ∷ []) (
    queue
      (answering "file")
      (entry "b-1" 1 ∷ entry "b-2" 0 ∷ [])
      ("b-1" ∷ [])
      (row "b-2" ∷ row "b-3" ∷ []))
queue-Clear_example =
    queue-Clear (answering "file") (entry "b-1" 1 ∷ entry "b-2" 0 ∷ []) ("b-1" ∷ [])
      (row "b-2" ∷ row "b-3" ∷ [])

beat-keeps_exhausted_example :
    contains
      (exhausted (beat config (answering "retry") 16 (polled (row "b-9" ∷ [])) file ledger).file)
      "b-9"
    ≡ true
unfolding program
beat-keeps_exhausted_example =
    beat-keeps_exhausted config (answering "retry") 16 (row "b-9" ∷ []) file ledger "b-9" refl refl

abbrev idle_file : Option State
idle_file =
    some
      (record { budget = none; dispatch = none; deferred = some []; exhausted = some ("b-9" ∷ []) })

failed_poll_forgets_example :
    exhausted (beat config (answering "retry") 16 (failed "exit 1") idle_file ledger).file ≡ []
unfolding program
failed_poll_forgets_example =
    failed_poll_forgets config (answering "retry") 16 "exit 1" idle_file ledger refl (λ e. cc)

abbrev model_legs : List Leg
model_legs =
    record { kind = "cash"; prepaid = false; url = "u-c"; blocked = false }
    ∷ record { kind = "prepaid"; prepaid = true; url = ""; blocked = true }
    ∷ record { kind = "prepaid"; prepaid = true; url = "u-p"; blocked = false }
    ∷ []

first_usable-leg_order_example :
    first_usable (leg_order model_legs)
    ≡ or_find (find is_prepaid model_legs) (find is_usable model_legs)
first_usable-leg_order_example = first_usable-leg_order model_legs
