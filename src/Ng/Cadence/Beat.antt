-- ===== src/Ng/Cadence/Beat.antt =====
-- automation/ng/cadence.py: `_beat`, one round over the deferred and the open beads.
pub mod Accounts
pub mod Asked
pub mod Exhausted
pub mod Young
pub mod Conserves
pub mod Keeps
use hngh.Prelude.{
  ℕ, zero, suc, ◌+◌, ◌*◌, String, Option, none, some, List, [], ◌∷◌, ◌++◌, map, Bool, true, false,
  not, ◌&&◌, ◌||◌, ℤ, pos, leb, ltb, if◌then◌else◌, str_eq, contains, select, take, drop, length,
  sorted, insert, text_le,
}
use hngh.Ng.Contract.{Event, Question, Answer}
use hngh.Ng.Ledger.{Ledger}
use hngh.Ng.Cadence.Config.{Config, token_cap, leg_url}
use hngh.Ng.Cadence.State.{
  State, state_of, BeadPayload, BeadEvent, Entry, Slots, budget, save_budget, deferred,
  save_deferred, exhausted, tier_text, question, project,
}
use hngh.Ng.Cadence.Handle.{
  Judgment, escalation, budget_escalation, state_error, Refusal, legs_blocked, budget_spent, Run,
  emit, Outcome, handle,
}

-- One row of `bd list --json`; an absent key is `none`.
pub record Row : Type 0 where
  pub id : Option String
  pub title : Option String
  pub status : Option String
  pub created_at : Option String
  pub tier_hint : Option String

-- `_open_beads`: the rows, or the error text.
pub data Poll : Type 0 where
  failed : String → Poll
  polled : List Row → Poll

-- The judgment seam: `ask` with a base url and `ask_batch`, both under a value of HNGH_JEV_URL.
-- `none` is a call that raised.
pub record Jev : Type 0 where
  pub ask : Option String → Option String → Question Slots → Option Answer
  pub ask_batch : Option String → List (Question Slots) → Option (List Answer)

-- What the beat takes from outside: the seam (`none` where the import failed), the age of an ISO time
-- in hundredths of a day (`none` is ValueError), the length of an event's JSON text, and the value of
-- HNGH_JEV_URL.
pub record Outside : Type 0 where
  pub jev : Option Jev
  pub age : String → Option ℤ
  pub dumped : BeadEvent → Option ℕ
  pub jev_url : Option String

-- `row.get(key, "")`
unfoldable pub text_or : Option String → String
text_or none = ""
text_or (some s) = s

unfoldable pub age_days : Outside → String → ℤ
age_days o created_at = elim (o.age created_at) [ none ↦ pos 0 | some z ↦ z ]

unfoldable pub bead_event : Outside → Row → BeadEvent
unfolding text_or age_days
bead_event o r = record {
  state_version = 0;
  payload = record {
    id = text_or r.id;
    title = text_or r.title;
    status = text_or r.status;
    age_days = age_days o (text_or r.created_at);
    tier_hint = some (text_or r.tier_hint);
    tier = none;
    attempts = none;
  };
  marked = none;
}

unfoldable pub entry_id : Entry → String
entry_id en = en.event.payload.id

-- The rows that become fresh entries: with an id, open, and not in `known`.
unfoldable pub is_fresh : List String → Row → Bool
unfolding text_or
is_fresh known r =
    not (str_eq (text_or r.id) "")
    && str_eq (text_or r.status) "open"
    && not (contains known (text_or r.id))

abbrev pub Queue : Type 0
Queue = List (Entry × Bool)

-- `[en for en, is_def in queue if is_def]`
unfoldable pub parked_of : Queue → List Entry
parked_of [] = []
parked_of ((en, true) ∷ q) = en ∷ parked_of q
parked_of ((en, false) ∷ q) = parked_of q

unfoldable pub fresh_entry : Outside → Row → Entry
unfolding bead_event
fresh_entry o r = record { event = bead_event o r; attempts = 0 }

-- The queue of a beat: the deferred entries that are not exhausted, then the fresh ones.
unfoldable pub queue : Outside → List Entry → List String → List Row → Queue
unfolding fresh_entry entry_id is_fresh
queue o parked gone rows =
    let known = map entry_id parked ++ gone in
    map (λ en. (en, true)) (select (λ en. not (contains gone (entry_id en))) parked)
    ++ map (λ r. (fresh_entry o r, false)) (select (is_fresh known) rows)

-- An entry that is to be asked about.
pub record Askable : Type 0 where
  pub entry : Entry
  pub is_def : Bool
  pub asked : Question Slots

pub record Collected : Type 0 where
  pub still : List Entry
  pub askable : List Askable
  pub run : Run

-- `ev["_attempts"] = attempts`
unfoldable pub mark : Entry → Entry
mark en = record en { event = record en.event { marked = some en.attempts } }

unfoldable pub over_budget : Config → Outside → Run → Entry → Bool
unfolding project
over_budget c o run en =
    leb (token_cap c) run.spent || ltb (token_cap c) (run.spent + project o.dumped en.event)

-- `spent >= cap * 0.8 and tier != "T1"`
unfoldable pub degraded : Config → Run → Entry → Bool
unfolding tier_text
degraded c run en =
    leb (4 * token_cap c) (5 * run.spent) && not (str_eq (tier_text en.event.payload) "T1")

unfoldable pub refuse_budget : Config → Entry → Run → Run
refuse_budget c en run =
    emit (budget_escalation en.event.payload.id run.spent (token_cap c))
      (record run { refusals = run.refusals ++ budget_spent run.spent (token_cap c) ∷ [] })

-- The loop that chooses what to ask.
unfoldable pub collect : Config → Outside → Run → Queue → Collected
unfolding over_budget degraded refuse_budget mark question parked_of
collect c o run [] = record { still = []; askable = []; run = run }
collect c o run ((en, is_def) ∷ rest) =
    let next = collect c o run rest in
    if over_budget c o run en
    then record {
      still = parked_of ((en, is_def) ∷ rest);
      askable = [];
      run = refuse_budget c en run;
    }
    else if degraded c run en
    then (if is_def then record next { still = en ∷ next.still } else next)
    else (let en' = mark en in
        let one : Askable = record { entry = en'; is_def = is_def; asked = question en'.event } in
        record next { askable = one ∷ next.askable })

-- `(list(got) + [None] * n)[:n]`
unfoldable pub pad : ℕ → List Answer → List (Option Answer)
pad zero got = []
pad (suc n) [] = none ∷ pad n []
pad (suc n) (a ∷ got) = some a ∷ pad n got

unfoldable pub or_nil : Option (List Answer) → List Answer
or_nil none = []
or_nil (some got) = got

-- The answers to one question, or to a batch of two or more.
unfoldable pub got : Outside → Option String → Jev → List (Question Slots) → List Answer
unfolding or_nil
got o url j [] = []
got o url j (q ∷ []) = elim (j.ask o.jev_url url q) [ none ↦ [] | some a ↦ a ∷ [] ]
got o url j (q ∷ r ∷ qs) =
    or_nil (j.ask_batch (elim url [ none ↦ o.jev_url | some u ↦ some u ]) (q ∷ r ∷ qs))

unfoldable pub answers : Outside → Option String → List Askable → List (Option Answer)
unfolding pad got
answers o url askable =
    pad (length askable)
      (elim o.jev [ none ↦ [] | some j ↦ got o url j (map (λ a. a.asked) askable) ])

-- `{k: v for k, v in ev.items() if k != "_attempts"}` with the attempts used.
unfoldable pub parked_entry : Entry → ℕ → Entry
parked_entry en used = record { event = record en.event { marked = none }; attempts = used }

unfoldable pub rest_parked : List Askable → List Entry
rest_parked [] = []
rest_parked (a ∷ as') = let rest = rest_parked as' in if a.is_def then a.entry ∷ rest else rest

-- `spent += tok; _save_budget(d, date, spent)`
unfoldable pub charge : Config → Outcome → Run → Run
unfolding save_budget
charge c out run =
    let spent = run.spent + out.tokens in
    record run { spent = spent; file = save_budget c spent run.file }

-- What an outcome adds to the entries that stay.
unfoldable pub kept_entry : Entry → Outcome → List Entry
unfolding parked_entry
kept_entry en out = if out.park then parked_entry en out.used ∷ [] else []

-- The loop over the answers: the entries that stay, and the run behind it.
unfoldable pub settle : Config → List Askable → List (Option Answer) → Run → List Entry × Run
unfolding handle charge kept_entry rest_parked
settle c [] answers run = ([], run)
settle c (a ∷ more) [] run = ([], run)
settle c (a ∷ more) (ans ∷ answers) run =
    let (out, run1) = handle c a.entry.event a.entry.attempts a.is_def ans run in
    let run2 = charge c out run1 in
    let next = settle c more answers run2 in
    if out.stop
    then (kept_entry a.entry out ++ rest_parked more, run2)
    else (kept_entry a.entry out ++ next.0, next.1)

unfoldable pub save_exhausted : List String → Option State → Option State
unfolding state_of sorted
save_exhausted gone file = some (record (state_of file) { exhausted = some (sorted text_le gone) })

-- The poll's rows, and the run behind a `state.error` where it failed.
unfoldable pub take_poll : Poll → Run → List Row × Run
unfolding emit
take_poll (failed err) run = ([], emit (state_error err) run)
take_poll (polled rows) run = (rows, run)

-- The end of a beat: the deferred entries and the exhausted set go back to the state file.
unfoldable pub save : List Entry → Run → Run
unfolding save_deferred save_exhausted
save still run = record run { file = save_exhausted run.exhausted (save_deferred still run.file) }

-- A beat from its queue on, where some leg can be asked.
unfoldable pub work : Config → Outside → Option String → ℕ → Queue → Run → Run
unfolding collect answers settle save parked_of
work c o url max_events q run =
    let chosen = collect c o run (take max_events q) in
    let done = settle c chosen.askable (answers o url chosen.askable) chosen.run in
    save (parked_of (drop max_events q) ++ (chosen.still ++ done.0)) done.1

-- All configured legs are blocked: nothing is asked, and the deferred entries stay.
unfoldable pub legs_exhausted : Queue → Run → Run
unfolding emit save_deferred parked_of
legs_exhausted q run =
    let run' = record run { refusals = run.refusals ++ legs_blocked ∷ [] } in
    let run'' = emit (escalation "" "legs-exhausted") run' in
    record run'' { file = save_deferred (parked_of q) run''.file }

-- The start of a beat over a state file and a ledger.
unfoldable pub start : Config → Option State → Ledger Judgment → Run
unfolding budget
start c file ledger = record {
  file = file;
  ledger = ledger;
  refusals = [];
  emitted = [];
  exhausted = [];
  spent = budget c file;
}

-- The queue's round, by the url of the leg to ask and whether legs are configured.
unfoldable pub round : Config → Outside → ℕ → Option String → Bool → Queue → Run → Run
unfolding work legs_exhausted
round c o max_events none true q run = legs_exhausted q run
round c o max_events none false q run = work c o none max_events q run
round c o max_events (some url) configured q run = work c o (some url) max_events q run

-- The rows of the poll decide which exhausted beads stay; a failed poll has no rows.
unfoldable pub still_exhausted : List Row → Option State → List String
unfolding text_or exhausted
still_exhausted rows file = select (contains (map (λ r. text_or r.id) rows)) (exhausted file)

-- `_beat(d, max_events, repo_root)`
unfoldable pub beat : Config → Outside → ℕ → Poll → Option State → Ledger Judgment → Run
unfolding start take_poll still_exhausted deferred queue leg_url round
beat c o max_events poll file ledger =
    let (rows, run) = take_poll poll (start c file ledger) in
    let gone = still_exhausted rows file in
    let (url, configured) = leg_url c in
    round c o max_events url configured (queue o (deferred file) gone rows)
      (record run { exhausted = gone })
