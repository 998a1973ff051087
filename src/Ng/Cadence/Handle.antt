-- ===== src/Ng/Cadence/Handle.antt =====
-- automation/ng/cadence.py: `_emit` and `_handle`, which consumes one answer.
pub mod Halts
pub mod Outcomes
pub mod Reports
use hngh.Prelude.{
  ℕ, ◌+◌, String, Option, none, some, List, [], ◌∷◌, ◌++◌, Bool, true, false, not, ◌&&◌, ◌||◌,
  pos_part, leb, ◌==◌, if◌then◌else◌, str_eq, contains,
}
use hngh.Ng.Contract.{Event, Answer, Verdict, value}
use hngh.Ng.Ledger.{Ledger, append}
use hngh.Ng.Cadence.Config.{Config, attempt_cap}
use hngh.Ng.Cadence.State.{State, BeadEvent, dispatch_admit}

-- What a judgment event says: its kind and its payload.
pub data Judgment : Type 0 where
  escalation : (bead reason : String) → Judgment
  budget_escalation : (bead : String) (input_tokens cap : ℕ) → Judgment
  slice_proposed : (bead : String) (action : Option String) → Judgment
  slice_retry : (bead : String) (attempts : ℕ) → Judgment
  bead_close : (bead : String) → Judgment
  state_error : (error : String) → Judgment

unfoldable pub kind : Judgment → String
kind (escalation _ _) = "escalation.filed"
kind (budget_escalation _ _ _) = "escalation.filed"
kind (slice_proposed _ _) = "slice.proposed"
kind (slice_retry _ _) = "slice.retry"
kind (bead_close _) = "bead.close"
kind (state_error _) = "state.error"

-- A refusal that a gate reports: `_gate_refusal`.
pub data Refusal : Type 0 where
  legs_blocked : Refusal
  budget_spent : (spent cap : ℕ) → Refusal

-- What one beat reads and writes: the state file, the ledger, the refusals reported, the events
-- emitted in this beat, the set of exhausted beads and the tokens spent today.
pub record Run : Type 0 where
  pub file : Option State
  pub ledger : Ledger Judgment
  pub refusals : List Refusal
  pub emitted : List (Event Judgment)
  pub exhausted : List String
  pub spent : ℕ

-- `emitted.append(_emit(d, kind, payload))`
unfoldable pub emit : Judgment → Run → Run
emit j run =
    let (ev, ledger) = append (kind j) j [] run.ledger in
    record run { ledger = ledger; emitted = run.emitted ++ ev ∷ [] }

-- `exhausted.add(bid)`
unfoldable pub add_exhausted : String → Run → Run
add_exhausted bid run =
    if contains run.exhausted bid then run else record run { exhausted = run.exhausted ++ bid ∷ [] }

-- What `_handle` returns.
pub record Outcome : Type 0 where
  pub used : ℕ
  pub park : Bool
  pub tokens : ℕ
  pub stop : Bool

abbrev pub outcome : ℕ → Bool → ℕ → Bool → Outcome
outcome used park tokens stop = record { used = used; park = park; tokens = tokens; stop = stop }

-- The end of a bead's attempts: one last escalation, and the bead leaves the loop.
unfoldable pub give_up : String → ℕ → ℕ → Run → Outcome × Run
unfolding emit add_exhausted
give_up bid used tok run = (
  outcome used false tok false,
  add_exhausted bid (emit (escalation bid "attempts-exhausted") run),
)

-- `label` in lower case, and empty where there is none.
unfoldable pub label_text : Config → Answer → String
label_text c ans = elim ans.label [ none ↦ "" | some l ↦ c.py.lower l ]

-- `v == done and label == name`
unfoldable pub is_done : Config → Answer → String → Bool
unfolding label_text
is_done c ans name = str_eq (value ans.verdict) "done" && str_eq (label_text c ans) name

-- The answer to a question of this snapshot.
unfoldable pub consume : Config → BeadEvent → ℕ → Bool → Answer → Run → Outcome × Run
unfolding is_done label_text emit dispatch_admit give_up
consume c ev attempts is_def ans run =
    let bid = ev.payload.id in
    let tok = pos_part ans.input_tokens in
    let used = attempts + 1 in
    let (admitted, file) = dispatch_admit c run.file in
    let last = leb (attempt_cap c) used in
    if is_done c ans "file"
    then (if not admitted
        then (outcome used is_def tok true, emit (escalation bid "dispatch-capped") run)
        else (
          outcome used false tok false,
          emit (slice_proposed bid ans.label) (record run { file = file }),
        ))
    else if is_done c ans "close"
    then (outcome used false tok false, emit (bead_close bid) run)
    else if is_done c ans "retry"
    then (if last
        then give_up bid used tok run
        else (outcome used true tok false, emit (slice_retry bid used) run))
    else if str_eq (value ans.verdict) "escalate" || str_eq (label_text c ans) "escalate"
    then (if last
        then give_up bid used tok run
        else (outcome used true tok false, emit (escalation bid "jev-escalate") run))
    else if last
    then give_up bid used tok run
    else (outcome used true tok false, run)

-- An answer bound to another snapshot.
unfoldable pub refuse_stale : Config → BeadEvent → ℕ → Answer → Run → Outcome × Run
unfolding emit give_up
refuse_stale c ev attempts ans run =
    let bid = ev.payload.id in
    let tok = pos_part ans.input_tokens in
    let used = attempts + 1 in
    let run' = emit (escalation bid "stale-version") run in
    if leb (attempt_cap c) used
    then give_up bid used tok run'
    else (outcome used true tok false, run')

-- `_handle(d, ev, attempts, emitted, ans, is_def, exhausted)`
unfoldable pub handle : Config → BeadEvent → ℕ → Bool → Option Answer → Run → Outcome × Run
unfolding emit consume refuse_stale
handle c ev attempts is_def none run =
    (outcome (attempts + 1) false 0 false, emit (escalation ev.payload.id "jev-error") run)
handle c ev attempts is_def (some ans) run =
    if not (ans.state_version == ev.state_version)
    then refuse_stale c ev attempts ans run
    else consume c ev attempts is_def ans run
