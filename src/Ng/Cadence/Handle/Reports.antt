-- ===== src/Ng/Cadence/Handle/Reports.antt =====
-- Whom the emitted events name: a bead that is not parked is named.
use text.Mathlib.TextPositions.{eq_refl}
use hngh.Prelude.{
  ℕ, ◌+◌, ◌≡◌, refl, String, Option, none, some, List, Bool, true, ◌||◌, not, any, any-snoc, leb,
  or_right, pos_part, ◌==◌, str_eq, if_ind, arith, contains,
}
use hngh.Ng.Contract.{Event, Answer, value}
use hngh.Ng.Ledger.{append}
use hngh.Ng.Cadence.Config.{Config, attempt_cap}
use hngh.Ng.Cadence.State.{BeadEvent, dispatch_admit}
use hngh.Ng.Cadence.Handle.{
  Judgment, escalation, budget_escalation, slice_proposed, slice_retry, bead_close, state_error,
  Run, emit, add_exhausted, Outcome, give_up, label_text, is_done, consume, refuse_stale, handle,
}
use hngh.Ng.Cadence.Handle.Outcomes.{Effect, kept, said, proposed, retired}

-- The bead that an event is about.
abbrev pub bead : Judgment → String
bead (escalation b _) = b
bead (budget_escalation b _ _) = b
bead (slice_proposed b _) = b
bead (slice_retry b _) = b
bead (bead_close b) = b
bead (state_error _) = ""

-- Some event is about the bead.
abbrev pub named : List (Event Judgment) → String → Bool
named evs b = any (λ ev. str_eq b (bead ev.payload)) evs

named-emit :
    (j : Judgment) (run : Run) (b : String)
    → named (emit j run).emitted b ≡ (named run.emitted b || str_eq b (bead j))
unfolding emit append
named-emit j run b = any-snoc (λ ev. str_eq b (bead ev.payload)) run.emitted _

pub emitted-add_exhausted :
    (bid : String) (run : Run) → (add_exhausted bid run).emitted ≡ run.emitted
unfolding add_exhausted
emitted-add_exhausted bid run =
    if_ind (λ (r : Run). r.emitted ≡ run.emitted) (contains run.exhausted bid) (λ _. refl)
      (λ _. refl)

named_mono :
    (j : Judgment) (run : Run) (b : String)
    → named run.emitted b ≡ true
    → named (emit j run).emitted b ≡ true
named_mono j run b h = rw named-emit (rw h)

pub named-emit_self : (j : Judgment) (run : Run) → named (emit j run).emitted (bead j) ≡ true
named-emit_self j run = rw named-emit (ground (arith, eq_refl (bead j)))

pub named-Effect :
    {c : Config} {run after : Run} (b : String)
    → Effect c run after
    → named run.emitted b ≡ true
    → named after.emitted b ≡ true
named-Effect b kept h = h
named-Effect b (said j {r} q e) h = named_mono j r b (named-Effect b e h)
named-Effect b (proposed bid action {r} q e) h =
    named_mono (slice_proposed bid action) _ b (named-Effect b e h)
named-Effect b (retired bid {r} e) h = rw (emitted-add_exhausted bid r) (named-Effect b e h)

module _ (c : Config) (ev : BeadEvent) (attempts : ℕ) where
  -- The entry is parked, or an event of the run is about its bead.
  abbrev Accounted : Outcome × Run → Type 0
  Accounted r = (r.0.park || named r.1.emitted ev.payload.id) ≡ true

  give_up-Accounted : (used tok : ℕ) (run : Run) → Accounted (give_up ev.payload.id used tok run)
  unfolding give_up
  give_up-Accounted used tok run =
      rw
        (emitted-add_exhausted ev.payload.id
          (emit (escalation ev.payload.id "attempts-exhausted") run))
        (named-emit_self (escalation ev.payload.id "attempts-exhausted") run)

  consume-Accounted :
      (is_def : Bool) (ans : Answer) (run : Run) → Accounted (consume c ev attempts is_def ans run)
  unfolding consume
  consume-Accounted is_def ans run =
      let bid = ev.payload.id in
      let last = leb (attempt_cap c) (attempts + 1) in
      if_ind Accounted (is_done c ans "file")
        (λ _.
          if_ind Accounted (not (dispatch_admit c run.file).0)
            (λ _. or_right is_def (named-emit_self (escalation bid "dispatch-capped") run))
            (λ _.
              named-emit_self (slice_proposed bid ans.label)
                (record run { file = (dispatch_admit c run.file).1 })))
        (λ _.
          if_ind Accounted (is_done c ans "close") (λ _. named-emit_self (bead_close bid) run)
            (λ _.
              if_ind Accounted (is_done c ans "retry")
                (λ _.
                  if_ind Accounted last
                    (λ _. give_up-Accounted (attempts + 1) (pos_part ans.input_tokens) run)
                    (λ _. refl))
                (λ _.
                  if_ind Accounted
                    (str_eq (value ans.verdict) "escalate" || str_eq (label_text c ans) "escalate")
                    (λ _.
                      if_ind Accounted last
                        (λ _. give_up-Accounted (attempts + 1) (pos_part ans.input_tokens) run)
                        (λ _. refl))
                    (λ _.
                      if_ind Accounted last
                        (λ _. give_up-Accounted (attempts + 1) (pos_part ans.input_tokens) run)
                        (λ _. refl)))))

  pub handle-Accounted :
      (is_def : Bool) (ans : Option Answer) (run : Run)
      → Accounted (handle c ev attempts is_def ans run)
  unfolding handle refuse_stale
  handle-Accounted is_def none run = named-emit_self (escalation ev.payload.id "jev-error") run
  handle-Accounted is_def (some ans) run =
      if_ind Accounted (not (ans.state_version == ev.state_version))
        (λ _.
          if_ind Accounted (leb (attempt_cap c) (attempts + 1))
            (λ _.
              give_up-Accounted (attempts + 1) (pos_part ans.input_tokens)
                (emit (escalation ev.payload.id "stale-version") run))
            (λ _. refl))
        (λ _. consume-Accounted is_def ans run)
