-- ===== src/Ng/Cadence/Handle/Halts.antt =====
-- The attempt cap of `_handle`.
use hngh.Prelude.{
  ℕ, ◌+◌, ◌<◌, ◌≡◌, refl, Option, none, some, List, Bool, true, false, ◌||◌, not, any, any-snoc,
  leb, or_right, pos_part, ◌==◌, str_eq, if_ind, arith, ◌⊎◌, inl, inr,
}
use hngh.Ng.Contract.{Event, Answer, value}
use hngh.Ng.Ledger.{append}
use hngh.Ng.Cadence.Config.{Config, attempt_cap}
use hngh.Ng.Cadence.State.{BeadEvent, dispatch_admit}
use hngh.Ng.Cadence.Handle.{
  Judgment, escalation, slice_retry, Run, emit, Outcome, outcome, give_up, label_text, is_done,
  consume, refuse_stale, handle,
}
use hngh.Ng.Cadence.Handle.Outcomes.{Effect, kept, said, proposed, retired}
use hngh.Ng.Cadence.Handle.Reports.{emitted-add_exhausted}

-- The event reports a dispatch that the ceiling refused.
abbrev pub is_capped : Judgment → Bool
is_capped (escalation _ reason) = str_eq reason "dispatch-capped"
is_capped _ = false

abbrev pub capped : List (Event Judgment) → Bool
capped evs = any (λ ev. is_capped ev.payload) evs

pub capped-emit :
    (j : Judgment) (run : Run) → capped (emit j run).emitted ≡ (capped run.emitted || is_capped j)
unfolding emit append
capped-emit j run = any-snoc (λ ev. is_capped ev.payload) run.emitted _

module _ (c : Config) (ev : BeadEvent) (attempts : ℕ) where
  -- An attempt is used; a parked entry is below the cap, or the dispatch ceiling refused it.
  abbrev pub Capped : Outcome × Run → Type 0
  Capped r =
      (r.0.used ≡ attempts + 1)
      × (r.0.park ≡ true → (attempts + 1 < attempt_cap c) ⊎ (capped r.1.emitted ≡ true))
      × (r.0.stop ≡ true → capped r.1.emitted ≡ true)

  below :
      (tok : ℕ) (run : Run)
      → leb (attempt_cap c) (attempts + 1) ≡ false
      → Capped (outcome (attempts + 1) true tok false, run)
  below tok run h = (refl, (λ e. inl (ground arith)), (λ e. cc))

  give_up-Capped : (tok : ℕ) (run : Run) → Capped (give_up ev.payload.id (attempts + 1) tok run)
  unfolding give_up
  give_up-Capped tok run = (refl, (λ e. cc), (λ e. cc))

  consume-Capped :
      (is_def : Bool) (ans : Answer) (run : Run) → Capped (consume c ev attempts is_def ans run)
  unfolding consume
  consume-Capped is_def ans run =
      let bid = ev.payload.id in
      let tok = pos_part ans.input_tokens in
      let last = leb (attempt_cap c) (attempts + 1) in
      let said : capped (emit (escalation bid "dispatch-capped") run).emitted ≡ true =
        rw capped-emit (or_right (capped run.emitted) refl) in
      if_ind Capped (is_done c ans "file")
        (λ _.
          if_ind Capped (not (dispatch_admit c run.file).0)
            (λ _. (refl, (λ _. inr said), (λ _. said))) (λ _. (refl, (λ e. cc), (λ e. cc))))
        (λ _.
          if_ind Capped (is_done c ans "close") (λ _. (refl, (λ e. cc), (λ e. cc)))
            (λ _.
              if_ind Capped (is_done c ans "retry")
                (λ _.
                  if_ind Capped last (λ _. give_up-Capped tok run)
                    (below tok (emit (slice_retry bid (attempts + 1)) run)))
                (λ _.
                  if_ind Capped
                    (str_eq (value ans.verdict) "escalate" || str_eq (label_text c ans) "escalate")
                    (λ _.
                      if_ind Capped last (λ _. give_up-Capped tok run)
                        (below tok (emit (escalation bid "jev-escalate") run)))
                    (λ _. if_ind Capped last (λ _. give_up-Capped tok run) (below tok run)))))

  pub handle-Capped :
      (is_def : Bool) (ans : Option Answer) (run : Run)
      → Capped (handle c ev attempts is_def ans run)
  unfolding handle refuse_stale
  handle-Capped is_def none run = (refl, (λ e. cc), (λ e. cc))
  handle-Capped is_def (some ans) run =
      if_ind Capped (not (ans.state_version == ev.state_version))
        (λ _.
          if_ind Capped (leb (attempt_cap c) (attempts + 1))
            (λ _.
              give_up-Capped (pos_part ans.input_tokens)
                (emit (escalation ev.payload.id "stale-version") run))
            (below (pos_part ans.input_tokens)
              (emit (escalation ev.payload.id "stale-version") run)))
        (λ _. consume-Capped is_def ans run)

pub capped-Effect :
    {c : Config} {run after : Run}
    → Effect c run after
    → capped run.emitted ≡ true
    → capped after.emitted ≡ true
capped-Effect kept h = h
capped-Effect (said j {r} q e) h = rw capped-emit (rw (capped-Effect e h))
capped-Effect (proposed bid action {r} q e) h = rw capped-emit (rw (capped-Effect e h))
capped-Effect (retired bid {r} e) h = rw (emitted-add_exhausted bid r) (capped-Effect e h)
