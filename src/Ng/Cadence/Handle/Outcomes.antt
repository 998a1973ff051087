-- ===== src/Ng/Cadence/Handle/Outcomes.antt =====
-- What `_handle` does to a run, and what that keeps: the ledger, the dispatch ceiling and the budget row.
use hngh.Prelude.{
  ℕ, ◌+◌, ◌≤◌, max, ◌≡◌, refl, ap, ◌∙◌, String, Option, none, some, List, [], ◌∷◌, ◌++◌, map, Bool,
  true, inl, inr, length, length-append, leb, append_assoc, arith, Bool-cases, contains, if_ind,
  str_eq, ◌==◌, ◌||◌, not,
}
use hngh.Ng.Contract.{Event, Answer, value}
use hngh.Ng.Ledger.{Ledger, version, append}
use hngh.Ng.Cadence.Config.{Config, attempt_cap, dispatch_cap}
use hngh.Ng.Cadence.State.{State, state_of, BeadEvent, dispatch_admit, day_count, budget}
use hngh.Ng.Cadence.State.Counters.{dispatch_admit-true}
use hngh.Ng.Cadence.Handle.{
  Judgment, slice_proposed, slice_retry, bead_close, escalation, Run, emit, add_exhausted, Outcome,
  give_up, label_text, is_done, consume, refuse_stale, handle,
}

abbrev pub is_proposal : Judgment → ℕ
is_proposal (slice_proposed _ _) = 1
is_proposal _ = 0

-- How many dispatches the events propose.
abbrev pub proposals : List (Event Judgment) → ℕ
proposals [] = 0
proposals (ev ∷ evs) = is_proposal ev.payload + proposals evs

pub proposals-append :
    (xs ys : List (Event Judgment)) → proposals (xs ++ ys) ≡ proposals xs + proposals ys
proposals-append [] ys = omega arith
proposals-append (x ∷ xs) ys = omega (arith, proposals-append xs ys)

map-append-some :
    (xs : List (Event Judgment)) (e : Event Judgment)
    → map some (xs ++ e ∷ []) ≡ map some xs ++ some e ∷ []
map-append-some [] e = refl
map-append-some (x ∷ xs) e = ap (◌∷◌ (some x)) (map-append-some xs e)

-- What `_handle` may do to a run, one step at a time.
pub data Effect (c : Config) (run : Run) : Run → Type 0 where
  kept : Effect c run run
  said : (j : Judgment) {r : Run} → is_proposal j ≡ 0 → Effect c run r → Effect c run (emit j r)
  proposed :
      (bid : String) (action : Option String) {r : Run}
      → (dispatch_admit c r.file).0 ≡ true
      → Effect c run r
      → Effect c run
          (emit (slice_proposed bid action) (record r { file = (dispatch_admit c r.file).1 }))
  retired : (bid : String) {r : Run} → Effect c run r → Effect c run (add_exhausted bid r)

-- The end of a bead's attempts, as two steps.
gives_up :
    {c : Config} {run r : Run} (bid : String)
    → Effect c run r
    → Effect c run (add_exhausted bid (emit (escalation bid "attempts-exhausted") r))
gives_up bid e = retired bid (said (escalation bid "attempts-exhausted") refl e)

module _ (c : Config) (ev : BeadEvent) (attempts : ℕ) where
  abbrev Effects : Run → Outcome × Run → Type 0
  Effects run r = Effect c run r.1

  consume-Effect :
      (is_def : Bool) (ans : Answer) (run : Run)
      → Effects run (consume c ev attempts is_def ans run)
  unfolding consume give_up
  consume-Effect is_def ans run =
      let bid = ev.payload.id in
      let last = leb (attempt_cap c) (attempts + 1) in
      if_ind (Effects run) (is_done c ans "file")
        (λ _.
          if_ind (Effects run) (not (dispatch_admit c run.file).0)
            (λ _. said (escalation bid "dispatch-capped") refl kept)
            (λ e. proposed bid ans.label (ground arith) kept))
        (λ _.
          if_ind (Effects run) (is_done c ans "close") (λ _. said (bead_close bid) refl kept)
            (λ _.
              if_ind (Effects run) (is_done c ans "retry")
                (λ _.
                  if_ind (Effects run) last (λ _. gives_up bid kept)
                    (λ _. said (slice_retry bid (attempts + 1)) refl kept))
                (λ _.
                  if_ind (Effects run)
                    (str_eq (value ans.verdict) "escalate" || str_eq (label_text c ans) "escalate")
                    (λ _.
                      if_ind (Effects run) last (λ _. gives_up bid kept)
                        (λ _. said (escalation bid "jev-escalate") refl kept))
                    (λ _. if_ind (Effects run) last (λ _. gives_up bid kept) (λ _. kept)))))

  pub handle-Effect :
      (is_def : Bool) (ans : Option Answer) (run : Run)
      → Effects run (handle c ev attempts is_def ans run)
  unfolding handle refuse_stale give_up
  handle-Effect is_def none run = said (escalation ev.payload.id "jev-error") refl kept
  handle-Effect is_def (some ans) run =
      let bid = ev.payload.id in
      if_ind (Effects run) (not (ans.state_version == ev.state_version))
        (λ _.
          if_ind (Effects run) (leb (attempt_cap c) (attempts + 1))
            (λ _. gives_up bid (said (escalation bid "stale-version") refl kept))
            (λ _. said (escalation bid "stale-version") refl kept))
        (λ _. consume-Effect is_def ans run)

module _ (c : Config) (file : Option State) (ledger : Ledger Judgment) where
  -- A run of a beat that began with `file` and `ledger`.
  pub record IsRun (run : Run) : Type 0 where
    pub logged : run.ledger.events ≡ ledger.events ++ map some run.emitted
    pub counted : version run.ledger ≡ version ledger + length run.emitted
    pub dispatched :
        day_count c (state_of run.file).dispatch
        ≡ day_count c (state_of file).dispatch + proposals run.emitted
    pub under_ceiling :
        day_count c (state_of run.file).dispatch
        ≤ max (dispatch_cap c) (day_count c (state_of file).dispatch)
    pub budgeted : budget c run.file ≡ run.spent
    pub spends : budget c file ≤ run.spent

  -- Everything but the count of dispatches, for an event that proposes none.
  pub emit-IsRun : (j : Judgment) (run : Run) → is_proposal j ≡ 0 → IsRun run → IsRun (emit j run)
  unfolding emit append version
  emit-IsRun j run e h = record {
    logged = simp (h.logged, map-append-some, append_assoc);
    counted = omega (arith, h.counted, length-append run.emitted);
    dispatched = omega (arith, h.dispatched, proposals-append run.emitted);
    under_ceiling = h.under_ceiling;
    budgeted = h.budgeted;
    spends = h.spends;
  }

  add_exhausted-IsRun : (bid : String) (run : Run) → IsRun run → IsRun (add_exhausted bid run)
  unfolding add_exhausted
  add_exhausted-IsRun bid run h = elim (Bool-cases (contains run.exhausted bid)) [
    | inl e ↦ rw e h
    | inr e ↦ rw e (record {
      logged = h.logged;
      counted = h.counted;
      dispatched = h.dispatched;
      under_ceiling = h.under_ceiling;
      budgeted = h.budgeted;
      spends = h.spends;
    })
  ]

  -- An admitted dispatch: the proposal and its count are one step.
  propose-IsRun :
      (bid : String) (action : Option String) (run : Run)
      → IsRun run
      → (dispatch_admit c run.file).0 ≡ true
      → IsRun
          (emit (slice_proposed bid action) (record run { file = (dispatch_admit c run.file).1 }))
  unfolding emit append version
  propose-IsRun bid action run h e = record {
    logged = simp (h.logged, map-append-some, append_assoc);
    counted = omega (arith, h.counted, length-append run.emitted);
    dispatched =
        omega
          (arith, h.dispatched, proposals-append run.emitted, (dispatch_admit-true c run.file e).0);
    under_ceiling =
        omega (arith, (dispatch_admit-true c run.file e).0, (dispatch_admit-true c run.file e).1);
    budgeted = (dispatch_admit-true c run.file e).2 ∙ h.budgeted;
    spends = h.spends;
  }

  -- Every effect keeps the invariant.
  pub Effect-IsRun : {run after : Run} → IsRun run → Effect c run after → IsRun after
  Effect-IsRun h kept = h
  Effect-IsRun h (said j {r} quiet e) = emit-IsRun j r quiet (Effect-IsRun h e)
  Effect-IsRun h (proposed bid action {r} admitted e) =
      propose-IsRun bid action r (Effect-IsRun h e) admitted
  Effect-IsRun h (retired bid {r} e) = add_exhausted-IsRun bid r (Effect-IsRun h e)
