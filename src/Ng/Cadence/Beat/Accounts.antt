-- ===== src/Ng/Cadence/Beat/Accounts.antt =====
-- What a beat does to the ledger, the dispatch count and the budget row.
use hngh.Prelude.{
  ℕ, ◌+◌, ◌≤◌, ◌≡◌, refl, String, Option, none, some, List, [], ◌∷◌, ◌++◌, Bool, true, false,
  append-nil, arith, take, drop, if_ind,
}
use hngh.Ng.Contract.{Answer}
use hngh.Ng.Ledger.{Ledger}
use hngh.Ng.Cadence.Config.{Config, leg_url, token_cap}
use hngh.Ng.Cadence.State.{State, state_of, Entry, budget, save_deferred}
use hngh.Ng.Cadence.State.Counters.{budget-save_budget, dispatch-save_budget}
use hngh.Ng.Cadence.Handle.{
  legs_blocked, Judgment, escalation, state_error, budget_escalation, Run, Outcome, handle,
}
use hngh.Ng.Cadence.Handle.Outcomes.{IsRun, emit-IsRun, Effect-IsRun, handle-Effect}
use hngh.Ng.Cadence.Beat.{
  Poll, failed, polled, Outside, Queue, Askable, Collected, collect, over_budget, degraded,
  refuse_budget, charge, settle, save, save_exhausted, take_poll, work, legs_exhausted, round,
  start, parked_of, answers, beat,
}

module _ (c : Config) (file : Option State) (ledger : Ledger Judgment) where
  abbrev Ok : Run → Type 0
  Ok = IsRun c file ledger

  abbrev OkPair : List Entry × Run → Type 0
  OkPair p = Ok p.1

  abbrev OkCollected : Collected → Type 0
  OkCollected p = Ok p.run

  -- A change of the fields that the invariant does not read.
  same-IsRun :
      {run after : Run}
      → after.ledger ≡ run.ledger
      → after.emitted ≡ run.emitted
      → (state_of after.file).dispatch ≡ (state_of run.file).dispatch
      → budget c after.file ≡ after.spent
      → run.spent ≤ after.spent
      → Ok run
      → Ok after
  same-IsRun l e d b s h = record {
    logged = rw (l, e) h.logged;
    counted = rw (l, e) h.counted;
    dispatched = rw (d, e) h.dispatched;
    under_ceiling = rw d h.under_ceiling;
    budgeted = b;
    spends = omega arith;
  }

  charge-IsRun : (out : Outcome) (run : Run) → Ok run → Ok (charge c out run)
  unfolding charge
  charge-IsRun out run h =
      same-IsRun refl refl (dispatch-save_budget c run.file (run.spent + out.tokens))
        (budget-save_budget c run.file (run.spent + out.tokens)) (omega arith) h

  settle-IsRun :
      (askable : List Askable) (answers : List (Option Answer)) (run : Run)
      → Ok run
      → Ok (settle c askable answers run).1
  unfolding settle
  settle-IsRun [] answers run h = h
  settle-IsRun (a ∷ more) [] run h = h
  settle-IsRun (a ∷ more) (ans ∷ answers) run h =
      let r = handle c a.entry.event a.entry.attempts a.is_def ans run in
      let h1 =
        Effect-IsRun c file ledger h
          (handle-Effect c a.entry.event a.entry.attempts a.is_def ans run) in
      let h2 = charge-IsRun r.0 r.1 h1 in
      if_ind OkPair r.0.stop (λ _. h2) (λ _. settle-IsRun more answers _ h2)

  refuse_budget-IsRun : (en : Entry) (run : Run) → Ok run → Ok (refuse_budget c en run)
  unfolding refuse_budget
  refuse_budget-IsRun en run h =
      emit-IsRun c file ledger (budget_escalation en.event.payload.id run.spent (token_cap c)) _
        refl (same-IsRun refl refl refl h.budgeted (omega arith) h)

  collect-IsRun : (o : Outside) (run : Run) (q : Queue) → Ok run → Ok (collect c o run q).run
  unfolding collect
  collect-IsRun o run [] h = h
  collect-IsRun o run ((en, is_def) ∷ rest) h =
      let rec = collect-IsRun o run rest h in
      if_ind OkCollected (over_budget c o run en) (λ _. refuse_budget-IsRun en run h)
        (λ _.
          if_ind OkCollected (degraded c run en)
            (λ _. if_ind OkCollected is_def (λ _. rec) (λ _. rec)) (λ _. rec))

  save-IsRun : (still : List Entry) (run : Run) → Ok run → Ok (save still run)
  unfolding save save_deferred save_exhausted budget state_of
  save-IsRun still run h = same-IsRun refl refl refl h.budgeted (omega arith) h

  work-IsRun :
      (o : Outside) (url : Option String) (n : ℕ) (q : Queue) (run : Run)
      → Ok run
      → Ok (work c o url n q run)
  unfolding work
  work-IsRun o url n q run h =
      let chosen = collect c o run (take n q) in
      let told = answers o url chosen.askable in
      let done = settle c chosen.askable told chosen.run in
      save-IsRun (parked_of (drop n q) ++ (chosen.still ++ done.0)) done.1
        (settle-IsRun chosen.askable told chosen.run (collect-IsRun o run (take n q) h))

  legs_exhausted-IsRun : (q : Queue) (run : Run) → Ok run → Ok (legs_exhausted q run)
  unfolding legs_exhausted save_deferred budget state_of
  legs_exhausted-IsRun q run h =
      let h1 : Ok (record run { refusals = run.refusals ++ legs_blocked ∷ [] }) =
        same-IsRun refl refl refl h.budgeted (omega arith) h in
      let h2 = emit-IsRun c file ledger (escalation "" "legs-exhausted") _ refl h1 in
      same-IsRun refl refl refl h2.budgeted (omega arith) h2

  start-IsRun : Ok (start c file ledger)
  unfolding start
  start-IsRun = record {
    logged = rw append-nil;
    counted = omega arith;
    dispatched = omega arith;
    under_ceiling = omega arith;
    budgeted = refl;
    spends = omega arith;
  }

  take_poll-IsRun : (p : Poll) (run : Run) → Ok run → Ok (take_poll p run).1
  unfolding take_poll
  take_poll-IsRun (failed err) run h = emit-IsRun c file ledger (state_error err) run refl h
  take_poll-IsRun (polled rows) run h = h

  round-IsRun :
      (o : Outside) (n : ℕ) (url : Option String) (configured : Bool) (q : Queue) (run : Run)
      → Ok run
      → Ok (round c o n url configured q run)
  unfolding round
  round-IsRun o n none true q run h = legs_exhausted-IsRun q run h
  round-IsRun o n none false q run h = work-IsRun o none n q run h
  round-IsRun o n (some url) configured q run h = work-IsRun o (some url) n q run h

-- A beat, whatever it is answered, appends to the ledger exactly the events that it returns, one
-- version each; the day's dispatch count in the state file grows by the number of dispatches that it
-- proposes and does not pass the ceiling, unless it stood above it before; the budget row in the
-- state file is the count of tokens spent, and never less than before.
pub beat-IsRun :
    (c : Config) (o : Outside) (max_events : ℕ) (poll : Poll) (file : Option State)
    (ledger : Ledger Judgment)
    → IsRun c file ledger (beat c o max_events poll file ledger)
unfolding beat
beat-IsRun c o max_events poll file ledger =
    let h = take_poll-IsRun c file ledger poll _ (start-IsRun c file ledger) in
    round-IsRun c file ledger o max_events (leg_url c).0 (leg_url c).1 _ _
      (same-IsRun c file ledger refl refl refl h.budgeted (omega arith) h)
