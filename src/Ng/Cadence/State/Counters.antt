-- ===== src/Ng/Cadence/State/Counters.antt =====
-- The writers of the state file keep one another's keys.
use text.Mathlib.TextPositions.{eq_refl}
use hngh.Prelude.{ℕ, ◌+◌, ◌≤◌, ◌≡◌, Option, true, false, refl, arith}
use hngh.Ng.Cadence.Config.{Config, dispatch_cap}
use hngh.Ng.Cadence.State.{
  State, state_of, day_count, is_today, count_of, budget, save_budget, dispatch_admit,
}

module _ (c : Config) (file : Option State) where
  -- An admitted dispatch is counted, stays within the ceiling and leaves the budget alone.
  pub dispatch_admit-true :
      (dispatch_admit c file).0 ≡ true
      → (day_count c (state_of (dispatch_admit c file).1).dispatch
          ≡ day_count c (state_of file).dispatch + 1)
        × (day_count c (state_of file).dispatch + 1 ≤ dispatch_cap c)
        × (budget c (dispatch_admit c file).1 ≡ budget c file)
  unfolding dispatch_admit day_count is_today count_of budget state_of
  dispatch_admit-true e = ground (arith, eq_refl c.today)

  pub dispatch_admit-false :
      (dispatch_admit c file).0 ≡ false → dispatch_cap c ≤ day_count c (state_of file).dispatch
  unfolding dispatch_admit
  dispatch_admit-false e = ground arith

  pub budget-save_budget : (tokens : ℕ) → budget c (save_budget c tokens file) ≡ tokens
  unfolding budget save_budget day_count is_today count_of state_of
  budget-save_budget tokens = ground (arith, eq_refl c.today)

  pub dispatch-save_budget :
      (tokens : ℕ) → (state_of (save_budget c tokens file)).dispatch ≡ (state_of file).dispatch
  unfolding save_budget state_of
  dispatch-save_budget tokens = refl
