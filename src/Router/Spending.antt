-- ===== src/Router/Spending.antt =====
-- automation/scripts/router-tick.py: what a call leaves of the day's filing budget.
use Prim.Native.Nat.{ℕ}
use hngh.Prelude.{◌≡◌, refl, ◌∙◌, Option, none, some, Bool, ◌||◌, leb, if_ind}
use hngh.Texts.{Text, codes, same_text, holds}
use hngh.Router.{Env, World, silence}
use hngh.Router.Params.{escalate_n}
use hngh.Router.Plans.{occurrence_count, bumped_text}
use hngh.Router.Chains.{Found, report_expired, expire_stale_candidates}
use hngh.Router.Shapes.{Shape}
use hngh.Router.Repeat.{
  Repeat, status, body_of, name_of, in_progress, bump_plan, dispose_plan, park_plan,
  count_occurrence, escalate, report_recurring, suppress, close_lane, repeat_rows, repeat,
}
use hngh.Router.Route.{names, plan_name, minted, mint, end_lane, park_lane, defer}
use hngh.Router.Main.{still_open, refire_plan, refire_step, refire}
use hngh.Router.Filed.{report-budget, breadcrumb-budget, told-budget}

module _ (e : Env) where
  abbrev Same : World → World → Type 0
  Same w v = v.budget ≡ w.budget

  abbrev SameOf : World → Bool × World → Type 0
  SameOf w v = v.1.budget ≡ w.budget

  report_expired-budget :
      (identity : Text) (o : Option Found) (w : World)
      → (report_expired e identity o w).budget ≡ w.budget
  unfolding report_expired
  report_expired-budget identity none w = refl
  report_expired-budget identity (some found) w = report-budget e _ _ _ _ w

  pub expire_stale-budget :
      (identity : Text) (w : World) → (expire_stale_candidates e identity w).1.budget ≡ w.budget
  unfolding expire_stale_candidates
  expire_stale-budget identity w = report_expired-budget identity _ _

  park_plan-budget :
      (r : Repeat) (o : Option Text) (w : World) → (park_plan e r o w).1.budget ≡ w.budget
  unfolding park_plan dispose_plan
  park_plan-budget r none w = refl
  park_plan-budget r (some body) w = if_ind (SameOf w) e.shared_dir (λ _. refl) (λ _. refl)

  count_occurrence-budget : (r : Repeat) (w : World) → (count_occurrence e r w).1.budget ≡ w.budget
  unfolding count_occurrence bump_plan
  count_occurrence-budget r w =
      if_ind (SameOf w) (in_progress r || e.dry_run) (λ _. refl)
        (λ _.
          if_ind (SameOf w) (leb (escalate_n e) (occurrence_count (bumped_text e r.text)))
            (λ _. park_plan-budget r _ (bump_plan (name_of r) (bumped_text e r.text) w))
            (λ _. refl))

  report_recurring-budget :
      (identity : Text) (count : ℕ) (w : World)
      → (report_recurring e identity count w).budget ≡ w.budget
  unfolding report_recurring
  report_recurring-budget identity count w =
      if_ind (Same w) (leb 3 count) (λ _. report-budget e _ _ _ _ w) (λ _. refl)

  suppress-budget :
      (identity : Text) (r : Repeat) (count : ℕ) (w : World)
      → (suppress e identity r count w).budget ≡ w.budget
  unfolding suppress
  suppress-budget identity r count w =
      breadcrumb-budget e _ _ _
      ∙ report_recurring-budget identity count _
      ∙ report-budget e _ _ _ _ w

  repeat_rows-budget :
      (identity : Text) (r : Repeat) (w : World) → (repeat_rows e identity r w).budget ≡ w.budget
  unfolding repeat_rows escalate
  repeat_rows-budget identity r w =
      if_ind (Same w) (same_text (status r) (codes "expired")) (λ _. told-budget e _ _ _ _ _ _ w)
        (λ _. suppress-budget identity r _ w)

  close_lane-budget :
      (identity : Text) (r : Repeat) (w : World) → (close_lane e identity r w).budget ≡ w.budget
  unfolding close_lane silence
  close_lane-budget identity r w = told-budget e _ _ _ _ _ _ (silence e identity w)

  pub repeat-budget :
      (identity : Text) (r : Repeat) (w : World) → (repeat e identity r w).1.budget ≡ w.budget
  unfolding repeat
  repeat-budget identity r w =
      let counted = (count_occurrence e r w).1 in
      let told = repeat_rows-budget identity r counted ∙ count_occurrence-budget r w in
      if_ind (Same w) (count_occurrence e r w).0
        (λ _. close_lane-budget identity r (repeat_rows e identity r counted) ∙ told) (λ _. told)

  pub end_lane-budget :
      (identity : Text) (n : ℕ) (w : World) → (end_lane e identity n w).budget ≡ w.budget
  unfolding end_lane
  end_lane-budget identity n w = told-budget e _ _ _ _ _ _ w

  pub park_lane-budget : (identity : Text) (w : World) → (park_lane e identity w).budget ≡ w.budget
  unfolding park_lane silence
  park_lane-budget identity w = told-budget e _ _ _ _ _ _ (silence e identity w)

  pub defer-budget : (identity : Text) (w : World) → (defer e identity w).budget ≡ w.budget
  unfolding defer
  defer-budget identity w = told-budget e _ _ _ _ _ _ w

  pub mint-budget :
      (identity text : Text) (shape : Shape) (w : World)
      → (mint e identity text shape w).budget ≡ w.budget
  unfolding mint minted
  mint-budget identity text shape w =
      if_ind (Same w) e.dry_run (λ _. refl) (λ _. told-budget e _ _ _ _ _ _ _)

  refire_plan-budget :
      (identity slug : Text) (step : Option ℕ) (t : Text) (w : World)
      → (refire_plan e identity slug step t w).budget ≡ w.budget
  unfolding refire_plan
  refire_plan-budget identity slug step t w =
      if_ind (Same w) (still_open t step) (λ _. told-budget e _ _ _ _ _ _ w)
        (λ _. told-budget e _ _ _ _ _ _ w)

  refire_step-budget :
      (identity : Text) (named : Text × Option ℕ) (w : World)
      → (refire_step e identity named w).budget ≡ w.budget
  unfolding refire_step
  refire_step-budget identity (slug, step) w =
      if_ind (Same w) (holds (names w.plans) (plan_name slug))
        (λ _. refire_plan-budget identity slug step (body_of (plan_name slug) w.plans) w)
        (λ _. breadcrumb-budget e _ _ w)

  pub refire-budget : (identity : Text) (w : World) → (refire e identity w).budget ≡ w.budget
  unfolding refire
  refire-budget identity w = refire_step-budget identity _ w
