-- ===== src/Router/Filed.antt =====
-- automation/scripts/router-tick.py: what rows and crumbs leave as it is.
use Prim.Native.Nat.{ℕ}
use hngh.Prelude.{◌≡◌, refl, ◌∙◌, if_ind}
use hngh.Texts.{Text}
use hngh.Router.{Env, World, report, breadcrumb, silence}

module _ (e : Env) where
  pub report-plans :
      (kind content ident : Text) (window : ℕ) (w : World)
      → (report e kind content ident window w).plans ≡ w.plans
  unfolding report
  report-plans kind content ident window w =
      if_ind (λ (v : World). v.plans ≡ w.plans) e.dry_run (λ _. refl) (λ _. refl)

  pub report-budget :
      (kind content ident : Text) (window : ℕ) (w : World)
      → (report e kind content ident window w).budget ≡ w.budget
  unfolding report
  report-budget kind content ident window w =
      if_ind (λ (v : World). v.budget ≡ w.budget) e.dry_run (λ _. refl) (λ _. refl)

  pub breadcrumb-plans :
      (event detail : Text) (w : World) → (breadcrumb e event detail w).plans ≡ w.plans
  unfolding breadcrumb
  breadcrumb-plans event detail w =
      if_ind (λ (v : World). v.plans ≡ w.plans) e.dry_run (λ _. refl) (λ _. refl)

  pub breadcrumb-budget :
      (event detail : Text) (w : World) → (breadcrumb e event detail w).budget ≡ w.budget
  unfolding breadcrumb
  breadcrumb-budget event detail w =
      if_ind (λ (v : World). v.budget ≡ w.budget) e.dry_run (λ _. refl) (λ _. refl)

  pub breadcrumb-queue :
      (event detail : Text) (w : World) → (breadcrumb e event detail w).queue ≡ w.queue
  unfolding breadcrumb
  breadcrumb-queue event detail w =
      if_ind (λ (v : World). v.queue ≡ w.queue) e.dry_run (λ _. refl) (λ _. refl)

  pub silence-plans : (identity : Text) (w : World) → (silence e identity w).plans ≡ w.plans
  unfolding silence
  silence-plans identity w = refl

  -- A row, and the crumb behind it.
  pub told-plans :
      (event detail kind content ident : Text) (window : ℕ) (w : World)
      → (breadcrumb e event detail (report e kind content ident window w)).plans ≡ w.plans
  told-plans event detail kind content ident window w =
      breadcrumb-plans event detail (report e kind content ident window w)
      ∙ report-plans kind content ident window w

  pub told-budget :
      (event detail kind content ident : Text) (window : ℕ) (w : World)
      → (breadcrumb e event detail (report e kind content ident window w)).budget ≡ w.budget
  told-budget event detail kind content ident window w =
      breadcrumb-budget event detail (report e kind content ident window w)
      ∙ report-budget kind content ident window w
