-- ===== src/Router/Undrafted.antt =====
-- automation/scripts/router-tick.py, route: what is never drafted.
use hngh.Prelude.{
  ◌≡◌, sym, subst, Option, none, some, Bool, true, false, ◌||◌, if_ind, if_true, arith,
}
use hngh.Texts.{Text, codes, occurs}
use hngh.Router.{Env, World}
use hngh.Router.Identity.{ident_ok, lower, scrub_pathy_identity}
use hngh.Router.Shapes.{Shape, critical_keys, has_key, shape_for}
use hngh.Router.Route.{route_shape}
use hngh.Router.Main.{route_scrubbed, route}
use hngh.Router.Filed.{told-plans, told-budget, breadcrumb-plans, breadcrumb-budget}
use hngh.Router.Grown.{refire-plans}
use hngh.Router.Spending.{refire-budget}

module _ (e : Env) (text : Text) (w : World) where
  abbrev Undrafted : World → Type 0
  Undrafted v = (v.plans ≡ w.plans) × (v.budget ≡ w.budget)

  parked-Undrafted :
      (identity : Text) (o : Option Shape) → o ≡ none → Undrafted (route_shape e identity text o w)
  unfolding route_shape
  parked-Undrafted identity none h = (told-plans e _ _ _ _ _ _ w, told-budget e _ _ _ _ _ _ w)
  parked-Undrafted identity (some shape) h = absurd cc

  shape_for-none :
      (identity : Text)
      → has_key (lower identity) critical_keys ≡ true
      → shape_for e identity ≡ none
  unfolding shape_for
  shape_for-none identity h = if_true _ _ _ h

  scrubbed-Undrafted :
      (given identity : Text)
      → (occurs (codes ":plan:") identity || has_key (lower identity) critical_keys) ≡ true
      → Undrafted (route_scrubbed e given text (some identity) w)
  unfolding route_scrubbed
  scrubbed-Undrafted given identity h =
      if_ind Undrafted (occurs (codes ":plan:") identity)
        (λ _. (refire-plans e identity w, refire-budget e identity w))
        (λ free.
          parked-Undrafted identity (shape_for e identity)
            (shape_for-none identity (second _ _ free h)))
    where
      second : (a b : Bool) → a ≡ false → (a || b) ≡ true → b ≡ true
      second a b k m = ground arith

-- An identity that behind the scrub names a plan, or has a critical key in lower case, is never drafted:
-- a call leaves the plans, their texts and the filing budget as they are.
pub route-Undrafted :
    (e : Env) (given identity text : Text) (w : World)
    → scrub_pathy_identity e given ≡ some identity
    → (occurs (codes ":plan:") identity || has_key (lower identity) critical_keys) ≡ true
    → let after = route e given text w in (after.plans ≡ w.plans) × (after.budget ≡ w.budget)
unfolding route
route-Undrafted e given identity text w clean h =
    if_ind (Undrafted e text w) (ident_ok given)
      (λ _.
        subst (λ o. Undrafted e text w (route_scrubbed e given text o w)) (sym clean)
          (scrubbed-Undrafted e text w given identity h))
      (λ _. (breadcrumb-plans e _ _ w, breadcrumb-budget e _ _ w))
