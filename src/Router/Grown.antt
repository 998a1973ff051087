-- ===== src/Router/Grown.antt =====
-- automation/scripts/router-tick.py: a call adds at most one plan, under a name that no file had.
use Prim.Native.Nat.{ℕ}
use hngh.Prelude.{
  ◌≡◌, ap, subst, ◌∙◌, ◌⊎◌, inl, inr, Option, none, some, List, [], ◌∷◌, ◌++◌, Bool, true, false,
  ◌&&◌, ltb, if_ind, leb, Bool-cases, if_true, if_false,
}
use hngh.Texts.{Text, codes, holds, occurs}
use hngh.FilingBudget.{allow}
use hngh.Router.{Env, World, today}
use hngh.Router.Identity.{ident_ok, scrub_pathy_identity, subject_of}
use hngh.Router.Chains.{Found, expire_stale_candidates}
use hngh.Router.Params.{router_reroute_max}
use hngh.Router.Bound.{close_each, chain_expired_close, chain_live_count}
use hngh.Router.Shapes.{Shape, shape_for}
use hngh.Router.Repeat.{Repeat, body_of, repeat}
use hngh.Router.Route.{
  names, plan_name, new_slug, slug_for, candidate, minted, mint, route_budget, route_bound,
  route_fresh, then_fresh, route_found, route_shape,
}
use hngh.Router.Main.{still_open, refire_plan, refire_step, refire, route_scrubbed, route}
use hngh.Router.Filed.{breadcrumb-plans, told-plans}
use hngh.Router.Free.{new_slug-free}
use hngh.Router.Kept.{
  SamePlans, names-append, names-expire_stale, names-close_each, repeat-names, end_lane-plans,
  park_lane-plans, defer-plans,
}

-- The same names, or one more, which no file had.
abbrev pub Grown : List Text → World → Type 0
Grown before w =
    (names w.plans ≡ before)
    ⊎ ((name : Text) × (names w.plans ≡ before ++ name ∷ []) × (holds before name ≡ false))

module _ (e : Env) where
  minted-plans :
      (identity text : Text) (shape : Shape) (w : World)
      → (minted e identity text shape w).plans ≡ w.plans ++ candidate e identity text shape w ∷ []
  unfolding minted
  minted-plans identity text shape w = told-plans e _ _ _ _ _ _ _

  pub mint-plans :
      (identity text : Text) (shape : Shape) (w : World)
      → e.dry_run ≡ false
      → (mint e identity text shape w).plans ≡ w.plans ++ candidate e identity text shape w ∷ []
  unfolding mint
  mint-plans identity text shape w h =
      ap (λ (v : World). v.plans) (if_false _ _ _ h) ∙ minted-plans identity text shape w

  mint-Grown :
      (identity text : Text) (shape : Shape) (w : World)
      → Grown (names w.plans) (mint e identity text shape w)
  unfolding candidate
  mint-Grown identity text shape w = elim (Bool-cases e.dry_run) [
    | inl dry ↦ inl (unfold mint in ap (λ (v : World). names v.plans) (if_true _ _ _ dry))
    | inr wet ↦ inr (
      plan_name (new_slug (names w.plans) (slug_for e identity)),
      ap names (mint-plans identity text shape w wet) ∙ names-append w.plans _,
      new_slug-free (names w.plans) (slug_for e identity),
    )
  ]

  route_budget-Grown :
      (identity text : Text) (shape : Shape) (w : World)
      → Grown (names w.plans) (route_budget e identity text shape w)
  unfolding route_budget
  route_budget-Grown identity text shape w =
      if_ind (Grown (names w.plans)) (allow e.host (codes "routed") identity (today e) w.budget).0
        (λ _.
          mint-Grown identity text shape
            (record w { budget = (allow e.host (codes "routed") identity (today e) w.budget).1 }))
        (λ _. inl (
          ap names (
            defer-plans e identity (record w {
              budget = (allow e.host (codes "routed") identity (today e) w.budget).1;
            }))))

  route_bound-Grown :
      (identity text : Text) (shape : Shape) (closed : ℕ) (w : World)
      → Grown (names w.plans) (route_bound e identity text shape closed w)
  unfolding route_bound
  route_bound-Grown identity text shape closed w =
      let live = chain_live_count identity w.plans in
      if_ind (Grown (names w.plans)) (ltb 0 closed && ltb live (router_reroute_max e))
        (λ _. inl (ap names (end_lane-plans e identity closed w)))
        (λ _.
          if_ind (Grown (names w.plans)) (leb (router_reroute_max e) live)
            (λ _. inl (ap names (park_lane-plans e identity w)))
            (λ _. route_budget-Grown identity text shape w))

  -- Growth from the names that another world has too.
  Grown-from :
      {before : List Text} (w v : World)
      → names w.plans ≡ before
      → Grown (names w.plans) v
      → Grown before v
  Grown-from w v h g = subst (λ ns. Grown ns v) h g

  route_fresh-Grown :
      (identity text : Text) (shape : Shape) (w : World)
      → Grown (names w.plans) (route_fresh e identity text shape w)
  unfolding route_fresh chain_expired_close
  route_fresh-Grown identity text shape w =
      Grown-from (record w { plans = close_each e (subject_of identity) w.plans })
        (route_fresh e identity text shape w) (names-close_each e (subject_of identity) w.plans)
        (route_bound-Grown identity text shape _ _)

  route_found-Grown :
      (identity text : Text) (shape : Shape) (o : Option Found) (w : World)
      → Grown (names w.plans) (route_found e identity text shape o w)
  unfolding route_found
  route_found-Grown identity text shape none w = route_fresh-Grown identity text shape w
  route_found-Grown identity text shape (some (slug, age)) w =
      then_fresh-Grown (repeat e identity r w) (repeat-names e identity r w)
    where
      r : Repeat
      r = record { slug = slug; age = age; text = body_of (plan_name slug) w.plans }

      then_fresh-Grown :
          (told : Bool × World)
          → names told.1.plans ≡ names w.plans
          → Grown (names w.plans) (then_fresh e identity text shape told)
      then_fresh-Grown (false, v) h = inl h
      then_fresh-Grown (true, v) h =
          Grown-from v (route_fresh e identity text shape v) h
            (route_fresh-Grown identity text shape v)

  route_shape-Grown :
      (identity text : Text) (o : Option Shape) (w : World)
      → Grown (names w.plans) (route_shape e identity text o w)
  unfolding route_shape
  route_shape-Grown identity text none w = inl (ap names (told-plans e _ _ _ _ _ _ w))
  route_shape-Grown identity text (some shape) w =
      let expired = (expire_stale_candidates e identity w).1 in
      Grown-from expired (route_shape e identity text (some shape) w)
        (names-expire_stale e identity w) (route_found-Grown identity text shape _ expired)

  refire_plan-plans :
      (identity slug : Text) (step : Option ℕ) (t : Text) (w : World)
      → (refire_plan e identity slug step t w).plans ≡ w.plans
  unfolding refire_plan
  refire_plan-plans identity slug step t w =
      if_ind (SamePlans e w) (still_open t step) (λ _. told-plans e _ _ _ _ _ _ w)
        (λ _. told-plans e _ _ _ _ _ _ w)

  refire_step-plans :
      (identity : Text) (named : Text × Option ℕ) (w : World)
      → (refire_step e identity named w).plans ≡ w.plans
  unfolding refire_step
  refire_step-plans identity (slug, step) w =
      if_ind (SamePlans e w) (holds (names w.plans) (plan_name slug))
        (λ _. refire_plan-plans identity slug step (body_of (plan_name slug) w.plans) w)
        (λ _. breadcrumb-plans e _ _ w)

  pub refire-plans : (identity : Text) (w : World) → (refire e identity w).plans ≡ w.plans
  unfolding refire
  refire-plans identity w = refire_step-plans identity _ w

  route_scrubbed-Grown :
      (identity text : Text) (o : Option Text) (w : World)
      → Grown (names w.plans) (route_scrubbed e identity text o w)
  unfolding route_scrubbed
  route_scrubbed-Grown identity text none w = inl (ap names (breadcrumb-plans e _ _ w))
  route_scrubbed-Grown identity text (some scrubbed) w =
      if_ind (Grown (names w.plans)) (occurs (codes ":plan:") scrubbed)
        (λ _. inl (ap names (refire-plans scrubbed w)))
        (λ _. route_shape-Grown scrubbed text (shape_for e scrubbed) w)

-- Whatever the identity and the environment, a call leaves the names of the plans directory as they
-- are, or adds one plan, under a name that no file had: no plan is removed, renamed or replaced.
pub route-Grown :
    (e : Env) (identity text : Text) (w : World) → Grown (names w.plans) (route e identity text w)
unfolding route
route-Grown e identity text w =
    if_ind (Grown (names w.plans)) (ident_ok identity)
      (λ _. route_scrubbed-Grown e identity text (scrub_pathy_identity e identity) w)
      (λ _. inl (ap names (breadcrumb-plans e _ _ w)))
