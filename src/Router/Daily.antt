-- ===== src/Router/Daily.antt =====
-- automation/scripts/router-tick.py, route: one candidate for an identity and a day, by the budget of
-- automation/lib/filing_budget.py.
use Prim.Native.Nat.{ℕ}
use hngh.Prelude.{
  ◌≡◌, refl, sym, ap, subst, ◌∙◌, ◌⊎◌, inl, inr, Option, none, some, [], Bool, true, false, not,
  ◌&&◌, ltb, leb, if_ind, arith,
}
use hngh.Texts.{Text, codes, is_empty, occurs}
use hngh.FilingBudget.{Host, Counter, norm_slug, key_of, lines_of, last_day, is_day, allow}
use hngh.FilingBudget.Once.{tabbed, allow-once, allow-refused}
use hngh.Router.{Env, World, today}
use hngh.Router.Params.{router_reroute_max}
use hngh.Router.Identity.{ident_ok, scrub_pathy_identity, subject_of}
use hngh.Router.Chains.{Found, expire_stale_candidates}
use hngh.Router.Bound.{close_each, chain_live_count, chain_expired_close}
use hngh.Router.Shapes.{Shape, shape_for}
use hngh.Router.Repeat.{Repeat, body_of, repeat}
use hngh.Router.Route.{
  names, plan_name, route_budget, route_bound, route_fresh, then_fresh, route_found, route_shape,
}
use hngh.Router.Main.{route_scrubbed, route}
use hngh.Router.Filed.{told-plans, breadcrumb-plans, told-budget, breadcrumb-budget}
use hngh.Router.Kept.{
  names-expire_stale, names-close_each, repeat-names, end_lane-plans, park_lane-plans, defer-plans,
}
use hngh.Router.Grown.{refire-plans}
use hngh.Router.Spending.{
  expire_stale-budget, repeat-budget, end_lane-budget, park_lane-budget, defer-budget, mint-budget,
  refire-budget,
}

-- Whether the day's filing for the cause is in the counter.
unfoldable pub spent : Env → Text → Counter → Bool
spent e cause counter =
    is_day (last_day (key_of (codes "routed") (norm_slug e.host cause)) (lines_of counter))
      (today e)

-- Nothing is added or spent; or the budget is spent now, and was not before.
abbrev Outcome : Env → Text → World → World → Type 0
Outcome e cause w v =
    ((names v.plans ≡ names w.plans) × (v.budget ≡ w.budget))
    ⊎ ((spent e cause v.budget ≡ true) × (spent e cause w.budget ≡ false))

module _ (e : Env) (identity : Text) (plain_day : tabbed (today e) ≡ false)
    (dated : is_empty (today e) ≡ false)
    (nameable : is_empty (norm_slug e.host identity) ≡ false) where
  abbrev asked : World → Bool × Counter
  asked w = allow e.host (codes "routed") identity (today e) w.budget

  asked_spends :
      (w : World)
      → (spent e identity (asked w).1 ≡ true) × ((asked w).0 ≡ not (spent e identity w.budget))
  unfolding spent
  asked_spends w =
      let once =
        allow-once e.host (codes "routed") identity (today e) refl plain_day dated w.budget [] refl
          nameable in
      (once.0, once.1)

  asked_refused : (w : World) → spent e identity w.budget ≡ true → asked w ≡ (false, w.budget)
  unfolding spent
  asked_refused w h =
      allow-refused e.host (codes "routed") identity (today e) refl plain_day dated w.budget refl
        nameable h

  route_budget-Outcome :
      (text : Text) (shape : Shape) (w : World)
      → Outcome e identity w (route_budget e identity text shape w)
  unfolding route_budget
  route_budget-Outcome text shape w =
      let w' : World = record w { budget = (asked w).1 } in
      if_ind (Outcome e identity w) (asked w).0
        (λ granted. inr (
          ap (spent e identity) (mint-budget e identity text shape w') ∙ (asked_spends w).0,
          ground (arith, (asked_spends w).1, granted),
        ))
        (λ refused. inl (
          ap names (defer-plans e identity w'),
          defer-budget e identity w'
              ∙ ap (λ (r : Bool × Counter). r.1)
                  (asked_refused w (ground (arith, (asked_spends w).1, refused))),
        ))

  route_bound-Outcome :
      (text : Text) (shape : Shape) (closed : ℕ) (w : World)
      → Outcome e identity w (route_bound e identity text shape closed w)
  unfolding route_bound
  route_bound-Outcome text shape closed w =
      let live = chain_live_count identity w.plans in
      if_ind (Outcome e identity w) (ltb 0 closed && ltb live (router_reroute_max e))
        (λ _.
          inl (ap names (end_lane-plans e identity closed w), end_lane-budget e identity closed w))
        (λ _.
          if_ind (Outcome e identity w) (leb (router_reroute_max e) live)
            (λ _. inl (ap names (park_lane-plans e identity w), park_lane-budget e identity w))
            (λ _. route_budget-Outcome text shape w))

  -- From a world with the same names and budget.
  Outcome-from :
      (w w' v : World)
      → names w'.plans ≡ names w.plans
      → w'.budget ≡ w.budget
      → Outcome e identity w' v
      → Outcome e identity w v
  Outcome-from w w' v h k (inl (same, kept)) = inl (same ∙ h, kept ∙ k)
  Outcome-from w w' v h k (inr (now, fresh)) = inr (now, sym (ap (spent e identity) k) ∙ fresh)

  route_fresh-Outcome :
      (text : Text) (shape : Shape) (w : World)
      → Outcome e identity w (route_fresh e identity text shape w)
  unfolding route_fresh chain_expired_close
  route_fresh-Outcome text shape w =
      Outcome-from w (record w { plans = close_each e (subject_of identity) w.plans })
        (route_fresh e identity text shape w) (names-close_each e (subject_of identity) w.plans)
        refl (route_bound-Outcome text shape _ _)

  route_found-Outcome :
      (text : Text) (shape : Shape) (o : Option Found) (w : World)
      → Outcome e identity w (route_found e identity text shape o w)
  unfolding route_found
  route_found-Outcome text shape none w = route_fresh-Outcome text shape w
  route_found-Outcome text shape (some (slug, age)) w =
      then_fresh-Outcome (repeat e identity r w) (repeat-names e identity r w)
        (repeat-budget e identity r w)
    where
      r : Repeat
      r = record { slug = slug; age = age; text = body_of (plan_name slug) w.plans }

      then_fresh-Outcome :
          (told : Bool × World)
          → names told.1.plans ≡ names w.plans
          → told.1.budget ≡ w.budget
          → Outcome e identity w (then_fresh e identity text shape told)
      then_fresh-Outcome (false, v) h k = inl (h, k)
      then_fresh-Outcome (true, v) h k =
          Outcome-from w v (route_fresh e identity text shape v) h k
            (route_fresh-Outcome text shape v)

  route_shape-Outcome :
      (text : Text) (o : Option Shape) (w : World)
      → Outcome e identity w (route_shape e identity text o w)
  unfolding route_shape
  route_shape-Outcome text none w =
      inl (ap names (told-plans e _ _ _ _ _ _ w), told-budget e _ _ _ _ _ _ w)
  route_shape-Outcome text (some shape) w =
      let expired = (expire_stale_candidates e identity w).1 in
      Outcome-from w expired (route_shape e identity text (some shape) w)
        (names-expire_stale e identity w) (expire_stale-budget e identity w)
        (route_found-Outcome text shape _ expired)

module _ (e : Env) (given identity : Text) (plain_day : tabbed (today e) ≡ false)
    (dated : is_empty (today e) ≡ false) (nameable : is_empty (norm_slug e.host identity) ≡ false)
    (clean : scrub_pathy_identity e given ≡ some identity) where
  scrubbed-Outcome :
      (text : Text) (w : World)
      → Outcome e identity w (route_scrubbed e given text (some identity) w)
  unfolding route_scrubbed
  scrubbed-Outcome text w =
      if_ind (Outcome e identity w) (occurs (codes ":plan:") identity)
        (λ _. inl (ap names (refire-plans e identity w), refire-budget e identity w))
        (λ _. route_shape-Outcome e identity plain_day dated nameable text (shape_for e identity) w)

  route-Outcome : (text : Text) (w : World) → Outcome e identity w (route e given text w)
  unfolding route
  route-Outcome text w =
      if_ind (Outcome e identity w) (ident_ok given)
        (λ _.
          subst (λ o. Outcome e identity w (route_scrubbed e given text o w)) (sym clean)
            (scrubbed-Outcome text w))
        (λ _. inl (ap names (breadcrumb-plans e _ _ w), breadcrumb-budget e _ _ w))

spent-env :
    (e e' : Env) (cause : Text) (counter : Counter)
    → today e' ≡ today e
    → e'.host ≡ e.host
    → spent e' cause counter ≡ spent e cause counter
unfolding spent
spent-env e e' cause counter same_day same_host =
    ap
      (λ (h : Host).
        is_day (last_day (key_of (codes "routed") (norm_slug h cause)) (lines_of counter))
          (today e'))
      same_host
    ∙ ap (is_day (last_day (key_of (codes "routed") (norm_slug e.host cause)) (lines_of counter)))
        same_day

-- Of two calls on one day, whose identities are one behind the scrub, with a cause that can be named, at
-- most one adds a plan, whatever the texts and the rest of the environment.
pub route-once_a_day :
    (e e' : Env) (given given' identity text text' : Text) (w : World)
    → tabbed (today e) ≡ false
    → is_empty (today e) ≡ false
    → is_empty (norm_slug e.host identity) ≡ false
    → scrub_pathy_identity e given ≡ some identity
    → scrub_pathy_identity e' given' ≡ some identity
    → today e' ≡ today e
    → e'.host ≡ e.host
    → let first = route e given text w in
      (names first.plans ≡ names w.plans)
      ⊎ (names (route e' given' text' first).plans ≡ names first.plans)
route-once_a_day e e' given given' identity text text' w plain_day dated nameable clean clean'
      same_day same_host =
    either (route-Outcome e given identity plain_day dated nameable clean text w) (
      route-Outcome e' given' identity (ap tabbed same_day ∙ plain_day)
        (ap is_empty same_day ∙ dated)
        (ap (λ (h : Host). is_empty (norm_slug h identity)) same_host ∙ nameable) clean' text'
        first)
  where
    first : World
    first = route e given text w

    second : World
    second = route e' given' text' first

    either :
        Outcome e identity w first
        → Outcome e' identity first second
        → (names first.plans ≡ names w.plans) ⊎ (names second.plans ≡ names first.plans)
    either (inl (same, _)) _ = inl same
    either (inr _) (inl (same, _)) = inr same
    either (inr (now, _)) (inr (_, fresh)) =
        absurd (cc (now, sym (spent-env e e' identity first.budget same_day same_host) ∙ fresh))
