-- ===== src/Router/Bounded.antt =====
-- automation/scripts/router-tick.py, route: the re-route bound holds the chain of an identity.
use Prim.Native.Nat.{ℕ, suc, ◌≤◌, ◌<◌, max}
use hngh.Prelude.{
  Option, none, some, ◌≡◌, refl, List, [], ◌∷◌, ◌++◌, Bool, true, false, ◌&&◌, not, ltb, leb,
  if_ind, Bool-cases, inl, inr, if_true, length, select, arith,
}
use hngh.Texts.{Text, codes, holds, is_digit, is_space}
use hngh.FilingBudget.{allow}
use hngh.Router.{Env, Plan, World, today}
use hngh.Router.Params.{router_reroute_max}
use hngh.Router.Identity.{subject_of, routed_name}
use hngh.Router.Plans.{status_of, head_of}
use hngh.Router.Chains.{status_in}
use hngh.Router.Bound.{
  at_least_one, stamp_of, lapsed, binds, is_counted, chain_live_count, is_lapsed, close_plan,
  close_each, chain_expired_close,
}
use hngh.Router.Shapes.{Shape}
use hngh.Router.Route.{candidate, minted, mint, route_budget, route_bound, route_fresh}
use hngh.Router.Kept.{end_lane-plans, park_lane-plans, defer-plans}
use hngh.Router.Grown.{mint-plans}

module _ {ℓ} {A : Type ℓ} (p : A → Bool) where
  length-select-snoc :
      (xs : List A) (x : A) → length (select p (xs ++ x ∷ [])) ≤ suc (length (select p xs))
  length-select-snoc [] x = ground arith
  length-select-snoc (y ∷ xs) x = ground (arith, length-select-snoc xs x)

  length-select-cons :
      (x y : A) (xs ys : List A)
      → (p y ≡ true → p x ≡ true)
      → length (select p ys) ≤ length (select p xs)
      → length (select p (y ∷ ys)) ≤ length (select p (x ∷ xs))
  length-select-cons x y xs ys h k = elim (Bool-cases (p y)) [
    | inl yes_y ↦ ground (arith, h yes_y)
    | inr no_y ↦ ground arith
  ]

abbrev closing : List Text
closing = codes "executed" ∷ codes "rejected" ∷ codes "expired" ∷ codes "accepted" ∷ []

binds-open : (body : Text) (o : Option Text) → status_in closing o ≡ false → binds body o ≡ true
unfolding binds holds
binds-open body none h = refl
binds-open body (some s) h = ground arith

first_two : (a s b c : Bool) → (a && not s && b && c) ≡ true → (a ≡ true) × (s ≡ false)
first_two a s b c h = ground arith

-- A plan that is retired was counted before.
is_lapsed-counted :
    (e : Env) (subject : Text) (p : Plan)
    → is_lapsed e subject p ≡ true
    → is_counted subject p ≡ true
unfolding is_lapsed is_counted
is_lapsed-counted e subject p h =
    let parts =
      first_two (routed_name subject p.name) (status_in closing (status_of (head_of p.body)))
        (at_least_one (stamp_of (codes "attempt:") is_digit (head_of p.body)))
        (lapsed e (stamp_of (codes "expires:") (λ c. not (is_space c)) (head_of p.body))) h in
    rw (parts.0, binds-open p.body (status_of (head_of p.body)) parts.1) refl

close_plan-counted :
    (e : Env) (subject : Text) (p : Plan)
    → is_counted subject (close_plan e subject p) ≡ true
    → is_counted subject p ≡ true
unfolding close_plan
close_plan-counted e subject p =
    if_ind (λ (q : Plan). is_counted subject q ≡ true → is_counted subject p ≡ true)
      (is_lapsed e subject p) (λ lapsed _. is_lapsed-counted e subject p lapsed) (λ _ h. h)

close_each-counted :
    (e : Env) (subject : Text) (plans : List Plan)
    → length (select (is_counted subject) (close_each e subject plans))
      ≤ length (select (is_counted subject) plans)
unfolding close_each
close_each-counted e subject [] = omega arith
close_each-counted e subject (p ∷ plans) =
    length-select-cons (is_counted subject) p (close_plan e subject p) plans
      (close_each e subject plans) (close_plan-counted e subject p)
      (close_each-counted e subject plans)

module _ (e : Env) (identity : Text) where
  abbrev count : World → ℕ
  count w = chain_live_count identity w.plans

  abbrev Bounded : ℕ → World → Type 0
  Bounded n v = chain_live_count identity v.plans ≤ max n (router_reroute_max e)

  mint-count :
      (text : Text) (shape : Shape) (w : World)
      → count (mint e identity text shape w) ≤ suc (count w)
  mint-count text shape w = elim (Bool-cases e.dry_run) [
    | inl dry ↦ unfold mint in rw (if_true _ w (minted e identity text shape w) dry) (omega arith)
    | inr wet ↦
        unfold chain_live_count in
        rw (mint-plans e identity text shape w wet) (
          length-select-snoc (is_counted (subject_of identity)) w.plans
            (candidate e identity text shape w))
  ]

  route_budget-count :
      (text : Text) (shape : Shape) (w : World)
      → count w < router_reroute_max e
      → Bounded (count w) (route_budget e identity text shape w)
  unfolding route_budget
  route_budget-count text shape w h =
      let asked = allow e.host (codes "routed") identity (today e) w.budget in
      if_ind (Bounded (count w)) asked.0
        (λ _. omega (arith, mint-count text shape (record w { budget = asked.1 }), h))
        (λ _. rw (defer-plans e identity (record w { budget = asked.1 })) (omega arith))

  route_bound-count :
      (text : Text) (shape : Shape) (closed : ℕ) (w : World)
      → Bounded (count w) (route_bound e identity text shape closed w)
  unfolding route_bound
  route_bound-count text shape closed w =
      if_ind (Bounded (count w)) (ltb 0 closed && ltb (count w) (router_reroute_max e))
        (λ _. rw (end_lane-plans e identity closed w) (omega arith))
        (λ _.
          if_ind (Bounded (count w)) (leb (router_reroute_max e) (count w))
            (λ _. rw (park_lane-plans e identity w) (omega arith))
            (λ below. route_budget-count text shape w (ground arith)))

-- Behind the duplicates, a call does not take the number of unworked plans in the identity's chain past
-- the re-route bound, unless it stood above it before.
pub route_fresh-bounded :
    (e : Env) (identity text : Text) (shape : Shape) (w : World)
    → chain_live_count identity (route_fresh e identity text shape w).plans
      ≤ max (chain_live_count identity w.plans) (router_reroute_max e)
unfolding route_fresh chain_expired_close
route_fresh-bounded e identity text shape w =
    let closed = close_each e (subject_of identity) w.plans in
    let fewer : chain_live_count identity closed ≤ chain_live_count identity w.plans =
      unfold chain_live_count in close_each-counted e (subject_of identity) w.plans in
    let bounded =
      route_bound-count e identity text shape
        (length (select (is_lapsed e (subject_of identity)) w.plans))
        (record w { plans = closed }) in
    omega (arith, fewer, bounded)
