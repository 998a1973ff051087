-- ===== src/Router/Route.antt =====
-- automation/scripts/router-tick.py: route, for an identity that names no plan.
use Prim.Native.Nat.{ℕ, zero, suc, ◌+◌}
use hngh.Prelude.{
  Option, none, some, List, [], ◌∷◌, ◌++◌, Bool, true, false, ◌&&◌, ltb, leb, if◌then◌else◌, map,
  length,
}
use hngh.Texts.{Text, codes, holds}
use hngh.Texts.Decimal.{decimal}
use hngh.FilingBudget.{allow}
use hngh.Router.{Env, Plan, World, now_utc, today, report, breadcrumb, silence}
use hngh.Router.Params.{dedup_window_s, router_reroute_max}
use hngh.Router.Identity.{subject_of, suffix}
use hngh.Router.Chains.{Found, expire_stale_candidates, live_duplicate}
use hngh.Router.Bound.{chain_live_count, chain_expired_close}
use hngh.Router.Shapes.{Shape, candidate_text}
use hngh.Router.Repeat.{body_of, repeat}

abbrev pub names : List Plan → List Text
names plans = map (λ p. p.name) plans

abbrev pub plan_name : Text → Text
plan_name slug = slug ++ suffix

abbrev pub numbered : Text → ℕ → Text
numbered slug n = slug ++ codes "-" ++ decimal n

-- The loop over the suffixes, from n on.
unfoldable pub free_slug : List Text → Text → ℕ → ℕ → Text
free_slug taken slug n zero = numbered slug n
free_slug taken slug n (suc fuel) =
    let rest = free_slug taken slug (suc n) fuel in
    if holds taken (plan_name (numbered slug n)) then rest else numbered slug n

-- The slug unless its file exists, else the first suffix that is free, from 2 on. There are no more
-- suffixes in use than files.
unfoldable pub new_slug : List Text → Text → Text
new_slug taken slug =
    if holds taken (plan_name slug) then free_slug taken slug 2 (length taken) else slug

unfoldable pub slug_for : Env → Text → Text
slug_for e identity = today e ++ codes "-routed-" ++ subject_of identity

-- The candidate that is drafted.
unfoldable pub candidate : Env → Text → Text → Shape → World → Plan
candidate e identity text shape w = record {
  name = plan_name (new_slug (names w.plans) (slug_for e identity));
  body =
      candidate_text e identity text shape (today e) (suc (chain_live_count identity w.plans))
        (e.iso (e.now + 604800));
  modified = e.now;
}

-- The candidate is written, and its row filed.
unfoldable pub minted : Env → Text → Text → Shape → World → World
minted e identity text shape w =
    let slug = new_slug (names w.plans) (slug_for e identity) in
    breadcrumb e (codes "routed") (identity ++ codes " -> " ++ slug) (
      report e (codes "progress")
        (codes "router routed "
          ++ identity
          ++ codes " -> plan candidate "
          ++ slug
          ++ codes " (routed-at "
          ++ now_utc e
          ++ codes ")")
        (codes "router:routed:" ++ slug) 86400
        (record w { plans = w.plans ++ candidate e identity text shape w ∷ [] }))

unfoldable pub mint : Env → Text → Text → Shape → World → World
mint e identity text shape w = if e.dry_run then w else minted e identity text shape w

-- The identity's chain ended by expiry.
unfoldable pub end_lane : Env → Text → ℕ → World → World
end_lane e identity closed w =
    breadcrumb e (codes "route-expiry")
      (identity ++ codes " chain closed: " ++ decimal closed ++ codes " plan(s) expired")
      (report e (codes "alert")
        (codes "router closed "
          ++ identity
          ++ codes " chain: "
          ++ decimal closed
          ++ codes
              " plan(s) expired, cause=route-expiry — the lane ends here, no further re-routes or park alerts for this identity")
        (codes "route-expiry:" ++ identity) 604800 w)

-- The identity's chain is at the bound.
unfoldable pub park_lane : Env → Text → World → World
park_lane e identity w =
    let bound = decimal (router_reroute_max e) in
    breadcrumb e (codes "reroute-bound") (identity ++ codes " parked at re-route bound " ++ bound) (
      report e (codes "alert")
        (codes "router parks "
          ++ identity
          ++ codes
              " at the re-route bound - SLA: re-fires bump this row for 7d, then it expires on silence; halt: the lane stops until the identity is worked or the chain is disposed; re-route bound reached ("
          ++ bound
          ++ codes ") - parked, not resolved")
        (codes "router:parked:" ++ identity) 604800 (silence e identity w))

-- The cause has its filing of the day.
unfoldable pub defer : Env → Text → World → World
defer e identity w =
    breadcrumb e (codes "budget-deferred") (identity ++ codes " route deferred (filing budget)") (
      report e (codes "progress") (codes "route deferred: daily filing budget for " ++ identity)
        (codes "filing-budget:routed:" ++ identity) 86400 w)

-- The day's filing budget, and the candidate behind it.
unfoldable pub route_budget : Env → Text → Text → Shape → World → World
route_budget e identity text shape w =
    let asked = allow e.host (codes "routed") identity (today e) w.budget in
    let w' : World = record w { budget = asked.1 } in
    if asked.0 then mint e identity text shape w' else defer e identity w'

-- The re-route bound, behind the close of so many plans.
unfoldable pub route_bound : Env → Text → Text → Shape → ℕ → World → World
route_bound e identity text shape closed w =
    let bound = router_reroute_max e in
    let live = chain_live_count identity w.plans in
    if ltb 0 closed && ltb live bound
    then end_lane e identity closed w
    else if leb bound live
    then park_lane e identity w
    else route_budget e identity text shape w

-- The part of `route` behind the duplicates.
unfoldable pub route_fresh : Env → Text → Text → Shape → World → World
route_fresh e identity text shape w =
    let closed = chain_expired_close e identity w.plans in
    route_bound e identity text shape closed.0 (record w { plans = closed.1 })

abbrev pub then_fresh : Env → Text → Text → Shape → Bool × World → World
then_fresh e identity text shape (false, w) = w
then_fresh e identity text shape (true, w) = route_fresh e identity text shape w

-- The part of `route` with the duplicate that was found.
unfoldable pub route_found : Env → Text → Text → Shape → Option Found → World → World
route_found e identity text shape none w = route_fresh e identity text shape w
route_found e identity text shape (some (slug, age)) w = then_fresh e identity text shape (
    repeat e identity (record { slug = slug; age = age; text = body_of (plan_name slug) w.plans })
      w)

abbrev pub or_found : Option Found → Option Found → Option Found
or_found none other = other
or_found (some found) other = some found

-- The part of `route` with the shape of the candidate.
unfoldable pub route_shape : Env → Text → Text → Option Shape → World → World
route_shape e identity text none w =
    breadcrumb e (codes "parked") (identity ++ codes " critical-class parks") (
      report e (codes "alert")
        (codes "router parks critical-class alert "
          ++ identity
          ++ codes " for the operator (candidate never machine-drafted)")
        (codes "router:parked:" ++ identity) 604800 w)
route_shape e identity text (some shape) w =
    let expired = expire_stale_candidates e identity w in
    let found = or_found expired.0 (live_duplicate e identity (dedup_window_s e) expired.1) in
    route_found e identity text shape found expired.1
