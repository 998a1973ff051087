-- ===== src/Router/Main.antt =====
-- automation/scripts/router-tick.py: route, refire and main.
use Prim.Native.Nat.{ℕ, zero, suc, ◌+◌}
use hngh.Prelude.{
  Option, none, some, List, [], ◌∷◌, ◌++◌, Bool, not, ◌&&◌, ◌||◌, ltb, leb, if◌then◌else◌,
}
use hngh.Texts.{
  Text, codes, is_empty, same_text, holds, behind, behind_prefix, occurs, run_of, past_run,
  is_digit,
}
use hngh.Texts.Decimal.{decimal, number}
use hngh.Router.{Env, World, report, breadcrumb}
use hngh.Router.Identity.{ident_ok, scrub_pathy_identity}
use hngh.Router.Plans.{step_states, named_step_closed}
use hngh.Router.Shapes.{shape_for}
use hngh.Router.Repeat.{body_of}
use hngh.Router.Route.{names, plan_name, route_shape}

-- The number of a step's suffix, when it stands at the end or before a line break there.
abbrev pub step_number : Option Text → Option ℕ
step_number none = none
step_number (some t) =
    let digits = run_of is_digit t in
    let rest = past_run is_digit t in
    if not (is_empty digits) && (is_empty rest || same_text rest (codes "\n"))
    then some (number 0 digits)
    else none

abbrev pub or_step : ℕ → Option ℕ → Text × Option ℕ → Text → Text × Option ℕ
or_step c none (slug, step) t = (c ∷ slug, step)
or_step c (some n) _ t = ([], some n)

-- The slug before `STEP_SUFFIX`, and the step.
unfoldable pub slug_step : Text → Text × Option ℕ
slug_step [] = ([], none)
slug_step (c ∷ t) = or_step c (step_number (behind_prefix (codes ":step-") (c ∷ t))) (slug_step t) t

abbrev pub step_mark : Option ℕ → Text
step_mark none = []
step_mark (some zero) = []
step_mark (some (suc n)) = codes ":step-" ++ decimal (suc n)

-- Whether the step that is named, or else any, is open.
unfoldable pub still_open : Text → Option ℕ → Bool
still_open t none = ltb 0 (step_states t).1
still_open t (some zero) = ltb 0 (step_states t).1
still_open t (some (suc n)) =
    let states = step_states t in
    if leb (suc n) (states.0 + states.1) then not (named_step_closed t (suc n)) else ltb 0 states.1

-- A re-fire of a step of the plan with this text.
unfoldable pub refire_plan : Env → Text → Text → Option ℕ → Text → World → World
refire_plan e identity slug step t w =
    if still_open t step
    then breadcrumb e (codes "in-flight") (identity ++ codes " step still open") (
        report e (codes "progress")
          (codes "router re-fire of " ++ identity ++ codes " (named step still open)")
          (codes "router:routed:" ++ slug ++ step_mark step) 86400 w)
    else breadcrumb e (codes "duplicate-skip") (identity ++ codes " step already closed") (
        report e (codes "alert")
          (codes "router duplicate-skip: "
            ++ identity
            ++ codes " (named step closed; candidate not re-drafted)")
          (codes "router:dup-skip:" ++ identity) 86400 w)

abbrev pub behind_plan : Option Text → Text
behind_plan none = []
behind_plan (some rest) = rest

-- A re-fire of a step of the plan with this slug.
unfoldable pub refire_step : Env → Text → Text × Option ℕ → World → World
refire_step e identity (slug, step) w =
    if holds (names w.plans) (plan_name slug)
    then refire_plan e identity slug step (body_of (plan_name slug) w.plans) w
    else breadcrumb e (codes "no-candidate") (identity ++ codes " names no plan file") w

-- `refire(identity)`
unfoldable pub refire : Env → Text → World → World
refire e identity w =
    refire_step e identity (slug_step (behind_plan (behind (codes ":plan:") identity))) w

-- `route` with the identity behind the scrub.
unfoldable pub route_scrubbed : Env → Text → Text → Option Text → World → World
route_scrubbed e identity text none w =
    breadcrumb e (codes "no-candidate") (identity ++ codes " identity not routable (path-derived)")
      w
route_scrubbed e identity text (some scrubbed) w =
    if occurs (codes ":plan:") scrubbed
    then refire e scrubbed w
    else route_shape e scrubbed text (shape_for e scrubbed) w

-- `route(identity, text)`; its exit code is 0.
unfoldable pub route : Env → Text → Text → World → World
route e identity text w =
    if ident_ok identity
    then route_scrubbed e identity text (scrub_pathy_identity e identity) w
    else breadcrumb e (codes "no-candidate") (identity ++ codes " identity not routable") w

-- The arguments: the identity and the text, and `none` for a usage error.
unfoldable pub parsed : Option Text → Text → List Text → Option (Option Text × Text)
parsed identity text [] = some (identity, text)
parsed identity text (flag ∷ []) = none
parsed identity text (flag ∷ value ∷ args) =
    let as_identity = parsed (some value) text args in
    let as_text = parsed identity value args in
    if same_text flag (codes "--identity")
    then as_identity
    else if same_text flag (codes "--text")
    then as_text
    else none

unfoldable pub run_parsed : Env → Option (Option Text × Text) → World → ℕ × World
run_parsed e none w = (2, w)
run_parsed e (some (none, text)) w = (2, w)
run_parsed e (some (some identity, text)) w =
    if is_empty identity then (2, w) else (0, route e identity text w)

-- `main()`: the exit code, and the world.
unfoldable pub main : Env → List Text → World → ℕ × World
main e args w = run_parsed e (parsed none [] args) w
