-- ===== src/Router/Repeat.antt =====
-- automation/scripts/router-tick.py, route: an occurrence whose identity has a plan already.
use Prim.Native.Nat.{ℕ, ◌/◌, max}
use hngh.Prelude.{
  Option, none, some, List, [], ◌∷◌, ◌++◌, Bool, true, false, not, ◌&&◌, ◌||◌, ltb, leb,
  if◌then◌else◌,
}
use hngh.Texts.{Text, codes, same_text, is_space, is_empty, run_of, past_run, behind_prefix}
use hngh.Texts.Decimal.{decimal}
use hngh.Router.{Env, Plan, World, now_utc, report, breadcrumb, silence}
use hngh.Router.Params.{ttl_s, escalate_n}
use hngh.Router.Plans.{status_of, head_of, step_states, occurrence_count, bumped_text, lines_with}
use hngh.Router.Dispose.{dispose_main}
use hngh.Router.Chains.{dedup_count_today, or_proposed}

-- The text of the file of this name; a missing file reads as empty.
unfoldable pub body_of : Text → List Plan → Text
body_of name [] = []
body_of name (p ∷ plans) =
    let rest = body_of name plans in if same_text p.name name then p.body else rest

-- A change of the file of this name.
unfoldable pub change : Text → (Plan → Plan) → List Plan → List Plan
change name f [] = []
change name f (p ∷ plans) = (if same_text p.name name then f p else p) ∷ change name f plans

-- `bump_occurrences` keeps the time of the file.
unfoldable pub bump_plan : Text → Text → World → World
bump_plan name body w = record w { plans = change name (λ p. record p { body = body }) w.plans }

-- plan-dispose.py writes a new file in its place.
unfoldable pub dispose_plan : Env → Text → Text → World → World
dispose_plan e name body w = record w {
  plans = change name (λ p. record p { body = body; modified = e.now }) w.plans;
}

-- What the occurrence finds: the plan's slug, age and text before this occurrence is written in it.
pub record Repeat : Type 0 where
  pub slug : Text
  pub age : ℕ
  pub text : Text

abbrev pub name_of : Repeat → Text
name_of r = r.slug ++ codes ".plan.md"

abbrev pub status : Repeat → Text
status r = or_proposed (status_of (head_of r.text))

unfoldable pub in_progress : Repeat → Bool
in_progress r = same_text (status r) (codes "accepted") && ltb 0 (step_states r.text).0

unfoldable pub park_reason : ℕ → Text
park_reason n =
    codes "identity re-occurred "
    ++ decimal n
    ++ codes " times without landing; operator escalation stands"

-- The call of plan-dispose.py: whether it parked the plan.
unfoldable pub park_plan : Env → Repeat → Option Text → World → Bool × World
park_plan e r none w = (false, w)
park_plan e r (some body) w =
    if e.shared_dir then (true, dispose_plan e (name_of r) body w) else (false, w)

-- The occurrence is written into the plan, which is parked when there are enough.
unfoldable pub count_occurrence : Env → Repeat → World → Bool × World
count_occurrence e r w =
    let body = bumped_text e r.text in
    let n = occurrence_count body in
    let bumped = bump_plan (name_of r) body w in
    if in_progress r || e.dry_run
    then (false, w)
    else if leb (escalate_n e) n
    then park_plan e r (dispose_main e (codes "park") (codes "obsolete") (park_reason n) body)
        bumped
    else (false, bumped)

abbrev pub stamp_line : Text → Option Text → Option Text
stamp_line word none = none
stamp_line word (some rest) = if is_empty word then none else some word

-- The stamp of an occurrence's line: `^- (\S+) re-occurred`.
unfoldable pub line_stamp : Option Text → Option Text
line_stamp none = none
line_stamp (some t) =
    stamp_line (run_of (λ c. not (is_space c)) t)
      (behind_prefix (codes " re-occurred") (past_run (λ c. not (is_space c)) t))

abbrev pub or_stamp : Option Text → Text → Text
or_stamp none other = other
or_stamp (some stamp) other = stamp

-- The first stamp of an occurrence in the lines, else the time.
unfoldable pub first_stamp : Env → List Text → Text
first_stamp e [] = now_utc e
first_stamp e (line ∷ lines) =
    or_stamp (line_stamp (behind_prefix (codes "- ") line)) (first_stamp e lines)

unfoldable pub oldest_occurrence : Env → Text → Text
oldest_occurrence e t =
    if ltb 0 (occurrence_count t) then first_stamp e (lines_with (codes "- ") t) else now_utc e

-- The plan has expired: the operator hears at once.
unfoldable pub escalate : Env → Text → Repeat → World → World
escalate e identity r w =
    breadcrumb e (codes "escalated")
      (identity ++ codes " re-fired past expired candidate " ++ r.slug)
      (report e (codes "alert")
        (codes "router escalation: "
          ++ identity
          ++ codes " re-fired "
          ++ decimal (max (occurrence_count r.text) 1)
          ++ codes "x with no landing (oldest occurrence "
          ++ oldest_occurrence e r.text
          ++ codes "; candidate "
          ++ r.slug
          ++ codes " expired after "
          ++ decimal (ttl_s e / 3600)
          ++ codes "h unaccepted)")
        (codes "router:escalated:" ++ identity) 0 w)

unfoldable pub report_recurring : Env → Text → ℕ → World → World
report_recurring e identity count w =
    if leb 3 count
    then report e (codes "alert")
        (codes "router dedup escalation: "
          ++ identity
          ++ codes " recurring — suppressed "
          ++ decimal count
          ++ codes " times today — escalated to operator visibility")
        (codes "router:dedup-escalated:" ++ identity) 86400 w
    else w

-- The plan is live: the occurrence is suppressed.
unfoldable pub suppress : Env → Text → Repeat → ℕ → World → World
suppress e identity r count w =
    let hours = decimal (r.age / 3600) in
    breadcrumb e (codes "plan-dedup")
      (identity
        ++ codes " suppressed ("
        ++ r.slug
        ++ codes " live, "
        ++ hours
        ++ codes "h old); day count "
        ++ decimal count)
      (report_recurring e identity count (
        report e (codes "alert")
          (codes "router dedup: "
            ++ identity
            ++ codes " suppressed (routed candidate "
            ++ r.slug
            ++ codes " still live, "
            ++ hours
            ++ codes "h old; day count "
            ++ decimal count
            ++ codes ")")
          (codes "router:dedup:" ++ identity) 86400 w))

-- The plan was parked: its identity falls silent.
unfoldable pub close_lane : Env → Text → Repeat → World → World
close_lane e identity r w =
    let n = decimal (occurrence_count (bumped_text e r.text)) in
    breadcrumb e (codes "escalated-park")
      (identity ++ codes " -> " ++ r.slug ++ codes " parked after " ++ n ++ codes " occurrences")
      (report e (codes "alert")
        (codes "router escalated: "
          ++ identity
          ++ codes " re-occurred "
          ++ n
          ++ codes " times without landing — plan "
          ++ r.slug
          ++ codes " parked (cause=obsolete); operator disposition stands")
        (codes "router:parked:" ++ identity) 604800 (silence e identity w))

unfoldable pub repeat_rows : Env → Text → Repeat → World → World
repeat_rows e identity r w =
    if same_text (status r) (codes "expired")
    then escalate e identity r w
    else suppress e identity r (dedup_count_today e identity w) w

-- An occurrence of an identity with a plan: whether it is routed all the same, and the world.
unfoldable pub repeat : Env → Text → Repeat → World → Bool × World
repeat e identity r w =
    let counted = count_occurrence e r w in
    let told = repeat_rows e identity r counted.1 in
    (
      same_text (status r) (codes "expired"),
      if counted.0 then close_lane e identity r told else told,
    )
