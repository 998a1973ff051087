-- ===== src/Router/Chains.antt =====
-- automation/scripts/router-tick.py: the routed plans of one identity.
use Prim.Native.Nat.{ℕ, suc, ◌-◌, ◌/◌}
use hngh.Prelude.{
  Option, none, some, List, [], ◌∷◌, ◌++◌, Bool, false, not, ◌&&◌, ◌||◌, ltb, leb, if◌then◌else◌,
  length, take, select,
}
use hngh.Texts.{Text, codes, same_text, holds, occurs, starts, is_empty}
use hngh.Texts.Decimal.{decimal}
use hngh.Router.{Env, Plan, Crumb, World, today, report}
use hngh.Router.Params.{ttl_s}
use hngh.Router.Identity.{subject_of, routed_name}
use hngh.Router.Plans.{status_of, own_status, head_of, expired_text}

abbrev pub terminal_status : List Text
terminal_status = codes "executed" ∷ codes "rejected" ∷ codes "expired" ∷ []

-- `name[:-8]`
unfoldable pub slug_of : Text → Text
slug_of name = take (length name - 8) name

abbrev pub or_proposed : Option Text → Text
or_proposed none = codes "proposed"
or_proposed (some status) = status

-- A slug and an age.
abbrev pub Found : Type 0
Found = Text × ℕ

abbrev pub older : Option Found → Found → Option Found
older none found = some found
older (some oldest) found = if ltb oldest.1 found.1 then some found else some oldest

-- A plan of the identity that the run expires.
unfoldable pub is_stale : Env → Text → Plan → Bool
unfolding routed_name own_status holds same_text
is_stale e subject p =
    let status = or_proposed (own_status false (head_of p.body)) in
    routed_name subject p.name
    && not (holds terminal_status status || same_text status (codes "accepted"))
    && leb (ttl_s e) (e.now - p.modified)

-- `mark_expired(path, text)`, in a run that is not dry.
unfoldable pub mark_expired : Env → Plan → Plan
unfolding expired_text
mark_expired e p = if e.dry_run then p else record p { body = expired_text p.body }

-- The loop over the files: the files behind it, and the oldest that expired.
unfoldable pub expire_each : Env → Text → Option Found → List Plan → List Plan × Option Found
unfolding is_stale mark_expired slug_of
expire_each e subject oldest [] = ([], oldest)
expire_each e subject oldest (p ∷ plans) =
    let stale = expire_each e subject (older oldest (slug_of p.name, e.now - p.modified)) plans in
    let fresh = expire_each e subject oldest plans in
    if is_stale e subject p then (mark_expired e p ∷ stale.0, stale.1) else (p ∷ fresh.0, fresh.1)

-- The row about the oldest.
unfoldable pub report_expired : Env → Text → Option Found → World → World
report_expired e identity none w = w
report_expired e identity (some (slug, age)) w =
    report e (codes "alert")
      (codes "router expired candidate "
        ++ slug
        ++ codes " (unaccepted "
        ++ decimal (ttl_s e / 3600)
        ++ codes "h past routing; identity "
        ++ identity
        ++ codes ")")
      (codes "router:routed-expired:" ++ slug) 0 w

-- `expire_stale_candidates(identity)`
unfoldable pub expire_stale_candidates : Env → Text → World → Option Found × World
expire_stale_candidates e identity w =
    let run = expire_each e (subject_of identity) none w.plans in
    (run.1, report_expired e identity run.1 (record w { plans = run.0 }))

-- The status that `plan_status_age(path)` gives is one of these.
abbrev pub status_in : List Text → Option Text → Bool
status_in texts none = false
status_in texts (some status) = holds texts status

-- A plan of the identity that suppresses another.
unfoldable pub is_live : Env → ℕ → Text → Plan → Bool
unfolding routed_name status_of holds
is_live e window subject p =
    routed_name subject p.name
    && not (status_in terminal_status (status_of (head_of p.body)))
    && ltb (e.now - p.modified) window

abbrev pub newer : Option Found → Found → Option Found
newer none found = some found
newer (some newest) found = if ltb found.1 newest.1 then some found else some newest

unfoldable pub newest_live : Env → ℕ → Text → Option Found → List Plan → Option Found
unfolding is_live slug_of
newest_live e window subject best [] = best
newest_live e window subject best (p ∷ plans) =
    let live =
      newest_live e window subject (newer best (slug_of p.name, e.now - p.modified)) plans in
    let other = newest_live e window subject best plans in
    if is_live e window subject p then live else other

-- `live_duplicate(identity, window_s)`
unfoldable pub live_duplicate : Env → Text → ℕ → World → Option Found
live_duplicate e identity window w = newest_live e window (subject_of identity) none w.plans

-- A row of the journal as one line.
unfoldable pub crumb_line : Crumb → Text
crumb_line r =
    r.ts
    ++ codes " | "
    ++ r.job
    ++ codes " | "
    ++ r.event
    ++ codes " | "
    ++ r.detail
    ++ (if is_empty r.writer then [] else codes " [w=" ++ r.writer ++ codes "]")

unfoldable pub is_dedup : Env → Text → Crumb → Bool
unfolding starts occurs crumb_line today
is_dedup e identity r =
    starts (today e) r.ts
    && occurs (codes "plan-dedup") (crumb_line r)
    && occurs identity (crumb_line r)

-- `dedup_count_today(identity)`
unfoldable pub dedup_count_today : Env → Text → World → ℕ
dedup_count_today e identity w = suc (length (select (is_dedup e identity) w.crumbs))
