-- ===== src/Tests/Router.antt =====
-- Alert occurrences routed on small plans directories.
use Prim.Native.Nat.{ℕ, ◌≤◌, max}
use hngh.Prelude.{String, none, some, List, [], ◌∷◌, ◌++◌, true, false, ◌≡◌, refl, ◌⊎◌, pos, arith}
use hngh.Texts.{Text, codes, holds, later, behind_prefix, run_of}
use hngh.FilingBudget.{Host, norm_slug}
use hngh.ReportQueue.{Clock, Filing, report as file_report}
use hngh.ReportQueue.Silence.{reports}
use hngh.Router.{Env, Plan, World, today, row}
use hngh.Router.Params.{router_reroute_max}
use hngh.Router.Identity.{scrub_pathy_identity}
use hngh.Router.Plans.{own_status, replace_status}
use hngh.Router.Dispose.{Parts, status_for, without_close, new_header, dispose_found}
use hngh.Router.Bound.{chain_live_count, chain_expired_close}
use hngh.Router.Shapes.{Shape}
use hngh.Router.Route.{names, plan_name, new_slug, route_fresh}
use hngh.Router.Main.{route, parsed, run_parsed, main}
use hngh.Router.Undrafted.{route-Undrafted}
use hngh.Texts.{occurs, same_text}
use hngh.Router.Shapes.{has_key}
use hngh.Router.Identity.{lower}
use hngh.Router.Free.{new_slug-free}
use hngh.Router.Grown.{Grown, route-Grown}
use hngh.Router.Bounded.{route_fresh-bounded}
use hngh.Router.Parked.{route_fresh-silences}
use hngh.Router.Daily.{route-once_a_day}
use hngh.Router.Dry.{Probed, route-Probed}
use hngh.Router.Status.{own_status-replace_status}
use hngh.Router.Disposed.{disposed-refused}

abbrev host : Host
host = record { lower = λ t. t; strip = λ t. t }

abbrev clock : Clock
clock = record {
  now = codes "2026-10-01T00:00:00Z";
  week_on = codes "2026-10-08T00:00:00Z";
  can_write = true;
  lands = λ f. true;
}

-- A call in second 9000000 of the clock.
abbrev env : Env
env = record {
  dry_run = false;
  now = 9000000;
  ttl_hours = none;
  dedup_hours = none;
  escalate = none;
  reroute_max = none;
  pathy = none;
  params = none;
  program = codes "router-tick.py";
  shared_dir = true;
  iso = λ n. codes "2026-10-01T00:00:00Z";
  parse_iso = λ t. some (pos 8000000);
  hours = λ t. none;
  truncated = λ t. none;
  host = host;
  clock = clock;
}

abbrev empty : World
empty = record {
  plans = [];
  crumbs = [];
  budget = none;
  queue = record { file = none; filings = [] };
}

abbrev plan : String → String → ℕ → Plan
plan name body modified = record { name = codes name; body = codes body; modified = modified }

abbrev routed_name_today : Text
routed_name_today = codes "2026-10-01-routed-gate-lint.plan.md"

abbrev taken : List Text
taken = routed_name_today ∷ codes "2026-10-01-routed-gate-lint-2.plan.md" ∷ []

new_slug-free_example :
    holds taken (plan_name (new_slug taken (codes "2026-10-01-routed-gate-lint"))) ≡ false
new_slug-free_example = new_slug-free taken (codes "2026-10-01-routed-gate-lint")

route-Grown_example : Grown [] (route env (codes "gate:lint") (codes "lint fails") empty)
route-Grown_example = route-Grown env (codes "gate:lint") (codes "lint fails") empty

-- Three plans of one identity, of which none was worked.
abbrev chain : World
chain = record empty {
  plans =
      plan "2026-09-28-routed-gate-lint.plan.md" "<!-- plan: status=proposed -->" 0
      ∷ plan "2026-09-29-routed-gate-lint.plan.md" "<!-- plan: status=expired -->" 0
      ∷ plan "2026-09-30-routed-gate-lint-2.plan.md" "<!-- plan: status=accepted -->" 0
      ∷ [];
}

abbrev shape : Shape
shape = (codes "do", codes "see")

route_fresh-bounded_example :
    chain_live_count (codes "gate:lint") (route_fresh env (codes "gate:lint") [] shape chain).plans
    ≤ max (chain_live_count (codes "gate:lint") chain.plans) (router_reroute_max env)
route_fresh-bounded_example = route_fresh-bounded env (codes "gate:lint") [] shape chain

abbrev later_clock : Clock
later_clock = record clock { now = codes "2026-10-02T00:00:00Z" }

abbrev filing : Filing
filing = row (codes "alert") (codes "lint fails") (codes "gate:lint") 0

route_fresh-silences_example :
    let q = reports [] (route_fresh env (codes "gate:lint") [] shape chain).queue in
    file_report later_clock filing none q ≡ (false, q)
unfolding router_reroute_max chain_live_count chain_expired_close later
route_fresh-silences_example =
    route_fresh-silences env (codes "gate:lint") [] shape chain [] later_clock filing none refl refl
      (omega arith) refl refl

route-once_a_day_example :
    let first = route env (codes "gate:lint") [] empty in
    (names first.plans ≡ [])
    ⊎ (names (route env (codes "gate:lint") (codes "again") first).plans ≡ names first.plans)
unfolding today norm_slug scrub_pathy_identity
route-once_a_day_example =
    route-once_a_day env env (codes "gate:lint") (codes "gate:lint") (codes "gate:lint") []
      (codes "again") empty refl refl refl refl refl refl refl

abbrev probe : Env
probe = record env { dry_run = true }

route-Probed_example : Probed probe chain (route probe (codes "gate:lint") [] chain)
route-Probed_example = route-Probed probe (codes "gate:lint") [] chain refl

abbrev header : Text
header = codes "x-status=new status=proposed risk=normal "

own_status-replace_status_example :
    own_status false (replace_status (codes "expired") false header) ≡ some (codes "expired")
unfolding own_status behind_prefix run_of
own_status-replace_status_example =
    own_status-replace_status (codes "expired") refl refl false header (codes "proposed") refl

abbrev parts : Parts
parts = record { front = []; header = header; rest = codes "\n# plan\n" }

abbrev parked : Parts
parked = record parts {
  header = new_header env (codes "parked") (codes "obsolete") (codes "old") header ++ codes " ";
}

disposed-refused_example :
    (own_status false parked.header ≡ some (codes "parked"))
    × (dispose_found env (codes "killed") (codes "unknown") (codes "again") (some parked) ≡ none)
unfolding status_for own_status behind_prefix run_of
disposed-refused_example =
    disposed-refused env env (codes "park") (codes "parked") (codes "obsolete") (codes "unknown")
      (codes "old") (codes "again") (codes "killed") (codes "proposed") parts parked refl refl refl

-- Taking the ends of comments out of a reason can leave one.
reason_runs : without_close 0 (codes "----->>") ≡ codes "--->"
unfolding without_close
reason_runs = refl

-- A first fire drafts a plan; the next, in the same second, is suppressed; at the bound nothing is drafted.
route_runs :
    (names (route env (codes "gate:lint") (codes "lint fails") empty).plans
      ≡ routed_name_today ∷ [])
    × (names (route env (codes "gate:lint") (codes "lint fails") chain).plans ≡ names chain.plans)
    × ((route env (codes "budget:cap") [] empty).plans ≡ [])
unfolding hngh.Texts.same_text hngh.Texts.holds hngh.Texts.later hngh.Texts.behind_prefix
    hngh.Texts.starts hngh.Texts.occurs hngh.Texts.before hngh.Texts.behind hngh.Texts.run_of
    hngh.Texts.past_run hngh.Texts.collapse hngh.Texts.first_part hngh.Texts.more_parts
    hngh.Texts.split hngh.Texts.Decimal.decimal hngh.Texts.Decimal.number
    hngh.FilingBudget.lstrip_dash hngh.FilingBudget.rstrip_dash hngh.FilingBudget.norm_slug
    hngh.FilingBudget.day_of hngh.FilingBudget.latest hngh.FilingBudget.last_day
    hngh.FilingBudget.is_day hngh.FilingBudget.allow hngh.ReportQueue.load_state
    hngh.ReportQueue.save_state hngh.ReportQueue.find hngh.ReportQueue.store
    hngh.ReportQueue.silence_identity hngh.ReportQueue.file_row hngh.ReportQueue.expiry_alert
    hngh.ReportQueue.stamped hngh.ReportQueue.report_entry hngh.ReportQueue.new_entry
    hngh.ReportQueue.report_identity hngh.ReportQueue.report_as hngh.ReportQueue.report
    hngh.Router.now_utc hngh.Router.today hngh.Router.words hngh.Router.joined hngh.Router.replaced
    hngh.Router.scrub hngh.Router.crumb hngh.Router.breadcrumb hngh.Router.report
    hngh.Router.silence hngh.Router.Params.value_of hngh.Router.Params.table_value
    hngh.Router.Params.param hngh.Router.Params.ttl_s hngh.Router.Params.dedup_window_s
    hngh.Router.Params.escalate_n hngh.Router.Params.router_reroute_max hngh.Router.Identity.lower
    hngh.Router.Identity.ident_ok hngh.Router.Identity.pathy_stems
    hngh.Router.Identity.two_consecutive hngh.Router.Identity.token_two_consecutive_components
    hngh.Router.Identity.has_stem hngh.Router.Identity.clean_tokens
    hngh.Router.Identity.scrub_pathy_identity hngh.Router.Identity.subject_of
    hngh.Router.Identity.behind_date hngh.Router.Identity.is_tail hngh.Router.Identity.routed_name
    hngh.Router.Plans.status_of hngh.Router.Plans.own_status hngh.Router.Plans.replace_status
    hngh.Router.Plans.expired_text hngh.Router.Plans.section hngh.Router.Plans.lines_with
    hngh.Router.Plans.occurrence_count hngh.Router.Plans.step_states hngh.Router.Plans.rstrip_breaks
    hngh.Router.Plans.bumped_text hngh.Router.Chains.slug_of hngh.Router.Chains.is_stale
    hngh.Router.Chains.mark_expired hngh.Router.Chains.expire_each hngh.Router.Chains.report_expired
    hngh.Router.Chains.expire_stale_candidates hngh.Router.Chains.is_live
    hngh.Router.Chains.newest_live hngh.Router.Chains.live_duplicate hngh.Router.Chains.crumb_line
    hngh.Router.Chains.is_dedup hngh.Router.Chains.dedup_count_today hngh.Router.Bound.binds
    hngh.Router.Bound.is_counted hngh.Router.Bound.chain_live_count hngh.Router.Bound.stamp_of
    hngh.Router.Bound.is_lapsed hngh.Router.Bound.closed_text hngh.Router.Bound.close_plan
    hngh.Router.Bound.close_each hngh.Router.Bound.chain_expired_close hngh.Router.Shapes.has_key
    hngh.Router.Shapes.research_shape hngh.Router.Shapes.first_shape hngh.Router.Shapes.normal_shape
    hngh.Router.Shapes.shape_for hngh.Router.Shapes.candidate_text hngh.Router.Repeat.body_of
    hngh.Router.Repeat.change hngh.Router.Repeat.bump_plan hngh.Router.Repeat.dispose_plan
    hngh.Router.Repeat.in_progress hngh.Router.Repeat.park_reason hngh.Router.Repeat.park_plan
    hngh.Router.Repeat.count_occurrence hngh.Router.Repeat.line_stamp hngh.Router.Repeat.first_stamp
    hngh.Router.Repeat.oldest_occurrence hngh.Router.Repeat.escalate
    hngh.Router.Repeat.report_recurring hngh.Router.Repeat.suppress hngh.Router.Repeat.close_lane
    hngh.Router.Repeat.repeat_rows hngh.Router.Repeat.repeat hngh.Router.Route.free_slug
    hngh.Router.Route.new_slug hngh.Router.Route.slug_for hngh.Router.Route.candidate
    hngh.Router.Route.minted hngh.Router.Route.mint hngh.Router.Route.end_lane
    hngh.Router.Route.park_lane hngh.Router.Route.defer hngh.Router.Route.route_budget
    hngh.Router.Route.route_bound hngh.Router.Route.route_fresh hngh.Router.Route.route_found
    hngh.Router.Route.route_shape hngh.Router.Main.route_scrubbed hngh.Router.Main.route
route_runs = (refl, refl, refl)

route-Undrafted_example :
    let after = route env (codes "Budget:cap") [] chain in
    (after.plans ≡ chain.plans) × (after.budget ≡ chain.budget)
unfolding scrub_pathy_identity has_key lower occurs
route-Undrafted_example =
    route-Undrafted env (codes "Budget:cap") (codes "Budget:cap") [] chain refl refl

-- A flag without a value, an unknown one, and no identity are usage errors.
main_runs :
    (main env (codes "--identity" ∷ []) chain ≡ (2, chain))
    × (main env (codes "--id" ∷ codes "gate" ∷ []) chain ≡ (2, chain))
    × (main env (codes "--text" ∷ codes "gate" ∷ []) chain ≡ (2, chain))
unfolding main parsed run_parsed same_text
main_runs = (refl, refl, refl)
