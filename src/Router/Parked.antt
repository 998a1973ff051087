-- ===== src/Router/Parked.antt =====
-- automation/scripts/router-tick.py, route: an identity whose chain is at the bound falls silent in
-- automation/lib/report_queue.py.
use Prim.Native.Nat.{ℕ, ◌≤◌}
use hngh.Prelude.{
  ◌≡◌, refl, sym, subst, Option, none, some, List, true, false, ◌&&◌, ltb, leb, if_ind, arith,
}
use hngh.Texts.{Text, is_empty, later}
use hngh.ReportQueue.{Entry, Filing, Clock, report as file_report}
use hngh.ReportQueue.Silence.{
  Call, Held, Held-report, reports, reports-stay_silent, silence_identity-Held,
}
use hngh.Router.{Env, World, row, report, silence}
use hngh.Router.Params.{router_reroute_max}
use hngh.Router.Bound.{chain_live_count, chain_expired_close}
use hngh.Router.Shapes.{Shape}
use hngh.Router.Route.{park_lane, route_bound, route_fresh}
use hngh.Router.Filed.{breadcrumb-queue}

module _ (e : Env) (identity : Text) where
  abbrev spent : Entry
  spent = record { expires = e.clock.now; escalated = true }

  abbrev Silent : World → Type 0
  Silent w = Held identity spent w.queue

  report-Silent :
      (kind content ident : Text) (window : ℕ) (w : World)
      → Silent w
      → Silent (report e kind content ident window w)
  unfolding report
  report-Silent kind content ident window w h =
      if_ind Silent e.dry_run (λ _. h)
        (λ _.
          unfold file_report in
          Held-report identity spent e.clock (row kind content ident window) none w.queue
            (some ident) refl h)

  park_lane-Silent :
      (w : World)
      → is_empty identity ≡ false
      → e.clock.can_write ≡ true
      → Silent (park_lane e identity w)
  unfolding park_lane
  park_lane-Silent w nonempty writable =
      subst (Held identity spent) (sym (breadcrumb-queue e _ _ _)) (
        report-Silent _ _ _ _ (silence e identity w)
          (unfold silence in silence_identity-Held identity w.queue e.clock nonempty writable))

-- Where the identity's chain is at the re-route bound behind the close of its expired plans, the call
-- silences the identity, if the state file can be written: whatever is filed in between and under which
-- identities, a later filing under it is swallowed, and nothing is handed to the command.
pub route_fresh-silences :
    (e : Env) (identity text : Text) (shape : Shape) (w : World) (calls : List Call) (c : Clock)
    (f : Filing) (expires : Option Text)
    → is_empty identity ≡ false
    → e.clock.can_write ≡ true
    → router_reroute_max e ≤ chain_live_count identity (chain_expired_close e identity w.plans).1
    → f.identity ≡ some identity
    → later c.now e.clock.now ≡ true
    → let q = reports calls (route_fresh e identity text shape w).queue in
      file_report c f expires q ≡ (false, q)
unfolding route_fresh route_bound
route_fresh-silences e identity text shape w calls c f expires nonempty writable bound named
      lapsed =
    let closed = chain_expired_close e identity w.plans in
    let w' : World = record w { plans = closed.1 } in
    let live = chain_live_count identity closed.1 in
    let parked = park_lane-Silent e identity w' nonempty writable in
    reports-stay_silent identity (record { expires = e.clock.now; escalated = true }) calls _ c f
      expires
      (if_ind (Silent e identity) (ltb 0 closed.0 && ltb live (router_reroute_max e))
        (λ below. absurd (ground arith))
        (λ _.
          if_ind (Silent e identity) (leb (router_reroute_max e) live) (λ _. parked)
            (λ below. absurd (ground arith))))
      refl named lapsed
