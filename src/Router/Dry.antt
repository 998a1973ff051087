-- ===== src/Router/Dry.antt =====
-- automation/scripts/router-tick.py: what a call does when DRY_RUN is set.
use Prim.Native.Nat.{ℕ, ◌-◌}
use hngh.Prelude.{
  ◌≡◌, refl, sym, ap, subst, ◌∙◌, ◌⊎◌, inl, inr, Option, none, some, List, [], ◌∷◌, Bool, true,
  false, ◌||◌, ◌&&◌, ltb, leb, if_ind, if_true, if_false, or_right,
}
use hngh.Texts.{Text, codes, is_empty, same_text, holds, occurs}
use hngh.FilingBudget.{allow}
use hngh.ReportQueue.{World as Queue, silence_identity, save_state}
use hngh.Router.{Env, Plan, World, today, report, breadcrumb, silence}
use hngh.Router.Params.{router_reroute_max}
use hngh.Router.Identity.{ident_ok, scrub_pathy_identity, subject_of}
use hngh.Router.Chains.{
  Found, older, slug_of, is_stale, mark_expired, expire_each, report_expired,
  expire_stale_candidates,
}
use hngh.Router.Bound.{close_each, chain_live_count, chain_expired_close}
use hngh.Router.Shapes.{Shape, shape_for}
use hngh.Router.Repeat.{
  Repeat, status, body_of, in_progress, count_occurrence, escalate, report_recurring, suppress,
  repeat_rows, repeat,
}
use hngh.Router.Route.{
  names, plan_name, mint, end_lane, park_lane, defer, route_budget, route_bound, route_fresh,
  then_fresh, route_found, route_shape,
}
use hngh.Router.Main.{still_open, refire_plan, refire_step, refire, route_scrubbed, route}

module _ (e : Env) (dry : e.dry_run ≡ true) where
  report-dry :
      (kind content ident : Text) (window : ℕ) (w : World)
      → report e kind content ident window w ≡ w
  unfolding report
  report-dry kind content ident window w = if_true _ w _ dry

  breadcrumb-dry : (event detail : Text) (w : World) → breadcrumb e event detail w ≡ w
  unfolding breadcrumb
  breadcrumb-dry event detail w = if_true _ w _ dry

  told-dry :
      (event detail kind content ident : Text) (window : ℕ) (w : World)
      → breadcrumb e event detail (report e kind content ident window w) ≡ w
  told-dry event detail kind content ident window w =
      breadcrumb-dry event detail _ ∙ report-dry kind content ident window w

  mark_expired-dry : (p : Plan) → mark_expired e p ≡ p
  unfolding mark_expired
  mark_expired-dry p = if_true _ p _ dry

  expire_each-dry :
      (subject : Text) (oldest : Option Found) (plans : List Plan)
      → (expire_each e subject oldest plans).0 ≡ plans
  unfolding expire_each
  expire_each-dry subject oldest [] = refl
  expire_each-dry subject oldest (p ∷ plans) =
      if_ind (λ (r : List Plan × Option Found). r.0 ≡ p ∷ plans) (is_stale e subject p)
        (λ _.
          ap (λ rest. mark_expired e p ∷ rest)
            (expire_each-dry subject (older oldest (slug_of p.name, e.now - p.modified)) plans)
          ∙ ap (λ q. q ∷ plans) (mark_expired-dry p))
        (λ _. ap (λ rest. p ∷ rest) (expire_each-dry subject oldest plans))

  report_expired-dry :
      (identity : Text) (o : Option Found) (w : World) → report_expired e identity o w ≡ w
  unfolding report_expired
  report_expired-dry identity none w = refl
  report_expired-dry identity (some found) w = report-dry _ _ _ _ w

  expire_stale-dry : (identity : Text) (w : World) → (expire_stale_candidates e identity w).1 ≡ w
  unfolding expire_stale_candidates
  expire_stale-dry identity w =
      report_expired-dry identity _ _
      ∙ ap (λ ps. record w { plans = ps }) (expire_each-dry (subject_of identity) none w.plans)

  abbrev SameAs : World → World → Type 0
  SameAs w v = v ≡ w

  count_occurrence-dry : (r : Repeat) (w : World) → count_occurrence e r w ≡ (false, w)
  unfolding count_occurrence
  count_occurrence-dry r w =
      if_true (in_progress r || e.dry_run) (false, w) _ (or_right (in_progress r) dry)

  report_recurring-dry :
      (identity : Text) (count : ℕ) (w : World) → report_recurring e identity count w ≡ w
  unfolding report_recurring
  report_recurring-dry identity count w =
      if_ind (SameAs w) (leb 3 count) (λ _. report-dry _ _ _ _ w) (λ _. refl)

  repeat_rows-dry : (identity : Text) (r : Repeat) (w : World) → repeat_rows e identity r w ≡ w
  unfolding repeat_rows escalate suppress
  repeat_rows-dry identity r w =
      if_ind (SameAs w) (same_text (status r) (codes "expired")) (λ _. told-dry _ _ _ _ _ _ w)
        (λ _. breadcrumb-dry _ _ _ ∙ report_recurring-dry identity _ _ ∙ report-dry _ _ _ _ w)

  repeat-dry : (identity : Text) (r : Repeat) (w : World) → (repeat e identity r w).1 ≡ w
  unfolding repeat
  repeat-dry identity r w =
      if_false (count_occurrence e r w).0 _ _
        (ap (λ (c : Bool × World). c.0) (count_occurrence-dry r w))
      ∙ repeat_rows-dry identity r (count_occurrence e r w).1
      ∙ ap (λ (c : Bool × World). c.1) (count_occurrence-dry r w)

  -- No filing and no crumb is added.
  abbrev Unheard : World → World → Type 0
  Unheard w v = (v.crumbs ≡ w.crumbs) × (v.queue.filings ≡ w.queue.filings) × (v.plans ≡ w.plans)

  same-Unheard : (w v : World) → v ≡ w → Unheard w v
  same-Unheard w v h = (
    ap (λ (u : World). u.crumbs) h,
    ap (λ (u : World). u.queue.filings) h,
    ap (λ (u : World). u.plans) h,
  )

  silence-Unheard : (identity : Text) (w : World) → Unheard w (silence e identity w)
  unfolding silence silence_identity save_state
  silence-Unheard identity w = (refl, filings, refl)
    where
      filings : (silence_identity e.clock identity w.queue).1.filings ≡ w.queue.filings
      filings =
          if_ind (λ (r : Bool × Queue). r.1.filings ≡ w.queue.filings) (is_empty identity)
            (λ _. refl)
            (λ _.
              if_ind (λ (q : Queue). q.filings ≡ w.queue.filings) e.clock.can_write (λ _. refl)
                (λ _. refl))

  mint-dry : (identity text : Text) (shape : Shape) (w : World) → mint e identity text shape w ≡ w
  unfolding mint
  mint-dry identity text shape w = if_true _ w _ dry

  route_budget-Unheard :
      (identity text : Text) (shape : Shape) (w : World)
      → Unheard w (route_budget e identity text shape w)
  unfolding route_budget defer
  route_budget-Unheard identity text shape w =
      let asked = allow e.host (codes "routed") identity (today e) w.budget in
      let w' : World = record w { budget = asked.1 } in
      if_ind (Unheard w) asked.0 (λ _. same-Unheard w' _ (mint-dry identity text shape w'))
        (λ _. same-Unheard w' _ (told-dry _ _ _ _ _ _ w'))

  park_lane-Unheard : (identity : Text) (w : World) → Unheard w (park_lane e identity w)
  unfolding park_lane
  park_lane-Unheard identity w =
      subst (Unheard w) (sym (told-dry _ _ _ _ _ _ (silence e identity w)))
        (silence-Unheard identity w)

  route_bound-Unheard :
      (identity text : Text) (shape : Shape) (closed : ℕ) (w : World)
      → Unheard w (route_bound e identity text shape closed w)
  unfolding route_bound end_lane
  route_bound-Unheard identity text shape closed w =
      let live = chain_live_count identity w.plans in
      if_ind (Unheard w) (ltb 0 closed && ltb live (router_reroute_max e))
        (λ _. same-Unheard w _ (told-dry _ _ _ _ _ _ w))
        (λ _.
          if_ind (Unheard w) (leb (router_reroute_max e) live) (λ _. park_lane-Unheard identity w)
            (λ _. route_budget-Unheard identity text shape w))

-- No filing and no crumb is added, and the plans are as before, or with the lapsed ones of one subject
-- closed.
abbrev pub Probed : Env → World → World → Type 0
Probed e w v =
    (v.crumbs ≡ w.crumbs)
    × (v.queue.filings ≡ w.queue.filings)
    × ((v.plans ≡ w.plans) ⊎ ((subject : Text) × (v.plans ≡ close_each e subject w.plans)))

module _ (e : Env) (dry : e.dry_run ≡ true) where
  same-Probed : (w v : World) → v ≡ w → Probed e w v
  same-Probed w v h =
      let (crumbs, filings, plans) = same-Unheard e dry w v h in (crumbs, filings, inl plans)

  route_fresh-Probed :
      (identity text : Text) (shape : Shape) (w : World)
      → Probed e w (route_fresh e identity text shape w)
  unfolding route_fresh chain_expired_close
  route_fresh-Probed identity text shape w =
      let closed = close_each e (subject_of identity) w.plans in
      let (crumbs, filings, plans) =
        route_bound-Unheard e dry identity text shape _ (record w { plans = closed }) in
      (crumbs, filings, inr (subject_of identity, plans))

  route_found-Probed :
      (identity text : Text) (shape : Shape) (o : Option Found) (w : World)
      → Probed e w (route_found e identity text shape o w)
  unfolding route_found
  route_found-Probed identity text shape none w = route_fresh-Probed identity text shape w
  route_found-Probed identity text shape (some (slug, age)) w =
      told (repeat e identity r w) (repeat-dry e dry identity r w)
    where
      r : Repeat
      r = record { slug = slug; age = age; text = body_of (plan_name slug) w.plans }

      told : (t : Bool × World) → t.1 ≡ w → Probed e w (then_fresh e identity text shape t)
      told (false, v) h = same-Probed w v h
      told (true, v) h =
          subst (λ (u : World). Probed e u (route_fresh e identity text shape v)) h
            (route_fresh-Probed identity text shape v)

  route_shape-Probed :
      (identity text : Text) (o : Option Shape) (w : World)
      → Probed e w (route_shape e identity text o w)
  unfolding route_shape
  route_shape-Probed identity text none w = same-Probed w _ (told-dry e dry _ _ _ _ _ _ w)
  route_shape-Probed identity text (some shape) w =
      subst (λ (u : World). Probed e u (route_shape e identity text (some shape) w))
        (expire_stale-dry e dry identity w)
        (route_found-Probed identity text shape _ (expire_stale_candidates e identity w).1)

  refire_plan-dry :
      (identity slug : Text) (step : Option ℕ) (t : Text) (w : World)
      → refire_plan e identity slug step t w ≡ w
  unfolding refire_plan
  refire_plan-dry identity slug step t w =
      if_ind (SameAs e dry w) (still_open t step) (λ _. told-dry e dry _ _ _ _ _ _ w)
        (λ _. told-dry e dry _ _ _ _ _ _ w)

  refire_step-dry :
      (identity : Text) (named : Text × Option ℕ) (w : World) → refire_step e identity named w ≡ w
  unfolding refire_step
  refire_step-dry identity (slug, step) w =
      if_ind (SameAs e dry w) (holds (names w.plans) (plan_name slug))
        (λ _. refire_plan-dry identity slug step (body_of (plan_name slug) w.plans) w)
        (λ _. breadcrumb-dry e dry _ _ w)

  route_scrubbed-Probed :
      (identity text : Text) (o : Option Text) (w : World)
      → Probed e w (route_scrubbed e identity text o w)
  unfolding route_scrubbed refire
  route_scrubbed-Probed identity text none w = same-Probed w _ (breadcrumb-dry e dry _ _ w)
  route_scrubbed-Probed identity text (some scrubbed) w =
      if_ind (Probed e w) (occurs (codes ":plan:") scrubbed)
        (λ _. same-Probed w _ (refire_step-dry scrubbed _ w))
        (λ _. route_shape-Probed scrubbed text (shape_for e scrubbed) w)

-- A dry run, whatever the identity, files nothing and writes no crumb, adds no plan and expires none by
-- its age; yet it may close the lapsed plans of one subject, as `chain_expired_close` does.
pub route-Probed :
    (e : Env) (identity text : Text) (w : World)
    → e.dry_run ≡ true
    → Probed e w (route e identity text w)
unfolding route
route-Probed e identity text w dry =
    if_ind (Probed e w) (ident_ok identity)
      (λ _. route_scrubbed-Probed e dry identity text (scrub_pathy_identity e identity) w)
      (λ _. same-Probed e dry w _ (breadcrumb-dry e dry _ _ w))
