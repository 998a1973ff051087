-- ===== src/Router/Kept.antt =====
-- automation/scripts/router-tick.py: the steps of a call keep the names of the plans.
use Prim.Native.Nat.{ℕ, ◌-◌}
use hngh.Prelude.{
  ◌≡◌, refl, ap, ◌∙◌, Option, none, some, List, [], ◌∷◌, ◌++◌, Bool, ◌||◌, if_ind, leb,
}
use hngh.Texts.{Text, codes, same_text}
use hngh.Router.{Env, Plan, World, silence}
use hngh.Router.Identity.{subject_of}
use hngh.Router.Chains.{
  Found, older, slug_of, is_stale, mark_expired, expire_each, report_expired,
  expire_stale_candidates,
}
use hngh.Router.Plans.{occurrence_count, bumped_text}
use hngh.Router.Params.{escalate_n}
use hngh.Router.Bound.{close_plan, close_each}
use hngh.Router.Repeat.{
  Repeat, name_of, status, in_progress, change, bump_plan, dispose_plan, park_plan,
  count_occurrence, escalate, report_recurring, suppress, close_lane, repeat_rows, repeat,
}
use hngh.Router.Route.{names, end_lane, park_lane, defer}
use hngh.Router.Filed.{report-plans, breadcrumb-plans, silence-plans, told-plans}

pub names-append : (ps qs : List Plan) → names (ps ++ qs) ≡ names ps ++ names qs
names-append [] qs = refl
names-append (p ∷ ps) qs = simp (names-append ps qs)

module _ (name : Text) (f : Plan → Plan) (same_name : (p : Plan) → (f p).name ≡ p.name) where
  pub names-change : (plans : List Plan) → names (change name f plans) ≡ names plans
  unfolding change
  names-change [] = refl
  names-change (p ∷ plans) =
      if_ind (λ (q : Plan). names (q ∷ change name f plans) ≡ p.name ∷ names plans)
        (same_text p.name name) (λ _. simp (same_name p, names-change plans))
        (λ _. simp (names-change plans))

module _ (e : Env) where
  mark_expired-name : (p : Plan) → (mark_expired e p).name ≡ p.name
  unfolding mark_expired
  mark_expired-name p = if_ind (λ (q : Plan). q.name ≡ p.name) e.dry_run (λ _. refl) (λ _. refl)

  names-expire_each :
      (subject : Text) (oldest : Option Found) (plans : List Plan)
      → names (expire_each e subject oldest plans).0 ≡ names plans
  unfolding expire_each
  names-expire_each subject oldest [] = refl
  names-expire_each subject oldest (p ∷ plans) =
      if_ind (λ (r : List Plan × Option Found). names r.0 ≡ p.name ∷ names plans)
        (is_stale e subject p)
        (λ _. simp (
          mark_expired-name p,
          names-expire_each subject (older oldest (slug_of p.name, e.now - p.modified)) plans,
        ))
        (λ _. simp (names-expire_each subject oldest plans))

  pub names-expire_stale :
      (identity : Text) (w : World)
      → names (expire_stale_candidates e identity w).1.plans ≡ names w.plans
  unfolding expire_stale_candidates report_expired
  names-expire_stale identity w =
      ap names (report_expired-plans _ _) ∙ names-expire_each (subject_of identity) none w.plans
    where
      report_expired-plans :
          (o : Option Found) (v : World) → (report_expired e identity o v).plans ≡ v.plans
      report_expired-plans none v = refl
      report_expired-plans (some found) v = report-plans e _ _ _ _ v

  pub names-close_each :
      (subject : Text) (plans : List Plan) → names (close_each e subject plans) ≡ names plans
  unfolding close_each close_plan
  names-close_each subject [] = refl
  names-close_each subject (p ∷ plans) = simp (close_plan-name, names-close_each subject plans)
    where
      close_plan-name : (close_plan e subject p).name ≡ p.name
      close_plan-name = if_ind (λ (q : Plan). q.name ≡ p.name) _ (λ _. refl) (λ _. refl)

  bump_plan-names :
      (name body : Text) (w : World) → names (bump_plan name body w).plans ≡ names w.plans
  unfolding bump_plan
  bump_plan-names name body w =
      names-change name (λ p. record p { body = body }) (λ p. refl) w.plans

  park_plan-names :
      (r : Repeat) (o : Option Text) (w : World) → names (park_plan e r o w).1.plans ≡ names w.plans
  unfolding park_plan dispose_plan
  park_plan-names r none w = refl
  park_plan-names r (some body) w =
      if_ind (λ (v : Bool × World). names v.1.plans ≡ names w.plans) e.shared_dir
        (λ _.
          names-change (name_of r) (λ p. record p { body = body; modified = e.now }) (λ p. refl)
            w.plans)
        (λ _. refl)

  abbrev SameNames : World → Bool × World → Type 0
  SameNames w v = names v.1.plans ≡ names w.plans

  abbrev pub SamePlans : World → World → Type 0
  SamePlans w v = v.plans ≡ w.plans

  count_occurrence-names :
      (r : Repeat) (w : World) → names (count_occurrence e r w).1.plans ≡ names w.plans
  unfolding count_occurrence
  count_occurrence-names r w =
      let bumped = bump_plan-names (name_of r) (bumped_text e r.text) w in
      if_ind (SameNames w) (in_progress r || e.dry_run) (λ _. refl)
        (λ _.
          if_ind (SameNames w) (leb (escalate_n e) (occurrence_count (bumped_text e r.text)))
            (λ _. park_plan-names r _ (bump_plan (name_of r) (bumped_text e r.text) w) ∙ bumped)
            (λ _. bumped))

  escalate-plans :
      (identity : Text) (r : Repeat) (w : World) → (escalate e identity r w).plans ≡ w.plans
  unfolding escalate
  escalate-plans identity r w = told-plans e _ _ _ _ _ _ w

  report_recurring-plans :
      (identity : Text) (count : ℕ) (w : World)
      → (report_recurring e identity count w).plans ≡ w.plans
  unfolding report_recurring
  report_recurring-plans identity count w =
      if_ind (SamePlans w) (leb 3 count) (λ _. report-plans e _ _ _ _ w) (λ _. refl)

  suppress-plans :
      (identity : Text) (r : Repeat) (count : ℕ) (w : World)
      → (suppress e identity r count w).plans ≡ w.plans
  unfolding suppress
  suppress-plans identity r count w =
      breadcrumb-plans e _ _ _ ∙ report_recurring-plans identity count _ ∙ report-plans e _ _ _ _ w

  repeat_rows-plans :
      (identity : Text) (r : Repeat) (w : World) → (repeat_rows e identity r w).plans ≡ w.plans
  unfolding repeat_rows
  repeat_rows-plans identity r w =
      if_ind (SamePlans w) (same_text (status r) (codes "expired"))
        (λ _. escalate-plans identity r w) (λ _. suppress-plans identity r _ w)

  close_lane-plans :
      (identity : Text) (r : Repeat) (w : World) → (close_lane e identity r w).plans ≡ w.plans
  unfolding close_lane
  close_lane-plans identity r w =
      told-plans e _ _ _ _ _ _ (silence e identity w) ∙ silence-plans e identity w

  pub repeat-names :
      (identity : Text) (r : Repeat) (w : World)
      → names (repeat e identity r w).1.plans ≡ names w.plans
  unfolding repeat
  repeat-names identity r w =
      let counted = (count_occurrence e r w).1 in
      let told = ap names (repeat_rows-plans identity r counted) ∙ count_occurrence-names r w in
      if_ind (λ (v : World). names v.plans ≡ names w.plans) (count_occurrence e r w).0
        (λ _. ap names (close_lane-plans identity r (repeat_rows e identity r counted)) ∙ told)
        (λ _. told)

  pub end_lane-plans :
      (identity : Text) (n : ℕ) (w : World) → (end_lane e identity n w).plans ≡ w.plans
  unfolding end_lane
  end_lane-plans identity n w = told-plans e _ _ _ _ _ _ w

  pub park_lane-plans : (identity : Text) (w : World) → (park_lane e identity w).plans ≡ w.plans
  unfolding park_lane
  park_lane-plans identity w =
      told-plans e _ _ _ _ _ _ (silence e identity w) ∙ silence-plans e identity w

  pub defer-plans : (identity : Text) (w : World) → (defer e identity w).plans ≡ w.plans
  unfolding defer
  defer-plans identity w = told-plans e _ _ _ _ _ _ w
