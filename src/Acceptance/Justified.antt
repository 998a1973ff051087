-- ===== src/Acceptance/Justified.antt =====
-- automation/scripts/accept-plans.py: what a run changes, it changes for a reason.
use Prim.Native.Nat.{ℕ}
use hngh.Prelude.{
  ◌≡◌, refl, sym, ap, subst, ◌⊎◌, inl, inr, Option, none, some, List, [], ◌∷◌, Bool, true, false,
  not, ◌&&◌, ◌==◌, if◌then◌else◌, if_ind, arith,
}
use hngh.Texts.{Text, codes, same_text}
use hngh.ReportQueue.{Filing}
use hngh.Acceptance.{
  Front, front_of, accepted_text, held_text, reproposed_text, first_unverified_step, has_principle,
}
use hngh.Acceptance.Designs.{missing_designs}
use hngh.Acceptance.Run.{
  Env, Review, written, unchanged, committed_plan_status, review_held, review_designs,
  review_proposed, review_status, review_drift, review_front, review, is_runnable,
}
use hngh.Acceptance.Gates.{
  Verdict, busy, kernel_red, automation_red, green, is_zero, kernel_of, automation_of, verdict,
  acceptance, gated_body, final_body,
}

-- A proposed plan that is not critical, with a principle, and not accepted at HEAD when its header
-- says that it never was.
abbrev pub Proposed : Env → Text → Text → Front → Type 0
Proposed e slug t f =
    (same_text f.status (codes "proposed") ≡ true)
    × (same_text f.risk (codes "critical") ≡ false)
    × (has_principle t ≡ true)
    × ((same_text f.accepted (codes "-") ≡ false) ⊎ (committed_plan_status e slug ≡ none))

-- The lock is free and both gates pass.
abbrev pub Passed : Env → Type 0
Passed e =
    (e.lock_free ≡ true) × (is_zero (kernel_of e).0 ≡ true) × (is_zero (automation_of e).0 ≡ true)

abbrev Accepts : Env → Text → Text → Front → Text → Type 0
Accepts e slug t f body =
    (body ≡ accepted_text e.now f)
    × Proposed e slug t f
    × (missing_designs e.exists t ≡ [])
    × (first_unverified_step t ≡ 0)
    × Passed e

-- A held plan none of whose designs is missing is proposed again.
abbrev Reproposes : Env → Text → Front → Text → Type 0
Reproposes e t f body =
    (body ≡ reproposed_text f)
    × (same_text f.status (codes "held") ≡ true)
    × (missing_designs e.exists t ≡ [])

-- A proposed plan is held for a design that is missing.
abbrev Holds : Env → Text → Text → Front → Text → Type 0
Holds e slug t f body =
    (body ≡ held_text e.now f)
    × Proposed e slug t f
    × ((ref : Text) × (refs : List Text) × (missing_designs e.exists t ≡ ref ∷ refs))

module _ (e : Env) (slug t : Text) (f : Front) where
  abbrev Guarded : Type 0
  Guarded = (same_text f.accepted (codes "-") ≡ false) ⊎ (committed_plan_status e slug ≡ none)

  -- The text stays, or is changed in a run that is not dry.
  abbrev Kept : (Text → Type 0) → Text → Type 0
  Kept P body = (body ≡ t) ⊎ ((e.dry_run ≡ false) × P body)

  abbrev Changed : Text → Type 0
  Changed body = Reproposes e t f body ⊎ Holds e slug t f body

  abbrev Reviewed : Review → Type 0
  Reviewed r =
      ((r.candidate ≡ false) × Kept Changed r.body)
      ⊎ ((r.candidate ≡ true)
          × (r.body ≡ t)
          × Proposed e slug t f
          × (missing_designs e.exists t ≡ []))

  written-Kept : (P : Text → Type 0) (new : Text) → P new → Kept P (written e new t)
  written-Kept P new h = if_ind (Kept P) e.dry_run (λ _. inl refl) (λ wet. inr (wet, h))

  unchanged-Reviewed : (rows : List Filing) (notes : List Text) → Reviewed (unchanged t rows notes)
  unfolding unchanged
  unchanged-Reviewed rows notes = inl (refl, inl refl)

  review_held-Reviewed :
      (refs : List Text)
      → missing_designs e.exists t ≡ refs
      → same_text f.status (codes "held") ≡ true
      → Reviewed (review_held e slug t f refs)
  unfolding review_held
  review_held-Reviewed (ref ∷ refs) m h = unchanged-Reviewed [] _
  review_held-Reviewed [] m h =
      inl (refl, written-Kept Changed (reproposed_text f) (inl (refl, h, m)))

  review_designs-Reviewed :
      (refs : List Text)
      → missing_designs e.exists t ≡ refs
      → Proposed e slug t f
      → Reviewed (review_designs e slug t f refs)
  unfolding review_designs
  review_designs-Reviewed [] m h = inr (refl, refl, h, m)
  review_designs-Reviewed (ref ∷ refs) m h =
      inl (refl, written-Kept Changed (held_text e.now f) (inr (refl, h, (ref, refs, m))))

  review_proposed-Reviewed :
      same_text f.status (codes "proposed") ≡ true → Guarded → Reviewed (review_proposed e slug t f)
  unfolding review_proposed
  review_proposed-Reviewed proposed guard =
      if_ind Reviewed (same_text f.risk (codes "critical")) (λ _. unchanged-Reviewed _ _)
        (λ uncritical.
          if_ind Reviewed (not (has_principle t)) (λ _. unchanged-Reviewed _ _)
            (λ principled.
              review_designs-Reviewed (missing_designs e.exists t) refl
                (proposed, uncritical, ground (arith, principled), guard)))

  review_status-Reviewed :
      (same_text f.status (codes "proposed") ≡ true → Guarded) → Reviewed (review_status e slug t f)
  unfolding review_status
  review_status-Reviewed guard =
      if_ind Reviewed (same_text f.status (codes "held"))
        (λ held. review_held-Reviewed (missing_designs e.exists t) refl held)
        (λ _.
          if_ind Reviewed (same_text f.status (codes "proposed"))
            (λ proposed. review_proposed-Reviewed proposed (guard proposed))
            (λ _. unchanged-Reviewed [] []))

  review_drift-Reviewed :
      (o : Option Text) → committed_plan_status e slug ≡ o → Reviewed (review_drift e slug t f o)
  unfolding review_drift
  review_drift-Reviewed none h = review_status-Reviewed (λ _. inr h)
  review_drift-Reviewed (some prev) h = unchanged-Reviewed _ _

  review_front-Reviewed : Reviewed (review_front e slug t (some f))
  unfolding review_front
  review_front-Reviewed =
      if_ind Reviewed (same_text f.status (codes "proposed") && same_text f.accepted (codes "-"))
        (λ _. review_drift-Reviewed (committed_plan_status e slug) refl)
        (λ other. review_status-Reviewed (λ proposed. inl (ground (arith, other, proposed))))

  -- The run accepts, or leaves the text.
  abbrev Gated : Text → Type 0
  Gated = Kept (Accepts e slug t f)

  gated_body-Gated :
      front_of t ≡ some f
      → Proposed e slug t f
      → missing_designs e.exists t ≡ []
      → first_unverified_step t ≡ 0
      → (v : Verdict) → (v ≡ green → Passed e)
      → Gated (gated_body e v t)
  unfolding gated_body
  gated_body-Gated at h m verified busy passed = inl refl
  gated_body-Gated at h m verified (kernel_red rc out) passed = inl refl
  gated_body-Gated at h m verified (automation_red rc out) passed = inl refl
  gated_body-Gated at h m verified green passed =
      subst (λ o. Gated (acceptance e t o)) (sym at)
        (written-Kept (Accepts e slug t f) (accepted_text e.now f)
          (refl, h, m, verified, passed refl))

module _ (e : Env) where
  abbrev PassedFor : Verdict → Type 0
  PassedFor v = v ≡ green → Passed e

  verdict-Passed : PassedFor (verdict e)
  unfolding verdict
  verdict-Passed =
      if_ind PassedFor (not e.lock_free) (λ _ h. absurd cc)
        (λ free.
          if_ind PassedFor (not (is_zero (kernel_of e).0)) (λ _ h. absurd cc)
            (λ kernel.
              if_ind PassedFor (not (is_zero (automation_of e).0)) (λ _ h. absurd cc)
                (λ automation _. (ground arith, ground arith, ground arith))))

-- What a run may do to a plan.
abbrev Justified : Env → Text → Text → Text → Type 0
Justified e slug t body =
    (f : Front) × (front_of t ≡ some f)
    × (Reproposes e t f body ⊎ (Holds e slug t f body ⊎ Accepts e slug t f body))

second_zero : (b : Bool) (n : ℕ) → (b && n == 0) ≡ true → n ≡ 0
second_zero b n h = ground arith

-- The text stays, or is rewritten for a reason in a run that is not dry.
abbrev pub Warranted : Env → Text → Text → Text → Type 0
Warranted e slug t body = (body ≡ t) ⊎ ((e.dry_run ≡ false) × Justified e slug t body)

module _ (e : Env) (slug t : Text) where
  module _ (f : Front) (at : front_of t ≡ some f) where
    Changed-Warranted :
        (body : Text) → Kept e slug t f (Changed e slug t f) body → Warranted e slug t body
    Changed-Warranted body (inl same) = inl same
    Changed-Warranted body (inr (wet, inl h)) = inr (wet, (f, at, inl h))
    Changed-Warranted body (inr (wet, inr h)) = inr (wet, (f, at, inr (inl h)))

    accepted-Warranted : (body : Text) → Gated e slug t f body → Warranted e slug t body
    accepted-Warranted body (inl same) = inl same
    accepted-Warranted body (inr (wet, h)) = inr (wet, (f, at, inr (inr h)))

    runnable-Warranted :
        (r : Review)
        → Reviewed e slug t f r
        → (r.candidate && first_unverified_step t == 0) ≡ true
        → Warranted e slug t (gated_body e (verdict e) t)
    runnable-Warranted r (inl (no_candidate, _)) h = absurd (ground (arith, no_candidate, h))
    runnable-Warranted r (inr (_, _, proposed, m)) h = accepted-Warranted _ (
        gated_body-Gated e slug t f at proposed m
          (second_zero r.candidate (first_unverified_step t) h) (verdict e) (verdict-Passed e))

    Reviewed-Warranted : (r : Review) → Reviewed e slug t f r → Warranted e slug t r.body
    Reviewed-Warranted r (inl (_, h)) = Changed-Warranted r.body h
    Reviewed-Warranted r (inr (_, same, _, _)) = inl same

  final_body-at : (o : Option Front) → front_of t ≡ o → Warranted e slug t (final_body e (slug, t))
  unfolding final_body is_runnable review review_front unchanged
  final_body-at (some f) at =
      let r = review_front e slug t (front_of t) in
      let reviewed : Reviewed e slug t f r =
        subst (λ o. Reviewed e slug t f (review_front e slug t o)) (sym at)
          (review_front-Reviewed e slug t f) in
      if_ind (Warranted e slug t) (r.candidate && first_unverified_step t == 0)
        (λ h. runnable-Warranted f at r reviewed h) (λ _. Reviewed-Warranted f at r reviewed)
  final_body-at none at = inl (
      subst
        (λ (r : Review).
          (if r.candidate && first_unverified_step t == 0
            then gated_body e (verdict e) t
            else r.body)
          ≡ t)
        (sym (ap (review_front e slug t) at)) refl)

-- Behind a run every plan has the text that it had, or the run was not dry and the text was rewritten in
-- one of three ways: a held plan none of whose designs is missing is proposed again; a proposed plan that
-- is not critical, with a principle, is held when a design is missing; and such a plan is accepted only
-- when no design is missing, every open step has a verification, the lock was free and both gates passed.
-- A plan that HEAD has accepted and whose header says that it never was is neither held nor accepted.
pub final_body-Justified : (e : Env) (slug t : Text) → Warranted e slug t (final_body e (slug, t))
final_body-Justified e slug t = final_body-at e slug t (front_of t) refl
