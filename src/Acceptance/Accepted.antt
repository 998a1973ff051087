-- ===== src/Acceptance/Accepted.antt =====
-- automation/scripts/accept-plans.py: the review and the gates of a plan that meets the contract.
use Prim.Native.Nat.{ℕ}
use hngh.Prelude.{
  ◌≡◌, sym, ap, subst, ◌∙◌, ◌⊎◌, inl, inr, none, some, [], Bool, true, false, not, ◌&&◌, ◌==◌,
  if◌then◌else◌, if_true, if_false, Bool-cases, arith, ◌++◌, append_assoc, all,
}
use hngh.Texts.{Text, codes, is_space, same_text, same_text-eq}
use hngh.Acceptance.{Front, front_of, accepted_text, replace_first, first_unverified_step}
use hngh.Acceptance.Header.{front_of-Shape}
use hngh.Acceptance.Replace.{replace_first-status}
use hngh.Acceptance.Designs.{missing_designs}
use hngh.Acceptance.Run.{
  Env, Review, committed_plan_status, review_designs, review_proposed, review_status, review_drift,
  review_front, review, is_runnable,
}
use hngh.Acceptance.Gates.{green, verdict, acceptance, gated_body, final_body}
use hngh.Acceptance.Justified.{Proposed, Passed}

verdict-green : (e : Env) → Passed e → verdict e ≡ green
unfolding verdict
verdict-green e (free, kernel, automation) =
    if_false _ _ _ (ap not free)
    ∙ if_false _ _ _ (ap not kernel)
    ∙ if_false _ _ _ (ap not automation)

module _ (e : Env) (slug t : Text) (f : Front) where
  review_front-status :
      (same_text f.accepted (codes "-") ≡ false) ⊎ (committed_plan_status e slug ≡ none)
      → review_front e slug t (some f) ≡ review_status e slug t f
  unfolding review_front review_drift
  review_front-status (inl stamped) =
      if_false _ _ _ (ap (λ b. same_text f.status (codes "proposed") && b) stamped ∙ and_false _)
    where
      and_false : (b : Bool) → (b && false) ≡ false
      and_false b = ground arith
  review_front-status (inr clean) =
      elim (Bool-cases
        (same_text f.status (codes "proposed") && same_text f.accepted (codes "-"))) [
          | inl new ↦ if_true _ _ _ new ∙ ap (review_drift e slug t f) clean
          | inr other ↦ if_false _ _ _ other
        ]

  review_status-designs :
      Proposed e slug t f
      → review_status e slug t f ≡ review_designs e slug t f (missing_designs e.exists t)
  unfolding review_status review_proposed same_text
  review_status-designs (proposed, uncritical, principled, guard) =
      if_false _ _ _
        (ap (λ s. same_text s (codes "held")) (same_text-eq f.status (codes "proposed") proposed))
      ∙ if_true _ _ _ proposed
      ∙ if_false _ _ _ uncritical
      ∙ if_false _ _ _ (ap not principled)

final_body-accepted_text :
    (e : Env) (slug t : Text) (f : Front)
    → front_of t ≡ some f
    → Proposed e slug t f
    → missing_designs e.exists t ≡ []
    → first_unverified_step t ≡ 0
    → Passed e
    → e.dry_run ≡ false
    → final_body e (slug, t) ≡ accepted_text e.now f
unfolding final_body is_runnable review review_designs
final_body-accepted_text e slug t f at proposed m verified passed wet =
    subst
      (λ (r : Review).
        (if r.candidate && first_unverified_step t == 0 then gated_body e (verdict e) t else r.body)
        ≡ accepted_text e.now f)
      (sym reviewed) (if_true _ _ _ (zero_test (first_unverified_step t) verified) ∙ gated)
  where
    zero_test : (n : ℕ) → n ≡ 0 → (n == 0) ≡ true
    zero_test n h = ground arith

    reviewed : review_front e slug t (front_of t) ≡ review_designs e slug t f []
    reviewed =
        ap (review_front e slug t) at
        ∙ review_front-status e slug t f proposed.3
        ∙ review_status-designs e slug t f proposed
        ∙ ap (review_designs e slug t f) m

    gated : gated_body e (verdict e) t ≡ accepted_text e.now f
    gated =
        ap (λ v. gated_body e v t) (verdict-green e passed)
        ∙ unfold gated_body in ap (acceptance e t) at ∙ if_false _ _ _ wet

-- The text is accepted: the word of its status is, and the first `accepted=-` of its comment has the
-- time; all else is as it was.
abbrev pub IsAccepted : Text → Front → Text → Text → Type 0
IsAccepted now f t t' =
    (sp sp' mid : Text) × (all is_space sp ≡ true)
    × (all is_space sp' ≡ true)
    × (t
        ≡ f.above
          ++ ((codes "<!--" ++ (sp ++ (codes "plan:" ++ (sp' ++ (codes "status=proposed" ++ mid)))))
              ++ f.below))
    × (t'
        ≡ f.above
          ++ (replace_first (codes "accepted=-") (codes "accepted=" ++ now) (
                codes "<!--"
                ++ (sp ++ (codes "plan:" ++ (sp' ++ (codes "status=accepted" ++ mid)))))
              ++ f.below))

accepted_text-IsAccepted :
    (now t : Text) (f : Front)
    → front_of t ≡ some f
    → f.status ≡ codes "proposed"
    → IsAccepted now f t (accepted_text now f)
unfolding accepted_text
accepted_text-IsAccepted now t f at proposed =
    let (sp, sp', mid, blank, blank', comment, eq) = front_of-Shape t f at in
    let comment' : f.comment
        ≡ codes "<!--" ++ (sp ++ (codes "plan:" ++ (sp' ++ (codes "status=proposed" ++ mid)))) =
      comment
      ∙ ap
          (λ v. codes "<!--" ++ (sp ++ (codes "plan:" ++ (sp' ++ (codes "status=" ++ (v ++ mid))))))
          proposed in
    (
      sp,
      sp',
      mid,
      blank,
      blank',
      eq ∙ ap (λ c. f.above ++ (c ++ f.below)) comment',
      append_assoc f.above _ f.below
          ∙ ap
              (λ c.
                f.above
                ++ (replace_first (codes "accepted=-") (codes "accepted=" ++ now) c ++ f.below))
              (ap (replace_first (codes "status=proposed") (codes "status=accepted")) comment'
                ∙ replace_first-status sp sp' mid (codes "status=accepted") blank blank'),
    )

-- In a run that is not dry, a proposed plan that is not critical, with a principle, not accepted at HEAD
-- when its header says that it never was, whose designs all exist and whose open steps all have a
-- verification, is accepted, when the lock is free and both gates pass: the word proposed of its status
-- becomes accepted, the first `accepted=-` of its comment has the time behind it, if there is one, and
-- all else is as it was.
pub final_body-IsAccepted :
    (e : Env) (slug t : Text) (f : Front)
    → front_of t ≡ some f
    → Proposed e slug t f
    → missing_designs e.exists t ≡ []
    → first_unverified_step t ≡ 0
    → Passed e
    → e.dry_run ≡ false
    → IsAccepted e.now f t (final_body e (slug, t))
final_body-IsAccepted e slug t f at proposed m verified passed wet =
    subst (IsAccepted e.now f t)
      (sym (final_body-accepted_text e slug t f at proposed m verified passed wet))
      (accepted_text-IsAccepted e.now t f at (same_text-eq f.status (codes "proposed") proposed.0))
