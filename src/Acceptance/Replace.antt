-- ===== src/Acceptance/Replace.antt =====
-- automation/scripts/accept-plans.py: text.replace(old, new, 1) at the status of a header's comment.
use Prim.Native.Nat.{ℕ}
use hngh.Prelude.{
  ◌≡◌, refl, ap, ◌∙◌, Option, none, some, [], ◌∷◌, ◌++◌, true, false, not, ◌==◌, if_true, if_false,
  all, arith,
}
use hngh.Texts.{Text, codes, starts, before, behind, behind_prefix, is_space}
use hngh.Router.Free.{behind_prefix-append}
use hngh.Acceptance.{replace_first, put}

starts-behind_prefix : (s t : Text) → behind_prefix s t ≡ none → starts s t ≡ false
unfolding behind_prefix starts
starts-behind_prefix [] t h = absurd cc
starts-behind_prefix (c ∷ s) [] h = refl
starts-behind_prefix (c ∷ s) (d ∷ t) h = ground (arith, starts-behind_prefix s t)

starts-append : (s t : Text) → starts s (s ++ t) ≡ true
unfolding starts
starts-append [] t = refl
starts-append (c ∷ s) t = ground (arith, starts-append s t)

module _ (old new : Text) where
  behind-skip :
      (c : ℕ) (t : Text) → behind_prefix old (c ∷ t) ≡ none → behind old (c ∷ t) ≡ behind old t
  unfolding behind
  behind-skip c t h =
      ap (λ (o : Option Text). elim o [ some found ↦ some found | none ↦ behind old t ]) h

  before-skip :
      (c : ℕ) (t : Text) → behind_prefix old (c ∷ t) ≡ none → before old (c ∷ t) ≡ c ∷ before old t
  unfolding before
  before-skip c t h = if_false _ _ _ (starts-behind_prefix old (c ∷ t) h)

  put-skip :
      (c : ℕ) (t : Text) (o : Option Text)
      → behind_prefix old (c ∷ t) ≡ none
      → put old new (c ∷ t) o ≡ c ∷ put old new t o
  put-skip c t none h = refl
  put-skip c t (some rest) h = ap (λ b. b ++ new ++ rest) (before-skip c t h)

  -- A replacement passes over a character where the old text does not start.
  replace_first-skip :
      (c : ℕ) (t : Text)
      → behind_prefix old (c ∷ t) ≡ none
      → replace_first old new (c ∷ t) ≡ c ∷ replace_first old new t
  unfolding replace_first
  replace_first-skip c t h =
      ap (put old new (c ∷ t)) (behind-skip c t h) ∙ put-skip c t (behind old t) h

apart-parts :
    (o c : ℕ) (l : Text)
    → all (λ d. not (o == d)) (c ∷ l) ≡ true
    → ((o == c) ≡ false) × (all (λ d. not (o == d)) l ≡ true)
apart-parts o c l h = ground arith

no_prefix : (o c : ℕ) (old u : Text) → (o == c) ≡ false → behind_prefix (o ∷ old) (c ∷ u) ≡ none
unfolding behind_prefix
no_prefix o c old u e = if_false _ _ _ e

-- A replacement passes over a part that lacks the old text's first character.
replace_first-past :
    (o : ℕ) (old new l t : Text)
    → all (λ c. not (o == c)) l ≡ true
    → replace_first (o ∷ old) new (l ++ t) ≡ l ++ replace_first (o ∷ old) new t
replace_first-past o old new [] t h = refl
replace_first-past o old new (c ∷ l) t h =
    let parts = apart-parts o c l h in
    replace_first-skip (o ∷ old) new c (l ++ t) (no_prefix o c old (l ++ t) parts.0)
    ∙ ap (λ u. c ∷ u) (replace_first-past o old new l t parts.1)

behind-here : (o : ℕ) (old t : Text) → behind (o ∷ old) ((o ∷ old) ++ t) ≡ some t
unfolding behind
behind-here o old t =
    ap
      (λ (r : Option Text). elim r [ some found ↦ some found | none ↦ behind (o ∷ old) (old ++ t) ])
      (behind_prefix-append (o ∷ old) t)

before-here : (o : ℕ) (old t : Text) → before (o ∷ old) ((o ∷ old) ++ t) ≡ []
unfolding before
before-here o old t = if_true _ _ _ (starts-append (o ∷ old) t)

replace_first-here :
    (o : ℕ) (old new t : Text) → replace_first (o ∷ old) new ((o ∷ old) ++ t) ≡ new ++ t
unfolding replace_first
replace_first-here o old new t =
    ap (put (o ∷ old) new ((o ∷ old) ++ t)) (behind-here o old t)
    ∙ ap (λ b. b ++ new ++ t) (before-here o old t)

blank-apart : (sp : Text) → all is_space sp ≡ true → all (λ c. not (115 == c)) sp ≡ true
blank-apart [] h = refl
blank-apart (c ∷ sp) h = ground (arith, blank-apart sp)

past_proposed :
    (new l t : Text)
    → all (λ c. not (115 == c)) l ≡ true
    → replace_first (codes "status=proposed") new (l ++ t)
      ≡ l ++ replace_first (codes "status=proposed") new t
past_proposed = replace_first-past 115 (codes "tatus=proposed")

-- The comment of a proposed plan with the status accepted.
pub replace_first-status :
    (sp sp' mid new : Text)
    → all is_space sp ≡ true
    → all is_space sp' ≡ true
    → replace_first
        (codes "status=proposed")
        new
        (codes "<!--" ++ (sp ++ (codes "plan:" ++ (sp' ++ (codes "status=proposed" ++ mid)))))
      ≡ codes "<!--" ++ (sp ++ (codes "plan:" ++ (sp' ++ (new ++ mid))))
replace_first-status sp sp' mid new blank blank' =
    past_proposed new (codes "<!--") _ refl
    ∙ ap (λ u. codes "<!--" ++ u)
        (past_proposed new sp _ (blank-apart sp blank)
          ∙ ap (λ u. sp ++ u)
              (past_proposed new (codes "plan:") _ refl
                ∙ ap (λ u. codes "plan:" ++ u)
                    (past_proposed new sp' _ (blank-apart sp' blank')
                      ∙ ap (λ u. sp' ++ u)
                          (replace_first-here 115 (codes "tatus=proposed") new mid))))
