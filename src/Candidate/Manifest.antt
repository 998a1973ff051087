-- ===== src/Candidate/Manifest.antt =====
-- scripts/verify-candidate.py: the entries of a manifest that is accepted.
use hngh.Prelude.{
  ◌≡◌, refl, sym, ap, subst, ◌∙◌, inl, inr, Option, none, some, List, [], ◌∷◌, select, Bool, true,
  false, not, ◌&&◌, if◌then◌else◌, if_true, if_false, Bool-cases, All, sorted, IsSorted, IsOrder,
  sorted-IsSorted, arith,
}
use hngh.Texts.{Text, codes, is_empty, same_text, same_text-eq, holds, later, starts, split}
use hngh.Candidate.{
  Result, Env, split_lines, at_most, same_texts, ignored_error, entry_error, or_error,
  entries_error, validate_entries, or_entries, validated, manifest_of, read_manifest,
}

-- A relative path within the repository, that is not excluded, of a regular file that git does not ignore.
abbrev pub Admitted : Env → Text → Type 0
Admitted e entry =
    (starts (codes "/") entry ≡ false)
    × (holds (split b'/' entry) (codes "..") ≡ false)
    × (starts (codes ".hermes/") entry ≡ false)
    × ((e.view entry).exists ≡ true)
    × ((e.view entry).symlink ≡ false)
    × ((e.view entry).regular ≡ true)
    × ((e.view entry).ignored ≡ inr false)

-- No text is one of the later texts.
abbrev pub Distinct : List Text → Type 0
Distinct [] = Unit
Distinct (x ∷ xs) = All (λ y. same_text y x ≡ false) xs × Distinct xs

passed_over :
    (b : Bool) (message : Text) (o : Option Text)
    → (if b then some message else o) ≡ none
    → (b ≡ false) × (o ≡ none)
passed_over true message o h = absurd cc
passed_over false message o h = (refl, h)

ignored_error-none : (entry : Text) (r : Result Bool) → ignored_error entry r ≡ none → r ≡ inr false
ignored_error-none entry (inl error) h = absurd cc
ignored_error-none entry (inr true) h = absurd cc
ignored_error-none entry (inr false) h = refl

entry_error-Admitted :
    (e : Env) (seen : List Text) (entry : Text)
    → entry_error e seen entry ≡ none
    → (holds seen entry ≡ false) × Admitted e entry
unfolding entry_error
entry_error-Admitted e seen entry h =
    let (relative, h₁) = passed_over (starts (codes "/") entry) _ _ h in
    let (inside, h₂) = passed_over (holds (split b'/' entry) (codes "..")) _ _ h₁ in
    let (shown, h₃) = passed_over (starts (codes ".hermes/") entry) _ _ h₂ in
    let (fresh, h₄) = passed_over (holds seen entry) _ _ h₃ in
    let (exists, h₅) = passed_over (not (e.view entry).exists) _ _ h₄ in
    let (plain, h₆) = passed_over (e.view entry).symlink _ _ h₅ in
    let (regular, h₇) = passed_over (not (e.view entry).regular) _ _ h₆ in
    (
      fresh,
      (
        relative,
        inside,
        shown,
        ground (arith, exists),
        plain,
        ground (arith, regular),
        ignored_error-none entry (e.view entry).ignored h₇,
      ),
    )

both_none : (o p : Option Text) → or_error o p ≡ none → (o ≡ none) × (p ≡ none)
both_none none p h = (refl, h)
both_none (some error) p h = absurd cc

module _ {ℓ} {A : Type ℓ} (P Q : A → Type 0) (f : (a : A) → P a → Q a) where
  All-map : (xs : List A) → All P xs → All Q xs
  All-map [] h = tt
  All-map (x ∷ xs) h = (f x h.0, All-map xs h.1)

not_first :
    (x : Text) (seen : List Text) (y : Text)
    → holds (x ∷ seen) y ≡ false
    → (same_text y x ≡ false) × (holds seen y ≡ false)
unfolding holds
not_first x seen y h = ground arith

module _ (e : Env) where
  entries_error-Distinct :
      (seen entries : List Text)
      → entries_error e seen entries ≡ none
      → All (λ y. holds seen y ≡ false) entries × All (Admitted e) entries × Distinct entries
  unfolding entries_error
  entries_error-Distinct seen [] h = (tt, tt, tt)
  entries_error-Distinct seen (x ∷ entries) h =
      let (first, others) =
        both_none (entry_error e seen x) (entries_error e (x ∷ seen) entries) h in
      let (fresh, admitted) = entry_error-Admitted e seen x first in
      let (unseen, all_admitted, distinct) = entries_error-Distinct (x ∷ seen) entries others in
      (
        (
          fresh,
          All-map (λ y. holds (x ∷ seen) y ≡ false) (λ y. holds seen y ≡ false)
              (λ y k. (not_first x seen y k).1) entries unseen,
        ),
        (admitted, all_admitted),
        (
          All-map (λ y. holds (x ∷ seen) y ≡ false) (λ y. same_text y x ≡ false)
              (λ y k. (not_first x seen y k).0) entries unseen,
          distinct,
        ),
      )

later_flip : (x y : Text) → later x y ≡ true → later y x ≡ false
unfolding later
later_flip [] y h = absurd cc
later_flip (c ∷ x) [] h = refl
later_flip (c ∷ x) (d ∷ y) h = ground (arith, later_flip x y)

later_trans : (x y z : Text) → later x y ≡ false → later y z ≡ false → later x z ≡ false
unfolding later
later_trans [] y z h k = refl
later_trans (c ∷ x) [] z h k = absurd cc
later_trans (c ∷ x) (d ∷ y) [] h k = absurd cc
later_trans (c ∷ x) (d ∷ y) (a ∷ z) h k = ground (arith, later_trans x y z)

at_most-IsOrder : IsOrder at_most
at_most-IsOrder = record {
  flip = λ x y h. ap not (later_flip x y (not_false (later x y) h));
  trans = λ x y z h k. ap not (later_trans x y z (not_true (later x y) h) (not_true (later y z) k));
}
  where
    not_false : (b : Bool) → not b ≡ false → b ≡ true
    not_false b h = ground arith

    not_true : (b : Bool) → not b ≡ true → b ≡ false
    not_true b h = ground arith

same_texts-eq : (xs ys : List Text) → same_texts xs ys ≡ true → xs ≡ ys
unfolding same_texts
same_texts-eq [] [] h = refl
same_texts-eq [] (y ∷ ys) h = absurd cc
same_texts-eq (x ∷ xs) [] h = absurd cc
same_texts-eq (x ∷ xs) (y ∷ ys) h =
    let (first, others) = both (same_text x y) (same_texts xs ys) h in
    cc (same_text-eq x y first, same_texts-eq xs ys others)
  where
    both : (a b : Bool) → (a && b) ≡ true → (a ≡ true) × (b ≡ true)
    both a b k = ground arith

-- What holds of the entries of a valid manifest.
abbrev pub Valid : Env → List Text → Type 0
Valid e entries = IsSorted at_most entries × Distinct entries × All (Admitted e) entries

module _ (e : Env) where
  validate_entries-Valid :
      (entries : List Text) → validate_entries e entries ≡ none → Valid e entries
  unfolding validate_entries
  validate_entries-Valid entries h =
      elim (Bool-cases (same_texts entries (sorted at_most entries))) [
        | inl same ↦
            let (_, admitted, distinct) =
              entries_error-Distinct e [] entries (sym (if_true _ _ _ same) ∙ h) in
            (
              subst (IsSorted at_most) (sym (same_texts-eq entries (sorted at_most entries) same))
                  (sorted-IsSorted at_most at_most-IsOrder entries),
              distinct,
              admitted,
            )
        | inr other ↦ absurd (cc (sym (if_false _ _ _ other) ∙ h))
      ]

  or_entries-Valid :
      (given entries : List Text) (o : Option Text)
      → validate_entries e given ≡ o
      → or_entries given o ≡ inr entries
      → Valid e entries
  or_entries-Valid given entries none at h =
      subst (Valid e) (cc h) (validate_entries-Valid given at)
  or_entries-Valid given entries (some error) at h = absurd cc

  validated-Valid : (given entries : List Text) → validated e given ≡ inr entries → Valid e entries
  validated-Valid [] entries h = absurd cc
  validated-Valid (entry ∷ given) entries h =
      or_entries-Valid (entry ∷ given) entries (validate_entries e (entry ∷ given)) refl h

  manifest_of-Valid :
      (r : Result Text) (entries : List Text) → manifest_of e r ≡ inr entries → Valid e entries
  manifest_of-Valid (inl error) entries h = absurd cc
  manifest_of-Valid (inr t) entries h =
      validated-Valid (select (λ entry. not (is_empty entry)) (split_lines t)) entries h

-- The entries of a manifest that is read without an error are sorted and distinct, and each is a relative
-- path within the repository, not excluded, of a regular file that exists, is no symlink and is not
-- ignored.
pub read_manifest-Valid :
    (e : Env) (entries : List Text) → read_manifest e ≡ inr entries → Valid e entries
unfolding read_manifest
read_manifest-Valid e entries h = manifest_of-Valid e e.manifest entries h
