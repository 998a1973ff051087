-- ===== src/Candidate/Passes.antt =====
-- scripts/verify-candidate.py: what a passing run has shown, and what the test marker depends on.
use hngh.Prelude.{
  ◌≡◌, refl, sym, ap, ◌∙◌, ◌⊎◌, inl, inr, Option, none, some, List, [], ◌∷◌, ◌++◌, append_assoc,
  map, select, any, any-append, true, not, ◌||◌, if_false, Bool-cases, drop, arith,
}
use hngh.Texts.{Text, same_text, same_text_refl, holds}
use hngh.Candidate.{Result, Env, read_manifest, other_rows, fast_test_marker, fast_test_passes}
use hngh.Candidate.Content.{
  dependency_error, public_content_error, whitespace_scan_error, relative_link_error,
}
use hngh.Candidate.Evidence.{
  Markers, Outcome, marker_at, refused, checked, candidate_hash, parenthesis_guard_error, tested,
  fast_test, with_hash, with_tree, with_base, with_entries, with_manifest, main,
}

-- The test passed, or the marker of an earlier test with this hash says that it passed.
abbrev Tested : Env → Text → Text → Markers → Type 0
Tested e hash porcelain markers =
    (e.make_test ≡ none)
    ⊎ (fast_test_passes e (marker_at (fast_test_marker e hash porcelain) markers) hash ≡ true)

-- What a passing run has shown of its entries.
abbrev pub Shown : Env → List Text → Markers → Type 0
Shown e entries markers =
    (parenthesis_guard_error e entries ≡ none)
    × (dependency_error e entries ≡ none)
    × (public_content_error e entries ≡ none)
    × (whitespace_scan_error e entries ≡ none)
    × (relative_link_error e entries ≡ none)
    × ((hash : Text) × (porcelain : Text) × (candidate_hash e entries ≡ inr hash)
        × Tested e hash porcelain markers)

checked-none :
    (o : Option Text) (label : Text) (markers : Markers) (next : Outcome)
    → (checked o label markers next).code ≡ 0
    → (o ≡ none) × (next.code ≡ 0)
unfolding checked refused
checked-none none label markers next h = (refl, h)
checked-none (some error) label markers next h = absurd (omega (arith, h))

module _ (e : Env) (lasted : Text) (markers : Markers) where
  tested-none :
      (o : Option Text) (marker base hash : Text) (lines : List Text)
      → (tested o marker base hash lasted lines markers).code ≡ 0
      → o ≡ none
  unfolding tested refused
  tested-none none marker base hash lines h = refl
  tested-none (some error) marker base hash lines h = absurd (omega (arith, h))

  fast_test-Tested :
      (entries : List Text) (base porcelain hash : Text)
      → (fast_test e entries base porcelain lasted hash markers).code ≡ 0
      → Tested e hash porcelain markers
  unfolding fast_test
  fast_test-Tested entries base porcelain hash h =
      elim (Bool-cases
        (fast_test_passes e (marker_at (fast_test_marker e hash porcelain) markers) hash)) [
          | inl cached ↦ inr cached
          | inr fresh ↦ inl (
              tested-none e.make_test _ _ hash _
                (ap (λ (r : Outcome). r.code) (sym (if_false _ _ _ fresh)) ∙ h))
        ]

  abbrev Hashed : List Text → Type 0
  Hashed entries =
      (hash : Text) × (porcelain : Text) × (candidate_hash e entries ≡ inr hash)
      × Tested e hash porcelain markers

  with_hash-Hashed :
      (entries : List Text) (base porcelain : Text) (r : Result Text)
      → candidate_hash e entries ≡ r
      → (with_hash e entries base porcelain lasted r markers).code ≡ 0
      → Hashed entries
  unfolding with_hash refused
  with_hash-Hashed entries base porcelain (inl error) at h = absurd (omega (arith, h))
  with_hash-Hashed entries base porcelain (inr hash) at h =
      (hash, porcelain, at, fast_test-Tested entries base porcelain hash h)

  with_tree-Shown :
      (entries : List Text) (base porcelain : Text)
      → (with_tree e entries base porcelain lasted markers).code ≡ 0
      → Shown e entries markers
  unfolding with_tree
  with_tree-Shown entries base porcelain h =
      let (parens, h₁) = checked-none (parenthesis_guard_error e entries) _ markers _ h in
      let (packages, h₂) = checked-none (dependency_error e entries) _ markers _ h₁ in
      let (contents, h₃) = checked-none (public_content_error e entries) _ markers _ h₂ in
      let (spaces, h₄) = checked-none (whitespace_scan_error e entries) _ markers _ h₃ in
      let (targets, h₅) = checked-none (relative_link_error e entries) _ markers _ h₄ in
      (
        parens,
        packages,
        contents,
        spaces,
        targets,
        with_hash-Hashed entries base porcelain (candidate_hash e entries) refl h₅,
      )

  with_base-Shown :
      (entries : List Text) (base : Text) (r : Result Text)
      → (with_base e entries lasted base r markers).code ≡ 0
      → Shown e entries markers
  unfolding with_base refused
  with_base-Shown entries base (inl error) h = absurd (omega (arith, h))
  with_base-Shown entries base (inr porcelain) h = with_tree-Shown entries base porcelain h

  with_entries-Shown :
      (entries : List Text) (r : Result Text)
      → (with_entries e lasted entries r markers).code ≡ 0
      → Shown e entries markers
  unfolding with_entries refused
  with_entries-Shown entries (inl error) h = absurd (omega (arith, h))
  with_entries-Shown entries (inr base) h = with_base-Shown entries base e.porcelain h

  with_manifest-Shown :
      (r : Result (List Text))
      → read_manifest e ≡ r
      → (with_manifest e lasted r markers).code ≡ 0
      → (entries : List Text) × (read_manifest e ≡ inr entries) × Shown e entries markers
  unfolding with_manifest refused
  with_manifest-Shown (inl error) at h = absurd (omega (arith, h))
  with_manifest-Shown (inr entries) at h = (entries, at, with_entries-Shown entries e.head h)

-- A run with exit code 0 has read a valid manifest, found nothing in any of the five checks of its
-- entries, and hashed them; and `make test` passed, or the marker says so of an earlier test of the hash.
pub main-Shown :
    (e : Env) (lasted : Text) (markers : Markers)
    → (main e lasted markers).code ≡ 0
    → (entries : List Text) × (read_manifest e ≡ inr entries) × Shown e entries markers
unfolding main
main-Shown e lasted markers h = with_manifest-Shown e lasted markers (read_manifest e) refl h

others-none :
    (seen rows : List Text)
    → select (λ line. not (holds (seen ++ map (drop 3) rows) (drop 3 line))) rows ≡ []
unfolding holds
others-none seen [] = refl
others-none seen (row ∷ rows) =
    if_false _ _ _
      (ap not (any-append (same_text (drop 3 row)) seen (drop 3 row ∷ map (drop 3) rows) ∙ held))
    ∙ ap (λ paths. select (λ line. not (holds paths (drop 3 line))) rows)
        (sym (append_assoc seen (drop 3 row ∷ []) (map (drop 3) rows)))
    ∙ others-none (seen ++ drop 3 row ∷ []) rows
  where
    held :
        (any (same_text (drop 3 row)) seen
          || any (same_text (drop 3 row)) (drop 3 row ∷ map (drop 3) rows))
        ≡ true
    held = ground (arith, same_text_refl (drop 3 row))

other_rows-none : (porcelain : Text) → other_rows porcelain ≡ []
unfolding other_rows
other_rows-none porcelain = others-none [] _

-- The marker of a test is a function of the candidate's hash alone: two working trees that differ in any
-- other file have the same marker.
pub fast_test_marker-same :
    (e : Env) (hash porcelain porcelain' : Text)
    → fast_test_marker e hash porcelain ≡ fast_test_marker e hash porcelain'
unfolding fast_test_marker
fast_test_marker-same e hash porcelain porcelain' =
    rw (other_rows-none porcelain, other_rows-none porcelain') refl
