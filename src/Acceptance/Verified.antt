-- ===== src/Acceptance/Verified.antt =====
-- automation/scripts/accept-plans.py: first_unverified_step against a description of the steps; a plan
-- that meets the contract is accepted.
use Prim.Native.Nat.{ℕ, suc}
use hngh.Prelude.{
  ◌≡◌, refl, sym, ap, ◌∙◌, ◌↔◌, ◌⊎◌, inl, inr, List, [], ◌∷◌, ◌++◌, Bool, true, false, not, ◌&&◌,
  ◌||◌, if◌then◌else◌, if_true, if_false, Bool-cases, all, arith,
}
use hngh.Texts.{Text, codes, starts}
use hngh.Acceptance.{is_step, is_verification, is_verified, first_unverified}

-- A verification line stands behind a step, and no other step before it.
abbrev pub Verification : List Text → Type 0
Verification lines =
    (inner : List Text) × (line : Text) × (rest : List Text) × (lines ≡ inner ++ line ∷ rest)
    × (all (λ l. not (is_step l)) inner ≡ true)
    × (is_step line ≡ false)
    × (is_verification line ≡ true)

-- Every open step has a verification.
pub data Runnable : List Text → Type 0 where
  done : Runnable []
  open_step :
      {line : Text} {lines : List Text}
      → starts (codes "- [ ]") line ≡ true
      → Verification lines
      → Runnable lines
      → Runnable (line ∷ lines)
  other_line :
      {line : Text} {lines : List Text}
      → starts (codes "- [ ]") line ≡ false
      → Runnable lines
      → Runnable (line ∷ lines)

is_verified-Verification : (lines : List Text) → is_verified lines ≡ true → Verification lines
unfolding is_verified
is_verified-Verification [] h = absurd cc
is_verified-Verification (line ∷ lines) h = elim (Bool-cases (is_step line)) [
  | inl step ↦ absurd (cc (sym (if_true _ _ _ step) ∙ h))
  | inr plain ↦ elim (Bool-cases (is_verification line)) [
    | inl here ↦ ([], line, lines, refl, refl, plain, here)
    | inr absent ↦
        let later : is_verified lines ≡ true =
          ap (λ b. b || is_verified lines) (sym absent) ∙ sym (if_false _ _ _ plain) ∙ h in
        let (inner, found, rest, split, clear, at, verifies) =
          is_verified-Verification lines later in
        (
          line ∷ inner,
          found,
          rest,
          ap (λ ls. line ∷ ls) split,
          rw (plain, clear) refl,
          at,
          verifies,
        )
  ]
]

Verification-is_verified :
    (inner : List Text) (line : Text) (rest : List Text)
    → all (λ l. not (is_step l)) inner ≡ true
    → is_step line ≡ false
    → is_verification line ≡ true
    → is_verified (inner ++ line ∷ rest) ≡ true
unfolding is_verified
Verification-is_verified [] line rest clear plain h =
    if_false _ _ _ plain ∙ ap (λ b. b || is_verified rest) h
Verification-is_verified (x ∷ inner) line rest clear plain h =
    let (first, others) : (is_step x ≡ false) × (all (λ l. not (is_step l)) inner ≡ true) =
      both (is_step x) (all (λ l. not (is_step l)) inner) clear in
    if_false _ _ _ first
    ∙ ap (λ b. is_verification x || b) (Verification-is_verified inner line rest others plain h)
    ∙ or_true (is_verification x)
  where
    both : (a b : Bool) → (not a && b) ≡ true → (a ≡ false) × (b ≡ true)
    both a b k = ground arith

    or_true : (a : Bool) → (a || true) ≡ true
    or_true a = ground arith

module _ (n : ℕ) (line : Text) (lines : List Text) where
  first_unverified-open :
      starts (codes "- [ ]") line ≡ true
      → first_unverified n (line ∷ lines)
        ≡ (if is_verified lines then first_unverified (suc n) lines else n)
  unfolding first_unverified
  first_unverified-open h = if_true _ _ _ h

  first_unverified-other :
      starts (codes "- [ ]") line ≡ false
      → (first_unverified n (line ∷ lines) ≡ first_unverified (suc n) lines)
        ⊎ (first_unverified n (line ∷ lines) ≡ first_unverified n lines)
  unfolding first_unverified
  first_unverified-other h = elim (Bool-cases (starts (codes "- [x]") line)) [
    | inl closed ↦ inl (if_false _ _ _ h ∙ if_true _ _ _ closed)
    | inr plain ↦ inr (if_false _ _ _ h ∙ if_false _ _ _ plain)
  ]

first_unverified-Runnable :
    (n : ℕ) (lines : List Text) → first_unverified (suc n) lines ≡ 0 → Runnable lines
first_unverified-Runnable n [] h = done
first_unverified-Runnable n (line ∷ lines) h = elim (Bool-cases (starts (codes "- [ ]") line)) [
  | inl open_here ↦
      let seen = sym (first_unverified-open (suc n) line lines open_here) ∙ h in
      elim (Bool-cases (is_verified lines)) [
        | inl verified ↦
            open_step open_here (is_verified-Verification lines verified)
              (first_unverified-Runnable (suc n) lines (sym (if_true _ _ _ verified) ∙ seen))
        | inr missing ↦ absurd (positive (sym (if_false _ _ _ missing) ∙ seen))
      ]
  | inr other ↦ elim (first_unverified-other (suc n) line lines other) [
    | inl next ↦ other_line other (first_unverified-Runnable (suc n) lines (sym next ∙ h))
    | inr same ↦ other_line other (first_unverified-Runnable n lines (sym same ∙ h))
  ]
]
  where
    positive : suc n ≡ 0 → ⊥
    positive k = omega (arith, k)

Runnable-first_unverified :
    (n : ℕ) {lines : List Text} → Runnable lines → first_unverified n lines ≡ 0
unfolding first_unverified
Runnable-first_unverified n done = refl
Runnable-first_unverified n
      (open_step {line} {lines} open_here (inner, at, rest, split, clear, plain, verifies) more) =
    first_unverified-open n line lines open_here
    ∙ if_true _ _ _
        (ap is_verified split ∙ Verification-is_verified inner at rest clear plain verifies)
    ∙ Runnable-first_unverified (suc n) more
Runnable-first_unverified n (other_line {line} {lines} other more) =
    elim (first_unverified-other n line lines other) [
      | inl next ↦ next ∙ Runnable-first_unverified (suc n) more
      | inr same ↦ same ∙ Runnable-first_unverified n more
    ]

-- The check of the steps finds no step exactly when every open step has a verification line behind it
-- and before the next step.
pub first_unverified_iff-Runnable :
    (lines : List Text) → (first_unverified 1 lines ≡ 0) ↔ Runnable lines
first_unverified_iff-Runnable lines =
    (first_unverified-Runnable 0 lines, Runnable-first_unverified 1)
