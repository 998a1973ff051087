-- ===== src/Prelude/Sort.antt =====
-- Python's `sorted`: a stable sort, by an order test on the keys.
use Prim.Native.Nat.{Ordering}
use Prim.Native.String.{String, compare}
use mathlib.Core.Path.{◌≡◌, refl}
use mathlib.Core.Bool.{Bool, true, false, ◌||◌}
use mathlib.Core.List.{List, [], ◌∷◌, Perm}
use mathlib.Core.List.Perm
use native.Mathlib.Omega.{arith}
use package.hngh.Prelude.Tests.{if◌then◌else◌, Bool-cases}
use package.hngh.Prelude.Lists.{All, select, any}
use mathlib.Core.Logic.{inl, inr}

-- The order of texts by their code points.
abbrev pub text_le : String → String → Bool
text_le a b = elim (compare a b) [ Ordering.gt ↦ false | _ ↦ true ]

module _ {ℓ} {A : Type ℓ} (le : A → A → Bool) where
  unfoldable pub insert : A → List A → List A
  insert x [] = x ∷ []
  insert x (y ∷ ys) = if le x y then x ∷ y ∷ ys else y ∷ insert x ys

  unfoldable pub sorted : List A → List A
  unfolding insert
  sorted [] = []
  sorted (x ∷ xs) = insert x (sorted xs)

  insert-perm : (x : A) (xs : List A) → Perm (insert x xs) (x ∷ xs)
  unfolding insert
  insert-perm x [] = Perm.refl _
  insert-perm x (y ∷ ys) = elim (Bool-cases (le x y)) [
    | inl h ↦ rw h (Perm.refl _)
    | inr h ↦ rw h (Perm.trans (Perm.cons y (insert-perm x ys)) (Perm.swap x y ys))
  ]

  pub sorted-perm : (xs : List A) → Perm (sorted xs) xs
  unfolding sorted
  sorted-perm [] = Perm.refl _
  sorted-perm (x ∷ xs) = Perm.trans (insert-perm x (sorted xs)) (Perm.cons x (sorted-perm xs))

  -- Each item is at most every later one.
  abbrev pub IsSorted : List A → Type ℓ
  IsSorted [] = Unit
  IsSorted (x ∷ xs) = All (λ y. le x y ≡ true) xs × IsSorted xs

-- An order test by a total order.
pub record IsOrder {ℓ} {A : Type ℓ} (le : A → A → Bool) : Type ℓ where
  pub flip : (x y : A) → le x y ≡ false → le y x ≡ true
  pub trans : (x y z : A) → le x y ≡ true → le y z ≡ true → le x z ≡ true

module _ {ℓ} {A : Type ℓ} (le : A → A → Bool) (o : IsOrder le) where
  All-le_trans :
      (x y : A) (ys : List A)
      → le x y ≡ true
      → All (λ z. le y z ≡ true) ys
      → All (λ z. le x z ≡ true) ys
  All-le_trans x y [] h a = tt
  All-le_trans x y (z ∷ zs) h a = (o.trans x y z h a.0, All-le_trans x y zs h a.1)

  All-insert :
      (w x : A) (ys : List A)
      → le w x ≡ true
      → All (λ z. le w z ≡ true) ys
      → All (λ z. le w z ≡ true) (insert le x ys)
  unfolding insert
  All-insert w x [] h a = (h, tt)
  All-insert w x (y ∷ ys) h a = elim (Bool-cases (le x y)) [
    | inl e ↦ rw e (h, a)
    | inr e ↦ rw e (a.0, All-insert w x ys h a.1)
  ]

  insert-IsSorted : (x : A) (ys : List A) → IsSorted le ys → IsSorted le (insert le x ys)
  unfolding insert
  insert-IsSorted x [] s = (tt, tt)
  insert-IsSorted x (y ∷ ys) s = elim (Bool-cases (le x y)) [
    | inl e ↦ rw e ((e, All-le_trans x y ys e s.0), s)
    | inr e ↦ rw e (All-insert y x ys (o.flip x y e) s.0, insert-IsSorted x ys s.1)
  ]

  pub sorted-IsSorted : (xs : List A) → IsSorted le (sorted le xs)
  unfolding sorted
  sorted-IsSorted [] = tt
  sorted-IsSorted (x ∷ xs) = insert-IsSorted x (sorted le xs) (sorted-IsSorted xs)

-- Stability: where the test `p` picks items that are all at most one another, their order stays.
module _ {ℓ} {A : Type ℓ} (le : A → A → Bool) (p : A → Bool)
    (tied : (x y : A) → p x ≡ true → p y ≡ true → le x y ≡ true) where
  select-insert : (x : A) (ys : List A) → select p (insert le x ys) ≡ select p (x ∷ ys)
  unfolding insert
  select-insert x [] = refl
  select-insert x (y ∷ ys) = ground (arith, select-insert x ys, tied x y)

  pub select-sorted : (xs : List A) → select p (sorted le xs) ≡ select p xs
  unfolding sorted
  select-sorted [] = refl
  select-sorted (x ∷ xs) = ground (arith, select-insert x (sorted le xs), select-sorted xs)

-- Sorting keeps what a test finds.
module _ {ℓ} {A : Type ℓ} (le : A → A → Bool) (p : A → Bool) where
  any-insert : (x : A) (xs : List A) → any p (insert le x xs) ≡ (p x || any p xs)
  unfolding insert
  any-insert x [] = refl
  any-insert x (y ∷ ys) = ground (arith, any-insert x ys)

  pub any-sorted : (xs : List A) → any p (sorted le xs) ≡ any p xs
  unfolding sorted
  any-sorted [] = refl
  any-sorted (x ∷ xs) = ground (arith, any-insert x (sorted le xs), any-sorted xs)
