-- ===== src/Ng/Cadence/Config/Legs.antt =====
-- Which model leg a beat asks.
use hngh.Prelude.{
  ◌≡◌, refl, ◌∙◌, Option, none, some, List, [], ◌∷◌, Bool, true, false, not, ◌&&◌, ◌||◌,
  if◌then◌else◌, arith, IsOrder, IsSorted, sorted, insert, sorted-IsSorted, All, Option-cases, ap,
  inl, inr,
}
use hngh.Ng.Tiering.{Leg, leg_le, leg_order}
use hngh.Ng.Cadence.Config.{first_usable}

-- The first item that passes the test.
abbrev pub find {ℓ} : {A : Type ℓ} → (A → Bool) → List A → Option A
find p [] = none
find p (x ∷ xs) = let rest = find p xs in if p x then some x else rest

abbrev pub or_find {ℓ} : {A : Type ℓ} → Option A → Option A → Option A
or_find none y = y
or_find (some x) y = some x

abbrev pub is_prepaid : Leg → Bool
is_prepaid l = not l.blocked && l.prepaid

abbrev pub is_usable : Leg → Bool
is_usable l = not l.blocked

leg_le-IsOrder : IsOrder leg_le
unfolding leg_le
leg_le-IsOrder = record { flip = λ x y h. ground arith; trans = λ x y z h k. ground arith }

-- The leg to ask of a list that holds one more.
better : Leg → Option Leg → Option Leg
better l none = if is_usable l then some l else none
better l (some m) = if is_prepaid l || (is_usable l && not m.prepaid) then some l else some m

first_usable-blocked :
    (l : Leg) (s : List Leg)
    → l.blocked ≡ true
    → All (λ m. leg_le l m ≡ true) s
    → first_usable s ≡ none
unfolding first_usable leg_le
first_usable-blocked l [] h a = refl
first_usable-blocked l (m ∷ s) h a = ground (arith, first_usable-blocked l s h a.1, a.0)

first_usable-insert :
    (l : Leg) (s : List Leg)
    → IsSorted leg_le s
    → first_usable (insert leg_le l s) ≡ better l (first_usable s)
unfolding first_usable insert leg_le better
first_usable-insert l [] h = refl
first_usable-insert l (m ∷ s) h =
    ground (arith, first_usable-insert l s h.1, first_usable-blocked m s)

find-holds : (p : Leg → Bool) (ls : List Leg) (m : Leg) → find p ls ≡ some m → p m ≡ true
find-holds p [] m h = cc
find-holds p (l ∷ ls) m h = ground (arith, find-holds p ls m)

find-none :
    (p q : Leg → Bool) (ls : List Leg) (m : Leg)
    → find p ls ≡ none
    → find q ls ≡ some m
    → p m ≡ false
find-none p q [] m h k = cc
find-none p q (l ∷ ls) m h k = ground (arith, find-none p q ls m)

better-find :
    (l : Leg) (ls : List Leg)
    → better l (or_find (find is_prepaid ls) (find is_usable ls))
      ≡ or_find (find is_prepaid (l ∷ ls)) (find is_usable (l ∷ ls))
unfolding better
better-find l ls = elim (Option-cases (find is_prepaid ls)) [
  | inl absent ↦ elim (Option-cases (find is_usable ls)) [
    | inl idle ↦ rw (absent, idle) (ground arith)
    | inr (m, usable) ↦
        rw (absent, usable)
          (ground (
            arith,
            find-holds is_usable ls m usable,
            find-none is_prepaid is_usable ls m absent usable,
          ))
  ]
  | inr (m, found) ↦ rw found (ground (arith, find-holds is_prepaid ls m found))
]

-- The leg that a beat asks is the first pre-paid leg with a url, in the order of the configuration;
-- without one, the first leg with a url; and there is none exactly when every leg is blocked.
pub first_usable-leg_order :
    (ls : List Leg) → first_usable (leg_order ls) ≡ or_find (find is_prepaid ls) (find is_usable ls)
unfolding leg_order first_usable
first_usable-leg_order [] = refl
first_usable-leg_order (l ∷ ls) =
    first_usable-insert l (sorted leg_le ls) (sorted-IsSorted leg_le leg_le-IsOrder ls)
    ∙ ap (better l) (first_usable-leg_order ls)
    ∙ better-find l ls
