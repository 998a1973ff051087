-- ===== src/Ng/Tiering/Order.antt =====
-- The order of beads, and who is in which tier.
use hngh.Prelude.{
  ℕ, ◌<◌, ◌≡◌, refl, String, List, [], ◌∷◌, some, ℤ, leb_ℤ, ◌==◌, Bool, true, ◌&&◌, arith, ◌⊎◌, inl,
  inr, Perm, All, IsOrder, IsSorted, sorted-perm, sorted-IsSorted, select-sorted, select, Python,
}
use hngh.Ng.Contract.{t3}
use hngh.Ng.Tiering.{
  Bead, Explicit, absent, tier_value, text, rank, num, tier_of, tier_by_text, tier_in, tier_for,
  bead_le, order,
}

module _ (py : Python) where
  abbrev pub age : Bead → ℤ
  age b = num b.age_days

  -- `a` may stand before `b`: a lower tier, or the same tier and at least the age.
  abbrev pub Precedes : Bead → Bead → Type 0
  Precedes a b =
      (rank (tier_for py a) < rank (tier_for py b))
      ⊎ ((rank (tier_for py a) ≡ rank (tier_for py b)) × (leb_ℤ (age b) (age a) ≡ true))

  abbrev pub Ordered : List Bead → Type 0
  Ordered [] = Unit
  Ordered (b ∷ bs) = All (Precedes b) bs × Ordered bs

  -- The beads of one rank and one age.
  abbrev pub at : ℕ → ℤ → Bead → Bool
  at n z b = rank (tier_for py b) == n && (leb_ℤ (age b) z && leb_ℤ z (age b))

  bead_le-IsOrder : IsOrder (bead_le py)
  unfolding bead_le
  bead_le-IsOrder = record { flip = λ x y h. ground arith; trans = λ x y z h k. ground arith }

  bead_le-Precedes : (a b : Bead) → bead_le py a b ≡ true → Precedes a b
  unfolding bead_le
  bead_le-Precedes a b h = ground arith

  All-Precedes :
      (a : Bead) (bs : List Bead) → All (λ b. bead_le py a b ≡ true) bs → All (Precedes a) bs
  All-Precedes a [] h = tt
  All-Precedes a (b ∷ bs) h = (bead_le-Precedes a b h.0, All-Precedes a bs h.1)

  IsSorted-Ordered : (bs : List Bead) → IsSorted (bead_le py) bs → Ordered bs
  IsSorted-Ordered [] h = tt
  IsSorted-Ordered (b ∷ bs) h = (All-Precedes b bs h.0, IsSorted-Ordered bs h.1)

  tied : (n : ℕ) (z : ℤ) (a b : Bead) → at n z a ≡ true → at n z b ≡ true → bead_le py a b ≡ true
  unfolding bead_le
  tied n z a b h k = ground arith

  -- `order` returns the same beads, T1 before T2 before T3 and the older first within a tier; beads of
  -- one tier and one age keep the order that they had.
  pub order-Ordered :
      (beads : List Bead) (n : ℕ) (z : ℤ)
      → Perm (order py beads) beads
        × Ordered (order py beads)
        × (select (at n z) (order py beads) ≡ select (at n z) beads)
  unfolding order
  order-Ordered beads n z = (
    sorted-perm (bead_le py) beads,
    IsSorted-Ordered _ (sorted-IsSorted (bead_le py) bead_le-IsOrder beads),
    select-sorted (bead_le py) (at n z) (tied n z) beads,
  )

  tier_by_text-ne-t3 : (b : Bead) → tier_by_text py b ≡ t3 → ⊥
  unfolding tier_by_text
  tier_by_text-ne-t3 b h = ground arith

  tier_in-t3 :
      (e : Explicit) (b : Bead)
      → tier_in py e b ≡ t3
      → (e ≡ tier_value t3)
        ⊎ ((s : String) × (e ≡ text s) × (tier_of (py.upper (py.strip s)) ≡ some t3))
  unfolding tier_in
  tier_in-t3 absent b h = absurd (tier_by_text-ne-t3 b h)
  tier_in-t3 (tier_value t) b h = inl cc
  tier_in-t3 (text s) b h = inr (s, refl, unfold tier_of in ground (arith, tier_by_text-ne-t3 b))

  -- A bead is in T3 only by its own "tier" value: keywords and staleness never put it there.
  pub tier_for-t3 :
      (b : Bead)
      → tier_for py b ≡ t3
      → (b.tier ≡ tier_value t3)
        ⊎ ((s : String) × (b.tier ≡ text s) × (tier_of (py.upper (py.strip s)) ≡ some t3))
  unfolding tier_for
  tier_for-t3 b h = tier_in-t3 b.tier b h
