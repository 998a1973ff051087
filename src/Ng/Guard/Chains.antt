-- ===== src/Ng/Guard/Chains.antt =====
-- automation/ng/jcode_guard.py: the depth that the memo gives is the length of the longest chain of nodes
-- that block one another, and a cycle is found.
use Prim.Native.Nat.{ℕ, zero, suc, ◌≤◌, ◌<◌, max}
use hngh.Prelude.{
  ◌≡◌, refl, sym, subst, ap, ◌∙◌, ◌↔◌, inl, inr, Option, some, Option-cases, List, [], ◌∷◌, Bool,
  true, false, not, Bool-cases, if◌then◌else◌, All, length, select, length-select-le, leb, leb→le,
  or_right, arith,
}
use hngh.Ng.Guard.{
  Graph, lookup, insert, is_in, ids, or_none, parents, remember, Memo, deepest, dep, cycle_depth,
  graph_depth,
}
use hngh.Ng.Guard.Among.{Among, Among-map, All-weaken, or_left, select-All, All-both}

module _ {K : Type 0} (same : K → K → Bool) where
  -- n nodes, from this one on, each blocked by the next.
  abbrev pub Chain : Graph K → K → ℕ → Type 0
  Chain g k zero = Unit
  Chain g k (suc zero) = Unit
  Chain g k (suc (suc n)) = Among (λ p. Chain g p (suc n)) (parents same g k)

module _ {K : Type 0} (same : K → K → Bool) (same_iff : (a b : K) → (same a b ≡ true) ↔ (a ≡ b))
    (g : Graph K) where
  abbrev Long : K → ℕ → Type 0
  Long k n = Chain same g k n

  Long-prefix : (n : ℕ) (k : K) → Long k (suc n) → Long k n
  Long-prefix zero k h = tt
  Long-prefix (suc zero) k h = tt
  Long-prefix (suc (suc n)) k h =
      Among-map (λ p. Long p (suc (suc n))) (λ p. Long p (suc n)) (parents same g k)
        (λ p. Long-prefix (suc n) p) h

  Long-step : (n : ℕ) (m k : K) → Among (λ p. p ≡ k) (parents same g m) → Long k n → Long m (suc n)
  Long-step zero m k e h = tt
  Long-step (suc n) m k e h =
      Among-map (λ p. p ≡ k) (λ p. Long p (suc n)) (parents same g m)
        (λ p q. subst (λ x. Long x (suc n)) (sym q) h) e

  -- Each of the nodes seen is blocked by the one before it, the first by this one.
  abbrev Linked : K → List K → Type 0
  Linked k [] = Unit
  Linked k (m ∷ seen) = Among (λ p. p ≡ k) (parents same g m) × Linked m seen

  climb :
      (n : ℕ) (k k0 : K) (seen : List K)
      → Linked k seen
      → is_in same seen k0 ≡ true
      → Long k n
      → Long k0 (suc n)
  climb n k k0 [] l i h = absurd cc
  climb n k k0 (m ∷ seen) l i h = elim (Bool-cases (same m k0)) [
    | inl e ↦ subst (λ x. Long x (suc n)) ((same_iff m k0).0 e) (Long-step n m k l.0 h)
    | inr e ↦ climb n m k0 seen l.1 (rw e at i) (Long-prefix n m (Long-step n m k l.0 h))
  ]

  -- A node that is seen stands on a cycle: a chain from it has any length.
  cycle : (n : ℕ) (k : K) (seen : List K) → Linked k seen → is_in same seen k ≡ true → Long k n
  cycle zero k seen l i = tt
  cycle (suc n) k seen l i = climb n k k seen l i (cycle n k seen l i)

  -- Up to the depth of a cycle, a depth is the length of the longest chain.
  abbrev Exact : ℕ → K → Type 0
  Exact d k = (n : ℕ) → n ≤ cycle_depth → (n ≤ d → Long k n) × (Long k n → n ≤ d)

  abbrev Over : ℕ → List K → Type 0
  Over m ps =
      (n : ℕ)
      → suc n ≤ cycle_depth
      → (suc n ≤ m → Among (λ p. Long p (suc n)) ps) × (Among (λ p. Long p (suc n)) ps → suc n ≤ m)

  Over-max : (d m : ℕ) (p : K) (ps : List K) → Exact d p → Over m ps → Over (max d m) (p ∷ ps)
  Over-max d m p ps e o n h = (
    λ le. elim (Bool-cases (leb (suc n) d)) [
      | inl first ↦ inl ((e (suc n) h).0 (leb→le (suc n) d first))
      | inr later ↦ inr ((o n h).0 (ground arith))
    ],
    λ c. elim c [
      | inl first ↦ omega (arith, (e (suc n) h).1 first)
      | inr later ↦ omega (arith, (o n h).1 later)
    ],
  )

  Exact-suc : (m : ℕ) (k : K) → Over m (parents same g k) → Exact (suc m) k
  Exact-suc m k o zero h = (λ _. tt, λ _. omega arith)
  Exact-suc m k o (suc zero) h = (λ _. tt, λ _. omega arith)
  Exact-suc m k o (suc (suc n)) h =
      (λ le. (o n (omega arith)).0 (omega arith), λ c. omega (arith, (o n (omega arith)).1 c))

  abbrev IsExact : Memo same → Type 0
  IsExact memo = (k : K) (d : ℕ) → lookup same k memo ≡ some d → Exact d k

  lookup-insert :
      (k j : K) (d : ℕ) (memo : Memo same)
      → lookup same j (insert same k d memo) ≡ (if same k j then some d else lookup same j memo)
  unfolding lookup insert
  lookup-insert k j d [] = refl
  lookup-insert k j d ((i, b) ∷ memo) =
      ground (arith, same_iff i k, same_iff i j, same_iff k j, lookup-insert k j d memo)

  IsExact-insert :
      (k : K) (d : ℕ) (memo : Memo same) → Exact d k → IsExact memo → IsExact (insert same k d memo)
  IsExact-insert k d memo e ok j b found = elim (Bool-cases (same k j)) [
    | inl here ↦
        let value : some d ≡ some b = sym (rw here at (lookup-insert k j d memo)) ∙ found in
        let same_depth : d ≡ b = cc in
        subst (λ x. Exact x j) same_depth (subst (λ x. Exact d x) ((same_iff k j).0 here) e)
    | inr other ↦ ok j b (sym (rw other at (lookup-insert k j d memo)) ∙ found)
  ]

  -- A computation that ends, with a depth that has the property and a memo that is exact.
  abbrev Ends : (ℕ → Type 0) → Option (ℕ × Memo same) → Type 0
  Ends P o = (r : ℕ × Memo same) × (o ≡ some r) × P r.0 × IsExact r.1

  deepest-cons :
      (f : K → Memo same → Option (ℕ × Memo same)) (p : K) (ps : List K) (memo : Memo same)
      (r q : ℕ × Memo same)
      → f p memo ≡ some r
      → deepest same f ps r.1 ≡ some q
      → deepest same f (p ∷ ps) memo ≡ some (max r.0 q.0, q.1)
  unfolding deepest
  deepest-cons f p ps memo r q e e' = rw (e, deepest) (rw (e', deepest) refl)

  deepest-Over :
      (f : K → Memo same → Option (ℕ × Memo same)) (ps : List K) (memo : Memo same)
      → All (λ p. (m : Memo same) → IsExact m → Ends (λ d. Exact d p) (f p m)) ps
      → IsExact memo
      → Ends (λ m. Over m ps) (deepest same f ps memo)
  unfolding deepest
  deepest-Over f [] memo all_of ok =
      ((0, memo), refl, λ n h. (λ le. absurd (omega arith), λ c. absurd c), ok)
  deepest-Over f (p ∷ ps) memo all_of ok =
      let (r, e, exact, ok') = all_of.0 memo ok in
      let (q, e', over, ok'') = deepest-Over f ps r.1 all_of.1 ok' in
      (
        (max r.0 q.0, q.1),
        deepest-cons f p ps memo r q e e',
        Over-max r.0 q.0 p ps exact over,
        ok'',
      )

  abbrev unseen : List K → List K
  unseen seen = select (λ k. not (is_in same seen k)) (ids same g)

  unseen_le :
      (k : K) (seen ks : List K)
      → length (select (λ j. not (is_in same (k ∷ seen) j)) ks)
        ≤ length (select (λ j. not (is_in same seen j)) ks)
  unseen_le k seen [] = omega arith
  unseen_le k seen (j ∷ ks) = ground (arith, unseen_le k seen ks)

  unseen_fewer :
      (k : K) (seen ks : List K)
      → is_in same ks k ≡ true
      → is_in same seen k ≡ false
      → length (select (λ j. not (is_in same (k ∷ seen) j)) ks)
        < length (select (λ j. not (is_in same seen j)) ks)
  unseen_fewer k seen [] i new = absurd cc
  unseen_fewer k seen (j ∷ ks) i new = elim (Bool-cases (same j k)) [
    | inl e ↦
        let here : j ≡ k = (same_iff j k).0 e in
        let known : is_in same seen j ≡ false =
          subst (λ x. is_in same seen x ≡ false) (sym here) new in
        ground (arith, unseen_le k seen ks, (same_iff k j).1 (sym here))
    | inr e ↦ ground (arith, unseen_fewer k seen ks (rw e at i) new)
  ]

  parents-All :
      (k : K)
      → All
          (λ p. Among (λ q. q ≡ p) (parents same g k) × (is_in same (ids same g) p ≡ true))
          (parents same g k)
  unfolding parents
  parents-All k =
      All-both (λ p. is_in same (ids same g) p ≡ true) (parents same g k)
        (select-All (is_in same (ids same g)) (or_none same (lookup same k g)))

  remember-Ends :
      (k : K) (o : Option (ℕ × Memo same))
      → Ends (λ m. Over m (parents same g k)) o
      → Ends (λ d. Exact d k) (remember same k o)
  remember-Ends k o (r, e, over, ok) = (
    (suc r.0, insert same k (suc r.0) r.1),
    rw e refl,
    Exact-suc r.0 k over,
    IsExact-insert k (suc r.0) r.1 (Exact-suc r.0 k over) ok,
  )

  all_in : (ks : List K) → All (λ k. is_in same ks k ≡ true) ks
  all_in [] = tt
  all_in (k ∷ ks) = (
    or_left (is_in same ks k) ((same_iff k k).1 refl),
    All-weaken (λ j. is_in same ks j ≡ true) (λ j. is_in same (k ∷ ks) j ≡ true) ks
        (λ j h. or_right (same k j) h) (all_in ks),
  )

  no_entry : (k : K) (d : ℕ) → lookup same k [] ≡ some d → ⊥
  unfolding lookup
  no_entry k d h = cc

  -- With more fuel than there are nodes not yet seen, the depth is found, and it is exact.
  dep-Exact :
      (fuel : ℕ) (seen : List K) (k : K) (memo : Memo same)
      → length (unseen seen) < fuel
      → Linked k seen
      → is_in same (ids same g) k ≡ true
      → IsExact memo
      → Ends (λ d. Exact d k) (dep same fuel g seen k memo)
  unfolding dep
  dep-Exact zero seen k memo h l i ok = absurd (omega arith)
  dep-Exact (suc fuel) seen k memo h l i ok = elim (Bool-cases (is_in same seen k)) [
    | inl found ↦
        rw found ((cycle_depth, memo), refl, λ n le. (λ _. cycle n k seen l found, λ _. le), ok)
    | inr new ↦ rw new (elim (Option-cases (lookup same k memo)) [
      | inr (d, old) ↦ rw old ((d, memo), refl, ok k d old, ok)
      | inl unknown ↦ rw unknown (
          remember-Ends k
            (deepest same (λ p m. dep same fuel g (k ∷ seen) p m) (parents same g k) memo)
            (deepest-Over (λ p m. dep same fuel g (k ∷ seen) p m) (parents same g k) memo
              (All-weaken
                (λ p. Among (λ q. q ≡ p) (parents same g k) × (is_in same (ids same g) p ≡ true))
                (λ p.
                  (m : Memo same)
                  → IsExact m
                  → Ends (λ d. Exact d p) (dep same fuel g (k ∷ seen) p m))
                (parents same g k)
                (λ p both m okm.
                  dep-Exact fuel (k ∷ seen) p m
                    (omega (arith, unseen_fewer k seen (ids same g) i new)) (both.0, l) both.1 okm)
                (parents-All k))
              ok))
    ])
  ]

  length-ids : (h : Graph K) → length (ids same h) ≡ length h
  length-ids [] = refl
  length-ids ((k, ps) ∷ h) = ap suc (length-ids h)

  graph_depth-found :
      (r : ℕ × Memo same)
      → deepest same (λ k m. dep same (suc (length g)) g [] k m) (ids same g) [] ≡ some r
      → graph_depth same g ≡ some (max 1 r.0)
  unfolding graph_depth
  graph_depth-found r e = rw (e, graph_depth) refl

  -- The depth of the graph is found, and over the cap exactly when some chain is.
  pub graph_depth-exact :
      (cap : ℕ)
      → 1 ≤ cap
      → cap < cycle_depth
      → (d : ℕ) × (graph_depth same g ≡ some d)
        × (cap < d → Among (λ k. Chain same g k (suc cap)) (ids same g))
        × (Among (λ k. Chain same g k (suc cap)) (ids same g) → cap < d)
  graph_depth-exact cap pos_cap small =
      let (r, e, over, ok) =
        deepest-Over (λ k m. dep same (suc (length g)) g [] k m) (ids same g) []
          (All-weaken (λ k. is_in same (ids same g) k ≡ true)
            (λ k.
              (m : Memo same)
              → IsExact m
              → Ends (λ d. Exact d k) (dep same (suc (length g)) g [] k m))
            (ids same g)
            (λ k i m okm.
              dep-Exact (suc (length g)) [] k m
                (omega
                  (arith, length-ids g, length-select-le (λ j. not (is_in same [] j)) (ids same g)))
                tt i okm)
            (all_in (ids same g)))
          (λ k d found. absurd (no_entry k d found)) in
      (
        max 1 r.0,
        graph_depth-found r e,
        λ lt. (over cap small).0 (omega arith),
        λ c. omega (arith, (over cap small).1 c),
      )
