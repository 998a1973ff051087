-- ===== src/Ng/Cadence/Beat/Asked.antt =====
-- Which entries a beat asks about.
use hngh.Prelude.{
  ℕ, ◌+◌, ◌*◌, ◌≤◌, ◌<◌, ◌≡◌, refl, List, [], ◌∷◌, false, All, take, length, length-take, if_ind,
  arith, ◌⊎◌, inl, inr, eq_iff,
}
use hngh.Ng.Cadence.Config.{Config, token_cap}
use hngh.Ng.Cadence.State.{Entry, project, tier_text}
use hngh.Ng.Cadence.Handle.{Run}
use hngh.Ng.Cadence.Beat.{Outside, Queue, Askable, Collected, mark, over_budget, degraded, collect}

module _ (c : Config) (o : Outside) (run : Run) where
  -- The entry's own projection fits the budget that is left, and past four fifths of the budget its
  -- tier is T1.
  pub record Affordable (a : Askable) : Type 0 where
    pub source : Entry
    pub marked : a.entry ≡ mark source
    pub unspent : run.spent < token_cap c
    pub fits : run.spent + project o.dumped source.event ≤ token_cap c
    pub tiered : (5 * run.spent < 4 * token_cap c) ⊎ (tier_text source.event.payload ≡ "T1")

  abbrev AllAffordable : Collected → Type 0
  AllAffordable p = All Affordable p.askable

  afford :
      (a : Askable) (en : Entry)
      → a.entry ≡ mark en
      → over_budget c o run en ≡ false
      → degraded c run en ≡ false
      → Affordable a
  unfolding over_budget degraded
  afford a en e inside cheap = record {
    source = en;
    marked = e;
    unspent = ground arith;
    fits = ground arith;
    tiered = ground (arith, eq_iff (tier_text en.event.payload) "T1");
  }

  collect-Affordable : (q : Queue) → AllAffordable (collect c o run q)
  unfolding collect
  collect-Affordable [] = tt
  collect-Affordable ((en, is_def) ∷ rest) =
      let rec = collect-Affordable rest in
      if_ind AllAffordable (over_budget c o run en) (λ _. tt)
        λ inside.
          if_ind AllAffordable (degraded c run en)
            (λ _. if_ind AllAffordable is_def (λ _. rec) (λ _. rec))
            (λ cheap. (afford _ en refl inside cheap, rec))

  length-collect : (q : Queue) → length (collect c o run q).askable ≤ length q
  unfolding collect
  length-collect [] = omega arith
  length-collect ((en, is_def) ∷ rest) = ground (arith, length-collect rest)

  -- A beat asks about at most `max_events` entries; each of them fits the day's token cap by its own
  -- projection, and at four fifths of the cap or above only those of tier T1 are asked; so nothing is
  -- asked once the cap is reached.
  pub collect_bounds :
      (max_events : ℕ) (q : Queue)
      → let asked = (collect c o run (take max_events q)).askable in
        (length asked ≤ max_events)
        × All Affordable asked
        × ((asked ≡ []) ⊎ (run.spent < token_cap c))
  collect_bounds n q = (
    omega (arith, length-collect (take n q), length-take n q),
    collect-Affordable (take n q),
    some_left _ (collect-Affordable (take n q)),
  )
    where
      some_left : (as' : List Askable) → All Affordable as' → (as' ≡ []) ⊎ (run.spent < token_cap c)
      some_left [] h = inl refl
      some_left (a ∷ as') h = inr h.0.unspent
