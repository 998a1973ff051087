-- ===== src/Ng/Cadence/Beat/Keeps.antt =====
-- What becomes of the deferred beads that a beat asks about.
use hngh.Prelude.{
  ◌≡◌, refl, String, Option, List, [], ◌∷◌, ◌++◌, map, Bool, true, ◌||◌, length, if_ind, arith,
  contains, Bool-cases, inl, inr, eq_iff, ◌⊎◌,
}
use hngh.Ng.Contract.{Answer}
use hngh.Ng.Cadence.Config.{Config}
use hngh.Ng.Cadence.State.{Entry}
use hngh.Ng.Cadence.Handle.{Run, handle}
use hngh.Ng.Cadence.Handle.Outcomes.{handle-Effect}
use hngh.Ng.Cadence.Handle.Reports.{named, named-Effect, handle-Accounted}
use hngh.Ng.Cadence.Beat.{Askable, entry_id, rest_parked, parked_entry, kept_entry, charge, settle}

-- The bead has an entry in the list.
abbrev pub has : List Entry → String → Bool
has entries b = contains (map entry_id entries) b

pub has-append : (xs ys : List Entry) (b : String) → has (xs ++ ys) b ≡ (has xs b || has ys b)
has-append [] ys b = refl
has-append (x ∷ xs) ys b = ground (arith, has-append xs ys b)

module _ (c : Config) (b : String) where
  -- The bead has an entry, or an event of the run is about it.
  abbrev pub Saved : List Entry × Run → Type 0
  Saved p = (has p.0 b || named p.1.emitted b) ≡ true

  abbrev Named : List Entry × Run → Type 0
  Named p = named p.1.emitted b ≡ true

  pub Saved-append_left : (xs ys : List Entry) (run : Run) → Saved (xs, run) → Saved (xs ++ ys, run)
  Saved-append_left xs ys run h = rw has-append (ground arith)

  pub Saved-append_right :
      (xs ys : List Entry) (run : Run) → Saved (ys, run) → Saved (xs ++ ys, run)
  Saved-append_right xs ys run h = rw has-append (ground arith)

  pub Saved-has : (xs : List Entry) (run : Run) → has xs b ≡ true → Saved (xs, run)
  Saved-has xs run h = rw h

  Saved-grows :
      (xs : List Entry) (run after : Run)
      → (named run.emitted b ≡ true → named after.emitted b ≡ true)
      → Saved (xs, run)
      → Saved (xs, after)
  Saved-grows xs run after grows h = elim (Bool-cases (has xs b)) [
    | inl e ↦ rw e
    | inr e ↦ rw e (grows (rw e at h))
  ]

  handle-Named :
      (a : Askable) (ans : Option Answer) (run : Run)
      → named run.emitted b ≡ true
      → named (handle c a.entry.event a.entry.attempts a.is_def ans run).1.emitted b ≡ true
  handle-Named a ans run =
      named-Effect b (handle-Effect c a.entry.event a.entry.attempts a.is_def ans run)

  settle-Named :
      (askable : List Askable) (told : List (Option Answer)) (run : Run)
      → named run.emitted b ≡ true
      → Named (settle c askable told run)
  unfolding settle charge
  settle-Named [] told run h = h
  settle-Named (a ∷ more) [] run h = h
  settle-Named (a ∷ more) (ans ∷ told) run h =
      let r = handle c a.entry.event a.entry.attempts a.is_def ans run in
      let h1 = handle-Named a ans run h in
      if_ind Named r.0.stop (λ _. h1) (λ _. settle-Named more told (charge c r.0 r.1) h1)

  -- What becomes of the bead that one answer is about.
  handle-Saved :
      (a : Askable) (ans : Option Answer) (run : Run)
      → entry_id a.entry ≡ b
      → let r = handle c a.entry.event a.entry.attempts a.is_def ans run in
        Saved (kept_entry a.entry r.0, charge c r.0 r.1)
  unfolding kept_entry charge entry_id parked_entry
  handle-Saved a ans run e =
      let r = handle c a.entry.event a.entry.attempts a.is_def ans run in
      ground (
        arith,
        handle-Accounted c a.entry.event a.entry.attempts a.is_def ans run,
        eq_iff b (entry_id a.entry),
      )

  rest_parked-cons :
      (a : Askable) (more : List Askable)
      → has (rest_parked (a ∷ more)) b ≡ true
      → (entry_id a.entry ≡ b) ⊎ (has (rest_parked more) b ≡ true)
  unfolding rest_parked
  rest_parked-cons a more h = ground (arith, eq_iff b (entry_id a.entry))

  -- A deferred bead that is asked about is kept, or an event is about it.
  pub settle-Saved :
      (askable : List Askable) (told : List (Option Answer)) (run : Run)
      → length told ≡ length askable
      → has (rest_parked askable) b ≡ true
      → Saved (settle c askable told run)
  unfolding settle
  settle-Saved [] told run len h = Saved-has [] run (unfold rest_parked in h)
  settle-Saved (a ∷ more) [] run len h = absurd (omega arith)
  settle-Saved (a ∷ more) (ans ∷ told) run len h =
      let r = handle c a.entry.event a.entry.attempts a.is_def ans run in
      let run2 = charge c r.0 r.1 in
      let kept = kept_entry a.entry r.0 in
      let next = settle c more told run2 in
      if_ind Saved r.0.stop
        (λ _. elim (rest_parked-cons a more h) [
          | inl own ↦ Saved-append_left kept (rest_parked more) run2 (handle-Saved a ans run own)
          | inr rest ↦ Saved-append_right kept (rest_parked more) run2 (Saved-has _ run2 rest)
        ])
        (λ _. elim (rest_parked-cons a more h) [
          | inl own ↦ Saved-append_left kept next.0 next.1 (
              Saved-grows kept run2 next.1 (settle-Named more told run2)
                (handle-Saved a ans run own))
          | inr rest ↦
              Saved-append_right kept next.0 next.1 (settle-Saved more told run2 (omega arith) rest)
        ])
