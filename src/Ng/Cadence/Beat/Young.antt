-- ===== src/Ng/Cadence/Beat/Young.antt =====
-- The attempts of the deferred entries stay below the cap.
use hngh.Prelude.{
  ℕ, zero, suc, ◌+◌, ◌<◌, ◌≡◌, Option, none, some, List, [], ◌∷◌, ◌++◌, Bool, true, false, select,
  take, drop, All, if_ind, Bool-cases, arith, ◌⊎◌, inl, inr, String, not, contains,
}
use hngh.Ng.Contract.{Answer}
use hngh.Ng.Ledger.{Ledger}
use hngh.Ng.Cadence.Config.{Config, leg_url, attempt_cap}
use hngh.Ng.Cadence.State.{State, state_of, Entry, deferred, save_deferred, or_empty}
use hngh.Ng.Cadence.Handle.{Judgment, Run, Outcome, handle}
use hngh.Ng.Cadence.Handle.Outcomes.{handle-Effect}
use hngh.Ng.Cadence.Handle.Halts.{capped, capped-Effect, handle-Capped}
use hngh.Ng.Cadence.Beat.{
  Poll, Outside, Queue, Askable, Collected, entry_id, parked_of, parked_entry, kept_entry, charge,
  answers, collect, over_budget, degraded, settle, save, take_poll, work, legs_exhausted, round,
  start, beat, still_exhausted,
}
use hngh.Ng.Cadence.Beat.Conserves.{parked_of-queue, deferred-save}

module _ (c : Config) where
  -- Every entry has fewer attempts than the cap.
  abbrev pub Young : List Entry → Type 0
  Young = All (λ en. en.attempts < attempt_cap c)

  Young-append : (xs ys : List Entry) → Young xs → Young ys → Young (xs ++ ys)
  Young-append [] ys hx hy = hy
  Young-append (x ∷ xs) ys hx hy = (hx.0, Young-append xs ys hx.1 hy)

  Young-select : (p : Entry → Bool) (xs : List Entry) → Young xs → Young (select p xs)
  Young-select p [] h = tt
  Young-select p (x ∷ xs) h =
      if_ind Young (p x) (λ _. (h.0, Young-select p xs h.1)) (λ _. Young-select p xs h.1)

  Young-take : (n : ℕ) (q : Queue) → Young (parked_of q) → Young (parked_of (take n q))
  unfolding parked_of
  Young-take zero q h = tt
  Young-take (suc n) [] h = tt
  Young-take (suc n) ((en, true) ∷ q) h = (h.0, Young-take n q h.1)
  Young-take (suc n) ((en, false) ∷ q) h = Young-take n q h

  Young-drop : (n : ℕ) (q : Queue) → Young (parked_of q) → Young (parked_of (drop n q))
  unfolding parked_of
  Young-drop zero q h = h
  Young-drop (suc n) [] h = tt
  Young-drop (suc n) ((en, true) ∷ q) h = Young-drop n q h.1
  Young-drop (suc n) ((en, false) ∷ q) h = Young-drop n q h

  -- All young, or a dispatch was refused by the ceiling.
  abbrev Fine : List Entry × Run → Type 0
  Fine p = Young p.0 ⊎ (capped p.1.emitted ≡ true)

  abbrev YoungStill : Collected → Type 0
  YoungStill p = Young p.still

  kept_entry-Fine :
      (en : Entry) (out : Outcome) (run : Run)
      → out.used ≡ en.attempts + 1
      → (out.park ≡ true → (en.attempts + 1 < attempt_cap c) ⊎ (capped run.emitted ≡ true))
      → Young (kept_entry en out) ⊎ (capped run.emitted ≡ true)
  unfolding kept_entry parked_entry
  kept_entry-Fine en out run used parked = elim (Bool-cases out.park) [
    | inr e ↦ rw e (inl tt)
    | inl e ↦ elim (parked e) [ inl low ↦ rw e (inl (omega arith, tt)) | inr refused ↦ inr refused ]
  ]

  settle-capped :
      (askable : List Askable) (told : List (Option Answer)) (run : Run)
      → capped run.emitted ≡ true
      → capped (settle c askable told run).1.emitted ≡ true
  unfolding settle charge
  settle-capped [] told run h = h
  settle-capped (a ∷ more) [] run h = h
  settle-capped (a ∷ more) (ans ∷ told) run h =
      let r = handle c a.entry.event a.entry.attempts a.is_def ans run in
      let h1 = capped-Effect (handle-Effect c a.entry.event a.entry.attempts a.is_def ans run) h in
      if_ind (λ (p : List Entry × Run). capped p.1.emitted ≡ true) r.0.stop (λ _. h1)
        (λ _. settle-capped more told (charge c r.0 r.1) h1)

  settle-Fine :
      (askable : List Askable) (told : List (Option Answer)) (run : Run)
      → Fine (settle c askable told run)
  unfolding settle
  settle-Fine [] told run = inl tt
  settle-Fine (a ∷ more) [] run = inl tt
  settle-Fine (a ∷ more) (ans ∷ told) run =
      let r = handle c a.entry.event a.entry.attempts a.is_def ans run in
      let h = handle-Capped c a.entry.event a.entry.attempts a.is_def ans run in
      let run2 = charge c r.0 r.1 in
      if_ind Fine r.0.stop (λ e. inr (unfold charge in h.2 e))
        (λ _. elim (settle-Fine more told run2) [
          | inr e ↦ inr e
          | inl young ↦ elim (kept_entry-Fine a.entry r.0 r.1 h.0 h.1) [
            | inl one ↦ inl (Young-append (kept_entry a.entry r.0) _ one young)
            | inr e ↦ inr (settle-capped more told run2 (unfold charge in e))
          ]
        ])

  collect-Young :
      (o : Outside) (q : Queue) (run : Run) → Young (parked_of q) → Young (collect c o run q).still
  unfolding collect parked_of
  collect-Young o [] run h = tt
  collect-Young o ((en, true) ∷ rest) run h =
      if_ind YoungStill (over_budget c o run en) (λ _. h)
        (λ _.
          if_ind YoungStill (degraded c run en) (λ _. (h.0, collect-Young o rest run h.1))
            (λ _. collect-Young o rest run h.1))
  collect-Young o ((en, false) ∷ rest) run h =
      if_ind YoungStill (over_budget c o run en) (λ _. h)
        (λ _.
          if_ind YoungStill (degraded c run en) (λ _. collect-Young o rest run h)
            (λ _. collect-Young o rest run h))

  abbrev FineRun : Run → Type 0
  FineRun run = Young (deferred run.file) ⊎ (capped run.emitted ≡ true)

  work-Fine :
      (o : Outside) (url : Option String) (n : ℕ) (q : Queue) (run : Run)
      → Young (parked_of q)
      → FineRun (work c o url n q run)
  unfolding work
  work-Fine o url n q run h =
      let chosen = collect c o run (take n q) in
      let told = answers o url chosen.askable in
      let done = settle c chosen.askable told chosen.run in
      let late = parked_of (drop n q) in
      elim (settle-Fine chosen.askable told chosen.run) [
        | inr e ↦ inr (unfold save in e)
        | inl young ↦ inl (
            rw deferred-save (
              Young-append late (chosen.still ++ done.0) (Young-drop n q h) (
                Young-append chosen.still done.0 (collect-Young o (take n q) run (Young-take n q h))
                  young)))
      ]

  legs_exhausted-Fine :
      (q : Queue) (run : Run) → Young (parked_of q) → FineRun (legs_exhausted q run)
  unfolding legs_exhausted save_deferred deferred state_of or_empty
  legs_exhausted-Fine q run h = inl h

  round-Fine :
      (o : Outside) (n : ℕ) (url : Option String) (configured : Bool) (q : Queue) (run : Run)
      → Young (parked_of q)
      → FineRun (round c o n url configured q run)
  unfolding round
  round-Fine o n none true q run h = legs_exhausted-Fine q run h
  round-Fine o n none false q run h = work-Fine o none n q run h
  round-Fine o n (some url) configured q run h = work-Fine o (some url) n q run h

-- Where every deferred entry has fewer attempts than the cap, so it is behind a beat, unless the
-- beat has reported a dispatch that the daily ceiling refused.
pub beat-attempts_lt_cap :
    (c : Config) (o : Outside) (max_events : ℕ) (poll : Poll) (file : Option State)
    (ledger : Ledger Judgment)
    → Young c (deferred file)
    → let after = beat c o max_events poll file ledger in
      Young c (deferred after.file) ⊎ (capped after.emitted ≡ true)
unfolding beat
beat-attempts_lt_cap c o max_events poll file ledger h =
    let gone = still_exhausted (take_poll poll (start c file ledger)).0 file in
    round-Fine c o max_events (leg_url c).0 (leg_url c).1 _ _ (
      rw parked_of-queue
        (Young-select c (λ en. not (contains gone (entry_id en))) (deferred file) h))
