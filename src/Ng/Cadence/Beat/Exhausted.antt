-- ===== src/Ng/Cadence/Beat/Exhausted.antt =====
-- The exhausted beads: they are not asked about, and a poll decides which stay exhausted.
use hngh.Prelude.{
  ℕ, zero, suc, ◌≡◌, ◌≢◌, refl, ap, ◌∙◌, Option, none, some, List, [], ◌∷◌, ◌++◌, map, Bool, true,
  false, not, ◌||◌, any, any-append, any-sorted, sorted, select, take, drop, contains, str_eq,
  text_le, eq_iff, if_ind, arith, String, Bool-cases, inl, inr, any-snoc,
}
use hngh.Ng.Contract.{Answer}
use hngh.Ng.Ledger.{Ledger}
use hngh.Ng.Cadence.Config.{Config, leg_url}
use hngh.Ng.Cadence.State.{State, state_of, Entry, deferred, exhausted, save_deferred, or_empty}
use hngh.Ng.Cadence.Handle.{Judgment, Run, emit, add_exhausted, handle}
use hngh.Ng.Cadence.Handle.Outcomes.{Effect, kept, said, proposed, retired, handle-Effect}
use hngh.Ng.Cadence.Beat.{
  failed, polled, Outside, Queue, Askable, Collected, Row, text_or, entry_id, parked_of, charge,
  answers, collect, over_budget, degraded, refuse_budget, settle, save, save_exhausted, take_poll,
  work, legs_exhausted, round, start, beat, queue, still_exhausted, fresh_entry, is_fresh,
  bead_event,
}

-- No entry of the queue is about an exhausted bead, and no fresh one about a deferred bead.
abbrev pub Clear : List String → List Entry → Queue → Type 0
Clear gone parked [] = Unit
Clear gone parked ((en, is_def) ∷ q) =
    (contains gone (entry_id en) ≡ false)
    × ((is_def || not (contains (map entry_id parked) (entry_id en))) ≡ true)
    × Clear gone parked q

module _ (gone : List String) (parked : List Entry) where
  Clear-append :
      (p q : Queue) → Clear gone parked p → Clear gone parked q → Clear gone parked (p ++ q)
  Clear-append [] q hp hq = hq
  Clear-append ((en, d) ∷ p) q hp hq = (hp.0, hp.1, Clear-append p q hp.2 hq)

  Clear-deferred :
      (xs : List Entry)
      → Clear gone parked
          (map (λ en. (en, true)) (select (λ en. not (contains gone (entry_id en))) xs))
  Clear-deferred [] = tt
  Clear-deferred (x ∷ xs) = elim (Bool-cases (contains gone (entry_id x))) [
    | inl e ↦ rw e (Clear-deferred xs)
    | inr e ↦ rw e (e, refl, Clear-deferred xs)
  ]

  Clear-fresh :
      (o : Outside) (rows : List Row)
      → Clear gone parked (
          map
            (λ r. (fresh_entry o r, false))
            (select (is_fresh (map entry_id parked ++ gone)) rows))
  unfolding is_fresh fresh_entry bead_event entry_id
  Clear-fresh o [] = tt
  Clear-fresh o (r ∷ rows) = elim (Bool-cases (is_fresh (map entry_id parked ++ gone) r)) [
    | inr e ↦ rw e (Clear-fresh o rows)
    | inl e ↦
        let apart = any-append (str_eq (text_or r.id)) (map entry_id parked) gone in
        rw e (ground (arith, apart), ground (arith, apart), Clear-fresh o rows)
  ]

-- The queue of a beat holds no exhausted bead, and each deferred bead only as a deferred entry.
pub queue-Clear :
    (o : Outside) (parked : List Entry) (gone : List String) (rows : List Row)
    → Clear gone parked (queue o parked gone rows)
unfolding queue
queue-Clear o parked gone rows =
    Clear-append gone parked _ _ (Clear-deferred gone parked parked)
      (Clear-fresh gone parked o rows)

module _ (b : String) where
  abbrev Out : Run → Type 0
  Out run = contains run.exhausted b ≡ true

  Out-add_exhausted : (bid : String) (run : Run) → Out run → Out (add_exhausted bid run)
  unfolding add_exhausted
  Out-add_exhausted bid run h =
      if_ind Out (contains run.exhausted bid) (λ _. h)
        (λ _. rw (any-snoc (str_eq b) run.exhausted bid) (rw h))

  Out-emit : (j : Judgment) (run : Run) → Out run → Out (emit j run)
  unfolding emit
  Out-emit j run h = h

  Out-Effect : {c : Config} {run after : Run} → Out run → Effect c run after → Out after
  Out-Effect h kept = h
  Out-Effect h (said j {r} q e) = Out-emit j r (Out-Effect h e)
  Out-Effect h (proposed bid action {r} q e) = Out-emit _ _ (Out-Effect h e)
  Out-Effect h (retired bid {r} e) = Out-add_exhausted bid r (Out-Effect h e)

  module _ (c : Config) where
    Out-settle :
        (askable : List Askable) (told : List (Option Answer)) (run : Run)
        → Out run
        → Out (settle c askable told run).1
    unfolding settle charge
    Out-settle [] told run h = h
    Out-settle (a ∷ more) [] run h = h
    Out-settle (a ∷ more) (ans ∷ told) run h =
        let r = handle c a.entry.event a.entry.attempts a.is_def ans run in
        let h1 = Out-Effect h (handle-Effect c a.entry.event a.entry.attempts a.is_def ans run) in
        if_ind (λ (p : List Entry × Run). Out p.1) r.0.stop (λ _. h1)
          (λ _. Out-settle more told (charge c r.0 r.1) h1)

    Out-collect : (o : Outside) (q : Queue) (run : Run) → Out run → Out (collect c o run q).run
    unfolding collect refuse_budget emit
    Out-collect o [] run h = h
    Out-collect o ((en, is_def) ∷ rest) run h =
        let rec = Out-collect o rest run h in
        if_ind (λ (p : Collected). Out p.run) (over_budget c o run en) (λ _. h)
          (λ _.
            if_ind (λ (p : Collected). Out p.run) (degraded c run en)
              (λ _. if_ind (λ (p : Collected). Out p.run) is_def (λ _. rec) (λ _. rec)) (λ _. rec))

    Out-save :
        (still : List Entry) (run : Run)
        → Out run
        → contains (exhausted (save still run).file) b ≡ true
    unfolding save save_exhausted save_deferred exhausted state_of or_empty
    Out-save still run h = any-sorted text_le (str_eq b) run.exhausted ∙ h

    Out-work :
        (o : Outside) (url : Option String) (n : ℕ) (q : Queue) (run : Run)
        → Out run
        → contains (exhausted (work c o url n q run).file) b ≡ true
    unfolding work
    Out-work o url n q run h =
        let chosen = collect c o run (take n q) in
        let told = answers o url chosen.askable in
        let done = settle c chosen.askable told chosen.run in
        Out-save (parked_of (drop n q) ++ (chosen.still ++ done.0)) done.1
          (Out-settle chosen.askable told chosen.run (Out-collect o (take n q) run h))

    Out-legs_exhausted :
        (q : Queue) (run : Run)
        → contains (exhausted run.file) b ≡ true
        → contains (exhausted (legs_exhausted q run).file) b ≡ true
    unfolding legs_exhausted emit save_deferred exhausted state_of or_empty
    Out-legs_exhausted q run h = h

    Out-round :
        (o : Outside) (n : ℕ) (url : Option String) (configured : Bool) (q : Queue) (run : Run)
        → Out run
        → contains (exhausted run.file) b ≡ true
        → contains (exhausted (round c o n url configured q run).file) b ≡ true
    unfolding round
    Out-round o n none true q run h k = Out-legs_exhausted q run k
    Out-round o n none false q run h k = Out-work o none n q run h
    Out-round o n (some url) configured q run h k = Out-work o (some url) n q run h

any-select :
    (p : String → Bool) (xs : List String) (b : String)
    → p b ≡ true
    → any (str_eq b) xs ≡ true
    → any (str_eq b) (select p xs) ≡ true
any-select p [] b h k = cc
any-select p (x ∷ xs) b h k = ground (arith, any-select p xs b h, eq_iff b x, ap p {x = b} {y = x})

-- A bead that is exhausted and that the poll still lists stays exhausted behind the beat.
pub beat-keeps_exhausted :
    (c : Config) (o : Outside) (max_events : ℕ) (rows : List Row) (file : Option State)
    (ledger : Ledger Judgment) (b : String)
    → contains (exhausted file) b ≡ true
    → contains (map (λ r. text_or r.id) rows) b ≡ true
    → contains (exhausted (beat c o max_events (polled rows) file ledger).file) b ≡ true
unfolding beat still_exhausted take_poll start
beat-keeps_exhausted c o max_events rows file ledger b h k =
    Out-round b c o max_events (leg_url c).0 (leg_url c).1 _ _
      (any-select (contains (map (λ r. text_or r.id) rows)) (exhausted file) b k h) h

module _ (c : Config) (o : Outside) where
  idle_work :
      (url : Option String) (n : ℕ) (run : Run)
      → run.exhausted ≡ []
      → exhausted (work c o url n [] run).file ≡ []
  unfolding work collect settle save save_exhausted exhausted state_of or_empty
  idle_work url zero run h = ap (sorted text_le) h
  idle_work url (suc n) run h = ap (sorted text_le) h

  idle_round :
      (n : ℕ) (url : Option String) (configured : Bool) (run : Run)
      → ◌≢◌ {A = Option String × Bool} (url, configured) (none, true)
      → run.exhausted ≡ []
      → exhausted (round c o n url configured [] run).file ≡ []
  unfolding round
  idle_round n none true run k h = absurd (k refl)
  idle_round n none false run k h = idle_work none n run h
  idle_round n (some url) configured run k h = idle_work (some url) n run h

select-none : (xs : List String) → select (contains []) xs ≡ []
select-none [] = refl
select-none (x ∷ xs) = select-none xs

-- A poll that fails forgets the exhausted beads: with no deferred entry, and legs that are not all
-- blocked, the state file behind the beat lists none, whatever it listed before.
pub failed_poll_forgets :
    (c : Config) (o : Outside) (max_events : ℕ) (err : String) (file : Option State)
    (ledger : Ledger Judgment)
    → deferred file ≡ []
    → leg_url c ≢ (none, true)
    → exhausted (beat c o max_events (failed err) file ledger).file ≡ []
unfolding beat still_exhausted take_poll queue
failed_poll_forgets c o max_events err file ledger h k =
    rw h (idle_round c o max_events (leg_url c).0 (leg_url c).1 _ k (select-none (exhausted file)))
