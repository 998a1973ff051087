-- ===== src/Ng/Cadence/Beat/Conserves.antt =====
-- No deferred bead is lost in a beat.
use hngh.Prelude.{
  ℕ, zero, suc, ◌≡◌, refl, ap, String, Option, none, some, List, [], ◌∷◌, ◌++◌, map, Bool, true,
  false, not, ◌||◌, length, select, take, drop, take-append-drop, append-nil, if_ind, arith,
  contains, inl, inr, ◌⊎◌, eq_iff,
}
use hngh.Ng.Contract.{Answer}
use hngh.Ng.Ledger.{Ledger}
use hngh.Ng.Cadence.Config.{Config, leg_url}
use hngh.Ng.Cadence.State.{State, state_of, Entry, deferred, save_deferred, or_empty}
use hngh.Ng.Cadence.Handle.{Judgment, Run}
use hngh.Ng.Cadence.Handle.Reports.{named}
use hngh.Ng.Cadence.Beat.{
  Poll, Outside, Queue, Askable, Collected, Row, entry_id, parked_of, rest_parked, mark, pad,
  answers, collect, over_budget, degraded, settle, save, save_exhausted, take_poll, work,
  legs_exhausted, round, start, beat, queue, still_exhausted, fresh_entry,
}
use hngh.Ng.Cadence.Beat.Keeps.{
  has, has-append, Saved, settle-Saved, Saved-append_left, Saved-append_right, Saved-has,
}

length-pad : (n : ℕ) (as' : List Answer) → length (pad n as') ≡ n
unfolding pad
length-pad zero as' = refl
length-pad (suc n) [] = ap suc (length-pad n [])
length-pad (suc n) (a ∷ as') = ap suc (length-pad n as')

length-answers :
    (o : Outside) (url : Option String) (askable : List Askable)
    → length (answers o url askable) ≡ length askable
unfolding answers
length-answers o url askable = length-pad (length askable) _

pub parked_of-append : (p q : Queue) → parked_of (p ++ q) ≡ parked_of p ++ parked_of q
unfolding parked_of
parked_of-append [] q = refl
parked_of-append ((en, true) ∷ p) q = ap (◌∷◌ en) (parked_of-append p q)
parked_of-append ((en, false) ∷ p) q = parked_of-append p q

pub deferred-save : (still : List Entry) (run : Run) → deferred (save still run).file ≡ still
unfolding save save_exhausted save_deferred deferred state_of or_empty
deferred-save still run = refl

module _ (c : Config) (o : Outside) (b : String) where
  -- The chosen and the unchosen entries are those of the queue.
  abbrev Chosen : Collected → Type 0
  Chosen p = (has p.still b || has (rest_parked p.askable) b) ≡ true

  collect-Chosen : (q : Queue) (run : Run) → has (parked_of q) b ≡ true → Chosen (collect c o run q)
  unfolding collect parked_of rest_parked mark entry_id
  collect-Chosen [] run h = cc
  collect-Chosen ((en, true) ∷ rest) run h =
      if_ind Chosen (over_budget c o run en) (λ _. rw h)
        (λ _.
          if_ind Chosen (degraded c run en)
            (λ _. ground (arith, collect-Chosen rest run, eq_iff b (entry_id en)))
            (λ _. ground (arith, collect-Chosen rest run, eq_iff b (entry_id en))))
  collect-Chosen ((en, false) ∷ rest) run h =
      if_ind Chosen (over_budget c o run en) (λ _. rw h)
        (λ _.
          if_ind Chosen (degraded c run en) (λ _. collect-Chosen rest run h)
            (λ _. collect-Chosen rest run h))

  -- The bead has a deferred entry in the state file, or an event of the beat is about it.
  abbrev pub Safe : Run → Type 0
  Safe run = (has (deferred run.file) b || named run.emitted b) ≡ true

  Chosen-cases :
      (p : Collected) → Chosen p → (has p.still b ≡ true) ⊎ (has (rest_parked p.askable) b ≡ true)
  Chosen-cases p h = ground arith

  has-cases : (xs ys : List Entry) → has (xs ++ ys) b ≡ true → (has xs b ≡ true) ⊎ (has ys b ≡ true)
  has-cases xs ys h = ground (arith, has-append xs ys b)

  parked_of-split : (n : ℕ) (q : Queue) → parked_of (take n q) ++ parked_of (drop n q) ≡ parked_of q
  parked_of-split n q = rw (← parked_of-append) (ap parked_of (take-append-drop n q))

  work-Safe :
      (url : Option String) (n : ℕ) (q : Queue) (run : Run)
      → has (parked_of q) b ≡ true
      → Safe (work c o url n q run)
  unfolding work
  work-Safe url n q run h =
      let chosen = collect c o run (take n q) in
      let told = answers o url chosen.askable in
      let done = settle c chosen.askable told chosen.run in
      let late = parked_of (drop n q) in
      let saved : Saved c b (late ++ (chosen.still ++ done.0), done.1) =
        elim (has-cases (parked_of (take n q)) late (rw (parked_of-split n q) h)) [
          | inl early ↦
              Saved-append_right c b late (chosen.still ++ done.0) done.1
                (elim (Chosen-cases chosen (collect-Chosen (take n q) run early)) [
                  | inl stays ↦
                      Saved-append_left c b chosen.still done.0 done.1
                        (Saved-has c b _ done.1 stays)
                  | inr asked ↦ Saved-append_right c b chosen.still done.0 done.1 (
                      settle-Saved c b chosen.askable told chosen.run
                        (length-answers o url chosen.askable) asked)
                ])
          | inr unasked ↦
              Saved-append_left c b late (chosen.still ++ done.0) done.1
                (Saved-has c b late done.1 unasked)
        ] in
      rw deferred-save (unfold save in saved)

  legs_exhausted-Safe :
      (q : Queue) (run : Run) → has (parked_of q) b ≡ true → Safe (legs_exhausted q run)
  unfolding legs_exhausted save_deferred deferred state_of or_empty
  legs_exhausted-Safe q run h = rw h

  round-Safe :
      (n : ℕ) (url : Option String) (configured : Bool) (q : Queue) (run : Run)
      → has (parked_of q) b ≡ true
      → Safe (round c o n url configured q run)
  unfolding round
  round-Safe n none true q run h = legs_exhausted-Safe q run h
  round-Safe n none false q run h = work-Safe none n q run h
  round-Safe n (some url) configured q run h = work-Safe (some url) n q run h

parked_of-deferred : (xs : List Entry) → parked_of (map (λ en. (en, true)) xs) ≡ xs
unfolding parked_of
parked_of-deferred [] = refl
parked_of-deferred (x ∷ xs) = ap (◌∷◌ x) (parked_of-deferred xs)

parked_of-fresh :
    (o : Outside) (rows : List Row) → parked_of (map (λ r. (fresh_entry o r, false)) rows) ≡ []
unfolding parked_of
parked_of-fresh o [] = refl
parked_of-fresh o (r ∷ rows) = parked_of-fresh o rows

-- The deferred part of a queue: the parked entries whose beads are not exhausted.
pub parked_of-queue :
    (o : Outside) (parked : List Entry) (gone : List String) (rows : List Row)
    → parked_of (queue o parked gone rows) ≡ select (λ en. not (contains gone (entry_id en))) parked
unfolding queue
parked_of-queue o parked gone rows =
    simp (parked_of-append, parked_of-deferred, parked_of-fresh, append-nil)

has-select :
    (gone : List String) (b : String) (xs : List Entry)
    → contains gone b ≡ false
    → has xs b ≡ true
    → has (select (λ en. not (contains gone (entry_id en))) xs) b ≡ true
has-select gone b [] h e = e
has-select gone b (x ∷ xs) h e = ground (
  arith,
  has-select gone b xs h,
  eq_iff b (entry_id x),
  ap (contains gone) {x = b} {y = entry_id x},
)

-- A bead that was deferred before a beat, and that the poll does not leave exhausted, is still
-- deferred behind it, or the beat has emitted an event about it: whatever the answers, the budget,
-- the legs, the dispatch ceiling and the bound on the events asked.
pub beat-keeps_deferred :
    (c : Config) (o : Outside) (max_events : ℕ) (poll : Poll) (file : Option State)
    (ledger : Ledger Judgment) (b : String)
    → has (deferred file) b ≡ true
    → contains (still_exhausted (take_poll poll (start c file ledger)).0 file) b ≡ false
    → let after = beat c o max_events poll file ledger in
      (has (deferred after.file) b || named after.emitted b) ≡ true
unfolding beat
beat-keeps_deferred c o max_events poll file ledger b h e =
    let rows = (take_poll poll (start c file ledger)).0 in
    round-Safe c o b max_events (leg_url c).0 (leg_url c).1 _ _ (
      rw (parked_of-queue o (deferred file) (still_exhausted rows file) rows)
        (has-select (still_exhausted rows file) b (deferred file) e h))
