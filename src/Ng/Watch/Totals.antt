-- ===== src/Ng/Watch/Totals.antt =====
-- automation/ng/watch.py: the totals of the kinds, against the number of their events.
use hngh.Prelude.{
  ℕ, ◌+◌, ◌≡◌, refl, ap, ◌∙◌, String, List, [], ◌∷◌, Bool, true, false, not, ◌&&◌, ◌||◌, any, all,
  eq_iff, ℤ, pos, ◌+ℤ◌, ltb_ℤ, str_eq, if◌then◌else◌, arith, Bool-cases, inl, inr,
}
use hngh.Ng.Watch.{Seen, Counts, count, totals, before, growth, negated}

-- How many of the events are of the kind.
abbrev pub occurrences : String → List Seen → ℕ
occurrences kind [] = 0
occurrences kind (ev ∷ events) = (if str_eq ev.kind kind then 1 else 0) + occurrences kind events

-- No entry for the kind.
abbrev unlisted : String → Counts → Bool
unlisted kind counts = all (λ kn. not (str_eq kn.0 kind)) counts

-- Each kind has one entry.
abbrev is_distinct : Counts → Bool
is_distinct [] = true
is_distinct ((k, n) ∷ counts) = unlisted k counts && is_distinct counts

unlisted-parts :
    (k k' : String) (n' : ℤ) (rest : Counts)
    → unlisted k ((k', n') ∷ rest) ≡ true
    → (str_eq k k' ≡ false) × (unlisted k rest ≡ true)
unlisted-parts k k' n' rest h = ground (arith, eq_iff k k', eq_iff k' k)

before-head :
    (k : String) (n : ℤ) (counts : Counts) (P : String → ℤ → Bool) (rest : Counts)
    → unlisted k rest ≡ true
    → any (λ kn. P kn.0 (before ((k, n) ∷ counts) kn.0)) rest
      ≡ any (λ kn. P kn.0 (before counts kn.0)) rest
unfolding before
before-head k n counts P [] h = refl
before-head k n counts P ((k', n') ∷ rest) h =
    let parts = unlisted-parts k k' n' rest h in
    rw (parts.0, before-head k n counts P rest parts.1) refl

-- The entries, read by their kinds.
pub any-before :
    (P : String → ℤ → Bool) (counts : Counts)
    → is_distinct counts ≡ true
    → any (λ kn. P kn.0 kn.1) counts ≡ any (λ kn. P kn.0 (before counts kn.0)) counts
unfolding before
any-before P [] h = refl
any-before P ((k, n) ∷ counts) h =
    ground (arith, any-before P counts, before-head k n counts P counts, eq_iff k k)

before-count :
    (kind k : String) (counts : Counts)
    → before (count kind counts) k
      ≡ (if str_eq kind k then before counts k +ℤ pos 1 else before counts k)
unfolding before count ◌+ℤ◌
before-count kind k [] = elim (Bool-cases (str_eq kind k)) [
  | inl same ↦ rw same refl
  | inr apart ↦ rw apart refl
]
before-count kind k ((k', n) ∷ counts) =
    ground (arith, before-count kind k counts, eq_iff k' kind, eq_iff k' k, eq_iff kind k)

unlisted-count :
    (kind k : String) (counts : Counts)
    → unlisted k (count kind counts) ≡ (not (str_eq kind k) && unlisted k counts)
unfolding count
unlisted-count kind k [] = ground arith
unlisted-count kind k ((k', n) ∷ counts) =
    ground (arith, unlisted-count kind k counts, eq_iff k' kind, eq_iff k' k, eq_iff kind k)

is_distinct-count :
    (kind : String) (counts : Counts)
    → is_distinct counts ≡ true
    → is_distinct (count kind counts) ≡ true
unfolding count
is_distinct-count kind [] h = refl
is_distinct-count kind ((k, n) ∷ counts) h = ground (
  arith,
  is_distinct-count kind counts,
  unlisted-count kind k counts,
  eq_iff k kind,
  eq_iff kind k,
)

any-count :
    (Q : String → Bool) (kind : String) (counts : Counts)
    → any (λ kn. Q kn.0) (count kind counts) ≡ (Q kind || any (λ kn. Q kn.0) counts)
unfolding count
any-count Q kind [] = ground arith
any-count Q kind ((k, n) ∷ counts) = elim (Bool-cases (str_eq k kind)) [
  | inl same ↦ rw (same, (eq_iff k kind).0 same) (ground arith)
  | inr apart ↦ rw (apart, any-count Q kind counts) (ground arith)
]

plus_one : (m : ℕ) → pos m +ℤ pos 1 ≡ pos (m + 1)
unfolding ◌+ℤ◌
plus_one m = ground arith

before-next :
    (k : String) (counts : Counts) (m : ℕ) (ev : Seen)
    → str_eq k "audit.finding" ≡ false
    → before counts k ≡ pos m
    → before (if str_eq ev.kind "audit.finding" then counts else count ev.kind counts) k
      ≡ pos (m + (if str_eq ev.kind k then 1 else 0))
before-next k counts m ev h e = elim (Bool-cases (str_eq ev.kind "audit.finding")) [
  | inl finding ↦
      let other : str_eq ev.kind k ≡ false =
        ground
          (arith, eq_iff ev.kind k, eq_iff ev.kind "audit.finding", eq_iff k "audit.finding") in
      rw (finding, other, e) (ap pos (omega arith))
  | inr counted ↦ elim (Bool-cases (str_eq ev.kind k)) [
    | inl same ↦ rw (counted, before-count ev.kind k counts, same, e) (plus_one m)
    | inr apart ↦ rw (counted, before-count ev.kind k counts, apart, e) (ap pos (omega arith))
  ]
]

-- The totals so far, and the events behind them.
before-totals :
    (k : String) (events : List Seen) (counts : Counts) (m : ℕ)
    → str_eq k "audit.finding" ≡ false
    → before counts k ≡ pos m
    → before (totals counts events) k ≡ pos (m + occurrences k events)
unfolding totals
before-totals k [] counts m h e = e ∙ ap pos (omega arith)
before-totals k (ev ∷ events) counts m h e =
    before-totals k events _ _ h (before-next k counts m ev h e)
    ∙ ap pos (sum_assoc m (if str_eq ev.kind k then 1 else 0) (occurrences k events))
  where
    sum_assoc : (a b c : ℕ) → a + b + c ≡ a + (b + c)
    sum_assoc a b c = omega arith

pub before-all :
    (k : String) (events : List Seen)
    → str_eq k "audit.finding" ≡ false
    → before (totals [] events) k ≡ pos (occurrences k events)
unfolding before
before-all k events h = before-totals k events [] 0 h refl ∙ ap pos (omega arith)

pub is_distinct-totals :
    (counts : Counts) (events : List Seen)
    → is_distinct counts ≡ true
    → is_distinct (totals counts events) ≡ true
unfolding totals
is_distinct-totals counts [] h = h
is_distinct-totals counts (ev ∷ events) h = elim (Bool-cases (str_eq ev.kind "audit.finding")) [
  | inl e ↦ rw e (is_distinct-totals counts events h)
  | inr e ↦
      rw e (is_distinct-totals (count ev.kind counts) events (is_distinct-count ev.kind counts h))
]

or-swap : (a b c : Bool) → ((a || b) || c) ≡ (b || (a || c))
or-swap a b c = ground arith

-- A kind that is counted is the kind of an event, and no finding of the audit.
pub any-totals :
    (Q : String → Bool) (counts : Counts) (events : List Seen)
    → any (λ kn. Q kn.0) (totals counts events) ≡ (
        any (λ kn. Q kn.0) counts
        || any (λ ev. not (str_eq ev.kind "audit.finding") && Q ev.kind) events)
unfolding totals
any-totals Q counts [] = ground arith
any-totals Q counts (ev ∷ events) = elim (Bool-cases (str_eq ev.kind "audit.finding")) [
  | inl e ↦ rw (e, any-totals Q counts events) refl
  | inr e ↦
      rw (e, any-totals Q (count ev.kind counts) events, any-count Q ev.kind counts)
        (or-swap (Q ev.kind) (any (λ kn. Q kn.0) counts) _)
]

-- A growth above a limit that is not negative is one of the growths that are kept.
pub any-growth :
    (limit : ℕ) (prev counts : Counts)
    → any (λ kn. ltb_ℤ (pos limit) kn.1) (growth prev counts)
      ≡ any (λ kn. ltb_ℤ (pos limit) (kn.1 +ℤ negated (before prev kn.0))) counts
unfolding growth
any-growth limit prev [] = refl
any-growth limit prev ((k, n) ∷ counts) = ground (arith, any-growth limit prev counts)
