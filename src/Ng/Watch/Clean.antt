-- ===== src/Ng/Watch/Clean.antt =====
-- automation/ng/watch.py: what an audit without findings says.
use hngh.Prelude.{
  ◌≡◌, refl, ◌∙◌, String, Option, none, some, List, [], ◌∷◌, ◌++◌, Bool, true, false, not, ◌&&◌,
  ◌||◌, any, all, ℕ, ◌+ℤ◌, pos, pos_part, neg_part, ltb, leb, ◌+◌, str_eq, ℤ, ltb_ℤ, leb_ℤ,
  if◌then◌else◌, arith, Bool-cases, inl, inr,
}
use hngh.Ng.Watch.{
  Seen, Finding, is_stale, stale_verdicts, Counts, growth, most_common, unread_burst, findings,
  audit, vnum, negated, last_version, before, totals,
}
use hngh.Ng.Watch.Totals.{
  occurrences, any-before, any-growth, any-totals, before-all, is_distinct-totals,
}

-- Some kind's number is above the limit.
abbrev bursts : ℤ → Counts → Bool
bursts limit counts = any (λ kn. ltb_ℤ limit kn.1) counts

abbrev pub is_none : List Finding → Bool
is_none [] = true
is_none (f ∷ fs) = false

stale_verdicts-is_none :
    (number : String → Option ℤ) (current threshold : ℤ) (events : List Seen)
    → is_none (stale_verdicts number current threshold events)
      ≡ not (any (is_stale number current threshold) events)
unfolding stale_verdicts
stale_verdicts-is_none number current threshold [] = refl
stale_verdicts-is_none number current threshold (ev ∷ events) =
    elim (Bool-cases (is_stale number current threshold ev)) [
      | inl e ↦ rw e refl
      | inr e ↦ rw e (stale_verdicts-is_none number current threshold events)
    ]

-- The number of a kind found, against the limit.
abbrev above : ℤ → Option (String × ℤ) → Bool
above limit none = false
above limit (some (k, n)) = ltb_ℤ limit n

most_common-bursts :
    (limit : ℤ) (counts : Counts) → above limit (most_common counts) ≡ bursts limit counts
unfolding most_common
most_common-bursts limit [] = refl
most_common-bursts limit ((k, n) ∷ counts) =
    go (most_common counts) (most_common-bursts limit counts)
  where
    go :
        (o : Option (String × ℤ))
        → above limit o ≡ bursts limit counts
        → above limit (elim o [
          | none ↦ some (k, n)
          | some best ↦ if leb_ℤ (best.1) n then some (k, n) else some best
        ])
          ≡ (ltb_ℤ limit n || bursts limit counts)
    go none h = ground arith
    go (some (k', n')) h = ground arith

is_none-append : (xs ys : List Finding) → is_none (xs ++ ys) ≡ (is_none xs && is_none ys)
is_none-append [] ys = refl
is_none-append (x ∷ xs) ys = refl

unread_burst-above :
    (limit : ℤ) (o : Option (String × ℤ)) → is_none (unread_burst limit o) ≡ not (above limit o)
unfolding unread_burst
unread_burst-above limit none = refl
unread_burst-above limit (some (k, n)) = elim (Bool-cases (ltb_ℤ limit n)) [
  | inl e ↦ rw e refl
  | inr e ↦ rw e refl
]

-- A triage verdict, if it is one, is at most the threshold of versions behind.
abbrev pub is_current : (String → Option ℤ) → ℤ → ℤ → Seen → Bool
is_current number current threshold ev =
    not (str_eq ev.kind "triage.verdict")
    || leb_ℤ (current +ℤ negated (vnum number ev.version)) threshold

-- The event's kind, but the audit's own, has at most `limit` events more than it had.
abbrev pub is_quiet : ℕ → Counts → List Seen → Seen → Bool
is_quiet limit prev events ev =
    str_eq ev.kind "audit.finding"
    || leb_ℤ (pos (occurrences ev.kind events) +ℤ negated (before prev ev.kind)) (pos limit)

not_or : (a b c d : Bool) → not a ≡ c → not b ≡ d → not (a || b) ≡ (c && d)
not_or a b c d h k = ground arith

not-ltb_ℤ : (a b : ℤ) → not (ltb_ℤ a b) ≡ leb_ℤ b a
not-ltb_ℤ a b = not-ltb (pos_part a + neg_part b) (pos_part b + neg_part a)
  where
    not-ltb : (m n : ℕ) → not (ltb m n) ≡ leb n m
    not-ltb m n = ground arith

not_behind : (b : Bool) (a x : ℤ) → not ((b || false) && ltb_ℤ a x) ≡ (not b || leb_ℤ x a)
not_behind true a x = not-ltb_ℤ a x
not_behind false a x = refl

stale-is_current :
    (number : String → Option ℤ) (current threshold : ℤ) (events : List Seen)
    → not (any (is_stale number current threshold) events)
      ≡ all (is_current number current threshold) events
unfolding is_stale
stale-is_current number current threshold [] = refl
stale-is_current number current threshold (ev ∷ events) =
    not_or _ _ _ _
      (not_behind (str_eq ev.kind "triage.verdict") threshold
        (current +ℤ negated (vnum number ev.version)))
      (stale-is_current number current threshold events)

-- The kinds whose totals have grown by more than the limit.
bursts-totals :
    (limit : ℕ) (prev : Counts) (events : List Seen)
    → bursts (pos limit) (growth prev (totals [] events))
      ≡ any
          (λ ev.
            not (str_eq ev.kind "audit.finding")
            && ltb_ℤ
                (pos limit)
                (before (totals [] events) ev.kind +ℤ negated (before prev ev.kind)))
          events
bursts-totals limit prev events =
    any-growth limit prev (totals [] events)
    ∙ any-before (λ k n. ltb_ℤ (pos limit) (n +ℤ negated (before prev k))) (totals [] events)
        (is_distinct-totals [] events refl)
    ∙ any-totals (λ k. ltb_ℤ (pos limit) (before (totals [] events) k +ℤ negated (before prev k)))
        [] events

bursts-is_quiet :
    (limit : ℕ) (prev : Counts) (events rest : List Seen)
    → not (
        any
          (λ ev.
            not (str_eq ev.kind "audit.finding")
            && ltb_ℤ
                (pos limit)
                (before (totals [] events) ev.kind +ℤ negated (before prev ev.kind)))
          rest)
      ≡ all (is_quiet limit prev events) rest
bursts-is_quiet limit prev events [] = refl
bursts-is_quiet limit prev events (ev ∷ rest) = elim (Bool-cases (str_eq ev.kind "audit.finding")) [
  | inl finding ↦ rw finding (bursts-is_quiet limit prev events rest)
  | inr other ↦
      rw (other, before-all ev.kind events other)
        (not_or _ _ _ _
          (not-ltb_ℤ (pos limit)
            (pos (occurrences ev.kind events) +ℤ negated (before prev ev.kind)))
          (bursts-is_quiet limit prev events rest))
]

leb_ℤ-refl : (a : ℤ) → leb_ℤ a a ≡ true
leb_ℤ-refl a = ground arith

leb_ℤ-total : (a b : ℤ) → leb_ℤ a b ≡ false → leb_ℤ b a ≡ true
leb_ℤ-total a b h = ground arith

-- The larger of two numbers is not below either.
at_least_both :
    (a b : ℤ) → let m = if leb_ℤ a b then b else a in (leb_ℤ b m ≡ true) × (leb_ℤ a m ≡ true)
at_least_both a b = elim (Bool-cases (leb_ℤ a b)) [
  | inl e ↦ rw e (leb_ℤ-refl b, e)
  | inr e ↦ rw e (leb_ℤ-total a b e, leb_ℤ-refl a)
]

-- An audit, with a limit that is not negative, gives no finding exactly when every triage verdict is
-- at most the threshold of versions behind the version that it writes to the cursor, and every kind of
-- event but the audit's own occurs among the events at most the limit more often than the last audit
-- counted it. That version is not below the version file's, nor below the last event's.
pub audit-is_clean :
    (number : String → Option ℤ) (filed threshold : ℤ) (limit : ℕ) (prev : Counts)
    (events : List Seen)
    → let after = audit number filed threshold (pos limit) prev events in
      (is_none after.found ≡ (
        all (is_current number after.version threshold) events
        && all (is_quiet limit prev events) events))
      × (leb_ℤ filed after.version ≡ true)
      × (leb_ℤ (last_version number filed events) after.version ≡ true)
unfolding audit findings
audit-is_clean number filed threshold limit prev events =
    let after = audit number filed threshold (pos limit) prev events in
    let bounds = at_least_both (last_version number filed events) filed in
    (
      is_none-append (stale_verdicts number after.version threshold events) _
          ∙ rw
              (
                stale_verdicts-is_none number after.version threshold events,
                unread_burst-above (pos limit) (most_common (growth prev after.kinds)),
                most_common-bursts (pos limit) (growth prev after.kinds),
                stale-is_current number after.version threshold events,
                bursts-totals limit prev events,
                bursts-is_quiet limit prev events events,
              )
              refl,
      bounds.0,
      bounds.1,
    )
