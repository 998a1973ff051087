-- ===== src/Ng/Watch.antt =====
-- automation/ng/watch.py: the audit of the ledger's events.
mod Totals
pub mod Clean
use hngh.Prelude.{
  ℕ, ◌+◌, String, Option, none, some, List, [], ◌∷◌, ◌++◌, Bool, true, false, ◌&&◌, str_eq,
  contains, if◌then◌else◌, ℤ, pos, negsuc, ◌+ℤ◌, sub_ℕ, ltb_ℤ, leb_ℤ,
}

-- An event's kind, and its version as a text.
pub record Seen : Type 0 where
  pub kind : String
  pub version : String

-- The findings of an audit.
pub data Finding : Type 0 where
  stale : (kind event_version : String) (current : ℤ) → Finding
  burst : (kind : String) (count : ℤ) → Finding

abbrev pub stale_threshold : ℤ
stale_threshold = pos 50

abbrev pub burst_limit : ℤ
burst_limit = pos 100

abbrev pub pending_stale_kinds : List String
pending_stale_kinds = "triage.verdict" ∷ []

abbrev pub negated : ℤ → ℤ
negated (pos n) = sub_ℕ 0 n
negated (negsuc n) = pos (n + 1)

-- `_vnum(v)`, where `number` is `int(v.lstrip("v"))`.
unfoldable pub vnum : (String → Option ℤ) → String → ℤ
vnum number v = elim (number v) [ none ↦ pos 0 | some n ↦ n ]

-- Whether `stale_verdict` gives a finding.
unfoldable pub is_stale : (String → Option ℤ) → ℤ → ℤ → Seen → Bool
unfolding vnum
is_stale number current threshold ev =
    contains pending_stale_kinds ev.kind
    && ltb_ℤ threshold (current +ℤ negated (vnum number ev.version))

-- The findings of `stale_verdict` over the events.
unfoldable pub stale_verdicts : (String → Option ℤ) → ℤ → ℤ → List Seen → List Finding
unfolding is_stale
stale_verdicts number current threshold [] = []
stale_verdicts number current threshold (ev ∷ events) =
    let rest = stale_verdicts number current threshold events in
    if is_stale number current threshold ev then stale ev.kind ev.version current ∷ rest else rest

abbrev pub Counts : Type 0
Counts = List (String × ℤ)

-- `counter[kind] += 1`, in the order in which the kinds come first.
unfoldable pub count : String → Counts → Counts
count kind [] = (kind, pos 1) ∷ []
count kind ((k, n) ∷ counts) =
    let rest = count kind counts in
    if str_eq k kind then (k, n +ℤ pos 1) ∷ counts else (k, n) ∷ rest

-- The totals of every kind but the findings.
unfoldable pub totals : Counts → List Seen → Counts
unfolding count
totals counts [] = counts
totals counts (ev ∷ events) =
    totals (if str_eq ev.kind "audit.finding" then counts else count ev.kind counts) events

-- `prev.get(kind, 0)`
unfoldable pub before : Counts → String → ℤ
before [] kind = pos 0
before ((k, n) ∷ prev) kind = let rest = before prev kind in if str_eq k kind then n else rest

-- The growth of each kind since the last audit, where there is one.
unfoldable pub growth : Counts → Counts → Counts
unfolding before
growth prev [] = []
growth prev ((k, n) ∷ counts) =
    let rest = growth prev counts in
    let more = n +ℤ negated (before prev k) in if ltb_ℤ (pos 0) more then (k, more) ∷ rest else rest

-- `counts.most_common(1)`: the first of the largest.
unfoldable pub most_common : Counts → Option (String × ℤ)
most_common [] = none
most_common ((k, n) ∷ counts) = elim (most_common counts) [
  | none ↦ some (k, n)
  | some best ↦ if leb_ℤ (best.1) n then some (k, n) else some best
]

-- `unread_burst(counts, limit, current)`
unfoldable pub unread_burst : ℤ → Option (String × ℤ) → List Finding
unread_burst limit none = []
unread_burst limit (some (k, n)) = if ltb_ℤ limit n then burst k n ∷ [] else []

-- The findings of `audit`, where `current` is the larger of the last event's version and the version
-- file's, and `prev` the totals in the cursor file.
unfoldable pub findings : (String → Option ℤ) → ℤ → ℤ → ℤ → Counts → List Seen → List Finding
unfolding stale_verdicts unread_burst most_common growth totals
findings number current threshold limit prev events =
    stale_verdicts number current threshold events
    ++ unread_burst limit (most_common (growth prev (totals [] events)))

-- The version of the last event, and `fallback` where there is none.
unfoldable pub last_version : (String → Option ℤ) → ℤ → List Seen → ℤ
unfolding vnum
last_version number fallback [] = fallback
last_version number fallback (ev ∷ []) = vnum number ev.version
last_version number fallback (ev ∷ e ∷ events) = last_version number fallback (e ∷ events)

-- What an audit returns, and what it writes to the cursor file.
pub record Audit : Type 0 where
  pub found : List Finding
  pub kinds : Counts
  pub version : ℤ

-- `audit(events, threshold, limit)`, where `filed` is the version in the version file.
unfoldable pub audit : (String → Option ℤ) → ℤ → ℤ → ℤ → Counts → List Seen → Audit
unfolding findings totals last_version
audit number filed threshold limit prev events =
    let last = last_version number filed events in
    let current = if leb_ℤ last filed then filed else last in
    record {
      found = findings number current threshold limit prev events;
      kinds = totals [] events;
      version = current;
    }
