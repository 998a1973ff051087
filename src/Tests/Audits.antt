-- ===== src/Tests/Audits.antt =====
-- An audit of three events.
use hngh.Prelude.{
  String, Option, some, List, [], ◌∷◌, ◌&&◌, all, ◌≡◌, refl, ℤ, pos, ◌+ℤ◌, leb_ℤ, true, str_eq,
  if◌then◌else◌,
}
use hngh.Ng.Watch.{Seen, stale, burst, last_version, audit}
use hngh.Ng.Watch.Clean.{is_none, is_current, is_quiet, audit-is_clean}

abbrev number : String → Option ℤ
number s = if str_eq s "v00000001" then some (pos 1) else some (pos 100)

abbrev seen : String → String → Seen
seen kind version = record { kind = kind; version = version }

abbrev events : List Seen
events =
    seen "triage.verdict" "v00000001"
    ∷ seen "triage.verdict" "v00000100"
    ∷ seen "bead.changed" "v00000100"
    ∷ []

audit_runs :
    ((audit number (pos 7) (pos 50) (pos 100) [] events).found
      ≡ stale "triage.verdict" "v00000001" (pos 100) ∷ [])
    × ((audit number (pos 7) (pos 500) (pos 1) [] events).found
        ≡ burst "triage.verdict" (pos 2) ∷ [])
    × ((audit number (pos 7) (pos 500) (pos 1) (("triage.verdict", pos 1) ∷ []) events).found ≡ [])
unfolding audit ◌+ℤ◌
audit_runs = (refl, refl, refl)

-- The first verdict is behind the version file by more than 50 versions.
audit-is_clean_example :
    let after = audit number (pos 7) (pos 50) (pos 100) [] events in
    (is_none after.found ≡ (
      all (is_current number after.version (pos 50)) events && all (is_quiet 100 [] events) events))
    × (leb_ℤ (pos 7) after.version ≡ true)
    × (leb_ℤ (last_version number (pos 7) events) after.version ≡ true)
audit-is_clean_example = audit-is_clean number (pos 7) (pos 50) 100 [] events
