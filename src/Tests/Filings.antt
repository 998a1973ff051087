-- ===== src/Tests/Filings.antt =====
-- Filings of one cause on two days.
use hngh.Prelude.{some, [], ◌∷◌, true, false, not, ◌≡◌, refl, ◌⊎◌}
use hngh.FilingBudget.{
  Host, Counter, norm_slug, lines_of, last_day, is_day, key_of, allow, is_disposition_text,
}
use hngh.FilingBudget.Once.{allow-once, allow-again}
use hngh.Texts.{Text, codes, same_text}

abbrev host : Host
host = record { lower = λ t. t; strip = λ t. t }

abbrev monday : Text
monday = codes "2026-10-05"

abbrev counter : Counter
counter = some (codes "fail:disk-full\t2026-10-04" ∷ codes "fail:net\t2026-10-05" ∷ [])

filing_runs :
    (norm_slug host (codes "-- disk/ full!") ≡ codes "disk-full")
    × (allow host (codes "fail") (codes "disk full") monday counter ≡ (
      true,
      some (
          codes "fail:disk-full\t2026-10-04"
          ∷ codes "fail:net\t2026-10-05"
          ∷ codes "fail:disk-full\t2026-10-05"
          ∷ []),
    ))
    × (allow host (codes "fail") (codes "net") monday counter ≡ (false, counter))
    × (is_disposition_text host
          (codes "moot")
          (some (codes "line\taction\tmoot" ∷ codes "l1\tkilled\tso moot now" ∷ []))
        ≡ true)
unfolding norm_slug allow is_disposition_text
filing_runs = (refl, refl, refl, refl)

allow-once_example :
    let after = allow host (codes "fail") (codes "disk full") monday counter in
    let key = key_of (codes "fail") (norm_slug host (codes "disk full")) in
    (is_day (last_day key (lines_of after.1)) monday ≡ true)
    × (after.0 ≡ not (is_day (last_day key (lines_of counter)) monday))
    × ((same_text key (codes "fail:net") ≡ true)
        ⊎ (last_day (codes "fail:net") (lines_of after.1)
            ≡ last_day (codes "fail:net") (lines_of counter)))
unfolding norm_slug
allow-once_example =
    allow-once host (codes "fail") (codes "disk full") monday refl refl refl counter
      (codes "fail:net") refl refl

allow-again_example :
    let after = (allow host (codes "fail") (codes "net") monday counter).1 in
    allow host (codes "fail") (codes "net") monday after ≡ (false, after)
unfolding norm_slug
allow-again_example =
    allow-again host (codes "fail") (codes "net") monday refl refl refl counter refl refl
