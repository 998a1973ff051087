-- ===== src/FilingBudget/Once.antt =====
-- automation/lib/filing_budget.py: `allow` grants one filing of a cause per day.
use hngh.Prelude.{
  ◌≡◌, refl, sym, ◌∙◌, Option, none, some, List, [], ◌∷◌, ◌++◌, Bool, true, false, not, ◌==◌, any,
  any-append, arith, Bool-cases, inl, inr, ◌⊎◌,
}
use hngh.FilingBudget.{
  Host, is_slug, lstrip_dash, rstrip_dash, norm_slug, Counter, lines_of, day_of, last_day, key_of,
  is_day, allow, latest,
}
use hngh.Texts.{Text, is_empty, same_text, same_text_refl, collapse, first_part, more_parts, split}

-- The text has a tab.
abbrev pub tabbed : Text → Bool
tabbed t = any (◌==◌ b'\t') t

tabbed-collapse : (in_run : Bool) (t : Text) → tabbed (collapse is_slug in_run t) ≡ false
unfolding collapse
tabbed-collapse in_run [] = refl
tabbed-collapse true (c ∷ t) = ground (arith, tabbed-collapse (not (is_slug c)) t)
tabbed-collapse false (c ∷ t) = ground (arith, tabbed-collapse (not (is_slug c)) t)

tabbed-lstrip_dash : (t : Text) → tabbed t ≡ false → tabbed (lstrip_dash t) ≡ false
unfolding lstrip_dash
tabbed-lstrip_dash [] h = refl
tabbed-lstrip_dash (c ∷ t) h = ground (arith, tabbed-lstrip_dash t)

tabbed-rstrip_dash : (t : Text) → tabbed t ≡ false → tabbed (rstrip_dash t) ≡ false
unfolding rstrip_dash
tabbed-rstrip_dash [] h = refl
tabbed-rstrip_dash (c ∷ t) h = ground (arith, tabbed-rstrip_dash t)

tabbed-norm_slug : (h : Host) (t : Text) → tabbed (norm_slug h t) ≡ false
unfolding norm_slug
tabbed-norm_slug h t =
    tabbed-rstrip_dash (lstrip_dash (collapse is_slug false (h.lower t)))
      (tabbed-lstrip_dash (collapse is_slug false (h.lower t)) (tabbed-collapse false (h.lower t)))

first_part-plain : (t : Text) → tabbed t ≡ false → first_part b'\t' t ≡ t
unfolding first_part
first_part-plain [] h = refl
first_part-plain (c ∷ t) h = ground (arith, first_part-plain t)

more_parts-plain : (t : Text) → tabbed t ≡ false → more_parts b'\t' t ≡ []
unfolding more_parts
more_parts-plain [] h = refl
more_parts-plain (c ∷ t) h = ground (arith, more_parts-plain t)

first_part-row : (k d : Text) → tabbed k ≡ false → first_part b'\t' (k ++ b'\t' ∷ d) ≡ k
unfolding first_part
first_part-row [] d h = ground arith
first_part-row (c ∷ k) d h = ground (arith, first_part-row k d)

more_parts-row :
    (k d : Text)
    → tabbed k ≡ false
    → more_parts b'\t' (k ++ b'\t' ∷ d) ≡ first_part b'\t' d ∷ more_parts b'\t' d
unfolding more_parts
more_parts-row [] d h = ground arith
more_parts-row (c ∷ k) d h = ground (arith, more_parts-row k d)

-- A row that was written is read back as its key and its day.
split-row :
    (k d : Text) → tabbed k ≡ false → tabbed d ≡ false → split b'\t' (k ++ b'\t' ∷ d) ≡ k ∷ d ∷ []
unfolding split
split-row k d h e =
    rw (first_part-row k d h, more_parts-row k d h, first_part-plain d e, more_parts-plain d e) refl

latest_assoc : (o p q : Option Text) → latest (latest o p) q ≡ latest o (latest p q)
unfolding latest
latest_assoc none p q = refl
latest_assoc (some day) p q = refl

latest-none : (o : Option Text) → latest o none ≡ o
unfolding latest
latest-none none = refl
latest-none (some day) = refl

last_day-snoc :
    (key : Text) (lines : List Text) (line : Text)
    → last_day key (lines ++ line ∷ [])
      ≡ latest (day_of key (split b'\t' line)) (last_day key lines)
unfolding last_day
last_day-snoc key [] line = sym (latest-none (day_of key (split b'\t' line)))
last_day-snoc key (l ∷ lines) line =
    rw (last_day-snoc key lines line) (
      latest_assoc (day_of key (split b'\t' line)) (last_day key lines)
        (day_of key (split b'\t' l)))

-- What a row of one key and a day says of a key.
day_of-own : (key day : Text) → is_empty day ≡ false → day_of key (key ∷ day ∷ []) ≡ some day
unfolding day_of
day_of-own key day h = rw (same_text_refl key, h) refl

day_of-other :
    (key other day : Text) → same_text key other ≡ false → day_of other (key ∷ day ∷ []) ≡ none
unfolding day_of
day_of-other key other day h = rw h refl

module _ (h : Host) (family cause day : Text) (plain_family : tabbed family ≡ false)
    (plain_day : tabbed day ≡ false) (dated : is_empty day ≡ false) where
  abbrev pub key : Text
  key = key_of family (norm_slug h cause)

  written : split b'\t' (key ++ b'\t' ∷ day) ≡ key ∷ day ∷ []
  written = split-row key day plain_key plain_day
    where
      plain_key : tabbed key ≡ false
      plain_key = ground (
        arith,
        any-append (◌==◌ b'\t') family (b':' ∷ norm_slug h cause),
        tabbed-norm_slug h cause,
      )

  row : Text
  row = key ++ b'\t' ∷ day

  row-own : (lines : List Text) → last_day key (lines ++ row ∷ []) ≡ some day
  unfolding row latest
  row-own lines = last_day-snoc key lines row ∙ rw (written, day_of-own key day dated) refl

  row-other :
      (lines : List Text) (other : Text)
      → (same_text key other ≡ true) ⊎ (last_day other (lines ++ row ∷ []) ≡ last_day other lines)
  unfolding row latest
  row-other lines other = elim (Bool-cases (same_text key other)) [
    | inl e ↦ inl e
    | inr e ↦ inr (last_day-snoc other lines row ∙ rw (written, day_of-other key other day e) refl)
  ]

  -- For a family and a cause that can be named, in texts without tabs: `allow` says True exactly when
  -- the last row of the key is not of this day; behind it the last row of the key is of this day, and
  -- the last row of every other key is what it was.
  pub allow-once :
      (counter : Counter) (other : Text)
      → is_empty family ≡ false
      → is_empty (norm_slug h cause) ≡ false
      → let after = allow h family cause day counter in
        (is_day (last_day key (lines_of after.1)) day ≡ true)
        × (after.0 ≡ not (is_day (last_day key (lines_of counter)) day))
        × ((same_text key other ≡ true)
            ⊎ (last_day other (lines_of after.1) ≡ last_day other (lines_of counter)))
  unfolding allow row
  allow-once counter other named token =
      elim (Bool-cases (is_day (last_day key (lines_of counter)) day)) [
        | inl e ↦ rw (named, token, e) (e, refl, inr refl)
        | inr e ↦
            rw (named, token, e)
              (
                rw (row-own (lines_of counter)) (unfold is_day in same_text_refl day),
                refl,
                row-other (lines_of counter) other,
              )
      ]

  pub allow-refused :
      (counter : Counter)
      → is_empty family ≡ false
      → is_empty (norm_slug h cause) ≡ false
      → is_day (last_day key (lines_of counter)) day ≡ true
      → allow h family cause day counter ≡ (false, counter)
  unfolding allow
  allow-refused counter named token e = rw (named, token, e) refl

  -- A second filing of the cause on the same day is refused, and the counter stays as it is.
  pub allow-again :
      (counter : Counter)
      → is_empty family ≡ false
      → is_empty (norm_slug h cause) ≡ false
      → let after = (allow h family cause day counter).1 in
        allow h family cause day after ≡ (false, after)
  allow-again counter named token =
      let filed = (allow-once counter key named token).0 in
      allow-refused (allow h family cause day counter).1 named token filed
