-- ===== src/FilingBudget.antt =====
-- automation/lib/filing_budget.py: one filing per cause and day, and filings about filings.
pub mod Once
use hngh.Prelude.{
  ℕ, Option, none, some, List, [], ◌∷◌, ◌++◌, Bool, true, false, not, ◌&&◌, ◌||◌, ◌==◌, any,
  if◌then◌else◌,
}
use hngh.Texts.{Text, is_empty, same_text, starts, occurs, collapse, split, is_lower, is_digit}

-- `str.lower` and `str.strip`.
pub record Host : Type 0 where
  pub lower : Text → Text
  pub strip : Text → Text

-- `[a-z0-9]`
abbrev pub is_slug : ℕ → Bool
is_slug c = is_lower c || is_digit c

unfoldable pub lstrip_dash : Text → Text
lstrip_dash [] = []
lstrip_dash (c ∷ t) = let rest = lstrip_dash t in if c == b'-' then rest else c ∷ t

unfoldable pub rstrip_dash : Text → Text
rstrip_dash [] = []
rstrip_dash (c ∷ t) =
    let rest = rstrip_dash t in if is_empty rest && c == b'-' then [] else c ∷ rest

-- `norm_slug(text)`
unfoldable pub norm_slug : Host → Text → Text
unfolding collapse lstrip_dash rstrip_dash
norm_slug h text = rstrip_dash (lstrip_dash (collapse is_slug false (h.lower text)))

-- The counter file: its lines, or `none` where it cannot be read.
abbrev pub Counter : Type 0
Counter = Option (List Text)

abbrev pub lines_of : Counter → List Text
lines_of none = []
lines_of (some lines) = lines

-- The day of a row of this key.
unfoldable pub day_of : Text → List Text → Option Text
unfolding same_text
day_of key (k ∷ day ∷ []) = if same_text k key && not (is_empty day) then some day else none
day_of key _ = none

-- The later of two days found, where there is one.
unfoldable pub latest : Option Text → Option Text → Option Text
latest none earlier = earlier
latest (some day) earlier = some day

-- The day in the last row of this key.
unfoldable pub last_day : Text → List Text → Option Text
unfolding day_of split latest
last_day key [] = none
last_day key (line ∷ lines) = latest (last_day key lines) (day_of key (split b'\t' line))

-- `"%s:%s" % (family, token)`
abbrev pub key_of : Text → Text → Text
key_of family token = family ++ b':' ∷ token

-- `last == day`
unfoldable pub is_day : Option Text → Text → Bool
unfolding same_text
is_day none day = false
is_day (some last) day = same_text last day

-- `allow(family, cause, state_dir, today)`, where the family holds no line break.
unfoldable pub allow : Host → Text → Text → Text → Counter → Bool × Counter
unfolding norm_slug last_day is_day
allow h family cause day counter =
    let token = norm_slug h cause in
    let key = key_of family token in
    if is_empty family || is_empty token
    then (true, counter)
    else if is_day (last_day key (lines_of counter)) day
    then (false, counter)
    else (true, some (lines_of counter ++ (key ++ b'\t' ∷ day) ∷ []))

-- The third column holds the text.
unfoldable pub verdict_holds : Host → Text → List Text → Bool
unfolding occurs
verdict_holds h text (a ∷ b ∷ verdict ∷ more) = occurs text (h.lower verdict)
verdict_holds h text _ = false

unfoldable pub is_header : Text → Bool
unfolding starts
is_header line = starts (b'l' ∷ b'i' ∷ b'n' ∷ b'e' ∷ b'\t' ∷ []) line

-- The rows behind a header in the first line.
unfoldable pub rows : List Text → List Text
unfolding is_header
rows [] = []
rows (line ∷ lines) = if is_header line then lines else line ∷ lines

-- `is_disposition_text(text, disp_path)`
unfoldable pub is_disposition_text : Host → Text → Counter → Bool
unfolding rows verdict_holds split
is_disposition_text h text dispositions =
    let wanted = h.lower (h.strip text) in
    not (is_empty wanted)
    && any (λ line. verdict_holds h wanted (split b'\t' line)) (rows (lines_of dispositions))
