-- ===== src/Texts.antt =====
-- Texts as lists of code points, and the string functions that the sources share.
pub mod Decimal
use Prim.Native.Char.{code}
use Prim.Native.Nat.{compare, Ordering}
use Prim.Native.String.{String}
use hngh.Prelude.{
  ℕ, ◌≡◌, refl, ◌↔◌, Option, none, some, List, [], ◌∷◌, ◌++◌, Bool, true, false, not, ◌&&◌, ◌||◌,
  ◌==◌, leb, any, if◌then◌else◌, arith,
}

-- A text is its list of code points.
abbrev pub Text : Type 0
Text = List ℕ

-- The code points of a literal.
abbrev pub codes : String → Text
codes String.[] = []
codes (String.◌∷◌ c s) = code c ∷ codes s

abbrev pub is_empty : Text → Bool
is_empty [] = true
is_empty (c ∷ t) = false

unfoldable pub same_text : Text → Text → Bool
same_text [] [] = true
same_text (c ∷ s) (d ∷ t) = c == d && same_text s t
same_text _ _ = false

-- `text in texts`
unfoldable pub holds : List Text → Text → Bool
unfolding same_text
holds texts text = any (same_text text) texts

-- `a > b`, by code points.
unfoldable pub later : Text → Text → Bool
later [] t = false
later (c ∷ s) [] = true
later (c ∷ s) (d ∷ t) = elim (compare c d) [
  | Ordering.gt ↦ true
  | Ordering.eq ↦ later s t
  | Ordering.lt ↦ false
]

-- `text[len(prefix):]`, where the text starts so.
unfoldable pub behind_prefix : Text → Text → Option Text
behind_prefix [] t = some t
behind_prefix (c ∷ s) [] = none
behind_prefix (c ∷ s) (d ∷ t) = let rest = behind_prefix s t in if c == d then rest else none

unfoldable pub starts : Text → Text → Bool
starts [] t = true
starts (c ∷ s) [] = false
starts (c ∷ s) (d ∷ t) = c == d && starts s t

-- `s in t`
unfoldable pub occurs : Text → Text → Bool
unfolding starts
occurs s [] = is_empty s
occurs s (d ∷ t) = starts s (d ∷ t) || occurs s t

-- The text before the first occurrence, and the text behind it, where there is one.
unfoldable pub before : Text → Text → Text
unfolding starts
before s [] = []
before s (d ∷ t) = let rest = before s t in if starts s (d ∷ t) then [] else d ∷ rest

unfoldable pub behind : Text → Text → Option Text
unfolding behind_prefix
behind s [] = behind_prefix s []
behind s (d ∷ t) =
    let rest = behind s t in
    elim (behind_prefix s (d ∷ t)) [ some found ↦ some found | none ↦ rest ]

-- The longest part at the start whose characters pass the test, and what is behind it.
unfoldable pub run_of : (ℕ → Bool) → Text → Text
run_of p [] = []
run_of p (c ∷ t) = let rest = run_of p t in if p c then c ∷ rest else []

unfoldable pub past_run : (ℕ → Bool) → Text → Text
past_run p [] = []
past_run p (c ∷ t) = let rest = past_run p t in if p c then rest else c ∷ t

-- `re.sub("[^...]+", "-", text)` for the characters kept; `in_run` says that the last was replaced.
unfoldable pub collapse : (ℕ → Bool) → Bool → Text → Text
collapse keep in_run [] = []
collapse keep in_run (c ∷ t) =
    let rest = collapse keep (not (keep c)) t in
    if keep c then c ∷ rest else if in_run then rest else b'-' ∷ rest

-- `text.split(separator)`: the first part, and the others.
unfoldable pub first_part : ℕ → Text → Text
first_part separator [] = []
first_part separator (c ∷ t) =
    let rest = first_part separator t in if c == separator then [] else c ∷ rest

unfoldable pub more_parts : ℕ → Text → List Text
unfolding first_part
more_parts separator [] = []
more_parts separator (c ∷ t) =
    let rest = more_parts separator t in
    if c == separator then first_part separator t ∷ rest else rest

unfoldable pub split : ℕ → Text → List Text
unfolding first_part more_parts
split separator t = first_part separator t ∷ more_parts separator t

-- Character classes of ASCII texts: `\w`, `\d` and `\s`.
abbrev pub is_lower : ℕ → Bool
is_lower c = leb b'a' c && leb c b'z'

abbrev pub is_upper : ℕ → Bool
is_upper c = leb b'A' c && leb c b'Z'

abbrev pub is_digit : ℕ → Bool
is_digit c = leb b'0' c && leb c b'9'

abbrev pub is_word_char : ℕ → Bool
is_word_char c = is_lower c || is_upper c || is_digit c || c == b'_'

abbrev pub is_space : ℕ → Bool
is_space c = c == 32 || (leb 9 c && leb c 13) || (leb 28 c && leb c 31)

pub same_text_refl : (t : Text) → same_text t t ≡ true
unfolding same_text
same_text_refl [] = refl
same_text_refl (c ∷ t) = ground (arith, same_text_refl t)

pub same_text-eq : (s t : Text) → same_text s t ≡ true → s ≡ t
unfolding same_text
same_text-eq [] [] h = refl
same_text-eq [] (d ∷ t) h = cc
same_text-eq (c ∷ s) [] h = cc
same_text-eq (c ∷ s) (d ∷ t) h = ground (arith, same_text-eq s t)

-- For `ground`, at the pair of texts that is compared.
pub same_text_iff : (s t : Text) → (same_text s t ≡ true) ↔ (s ≡ t)
same_text_iff s t = (same_text-eq s t, λ e. rw e (same_text_refl t))
