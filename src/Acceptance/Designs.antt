-- ===== src/Acceptance/Designs.antt =====
-- automation/scripts/accept-plans.py: the designs that a plan names, and its vague wording.
use Prim.Native.Nat.{ℕ, zero, suc, ◌-◌}
use hngh.Prelude.{
  Option, none, some, List, [], ◌∷◌, ◌++◌, Bool, true, false, not, ◌&&◌, ◌||◌, ◌==◌, if◌then◌else◌,
  take, length, any, map, select,
}
use hngh.Texts.{
  Text, codes, is_empty, same_text, later, starts, behind_prefix, run_of, past_run, is_lower,
  is_upper, is_digit, is_word_char, is_space,
}
use hngh.Router.Identity.{lower}

-- `[A-Za-z0-9._/-]`
abbrev pub in_path : ℕ → Bool
in_path c =
    is_lower c || is_upper c || is_digit c || c == b'.' || c == b'_' || c == b'/' || c == b'-'

abbrev pub or_longer : Option ℕ → Bool → Option ℕ
or_longer none true = some 3
or_longer none false = none
or_longer (some n) here = some (suc n)

-- The length of the longest part at the start that ends in `.md`.
unfoldable pub md_end : Text → Option ℕ
md_end [] = none
md_end (c ∷ t) = or_longer (md_end t) (starts (codes ".md") (c ∷ t))

abbrev pub path_of : Text → Option ℕ → Option Text
path_of run none = none
path_of run (some n) = some (codes "docs/design/" ++ take (suc n) run)

-- `[A-Za-z0-9._/-]+\.md` behind the directory: at least one character before the `.md`.
abbrev pub file_in : Text → Option Text
file_in [] = none
file_in (c ∷ run) = path_of (c ∷ run) (md_end run)

abbrev pub ref_at : Option Text → Option Text
ref_at none = none
ref_at (some t) = file_in (run_of in_path t)

-- `DESIGN_REF.findall(text)`; `skip` counts the characters of a match that are still to come.
unfoldable pub design_refs : ℕ → Text → List Text
design_refs skip [] = []
design_refs (suc skip) (c ∷ t) = design_refs skip t
design_refs zero (c ∷ t) = elim (ref_at (behind_prefix (codes "docs/design/") (c ∷ t))) [
  | none ↦ design_refs zero t
  | some ref ↦ ref ∷ design_refs (length ref - 1) t
]

-- Into a sorted list, once.
unfoldable pub insert_once : Text → List Text → List Text
insert_once x [] = x ∷ []
insert_once x (y ∷ ys) =
    let rest = insert_once x ys in
    if same_text x y then y ∷ ys else if later y x then x ∷ y ∷ ys else y ∷ rest

-- `sorted(set(texts))`
unfoldable pub sorted_set : List Text → List Text
sorted_set [] = []
sorted_set (x ∷ xs) = insert_once x (sorted_set xs)

-- `missing_designs(text)`, by what exists in the kernel's directory.
unfoldable pub missing_designs : (Text → Bool) → Text → List Text
missing_designs exists t = select (λ ref. not (exists ref)) (sorted_set (design_refs 0 t))

abbrev pub is_boundary : Text → Bool
is_boundary [] = true
is_boundary (c ∷ t) = not (is_word_char c)

-- The words stand at the start, with space between them and no word character behind them.
unfoldable pub phrase_at : List Text → Text → Bool
phrase_at [] t = is_boundary t
phrase_at (word ∷ []) t = elim (behind_prefix word t) [
  | none ↦ false
  | some rest ↦ is_boundary rest
]
phrase_at (word ∷ next ∷ words) t = elim (behind_prefix word t) [
  | none ↦ false
  | some rest ↦
      not (is_empty (run_of is_space rest)) && phrase_at (next ∷ words) (past_run is_space rest)
]

abbrev pub vague_phrases : List (List Text)
vague_phrases =
    let lacks = codes "pending" ∷ codes "missing" ∷ codes "needed" ∷ codes "required" ∷ [] in
    map (λ lack. codes "design" ∷ lack ∷ []) lacks
    ++ map (λ lack. codes "design" ∷ codes "is" ∷ lack ∷ []) lacks
    ++ (codes "need" ∷ codes "a" ∷ codes "design" ∷ [])
      ∷ (codes "needs" ∷ codes "a" ∷ codes "design" ∷ [])
      ∷ (codes "no" ∷ codes "design" ∷ [])
      ∷ (codes "await" ∷ codes "design" ∷ [])
      ∷ (codes "awaits" ∷ codes "design" ∷ [])
      ∷ (codes "await" ∷ codes "a" ∷ codes "design" ∷ [])
      ∷ (codes "awaits" ∷ codes "a" ∷ codes "design" ∷ [])
      ∷ []

-- `DESIGN_VAGUE.search(text)` in lower case; `inside` says that a word character stands before.
unfoldable pub vague_in : Bool → Text → Bool
vague_in inside [] = false
vague_in inside (c ∷ t) =
    (not inside && any (λ phrase. phrase_at phrase (c ∷ t)) vague_phrases)
    || vague_in (is_word_char c) t

unfoldable pub is_vague : Text → Bool
is_vague t = vague_in false (lower t)
