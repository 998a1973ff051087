-- ===== src/Candidate.antt =====
-- scripts/verify-candidate.py: the evidence for a candidate manifest. The manifest and the test marker.
pub mod Content
pub mod Evidence
pub mod Passes
pub mod Manifest
use Prim.Native.Nat.{ℕ}
use hngh.Prelude.{
  ◌⊎◌, inl, inr, Option, none, some, List, [], ◌∷◌, ◌++◌, map, select, Bool, true, false, not, ◌&&◌,
  ◌||◌, ◌==◌, any, if◌then◌else◌, sorted, drop,
}
use hngh.Texts.{
  Text, codes, is_empty, same_text, holds, later, starts, before, behind, past_run, split, is_space,
}

-- A result, or the text of an error.
abbrev pub Result {ℓ} : Type ℓ → Type ℓ
Result A = Text ⊎ A

-- What the file system and git say of a path: `ignored` is `git check-ignore`, `content` the text as
-- UTF-8, and `bytes` the bytes.
pub record View : Type 0 where
  pub exists : Bool
  pub symlink : Bool
  pub regular : Bool
  pub ignored : Result Bool
  pub content : Result Text
  pub bytes : Result Text

-- What a run reads from outside.
pub record Env : Type 0 where
  pub view : Text → View
  pub manifest : Result Text
  -- `git rev-parse HEAD` and `git status --porcelain=v1 --untracked-files=all`
  pub head : Result Text
  pub porcelain : Result Text
  -- Whether a link's target, relative to the file that names it, exists within the repository.
  pub resolves : Text → Text → Bool
  -- `scripts/lint-parens.py` on these files, and `make test`: the error of a command that fails.
  pub lint : List Text → Option Text
  pub make_test : Option Text
  -- `hashlib.sha256(...).hexdigest()`, `str.strip`, and the directory and the name before a marker.
  pub sha256 : Text → Text
  pub strip : Text → Text
  pub marker_prefix : Text

-- A line break of `str.splitlines`, in ASCII.
abbrev pub is_break : ℕ → Bool
is_break c = c == 10 || c == 11 || c == 12 || c == 13 || c == 28 || c == 29 || c == 30

abbrev pub onto_first : ℕ → List Text → List Text
onto_first c [] = (c ∷ []) ∷ []
onto_first c (line ∷ lines) = (c ∷ line) ∷ lines

-- `text.splitlines()`, in a text without carriage returns.
unfoldable pub split_lines : Text → List Text
split_lines [] = []
split_lines (c ∷ t) =
    let rest = split_lines t in if is_break c then [] ∷ rest else onto_first c rest

abbrev pub at_most : Text → Text → Bool
at_most a b = not (later a b)

unfoldable pub same_texts : List Text → List Text → Bool
same_texts [] [] = true
same_texts (x ∷ xs) (y ∷ ys) = same_text x y && same_texts xs ys
same_texts _ _ = false

abbrev pub is_set : Result Bool → Bool
is_set (inl error) = false
is_set (inr b) = b

-- The test of a path that was ignored, or whose test failed.
abbrev pub ignored_error : Text → Result Bool → Option Text
ignored_error entry (inl error) = some error
ignored_error entry (inr true) = some (codes "candidate path is ignored: " ++ entry)
ignored_error entry (inr false) = none

-- The refusal of one entry, the entries before it being seen.
unfoldable pub entry_error : Env → List Text → Text → Option Text
entry_error e seen entry =
    if starts (codes "/") entry
    then some (codes "candidate path must be repository-relative: " ++ entry)
    else if holds (split b'/' entry) (codes "..")
    then some (codes "candidate path escapes repository: " ++ entry)
    else if starts (codes ".hermes/") entry
    then some (codes "candidate path is excluded: " ++ entry)
    else if holds seen entry
    then some (codes "duplicate candidate path: " ++ entry)
    else if not (e.view entry).exists
    then some (codes "candidate path does not exist: " ++ entry)
    else if (e.view entry).symlink
    then some (codes "candidate path is a symlink: " ++ entry)
    else if not (e.view entry).regular
    then some (codes "candidate path is not a regular file: " ++ entry)
    else ignored_error entry (e.view entry).ignored

abbrev pub or_error : Option Text → Option Text → Option Text
or_error none other = other
or_error (some error) other = some error

unfoldable pub entries_error : Env → List Text → List Text → Option Text
entries_error e seen [] = none
entries_error e seen (entry ∷ entries) =
    or_error (entry_error e seen entry) (entries_error e (entry ∷ seen) entries)

-- `validate_entries(entries)`
unfoldable pub validate_entries : Env → List Text → Option Text
validate_entries e entries =
    if same_texts entries (sorted at_most entries)
    then entries_error e [] entries
    else some (codes "candidate manifest is not sorted")

abbrev pub or_entries : List Text → Option Text → Result (List Text)
or_entries entries none = inr entries
or_entries entries (some error) = inl error

abbrev pub validated : Env → List Text → Result (List Text)
validated e [] = inl (codes "candidate manifest is empty")
validated e (entry ∷ entries) = or_entries (entry ∷ entries) (validate_entries e (entry ∷ entries))

abbrev pub manifest_of : Env → Result Text → Result (List Text)
manifest_of e (inl error) = inl (codes "cannot read candidate manifest: " ++ error)
manifest_of e (inr t) = validated e (select (λ entry. not (is_empty entry)) (split_lines t))

-- `read_manifest(path)`
unfoldable pub read_manifest : Env → Result (List Text)
read_manifest e = manifest_of e e.manifest

-- The texts with a separator between them.
unfoldable pub joined_by : Text → List Text → Text
joined_by separator [] = []
joined_by separator (x ∷ []) = x
joined_by separator (x ∷ y ∷ ys) = x ++ separator ++ joined_by separator (y ∷ ys)

-- The tracked rows of the working tree, sorted, without those of the candidate.
unfoldable pub other_rows : Text → List Text
other_rows porcelain =
    let tracked = sorted at_most (
      select (λ line. not (is_empty line) && not (starts (codes "??") line))
        (split_lines porcelain)) in
    let candidates = map (drop 3) tracked in
    select (λ line. not (holds candidates (drop 3 line))) tracked

-- `fast_test_marker(base_revision, candidate_hash_value, state)`
unfoldable pub fast_test_marker : Env → Text → Text → Text
fast_test_marker e hash porcelain =
    let key = hash ++ codes "|" ++ joined_by (codes "/") (sorted at_most (other_rows porcelain)) in
    e.marker_prefix ++ codes "-" ++ e.sha256 key ++ codes ".ok"

-- The name and the value of a line with a colon.
abbrev pub field_of : Env → Text → Option Text → List (Text × Text)
field_of e line none = []
field_of e line (some value) = (e.strip (before (codes ":") line), e.strip value) ∷ []

unfoldable pub marker_fields : Env → List Text → List (Text × Text)
marker_fields e [] = []
marker_fields e (line ∷ lines) = field_of e line (behind (codes ":") line) ++ marker_fields e lines

-- The value of the last field of this name.
unfoldable pub last_field : Text → List (Text × Text) → Option Text
last_field name [] = none
last_field name ((key, value) ∷ fields) = elim (last_field name fields) [
  | some found ↦ some found
  | none ↦ if same_text key name then some value else none
]

abbrev pub is_value : Option Text → Text → Bool
is_value none t = false
is_value (some value) t = same_text value t

-- A marker file's content, `none` where it cannot be read.
unfoldable pub fast_test_passes : Env → Option Text → Text → Bool
fast_test_passes e none hash = false
fast_test_passes e (some contents) hash =
    let fields = marker_fields e (split_lines contents) in
    is_value (last_field (codes "candidate-hash") fields) hash
    && is_value (last_field (codes "rc") fields) (codes "0")
