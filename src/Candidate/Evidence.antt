-- ===== src/Candidate/Evidence.antt =====
-- scripts/verify-candidate.py: the working tree, the hash, the cached test and main.
use Prim.Native.Nat.{ℕ}
use hngh.Prelude.{
  inl, inr, Option, none, some, List, [], ◌∷◌, ◌++◌, map, select, Bool, true, false, not, ◌||◌,
  ◌==◌, any, if◌then◌else◌,
}
use hngh.Texts.{Text, codes, same_text, starts}
use hngh.Candidate.{Result, Env, split_lines, read_manifest, fast_test_marker, fast_test_passes}
use hngh.Candidate.Content.{
  has_path_suffix, dependency_error, public_content_error, whitespace_scan_error,
  relative_link_error,
}

-- The marker files: names and contents.
abbrev pub Markers : Type 0
Markers = List (Text × Text)

-- The exit code, the lines that are printed, and the marker files.
pub record Outcome : Type 0 where
  pub code : ℕ
  pub printed : List Text
  pub markers : Markers

unfoldable pub marker_at : Text → Markers → Option Text
marker_at name [] = none
marker_at name ((key, contents) ∷ markers) =
    let rest = marker_at name markers in if same_text key name then some contents else rest

-- `write_fast_test_marker(...)`; `lasted` is the duration.
unfoldable pub write_marker : Text → Text → Text → Text → Text → Markers → Markers
write_marker marker base hash rc lasted markers =
    (
      marker,
      codes "base-revision: "
          ++ base
          ++ codes "\ncandidate-hash: "
          ++ hash
          ++ codes "\nrc: "
          ++ rc
          ++ codes "\nduration: "
          ++ lasted
          ++ codes "\n",
    )
    ∷ select (λ m. not (same_text m.0 marker)) markers

-- A refusal with its reason.
unfoldable pub refused : ℕ → Text → Text → Markers → Outcome
refused code error label markers = record {
  code = code;
  printed = error ∷ label ∷ [];
  markers = markers;
}

-- A check, and what follows when it finds nothing.
unfoldable pub checked : Option Text → Text → Markers → Outcome → Outcome
checked (some error) label markers next = refused 1 error label markers
checked none label markers next = next

abbrev pub prefixed : Text → Result Text → Result Text
prefixed t (inl error) = inl error
prefixed t (inr rest) = inr (t ++ rest)

abbrev pub entry_bytes : Text → Result Text → Result Text → Result Text
entry_bytes entry (inl error) rest = inl (codes "cannot read candidate: " ++ error)
entry_bytes entry (inr bytes) rest = prefixed (entry ++ 0 ∷ bytes ++ 0 ∷ []) rest

unfoldable pub all_bytes : Env → List Text → Result Text
all_bytes e [] = inr []
all_bytes e (entry ∷ entries) = entry_bytes entry (e.view entry).bytes (all_bytes e entries)

abbrev pub hashed : Env → Result Text → Result Text
hashed e (inl error) = inl error
hashed e (inr t) = inr (e.sha256 t)

-- `candidate_hash(entries)`
unfoldable pub candidate_hash : Env → List Text → Result Text
candidate_hash e entries = hashed e (all_bytes e entries)

abbrev pub lisp_files : List Text → List Text
lisp_files = select (has_path_suffix (codes ".lisp"))

abbrev pub guard_error : Env → List Text → Option Text
guard_error e [] = none
guard_error e (file ∷ files) = e.lint (file ∷ files)

-- `parenthesis_guard_error(entries)`: the error.
unfoldable pub parenthesis_guard_error : Env → List Text → Option Text
parenthesis_guard_error e entries = guard_error e (lisp_files entries)

abbrev pub says : Bool → Text → Text → Text
says true yes_text no_text = yes_text
says false yes_text no_text = no_text

unfoldable pub is_dirty : Text → Bool
is_dirty porcelain = elim (split_lines porcelain) [ [] ↦ false | row ∷ rows ↦ true ]

abbrev pub is_staged_row : Text → Bool
is_staged_row [] = true
is_staged_row (c ∷ row) = not (c == b' ' || c == b'?')

-- The evidence that is printed behind the test.
unfoldable pub evidence : Env → List Text → Text → Text → Text → List Text
evidence e entries base porcelain hash =
    (codes "base-revision: " ++ e.strip base)
      ∷ (codes "working-tree-dirty: " ++ says (is_dirty porcelain) (codes "yes") (codes "no"))
      ∷ (codes "working-tree-staged: "
          ++ says (any is_staged_row (split_lines porcelain)) (codes "yes") (codes "no"))
      ∷ (codes "working-tree-untracked: "
          ++ says (any (starts (codes "??")) (split_lines porcelain)) (codes "yes") (codes "no"))
      ∷ (codes "parenthesis-guard: "
          ++ says (any (has_path_suffix (codes ".lisp")) entries) (codes "passed")
              (codes "not-applicable"))
      ∷ codes "excluded-paths: .hermes/** (not admitted)"
      ∷ codes "dependency: passed"
      ∷ codes "public-content: passed"
      ∷ codes "whitespace: passed"
      ∷ codes "relative-links: passed"
      ∷ codes "fast-test: passed"
      ∷ map (λ entry. codes "manifest: " ++ entry) entries
    ++ (codes "candidate-hash: " ++ hash) ∷ codes ":passed" ∷ []

unfoldable pub passed : List Text → Markers → Outcome
passed lines markers = record { code = 0; printed = lines; markers = markers }

-- The end of `make test`.
unfoldable pub tested : Option Text → Text → Text → Text → Text → List Text → Markers → Outcome
tested none marker base hash lasted lines markers =
    passed lines (write_marker marker base hash (codes "0") lasted markers)
tested (some error) marker base hash lasted lines markers =
    refused 1 error (codes ":refused candidate evidence failed")
      (write_marker marker base hash (codes "1") lasted markers)

-- The cached test, or the test.
unfoldable pub fast_test : Env → List Text → Text → Text → Text → Text → Markers → Outcome
fast_test e entries base porcelain lasted hash markers =
    let marker = fast_test_marker e hash porcelain in
    let lines = evidence e entries base porcelain hash in
    if fast_test_passes e (marker_at marker markers) hash
    then passed (codes "trace: fast-test passed (cached)" ∷ lines) markers
    else tested e.make_test marker (e.strip base) hash lasted lines markers

unfoldable pub with_hash : Env → List Text → Text → Text → Text → Result Text → Markers → Outcome
with_hash e entries base porcelain lasted (inl error) markers =
    refused 1 error (codes ":refused candidate evidence failed") markers
with_hash e entries base porcelain lasted (inr hash) markers =
    fast_test e entries base porcelain lasted hash markers

-- The checks of the contents, in their order.
unfoldable pub with_tree : Env → List Text → Text → Text → Text → Markers → Outcome
with_tree e entries base porcelain lasted markers =
    checked (parenthesis_guard_error e entries) (codes ":refused parenthesis evidence failed")
      markers
      (checked (dependency_error e entries) (codes ":refused dependency evidence failed") markers (
        checked (public_content_error e entries) (codes ":refused public-content evidence failed")
          markers
          (checked (whitespace_scan_error e entries) (codes ":refused whitespace evidence failed")
            markers
            (checked (relative_link_error e entries)
              (codes ":refused relative-link evidence failed") markers
              (with_hash e entries base porcelain lasted (candidate_hash e entries) markers)))))

unfoldable pub with_base : Env → List Text → Text → Text → Result Text → Markers → Outcome
with_base e entries lasted base (inl error) markers =
    refused 1 error (codes ":refused unavailable git evidence") markers
with_base e entries lasted base (inr porcelain) markers =
    with_tree e entries base porcelain lasted markers

unfoldable pub with_entries : Env → Text → List Text → Result Text → Markers → Outcome
with_entries e lasted entries (inl error) markers =
    refused 1 error (codes ":refused unavailable git evidence") markers
with_entries e lasted entries (inr base) markers =
    with_base e entries lasted base e.porcelain markers

unfoldable pub with_manifest : Env → Text → Result (List Text) → Markers → Outcome
with_manifest e lasted (inl error) markers =
    refused 1 error (codes ":refused invalid candidate manifest") markers
with_manifest e lasted (inr entries) markers = with_entries e lasted entries e.head markers

-- `main(["--manifest", path])`, where `make test` lasts so long if it is run.
unfoldable pub main : Env → Text → Markers → Outcome
main e lasted markers = with_manifest e lasted (read_manifest e) markers
