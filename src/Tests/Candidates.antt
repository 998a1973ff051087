-- ===== src/Tests/Candidates.antt =====
-- Evidence for candidates of one file.
use hngh.Prelude.{
  String, Option, none, some, List, [], ◌∷◌, ◌++◌, true, false, ◌≡◌, refl, ◌⊎◌, inl, inr,
}
use hngh.Texts.{Text, codes}
use hngh.Candidate.{Env, View, read_manifest, fast_test_marker}
use hngh.Candidate.Content.{links, content_error, package_error, whitespace_error}
use hngh.Candidate.Evidence.{main}
use hngh.Candidate.Passes.{Shown, main-Shown, fast_test_marker-same}
use hngh.Candidate.Manifest.{Valid, read_manifest-Valid}

abbrev file : Text → View
file content = record {
  exists = true;
  symlink = false;
  regular = true;
  ignored = inr false;
  content = inr content;
  bytes = inr content;
}

abbrev env : Env
env = record {
  view = λ entry. file (codes "see [the notes](notes.md#top)\n");
  manifest = inr (codes "a.md\nb.md\n");
  head = inr (codes "0f3a");
  porcelain = inr (codes "M  a.md\n?? c.md\n");
  resolves = λ entry target. true;
  lint = λ files. none;
  make_test = none;
  sha256 = λ t. t;
  strip = λ t. t;
  marker_prefix = codes "/tmp/hngh-fasttest-hngh";
}

content_runs :
    (links 0 (codes "[a](b.md) [c] (d) [e](#f) [g](h#i) [j](k") ≡ codes "b.md" ∷ codes "h" ∷ [])
    × (content_error (codes "f") (codes "API-Key = 'abcd_1234'")
        ≡ some (codes "credential-shaped content: f"))
    × (content_error (codes "f") (codes "x/home/me ${X}/home/me") ≡ none)
    × (content_error (codes "f") (codes "an exec (x)") ≡ some (codes "shell execution: f"))
    × (package_error
          (codes "f")
          (codes "(defpackage #:hngh.domain.plan (:use #:hngh.adapters.store))")
        ≡ some (codes "forbidden dependency: f"))
    × (whitespace_error (codes "f") (codes "a\nb \n") ≡ some (codes "trailing whitespace: f: 2"))
    × (whitespace_error (codes "f") (97 ∷ 12 ∷ 98 ∷ []) ≡ none)
unfolding hngh.Texts.same_text hngh.Texts.holds hngh.Texts.later hngh.Texts.behind_prefix
    hngh.Texts.starts hngh.Texts.occurs hngh.Texts.before hngh.Texts.behind hngh.Texts.run_of
    hngh.Texts.past_run hngh.Texts.first_part hngh.Texts.more_parts hngh.Texts.split
    hngh.Texts.Decimal.decimal hngh.Texts.Decimal.number hngh.Candidate.split_lines
    hngh.Candidate.same_texts hngh.Candidate.entry_error hngh.Candidate.entries_error
    hngh.Candidate.validate_entries hngh.Candidate.read_manifest hngh.Candidate.joined_by
    hngh.Candidate.other_rows hngh.Candidate.fast_test_marker hngh.Candidate.marker_fields
    hngh.Candidate.last_field hngh.Candidate.fast_test_passes hngh.Candidate.Content.has_credential
    hngh.Candidate.Content.has_home_path hngh.Candidate.Content.has_execution
    hngh.Candidate.Content.has_inward_package hngh.Candidate.Content.ends_in_run
    hngh.Candidate.Content.has_forbidden hngh.Candidate.Content.has_control
    hngh.Candidate.Content.lines_error hngh.Candidate.Content.whitespace_error
    hngh.Candidate.Content.link_at hngh.Candidate.Content.links hngh.Candidate.Content.link_error
    hngh.Candidate.Content.markdown_error hngh.Candidate.Content.content_error
    hngh.Candidate.Content.package_error hngh.Candidate.Content.has_suffix
    hngh.Candidate.Content.has_path_suffix hngh.Candidate.Content.scan_error
    hngh.Candidate.Content.dependency_error hngh.Candidate.Content.public_content_error
    hngh.Candidate.Content.whitespace_scan_error hngh.Candidate.Content.relative_link_error
    hngh.Router.Identity.lower hngh.Prelude.sorted hngh.Prelude.insert
content_runs = (refl, refl, refl, refl, refl, refl, refl)

main-Shown_example :
    (entries : List Text) × (read_manifest env ≡ inr entries) × Shown env entries []
unfolding hngh.Texts.same_text hngh.Texts.holds hngh.Texts.later hngh.Texts.behind_prefix
    hngh.Texts.starts hngh.Texts.occurs hngh.Texts.before hngh.Texts.behind hngh.Texts.run_of
    hngh.Texts.past_run hngh.Texts.first_part hngh.Texts.more_parts hngh.Texts.split
    hngh.Texts.Decimal.decimal hngh.Texts.Decimal.number hngh.Candidate.split_lines
    hngh.Candidate.same_texts hngh.Candidate.entry_error hngh.Candidate.entries_error
    hngh.Candidate.validate_entries hngh.Candidate.read_manifest hngh.Candidate.joined_by
    hngh.Candidate.other_rows hngh.Candidate.fast_test_marker hngh.Candidate.marker_fields
    hngh.Candidate.last_field hngh.Candidate.fast_test_passes hngh.Candidate.Content.has_credential
    hngh.Candidate.Content.has_home_path hngh.Candidate.Content.has_execution
    hngh.Candidate.Content.has_inward_package hngh.Candidate.Content.ends_in_run
    hngh.Candidate.Content.has_forbidden hngh.Candidate.Content.has_control
    hngh.Candidate.Content.lines_error hngh.Candidate.Content.whitespace_error
    hngh.Candidate.Content.link_at hngh.Candidate.Content.links hngh.Candidate.Content.link_error
    hngh.Candidate.Content.markdown_error hngh.Candidate.Content.content_error
    hngh.Candidate.Content.package_error hngh.Candidate.Content.has_suffix
    hngh.Candidate.Content.has_path_suffix hngh.Candidate.Content.scan_error
    hngh.Candidate.Content.dependency_error hngh.Candidate.Content.public_content_error
    hngh.Candidate.Content.whitespace_scan_error hngh.Candidate.Content.relative_link_error
    hngh.Candidate.Evidence.marker_at hngh.Candidate.Evidence.write_marker
    hngh.Candidate.Evidence.refused hngh.Candidate.Evidence.checked
    hngh.Candidate.Evidence.all_bytes hngh.Candidate.Evidence.candidate_hash
    hngh.Candidate.Evidence.parenthesis_guard_error hngh.Candidate.Evidence.is_dirty
    hngh.Candidate.Evidence.evidence hngh.Candidate.Evidence.passed hngh.Candidate.Evidence.tested
    hngh.Candidate.Evidence.fast_test hngh.Candidate.Evidence.with_hash
    hngh.Candidate.Evidence.with_tree hngh.Candidate.Evidence.with_base
    hngh.Candidate.Evidence.with_entries hngh.Candidate.Evidence.with_manifest
    hngh.Candidate.Evidence.main hngh.Router.Identity.lower hngh.Prelude.sorted hngh.Prelude.insert
main-Shown_example = main-Shown env (codes "1") [] refl

fast_test_marker-same_example :
    fast_test_marker env (codes "ab") (codes " M core.py\n") ≡ fast_test_marker env (codes "ab") []
fast_test_marker-same_example = fast_test_marker-same env (codes "ab") (codes " M core.py\n") []

read_manifest-Valid_example : Valid env (codes "a.md" ∷ codes "b.md" ∷ [])
unfolding hngh.Texts.same_text hngh.Texts.holds hngh.Texts.later hngh.Texts.behind_prefix
    hngh.Texts.starts hngh.Texts.occurs hngh.Texts.before hngh.Texts.behind hngh.Texts.run_of
    hngh.Texts.past_run hngh.Texts.first_part hngh.Texts.more_parts hngh.Texts.split
    hngh.Texts.Decimal.decimal hngh.Texts.Decimal.number hngh.Candidate.split_lines
    hngh.Candidate.same_texts hngh.Candidate.entry_error hngh.Candidate.entries_error
    hngh.Candidate.validate_entries hngh.Candidate.read_manifest hngh.Prelude.sorted
    hngh.Prelude.insert
read_manifest-Valid_example = read_manifest-Valid env (codes "a.md" ∷ codes "b.md" ∷ []) refl
