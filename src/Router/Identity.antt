-- ===== src/Router/Identity.antt =====
-- automation/scripts/router-tick.py: the grammar of identities, and the names of routed plans; the
-- stems are automation/lib/scrub.py.
use Prim.Native.Nat.{ℕ, ◌+◌}
use hngh.Prelude.{
  Option, none, some, List, [], ◌∷◌, ◌++◌, map, Bool, false, not, ◌&&◌, ◌||◌, ◌==◌, if◌then◌else◌,
}
use hngh.Texts.{
  Text, codes, is_empty, same_text, holds, behind_prefix, run_of, past_run, collapse, first_part,
  split, is_lower, is_upper, is_digit,
}
use hngh.Router.{Env, words, joined, replaced}

-- `str.lower` on ASCII, where every identity that is routed is.
abbrev pub lower_char : ℕ → ℕ
lower_char c = if is_upper c then c + 32 else c

unfoldable pub lower : Text → Text
lower = map lower_char

-- `[A-Za-z0-9._-]`
abbrev pub in_subject : ℕ → Bool
in_subject c = is_lower c || is_upper c || is_digit c || c == b'.' || c == b'_' || c == b'-'

abbrev pub in_identity : ℕ → Bool
in_identity c = in_subject c || c == b':'

-- `IDENT_OK.match(identity)`: `$` stands at the end, and before a line break there.
unfoldable pub ident_ok : Text → Bool
unfolding run_of past_run same_text
ident_ok identity =
    let rest = past_run in_identity identity in
    not (is_empty (run_of in_identity identity)) && (is_empty rest || same_text rest (codes "\n"))

abbrev pub stem_family : List Text
stem_family = codes "home" ∷ codes "users" ∷ codes "tmp" ∷ codes "root" ∷ []

abbrev pub named_stems : Option Text → List Text
named_stems none = []
named_stems (some names) = map lower (words false (replaced b',' b' ' names))

-- `pathy_stems()`
unfoldable pub pathy_stems : Env → List Text
unfolding words replaced lower
pathy_stems e = stem_family ++ named_stems e.pathy

abbrev pub path_components : List Text
path_components =
    codes "projects"
    ∷ codes "etc"
    ∷ codes "hngh"
    ∷ codes "dropbox"
    ∷ codes "documents"
    ∷ codes "downloads"
    ∷ codes "desktop"
    ∷ codes "config"
    ∷ codes "src"
    ∷ codes "lib"
    ∷ codes "bin"
    ∷ codes "docs"
    ∷ codes "tests"
    ∷ codes "opt"
    ∷ codes "usr"
    ∷ codes "var"
    ∷ []

unfoldable pub two_consecutive : List Text → Bool
unfolding same_text holds
two_consecutive [] = false
two_consecutive (a ∷ []) = false
two_consecutive (a ∷ b ∷ parts) =
    (same_text a b && holds path_components a)
    || (holds path_components a && holds path_components b)
    || two_consecutive (b ∷ parts)

-- The parts that are not empty, in lower case.
abbrev pub lower_parts : List Text → List Text
lower_parts [] = []
lower_parts (part ∷ parts) =
    let rest = lower_parts parts in if is_empty part then rest else lower part ∷ rest

-- `_token_two_consecutive_components(seg)`
unfoldable pub token_two_consecutive_components : Text → Bool
unfolding two_consecutive split lower
token_two_consecutive_components seg = two_consecutive (lower_parts (split b'-' seg))

-- The token starts with a stem.
unfoldable pub has_stem : List Text → Text → Bool
unfolding holds first_part lower
has_stem stems token = holds stems (lower (first_part b'-' token))

-- The tokens before the first, behind the one at the start, that comes from a path.
unfoldable pub clean_tokens : List Text → List Text → List Text
unfolding has_stem token_two_consecutive_components
clean_tokens stems [] = []
clean_tokens stems (token ∷ tokens) =
    let rest = clean_tokens stems tokens in
    if has_stem stems token || token_two_consecutive_components token then [] else token ∷ rest

-- `scrub_pathy_identity(identity)`
unfoldable pub scrub_pathy_identity : Env → Text → Option Text
unfolding pathy_stems has_stem clean_tokens split joined
scrub_pathy_identity e identity = elim (split b':' identity) [
  | [] ↦ none
  | token ∷ tokens ↦
      let kept = joined b':' (token ∷ clean_tokens (pathy_stems e) tokens) in
      if has_stem (pathy_stems e) token then none else some kept
]

-- `re.sub("[^A-Za-z0-9._-]+", "-", identity)`
unfoldable pub subject_of : Text → Text
unfolding collapse
subject_of identity = collapse in_subject false identity

-- What is behind a date at the start.
unfoldable pub behind_date : Text → Option Text
behind_date (a ∷ b ∷ c ∷ d ∷ e ∷ f ∷ g ∷ h ∷ i ∷ j ∷ rest) =
    if is_digit a
      && is_digit b
      && is_digit c
      && is_digit d
      && e == b'-'
      && is_digit f
      && is_digit g
      && h == b'-'
      && is_digit i
      && is_digit j
    then some rest
    else none
behind_date _ = none

abbrev pub suffix : Text
suffix = codes ".plan.md"

abbrev pub is_numbered : Option Text → Bool
is_numbered none = false
is_numbered (some t) = not (is_empty (run_of is_digit t)) && same_text (past_run is_digit t) suffix

-- `(-\d+)?\.plan\.md$`, in names without line breaks.
unfoldable pub is_tail : Text → Bool
unfolding same_text behind_prefix run_of past_run
is_tail t = same_text t suffix || is_numbered (behind_prefix (codes "-") t)

abbrev pub tail_matches : Option Text → Bool
tail_matches none = false
tail_matches (some t) = is_tail t

abbrev pub rest_matches : Text → Option Text → Bool
rest_matches subject none = false
rest_matches subject (some rest) = tail_matches (behind_prefix (codes "-routed-" ++ subject) rest)

-- `dup_re.match(name)` for the subject.
unfoldable pub routed_name : Text → Text → Bool
unfolding behind_date behind_prefix is_tail
routed_name subject name = rest_matches subject (behind_date name)
