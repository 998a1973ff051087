-- ===== src/Candidate/Content.antt =====
-- scripts/verify-candidate.py: the checks of the candidate's texts.
use Prim.Native.Nat.{ℕ, zero, suc, ◌+◌}
use hngh.Prelude.{
  inl, inr, Option, none, some, List, [], ◌∷◌, ◌++◌, Bool, true, false, not, ◌&&◌, ◌||◌, ◌==◌, ltb,
  leb, any, if◌then◌else◌, length,
}
use hngh.Texts.{
  Text, codes, is_empty, same_text, starts, occurs, behind_prefix, run_of, past_run, split,
  is_lower, is_upper, is_digit, is_word_char, is_space, Decimal.decimal,
}
use hngh.Router.Identity.{lower}
use hngh.Candidate.{Result, Env, or_error, split_lines}

abbrev pub is_alnum : ℕ → Bool
is_alnum c = is_lower c || is_upper c || is_digit c

-- `[A-Za-z0-9_\-]`
abbrev pub in_secret : ℕ → Bool
in_secret c = is_alnum c || c == b'_' || c == b'-'

abbrev pub past_quote : Text → Text
past_quote [] = []
past_quote (c ∷ t) = if c == b'\'' || c == b'"' then t else c ∷ t

abbrev pub secret_value : Text → Bool
secret_value [] = false
secret_value (c ∷ t) =
    (c == b':' || c == b'=') && leb 8 (length (run_of in_secret (past_quote (past_run is_space t))))

abbrev pub secret_behind : Option Text → Bool
secret_behind none = false
secret_behind (some t) = secret_value (past_run is_space t)

abbrev pub secret_keys : List Text
secret_keys =
    codes "apikey"
    ∷ codes "api_key"
    ∷ codes "api-key"
    ∷ codes "secret"
    ∷ codes "token"
    ∷ codes "password"
    ∷ []

-- `CREDENTIAL_PATTERN.search(text)` in lower case.
unfoldable pub has_credential : Text → Bool
has_credential [] = false
has_credential (c ∷ t) =
    any (λ key. secret_behind (behind_prefix key (c ∷ t))) secret_keys || has_credential t

abbrev pub home_paths : List Text
home_paths = codes "/home/" ∷ codes "/Users/" ∷ codes "/root/" ∷ []

-- `ABSOLUTE_PATH_PATTERN.search(text)`; `inside` says that the character before excludes a match.
unfoldable pub has_home_path : Bool → Text → Bool
has_home_path inside [] = false
has_home_path inside (c ∷ t) =
    (not inside && any (λ path. starts path (c ∷ t)) home_paths)
    || has_home_path (is_alnum c || c == b'$' || c == b'_' || c == b'}') t

abbrev pub call_behind : Option Text → Bool
call_behind none = false
call_behind (some t) = starts (codes "(") (past_run is_space t)

-- `SHELL_EXECUTION_PATTERN.search(text)`; `inside` says that a word character stands before.
unfoldable pub has_execution : Bool → Text → Bool
has_execution inside [] = false
has_execution inside (c ∷ t) =
    (not inside
      && (call_behind (behind_prefix (codes "eval") (c ∷ t))
          || call_behind (behind_prefix (codes "exec") (c ∷ t))))
    || has_execution (is_word_char c) t

abbrev pub word_next : Text → Bool
word_next [] = false
word_next (c ∷ t) = is_word_char c

abbrev pub word_ends : Option Text → Bool
word_ends none = false
word_ends (some t) = not (word_next t)

-- The package prefix `#:` or `:`, if there is one.
abbrev pub past_mark : Text → Text
past_mark [] = []
past_mark (c ∷ []) = if c == b':' then [] else c ∷ []
past_mark (c ∷ d ∷ t) =
    if c == b'#' && d == b':' then past_run is_space t else if c == b':' then d ∷ t else c ∷ d ∷ t

abbrev pub inward_name : Text → Bool
inward_name t =
    word_ends (behind_prefix (codes "hngh.domain") t)
    || word_ends (behind_prefix (codes "hngh.application") t)

abbrev pub inward_behind : Option Text → Bool
inward_behind none = false
inward_behind (some t) =
    not (is_empty (run_of is_space t)) && inward_name (past_mark (past_run is_space t))

-- `INWARD_PACKAGE_PATTERN.search(text)` in lower case.
unfoldable pub has_inward_package : Text → Bool
has_inward_package [] = false
has_inward_package (c ∷ t) =
    inward_behind (behind_prefix (codes "(defpackage") (c ∷ t)) || has_inward_package t

-- A word boundary behind one or more of the characters `[a-z0-9.-]`.
unfoldable pub ends_in_run : Text → Bool
ends_in_run [] = false
ends_in_run (c ∷ t) =
    let rest = ends_in_run t in
    (is_lower c || is_digit c || c == b'.' || c == b'-')
    && (not (if is_word_char c then word_next t else not (word_next t)) || rest)

abbrev pub adapter_behind : Option Text → Bool
adapter_behind none = false
adapter_behind (some t) = ends_in_run t

-- `FORBIDDEN_DEPENDENCY_PATTERN.search(text)` in lower case; the prefix of the package may be missing.
unfoldable pub has_forbidden : Text → Bool
has_forbidden [] = false
has_forbidden (c ∷ t) =
    adapter_behind (behind_prefix (codes "hngh.adapters.") (c ∷ t))
    || word_ends (behind_prefix (codes "hngh.presentation") (c ∷ t))
    || has_forbidden t

abbrev pub trailing : ℕ → Text → Bool
trailing last [] = last == b' ' || last == b'\t'
trailing last (c ∷ t) = trailing c t

unfoldable pub has_control : Text → Bool
has_control line = any (λ c. (ltb c 32 && not (c == b'\t')) || c == 127) line

-- `whitespace_error(entry, text)` from the n-th line on.
unfoldable pub lines_error : Text → ℕ → List Text → Option Text
lines_error entry n [] = none
lines_error entry n (line ∷ lines) =
    let rest = lines_error entry (suc n) lines in
    if has_control line
    then some (codes "control character: " ++ entry ++ codes ": " ++ decimal n)
    else if trailing 0 line
    then some (codes "trailing whitespace: " ++ entry ++ codes ": " ++ decimal n)
    else rest

unfoldable pub whitespace_error : Text → Text → Option Text
whitespace_error entry t = lines_error entry 1 (split_lines t)

-- The length of a link's match and its target, behind the opening bracket.
abbrev pub link_closed : ℕ → Text → Text → Option (ℕ × Text)
link_closed n target [] = none
link_closed n target (c ∷ t) =
    let anchor = run_of (λ d. not (d == b')')) t in
    if c == b')'
    then some (n, target)
    else if is_empty (past_run (λ d. not (d == b')')) t)
    then none
    else some (n + length anchor + 1, target)

abbrev pub link_target : ℕ → Option Text → Option (ℕ × Text)
link_target n none = none
link_target n (some t) =
    let target = run_of (λ d. not (d == b')' || d == b'#')) t in
    if is_empty target
    then none
    else link_closed (n + 2 + length target + 1) target
        (past_run (λ d. not (d == b')' || d == b'#')) t)

-- `MARKDOWN_LINK_PATTERN` behind its opening bracket.
unfoldable pub link_at : Text → Option (ℕ × Text)
link_at t =
    let label = run_of (λ d. not (d == b']')) t in
    if is_empty label
    then none
    else link_target (length label) (behind_prefix (codes "](") (past_run (λ d. not (d == b']')) t))

-- `MARKDOWN_LINK_PATTERN.findall(text)`; `skip` counts the characters of a match that are still to come.
unfoldable pub links : ℕ → Text → List Text
links skip [] = []
links (suc skip) (c ∷ t) = links skip t
links zero (c ∷ t) =
    let next = links 0 t in
    if c == b'['
    then (elim (link_at t) [ none ↦ next | some (n, target) ↦ target ∷ links n t ])
    else next

unfoldable pub link_error : Env → Text → List Text → Option Text
link_error e entry [] = none
link_error e entry (target ∷ targets) =
    let rest = link_error e entry targets in
    if occurs (codes "://") target || starts (codes "mailto:") target || e.resolves entry target
    then rest
    else some (codes "broken Markdown link: " ++ entry ++ codes ": " ++ target)

-- `markdown_error(entry, text)`
unfoldable pub markdown_error : Env → Text → Text → Option Text
markdown_error e entry t = link_error e entry (links 0 t)

-- What `public_content_error` says of one text.
unfoldable pub content_error : Text → Text → Option Text
content_error entry t =
    if has_credential (lower t)
    then some (codes "credential-shaped content: " ++ entry)
    else if has_home_path false t
    then some (codes "absolute local path: " ++ entry)
    else if has_execution false t
    then some (codes "shell execution: " ++ entry)
    else none

-- What `dependency_error` says of one text.
unfoldable pub package_error : Text → Text → Option Text
package_error entry t =
    if has_inward_package (lower t) && has_forbidden (lower t)
    then some (codes "forbidden dependency: " ++ entry)
    else none

-- The text ends so, behind at least one character.
unfoldable pub has_suffix : Text → Text → Bool
has_suffix suffix [] = false
has_suffix suffix (c ∷ t) = same_text suffix t || has_suffix suffix t

abbrev pub last_part : List Text → Text
last_part [] = []
last_part (part ∷ []) = part
last_part (part ∷ next ∷ parts) = last_part (next ∷ parts)

-- `Path(entry).suffix == suffix`
unfoldable pub has_path_suffix : Text → Text → Bool
has_path_suffix suffix entry = has_suffix suffix (last_part (split b'/' entry))

abbrev pub text_error : Text → (Text → Text → Option Text) → Result Text → Option Text
text_error entry check (inl error) =
    some (codes "cannot read candidate: " ++ entry ++ codes ": " ++ error)
text_error entry check (inr t) = check entry t

-- The first error of a check of the entries that pass a test.
unfoldable pub scan_error :
    Env → (Text → Bool) → (Text → Text → Option Text) → List Text → Option Text
scan_error e wanted check [] = none
scan_error e wanted check (entry ∷ entries) =
    let rest = scan_error e wanted check entries in
    if wanted entry then or_error (text_error entry check (e.view entry).content) rest else rest

-- `dependency_error(entries)`
unfoldable pub dependency_error : Env → List Text → Option Text
dependency_error e = scan_error e (has_path_suffix (codes ".lisp")) package_error

-- `public_content_error(entries)`
unfoldable pub public_content_error : Env → List Text → Option Text
public_content_error e = scan_error e (λ entry. true) content_error

-- `whitespace_scan_error(entries)`
unfoldable pub whitespace_scan_error : Env → List Text → Option Text
whitespace_scan_error e = scan_error e (λ entry. true) whitespace_error

-- `relative_link_error(entries)`
unfoldable pub relative_link_error : Env → List Text → Option Text
relative_link_error e = scan_error e (has_path_suffix (codes ".md")) (markdown_error e)
