-- ===== src/Scrub.antt =====
-- automation/lib/scrub.py: redact_home, with the tokens of PATH_TOKEN_RE.
use Prim.Native.Nat.{ℕ, zero, suc, ◌-◌}
use hngh.Prelude.{
  Option, none, some, [], ◌∷◌, ◌++◌, Bool, true, false, not, ◌&&◌, ◌||◌, ◌==◌, length, drop,
  if◌then◌else◌,
}
use hngh.Texts.{
  Text, codes, is_empty, starts, behind_prefix, run_of, past_run, is_lower, is_upper, is_digit,
  is_word_char, is_space,
}

-- The character before a position, or a space at the start.
abbrev pub guarded : ℕ → Bool
guarded c =
    is_lower c || is_upper c || is_digit c || c == b'.' || c == b'~' || c == b'/' || c == b'-'

abbrev solid : ℕ → Bool
solid c = not (is_space c)

-- `[^/\s]`
abbrev segment_char : ℕ → Bool
segment_char c = solid c && not (c == b'/')

-- `[^/@\s]`
abbrev info_char : ℕ → Bool
info_char c = segment_char c && not (c == b'@')

abbrev scheme_char : ℕ → Bool
scheme_char c = is_lower c || is_digit c || c == b'+' || c == b'.' || c == b'-'

-- A token: what replaces it, and what is behind it.
abbrev pub Token : Type 0
Token = Option (Text × Text)

abbrev marker : Text
marker = codes "[redacted path]"

-- A path's further part: from a slash up to a space, or nothing.
unfoldable pub path_rest : Text → Text
unfolding run_of
path_rest [] = []
path_rest (c ∷ t) = if c == b'/' then run_of solid (c ∷ t) else []

abbrev ends_name : Text → Bool
ends_name [] = true
ends_name (c ∷ t) = not (is_word_char c || c == b'-')

-- A slash and a name behind it, if they are there.
abbrev named_segment : Text → Text
named_segment [] = []
named_segment (c ∷ t) =
    if c == b'/' && not (is_empty (run_of segment_char t)) then c ∷ run_of segment_char t else []

abbrev past : Text → Text → Text
past part t = drop (length part) t

-- `(/\S*)?(?![\w-])` behind a family, written with its mark.
unfoldable pub family : Text → Text → Token
unfolding path_rest
family mark t =
    let rest = path_rest t in
    if ends_name (past rest t) then some (mark ++ rest, past rest t) else none

-- `/home`: the mark is a tilde only where a user is named.
unfoldable pub home_token : Text → Token
unfolding family run_of
home_token t =
    let user = named_segment t in
    if is_empty user
    then (let rest = path_rest t in
        if ends_name (past rest t) then some (marker, past rest t) else none)
    else family (codes "~") (past user t)

unfoldable pub users_token : Text → Token
unfolding family run_of
users_token t = family (codes "~") (past (named_segment t) t)

-- `//host/home`
abbrev behind_host : Option Text → Token
behind_host none = none
behind_host (some t) =
    let user = named_segment t in
    let rest = path_rest (past user t) in some (codes "~" ++ rest, past rest (past user t))

unfoldable pub host_token : Text → Token
unfolding run_of past_run path_rest behind_prefix
host_token t =
    if is_empty (run_of segment_char t)
    then none
    else behind_host (behind_prefix (codes "/home") (past_run segment_char t))

abbrev then_token : (Text → Token) → Option Text → Token
then_token f none = none
then_token f (some t) = f t

abbrev or_token : Token → Token → Token
or_token none other = other
or_token (some found) other = some found

-- The host paths, in their order.
unfoldable pub host_path : Text → Token
unfolding behind_prefix home_token users_token family host_token
host_path t = or_token (then_token home_token (behind_prefix (codes "/home") t)) (
    or_token (then_token users_token (behind_prefix (codes "/Users") t)) (
      or_token (then_token (family (codes "~")) (behind_prefix (codes "/root") t)) (
        or_token (then_token (family (codes "~tmp")) (behind_prefix (codes "/tmp") t))
          (then_token host_token (behind_prefix (codes "//") t)))))

-- `(?<=//)[^/@\s]+@`, of the two characters before
unfoldable pub userinfo : ℕ → ℕ → Text → Token
unfolding run_of past_run
userinfo p q t =
    if p == b'/'
      && q == b'/'
      && not (is_empty (run_of info_char t))
      && starts (codes "@") (past_run info_char t)
    then some (codes "[redacted]@", drop 1 (past_run info_char t))
    else none

-- Every token of a text replaced. What a token takes is skipped; `p` and `q` are the characters before.
unfoldable pub replace_tokens : (ℕ → ℕ → Text → Token) → ℕ → ℕ → ℕ → Text → Text
replace_tokens token skip p q [] = []
replace_tokens token (suc skip) p q (c ∷ t) = replace_tokens token skip q c t
replace_tokens token zero p q (c ∷ t) = elim (token p q (c ∷ t)) [
  | none ↦ c ∷ replace_tokens token 0 q c t
  | some (text, rest) ↦ text ++ replace_tokens token (length t - length rest) q c t
]

-- `_redact_urlinfo(url)`
unfoldable pub redact_urlinfo : Text → Text
unfolding replace_tokens userinfo
redact_urlinfo url = replace_tokens userinfo 0 b' ' b' ' url

-- Whether a URL begins here.
abbrev is_scheme : Text → Bool
is_scheme [] = false
is_scheme (c ∷ t) = is_lower c && starts (codes "://") (past_run scheme_char t)

unfoldable pub url : ℕ → Text → Token
unfolding run_of past_run starts redact_urlinfo
url q t =
    if not (is_word_char q) && (is_scheme t || starts (codes "www.") t)
    then some (redact_urlinfo (run_of solid t), past_run solid t)
    else none

-- A tilde path stays.
unfoldable pub tilde : ℕ → Text → Token
unfolding run_of past_run starts
tilde q t =
    if not (guarded q || q == b'_') && starts (codes "~/") t
    then some (run_of solid t, past_run solid t)
    else none

-- The first alternative of `PATH_TOKEN_RE` that matches, with its tilde rendering.
unfoldable pub path_token : ℕ → ℕ → Text → Token
unfolding url userinfo host_path tilde
path_token p q t =
    or_token (url q t)
      (or_token (userinfo p q t) (or_token (if guarded q then none else host_path t) (tilde q t)))

-- `redact_home(text)`
unfoldable pub redact_home : Text → Text
unfolding replace_tokens path_token
redact_home t = replace_tokens path_token 0 b' ' b' ' t
