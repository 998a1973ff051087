-- ===== src/Router/Plans.antt =====
-- automation/scripts/router-tick.py: what a plan's text says, and the rewrites of it.
use Prim.Native.Nat.{ℕ, zero, suc}
use hngh.Prelude.{
  Option, none, some, List, [], ◌∷◌, ◌++◌, Bool, false, ◌&&◌, ◌||◌, ◌==◌, if◌then◌else◌, take, drop,
  length, select,
}
use hngh.Texts.{
  Text, codes, is_empty, starts, before, behind, behind_prefix, run_of, past_run, split,
  is_word_char,
}
use hngh.Router.{Env, now_utc}

abbrev pub status_mark : Text
status_mark = codes "status="

-- The word at the start of what is behind a mark, where there is one.
abbrev pub word_of : Option Text → Option Text
word_of none = none
word_of (some t) = if is_empty (run_of is_word_char t) then none else some (run_of is_word_char t)

-- The first value where there is one.
abbrev pub or_found : Option Text → Option Text → Option Text
or_found none other = other
or_found (some found) other = some found

-- `re.search("status=(\w+)", text)`
unfoldable pub status_of : Text → Option Text
status_of [] = none
status_of (c ∷ t) = or_found (word_of (behind_prefix status_mark (c ∷ t))) (status_of t)

-- `[\w-]`
abbrev pub is_joined : ℕ → Bool
is_joined c = is_word_char c || c == b'-'

-- `re.search("(?<![\w-])status=(\w+)", text)`; `inside` says that the character before is `[\w-]`.
unfoldable pub own_status : Bool → Text → Option Text
own_status inside [] = none
own_status inside (c ∷ t) =
    let rest = own_status (is_joined c) t in
    if inside then rest else or_found (word_of (behind_prefix status_mark (c ∷ t))) rest

-- The text with another word behind the mark, where a word stands behind it.
abbrev pub with_word : Text → Option Text → Text → Text
with_word word none other = other
with_word word (some t) other =
    if is_empty (run_of is_word_char t)
    then other
    else status_mark ++ word ++ past_run is_word_char t

-- `re.sub("(?<![\w-])status=\w+", "status=" + word, text, count=1)`
unfoldable pub replace_status : Text → Bool → Text → Text
replace_status word inside [] = []
replace_status word inside (c ∷ t) =
    let rest = c ∷ replace_status word (is_joined c) t in
    if inside then rest else with_word word (behind_prefix status_mark (c ∷ t)) rest

-- `text[:400]`
abbrev pub head_of : Text → Text
head_of = take 400

-- The text that `mark_expired(path, text)` writes.
unfoldable pub expired_text : Text → Text
unfolding replace_status
expired_text t = replace_status (codes "expired") false (head_of t) ++ drop 400 t

abbrev pub behind_or_none : Option Text → Text
behind_or_none none = []
behind_or_none (some t) = before (codes "\n## ") t

-- The part behind the first heading, up to the next.
unfoldable pub section : Text → Text → Text
unfolding before behind
section heading t = behind_or_none (behind heading t)

-- The lines that start with the mark: `re.findall("(?m)^" + mark, text)`.
unfoldable pub lines_with : Text → Text → List Text
unfolding starts split
lines_with mark t = select (starts mark) (split b'\n' t)

-- `occurrence_count(text)`
unfoldable pub occurrence_count : Text → ℕ
unfolding section lines_with
occurrence_count t = length (lines_with (codes "- ") (section (codes "## Occurrences") t))

-- `step_states(text)`: the closed and the open steps.
unfoldable pub step_states : Text → ℕ × ℕ
unfolding section lines_with
step_states t =
    let sec = section (codes "## Steps") t in
    (length (lines_with (codes "- [x]") sec), length (lines_with (codes "- [ ]") sec))

-- `text.rstrip("\n")`
unfoldable pub rstrip_breaks : Text → Text
rstrip_breaks [] = []
rstrip_breaks (c ∷ t) =
    let rest = rstrip_breaks t in if is_empty rest && c == b'\n' then [] else c ∷ rest

abbrev pub next_heading : Option Text → Text
next_heading none = []
next_heading (some t) = codes "\n## " ++ t

-- The text of `bump_occurrences(path, text)`, by the text behind the heading.
abbrev pub bumped : Text → Text → Option Text → Text
bumped line t none = rstrip_breaks t ++ codes "\n\n## Occurrences\n\n" ++ line ++ codes "\n"
bumped line t (some rest) =
    before (codes "## Occurrences") t
    ++ codes "## Occurrences"
    ++ rstrip_breaks (before (codes "\n## ") rest)
    ++ codes "\n"
    ++ line
    ++ codes "\n"
    ++ next_heading (behind (codes "\n## ") rest)

unfoldable pub bumped_text : Env → Text → Text
unfolding now_utc before behind rstrip_breaks
bumped_text e t =
    bumped (codes "- " ++ now_utc e ++ codes " re-occurred (dedup window expired)") t
      (behind (codes "## Occurrences") t)

-- Whether the n-th of the lines, from 1 on, has the mark.
unfoldable pub nth_with : Text → ℕ → List Text → Bool
unfolding starts
nth_with mark n [] = false
nth_with mark zero (line ∷ lines) = false
nth_with mark (suc zero) (line ∷ lines) = starts mark line
nth_with mark (suc (suc n)) (line ∷ lines) = nth_with mark (suc n) lines

-- `named_step_closed(text, n)`, in a text whose only line breaks are `\n`.
unfoldable pub named_step_closed : Text → ℕ → Bool
unfolding section split starts nth_with
named_step_closed t n = nth_with (codes "- [x]") n (
    select (λ line. starts (codes "- [ ]") line || starts (codes "- [x]") line)
      (split b'\n' (section (codes "## Steps") t)))
