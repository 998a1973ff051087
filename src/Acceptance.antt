-- ===== src/Acceptance.antt =====
-- automation/scripts/accept-plans.py: the machine's acceptance of proposed plans; what a plan's text says.
pub mod Designs
pub mod Run
pub mod Gates
mod Fields
mod Header
mod Replace
pub mod Justified
pub mod Verified
pub mod Accepted
use Prim.Native.Nat.{ℕ, zero, suc, ◌-◌}
use hngh.Prelude.{
  Option, none, some, List, [], ◌∷◌, ◌++◌, Bool, true, false, not, ◌&&◌, ◌||◌, ◌==◌, if◌then◌else◌,
  take, length, any,
}
use hngh.Texts.{
  Text, codes, is_empty, same_text, starts, before, behind, behind_prefix, occurs, run_of, past_run,
  split, is_word_char, is_space,
}

-- The header of a plan: what stands before it, the comment itself, what stands behind it, and its fields.
pub record Front : Type 0 where
  pub above : Text
  pub comment : Text
  pub below : Text
  pub status : Text
  pub risk : Text
  pub accepted : Text

-- What is left to read, and the fields that were read.
abbrev pub Reading : Type 0
Reading = Option (Text × List Text)

-- A field of word characters behind its key, and the space behind it.
abbrev pub spaced : List Text → Text → Text → Reading
spaced fields value t =
    if is_empty value || is_empty (run_of is_space t)
    then none
    else some (past_run is_space t, value ∷ fields)

abbrev pub word_behind : List Text → Option Text → Reading
word_behind fields none = none
word_behind fields (some t) = spaced fields (run_of is_word_char t) (past_run is_word_char t)

abbrev pub read_key : Text → Reading → Reading
read_key key none = none
read_key key (some (t, fields)) = word_behind fields (behind_prefix key t)

-- `plan:` and the space around it.
abbrev pub plan_key : Option Text → Reading
plan_key none = none
plan_key (some t) = some (past_run is_space t, [])

abbrev pub opened : Option Text → Reading
opened none = none
opened (some t) = plan_key (behind_prefix (codes "plan:") (past_run is_space t))

-- The text without its last two characters, when these are dashes.
unfoldable pub without_dashes : Text → Option Text
without_dashes [] = none
without_dashes (c ∷ []) = none
without_dashes (c ∷ d ∷ []) = if c == b'-' && d == b'-' then some [] else none
without_dashes (c ∷ d ∷ e ∷ t) = elim (without_dashes (d ∷ e ∷ t)) [
  | none ↦ none
  | some rest ↦ some (c ∷ rest)
]

abbrev pub closing_field : Text → List Text → Option Text → Option Text → Option Front
closing_field t (risk ∷ status ∷ fields) (some body) (some below) =
    let accepted = run_of (λ c. not (is_space c)) body in
    if is_empty accepted
    then none
    else some (record {
      above = [];
      comment = take (length t - length below) t;
      below = below;
      status = status;
      risk = risk;
      accepted = accepted;
    })
closing_field t _ _ _ = none

-- `accepted=([^\s>]+)[^>]*-->`, where no `>` stands before the end.
abbrev pub closed_by : Text → List Text → Option Text → Option Front
closed_by t fields none = none
closed_by t fields (some rest) =
    closing_field t fields (without_dashes (before (codes ">") rest)) (behind (codes ">") rest)

abbrev pub closed : Text → Reading → Option Front
closed t none = none
closed t (some (rest, fields)) = closed_by t fields (behind_prefix (codes "accepted=") rest)

-- `FRONT` at the start of the text.
unfoldable pub front_at : Text → Option Front
front_at t = closed t (
    read_key (codes "risk=") (read_key (codes "status=") (opened (behind_prefix (codes "<!--") t))))

abbrev pub or_front : ℕ → Option Front → Option Front → Option Front
or_front c none none = none
or_front c none (some f) = some (record f { above = c ∷ f.above })
or_front c (some f) _ = some f

-- `FRONT.search(text)`
unfoldable pub front_of : Text → Option Front
front_of [] = none
front_of (c ∷ t) = or_front c (front_at (c ∷ t)) (front_of t)

abbrev pub put : Text → Text → Text → Option Text → Text
put old new t none = t
put old new t (some rest) = before old t ++ new ++ rest

-- `text.replace(old, new, 1)`
unfoldable pub replace_first : Text → Text → Text → Text
replace_first old new t = put old new t (behind old t)

abbrev pub with_comment : Front → Text → Text
with_comment f comment = f.above ++ comment ++ f.below

-- `accepted_text(text, ts)`
unfoldable pub accepted_text : Text → Front → Text
accepted_text ts f = with_comment f (
    replace_first (codes "accepted=-") (codes "accepted=" ++ ts)
      (replace_first (codes "status=proposed") (codes "status=accepted") f.comment))

-- `re.sub("held=[^\s>]+", "held=" + ts, text)`; `inside` says that a match goes on.
unfoldable pub held_again : Text → Bool → Text → Text
held_again ts inside [] = []
held_again ts inside (c ∷ t) =
    let stays = held_again ts true t in
    let ends = held_again ts false t in
    let plain = not (is_space c || c == b'>') in
    if inside && plain then stays else elim (behind_prefix (codes "held=") (c ∷ t)) [
      | none ↦ c ∷ ends
      | some rest ↦
          if is_empty (run_of (λ d. not (is_space d || d == b'>')) rest)
          then c ∷ ends
          else codes "held=" ++ ts ++ stays
    ]

abbrev pub held_comment : Text → Text → Text
held_comment ts comment =
    if occurs (codes "held=") comment
    then held_again ts false comment
    else replace_first (codes "-->") (codes "cause=missing-design held=" ++ ts ++ codes " -->")
        comment

-- `held_text(text, ts)`; the comment ends at its only `-->`.
unfoldable pub held_text : Text → Front → Text
held_text ts f =
    with_comment f
      (held_comment ts (replace_first (codes "status=proposed") (codes "status=held") f.comment))

-- `reproposed_text(text)`
unfoldable pub reproposed_text : Front → Text
reproposed_text f =
    with_comment f (replace_first (codes "status=held") (codes "status=proposed") f.comment)

-- `^## Steps[ \t]*$`
abbrev pub is_steps : Option Text → Bool
is_steps none = false
is_steps (some rest) = is_empty (past_run (λ c. c == b' ' || c == b'\t') rest)

unfoldable pub until_heading : List Text → List Text
until_heading [] = []
until_heading (line ∷ lines) =
    let rest = until_heading lines in if starts (codes "## ") line then [] else line ∷ rest

-- The lines of `steps_text(text)`.
unfoldable pub steps_lines : List Text → List Text
steps_lines [] = []
steps_lines (line ∷ lines) =
    let rest = steps_lines lines in
    if is_steps (behind_prefix (codes "## Steps") line) then until_heading lines else rest

abbrev pub is_step : Text → Bool
is_step line = starts (codes "- [ ]") line || starts (codes "- [x]") line

abbrev pub ends_label : Option Text → Bool
ends_label none = false
ends_label (some rest) = starts (codes ":") (past_run (λ c. c == b' ' || c == b'\t') rest)

-- `VERIFICATION` on a line.
unfoldable pub is_verification : Text → Bool
is_verification line =
    not (is_empty (run_of (λ c. c == b' ' || c == b'\t') line))
    && ends_label
        (behind_prefix (codes "Verification") (past_run (λ c. c == b' ' || c == b'\t') line))

-- A verification line stands before the next step.
unfoldable pub is_verified : List Text → Bool
is_verified [] = false
is_verified (line ∷ lines) =
    let rest = is_verified lines in if is_step line then false else is_verification line || rest

-- `first_unverified_step(steps)` for the lines, the next step being the n-th.
unfoldable pub first_unverified : ℕ → List Text → ℕ
first_unverified n [] = 0
first_unverified n (line ∷ lines) =
    let next = first_unverified (suc n) lines in
    let same = first_unverified n lines in
    if starts (codes "- [ ]") line
    then (if is_verified lines then next else n)
    else if starts (codes "- [x]") line
    then next
    else same

-- `first_unverified_step(steps_text(text))`
unfoldable pub first_unverified_step : Text → ℕ
first_unverified_step t = first_unverified 1 (steps_lines (split b'\n' t))

-- `has_principle(text)`
unfoldable pub has_principle : Text → Bool
has_principle t =
    any (λ line. starts (codes "principle:") (past_run is_space line))
      (until_heading (split b'\n' t))
