-- ===== src/Supervision/Parse.antt =====
-- automation/jobs/agent-supervision.py: what it reads from the parameters, the journal and the hand-offs.
use Prim.Native.Nat.{ℕ, suc, ◌+◌, max}
use hngh.Prelude.{
  ℤ, pos, Option, none, some, List, [], ◌∷◌, Bool, true, false, not, ◌&&◌, ◌||◌, ◌==◌, ltb, leb_ℤ,
  ◌+ℤ◌, any, all, take, length, if◌then◌else◌,
}
use hngh.Texts.{
  Text, codes, is_empty, same_text, behind_prefix, starts, occurs, before, behind, run_of, past_run,
  split, is_space, is_word_char,
}
use hngh.QueuePointer.{strip}
use hngh.Supervision.{Env}

abbrev pub param_in : Text → List Text → Option Text → Option Text
param_in key (k ∷ value ∷ more) rest =
    if same_text k key && not (is_empty value) then some value else rest
param_in key _ rest = rest

-- The first row for the key whose value is not empty.
unfoldable pub param_row : Text → List Text → Option Text
unfolding same_text split
param_row key [] = none
param_row key (line ∷ lines) = param_in key (split b'\t' line) (param_row key lines)

abbrev or_default : Text → Option Text → Text
or_default default none = default
or_default default (some value) = value

abbrev params_of : Option (List Text) → List Text
params_of none = []
params_of (some lines) = lines

-- `get_param(key, default)`
unfoldable pub get_param : Env → Text → Text → Text
unfolding param_row
get_param e key default = or_default default (param_row key (params_of e.params))

abbrev word_or_comma : ℕ → Bool
word_or_comma c = is_word_char c || c == b','

abbrev results_of : Option Text → List (List Text) → List (List Text)
results_of none rows = rows
results_of (some t) rows =
    let found = run_of word_or_comma t in (if is_empty found then [] else split b',' found) ∷ rows

-- `parse_results_crumbs(text)`, of the lines
unfoldable pub parse_results : List Text → List (List Text)
unfolding behind run_of split
parse_results [] = []
parse_results (line ∷ lines) = results_of (behind (codes "results=") line) (parse_results lines)

-- The results at the end that are `failed`, and whether all are.
unfoldable pub trailing_failed : List Text → ℕ × Bool
unfolding same_text
trailing_failed [] = (0, true)
trailing_failed (r ∷ row) =
    let (n, whole) = trailing_failed row in
    if whole
    then (if same_text r (codes "failed") then (suc n, true) else (n, false))
    else (n, false)

-- `trailing_failures(crumbs)`, and whether every result of every row is `failed`.
unfoldable pub trailing_failures : List (List Text) → ℕ × Bool
unfolding trailing_failed
trailing_failures [] = (0, true)
trailing_failures (row ∷ rows) =
    let (n, whole) = trailing_failures rows in
    let (m, failed) = trailing_failed row in if whole then (n + m, failed) else (n, false)

-- Whether the text ends in a space and has more before it.
abbrev ends_spaced : Text → Bool
ends_spaced [] = false
ends_spaced (c ∷ []) = false
ends_spaced (c ∷ d ∷ []) = d == 32
ends_spaced (c ∷ d ∷ f ∷ t) = ends_spaced (d ∷ f ∷ t)

abbrev not_bar : ℕ → Bool
not_bar c = not (c == b'|')

abbrev not_space : ℕ → Bool
not_space c = not (is_space c)

-- `([^|]+)\|([^|]+) \|`: the first group.
abbrev slug_in : Text → Option Text
slug_in t =
    let first = run_of not_bar t in
    elim (past_run not_bar t) [
      | [] ↦ none
      | bar ∷ rest ↦
          if not (is_empty first)
            && ends_spaced (run_of not_bar rest)
            && not (is_empty (past_run not_bar rest))
          then some first
          else none
    ]

abbrev slug_behind : Option Text → Option Text
slug_behind none = none
slug_behind (some t) = slug_in t

abbrev slug_stamped : Option Text → Option Text
slug_stamped none = none
slug_stamped (some t) =
    if is_empty (run_of not_space t)
    then none
    else slug_behind (behind_prefix (codes " | ") (past_run not_space t))

abbrev or_slug : Option Text → Option Text → Option Text
or_slug (some slug) rest = some slug
or_slug none rest = rest

-- The search for `overnight-lead \| \S+ \| ([^|]+)\|([^|]+) \|`.
unfoldable pub dead_slug : Text → Option Text
unfolding behind_prefix run_of past_run
dead_slug [] = none
dead_slug (c ∷ t) =
    or_slug (slug_stamped (behind_prefix (codes "overnight-lead | ") (c ∷ t))) (dead_slug t)

abbrev pub cause_char : ℕ → Bool
cause_char c = is_word_char c || c == b'-'

abbrev cause_run : Text → Option Text → Option Text
cause_run t rest = let found = run_of cause_char t in if is_empty found then rest else some found

abbrev cause_at : Option Text → Option Text → Option Text
cause_at none rest = rest
cause_at (some t) rest = cause_run t rest

-- The search for `cause=([\w-]+)`.
unfoldable pub dead_cause : Text → Option Text
unfolding behind_prefix run_of
dead_cause [] = none
dead_cause (c ∷ t) = cause_at (behind_prefix (codes "cause=") (c ∷ t)) (dead_cause t)

abbrev dead_row : Option Text → Option Text → List (Text × Text) → List (Text × Text)
dead_row (some slug) (some cause) rows = (strip slug, cause) ∷ rows
dead_row _ _ rows = rows

-- `parse_dead_rows(text)`, of the lines
unfoldable pub parse_dead_rows : List Text → List (Text × Text)
unfolding starts occurs dead_slug dead_cause strip
parse_dead_rows [] = []
parse_dead_rows (line ∷ lines) =
    let rows = parse_dead_rows lines in
    if starts (codes "overnight-lead | ") line && occurs (codes " dead") line
    then dead_row (dead_slug line) (dead_cause line) rows
    else rows

-- `trailing_same_cause(rows)`
unfoldable pub trailing_same_cause : List (Text × Text) → Option (Text × Text × ℕ)
unfolding same_text
trailing_same_cause [] = none
trailing_same_cause ((slug, cause) ∷ rows) =
    let rest = trailing_same_cause rows in
    if all (λ r. same_text r.0 slug && same_text r.1 cause) rows
    then some (slug, cause, suc (length rows))
    else rest

-- The times of the rows with and without the mark `overnight-done`.
abbrev timed : Bool → Option ℕ → List ℕ × List ℕ → List ℕ × List ℕ
timed done none times = times
timed true (some ts) (dones, ticks) = (ts ∷ dones, ticks)
timed false (some ts) (dones, ticks) = (dones, ts ∷ ticks)

unfoldable pub times_of : Env → List Text → List ℕ × List ℕ
unfolding before occurs strip
times_of e [] = ([], [])
times_of e (line ∷ lines) =
    timed (occurs (codes "overnight-done") line)
      (e.parse_iso (take 19 (strip (before (codes " | ") line)))) (times_of e lines)

abbrev newest : ℕ → List ℕ → ℕ
newest ts [] = ts
newest ts (t ∷ times) = max t (newest ts times)

abbrev silent_since : Env → ℤ → List ℕ × List ℕ → Bool
silent_since e seconds ([], ticks) = false
silent_since e seconds (ts ∷ dones, ticks) =
    let last = newest ts dones in leb_ℤ (seconds +ℤ pos last) (pos e.now) && any (ltb last) ticks

-- `beat_silence(text, now, hours)`, of the lines
unfoldable pub beat_silence : Env → ℤ → List Text → Bool
unfolding times_of
beat_silence e seconds lines = silent_since e seconds (times_of e lines)
