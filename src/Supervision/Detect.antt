-- ===== src/Supervision/Detect.antt =====
-- automation/jobs/agent-supervision.py: scan_transcript, and what it detects behind its loop.
use Prim.Native.Nat.{ℕ, ◌+◌, ◌-◌, max}
use hngh.Prelude.{
  ℤ, pos, pos_part, Option, none, some, List, [], ◌∷◌, ◌++◌, Bool, true, false, not, ◌&&◌, ◌||◌,
  ◌==◌, str_eq, any, all, map, take, drop, length, ltb_ℤ, ◌+ℤ◌, if◌then◌else◌,
}
use hngh.Texts.{
  Text, codes, same_text, behind_prefix, occurs, is_word_char, is_upper, Decimal.decimal,
}
use hngh.Schema.Json.{Json, text}
use hngh.QueuePointer.{strip}
use hngh.Router.{replaced}
use hngh.Supervision.{Env}
use hngh.Supervision.Parse.{get_param}
use hngh.Supervision.Transcript.{Decoder, Call, Role, tool_result, Scan, initial, scan_lines}

-- `text.lower()`
unfoldable pub lower : Text → Text
lower t = map (λ c. if is_upper c then c + 32 else c) t

abbrev has_any : List Text → Text → Bool
has_any marks t = any (λ m. occurs m t) marks

-- `errish(t)`
unfoldable pub errish : Text → Bool
unfolding lower occurs
errish t =
    has_any
      (codes "traceback"
        ∷ codes "fatal"
        ∷ codes "exception"
        ∷ codes "does not exist"
        ∷ codes "not found"
        ∷ codes "error:"
        ∷ codes "failed"
        ∷ codes "permission denied"
        ∷ codes "exit status"
        ∷ codes "assertionerror"
        ∷ codes "fail:"
        ∷ [])
      (lower t)

-- Whether the text goes on with no word character.
abbrev ends_word : Option Text → Bool
ends_word none = false
ends_word (some []) = true
ends_word (some (c ∷ t)) = not (is_word_char c)

-- Whether a phrase stands in the text with a word boundary on both sides; `inside` says that a word
-- character stands before the text. The phrases begin and end with word characters.
unfoldable pub stands : Bool → List Text → Text → Bool
unfolding behind_prefix
stands inside phrases [] = false
stands inside phrases (c ∷ t) =
    (not inside && any (λ p. ends_word (behind_prefix p (c ∷ t))) phrases)
    || stands (is_word_char c) phrases t

abbrev ask_phrases : List Text
ask_phrases =
    codes "confirm"
    ∷ codes "confirmation"
    ∷ codes "shall i"
    ∷ codes "should i"
    ∷ codes "waiting for"
    ∷ codes "may i proceed"
    ∷ codes "yes or no"
    ∷ codes "y/n"
    ∷ []

-- Whether the last text of the assistant asks the operator.
unfoldable pub asks_in : Option Text → Bool
unfolding stands lower
asks_in none = false
asks_in (some line) = stands false ask_phrases (lower line)

abbrev same_name : Decoder → Option Json → Option Json → Bool
same_name d (some (text a)) (some (text b)) = str_eq a b
same_name d a b = d.same_value a b

abbrev same_call : Decoder → Call → Call → Bool
same_call d a b = same_name d a.name b.name && same_text a.args b.args

abbrev name_text : Decoder → Option Json → Text
name_text d (some (text t)) = codes t
name_text d v = d.shown v

abbrev loop_in : Decoder → ℕ → List Call → Option Text
loop_in d n [] = none
loop_in d n (c ∷ tail) =
    if length (c ∷ tail) == n && all (λ x. same_call d x c) (c ∷ tail)
    then some (codes "identical tool call x" ++ decimal n ++ codes ": " ++ name_text d c.name)
    else none

-- `loop_sig`: the last n calls are one call.
unfoldable pub loop_sig : Decoder → ℕ → List Call → Option Text
unfolding same_text
loop_sig d n calls = loop_in d n (drop (length calls - n) calls)

abbrev is_result : Option Role → Bool
is_result (some tool_result) = true
is_result _ = false

abbrev is_past : Env → ℤ → Option ℕ → Bool
is_past e grace none = false
is_past e grace (some ts) = ltb_ℤ (grace +ℤ pos ts) (pos e.now)

-- `err_sig`: the last message is a failed result, and the grace is over.
unfoldable pub err_sig : Env → ℤ → Scan → Option Text
unfolding errish strip replaced
err_sig e grace s =
    if is_result s.last_role && errish s.last_text && is_past e grace s.last_ts
    then some (
        codes "hard error result, no corrective step: "
        ++ take 160 (replaced b'\n' b' ' (strip s.last_text)))
    else none

pub record Stats : Type 0 where
  pub entries : ℕ
  pub toolcalls : ℕ
  pub last_tool : Option ℕ
  pub asks : Bool
  pub exited : Bool
  pub loop : Option Text
  pub error : Option Text

-- How a scan ends: it raises, it gives nothing, or the stats.
pub data Scanned : Type 0 where
  raised : Scanned
  no_stats : Scanned
  stats : Stats → Scanned

abbrev stats_of : Env → Decoder → ℕ → ℤ → Option Scan → Scanned
stats_of e d n grace none = raised
stats_of e d n grace (some s) =
    if s.entries == 0
    then no_stats
    else stats (record {
      entries = s.entries;
      toolcalls = s.toolcalls;
      last_tool = s.last_tool;
      asks = asks_in s.last_asst;
      exited = s.exited;
      loop = loop_sig d n s.calls;
      error = err_sig e grace s;
    })

abbrev scanned : Env → Decoder → Option ℤ → Option ℤ → Option (List Text) → Scanned
scanned e d none grace lines = raised
scanned e d (some n) none lines = raised
scanned e d (some n) (some grace) none = no_stats
scanned e d (some n) (some grace) (some lines) =
    stats_of e d (max 2 (pos_part n)) grace (scan_lines e d lines initial)

-- `scan_transcript(path)`, of the lines of the file; `none` where it cannot be read.
unfoldable pub scan_transcript : Env → Decoder → Option (List Text) → Scanned
unfolding get_param scan_lines asks_in loop_sig err_sig
scan_transcript e d lines =
    scanned e d (e.int_of (get_param e (codes "watchdog-loop-n") (codes "3")))
      (d.minutes (get_param e (codes "watchdog-error-grace-min") (codes "2"))) lines
