-- ===== src/Supervision/Transcript.antt =====
-- automation/jobs/agent-supervision.py: the loop of scan_transcript over the lines of a transcript.
use Prim.Native.Nat.{ℕ, ◌+◌}
use hngh.Prelude.{
  String, ℤ, pos, negsuc, Option, none, some, List, [], ◌∷◌, ◌++◌, Bool, true, false, not, ◌&&◌,
  ◌||◌, ◌==◌, str_eq, take, if◌then◌else◌,
}
use hngh.Texts.{Text, codes, is_empty, behind_prefix, occurs, run_of, past_run}
use hngh.Schema.Json.{
  Json, null, boolean, integer, real, text, array, object, nil, cons, end, field, Dict, items,
  fields, get,
}
use hngh.Supervision.{Env}

-- What is outside: `json.loads` (`none` is ValueError), `json.dumps` with sorted keys and `str` of what
-- `get` returns, the equality of two such values that are not both texts, and the seconds in
-- `float(text)` minutes, rounded down.
pub record Decoder : Type 0 where
  pub loads : Text → Option Json
  pub dumps : Option Json → Text
  pub shown : Option Json → Text
  pub same_value : Option Json → Option Json → Bool
  pub minutes : Text → Option ℤ

-- A tool call: its name and its arguments.
pub record Call : Type 0 where
  pub name : Option Json
  pub args : Text

pub data Role : Type 0 where
  assistant tool_result other_role : Role

-- The variables of the loop.
pub record Scan : Type 0 where
  pub entries : ℕ
  pub toolcalls : ℕ
  pub last_tool : Option ℕ
  pub last_asst : Option Text
  pub exited : Bool
  pub calls : List Call
  pub last_text : Text
  pub last_role : Option Role
  pub last_ts : Option ℕ

abbrev pub initial : Scan
initial = record {
  entries = 0;
  toolcalls = 0;
  last_tool = none;
  last_asst = none;
  exited = false;
  calls = [];
  last_text = [];
  last_role = none;
  last_ts = none;
}

abbrev not_quote : ℕ → Bool
not_quote c = not (c == b'"')

abbrev quoted_at : Option Text → Option Text → Option Text
quoted_at none rest = rest
quoted_at (some t) rest =
    let found = run_of not_quote t in
    if not (is_empty found) && not (is_empty (past_run not_quote t)) then some found else rest

-- The search for a mark, a text without quotes, and a quote.
unfoldable pub quoted : Text → Text → Option Text
unfolding behind_prefix run_of past_run
quoted mark [] = none
quoted mark (c ∷ t) = quoted_at (behind_prefix mark (c ∷ t)) (quoted mark t)

-- `_iso_ts(s)`
abbrev pub iso_ts : Env → Option Text → Option ℕ
iso_ts e none = none
iso_ts e (some t) = e.parse_iso (take 19 t)

-- The time that a line names.
unfoldable pub time_of : Env → Text → Option ℕ
unfolding quoted
time_of e line = iso_ts e (quoted (codes "\"timestamp\":\"") line)

abbrev is_tool : Text → Bool
is_tool line =
    occurs (codes "\"type\":\"toolCall\"") line
    || occurs (codes "\"customType\":\"tool_execution_start\"") line

abbrev or_last : Option ℕ → Option ℕ → Option ℕ
or_last none last = last
or_last (some ts) last = if ts == 0 then last else some ts

-- The counts of a line, before it is decoded.
unfoldable pub counted : Env → Text → Scan → Scan
unfolding occurs time_of
counted e line s = record s {
  entries = s.entries + 1;
  toolcalls = if is_tool line then s.toolcalls + 1 else s.toolcalls;
  last_tool = if is_tool line then or_last (time_of e line) s.last_tool else s.last_tool;
  last_asst =
      if occurs (codes "\"role\":\"assistant\"") line && occurs (codes "\"type\":\"text\"") line
      then some line
      else s.last_asst;
  exited = occurs (codes "\"customType\":\"session_exit\"") line;
}

-- `bool(value)`
abbrev pub is_true : Json → Bool
is_true null = false
is_true (boolean b) = b
is_true (integer (pos n)) = not (n == 0)
is_true (integer (negsuc n)) = true
is_true (real is_zero digits) = not is_zero
is_true (text t) = not (str_eq t "")
is_true (array nil) = false
is_true (array (cons v vs)) = true
is_true (object end) = false
is_true (object (field k v fs)) = true

abbrev or_list : Option Json → Json → Json
or_list none other = other
or_list (some v) other = if is_true v then v else other

-- The dictionaries among what a value yields in a loop; `none` where it cannot be looped over.
abbrev dicts : List Json → List Dict
dicts [] = []
dicts (object fs ∷ vs) = fields fs ∷ dicts vs
dicts (v ∷ vs) = dicts vs

abbrev yields : Json → Option (List Dict)
yields (array vs) = some (dicts (items vs))
yields (object fs) = some []
yields (text t) = some []
yields v = none

-- `msg.get("parts") or msg.get("content") or []`, and its dictionaries
unfoldable pub parts : Dict → Option (List Dict)
unfolding get
parts msg = yields (or_list (get msg "parts") (or_list (get msg "content") (array nil)))

abbrev is_text : String → Option Json → Bool
is_text s (some (text t)) = str_eq t s
is_text s _ = false

unfoldable pub calls_of : Decoder → List Dict → List Call
unfolding get
calls_of d [] = []
calls_of d (c ∷ cs) =
    let rest = calls_of d cs in
    if is_text "toolCall" (get c "type")
    then record { name = get c "name"; args = d.dumps (get c "arguments") } ∷ rest
    else rest

abbrev onto_text : Option Json → Option Text → Option Text
onto_text v none = none
onto_text none (some rest) = some rest
onto_text (some (text t)) (some rest) = some (codes t ++ rest)
onto_text (some _) (some rest) = none

-- The texts of a tool's result; `none` where one is no text, which raises.
unfoldable pub words_of : List Dict → Option Text
unfolding get
words_of [] = some []
words_of (c ∷ cs) = onto_text (get c "text") (words_of cs)

abbrev pub role_of : Option Json → Role
role_of (some (text t)) =
    if str_eq t "assistant"
    then assistant
    else if str_eq t "toolResult"
    then tool_result
    else other_role
role_of _ = other_role

abbrev with_calls : Decoder → Scan → Option (List Dict) → Option Scan
with_calls d s none = none
with_calls d s (some cs) = some (record s { calls = s.calls ++ calls_of d cs })

abbrev with_words : Scan → Option Text → Option Scan
with_words s none = none
with_words s (some t) = some (record s { last_text = t })

abbrev words_in : Option (List Dict) → Option Text
words_in none = none
words_in (some cs) = words_of cs

abbrev by_role : Decoder → Dict → Scan → Role → Option Scan
by_role d msg s assistant = with_calls d s (parts msg)
by_role d msg s tool_result = with_words s (words_in (parts msg))
by_role d msg s other_role = some s

-- A message with its role.
unfoldable pub said : Env → Decoder → Text → Dict → Scan → Option Scan
unfolding time_of get parts calls_of words_of
said e d line msg s =
    let role = role_of (get msg "role") in
    by_role d msg (record s { last_ts = time_of e line; last_role = some role }) role

abbrev message_of : Env → Decoder → Text → Scan → Option Json → Option Scan
message_of e d line s (some (object fs)) = said e d line (fields fs) s
message_of e d line s _ = some s

-- A decoded line; what is no dictionary raises.
abbrev decoded_line : Env → Decoder → Text → Scan → Option Json → Option Scan
decoded_line e d line s none = some s
decoded_line e d line s (some (object fs)) = message_of e d line s (get (fields fs) "message")
decoded_line e d line s (some _) = none

-- One line; `none` where it raises.
unfoldable pub scan_line : Env → Decoder → Text → Scan → Option Scan
unfolding counted occurs said get
scan_line e d line s =
    let s' = counted e line s in
    if occurs (codes "\"role\":\"") line then decoded_line e d line s' (d.loads line) else some s'

abbrev then_scan : Option Scan → (Scan → Option Scan) → Option Scan
then_scan none f = none
then_scan (some s) f = f s

unfoldable pub scan_lines : Env → Decoder → List Text → Scan → Option Scan
unfolding scan_line
scan_lines e d [] s = some s
scan_lines e d (line ∷ lines) s = then_scan (scan_line e d line s) (λ u. scan_lines e d lines u)
