-- ===== src/Ng/Jev.antt =====
-- automation/ng/jev.py: the judgment seam, from a backend's reply to an answer.
pub mod Closed
use Prim.Native.String.{String}
use hngh.Prelude.{
  ℕ, Option, none, some, List, [], ◌∷◌, ◌++◌, map, take, Bool, true, false, not, ◌&&◌, str_eq,
  contains, if◌then◌else◌, ℤ, pos, negsuc,
}
use hngh.Schema.Json.{Json, integer, real, text, array, object, cons, Dict, fields, get}
use hngh.Ng.Contract.{Verdict, done, uncertain, escalate, Question, Answer}

-- What the seam takes from outside. `lines_of` is `text.strip().splitlines()` and `label_in` the group
-- of the regular expression for a label line; `clean` strips spaces and quotes and lowers a text;
-- `int_of_real` is `int` on a float, where it is not negative; `split_url` gives the scheme and the
-- host name of an url, `none` where it raises.
pub record Host : Type 0 where
  pub lines_of : String → List String
  pub label_in : String → Option String
  pub clean : String → String
  pub lower : String → String
  pub int_of_real : String → Option ℤ
  pub split_url : String → Option (String × Option String)

abbrev pub loopback : List String
loopback = "127.0.0.1" ∷ "localhost" ∷ "::1" ∷ []

-- The host name counts: it is there and not empty.
unfoldable pub is_named : Option String → Bool
is_named none = false
is_named (some host) = not (str_eq host "")

-- `_allowed_base(base)`
unfoldable pub allowed_base : Host → String → Bool
unfolding is_named
allowed_base h base = elim (h.split_url base) [
  | none ↦ false
  | some (scheme, host) ↦
      if str_eq scheme "https"
      then is_named host
      else if str_eq scheme "http"
      then contains loopback (h.lower (elim host [ none ↦ "" | some name ↦ name ]))
      else false
]

-- The first of the labels that is the wanted text.
unfoldable pub find_label : Host → String → List String → Option String
find_label h want [] = none
find_label h want (lab ∷ labels) =
    let rest = find_label h want labels in if str_eq (h.lower lab) want then some lab else rest

unfoldable pub or_label : Option String → Option String → Option String
or_label none other = other
or_label (some lab) other = some lab

-- The label of one line.
unfoldable pub label_at : Host → List String → String → Option String
unfolding find_label
label_at h labels line = elim (h.label_in line) [
  | none ↦ none
  | some want ↦ find_label h (h.clean want) labels
]

-- The last line that names a label.
unfoldable pub last_label : Host → List String → List String → Option String
unfolding label_at or_label
last_label h labels [] = none
last_label h labels (line ∷ lines) = or_label (last_label h labels lines) (label_at h labels line)

-- `_match(text, labels)`
unfoldable pub match_label : Host → String → List String → Option String
unfolding last_label
match_label h content labels = last_label h labels (h.lines_of content)

-- The spend under one key of the usage, where it is a number and not negative.
unfoldable pub tokens_at : Host → Dict → String → Option ℤ
unfolding get
tokens_at h use_of key = elim (get use_of key) [
  | none ↦ none
  | some v ↦ elim v [
    | integer n ↦ elim n [ pos k ↦ some (pos k) | negsuc k ↦ none ]
    | real is_zero digits ↦ h.int_of_real digits
    | _ ↦ none
  ]
]

-- The usage of a reply, where it is an object.
unfoldable pub usage_of : Json → Dict
unfolding get
usage_of (object fs) = elim (get (fields fs) "usage") [
  | none ↦ []
  | some v ↦ elim v [ object us ↦ fields us | _ ↦ [] ]
]
usage_of _ = []

-- `_usage_tokens(payload, prompt)`, with a quarter of the prompt's length.
unfoldable pub usage_tokens : Host → Json → ℕ → ℤ
unfolding tokens_at usage_of
usage_tokens h payload quarter = elim (tokens_at h (usage_of payload) "prompt_tokens") [
  | some n ↦ n
  | none ↦ elim (tokens_at h (usage_of payload) "promptTokens") [ some n ↦ n | none ↦ pos quarter ]
]

unfoldable pub field_of : Option Json → String → Option Json
unfolding get
field_of (some (object fs)) key = get (fields fs) key
field_of _ key = none

unfoldable pub first_of : Option Json → Option Json
first_of (some (array (cons v vs))) = some v
first_of _ = none

unfoldable pub text_of : Option Json → Option String
text_of (some (text s)) = some s
text_of _ = none

-- `payload["choices"][0]["message"]["content"]`, where it is a text; `none` is an exception.
unfoldable pub content_of : Json → Option String
unfolding field_of first_of text_of
content_of payload =
    text_of (field_of (field_of (first_of (field_of (some payload) "choices")) "message") "content")

unfoldable pub with_first : Answer → Option (List Answer) → Option (List Answer)
with_first a none = none
with_first a (some answers) = some (a ∷ answers)

-- The answers of a whole call, or those of the questions one by one.
unfoldable pub or_each : Option (List Answer) → List Answer → List Answer
or_each none one_by_one = one_by_one
or_each (some answers) one_by_one = answers

module _ {S : Type 0} where
  abbrev pub answer_of : Verdict → Option String → Question S → ℤ → Answer
  answer_of verdict label q tok = record {
    verdict = verdict;
    label = label;
    evidence = [];
    state_version = q.state_version;
    input_tokens = tok;
  }

  -- `fail()`
  abbrev pub failed_answer : Question S → Answer
  failed_answer q = answer_of escalate none q (pos 0)

  -- The answer for a label that was matched.
  unfoldable pub chat_answer : Host → Question S → ℤ → Option String → Answer
  chat_answer h q tok none = answer_of uncertain none q tok
  chat_answer h q tok (some lab) =
      if str_eq (h.lower lab) "escalate"
      then answer_of escalate (some lab) q tok
      else answer_of done (some lab) q tok

  -- The answer to a reply's content; `none` is an exception.
  unfoldable pub content_answer : Host → Question S → ℤ → Option String → Answer
  unfolding chat_answer match_label
  content_answer h q tok none = failed_answer q
  content_answer h q tok (some content) = chat_answer h q tok (match_label h content q.labels)

  -- The local lane's answer to what the request returned; `none` is an exception.
  unfoldable pub local_answer : Host → ℕ → Question S → Option Json → Answer
  unfolding content_answer usage_tokens content_of
  local_answer h quarter q none = failed_answer q
  local_answer h quarter q (some payload) =
      content_answer h q (usage_tokens h payload quarter) (content_of payload)

  -- A winner's label among those of the question.
  unfoldable pub winner_label : Host → Question S → Option String → Option String
  unfolding find_label
  winner_label h q none = none
  winner_label h q (some w) = find_label h (h.clean w) q.labels

  unfoldable pub label_answer : Host → Question S → Bool → Option String → Answer
  label_answer h q sure none = answer_of uncertain none q (pos 0)
  label_answer h q sure (some lab) =
      if str_eq (h.lower lab) "escalate"
      then answer_of escalate (some lab) q (pos 0)
      else if sure
      then answer_of done (some lab) q (pos 0)
      else answer_of uncertain none q (pos 0)

  -- One row of the typed lane: the winner, where it is a text, and whether the confidence is a number
  -- at the floor or above.
  unfoldable pub typed_answer : Host → Question S → Option String × Bool → Answer
  unfolding winner_label label_answer
  typed_answer h q (winner, sure) = label_answer h q sure (winner_label h q winner)

  -- `ask(question, base_url)`: the row of the typed lane, where it is configured and gives one, or the
  -- local lane at an allowed url.
  unfoldable pub ask_row :
      Host → String → Option Json → ℕ → Question S → Option (Option String × Bool) → Answer
  unfolding allowed_base typed_answer local_answer
  ask_row h base reply quarter q (some row) = typed_answer h q row
  ask_row h base reply quarter q none =
      if not (allowed_base h base) then failed_answer q else local_answer h quarter q reply

  unfoldable pub ask :
      Host
      → String
      → (Question S → Option (Option String × Bool))
      → (Question S → Option Json)
      → (Question S → ℕ)
      → Question S
      → Answer
  unfolding ask_row
  ask h base typed chat quarter q = ask_row h base (chat q) (quarter q) q (typed q)

  -- The typed lane's answers, from the row that the call returned for each question; one that is
  -- missing fails the whole call.
  unfoldable pub typed_batch :
      Host → List (Question S) → List (Option (Option String × Bool)) → Option (List Answer)
  unfolding typed_answer with_first
  typed_batch h [] rows = some []
  typed_batch h (q ∷ qs) [] = none
  typed_batch h (q ∷ qs) (none ∷ rows) = none
  typed_batch h (q ∷ qs) (some row ∷ rows) =
      with_first (typed_answer h q row) (typed_batch h qs rows)

  -- `ask_batch(questions)`: at most 64 questions, in one call of the typed lane or one by one.
  unfoldable pub ask_batch :
      Host
      → String
      → (List (Question S) → List (Option (Option String × Bool)))
      → (Question S → Option (Option String × Bool))
      → (Question S → Option Json)
      → (Question S → ℕ)
      → List (Question S)
      → List Answer
  unfolding typed_batch ask or_each
  ask_batch h base typed_all typed chat quarter questions =
      let qs = take 64 questions in
      or_each (typed_batch h qs (typed_all qs)) (map (ask h base typed chat quarter) qs)
