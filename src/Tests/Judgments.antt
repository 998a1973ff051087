-- ===== src/Tests/Judgments.antt =====
-- Replies to a question with two labels.
use hngh.Prelude.{String, ℕ, Option, none, some, [], ◌∷◌, take, map, true, false, ◌≡◌, refl, pos}
use hngh.Schema.Json.{Json, text, array, object, integer, cons, nil, field, end}
use hngh.Ng.Contract.{done, escalate, Question, Answer}
use hngh.Ng.Jev.{Host, ask, ask_batch, answer_of}
use hngh.Ng.Jev.Closed.{Answered, ask_batch-Answered}

-- A host for one-line replies that are a label.
abbrev host : Host
host = record {
  lines_of = λ s. s ∷ [];
  label_in = λ s. some s;
  clean = λ s. s;
  lower = λ s. s;
  int_of_real = λ s. none;
  split_url = λ s. some (s, none);
}

abbrev question : Question ℕ
question = record {
  head = "triage";
  slots = 0;
  labels = "file" ∷ "escalate" ∷ [];
  state_version = 3;
}

abbrev reply : String → Json
reply content = object (
    field "choices"
      (array
        (cons (object (field "message" (object (field "content" (text content) end)) end)) nil))
      (field "usage" (object (field "promptTokens" (integer (pos 12)) end)) end))

abbrev asked : String → Option Json → Answer
asked base payload = ask host base (λ q. none) (λ q. payload) (λ q. 5) question

ask_runs :
    (asked "http" (some (reply "file")) ≡ answer_of escalate none question (pos 0))
    × (asked "ftp" (some (reply "file")) ≡ answer_of escalate none question (pos 0))
    × (ask
          (record host { split_url = λ s. some ("https", some "a") })
          ""
          (λ q. none)
          (λ q. some (reply "file"))
          (λ q. 5)
          question
        ≡ answer_of done (some "file") question (pos 12))
    × (ask host "" (λ q. some (some "escalate", false)) (λ q. none) (λ q. 5) question
        ≡ answer_of escalate (some "escalate") question (pos 0))
unfolding ask
ask_runs = (refl, refl, refl, refl)

ask_batch-Answered_example : Answered host (take 64 (question ∷ question ∷ [])) (
    ask_batch host "https"
      (λ qs. map (λ q. some (some "file", true)) qs)
      (λ q. none)
      (λ q. none)
      (λ q. 5)
      (question ∷ question ∷ []))
ask_batch-Answered_example =
    ask_batch-Answered host "https" (λ qs. map (λ q. some (some "file", true)) qs) (λ q. none)
      (λ q. none) (λ q. 5) (question ∷ question ∷ [])
