-- ===== src/Ng/Jev/Closed.antt =====
-- automation/ng/jev.py: an answer is from the question's closed label set, whatever the backend says.
use Prim.Native.String.{String}
use hngh.Prelude.{
  ℕ, ◌≡◌, refl, Option, none, some, List, [], ◌∷◌, map, take, Bool, true, false, str_eq, contains,
  if◌then◌else◌, ℤ, pos, ◌⊎◌, inl, inr, arith, eq_iff, Bool-cases, if_ind, not,
}
use hngh.Schema.Json.{Json}
use hngh.Ng.Contract.{done, uncertain, escalate, Question, Answer}
use hngh.Ng.Jev.{
  Host, find_label, or_label, label_at, last_label, match_label, answer_of, failed_answer,
  chat_answer, local_answer, typed_answer, allowed_base, ask, ask_row, typed_batch, ask_batch,
  content_of, usage_tokens, content_answer, winner_label, label_answer, with_first, or_each,
}

module _ (h : Host) where
  find_label-contains :
      (want : String) (labels : List String) (lab : String)
      → find_label h want labels ≡ some lab
      → contains labels lab ≡ true
  unfolding find_label
  find_label-contains want [] lab e = absurd cc
  find_label-contains want (l ∷ labels) lab e = elim (Bool-cases (str_eq (h.lower l) want)) [
    | inl k ↦ let same : l ≡ lab = cc (rw k at e) in ground (arith, eq_iff lab l)
    | inr k ↦ ground (arith, find_label-contains want labels lab (rw k at e))
  ]

  label_at-contains :
      (labels : List String) (line lab : String)
      → label_at h labels line ≡ some lab
      → contains labels lab ≡ true
  unfolding label_at
  label_at-contains labels line lab e = go (h.label_in line) e
    where
      go :
          (o : Option String)
          → elim o [ none ↦ none | some want ↦ find_label h (h.clean want) labels ] ≡ some lab
          → contains labels lab ≡ true
      go none e = absurd cc
      go (some want) e = find_label-contains (h.clean want) labels lab e

  or_label-cases :
      (o p : Option String) (lab : String)
      → or_label o p ≡ some lab
      → (o ≡ some lab) ⊎ (p ≡ some lab)
  unfolding or_label
  or_label-cases none p lab e = inr e
  or_label-cases (some l) p lab e = inl e

  last_label-contains :
      (labels lines : List String) (lab : String)
      → last_label h labels lines ≡ some lab
      → contains labels lab ≡ true
  unfolding last_label
  last_label-contains labels [] lab e = absurd cc
  last_label-contains labels (line ∷ lines) lab e =
      elim (or_label-cases (last_label h labels lines) (label_at h labels line) lab e) [
        | inl found ↦ last_label-contains labels lines lab found
        | inr here ↦ label_at-contains labels line lab here
      ]

module _ (h : Host) {S : Type 0} where
  -- One of the question's labels, that does or does not say "escalate".
  abbrev pub Labelled : Question S → Answer → Bool → Type 0
  Labelled q a escalates =
      (lab : String) × (a.label ≡ some lab)
      × (contains q.labels lab ≡ true)
      × (str_eq (h.lower lab) "escalate" ≡ escalates)

  -- The answer is bound to the question's snapshot, and is "done" with a label of the question that is
  -- not "escalate", or "uncertain" without a label, or "escalate" with no label or that label.
  pub record IsClosed (q : Question S) (a : Answer) : Type 0 where
    pub bound : a.state_version ≡ q.state_version
    pub closed :
        ((a.verdict ≡ done) × Labelled q a false)
        ⊎ (((a.verdict ≡ uncertain) × (a.label ≡ none))
            ⊎ ((a.verdict ≡ escalate) × ((a.label ≡ none) ⊎ Labelled q a true)))

  done_or_escalated :
      (q : Question S) (tok : ℤ) (lab : String)
      → contains q.labels lab ≡ true
      → IsClosed q (
          if str_eq (h.lower lab) "escalate"
          then answer_of escalate (some lab) q tok
          else answer_of done (some lab) q tok)
  done_or_escalated q tok lab known =
      if_ind (IsClosed q) (str_eq (h.lower lab) "escalate")
        (λ e. record { bound = refl; closed = inr (inr (refl, inr (lab, refl, known, e))) })
        (λ e. record { bound = refl; closed = inl (refl, (lab, refl, known, e)) })

  unsure : (q : Question S) (tok : ℤ) → IsClosed q (answer_of uncertain none q tok)
  unsure q tok = record { bound = refl; closed = inr (inl (refl, refl)) }

  failed : (q : Question S) → IsClosed q (failed_answer q)
  failed q = record { bound = refl; closed = inr (inr (refl, inl refl)) }

  chat_answer-IsClosed :
      (q : Question S) (tok : ℤ) (o : Option String) (lines : List String)
      → last_label h q.labels lines ≡ o
      → IsClosed q (chat_answer h q tok o)
  unfolding chat_answer
  chat_answer-IsClosed q tok none lines e = unsure q tok
  chat_answer-IsClosed q tok (some lab) lines e =
      done_or_escalated q tok lab (last_label-contains h q.labels lines lab e)

  content_answer-IsClosed :
      (q : Question S) (tok : ℤ) (o : Option String) → IsClosed q (content_answer h q tok o)
  unfolding content_answer match_label
  content_answer-IsClosed q tok none = failed q
  content_answer-IsClosed q tok (some content) =
      chat_answer-IsClosed q tok (last_label h q.labels (h.lines_of content)) (h.lines_of content)
        refl

  label_answer-IsClosed :
      (q : Question S) (sure : Bool) (w : Option String) (o : Option String)
      → winner_label h q w ≡ o
      → IsClosed q (label_answer h q sure o)
  unfolding label_answer winner_label
  label_answer-IsClosed q sure w none e = unsure q (pos 0)
  label_answer-IsClosed q sure none (some lab) e = absurd cc
  label_answer-IsClosed q true (some w) (some lab) e =
      done_or_escalated q (pos 0) lab (find_label-contains h (h.clean w) q.labels lab e)
  label_answer-IsClosed q false (some w) (some lab) e =
      if_ind (IsClosed q) (str_eq (h.lower lab) "escalate")
        (λ k. record {
          bound = refl;
          closed =
              inr
                (inr (refl, inr (lab, refl, find_label-contains h (h.clean w) q.labels lab e, k)));
        })
        (λ k. unsure q (pos 0))

  typed_answer-IsClosed :
      (q : Question S) (row : Option String × Bool) → IsClosed q (typed_answer h q row)
  unfolding typed_answer
  typed_answer-IsClosed q (w, sure) = label_answer-IsClosed q sure w (winner_label h q w) refl

  ask_row-IsClosed :
      (base : String) (reply : Option Json) (quarter : ℕ) (q : Question S)
      (o : Option (Option String × Bool))
      → IsClosed q (ask_row h base reply quarter q o)
  unfolding ask_row local_answer
  ask_row-IsClosed base reply quarter q (some row) = typed_answer-IsClosed q row
  ask_row-IsClosed base none quarter q none =
      if_ind (IsClosed q) (not (allowed_base h base)) (λ _. failed q) (λ _. failed q)
  ask_row-IsClosed base (some payload) quarter q none =
      if_ind (IsClosed q) (not (allowed_base h base)) (λ _. failed q)
        (λ _. content_answer-IsClosed q (usage_tokens h payload quarter) (content_of payload))

  -- One answer for each question, and each of its own.
  abbrev pub Answered : List (Question S) → List Answer → Type 0
  Answered [] [] = Unit
  Answered (q ∷ qs) (a ∷ as') = IsClosed q a × Answered qs as'
  Answered _ _ = ⊥

  ask-Answered :
      (base : String) (typed : Question S → Option (Option String × Bool))
      (chat : Question S → Option Json) (quarter : Question S → ℕ) (qs : List (Question S))
      → Answered qs (map (ask h base typed chat quarter) qs)
  unfolding ask
  ask-Answered base typed chat quarter [] = tt
  ask-Answered base typed chat quarter (q ∷ qs) = (
    ask_row-IsClosed base (chat q) (quarter q) q (typed q),
    ask-Answered base typed chat quarter qs,
  )

  -- The answers of a whole call, where it did not fail.
  abbrev AnsweredBy : List (Question S) → Option (List Answer) → Type 0
  AnsweredBy qs none = Unit
  AnsweredBy qs (some answers) = Answered qs answers

  with_first-AnsweredBy :
      (q : Question S) (qs : List (Question S)) (a : Answer) (o : Option (List Answer))
      → IsClosed q a
      → AnsweredBy qs o
      → AnsweredBy (q ∷ qs) (with_first a o)
  unfolding with_first
  with_first-AnsweredBy q qs a none c h = tt
  with_first-AnsweredBy q qs a (some answers) c h = (c, h)

  typed_batch-AnsweredBy :
      (qs : List (Question S)) (rows : List (Option (Option String × Bool)))
      → AnsweredBy qs (typed_batch h qs rows)
  unfolding typed_batch
  typed_batch-AnsweredBy [] rows = tt
  typed_batch-AnsweredBy (q ∷ qs) [] = tt
  typed_batch-AnsweredBy (q ∷ qs) (none ∷ rows) = tt
  typed_batch-AnsweredBy (q ∷ qs) (some row ∷ rows) =
      with_first-AnsweredBy q qs (typed_answer h q row) (typed_batch h qs rows)
        (typed_answer-IsClosed q row) (typed_batch-AnsweredBy qs rows)

  or_each-Answered :
      (qs : List (Question S)) (o : Option (List Answer)) (one_by_one : List Answer)
      → AnsweredBy qs o
      → Answered qs one_by_one
      → Answered qs (or_each o one_by_one)
  unfolding or_each
  or_each-Answered qs none one_by_one h k = k
  or_each-Answered qs (some answers) one_by_one h k = h

  -- Whatever the typed lane and the local lane return, or raise, `ask_batch` gives one answer for each
  -- of the first 64 questions, bound to that question's snapshot: it is done with a label of the
  -- question that is not escalate, or uncertain without a label, or escalate with no label or with that
  -- label of the question.
  pub ask_batch-Answered :
      (base : String) (typed_all : List (Question S) → List (Option (Option String × Bool)))
      (typed : Question S → Option (Option String × Bool)) (chat : Question S → Option Json)
      (quarter : Question S → ℕ) (questions : List (Question S))
      → Answered (take 64 questions) (ask_batch h base typed_all typed chat quarter questions)
  unfolding ask_batch
  ask_batch-Answered base typed_all typed chat quarter questions =
      let qs = take 64 questions in
      or_each-Answered qs (typed_batch h qs (typed_all qs)) _
        (typed_batch-AnsweredBy qs (typed_all qs)) (ask-Answered base typed chat quarter qs)
