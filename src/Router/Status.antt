-- ===== src/Router/Status.antt =====
-- automation/scripts/router-tick.py and plan-dispose.py: a status that is written is read back.
use Prim.Native.Nat.{ℕ, zero, suc}
use hngh.Prelude.{
  ◌≡◌, refl, sym, ap, subst, if_true, if_false, ◌==◌, ◌∙◌, inl, inr, Option, none, some,
  Option-cases, if_ind, [], ◌∷◌, ◌++◌, append_assoc, Bool, true, false, not, Bool-cases, all, take,
  length, arith,
}
use hngh.Texts.{Text, is_empty, behind_prefix, run_of, past_run, is_word_char}
use hngh.Router.Free.{behind_prefix-append}
use hngh.Router.Plans.{
  status_mark, word_of, or_found, is_joined, own_status, with_word, replace_status,
}

pub behind_prefix-some : (s t u : Text) → behind_prefix s t ≡ some u → t ≡ s ++ u
unfolding behind_prefix
behind_prefix-some [] t u h = cc
behind_prefix-some (c ∷ s) [] u h = cc
behind_prefix-some (c ∷ s) (d ∷ t) u h = ground (arith, behind_prefix-some s t u)

-- A text that does not start with a word character.
abbrev pub breaks : Text → Bool
breaks [] = true
breaks (c ∷ t) = not (is_word_char c)

run_of-append :
    (word t : Text)
    → all is_word_char word ≡ true
    → breaks t ≡ true
    → run_of is_word_char (word ++ t) ≡ word
unfolding run_of
run_of-append [] [] h k = refl
run_of-append [] (c ∷ t) h k = ground arith
run_of-append (c ∷ word) t h k = ground (arith, run_of-append word t)

breaks-past_run : (t : Text) → breaks (past_run is_word_char t) ≡ true
unfolding past_run
breaks-past_run [] = refl
breaks-past_run (c ∷ t) =
    if_ind (λ (u : Text). breaks u ≡ true) (is_word_char c) (λ _. breaks-past_run t)
      (λ other. rw other refl)

not_word : (c : ℕ) (t : Text) → word_of (some (c ∷ t)) ≡ none → is_word_char c ≡ false
unfolding run_of
not_word c t h = elim (Bool-cases (is_word_char c)) [
  | inl word ↦ absurd (cc (rw word at h))
  | inr other ↦ other
]

no_word : (c : ℕ) (t : Text) → is_word_char c ≡ false → word_of (some (c ∷ t)) ≡ none
unfolding run_of
no_word c t h = rw h refl

-- Whether a word stands behind the mark is seen in one character more than the mark has.
word_of-window :
    (mark t u : Text)
    → word_of (behind_prefix mark t) ≡ none
    → take (suc (length mark)) t ≡ take (suc (length mark)) u
    → word_of (behind_prefix mark u) ≡ none
unfolding behind_prefix run_of
word_of-window [] [] [] h k = refl
word_of-window [] [] (d ∷ u) h k = absurd cc
word_of-window [] (c ∷ t) [] h k = absurd cc
word_of-window [] (c ∷ t) (d ∷ u) h k =
    let same : c ≡ d = cc in no_word d u (rw (sym same) (not_word c t h))
word_of-window (a ∷ mark) [] [] h k = refl
word_of-window (a ∷ mark) [] (d ∷ u) h k = absurd cc
word_of-window (a ∷ mark) (c ∷ t) [] h k = absurd cc
word_of-window (a ∷ mark) (c ∷ t) (d ∷ u) h k =
    let (same, rest) : (c ≡ d) × (take (suc (length mark)) t ≡ take (suc (length mark)) u) =
      (cc, cc) in
    elim (Bool-cases (a == c)) [
      | inl here ↦
          let deeper =
            word_of-window mark t u (subst (λ o. word_of o ≡ none) (if_true _ _ _ here) h) rest in
          subst (λ o. word_of o ≡ none) (sym (if_true _ _ _ (ap (a ==◌) (sym same) ∙ here))) deeper
      | inr other ↦
          subst (λ o. word_of o ≡ none) (sym (if_false _ _ _ (ap (a ==◌) (sym same) ∙ other))) refl
    ]

take-shorter : (n : ℕ) (s t : Text) → take (suc n) s ≡ take (suc n) t → take n s ≡ take n t
take-shorter zero s t h = refl
take-shorter (suc n) [] [] h = refl
take-shorter (suc n) [] (d ∷ t) h = absurd cc
take-shorter (suc n) (c ∷ s) [] h = absurd cc
take-shorter (suc n) (c ∷ s) (d ∷ t) h =
    let (same, rest) : (c ≡ d) × (take (suc n) s ≡ take (suc n) t) = (cc, cc) in
    cc (same, take-shorter n s t rest)

with_word-window :
    (word : Text) (o : Option Text) (t other : Text)
    → behind_prefix status_mark t ≡ o
    → take 7 other ≡ take 7 t
    → take 7 (with_word word o other) ≡ take 7 t
with_word-window word none t other at h = h
with_word-window word (some u) t other at h =
    if_ind (λ (s : Text). take 7 s ≡ take 7 t) (is_empty (run_of is_word_char u)) (λ _. h)
      (λ _. ap (take 7) (sym (behind_prefix-some status_mark t u at)))

replaced-window :
    (word : Text) (inside : Bool) (t : Text) → take 7 (replace_status word inside t) ≡ take 7 t
unfolding replace_status
replaced-window word inside [] = refl
replaced-window word inside (c ∷ t) =
    let kept : take 7 (c ∷ replace_status word (is_joined c) t) ≡ take 7 (c ∷ t) =
      ap (λ s. c ∷ s)
        (take-shorter 6 (replace_status word (is_joined c) t) t
          (replaced-window word (is_joined c) t)) in
    if_ind (λ (s : Text). take 7 s ≡ take 7 (c ∷ t)) inside (λ _. kept)
      (λ _. with_word-window word (behind_prefix status_mark (c ∷ t)) (c ∷ t) _ refl kept)

with_word-none :
    (word : Text) (o : Option Text) (other : Text)
    → word_of o ≡ none
    → with_word word o other ≡ other
with_word-none word none other h = refl
with_word-none word (some u) other h = elim (Bool-cases (is_empty (run_of is_word_char u))) [
  | inl empty ↦ if_true _ _ _ empty
  | inr full ↦ absurd (cc (subst (λ o. o ≡ none) (if_false _ _ _ full) h))
]

with_word-some :
    (word : Text) (o : Option Text) (other s : Text)
    → word_of o ≡ some s
    → (u : Text) × (with_word word o other ≡ status_mark ++ word ++ past_run is_word_char u)
with_word-some word none other s h = absurd cc
with_word-some word (some u) other s h = elim (Bool-cases (is_empty (run_of is_word_char u))) [
  | inl empty ↦ absurd (cc (subst (λ o. o ≡ some s) (if_true _ _ _ empty) h))
  | inr full ↦ (u, if_false _ _ _ full)
]

-- The mark and a word behind it, at a place where they are not joined to what is before.
own_status-mark :
    (word t : Text)
    → all is_word_char word ≡ true
    → is_empty word ≡ false
    → breaks t ≡ true
    → own_status false (status_mark ++ word ++ t) ≡ some word
unfolding own_status
own_status-mark word t plain nonempty h =
    ap (own_status false) (append_assoc status_mark word t)
    ∙ rw (behind_prefix-append status_mark (word ++ t), run_of-append word t plain h, nonempty) refl

module _ (word : Text) (plain : all is_word_char word ≡ true)
    (nonempty : is_empty word ≡ false) where
  -- A word that replaces the status of a text is the status that is then read.
  pub own_status-replace_status :
      (inside : Bool) (t s : Text)
      → own_status inside t ≡ some s
      → own_status inside (replace_status word inside t) ≡ some word
  unfolding own_status replace_status
  own_status-replace_status inside [] s h = absurd cc
  own_status-replace_status true (c ∷ t) s h = own_status-replace_status (is_joined c) t s h
  own_status-replace_status false (c ∷ t) s h =
      elim (Option-cases (word_of (behind_prefix status_mark (c ∷ t)))) [
        | inl absent ↦
            let replaced = replace_status word (is_joined c) t in
            let later =
              own_status-replace_status (is_joined c) t s
                (subst (λ o. or_found o (own_status (is_joined c) t) ≡ some s) absent h) in
            let still =
              word_of-window status_mark (c ∷ t) (c ∷ replaced) absent
                (ap (λ u. c ∷ u) (sym (replaced-window word (is_joined c) t))) in
            subst (λ u. own_status false u ≡ some word)
              (sym (with_word-none word _ (c ∷ replaced) absent))
              (subst (λ o. or_found o (own_status (is_joined c) replaced) ≡ some word) (sym still)
                later)
        | inr (found, here) ↦
            let (u, at) =
              with_word-some word _ (c ∷ replace_status word (is_joined c) t) found here in
            subst (λ u. own_status false u ≡ some word) (sym at)
              (own_status-mark word (past_run is_word_char u) plain nonempty (breaks-past_run u))
      ]
