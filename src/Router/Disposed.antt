-- ===== src/Router/Disposed.antt =====
-- automation/scripts/plan-dispose.py: a plan that was disposed of is not disposed of again.
use hngh.Prelude.{
  ◌≡◌, refl, ap, subst, ◌∙◌, Option, none, some, [], ◌∷◌, ◌++◌, append_assoc, Bool, true, false,
  ◌==◌, not, if_ind, all, arith,
}
use hngh.Texts.{Text, codes, is_empty, same_text, holds, behind_prefix, run_of, is_word_char}
use hngh.Router.{Env}
use hngh.Router.Plans.{status_mark, word_of, or_found, is_joined, own_status, replace_status}
use hngh.Router.Dispose.{
  status_for, disposed_status, Parts, disposition, new_header, dispose_parts, dispose_found,
}
use hngh.Router.Status.{own_status-replace_status}

run_of-space : (t v : Text) → run_of is_word_char (t ++ b' ' ∷ v) ≡ run_of is_word_char t
unfolding run_of
run_of-space [] v = refl
run_of-space (c ∷ t) v = ground (arith, run_of-space t v)

-- What stands behind a space does not change what is read before it.
word_of-space :
    (mark t v : Text)
    → all (λ c. not (c == b' ')) mark ≡ true
    → word_of (behind_prefix mark (t ++ b' ' ∷ v)) ≡ word_of (behind_prefix mark t)
unfolding behind_prefix
word_of-space [] t v h = rw (run_of-space t v) refl
word_of-space (a ∷ mark) [] v h = ground arith
word_of-space (a ∷ mark) (c ∷ t) v h = ground (arith, word_of-space mark t v)

or_found-some :
    (o : Option Text) {p q : Option Text} {s : Text}
    → or_found o p ≡ some s
    → (p ≡ some s → q ≡ some s)
    → or_found o q ≡ some s
or_found-some none h k = k h
or_found-some (some found) h k = h

own_status-space :
    (inside : Bool) (t v s : Text)
    → own_status inside t ≡ some s
    → own_status inside (t ++ b' ' ∷ v) ≡ some s
unfolding own_status
own_status-space inside [] v s h = absurd cc
own_status-space true (c ∷ t) v s h = own_status-space (is_joined c) t v s h
own_status-space false (c ∷ t) v s h = rw (word_of-space status_mark (c ∷ t) v refl) (
    or_found-some (word_of (behind_prefix status_mark (c ∷ t))) h
      (own_status-space (is_joined c) t v s))

-- The statuses that are written are words, and terminal.
abbrev Final : Text → Type 0
Final status =
    (all is_word_char status ≡ true)
    × (is_empty status ≡ false)
    × (holds disposed_status status ≡ true)

abbrev FinalIn : Text → Option Text → Type 0
FinalIn status o = o ≡ some status → Final status

Final-some : (known status : Text) → Final known → FinalIn status (some known)
Final-some known status final h = subst Final (cc h) final

status_for-Final : (action status : Text) → FinalIn status (status_for action)
unfolding status_for holds same_text
status_for-Final action status =
    if_ind (FinalIn status) (same_text action (codes "park"))
      (λ _. Final-some (codes "parked") status (refl, refl, refl))
      (λ _.
        if_ind (FinalIn status) (same_text action (codes "kill"))
          (λ _. Final-some (codes "killed") status (refl, refl, refl))
          (λ _.
            if_ind (FinalIn status) (same_text action (codes "supersede"))
              (λ _. Final-some (codes "superseded") status (refl, refl, refl)) (λ _ h. absurd cc)))

new_header-status :
    (e : Env) (status cause reason header : Text)
    → own_status false (replace_status status false header) ≡ some status
    → own_status false (new_header e status cause reason header ++ codes " ") ≡ some status
unfolding new_header disposition
new_header-status e status cause reason header h =
    ap (own_status false)
      (append_assoc (replace_status status false header) (disposition e cause reason) (codes " "))
    ∙ own_status-space false (replace_status status false header) _ status h

-- The header that a disposition wrote, as it is read back with the space before the comment's end, has
-- the status of the action; every later disposition of it is refused.
pub disposed-refused :
    (e e' : Env) (action status cause cause' reason reason' status' old : Text) (p p' : Parts)
    → status_for action ≡ some status
    → own_status false p.header ≡ some old
    → p'.header ≡ new_header e status cause reason p.header ++ codes " "
    → (own_status false p'.header ≡ some status)
      × (dispose_found e' status' cause' reason' (some p') ≡ none)
unfolding dispose_found dispose_parts
disposed-refused e e' action status cause cause' reason reason' status' old p p' asked had written =
    let (plain, nonempty, final) = status_for-Final action status asked in
    let replaced = own_status-replace_status status plain nonempty false p.header old had in
    let now : own_status false p'.header ≡ some status =
      ap (own_status false) written ∙ new_header-status e status cause reason p.header replaced in
    (now, rw (now, final) refl)
