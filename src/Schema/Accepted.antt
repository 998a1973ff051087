-- ===== src/Schema/Accepted.antt =====
-- automation/jobs/viz_schema.py: what a list of issues without an error says of an entry.
use hngh.Prelude.{
  ◌≡◌, refl, String, Option, none, some, List, [], ◌∷◌, ◌++◌, map, Bool, true, false, not, ◌&&◌,
  All, select, any, arith, Bool-cases, inl, inr,
}
use hngh.Schema.Json.{Json, text, object, Fields, Dict, fields, get, has_key, str_kind, is_instance}
use hngh.Schema.Entry.{Issue, Place, err, missing, is_wrong, wrong_types, check_entry, issue_if}
use hngh.Schema.Families.{texts}
use hngh.Schema.Validate.{accepts}

-- The value of the field is a text.
abbrev pub TextAt : Dict → String → Type 0
TextAt d f = (s : String) × (get d f ≡ some (text s))

pub accepts-append : (xs ys : List Issue) → accepts (xs ++ ys) ≡ (accepts xs && accepts ys)
unfolding accepts
accepts-append [] ys = refl
accepts-append (x ∷ xs) ys = ground (arith, accepts-append xs ys)

pub both :
    (xs ys : List Issue) → accepts (xs ++ ys) ≡ true → (accepts xs ≡ true) × (accepts ys ≡ true)
both xs ys h = ground (arith, accepts-append xs ys)

pub accepts-issue_if :
    (b : Bool) (code about : String) (place : Place)
    → accepts (issue_if b (err code place about)) ≡ true
    → b ≡ false
unfolding accepts issue_if
accepts-issue_if true code about place h = ground arith
accepts-issue_if false code about place h = refl

pub accepts-errors :
    {A : Type 0} (code : String) (place : Place) (name : A → String) (p : A → Bool) (xs : List A)
    → accepts (map (λ a. err code place (name a)) (select p xs)) ≡ true
    → any p xs ≡ false
unfolding accepts
accepts-errors code place name p [] h = refl
accepts-errors code place name p (x ∷ xs) h = elim (Bool-cases (p x)) [
  | inl e ↦ absurd (ground (arith, (rw e at h)))
  | inr e ↦ rw e (accepts-errors code place name p xs (rw e at h))
]

text_field :
    (d : Dict) (f : String) → has_key d f ≡ true → is_wrong d (f, str_kind) ≡ false → TextAt d f
unfolding has_key is_wrong
text_field d f h k = text_value (get d f) h k
  where
    text_value :
        (o : Option Json)
        → elim o [ none ↦ false | some v ↦ true ] ≡ true
        → elim o [ none ↦ false | some v ↦ not (is_instance str_kind v) ] ≡ false
        → (s : String) × (o ≡ some (text s))
    text_value none h k = absurd (ground arith)
    text_value (some (text s)) h k = (s, refl)
    text_value (some Json.null) h k = absurd (ground arith)
    text_value (some (Json.boolean b)) h k = absurd (ground arith)
    text_value (some (Json.integer n)) h k = absurd (ground arith)
    text_value (some (Json.real z r)) h k = absurd (ground arith)
    text_value (some (Json.array vs)) h k = absurd (ground arith)
    text_value (some (object fs)) h k = absurd (ground arith)

text_fields :
    (d : Dict) (fs : List String)
    → any (λ f. not (has_key d f)) fs ≡ false
    → any (is_wrong d) (texts fs) ≡ false
    → All (TextAt d) fs
text_fields d [] h k = tt
text_fields d (f ∷ fs) h k =
    (text_field d f (ground arith) (ground arith), text_fields d fs (ground arith) (ground arith))

-- An accepted entry whose fields are texts: an object with all of them, and accepted behind them.
pub check_entry-TextAt :
    (place : Place) (names : List String) (behind : Dict → List Issue) (v : Json)
    → accepts (check_entry place names (texts names) behind v) ≡ true
    → (fs : Fields) × (v ≡ object fs)
      × All (TextAt (fields fs)) names
      × (accepts (behind (fields fs)) ≡ true)
unfolding check_entry
check_entry-TextAt place names behind (object fs) h =
    let d = fields fs in
    let first = both (missing place names d) (wrong_types place (texts names) d ++ behind d) h in
    let second = both (wrong_types place (texts names) d) (behind d) first.1 in
    (fs, refl, text_fields d names (missing-none d first.0) (wrong-none d second.0), second.1)
  where
    missing-none :
        (d : Dict)
        → accepts (missing place names d) ≡ true
        → any (λ f. not (has_key d f)) names ≡ false
    missing-none d k =
        unfold missing in
        accepts-errors "missing-required-field" place (λ f. f) (λ f. not (has_key d f)) names k

    wrong-none :
        (d : Dict)
        → accepts (wrong_types place (texts names) d) ≡ true
        → any (is_wrong d) (texts names) ≡ false
    wrong-none d k =
        unfold wrong_types in
        accepts-errors "wrong-type" place (λ t. t.0) (is_wrong d) (texts names) k
check_entry-TextAt place names behind Json.null h = absurd (unfold accepts in ground arith)
check_entry-TextAt place names behind (Json.boolean b) h = absurd (unfold accepts in ground arith)
check_entry-TextAt place names behind (Json.integer n) h = absurd (unfold accepts in ground arith)
check_entry-TextAt place names behind (Json.real z r) h = absurd (unfold accepts in ground arith)
check_entry-TextAt place names behind (text s) h = absurd (unfold accepts in ground arith)
check_entry-TextAt place names behind (Json.array vs) h = absurd (unfold accepts in ground arith)
