-- ===== src/Acceptance/Fields.antt =====
-- automation/scripts/accept-plans.py: the fields that FRONT reads, one after the other.
use Prim.Native.Nat.{ℕ, ◌-◌}
use hngh.Prelude.{
  ◌≡◌, refl, sym, ap, ◌∙◌, Option, none, some, List, [], ◌∷◌, ◌++◌, Bool, true, not, ◌||◌,
  Bool-cases, inl, inr, if_true, if_false, all, take, length, length-append, arith,
}
use hngh.Texts.{
  Text, codes, is_empty, before, behind, behind_prefix, run_of, past_run, is_word_char, is_space,
}
use hngh.Router.Status.{behind_prefix-some}
use hngh.Acceptance.{
  Front, Reading, read_key, word_behind, spaced, opened, plan_key, closed, closed_by, closing_field,
  without_dashes,
}

run-past : (p : ℕ → Bool) (t : Text) → t ≡ run_of p t ++ past_run p t
unfolding run_of past_run
run-past p [] = refl
run-past p (c ∷ t) = ground (arith, run-past p t)

all-run_of : (p : ℕ → Bool) (t : Text) → all p (run_of p t) ≡ true
unfolding run_of
all-run_of p [] = refl
all-run_of p (c ∷ t) = ground (arith, all-run_of p t)

abbrev Split : Text → Text → Type 0
Split t rest = (l : Text) × (t ≡ l ++ rest)

or_later :
    (s t rest : Text) (d : ℕ) (o : Option Text)
    → behind_prefix s (d ∷ t) ≡ o
    → (behind s t ≡ some rest → Split t rest)
    → elim o [ some found ↦ some found | none ↦ behind s t ] ≡ some rest
    → Split (d ∷ t) rest
or_later s t rest d none at later e = let (l, eq) = later e in (d ∷ l, ap (λ u. d ∷ u) eq)
or_later s t rest d (some found) at later e = (s, behind_prefix-some s (d ∷ t) rest (at ∙ e))

-- What stands behind the first `s`.
behind-some : (s t rest : Text) → behind s t ≡ some rest → Split t rest
unfolding behind
behind-some s [] rest h = (s, behind_prefix-some s [] rest h)
behind-some s (d ∷ t) rest h =
    or_later s t rest d (behind_prefix s (d ∷ t)) refl (behind-some s t rest) h

take-length : (x y : Text) → take (length x) (x ++ y) ≡ x
take-length [] y = refl
take-length (c ∷ x) y = ap (λ u. c ∷ u) (take-length x y)

pub take-append : (x y : Text) → take (length (x ++ y) - length y) (x ++ y) ≡ x
take-append x y = ap (λ n. take n (x ++ y)) (omega (arith, length-append x y)) ∙ take-length x y

-- A field's word, and the space behind it.
spaced-some :
    (fields : List Text) (value t : Text) (r : Text × List Text)
    → spaced fields value t ≡ some r
    → (r.1 ≡ value ∷ fields) × (t ≡ run_of is_space t ++ r.0)
spaced-some fields value t r h =
    elim (Bool-cases (is_empty value || is_empty (run_of is_space t))) [
      | inl empty ↦ absurd (cc (sym (if_true _ _ _ empty) ∙ h))
      | inr full ↦
          let e : some (past_run is_space t, value ∷ fields) ≡ some r =
            sym (if_false _ _ _ full) ∙ h in
          (cc, run-past is_space t ∙ ap (λ u. run_of is_space t ++ u) cc)
    ]

-- A field: its key, its word, and what is left.
word_behind-some :
    (fields : List Text) (o : Option Text) (r : Text × List Text)
    → word_behind fields o ≡ some r
    → (value sp : Text) × (r.1 ≡ value ∷ fields) × (o ≡ some (value ++ (sp ++ r.0)))
word_behind-some fields none r h = absurd cc
word_behind-some fields (some t) r h =
    let found = spaced-some fields (run_of is_word_char t) (past_run is_word_char t) r h in
    (
      run_of is_word_char t,
      run_of is_space (past_run is_word_char t),
      found.0,
      ap some (run-past is_word_char t ∙ ap (λ u. run_of is_word_char t ++ u) found.1),
    )

pub read_key-some :
    (key : Text) (o : Reading) (r : Text × List Text)
    → read_key key o ≡ some r
    → (t : Text) × (fields : List Text) × (value sp : Text) × (o ≡ some (t, fields))
      × (r.1 ≡ value ∷ fields)
      × (t ≡ key ++ (value ++ (sp ++ r.0)))
read_key-some key none r h = absurd cc
read_key-some key (some (t, fields)) r h =
    let (value, sp, eq, at) = word_behind-some fields (behind_prefix key t) r h in
    (t, fields, value, sp, refl, eq, behind_prefix-some key t _ at)

plan_key-some :
    (o : Option Text) (r : Text × List Text)
    → plan_key o ≡ some r
    → (sp : Text) × (all is_space sp ≡ true) × (r.1 ≡ []) × (o ≡ some (sp ++ r.0))
plan_key-some none r h = absurd cc
plan_key-some (some t) r h = (
  run_of is_space t,
  all-run_of is_space t,
  cc,
  ap some (run-past is_space t ∙ ap (λ u. run_of is_space t ++ u) cc),
)

-- `plan:` with the space around it.
abbrev pub Opening : Text → Text → Type 0
Opening t rest =
    (sp sp' : Text) × (all is_space sp ≡ true)
    × (all is_space sp' ≡ true)
    × (t ≡ codes "<!--" ++ (sp ++ (codes "plan:" ++ (sp' ++ rest))))

pub opened-some :
    (t : Text) (r : Text × List Text)
    → opened (behind_prefix (codes "<!--") t) ≡ some r
    → (r.1 ≡ []) × Opening t r.0
opened-some t r h = opened_at (behind_prefix (codes "<!--") t) refl h
  where
    opened_at :
        (o : Option Text)
        → behind_prefix (codes "<!--") t ≡ o
        → opened o ≡ some r
        → (r.1 ≡ []) × Opening t r.0
    opened_at none at e = absurd cc
    opened_at (some u) at e =
        let (sp', blank', none_yet, mid) =
          plan_key-some (behind_prefix (codes "plan:") (past_run is_space u)) r e in
        (
          none_yet,
          (
            run_of is_space u,
            sp',
            all-run_of is_space u,
            blank',
            behind_prefix-some (codes "<!--") t u at
                ∙ ap (λ v. codes "<!--" ++ v)
                    (run-past is_space u
                      ∙ ap (λ v. run_of is_space u ++ v)
                          (behind_prefix-some (codes "plan:") (past_run is_space u) _ mid)),
          ),
        )

abbrev header_of : Text → Text → Text → Text → Text → Front
header_of t risk status body below = record {
  above = [];
  comment = take (length t - length below) t;
  below = below;
  status = status;
  risk = risk;
  accepted = run_of (λ c. not (is_space c)) body;
}

closing_field-some :
    (t : Text) (fields : List Text) (body below : Option Text) (f : Front)
    → closing_field t fields body below ≡ some f
    → (f.above ≡ [])
      × (below ≡ some f.below)
      × (f.comment ≡ take (length t - length f.below) t)
      × ((risk : Text) × (rest : List Text) × (fields ≡ risk ∷ f.status ∷ rest))
closing_field-some t (risk ∷ status ∷ fields) (some body) (some below) f h =
    elim (Bool-cases (is_empty (run_of (λ c. not (is_space c)) body))) [
      | inl empty ↦ absurd (cc (sym (if_true _ _ _ empty) ∙ h))
      | inr full ↦
          let e : some (header_of t risk status body below) ≡ some f =
            sym (if_false _ _ _ full) ∙ h in
          let e' : header_of t risk status body below ≡ f = cc in
          (
            ap (λ (g : Front). g.above) (sym e'),
            ap (λ (g : Front). some g.below) e',
            ap (λ (g : Front). g.comment) (sym e')
                ∙ ap (λ (g : Front). take (length t - length g.below) t) e',
            (risk, fields, ap (λ (g : Front). risk ∷ g.status ∷ fields) e'),
          )
    ]
closing_field-some t [] body below f h = absurd cc
closing_field-some t (risk ∷ []) body below f h = absurd cc
closing_field-some t (risk ∷ status ∷ fields) none below f h = absurd cc
closing_field-some t (risk ∷ status ∷ fields) (some body) none f h = absurd cc

pub closed_by-some :
    (t : Text) (fields : List Text) (o : Option Text) (f : Front)
    → closed_by t fields o ≡ some f
    → (f.above ≡ [])
      × (f.comment ≡ take (length t - length f.below) t)
      × ((risk : Text) × (rest : List Text) × (fields ≡ risk ∷ f.status ∷ rest))
      × ((u : Text) × (o ≡ some (u ++ f.below)))
closed_by-some t fields none f h = absurd cc
closed_by-some t fields (some rest) f h =
    let (above, below, comment, read) =
      closing_field-some t fields (without_dashes (before (codes ">") rest))
        (behind (codes ">") rest) f h in
    let (u, eq) = behind-some (codes ">") rest f.below below in
    (above, comment, read, (u, ap some eq))

pub closed-some :
    (t : Text) (o : Reading) (f : Front)
    → closed t o ≡ some f
    → (rest : Text) × (fields : List Text) × (o ≡ some (rest, fields))
      × (closed_by t fields (behind_prefix (codes "accepted=") rest) ≡ some f)
closed-some t none f h = absurd cc
closed-some t (some (rest, fields)) f h = (rest, fields, refl, h)
