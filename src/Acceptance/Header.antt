-- ===== src/Acceptance/Header.antt =====
-- automation/scripts/accept-plans.py: the shape of a text in which FRONT finds a header.
use Prim.Native.Nat.{ℕ, ◌-◌}
use hngh.Prelude.{
  ◌≡◌, refl, sym, ap, subst, ◌∙◌, Option, none, some, List, [], ◌∷◌, ◌++◌, append_assoc, true, all,
  take, length,
}
use hngh.Texts.{Text, codes, is_space}
use hngh.Router.Status.{behind_prefix-some}
use hngh.Acceptance.{Front, front_at, front_of, or_front}
use hngh.Acceptance.Fields.{take-append, read_key-some, opened-some, closed_by-some, closed-some}

-- What a header is read from: its opening, its status, and the rest of the comment.
abbrev pub Shape : Front → Text → Type 0
Shape f t =
    (sp sp' mid : Text) × (all is_space sp ≡ true)
    × (all is_space sp' ≡ true)
    × (f.comment
        ≡ codes "<!--"
          ++ (sp ++ (codes "plan:" ++ (sp' ++ (codes "status=" ++ (f.status ++ mid))))))
    × (t ≡ f.above ++ (f.comment ++ f.below))

-- The parts of a header, with what is left at the end split off.
joined :
    (a sp b sp' c v s d w s' e u below : Text)
    → a ++ (sp ++ (b ++ (sp' ++ (c ++ (v ++ (s ++ (d ++ (w ++ (s' ++ (e ++ (u ++ below)))))))))))
      ≡ (a ++ (sp ++ (b ++ (sp' ++ (c ++ (v ++ (s ++ (d ++ (w ++ (s' ++ (e ++ u))))))))))) ++ below
joined a sp b sp' c v s d w s' e u below = simp append_assoc

Shape-joined :
    (f : Front) (t sp sp' mid : Text)
    → all is_space sp ≡ true
    → all is_space sp' ≡ true
    → f.above ≡ []
    → f.comment ≡ take (length t - length f.below) t
    → t
      ≡ (codes "<!--" ++ (sp ++ (codes "plan:" ++ (sp' ++ (codes "status=" ++ (f.status ++ mid))))))
        ++ f.below
    → Shape f t
Shape-joined f t sp sp' mid blank blank' above comment eq =
    let comment' =
      comment ∙ ap (λ u. take (length u - length f.below) u) eq ∙ take-append _ f.below in
    (
      sp,
      sp',
      mid,
      blank,
      blank',
      comment',
      eq
          ∙ ap (λ u. u ++ f.below) (sym comment')
          ∙ ap (λ u. u ++ (f.comment ++ f.below)) (sym above),
    )

status_field :
    (fs3 fs2 fs1 : List Text) (v2 v1 risk status : Text) (more : List Text)
    → fs3 ≡ risk ∷ status ∷ more
    → fs3 ≡ v2 ∷ fs2
    → fs2 ≡ v1 ∷ fs1
    → v1 ≡ status
status_field fs3 fs2 fs1 v2 v1 risk status more h k l = cc

whole :
    (t t1 t2 r3 sp sp' v1 s1 v2 s2 u below status : Text)
    → t ≡ codes "<!--" ++ (sp ++ (codes "plan:" ++ (sp' ++ t1)))
    → t1 ≡ codes "status=" ++ (v1 ++ (s1 ++ t2))
    → t2 ≡ codes "risk=" ++ (v2 ++ (s2 ++ r3))
    → r3 ≡ codes "accepted=" ++ (u ++ below)
    → v1 ≡ status
    → t
      ≡ (codes "<!--"
          ++ (sp
              ++ (codes "plan:"
                  ++ (sp'
                      ++ (codes "status="
                          ++ (status
                              ++ (s1
                                  ++ (codes "risk="
                                      ++ (v2 ++ (s2 ++ (codes "accepted=" ++ u)))))))))))
        ++ below
whole t t1 t2 r3 sp sp' v1 s1 v2 s2 u below status q0 q1 q2 q3 st =
    rw (q0, q1, q2, q3, st)
      (joined (codes "<!--") sp (codes "plan:") sp' (codes "status=") status s1 (codes "risk=") v2
        s2 (codes "accepted=") u below)

front_at-Shape : (t : Text) (f : Front) → front_at t ≡ some f → (f.above ≡ []) × Shape f t
unfolding front_at
front_at-Shape t f h =
    let (r3, fs3, e3, c3) = closed-some t _ f h in
    let (above, comment, (risk, more, fields), (u, accepted)) = closed_by-some t fs3 _ f c3 in
    let (t2, fs2, v2, s2, e2, f2, q2) = read_key-some (codes "risk=") _ (r3, fs3) e3 in
    let (t1, fs1, v1, s1, e1, f1, q1) = read_key-some (codes "status=") _ (t2, fs2) e2 in
    let (first, (sp, sp', blank, blank', q0)) = opened-some t (t1, fs1) e1 in
    let q3 = behind_prefix-some (codes "accepted=") r3 (u ++ f.below) accepted in
    let status = status_field fs3 fs2 fs1 v2 v1 risk f.status more fields f2 f1 in
    (
      above,
      Shape-joined f t sp sp' (s1 ++ (codes "risk=" ++ (v2 ++ (s2 ++ (codes "accepted=" ++ u)))))
          blank blank' above comment
          (whole t t1 t2 r3 sp sp' v1 s1 v2 s2 u f.below f.status q0 q1 q2 q3 status),
    )

or_front-Shape :
    (c : ℕ) (t : Text) (here rest : Option Front) (f : Front)
    → ((g : Front) → here ≡ some g → Shape g (c ∷ t))
    → ((g : Front) → rest ≡ some g → Shape g t)
    → or_front c here rest ≡ some f
    → Shape f (c ∷ t)
or_front-Shape c t none none f at later h = absurd cc
or_front-Shape c t (some g) rest f at later h = at f h
or_front-Shape c t none (some g) f at later h =
    let eq : record g { above = c ∷ g.above } ≡ f = cc in
    let (sp, sp', mid, blank, blank', comment, whole) = later g refl in
    subst (λ (f : Front). Shape f (c ∷ t)) eq
      (sp, sp', mid, blank, blank', comment, ap (λ u. c ∷ u) whole)

pub front_of-Shape : (t : Text) (f : Front) → front_of t ≡ some f → Shape f t
unfolding front_of
front_of-Shape [] f h = absurd cc
front_of-Shape (c ∷ t) f h =
    or_front-Shape c t (front_at (c ∷ t)) (front_of t) f (λ g e. (front_at-Shape (c ∷ t) g e).1)
      (λ g. front_of-Shape t g) h
