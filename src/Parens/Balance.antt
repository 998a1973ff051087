-- ===== src/Parens/Balance.antt =====
-- The scan against the grammar of balanced parentheses.
use hngh.Prelude.{
  ℕ, zero, suc, ◌≡◌, refl, sym, ap, subst, ◌∙◌, List, [], ◌∷◌, ◌++◌, append_assoc, Option, none,
  some, Bool, true, false, not, ◌&&◌, ◌==◌, if◌then◌else◌, arith, Bool-cases, inl, inr, ◌⊎◌, ◌↔◌,
}
use hngh.Parens.{
  Text, Mode, code, block, Scan, Problem, stray, unclosed_block, is_empty, advance, reads, paren,
  visit, at_end, loop, report, initial, scanned, scan,
}

pub data Paren : Type 0 where
  opening closing : Paren

-- The grammar: nothing, or a group and what follows it.
pub data Balanced : List Paren → Type 0 where
  nil : Balanced []
  group :
      {xs ys : List Paren} → Balanced xs → Balanced ys → Balanced (opening ∷ (xs ++ closing ∷ ys))

-- The parentheses that the outer loop reads: those outside strings, comments and characters.
abbrev pub paren_of : ℕ → List Paren → List Paren
paren_of c rest = if c == b'(' then opening ∷ rest else if c == b')' then closing ∷ rest else rest

module _ (alnum : ℕ → Bool) where
  unfoldable pub parens : Mode → Text → List Paren
  parens m [] = []
  parens m (c ∷ rest) =
      let more = parens (advance alnum m c rest) rest in
      if reads alnum m c then paren_of c more else more

  -- The mode behind the last character.
  unfoldable pub final : Mode → Text → Mode
  final m [] = m
  final m (c ∷ rest) = final (advance alnum m c rest) rest

abbrev pub is_block : Mode → Bool
is_block (block n) = true
is_block _ = false

-- The open forms behind the parentheses; `none` at a closer with no open form.
unfoldable walk : ℕ → List Paren → Option ℕ
walk d [] = some d
walk d (opening ∷ ps) = walk (suc d) ps
walk zero (closing ∷ ps) = none
walk (suc d) (closing ∷ ps) = walk d ps

walk-append :
    (d : ℕ) (xs ys : List Paren) {e : ℕ} → walk d xs ≡ some e → walk d (xs ++ ys) ≡ walk e ys
unfolding walk
walk-append d [] ys h = cc
walk-append d (opening ∷ xs) ys h = walk-append (suc d) xs ys h
walk-append zero (closing ∷ xs) ys h = cc
walk-append (suc d) (closing ∷ xs) ys h = walk-append d xs ys h

walk-Balanced : {ps : List Paren} (d : ℕ) → Balanced ps → walk d ps ≡ some d
unfolding walk
walk-Balanced d nil = refl
walk-Balanced d (group {xs} {ys} bx by) =
    walk-append (suc d) xs (closing ∷ ys) (walk-Balanced (suc d) bx) ∙ walk-Balanced d by

-- `d` closers close the open forms, with balanced parts between them.
data Closes : ℕ → List Paren → Type 0 where
  done : {xs : List Paren} → Balanced xs → Closes zero xs
  more :
      {d : ℕ} {xs ys : List Paren} → Balanced xs → Closes d ys → Closes (suc d) (xs ++ closing ∷ ys)

-- An opener in front of closers adds a group to the first balanced part.
Closes-opening : {d : ℕ} {ps : List Paren} → Closes (suc d) ps → Closes d (opening ∷ ps)
Closes-opening (more {xs = xs} bx (done by)) = done (group bx by)
Closes-opening (more {xs = xs} bx (more {d = e} {xs = zs} {ys = ys} bz cs)) =
    subst (λ l. Closes (suc e) (opening ∷ l)) (append_assoc xs (closing ∷ zs) (closing ∷ ys))
      (more (group bx bz) cs)

walk-Closes : (d : ℕ) (ps : List Paren) → walk d ps ≡ some 0 → Closes d ps
unfolding walk
walk-Closes zero [] h = done nil
walk-Closes (suc d) [] h = absurd (ground arith)
walk-Closes d (opening ∷ ps) h = Closes-opening (walk-Closes (suc d) ps h)
walk-Closes zero (closing ∷ ps) h = cc
walk-Closes (suc d) (closing ∷ ps) h = more nil (walk-Closes d ps h)

Closes-zero : {ps : List Paren} → Closes zero ps → Balanced ps
Closes-zero (done b) = b

walk_iff : (ps : List Paren) → (walk 0 ps ≡ some 0) ↔ Balanced ps
walk_iff ps = ((λ h. Closes-zero (walk-Closes 0 ps h)), walk-Balanced 0)

abbrev ends_closed : Option ℕ → Bool
ends_closed none = false
ends_closed (some d) = d == 0

is_empty-snoc : (ps : List Problem) (p : Problem) → is_empty (ps ++ p ∷ []) ≡ false
is_empty-snoc [] p = refl
is_empty-snoc (q ∷ ps) p = refl

is_empty→nil : (ps : List Problem) → is_empty ps ≡ true → ps ≡ []
is_empty→nil [] h = refl
is_empty→nil (p ∷ ps) h = cc

ends_closed→zero : (o : Option ℕ) → ends_closed o ≡ true → o ≡ some 0
ends_closed→zero o h = ground arith

both_true : (a b : Bool) → (a && b) ≡ true → (a ≡ true) × (b ≡ true)
both_true a b h = ground arith

not-true : (a : Bool) → not a ≡ true → a ≡ false
not-true a h = ground arith

ℕ-cases : (n : ℕ) → (n ≡ 0) ⊎ ((d : ℕ) × (n ≡ suc d))
ℕ-cases zero = inl refl
ℕ-cases (suc d) = inr (d, refl)

module _ (alnum : ℕ → Bool) where
  -- The scan ends with no problem.
  abbrev clean : Mode → Scan → Text → Bool
  clean m s text = is_empty (report (loop alnum m s text)).problems

  report-dirty : (s : Scan) → is_empty s.problems ≡ false → is_empty (report s).problems ≡ false
  unfolding report
  report-dirty s h = ground (arith, is_empty-snoc s.problems)

  at_end-dirty :
      (m : Mode) (s : Scan) → is_empty s.problems ≡ false → is_empty (at_end m s).problems ≡ false
  unfolding at_end
  at_end-dirty (block n) s h = is_empty-snoc s.problems _
  at_end-dirty _ s h = h

  visit-dirty :
      (m : Mode) (c : ℕ) (s : Scan)
      → is_empty s.problems ≡ false
      → is_empty (visit alnum m c s).problems ≡ false
  unfolding visit paren
  visit-dirty m c s h = ground (arith, is_empty-snoc s.problems (stray s.line))

  -- A problem stays reported.
  clean-dirty :
      (m : Mode) (s : Scan) (text : Text) → is_empty s.problems ≡ false → clean m s text ≡ false
  unfolding loop
  clean-dirty m s [] h = report-dirty (at_end m s) (at_end-dirty m s h)
  clean-dirty m s (c ∷ rest) h =
      clean-dirty (advance alnum m c rest) (visit alnum m c s) rest (visit-dirty m c s h)

  clean-end :
      (m : Mode) (s : Scan)
      → is_empty s.problems ≡ true
      → clean m s [] ≡ (ends_closed (some s.depth) && not (is_block m))
  unfolding loop at_end report
  clean-end (block n) s h = ground (arith, is_empty-snoc s.problems (unclosed_block s.line))
  clean-end _ s h = ground (arith, is_empty-snoc s.problems)

  -- What one character does to the depth and the problems.
  abbrev Kept : Mode → ℕ → Scan → Type 0
  Kept m c s =
      ((visit alnum m c s).problems ≡ s.problems)
      × ((ps : List Paren)
          → walk (visit alnum m c s).depth ps
            ≡ walk s.depth (if reads alnum m c then paren_of c ps else ps))

  abbrev Dirty : Mode → ℕ → Scan → Type 0
  Dirty m c s =
      (is_empty (visit alnum m c s).problems ≡ false)
      × ((ps : List Paren) → walk s.depth (if reads alnum m c then paren_of c ps else ps) ≡ none)

  visit-cases : (m : Mode) (c : ℕ) (s : Scan) → Kept m c s ⊎ Dirty m c s
  unfolding visit paren walk
  visit-cases m c s = elim (Bool-cases (reads alnum m c)) [
    | inr e ↦ rw e (inl (refl, λ ps. refl))
    | inl e ↦ elim (Bool-cases (c == b'(')) [
      | inl f ↦ rw (e, f) (inl (refl, λ ps. ground arith))
      | inr f ↦ elim (Bool-cases (c == b')')) [
        | inr g ↦ rw (e, f, g) (inl (refl, λ ps. refl))
        | inl g ↦
            rw (e, f, g)
              elim (ℕ-cases s.depth) [
                | inl z ↦ rw z (inr (is_empty-snoc s.problems (stray s.line), λ ps. refl))
                | inr (d, z) ↦ rw z (inl (refl, λ ps. refl))
              ]
      ]
    ]
  ]

  clean-walk :
      (m : Mode) (s : Scan) (text : Text)
      → is_empty s.problems ≡ true
      → clean m s text
        ≡ (ends_closed (walk s.depth (parens alnum m text)) && not (is_block (final alnum m text)))
  unfolding loop parens final
  clean-walk m s [] h = unfold walk in clean-end m s h
  clean-walk m s (c ∷ rest) h =
      let m' = advance alnum m c rest in
      let ps = parens alnum m' rest in
      elim (visit-cases m c s) [
        | inl (same, steps) ↦ rw (← steps ps) (clean-walk m' (visit alnum m c s) rest (rw same h))
        | inr (dirty, stuck) ↦ rw (stuck ps) (clean-dirty m' (visit alnum m c s) rest dirty)
      ]

-- A text scans without a problem exactly when the parentheses outside its strings, comments and
-- characters are balanced, as the grammar has it, and it does not end in a block comment.
pub scan_iff-Balanced :
    (alnum : ℕ → Bool) (text : Text)
    → ((scan alnum text).0 ≡ [])
      ↔ (Balanced (parens alnum code text) × (is_block (final alnum code text) ≡ false))
unfolding scan scanned
scan_iff-Balanced alnum text =
    let same = clean-walk alnum code initial text refl in
    let ps = parens alnum code text in
    (
      (λ h.
          let both = both_true _ _ (sym same ∙ ap is_empty h) in
          ((walk_iff ps).0 (ends_closed→zero (walk 0 ps) both.0), not-true _ both.1)),
      (λ (balanced, closed). is_empty→nil _ (rw (same, (walk_iff ps).1 balanced, closed))),
    )
