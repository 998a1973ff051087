-- ===== src/Parens/Check.antt =====
-- `check`: what is reported, and what is written.
use hngh.Prelude.{ℕ, ◌≡◌, refl, sym, Bool, true, false, ◌⊎◌, inl, inr, Bool-cases, if_ind}
use hngh.Parens.{Text, Scan, is_fix, is_empty, fix_of, fix_text, scanned, scan, check_text}

-- A fix is offered only for a text with problems.
fix_of-is_fix : (s : Scan) → is_fix (fix_of s) ≡ true → is_empty s.problems ≡ false
unfolding fix_of
fix_of-is_fix s h = elim (Bool-cases (is_empty s.problems)) [
  | inl e ↦ absurd (cc (rw e at h))
  | inr e ↦ e
]

module _ (alnum : ℕ → Bool) where
  -- The text has no problem.
  abbrev pub sound : Text → Bool
  sound text = is_empty (scan alnum text).0

  abbrev pub Reports : Text → Bool × Text → Type 0
  Reports text r = (r.0 ≡ sound r.1) × ((r.1 ≡ text) ⊎ ((sound r.1 ≡ true) × (sound text ≡ false)))

  -- Whatever the mode, `check` reports success exactly where the text that it leaves behind scans
  -- without a problem; and it leaves the text as it was, or has replaced one that had problems by one
  -- that has none.
  pub check_text-Reports :
      (fix_mode : Bool) (text : Text) → Reports text (check_text alnum fix_mode text)
  unfolding check_text
  check_text-Reports false text = (refl, inl refl)
  check_text-Reports true text =
      let repaired = fix_text text (scan alnum text).1 in
      if_ind (Reports text) (is_fix (scan alnum text).1)
        (λ offered.
          let dirty : sound text ≡ false =
            unfold scan in fix_of-is_fix (scanned alnum text) (unfold scan in offered) in
          elim (Bool-cases (sound repaired)) [
            | inl e ↦ rw e (sym e, inr (e, dirty))
            | inr e ↦ rw e (sym dirty, inl refl)
          ])
        (λ _. (refl, inl refl))
