-- ===== src/Tests/Linting.antt =====
-- The parenthesis lint on short texts.
use hngh.Prelude.{ℕ, [], ◌∷◌, none, some, Bool, true, false, ◌≡◌, refl, leb, ◌&&◌, ◌↔◌, ◌⊎◌}
use hngh.Texts.{codes}
use hngh.Parens.{code, stray, unclosed_form, unclosed_block, scan, check_text, no_fix}
use hngh.Parens.Balance.{Balanced, parens, final, is_block, scan_iff-Balanced}
use hngh.Parens.Check.{sound, check_text-Reports}

-- lower-case letters only
abbrev alnum : ℕ → Bool
alnum c = leb b'a' c && leb c b'z'

scan_runs :
    (scan alnum (codes "(a \"(\" #\\( #| ( |# b)") ≡ ([], no_fix))
    × (scan alnum (codes "(a ; (\n(b)\n")
        ≡ (unclosed_form 1 1 ∷ [], record { append = some 1; remove = none }))
    × (scan alnum (codes "a)\n)")
        ≡ (stray 1 ∷ stray 2 ∷ [], record { append = none; remove = some (1 ∷ 3 ∷ []) }))
    × (scan alnum (codes ") #| (") ≡ (stray 1 ∷ unclosed_block 1 ∷ [], no_fix))
unfolding scan
scan_runs = (refl, refl, refl, refl)

check_runs :
    (check_text alnum true (codes "(a (b)\n") ≡ (true, codes "(a (b))\n"))
    × (check_text alnum true (codes "(a)) b") ≡ (true, codes "(a) b"))
    × (check_text alnum true (codes "(a ; x\n") ≡ (false, codes "(a ; x\n"))
    × (check_text alnum false (codes "(a") ≡ (false, codes "(a"))
unfolding check_text
check_runs = (refl, refl, refl, refl)

scan_iff-Balanced_example : ((scan alnum (codes "(a)")).0 ≡ []) ↔ (
    Balanced (parens alnum code (codes "(a)"))
    × (is_block (final alnum code (codes "(a)")) ≡ false))
scan_iff-Balanced_example = scan_iff-Balanced alnum (codes "(a)")

check_text-Reports_example :
    let r = check_text alnum true (codes "(a (b)\n") in
    (r.0 ≡ sound alnum r.1)
    × ((r.1 ≡ codes "(a (b)\n")
        ⊎ ((sound alnum r.1 ≡ true) × (sound alnum (codes "(a (b)\n") ≡ false)))
check_text-Reports_example = check_text-Reports alnum true (codes "(a (b)\n")
