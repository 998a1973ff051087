-- ===== src/Texts/Decimal.antt =====
-- The decimal form of a number, and the number of a run of digits.
use Prim.Native.Nat.{ℕ, zero, suc, ◌+◌, ◌-◌, ◌*◌, ◌/◌, ◌%◌, ◌≤◌}
use hngh.Prelude.{◌≡◌, refl, [], ◌∷◌, ◌++◌, ltb, if◌then◌else◌, arith}
use hngh.Texts.{Text}

-- `"%d" % n`; a number has at most as many digits as its size and one.
digits_of : ℕ → ℕ → Text
digits_of zero n = (b'0' + n % 10) ∷ []
digits_of (suc fuel) n =
    let rest = digits_of fuel (n / 10) in
    if ltb n 10 then (b'0' + n) ∷ [] else rest ++ (b'0' + n % 10) ∷ []

unfoldable pub decimal : ℕ → Text
unfolding digits_of
decimal n = digits_of n n

-- `int(digits)`
unfoldable pub number : ℕ → Text → ℕ
number acc [] = acc
number acc (c ∷ t) = number (10 * acc + (c - b'0')) t

number-append :
    (acc : ℕ) (s : Text) (c : ℕ) → number acc (s ++ c ∷ []) ≡ 10 * number acc s + (c - b'0')
unfolding number
number-append acc [] c = refl
number-append acc (d ∷ s) c = number-append (10 * acc + (d - b'0')) s c

number-digits_of : (fuel n : ℕ) → n ≤ fuel → number 0 (digits_of fuel n) ≡ n
unfolding digits_of number
number-digits_of zero n h = omega arith
number-digits_of (suc fuel) n h = ground (
  arith,
  number-append 0 (digits_of fuel (n / 10)) (b'0' + n % 10),
  number-digits_of fuel (n / 10),
)

-- A decimal form is read back as its number.
pub number-decimal : (n : ℕ) → number 0 (decimal n) ≡ n
unfolding decimal
number-decimal n = number-digits_of n n (omega arith)
