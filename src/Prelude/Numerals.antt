-- ===== src/Prelude/Numerals.antt =====
-- Numerals: the tests on their digits, the number that digits stand for, and the decimal numeral of a
-- number, which stands for that number.
use stremio_libtorrent_serve.Prelude.Tests.{ltb, if◌then◌else◌}
use Prim.Native.Nat.{ℕ, zero, suc, ◌+◌, ◌-◌, ◌*◌, ◌/◌, ◌%◌, ◌<◌}
use mathlib.Core.Path.{◌≡◌}
use mathlib.Core.Bool.{Bool, true, false, not, ◌&&◌}
use mathlib.Core.List.{[], ◌∷◌}
use native.Mathlib.Omega.{arith}
use stremio_libtorrent_serve.Prelude.Lists.{All}
use stremio_libtorrent_serve.Prelude.Text.{Text, is_digit, is_empty}

unfoldable pub all_codes : (ℕ → Bool) → Text → Bool
all_codes p [] = true
all_codes p (c ∷ s) = p c && all_codes p s

-- `s.isdecimal()`
unfoldable pub is_decimal : Text → Bool
unfolding all_codes
is_decimal s = not (is_empty s) && all_codes is_digit s

unfoldable pub all_digits : Text → Bool
all_digits [] = true
all_digits (c ∷ s) = is_digit c && all_digits s

unfoldable pub value_of : ℕ → Text → ℕ
value_of n [] = n
value_of n (c ∷ s) = value_of (n * 10 + (c - b'0')) s

unfoldable pub digits : ℕ → ℕ → Text → Text
digits zero n rest = rest
digits (suc fuel) n rest =
    let more = digits fuel (n / 10) ((48 + n % 10) ∷ rest) in
    if ltb n 10 then (48 + n) ∷ rest else more

unfoldable pub decimal : ℕ → Text
unfolding digits
decimal n = digits (suc n) n []

value_of-digits :
    (fuel n : ℕ) (rest : Text) → n < fuel → value_of 0 (digits fuel n rest) ≡ value_of n rest
unfolding digits value_of
value_of-digits zero n rest h = elim h [ ]
value_of-digits (suc fuel) n rest h =
    ground (arith, value_of-digits fuel (n / 10) ((48 + n % 10) ∷ rest))

pub value_of-decimal : (n : ℕ) → value_of 0 (decimal n) ≡ n
unfolding decimal value_of
value_of-decimal n = value_of-digits (suc n) n [] (omega arith)

abbrev pub IsDigit : ℕ → Type 0
IsDigit c = is_digit c ≡ true

digits-All : (fuel n : ℕ) (rest : Text) → All IsDigit rest → All IsDigit (digits fuel n rest)
unfolding digits
digits-All zero n rest h = h
digits-All (suc fuel) n rest h = ground (arith, digits-All fuel (n / 10) ((48 + n % 10) ∷ rest))

pub decimal-All : (n : ℕ) → All IsDigit (decimal n)
unfolding decimal
decimal-All n = digits-All (suc n) n [] tt

digits-nonempty :
    (fuel n : ℕ) (rest : Text) → is_empty rest ≡ false → is_empty (digits fuel n rest) ≡ false
unfolding digits is_empty
digits-nonempty zero n rest h = h
digits-nonempty (suc fuel) n rest h =
    ground (arith, digits-nonempty fuel (n / 10) ((48 + n % 10) ∷ rest))

pub decimal-nonempty : (n : ℕ) → is_empty (decimal n) ≡ false
unfolding decimal digits is_empty
decimal-nonempty n = ground (arith, digits-nonempty n (n / 10) ((48 + n % 10) ∷ []))

pub all_codes-All : (p : ℕ → Bool) (s : Text) → All (λ c. p c ≡ true) s → all_codes p s ≡ true
unfolding all_codes
all_codes-All p [] h = ground arith
all_codes-All p (c ∷ s) h = ground (arith, h.0, all_codes-All p s h.1)

pub is_decimal-decimal : (n : ℕ) → is_decimal (decimal n) ≡ true
unfolding is_decimal
is_decimal-decimal n =
    ground (arith, decimal-nonempty n, all_codes-All is_digit (decimal n) (decimal-All n))
