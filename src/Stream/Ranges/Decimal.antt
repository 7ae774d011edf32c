-- ===== src/Stream/Ranges/Decimal.antt =====
-- That `int` reads a decimal numeral back.
use stremio_libtorrent_serve.Prelude.{
  ℕ, zero, suc, ◌+◌, ◌/◌, ◌%◌, ◌<◌, ◌≡◌, Bool, true, some, [], ◌∷◌, arith,
}
use stremio_libtorrent_serve.Prelude.Text.{Text}
use stremio_libtorrent_serve.Prelude.Numerals.{decimal, digits}
use stremio_libtorrent_serve.Stream.Ranges.{parse_digits}

parse_digits-digits :
    (fuel n : ℕ) (ended : Bool) (rest : Text)
    → n < fuel
    → parse_digits 0 ended (digits fuel n rest) ≡ parse_digits n true rest
unfolding digits parse_digits
parse_digits-digits zero n ended rest h = elim h [ ]
parse_digits-digits (suc fuel) n ended rest h =
    ground (arith, parse_digits-digits fuel (n / 10) ended ((48 + n % 10) ∷ rest))

pub parse_digits-decimal : (n : ℕ) (ended : Bool) → parse_digits 0 ended (decimal n) ≡ some n
unfolding decimal parse_digits
parse_digits-decimal n ended = parse_digits-digits (suc n) n ended [] (omega arith)
