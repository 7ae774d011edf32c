-- ===== src/Stream/Ranges.antt =====
-- stream/ranges.py: the HTTP Range header. `none` is the `ValueError` that `int` raises; its limit on the
-- number of digits is left out.
pub mod Decimal
pub mod Bounds
pub mod Forms
use stremio_libtorrent_serve.Prelude.{
  ℕ, ◌+◌, ◌-◌, ◌*◌, Bool, true, false, ◌&&◌, Option, none, some, List, [], ◌∷◌, nat_eq,
  if◌then◌else◌,
}
use stremio_libtorrent_serve.Prelude.Int.{ℤ, pos, sub_ℕ, ◌-ℤ◌, min_ℤ, max_ℤ}
use stremio_libtorrent_serve.Prelude.Text.{
  Text, codes, is_digit, is_empty, strip, strip_prefix, lstrip, before, after,
}

infixl 5 ◌>>=◌
abbrev pub ◌>>=◌ : {A B : Type 0} → Option A → (A → Option B) → Option B
none >>= f = none
some a >>= f = f a

-- The digits of an integer literal; one `_` may stand between two of them.
unfoldable pub parse_digits : ℕ → Bool → Text → Option ℕ
parse_digits n ended [] = if ended then some n else none
parse_digits n ended (c ∷ s) =
    let digit = parse_digits (n * 10 + (c - b'0')) true s in
    let gap = parse_digits n false s in
    if is_digit c then digit else if nat_eq c b'_' && ended then gap else none

unfoldable pub parse_signed : Text → Option ℤ
unfolding parse_digits
parse_signed [] = none
parse_signed (c ∷ s) =
    if nat_eq c b'-'
    then (do n ← parse_digits 0 false s; some (sub_ℕ 0 n))
    else if nat_eq c b'+'
    then (do n ← parse_digits 0 false s; some (pos n))
    else do n ← parse_digits 0 false (c ∷ s); some (pos n)

-- `int(s)`
unfoldable pub int_of : Text → Option ℤ
unfolding parse_signed strip
int_of s = parse_signed (strip s)

abbrev pub last_byte : ℕ → ℤ
last_byte total = pos total -ℤ pos 1

unfoldable pub parse_spec : Text → ℕ → Option (ℤ × ℤ)
parse_spec spec total =
    let start_s = before b'-' spec in
    let end_s = after b'-' spec in
    if is_empty start_s
    then (do n ← int_of end_s; some (max_ℤ (pos 0) (pos total -ℤ n), last_byte total))
    else do
      start ← int_of start_s
      end ← if is_empty end_s then some (last_byte total) else int_of end_s
      some (start, min_ℤ end (last_byte total))

unfoldable pub parse_range : Option Text → ℕ → Option (ℤ × ℤ)
unfolding strip_prefix
parse_range none total = some (pos 0, last_byte total)
parse_range (some header) total = elim (strip_prefix (codes "bytes=") header) [
  | none ↦ some (pos 0, last_byte total)
  | some rest ↦ parse_spec (strip (before b',' rest)) total
]
