-- ===== src/Stream/Ranges/Bounds.antt =====
-- What `parse_range` returns stays inside the file, at its two ends.
use stremio_libtorrent_serve.Prelude.{
  ℕ, ◌≡◌, false, Option, none, some, [], ◌∷◌, inl, inr, nat_eq, arith, All, All-reverse, Bool-cases,
  Option-cases,
}
use stremio_libtorrent_serve.Prelude.Int.{ℤ, pos, ◌≤ℤ◌}
use stremio_libtorrent_serve.Prelude.Text.{
  Text, codes, is_space, strip, strip_prefix, lstrip, before,
}
use stremio_libtorrent_serve.Stream.Ranges.{
  last_byte, parse_signed, int_of, parse_spec, parse_range,
}

abbrev IsNot : ℕ → ℕ → Type 0
IsNot c d = nat_eq d c ≡ false

before-All : (c : ℕ) (s : Text) → All (IsNot c) (before c s)
unfolding before
before-All c [] = tt
before-All c (d ∷ s) = elim (Bool-cases (nat_eq d c)) [
  | inl e ↦ rw (e, before) tt
  | inr e ↦ rw (e, before) (e, before-All c s)
]

lstrip-All {ℓ} : (P : ℕ → Type ℓ) (s : Text) → All P s → All P (lstrip s)
unfolding lstrip
lstrip-All P [] h = tt
lstrip-All P (c ∷ s) h = elim (Bool-cases (is_space c)) [
  | inl e ↦ rw (e, lstrip) (lstrip-All P s h.1)
  | inr e ↦ rw (e, lstrip) h
]

strip-All {ℓ} : (P : ℕ → Type ℓ) (s : Text) → All P s → All P (strip s)
unfolding strip
strip-All P s h = All-reverse P _ (lstrip-All P _ (All-reverse P _ (lstrip-All P s h)))

parse_signed_nonneg : (s : Text) (z : ℤ) → All (IsNot b'-') s → parse_signed s ≡ some z → pos 0 ≤ℤ z
unfolding parse_signed
parse_signed_nonneg [] z h e = absurd (cc e)
parse_signed_nonneg (c ∷ s) z h e = ground arith

int_of_nonneg : (s : Text) (z : ℤ) → All (IsNot b'-') s → int_of s ≡ some z → pos 0 ≤ℤ z
unfolding int_of
int_of_nonneg s z h e = parse_signed_nonneg (strip s) z (strip-All (IsNot b'-') s h) e

abbrev pub InFile : ℕ → ℤ → ℤ → Type 0
InFile total a b = (pos 0 ≤ℤ a) × (b ≤ℤ last_byte total)

parse_spec-InFile :
    (spec : Text) (total : ℕ) (a b : ℤ) → parse_spec spec total ≡ some (a, b) → InFile total a b
unfolding parse_spec
parse_spec-InFile spec total a b e =
    ground (arith, int_of_nonneg (before b'-' spec) a (before-All b'-' spec))

-- Whatever the Range header, the start of a range that is accepted is not negative, and its end is not
-- past the last byte of the file. Nothing is said of a start behind the last byte, nor of an end before
-- the start or before byte 0.
pub parse_range-InFile :
    (header : Option Text) (total : ℕ) (a b : ℤ)
    → parse_range header total ≡ some (a, b)
    → InFile total a b
unfolding parse_range
parse_range-InFile none total a b e = ground arith
parse_range-InFile (some header) total a b e =
    elim (Option-cases (strip_prefix (codes "bytes=") header)) [
      | inl p ↦ ground (arith, p)
      | inr (rest, p) ↦
          parse_spec-InFile (strip (before b',' rest)) total a b (rw (p, parse_range) at e)
    ]
