-- ===== src/Stream/Ranges/Forms.antt =====
-- The three forms of a byte range, as a client writes them, read as the ranges that they mean.
use stremio_libtorrent_serve.Prelude.{
  ℕ, ◌-◌, ◌≡◌, refl, ap, false, some, [], ◌∷◌, ◌++◌, nat_eq, arith, All, All-append, All-reverse,
  All-weaken,
}
use mathlib.Core.List.{reverse, reverse-reverse}
use stremio_libtorrent_serve.Prelude.Int.{pos, min_ℤ}
use stremio_libtorrent_serve.Prelude.Text.{
  Text, codes, is_empty, is_space, strip, lstrip, before, after,
}
use stremio_libtorrent_serve.Stream.Ranges.{
  last_byte, parse_digits, parse_signed, int_of, parse_spec, parse_range,
}
use stremio_libtorrent_serve.Prelude.Numerals.{decimal, IsDigit, decimal-All}
use stremio_libtorrent_serve.Stream.Ranges.Decimal.{parse_digits-decimal}

-- Characters that neither `strip`, nor the split at commas, touches.
abbrev IsPlain : ℕ → Type 0
IsPlain c = (is_space c ≡ false) × (nat_eq c b',' ≡ false)

digit-IsPlain : (c : ℕ) → IsDigit c → IsPlain c
digit-IsPlain c h = ground arith

lstrip_plain : (s : Text) → All IsPlain s → lstrip s ≡ s
unfolding lstrip
lstrip_plain [] h = refl
lstrip_plain (c ∷ s) h = rw h.0.0

strip_plain : (s : Text) → All IsPlain s → strip s ≡ s
unfolding strip
strip_plain s h =
    rw (lstrip_plain s h)
      (rw (lstrip_plain (reverse s) (All-reverse IsPlain s h)) (reverse-reverse s))

before-comma : (s : Text) → All IsPlain s → before b',' s ≡ s
unfolding before
before-comma [] h = refl
before-comma (c ∷ s) h = rw h.0.1 (ap (◌∷◌ c) (before-comma s h.1))

before-dash : (s t : Text) → All IsDigit s → before b'-' (s ++ b'-' ∷ t) ≡ s
unfolding before
before-dash [] t h = refl
before-dash (c ∷ s) t h =
    let e : nat_eq c b'-' ≡ false = ground (arith, h.0) in rw e (ap (◌∷◌ c) (before-dash s t h.1))

after-dash : (s t : Text) → All IsDigit s → after b'-' (s ++ b'-' ∷ t) ≡ t
unfolding after
after-dash [] t h = refl
after-dash (c ∷ s) t h =
    let e : nat_eq c b'-' ≡ false = ground (arith, h.0) in rw e (after-dash s t h.1)

parse_signed-digits :
    (s : Text) (n : ℕ)
    → All IsDigit s
    → parse_digits 0 false s ≡ some n
    → parse_signed s ≡ some (pos n)
unfolding parse_signed
parse_signed-digits [] n h e = unfold parse_digits in absurd (cc e)
parse_signed-digits (c ∷ s) n h e =
    let d : nat_eq c b'-' ≡ false = ground (arith, h.0) in
    let p : nat_eq c b'+' ≡ false = ground (arith, h.0) in rw d (rw p (rw e refl))

int_of-decimal : (n : ℕ) → int_of (decimal n) ≡ some (pos n)
unfolding int_of
int_of-decimal n =
    rw
      (strip_plain (decimal n)
        (All-weaken IsDigit IsPlain (decimal n) digit-IsPlain (decimal-All n)))
      (parse_signed-digits (decimal n) n (decimal-All n) (parse_digits-decimal n false))

is_empty-decimal : (n : ℕ) → is_empty (decimal n) ≡ false
is_empty-decimal n = nonempty (decimal n) n (parse_digits-decimal n false)
  where
    nonempty : (s : Text) (n : ℕ) → parse_digits 0 false s ≡ some n → is_empty s ≡ false
    nonempty [] n e = unfold parse_digits in absurd (cc e)
    nonempty (c ∷ s) n e = unfold is_empty in refl

digits-IsPlain : (n : ℕ) → All IsPlain (decimal n)
digits-IsPlain n = All-weaken IsDigit IsPlain (decimal n) digit-IsPlain (decimal-All n)

abbrev pub header : Text → Text
header spec = codes "bytes=" ++ spec

-- a header whose spec is plain reaches `parse_spec` unchanged
parse_range-header :
    (spec : Text) (total : ℕ)
    → All IsPlain spec
    → parse_range (some (header spec)) total ≡ parse_spec spec total
unfolding parse_range
parse_range-header spec total h = rw (before-comma spec h) (rw (strip_plain spec h) refl)

dash-IsPlain : IsPlain b'-'
dash-IsPlain = (refl, refl)

closed :
    (a b total : ℕ)
    → parse_range (some (header (decimal a ++ b'-' ∷ decimal b))) total
      ≡ some (pos a, min_ℤ (pos b) (last_byte total))
unfolding parse_spec
closed a b total =
    rw
      (parse_range-header (decimal a ++ b'-' ∷ decimal b) total
        (All-append IsPlain (decimal a) _ (digits-IsPlain a) (dash-IsPlain, digits-IsPlain b)))
      (rw (before-dash (decimal a) (decimal b) (decimal-All a)) (
        rw (after-dash (decimal a) (decimal b) (decimal-All a))
          (rw (is_empty-decimal a, is_empty-decimal b, int_of-decimal a, int_of-decimal b) refl)))

open_end :
    (a total : ℕ)
    → parse_range (some (header (decimal a ++ b'-' ∷ []))) total ≡ some (pos a, last_byte total)
unfolding parse_spec
open_end a total =
    rw
      (parse_range-header (decimal a ++ b'-' ∷ []) total
        (All-append IsPlain (decimal a) _ (digits-IsPlain a) (dash-IsPlain, tt)))
      (rw (before-dash (decimal a) [] (decimal-All a)) (
        rw (after-dash (decimal a) [] (decimal-All a))
          (rw (is_empty-decimal a, int_of-decimal a) (unfold is_empty in ground arith))))

suffix :
    (n total : ℕ)
    → parse_range (some (header (b'-' ∷ decimal n))) total ≡ some (pos (total - n), last_byte total)
unfolding parse_spec
suffix n total =
    rw (parse_range-header (b'-' ∷ decimal n) total (dash-IsPlain, digits-IsPlain n))
      (unfold before after is_empty in rw (int_of-decimal n) (ground arith))

-- A closed range `bytes=A-B` is read as A and B, the end clamped to the last byte; an open range
-- `bytes=A-` runs to the last byte; a suffix `bytes=-N` is the last N bytes, or the whole file where
-- it has no more than N.
pub parse_range_forms :
    (a b n total : ℕ)
    → (parse_range (some (header (decimal a ++ b'-' ∷ decimal b))) total
        ≡ some (pos a, min_ℤ (pos b) (last_byte total)))
      × (parse_range (some (header (decimal a ++ b'-' ∷ []))) total ≡ some (pos a, last_byte total))
      × (parse_range (some (header (b'-' ∷ decimal n))) total
          ≡ some (pos (total - n), last_byte total))
parse_range_forms a b n total = (closed a b total, open_end a total, suffix n total)
