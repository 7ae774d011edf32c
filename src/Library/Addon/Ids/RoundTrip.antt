-- ===== src/Library/Addon/Ids/RoundTrip.antt =====
-- library/addon_model.py: an id that `format_id` writes, read back by `parse_id`.
use stremio_libtorrent_serve.Prelude.{
  length, ℕ, zero, suc, ◌≡◌, refl, true, Option, none, some, [], ◌∷◌, ◌++◌, arith,
}
use stremio_libtorrent_serve.Prelude.Text.{Text, is_empty, lower, before, after, strip_prefix}
use stremio_libtorrent_serve.Prelude.Numerals.{
  all_codes, decimal, value_of-decimal, decimal-nonempty, is_decimal-decimal,
}
use stremio_libtorrent_serve.Library.Addon.Ids.{
  lower_hex, hex_then_end, index_part, format_id, parsed_parts, parse_id,
}

-- As many hexadecimal digits, in lower case.
abbrev pub IsHex : ℕ → Text → Type 0
IsHex zero [] = Unit
IsHex zero (c ∷ s) = ⊥
IsHex (suc n) [] = ⊥
IsHex (suc n) (c ∷ s) = (lower_hex c ≡ true) × IsHex n s

pub all_codes-IsHex : (s : Text) → all_codes lower_hex s ≡ true → IsHex (length s) s
unfolding all_codes
all_codes-IsHex [] h = tt
all_codes-IsHex (c ∷ s) h =
    let d : lower_hex c ≡ true = ground (arith, h) in
    let ds : all_codes lower_hex s ≡ true = ground (arith, h) in (d, all_codes-IsHex s ds)

IsHex-hex_then_end : (n : ℕ) (s : Text) → IsHex n s → hex_then_end n s ≡ true
unfolding hex_then_end
IsHex-hex_then_end zero [] h = refl
IsHex-hex_then_end zero (c ∷ s) h = elim h [ ]
IsHex-hex_then_end (suc n) [] h = elim h [ ]
IsHex-hex_then_end (suc n) (c ∷ s) h = ground (arith, h.0, IsHex-hex_then_end n s h.1)

lower-hex : (n : ℕ) (s : Text) → IsHex n s → lower s ≡ s
unfolding lower
lower-hex zero [] h = refl
lower-hex zero (c ∷ s) h = elim h [ ]
lower-hex (suc n) [] h = elim h [ ]
lower-hex (suc n) (c ∷ s) h = rw (lower-hex n s h.1) (ground (arith, h.0))

before-hex : (n : ℕ) (s t : Text) → IsHex n s → before b':' (s ++ b':' ∷ t) ≡ s
unfolding before
before-hex zero [] t h = refl
before-hex zero (c ∷ s) t h = elim h [ ]
before-hex (suc n) [] t h = elim h [ ]
before-hex (suc n) (c ∷ s) t h = ground (arith, h.0, before-hex n s t h.1)

after-hex : (n : ℕ) (s t : Text) → IsHex n s → after b':' (s ++ b':' ∷ t) ≡ t
unfolding after
after-hex zero [] t h = refl
after-hex zero (c ∷ s) t h = elim h [ ]
after-hex (suc n) [] t h = elim h [ ]
after-hex (suc n) (c ∷ s) t h = ground (arith, h.0, after-hex n s t h.1)

before-only : (n : ℕ) (s : Text) → IsHex n s → before b':' (s ++ []) ≡ s
unfolding before
before-only zero [] h = refl
before-only zero (c ∷ s) h = elim h [ ]
before-only (suc n) [] h = elim h [ ]
before-only (suc n) (c ∷ s) h = ground (arith, h.0, before-only n s h.1)

after-only : (n : ℕ) (s : Text) → IsHex n s → after b':' (s ++ []) ≡ []
unfolding after
after-only zero [] h = refl
after-only zero (c ∷ s) h = elim h [ ]
after-only (suc n) [] h = elim h [ ]
after-only (suc n) (c ∷ s) h = ground (arith, h.0, after-only n s h.1)

parsed_parts-hex :
    (ih : Text) (idx : Option ℕ)
    → IsHex 40 ih
    → parsed_parts (ih ++ index_part idx) ≡ some (ih, idx)
parsed_parts-hex ih none h =
    rw (before-only 40 ih h, after-only 40 ih h, lower-hex 40 ih h, IsHex-hex_then_end 40 ih h)
      (unfold is_empty in refl)
parsed_parts-hex ih (some n) h =
    rw
      (
        before-hex 40 ih (decimal n) h,
        after-hex 40 ih (decimal n) h,
        lower-hex 40 ih h,
        IsHex-hex_then_end 40 ih h,
        decimal-nonempty n,
        is_decimal-decimal n,
        value_of-decimal n,
      )
      refl

-- An id written for a torrent whose hash has 40 hexadecimal digits, in either case, and for a file of it
-- or none, is read back as that hash in lower case and that file.
pub parse_id-format_id :
    (info_hash : Text) (file_idx : Option ℕ)
    → IsHex 40 (lower info_hash)
    → parse_id (format_id info_hash file_idx) ≡ some (lower info_hash, file_idx)
unfolding parse_id format_id strip_prefix
parse_id-format_id info_hash file_idx h = parsed_parts-hex (lower info_hash) file_idx h
