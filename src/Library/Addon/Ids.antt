-- ===== src/Library/Addon/Ids.antt =====
-- library/addon_model.py: the library's own ids, and the values that a request carries (`format_id`,
-- `parse_id`, `parse_extra`, `parse_skip`). Python's limit on the digits of a number is left out.
pub mod RoundTrip
use stremio_libtorrent_serve.Prelude.{
  ℕ, zero, suc, Bool, true, false, not, ◌&&◌, ◌||◌, Option, none, some, List, [], ◌∷◌, ◌++◌, map,
  nat_eq, leb, if◌then◌else◌, ◌==◌, length, contains, ℕ_eq,
}
use stremio_libtorrent_serve.Prelude.Text.{
  Text, Text_eq, codes, is_empty, is_digit, before, after, lower, strip_prefix,
}
use stremio_libtorrent_serve.Prelude.Numerals.{decimal, is_decimal, value_of, all_codes}
use stremio_libtorrent_serve.Prelude.Names.{split_on}
use stremio_libtorrent_serve.Prelude.Dict.{Dict, put}

abbrev pub id_prefix : Text
id_prefix = codes "stremiosrv:"

abbrev pub lower_hex : ℕ → Bool
lower_hex c = is_digit c || (leb b'a' c && leb c b'f')

-- `_IH_RE.match`: 40 hexadecimal digits; `$` also matches in front of a line break that ends the text
unfoldable pub hex_then_end : ℕ → Text → Bool
hex_then_end zero [] = true
hex_then_end zero (c ∷ s) = nat_eq c 10 && is_empty s
hex_then_end (suc n) [] = false
hex_then_end (suc n) (c ∷ s) = lower_hex c && hex_then_end n s

abbrev pub index_part : Option ℕ → Text
index_part none = []
index_part (some n) = b':' ∷ decimal n

-- `format_id`
unfoldable pub format_id : Text → Option ℕ → Text
format_id info_hash file_idx = id_prefix ++ (lower info_hash ++ index_part file_idx)

abbrev pub parsed_index : Text → Text → Option (Text × Option ℕ)
parsed_index ih idx =
    if is_empty idx
    then some (ih, none)
    else if is_decimal idx
    then some (ih, some (value_of 0 idx))
    else none

abbrev pub parsed_parts : Text → Option (Text × Option ℕ)
parsed_parts rest =
    let ih = lower (before b':' rest) in
    if hex_then_end 40 ih then parsed_index ih (after b':' rest) else none

-- `parse_id`
unfoldable pub parse_id : Text → Option (Text × Option ℕ)
unfolding strip_prefix is_empty hex_then_end lower before after
parse_id value = elim (strip_prefix id_prefix value) [ none ↦ none | some rest ↦ parsed_parts rest ]

-- a pair of `extra`, with `urllib.parse.unquote` as an argument
module _ (unquote : Text → Text) where
  abbrev pub put_pair : Dict Text Text → Text → Dict Text Text
  put_pair out pair =
      let key = before b'=' pair in
      if contains pair b'=' && not (is_empty key)
      then put (unquote key) (unquote (after b'=' pair)) out
      else out

  unfoldable pub put_pairs : Dict Text Text → List Text → Dict Text Text
  unfolding put contains is_empty before after
  put_pairs out [] = out
  put_pairs out (pair ∷ pairs) = put_pairs (put_pair out pair) pairs

  -- `parse_extra`
  unfoldable pub parse_extra : Text → Dict Text Text
  unfolding put_pairs split_on
  parse_extra raw = put_pairs [] (split_on b'&' raw)

-- `parse_skip`
unfoldable pub skip_in : List Text → ℕ
skip_in [] = 0
skip_in (pair ∷ pairs) =
    let rest = skip_in pairs in
    if before b'=' pair == codes "skip" && is_decimal (after b'=' pair)
    then value_of 0 (after b'=' pair)
    else rest

unfoldable pub parse_skip : Text → ℕ
unfolding skip_in split_on
parse_skip extra = skip_in (split_on b'&' extra)
