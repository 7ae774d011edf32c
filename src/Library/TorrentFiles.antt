-- ===== src/Library/TorrentFiles.antt =====
-- library/torrentfiles.py: a torrent's own file list, out of its resume record. Byte strings are lists
-- of bytes; `none` is the `ValueError` or the absence of a listing. Python's limit on the digits of a
-- number is left out.
pub mod Fuel
pub mod Listed
pub mod Info
use stremio_libtorrent_serve.Prelude.{
  ℕ, zero, suc, ◌+◌, ◌-◌, ◌*◌, Bool, true, false, not, ◌&&◌, ◌||◌, Option, none, some, List, [],
  ◌∷◌, ◌++◌, map, leb, nat_eq, if◌then◌else◌, ◌==◌, length, contains, ℕ_eq,
}
use stremio_libtorrent_serve.Prelude.Int.{ℤ, pos, sub_ℕ}
use stremio_libtorrent_serve.Prelude.Text.{Text, Text_eq, codes, is_empty, is_digit, before, after}
use stremio_libtorrent_serve.Prelude.Numerals.{all_digits, value_of}
use stremio_libtorrent_serve.Stream.Ranges.{int_of}

mutual
  pub data Value : Type 0 where
    number : ℤ → Value
    bytes : Text → Value
    list : Values → Value
    dict : Entries → Value

  pub data Values : Type 0 where
    nil : Values
    cons : Value → Values → Values

  pub data Entries : Type 0 where
    end : Entries
    entry : Text → Value → Entries → Entries

-- What `_decode` returns, with the bytes behind it. The fuel is the decoder's own.
pub data Decoded (A : Type 0) : Type 0 where
  got : A → Text → Decoded A
  invalid : Decoded A
  out_of_fuel : Decoded A

abbrev pub and_then : {A B : Type 0} → Decoded A → (A → Text → Decoded B) → Decoded B
and_then (got a s) f = f a s
and_then invalid f = invalid
and_then out_of_fuel f = out_of_fuel

abbrev pub max_depth : ℕ
max_depth = 64

-- an integer without its sign, which has a leading zero only where it is zero
abbrev pub magnitude : Text → Option ℕ
magnitude [] = none
magnitude (c ∷ s) =
    if all_digits (c ∷ s) && (not (nat_eq c b'0') || is_empty s)
    then some (value_of 0 (c ∷ s))
    else none

abbrev pub negative_of : Option ℕ → Option ℤ
negative_of none = none
negative_of (some zero) = none
negative_of (some (suc n)) = some (sub_ℕ 0 (suc n))

abbrev pub natural_of : Option ℕ → Option ℤ
natural_of none = none
natural_of (some n) = some (pos n)

-- the digits of a bencoded integer
unfoldable pub read_int : Text → Option ℤ
unfolding all_digits value_of
read_int [] = none
read_int (c ∷ s) =
    if nat_eq c b'-' then negative_of (magnitude s) else natural_of (magnitude (c ∷ s))

abbrev pub number_read : Option ℤ → Text → Decoded Value
number_read none rest = invalid
number_read (some n) rest = got (number n) rest

-- `buf.index(b"e", pos)`, and what it delimits
abbrev pub read_number : Text → Decoded Value
read_number s =
    if contains s b'e' then number_read (read_int (before b'e' s)) (after b'e' s) else invalid

-- the first `n` bytes and the others, none where there are fewer
unfoldable pub take_exactly : ℕ → Text → Option (Text × Text)
take_exactly zero s = some ([], s)
take_exactly (suc n) [] = none
take_exactly (suc n) (c ∷ s) = elim (take_exactly n s) [
  | none ↦ none
  | some (t, rest) ↦ some (c ∷ t, rest)
]

abbrev pub string_read : Option (Text × Text) → Decoded Value
string_read none = invalid
string_read (some (t, rest)) = got (bytes t) rest

-- of the control characters that `int` skips in a text it refuses four in bytes
unfoldable pub has_separator : Text → Bool
has_separator [] = false
has_separator (c ∷ s) = (leb 28 c && leb c 31) || has_separator s

abbrev pub length_of : Option ℤ → Text → Decoded Value
length_of (some (pos n)) rest = string_read (take_exactly n rest)
length_of o rest = invalid

abbrev pub read_string : Text → Decoded Value
read_string s =
    if contains s b':' && not (has_separator (before b':' s))
    then length_of (int_of (before b':' s)) (after b':' s)
    else invalid

-- What a value begins with.
pub data Head : Type 0 where
  at_number at_list at_dict at_string at_none : Head

abbrev pub head_of : Text → Head
head_of [] = at_none
head_of (c ∷ s) =
    if nat_eq c b'i'
    then at_number
    else if nat_eq c b'l'
    then at_list
    else if nat_eq c b'd'
    then at_dict
    else if is_digit c
    then at_string
    else at_none

abbrev pub tail_of : Text → Text
tail_of [] = []
tail_of (c ∷ s) = s

abbrev pub is_end : Text → Bool
is_end [] = false
is_end (c ∷ s) = nat_eq c b'e'

-- `_decode` once its depth has passed, with the loops over the items of a list and the entries of a
-- dictionary
abbrev pub decode_with :
    (Text → Decoded Values) → (Text → Decoded Entries) → Head → Text → Decoded Value
decode_with items entries at_number s = read_number (tail_of s)
decode_with items entries at_list s = and_then (items (tail_of s)) (λ vs rest. got (list vs) rest)
decode_with items entries at_dict s = and_then (entries (tail_of s)) (λ es rest. got (dict es) rest)
decode_with items entries at_string s = read_string s
decode_with items entries at_none s = invalid

-- a round of each loop, with the decoder and the rounds behind it
abbrev pub items_with :
    (Text → Decoded Value) → (Text → Decoded Values) → Bool → Text → Decoded Values
items_with value more true s = got nil (tail_of s)
items_with value more false s =
    and_then (value s) (λ v rest. and_then (more rest) (λ vs behind. got (cons v vs) behind))

abbrev pub entry_with :
    (Text → Decoded Value) → (Text → Decoded Entries) → Value → Text → Decoded Entries
entry_with value more (bytes k) s =
    and_then (value s) (λ v rest. and_then (more rest) (λ es behind. got (entry k v es) behind))
entry_with value more v s = invalid

abbrev pub entries_with :
    (Text → Decoded Value) → (Text → Decoded Entries) → Bool → Text → Decoded Entries
entries_with value more true s = got end (tail_of s)
entries_with value more false s = and_then (value s) (entry_with value more)

unfoldable mutual
  unfolding read_int take_exactly has_separator

  -- `_decode`
  pub decode : ℕ → ℕ → Text → Decoded Value
  decode zero depth s = out_of_fuel
  decode (suc n) depth s = elim (leb depth max_depth) [
    | true ↦ decode_with (decode_items n (depth + 1)) (decode_entries n (depth + 1)) (head_of s) s
    | false ↦ invalid
  ]

  pub decode_items : ℕ → ℕ → Text → Decoded Values
  decode_items zero depth s = out_of_fuel
  decode_items (suc n) depth s = items_with (decode n depth) (decode_items n depth) (is_end s) s

  pub decode_entries : ℕ → ℕ → Text → Decoded Entries
  decode_entries zero depth s = out_of_fuel
  decode_entries (suc n) depth s =
      entries_with (decode n depth) (decode_entries n depth) (is_end s) s

abbrev pub whole_value : Decoded Value → Option Value
whole_value (got v []) = some v
whole_value r = none

-- `bdecode`, with twice as many rounds as there are bytes, and one more
unfoldable pub bdecode : Text → Option Value
unfolding decode
bdecode buf = whole_value (decode (2 * length buf + 1) 0 buf)
