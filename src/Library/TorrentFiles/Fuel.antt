-- ===== src/Library/TorrentFiles/Fuel.antt =====
-- The decoder's rounds are enough for every input, well-formed or not.
use stremio_libtorrent_serve.Prelude.{
  ℕ, zero, suc, ◌+◌, ◌*◌, ◌≤◌, ◌<◌, ◌≡◌, subst, true, not, ◌&&◌, Option, none, some, [], ◌∷◌, arith,
  leb, nat_eq, length, contains, ℕ_eq, Bool-cases, Option-cases, inl, inr,
}
use stremio_libtorrent_serve.Prelude.Int.{ℤ, pos, negsuc}
use stremio_libtorrent_serve.Prelude.Text.{Text, is_digit, before, after}
use stremio_libtorrent_serve.Stream.Ranges.{int_of}
use stremio_libtorrent_serve.Library.TorrentFiles.{
  Value, number, bytes, list, dict, Values, cons, Entries, entry, Decoded, got, invalid,
  out_of_fuel, and_then, max_depth, read_int, number_read, read_number, take_exactly, has_separator,
  length_of, read_string, head_of, tail_of, is_end, decode_with, entry_with, decode, decode_items,
  decode_entries,
}

-- A result that leaves fewer than `n` bytes.
abbrev pub IsShorter : {A : Type 0} → ℕ → Decoded A → Type 0
IsShorter n (got v rest) = length rest < n
IsShorter n invalid = Unit
IsShorter n out_of_fuel = ⊥

IsShorter-le : {A : Type 0} (m n : ℕ) (r : Decoded A) → m ≤ n → IsShorter m r → IsShorter n r
IsShorter-le m n (got v rest) le h = omega (arith, h, le)
IsShorter-le m n invalid le h = tt
IsShorter-le m n out_of_fuel le h = absurd h

and_then-IsShorter :
    {A B : Type 0} (m n : ℕ) (r : Decoded A) (f : A → Text → Decoded B)
    → IsShorter m r
    → ((v : A) (rest : Text) → length rest < m → IsShorter n (f v rest))
    → IsShorter n (and_then r f)
and_then-IsShorter m n (got v rest) f h k = k v rest h
and_then-IsShorter m n invalid f h k = tt
and_then-IsShorter m n out_of_fuel f h k = absurd h

after-length : (c : ℕ) (s : Text) → length (after c s) ≤ length s
unfolding after
after-length c [] = omega arith
after-length c (d ∷ s) = ground (arith, after-length c s)

number-IsShorter :
    (o : Option ℤ) (rest : Text) (n : ℕ) → length rest < n → IsShorter n (number_read o rest)
number-IsShorter none rest n h = tt
number-IsShorter (some i) rest n h = h

read_number-IsShorter : (s : Text) (n : ℕ) → length s < n → IsShorter n (read_number s)
read_number-IsShorter s n h = elim (Bool-cases (contains s b'e')) [
  | inl e ↦ rw e (
      number-IsShorter (read_int (before b'e' s)) (after b'e' s) n
        (omega (arith, after-length b'e' s, h)))
  | inr e ↦ rw e tt
]

take_exactly-length :
    (n : ℕ) (s t rest : Text) → take_exactly n s ≡ some (t, rest) → length rest ≤ length s
unfolding take_exactly
take_exactly-length zero s t rest e = ground (arith, e)
take_exactly-length (suc n) [] t rest e = cc e
take_exactly-length (suc n) (c ∷ s) t rest e = elim (Option-cases (take_exactly n s)) [
  | inl k ↦ absurd (let e' = rw k at e in cc e')
  | inr ((u, behind), k) ↦
      let e' = rw k at e in
      let same : behind ≡ rest = cc e' in
      subst (λ r. length r ≤ suc (length s)) same
        (omega (arith, take_exactly-length n s u behind k))
]

string_read-IsShorter :
    (o : Option ℤ) (rest : Text) (n : ℕ) → length rest < n → IsShorter n (length_of o rest)
string_read-IsShorter none rest n h = tt
string_read-IsShorter (some (negsuc k)) rest n h = tt
string_read-IsShorter (some (pos k)) rest n h = elim (Option-cases (take_exactly k rest)) [
  | inl e ↦ rw e tt
  | inr ((t, behind), e) ↦ rw e (omega (arith, take_exactly-length k rest t behind e, h))
]

after-shorter : (c : ℕ) (s : Text) → contains s c ≡ true → length (after c s) < length s
unfolding after contains
after-shorter c [] e = cc e
after-shorter c (d ∷ s) e = ground (arith, after-shorter c s, after-length c s)

read_string-IsShorter : (s : Text) → IsShorter (length s) (read_string s)
read_string-IsShorter s =
    elim (Bool-cases (contains s b':' && not (has_separator (before b':' s)))) [
      | inl e ↦ rw e (
          string_read-IsShorter (int_of (before b':' s)) (after b':' s) (length s)
            (after-shorter b':' s (ground (arith, e))))
      | inr e ↦ rw e tt
    ]

decode_with-IsShorter :
    (items : Text → Decoded Values) (entries : Text → Decoded Entries) (s : Text) (n : ℕ)
    → 2 * length s < suc n
    → ((t : Text) → 2 * length t + 1 < n → IsShorter (length t) (items t))
    → ((t : Text) → 2 * length t + 1 < n → IsShorter (length t) (entries t))
    → IsShorter (length s) (decode_with items entries (head_of s) s)
decode_with-IsShorter items entries [] n h hi he = tt
decode_with-IsShorter items entries (c ∷ s) n h hi he =
    let room : 2 * length s + 1 < n = omega (arith, h) in
    elim (Bool-cases (nat_eq c b'i')) [
      | inl a ↦ rw a (read_number-IsShorter s (suc (length s)) (omega arith))
      | inr a ↦ elim (Bool-cases (nat_eq c b'l')) [
        | inl b ↦
            rw (a, b)
              (and_then-IsShorter (length s) (suc (length s)) (items s)
                (λ vs rest. got (list vs) rest) (hi s room) (λ vs rest k. omega (arith, k)))
        | inr b ↦ elim (Bool-cases (nat_eq c b'd')) [
          | inl d ↦
              rw (a, b, d)
                (and_then-IsShorter (length s) (suc (length s)) (entries s)
                  (λ es rest. got (dict es) rest) (he s room) (λ es rest k. omega (arith, k)))
          | inr d ↦ elim (Bool-cases (is_digit c)) [
            | inl f ↦ rw (a, b, d, f) (read_string-IsShorter (c ∷ s))
            | inr f ↦ rw (a, b, d, f) tt
          ]
        ]
      ]
    ]

tail_of-IsShorter : (s : Text) → is_end s ≡ true → length (tail_of s) < length s
tail_of-IsShorter [] e = cc e
tail_of-IsShorter (c ∷ s) e = omega arith

entry_with-IsShorter :
    (value : Text → Decoded Value) (more : Text → Decoded Entries) (v : Value) (s : Text) (m n : ℕ)
    → length s < m
    → 2 * length s + 1 < n
    → ((t : Text) → 2 * length t < n → IsShorter (length t) (value t))
    → ((t : Text) → 2 * length t + 1 < n → IsShorter (length t) (more t))
    → IsShorter m (entry_with value more v s)
entry_with-IsShorter value more (number i) s m n l h hv hm = tt
entry_with-IsShorter value more (list vs) s m n l h hv hm = tt
entry_with-IsShorter value more (dict es) s m n l h hv hm = tt
entry_with-IsShorter value more (bytes k) s m n l h hv hm =
    and_then-IsShorter (length s) m (value s)
      (λ v rest. and_then (more rest) (λ es behind. got (entry k v es) behind))
      (hv s (omega (arith, h)))
      (λ v rest a.
        and_then-IsShorter (length rest) m (more rest) (λ es behind. got (entry k v es) behind)
          (hm rest (omega (arith, h, a))) (λ es behind b. omega (arith, l, a, b)))

mutual
  unfolding decode

  decode-IsShorter :
      (n depth : ℕ) (s : Text) → 2 * length s < n → IsShorter (length s) (decode n depth s)
  decode-IsShorter zero depth s h = omega (arith, h)
  decode-IsShorter (suc n) depth s h = elim (Bool-cases (leb depth max_depth)) [
    | inl e ↦
        rw (e, decode)
          (decode_with-IsShorter (decode_items n (depth + 1)) (decode_entries n (depth + 1)) s n h
            (λ t k. decode_items-IsShorter n (depth + 1) t k)
            (λ t k. decode_entries-IsShorter n (depth + 1) t k))
    | inr e ↦ rw (e, decode) tt
  ]

  decode_items-IsShorter :
      (n depth : ℕ) (s : Text)
      → 2 * length s + 1 < n
      → IsShorter (length s) (decode_items n depth s)
  decode_items-IsShorter zero depth s h = omega (arith, h)
  decode_items-IsShorter (suc n) depth s h = elim (Bool-cases (is_end s)) [
    | inl e ↦ rw (e, decode_items) (tail_of-IsShorter s e)
    | inr e ↦
        rw (e, decode_items)
          (and_then-IsShorter (length s) (length s) (decode n depth s)
            (λ v rest. and_then (decode_items n depth rest) (λ vs behind. got (cons v vs) behind))
            (decode-IsShorter n depth s (omega (arith, h)))
            (λ v rest k.
              and_then-IsShorter (length rest) (length s) (decode_items n depth rest)
                (λ vs behind. got (cons v vs) behind)
                (decode_items-IsShorter n depth rest (omega (arith, h, k)))
                (λ vs behind l. omega (arith, k, l))))
  ]

  decode_entries-IsShorter :
      (n depth : ℕ) (s : Text)
      → 2 * length s + 1 < n
      → IsShorter (length s) (decode_entries n depth s)
  decode_entries-IsShorter zero depth s h = omega (arith, h)
  decode_entries-IsShorter (suc n) depth s h = elim (Bool-cases (is_end s)) [
    | inl e ↦ rw (e, decode_entries) (tail_of-IsShorter s e)
    | inr e ↦
        rw (e, decode_entries)
          (and_then-IsShorter (length s) (length s) (decode n depth s)
            (entry_with (decode n depth) (decode_entries n depth))
            (decode-IsShorter n depth s (omega (arith, h)))
            (λ v rest k.
              entry_with-IsShorter (decode n depth) (decode_entries n depth) v rest (length s) n k
                (omega (arith, h, k)) (λ t b. decode-IsShorter n depth t b)
                (λ t b. decode_entries-IsShorter n depth t b)))
  ]

-- Whatever the bytes, twice as many rounds as there are bytes, and one more, decode them: the decoder
-- never runs out, and where it reads a value it has read at least one byte of it.
pub decode_all-IsShorter : (buf : Text) → IsShorter (length buf) (decode (2 * length buf + 1) 0 buf)
decode_all-IsShorter buf = decode-IsShorter (2 * length buf + 1) 0 buf (omega arith)
