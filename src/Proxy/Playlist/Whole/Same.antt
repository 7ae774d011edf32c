-- ===== src/Proxy/Playlist/Whole/Same.antt =====
-- A playlist that is not changed comes back as it was.
use stremio_libtorrent_serve.Prelude.{
  ℕ, ◌≡◌, refl, sym, ap, ap₂, ◌∙◌, false, Option, some, List, [], ◌∷◌, ◌++◌, arith, nat_eq, length,
  Bool-cases, Option-cases, inl, inr,
}
use stremio_libtorrent_serve.Prelude.Text.{Text, is_empty, strip_prefix, before}
use stremio_libtorrent_serve.Proxy.Playlist.{
  cons_line, lines_of, cut_ending, from_quote, Attribute, uri_mark, match_here, first_of,
  search_uri, done, map_line, piece_of, passes_limit, rewrite_lines,
}
use stremio_libtorrent_serve.Proxy.Playlist.Whole.{join_pieces, rewritten, rewrite_lines-rewritten}

-- What a match splits a line into is the line.
pub strip_prefix-append : (p s rest : Text) → strip_prefix p s ≡ some rest → p ++ rest ≡ s
unfolding strip_prefix
strip_prefix-append [] s rest e = sym (cc e)
strip_prefix-append (c ∷ p) [] rest e = cc e
strip_prefix-append (c ∷ p) (d ∷ s) rest e = ground (arith, strip_prefix-append p s rest)

pub from_quote-append : (s back : Text) → from_quote s ≡ some back → before b'"' s ++ back ≡ s
unfolding from_quote before
from_quote-append [] back e = cc e
from_quote-append (c ∷ s) back e = ground (arith, from_quote-append s back)

abbrev whole_of : Attribute → Text
whole_of a = a.front ++ a.value ++ a.back

match_here-whole :
    (s : Text) (a : Attribute) → match_here (strip_prefix uri_mark s) ≡ some a → whole_of a ≡ s
match_here-whole s a e = elim (Option-cases (strip_prefix uri_mark s)) [
  | inl n ↦ absurd (let e' = rw n at e in cc e')
  | inr (rest, m) ↦ elim (Option-cases (from_quote rest)) [
    | inl n ↦ absurd (let e' = rw (m, n) at e in cc e')
    | inr (back, q) ↦ elim (Bool-cases (is_empty (before b'"' rest))) [
      | inl n ↦ absurd (let e' = rw (m, q, n) at e in cc e')
      | inr n ↦
          let e' = rw (m, q, n) at e in
          let same : record { front = uri_mark; value = before b'"' rest; back = back } ≡ a =
            cc e' in
          sym (ap whole_of same)
          ∙ ap (λ x. uri_mark ++ x) (from_quote-append rest back q)
          ∙ strip_prefix-append uri_mark s rest m
    ]
  ]
]

search_uri-whole : (s : Text) (a : Attribute) → search_uri s ≡ some a → whole_of a ≡ s
unfolding search_uri
search_uri-whole [] a e = cc e
search_uri-whole (c ∷ s) a e = elim (Option-cases (match_here (strip_prefix uri_mark (c ∷ s)))) [
  | inr (b, m) ↦
      let e' : some b ≡ some a = sym (ap (λ o. first_of c o (search_uri s)) m) ∙ e in
      let same : b ≡ a = cc e' in sym (ap whole_of same) ∙ match_here-whole (c ∷ s) b m
  | inl n ↦ elim (Option-cases (search_uri s)) [
    | inl k ↦ absurd (let e' = sym (ap₂ (first_of c) n k) ∙ e in cc e')
    | inr (b, k) ↦
        let e' = sym (ap₂ (first_of c) n k) ∙ e in
        let same : record b { front = c ∷ b.front } ≡ a = cc e' in
        sym (ap whole_of same) ∙ ap (λ x. c ∷ x) (search_uri-whole s b k)
  ]
]

pub cut_ending-append : (s : Text) → (cut_ending s).0 ++ (cut_ending s).1 ≡ s
unfolding cut_ending is_empty
cut_ending-append [] = refl
cut_ending-append (c ∷ s) = ground (arith, cut_ending-append s)

map_line-same : (s : Text) → map_line some s ≡ some s
map_line-same [] = refl
map_line-same (c ∷ s) = elim (Option-cases (search_uri (c ∷ s))) [
  | inl n ↦ rw n (ground arith)
  | inr (a, m) ↦ rw m (ground (arith, search_uri-whole (c ∷ s) a m))
]

piece_of-same : (s : Text) → piece_of some s ≡ some s
unfolding piece_of
piece_of-same s = rw (map_line-same (cut_ending s).0, piece_of) (ap some (cut_ending-append s))

-- the lines put together again
pub glue : Text → List Text → Text
glue feed [] = []
glue feed (line ∷ lines) = (feed ++ line) ++ glue (10 ∷ []) lines

join_pieces-same :
    (feed : Text) (lines : List Text) → join_pieces some feed lines ≡ some (glue feed lines)
unfolding join_pieces glue
join_pieces-same feed [] = refl
join_pieces-same feed (line ∷ lines) =
    rw (piece_of-same line, join_pieces, join_pieces-same (10 ∷ []) lines) refl

glue-fed :
    (c : ℕ) (line : Text) (lines : List Text)
    → glue [] (cons_line c (line ∷ lines)) ≡ c ∷ glue [] (line ∷ lines)
unfolding glue
glue-fed c line lines = refl

lines_of-first :
    (body : Text) → (line : Text) × (lines : List Text) × (lines_of body ≡ line ∷ lines)
unfolding lines_of
lines_of-first [] = ([], [], refl)
lines_of-first (c ∷ body) =
    let (line, lines, e) = lines_of-first body in
    elim (Bool-cases (nat_eq c 10)) [
      | inl t ↦ rw (t, lines_of) ([], lines_of body, refl)
      | inr t ↦ rw (t, lines_of, e) (c ∷ line, lines, refl)
    ]

pub glue-lines_of : (body : Text) → glue [] (lines_of body) ≡ body
unfolding glue lines_of
glue-lines_of [] = refl
glue-lines_of (c ∷ body) =
    let (line, lines, e) = lines_of-first body in
    let here = sym (ap (glue []) e) ∙ glue-lines_of body in
    elim (Bool-cases (nat_eq c 10)) [
      | inl t ↦
          rw (t, lines_of, e) (let ten : c ≡ 10 = ground arith in ap₂ (λ x y. x ∷ y) (sym ten) here)
      | inr t ↦ rw (t, lines_of, e) (ap (λ x. c ∷ x) here)
    ]

-- A playlist whose URLs are mapped to themselves comes back byte for byte, line endings and all, where
-- it is within the limit.
pub rewrite_lines-same :
    (limit : Option ℕ) (body : Text)
    → passes_limit limit (length body) ≡ false
    → rewrite_lines some limit body ≡ done body
unfolding rewritten
rewrite_lines-same limit body within =
    (rewrite_lines-rewritten some limit body body).1
      (join_pieces-same [] (lines_of body) ∙ ap some (glue-lines_of body), within)
