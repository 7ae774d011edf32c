-- ===== src/Proxy/Playlist.antt =====
-- proxy/playlist.py: the rewriting of a playlist, line by line. A text is its UTF-8 bytes, undecodable
-- ones included: every test here is on ASCII, which decoding leaves alone. What is mapped to raises is
-- none.
pub mod Whole
use stremio_libtorrent_serve.Prelude.{
  ℕ, ◌+◌, Bool, true, false, not, ◌&&◌, ◌||◌, Option, none, some, List, [], ◌∷◌, ◌++◌, leb, nat_eq,
  if◌then◌else◌, length,
}
use stremio_libtorrent_serve.Prelude.Text.{Text, codes, is_empty, strip_prefix, before}

-- `_lines`: the body split at every line feed
abbrev pub cons_line : ℕ → List Text → List Text
cons_line c [] = (c ∷ []) ∷ []
cons_line c (line ∷ lines) = (c ∷ line) ∷ lines

unfoldable pub lines_of : Text → List Text
lines_of [] = [] ∷ []
lines_of (c ∷ body) =
    let rest = lines_of body in if nat_eq c 10 then [] ∷ rest else cons_line c rest

abbrev pub cons_text : ℕ → Text × Text → Text × Text
cons_text c (text, ending) =
    if is_empty text && nat_eq c 13 then ([], c ∷ ending) else (c ∷ text, ending)

-- `line.rstrip("\r")`, and what that cuts off
unfoldable pub cut_ending : Text → Text × Text
cut_ending [] = ([], [])
cut_ending (c ∷ line) = cons_text c (cut_ending line)

-- from the first quotation mark on
unfoldable pub from_quote : Text → Option Text
from_quote [] = none
from_quote (c ∷ s) = let rest = from_quote s in if nat_eq c b'"' then some (c ∷ s) else rest

-- Where `_URI_ATTR` matches: the text in front of the value, the value, and the text behind it.
pub record Attribute : Type 0 where
  pub front : Text
  pub value : Text
  pub back : Text

abbrev pub uri_mark : Text
uri_mark = codes "URI=\""

abbrev pub value_at : Text → Option Text → Option Attribute
value_at rest none = none
value_at rest (some back) =
    if is_empty (before b'"' rest)
    then none
    else some (record { front = uri_mark; value = before b'"' rest; back = back })

-- `_URI_ATTR.match` at the start of the text
abbrev pub match_here : Option Text → Option Attribute
match_here none = none
match_here (some rest) = value_at rest (from_quote rest)

abbrev pub first_of : ℕ → Option Attribute → Option Attribute → Option Attribute
first_of c (some a) later = some a
first_of c none none = none
first_of c none (some a) = some (record a { front = c ∷ a.front })

-- `_URI_ATTR.search`
unfoldable pub search_uri : Text → Option Attribute
unfolding from_quote
search_uri [] = none
search_uri (c ∷ s) = first_of c (match_here (strip_prefix uri_mark (c ∷ s))) (search_uri s)

-- How a rewriting ends: `too_large` is the exception of that name, `failed` one that the map raised.
pub data Rewritten : Type 0 where
  done : Text → Rewritten
  too_large : Rewritten
  failed : Rewritten

abbrev pub passes_limit : Option ℕ → ℕ → Bool
passes_limit none n = false
passes_limit (some most) n = not (leb n most)

module _ (map_url : Text → Option Text) where
  abbrev pub map_attribute : Text → Option Attribute → Option Text
  map_attribute line none = some line
  map_attribute line (some a) = elim (map_url a.value) [
    | none ↦ none
    | some url ↦ some (a.front ++ url ++ a.back)
  ]

  -- `_map_line`
  abbrev pub map_line : Text → Option Text
  map_line [] = some []
  map_line (c ∷ line) =
      if nat_eq c b'#' then map_attribute (c ∷ line) (search_uri (c ∷ line)) else map_url (c ∷ line)

  -- a line's piece of the output, without the line feed in front of it
  unfoldable pub piece_of : Text → Option Text
  unfolding search_uri cut_ending
  piece_of raw = elim (map_line (cut_ending raw).0) [
    | none ↦ none
    | some text ↦ some (text ++ (cut_ending raw).1)
  ]

  module _ (limit : Option ℕ) where
    -- the loop of `rewrite_lines`, with what it has written; all lines but the first have a line feed in
    -- front
    unfoldable pub rewrite_loop : Text → Text → List Text → Rewritten
    unfolding piece_of
    rewrite_loop feed out [] = done out
    rewrite_loop feed out (raw ∷ lines) = elim (piece_of raw) [
      | none ↦ failed
      | some text ↦
          let rest = rewrite_loop (10 ∷ []) (out ++ (feed ++ text)) lines in
          if passes_limit limit (length out + length (feed ++ text)) then too_large else rest
    ]

    unfoldable pub rewrite_lines : Text → Rewritten
    unfolding rewrite_loop lines_of
    rewrite_lines body = rewrite_loop [] [] (lines_of body)
