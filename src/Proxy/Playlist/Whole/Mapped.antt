-- ===== src/Proxy/Playlist/Whole/Mapped.antt =====
-- proxy/playlist.py: what the rewriting makes of a line, said of the line alone.
use stremio_libtorrent_serve.Prelude.{
  ℕ, ◌≡◌, ◌≢◌, ◌↔◌, refl, sym, subst, false, Option, none, some, List, [], ◌∷◌, ◌++◌, arith, nat_eq,
  length, All, Bool-cases, inl, inr,
}
use stremio_libtorrent_serve.Prelude.Text.{Text, is_empty}
use stremio_libtorrent_serve.Proxy.Playlist.{
  cons_line, lines_of, cons_text, cut_ending, Attribute, search_uri, done, map_attribute, map_line,
  piece_of, passes_limit, rewrite_lines,
}
use stremio_libtorrent_serve.Proxy.Playlist.Whole.{
  append_some, join_pieces, rewritten, rewrite_lines-rewritten,
}
use stremio_libtorrent_serve.Proxy.Playlist.Whole.Uris.{
  IsFirstUri, NoUri, search_uri-none, search_uri-some,
}
use stremio_libtorrent_serve.Proxy.Playlist.Whole.Same.{cut_ending-append, glue, glue-lines_of}

-- No carriage return at the end.
abbrev pub IsTrimmed : Text → Type 0
IsTrimmed [] = Unit
IsTrimmed (c ∷ []) = c ≢ 13
IsTrimmed (c ∷ d ∷ text) = IsTrimmed (d ∷ text)

module _ (map_url : Text → Option Text) where
  -- A line and what comes out for it, without the carriage returns at its end.
  pub data IsMapped : Text → Text → Type 0 where
    blank : IsMapped [] []
    plain_tag : (text : Text) → NoUri (b'#' ∷ text) → IsMapped (b'#' ∷ text) (b'#' ∷ text)
    tag :
        (text front value back url : Text)
        → IsFirstUri (b'#' ∷ text) front value back
        → map_url value ≡ some url
        → IsMapped (b'#' ∷ text) (front ++ url ++ back)
    address :
        (c : ℕ) (text url : Text)
        → c ≢ b'#'
        → map_url (c ∷ text) ≡ some url
        → IsMapped (c ∷ text) url

  -- The same for the whole line: the carriage returns at its end are kept.
  pub record IsMappedLine (raw out : Text) : Type 0 where
    pub line : Text
    pub line' : Text
    pub ending : Text
    pub cut : raw ≡ line ++ ending
    pub trimmed : IsTrimmed line
    pub returns : All (λ c. c ≡ 13) ending
    pub mapped : IsMapped line line'
    pub kept : out ≡ line' ++ ending

  -- A text that is the lines' outputs, each but the first with a line feed in front.
  abbrev pub AreMapped : Text → List Text → Text → Type 0
  AreMapped feed [] text = text ≡ []
  AreMapped feed (raw ∷ lines) text =
      (out : Text) × (rest : Text) × IsMappedLine raw out
      × (text ≡ (feed ++ out) ++ rest)
      × AreMapped (10 ∷ []) lines rest

  abbrev pub Raises : Type 0
  Raises = (url : Text) × (map_url url ≡ none)

  -- A whole playlist rewritten; none only where the map raises for some URL.
  abbrev pub IsRewriting : List Text → Option Text → Type 0
  IsRewriting lines none = Raises
  IsRewriting lines (some text) = AreMapped [] lines text

-- The lines of a body are the body, cut at its line feeds.
abbrev pub AreLinesOf : List Text → Text → Type 0
AreLinesOf lines body = All (All (λ c. c ≢ 10)) lines × (glue [] lines ≡ body)

cons_line-NoFeed :
    (c : ℕ) (lines : List Text)
    → c ≢ 10
    → All (All (λ d. d ≢ 10)) lines
    → All (All (λ d. d ≢ 10)) (cons_line c lines)
cons_line-NoFeed c [] h k = ((h, tt), tt)
cons_line-NoFeed c (line ∷ lines) h k = ((h, k.0), k.1)

lines_of-NoFeed : (body : Text) → All (All (λ c. c ≢ 10)) (lines_of body)
unfolding lines_of
lines_of-NoFeed [] = (tt, tt)
lines_of-NoFeed (c ∷ body) = elim (Bool-cases (nat_eq c 10)) [
  | inl e ↦ rw (e, lines_of) (tt, lines_of-NoFeed body)
  | inr e ↦
      rw (e, lines_of)
        (cons_line-NoFeed c (lines_of body) (ground (arith, e)) (lines_of-NoFeed body))
]

cons_text-Trimmed :
    (c : ℕ) (text ending : Text)
    → IsTrimmed text × All (λ d. d ≡ 13) ending
    → IsTrimmed (cons_text c (text, ending)).0 × All (λ d. d ≡ 13) (cons_text c (text, ending)).1
unfolding is_empty
cons_text-Trimmed c [] ending h = elim (Bool-cases (nat_eq c 13)) [
  | inl e ↦ rw e (tt, (ground (arith, e), h.1))
  | inr e ↦ rw e (ground (arith, e), h.1)
]
cons_text-Trimmed c (d ∷ text) ending h = h

cut_ending-Trimmed : (s : Text) → IsTrimmed (cut_ending s).0 × All (λ d. d ≡ 13) (cut_ending s).1
unfolding cut_ending
cut_ending-Trimmed [] = (tt, tt)
cut_ending-Trimmed (c ∷ s) =
    cons_text-Trimmed c (cut_ending s).0 (cut_ending s).1 (cut_ending-Trimmed s)

module _ (map_url : Text → Option Text) where
  abbrev IsLine : Text → Option Text → Type 0
  IsLine line none = Raises map_url
  IsLine line (some line') = IsMapped map_url line line'

  valued-IsLine :
      (text : Text) (a : Attribute) (o : Option Text)
      → IsFirstUri (b'#' ∷ text) a.front a.value a.back
      → map_url a.value ≡ o
      → IsLine (b'#' ∷ text) (elim o [ none ↦ none | some url ↦ some (a.front ++ url ++ a.back) ])
  valued-IsLine text a none f e = (a.value, e)
  valued-IsLine text a (some url) f e = tag text a.front a.value a.back url f e

  tag-IsLine :
      (text : Text) (o : Option Attribute)
      → search_uri (b'#' ∷ text) ≡ o
      → IsLine (b'#' ∷ text) (map_attribute map_url (b'#' ∷ text) o)
  tag-IsLine text none e = plain_tag text (search_uri-none (b'#' ∷ text) e)
  tag-IsLine text (some a) e =
      valued-IsLine text a (map_url a.value) (search_uri-some (b'#' ∷ text) a e) refl

  address-IsLine :
      (c : ℕ) (text : Text) (o : Option Text)
      → c ≢ b'#'
      → map_url (c ∷ text) ≡ o
      → IsLine (c ∷ text) o
  address-IsLine c text none h e = (c ∷ text, e)
  address-IsLine c text (some url) h e = address c text url h e

  map_line-IsLine : (line : Text) → IsLine line (map_line map_url line)
  map_line-IsLine [] = blank
  map_line-IsLine (c ∷ text) = elim (Bool-cases (nat_eq c b'#')) [
    | inl e ↦
        let same : c ≡ b'#' = ground (arith, e) in
        subst (λ d. IsLine (d ∷ text) (map_line map_url (d ∷ text))) (sym same)
          (tag-IsLine text (search_uri (b'#' ∷ text)) refl)
    | inr e ↦ rw e (address-IsLine c text (map_url (c ∷ text)) (ground (arith, e)) refl)
  ]

  abbrev IsPiece : Text → Option Text → Type 0
  IsPiece raw none = Raises map_url
  IsPiece raw (some out) = IsMappedLine map_url raw out

  ended-IsPiece :
      (raw : Text) (o : Option Text)
      → IsLine (cut_ending raw).0 o
      → IsPiece raw (elim o [ none ↦ none | some text ↦ some (text ++ (cut_ending raw).1) ])
  ended-IsPiece raw none h = h
  ended-IsPiece raw (some text) h = record {
    line = (cut_ending raw).0;
    line' = text;
    ending = (cut_ending raw).1;
    cut = sym (cut_ending-append raw);
    trimmed = (cut_ending-Trimmed raw).0;
    returns = (cut_ending-Trimmed raw).1;
    mapped = h;
    kept = refl;
  }

  piece_of-IsPiece : (raw : Text) → IsPiece raw (piece_of map_url raw)
  unfolding piece_of
  piece_of-IsPiece raw =
      ended-IsPiece raw (map_line map_url (cut_ending raw).0) (map_line-IsLine (cut_ending raw).0)

  abbrev IsJoined : Text → List Text → Option Text → Type 0
  IsJoined feed lines none = Raises map_url
  IsJoined feed lines (some text) = AreMapped map_url feed lines text

  join-IsJoined :
      (feed raw : Text) (lines : List Text) (p q : Option Text)
      → IsPiece raw p
      → IsJoined (10 ∷ []) lines q
      → IsJoined feed
          (raw ∷ lines)
          (elim p [ none ↦ none | some text ↦ append_some map_url (feed ++ text) q ])
  join-IsJoined feed raw lines none q h k = h
  join-IsJoined feed raw lines (some text) none h k = k
  join-IsJoined feed raw lines (some text) (some rest) h k = (text, rest, h, refl, k)

  join_pieces-IsJoined :
      (feed : Text) (lines : List Text) → IsJoined feed lines (join_pieces map_url feed lines)
  unfolding join_pieces
  join_pieces-IsJoined feed [] = refl
  join_pieces-IsJoined feed (raw ∷ lines) =
      join-IsJoined feed raw lines (piece_of map_url raw) (join_pieces map_url (10 ∷ []) lines)
        (piece_of-IsPiece raw) (join_pieces-IsJoined (10 ∷ []) lines)

  joined-IsRewriting :
      (lines : List Text) (o : Option Text) → IsJoined [] lines o → IsRewriting map_url lines o
  joined-IsRewriting lines none h = h
  joined-IsRewriting lines (some text) h = h

  -- The rewriting returns a playlist exactly when the whole playlist, rewritten at once, is there and within
  -- the limit, and then it is that. The lines are the body, cut at its line feeds. The playlist rewritten
  -- at once is missing only where the map raises for some URL; else it has a line for each line: a blank
  -- line and a tag without a URI attribute as they are, a tag with the value of its first `URI="..."`
  -- mapped and the rest kept, and any other line mapped as a URL, each with its carriage returns kept.
  pub rewrite_lines-done :
      (limit : Option ℕ) (body t : Text)
      → ((rewrite_lines map_url limit body ≡ done t)
          ↔ ((rewritten map_url body ≡ some t) × (passes_limit limit (length t) ≡ false)))
        × AreLinesOf (lines_of body) body
        × IsRewriting map_url (lines_of body) (rewritten map_url body)
  unfolding rewritten
  rewrite_lines-done limit body t = (
    rewrite_lines-rewritten map_url limit body t,
    (lines_of-NoFeed body, glue-lines_of body),
    joined-IsRewriting (lines_of body) (join_pieces map_url [] (lines_of body))
        (join_pieces-IsJoined [] (lines_of body)),
  )
