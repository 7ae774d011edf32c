-- ===== src/Api/MediaFetch.antt =====
-- api/media_fetch.py: the URL that ffmpeg may open for a client's `mediaURL`, and the tickets of the
-- reader. What `urlsplit`, the tests on an address, `dest.pick`, `opts.parse` and the torrents of the
-- engine answer during a request are its `Outside`; a ticket's id, drawn at random, is an
-- argument. Letters and digits are the ASCII ones.
pub mod Head
pub mod Inspected
pub mod Vetted
use stremio_libtorrent_serve.Prelude.{
  ℕ, zero, suc, Bool, true, false, not, ◌&&◌, ◌||◌, Option, none, some, List, [], ◌∷◌, ◌++◌, ltb,
  leb, nat_eq, if◌then◌else◌, ◌==◌, contains, ℕ_eq, length,
}
use stremio_libtorrent_serve.Prelude.Int.{ℤ}
use stremio_libtorrent_serve.Prelude.Text.{
  Text, Text_eq, codes, is_empty, is_digit, lower, starts_with, strip_prefix,
}
use stremio_libtorrent_serve.Prelude.Dict.{Dict, get, put, remove}
use stremio_libtorrent_serve.Stream.Ranges.{int_of}
use stremio_libtorrent_serve.Stats.Unmatched.{is_hex}
use stremio_libtorrent_serve.Api.MediaFetch.Head.{
  Source, Sniffed, inspected, uninspected, unread, torrent_head,
}
use stremio_libtorrent_serve.Proxy.Opts.{ProxyOpts, Header, query_tail}
use stremio_libtorrent_serve.Proxy.Dest.{Choice, chosen_address, refused, unresolved}

-- A ticket: what the reader fetches, for whom, and with which headers.
pub record Ticket : Type 0 where
  pub url : Text
  pub for_home : Bool
  pub headers : List Header

-- The tickets, the one that was used longest ago first.
abbrev pub Tickets : Type 0
Tickets = Dict Text Ticket

abbrev pub ticket_cap : ℕ
ticket_cap = 8192

-- the loop of `popitem`
unfoldable pub trim : ℕ → Tickets → Tickets
trim cap [] = []
trim cap (t ∷ ts) = let rest = trim cap ts in if ltb cap (length (t ∷ ts)) then rest else t ∷ ts

-- `register`
unfoldable pub register : ℕ → Text → Ticket → Tickets → Tickets
unfolding trim remove
register cap id t tickets = trim cap (remove id tickets ++ (id, t) ∷ [])

abbrev pub moved : Text → Tickets → Option Ticket → Tickets
moved id tickets none = tickets
moved id tickets (some t) = remove id tickets ++ (id, t) ∷ []

-- `resolve_ticket`
unfoldable pub resolve_ticket : Text → Tickets → Option Ticket × Tickets
unfolding get remove
resolve_ticket id tickets = (get id tickets, moved id tickets (get id tickets))

-- The parts of a URL; a host or a path that is absent is empty, and a port that cannot be read is none.
pub record Url : Type 0 where
  pub scheme : Text
  pub hostname : Text
  pub port_read : Option (Option ℕ)
  pub path : Text
  pub query : Text

pub record Outside : Type 0 where
  -- none where it raises
  pub urlsplit : Text → Option Url
  pub is_loopback : Text → Bool
  pub server_host : Text
  pub is_home : Bool
  pub pick_address : Text → ℕ → Bool → Choice
  pub parse : Text → Option (ProxyOpts × Text)
  -- the torrent of a hash, and `stream_first_piece_timeout` in milliseconds
  pub engine : Text → Option Source
  pub first_piece_timeout : ℕ

-- digits, and a line break that ends the text
unfoldable pub digits_then_end : Text → Bool
digits_then_end [] = true
digits_then_end (c ∷ s) = (nat_eq c 10 && is_empty s) || (is_digit c && digits_then_end s)

abbrev pub some_digits : Text → Bool
some_digits [] = false
some_digits (c ∷ s) = is_digit c && digits_then_end s

abbrev pub signed_digits : Text → Bool
signed_digits [] = false
signed_digits (c ∷ s) = if nat_eq c b'-' then some_digits s else some_digits (c ∷ s)

abbrev pub index_behind : Text → Bool
index_behind [] = false
index_behind (c ∷ s) = nat_eq c b'/' && signed_digits s

unfoldable pub hash_behind : ℕ → Text → Bool
unfolding digits_then_end is_empty
hash_behind zero s = index_behind s
hash_behind (suc n) [] = false
hash_behind (suc n) (c ∷ s) = is_hex c && hash_behind n s

-- `_TORRENT_STREAM_PATH`
unfoldable pub is_stream_path : Text → Bool
unfolding hash_behind
is_stream_path [] = false
is_stream_path (c ∷ s) = nat_eq c b'/' && hash_behind 40 s

abbrev pub is_byte_space : ℕ → Bool
is_byte_space c = nat_eq c 32 || (leb 9 c && leb c 13)

abbrev pub is_mark_byte : ℕ → Bool
is_mark_byte c = nat_eq c 239 || (nat_eq c 187 || nat_eq c 191)

-- `lstrip` of a class of bytes
unfoldable pub lstrip_of : (ℕ → Bool) → Text → Text
lstrip_of p [] = []
lstrip_of p (c ∷ s) = let rest = lstrip_of p s in if p c then rest else c ∷ s

-- `looks_like_manifest`
unfoldable pub looks_like_manifest : Text → Bool
unfolding lstrip_of starts_with lower
looks_like_manifest head =
    let h = lstrip_of is_byte_space (lstrip_of is_mark_byte head) in
    starts_with h (codes "#EXTM3U")
    || (starts_with h (codes "<MPD")
        || (starts_with h (codes "ffconcat") || starts_with (lower h) (codes "<?xml")))

unfoldable pub take_first : ℕ → Text → Text
take_first zero s = []
take_first (suc n) [] = []
take_first (suc n) (c ∷ s) = c ∷ take_first n s

unfoldable pub drop_codes : ℕ → Text → Text
drop_codes zero s = s
drop_codes (suc n) [] = []
drop_codes (suc n) (c ∷ s) = drop_codes n s

-- What a request is answered: the URL itself, the ticket of a reader URL, or a status; `crashed` is an
-- exception that nobody catches.
pub data MediaInput : Type 0 where
  direct : Text → MediaInput
  reading : Text → MediaInput
  answered : ℕ → MediaInput
  crashed : MediaInput

module _ (x : Outside) where
  -- `_is_own_host`
  abbrev pub is_own_host : Text → Bool
  is_own_host host = x.is_loopback host || host == x.server_host

  abbrev pub is_own_parts : Option Url → Bool
  is_own_parts none = false
  is_own_parts (some u) =
      not (is_empty u.hostname) && (is_own_host (lower u.hostname) && is_stream_path u.path)

  -- `is_own_media_url`
  unfoldable pub is_own_media_url : Text → Bool
  unfolding is_empty lower is_stream_path
  is_own_media_url media_url = is_own_parts (x.urlsplit media_url)

  abbrev pub manifest_status : Text → Option ℕ
  manifest_status head = if looks_like_manifest head then some 415 else none

  abbrev pub head_status : Sniffed → Option ℕ
  head_status unread = some 504
  head_status uninspected = manifest_status []
  head_status (inspected head) = manifest_status head

  abbrev pub sniff : Text → ℤ → Sniffed
  sniff path idx =
      torrent_head x.first_piece_timeout x.engine (lower (take_first 40 (drop_codes 1 path))) idx

  abbrev pub own_status : Text → Option ℤ → Option ℕ
  own_status path none = none
  own_status path (some idx) = head_status (sniff path idx)

  -- `_refuse_own_manifest`, none where it lets the URL pass
  unfoldable pub refuse_own_manifest : Option Url → Option ℕ
  unfolding looks_like_manifest take_first drop_codes int_of lower torrent_head
  refuse_own_manifest none = none
  refuse_own_manifest (some u) = own_status u.path (int_of (drop_codes 42 u.path))

  abbrev pub default_port : Text → Option ℕ → ℕ
  default_port scheme (some (suc p)) = suc p
  default_port scheme port = if scheme == codes "https" then 443 else 80

  abbrev pub ticketed : Text → Ticket → Tickets → Choice → MediaInput × Tickets
  ticketed id t tickets (chosen_address a) = (reading id, register ticket_cap id t tickets)
  ticketed id t tickets refused = (answered 403, tickets)
  ticketed id t tickets unresolved = (answered 502, tickets)

  -- the destination is judged, and a ticket registered for it
  abbrev pub ticket_for : Text → Text → List Header → Tickets → Option Url → MediaInput × Tickets
  ticket_for id url headers tickets none = (crashed, tickets)
  ticket_for id url headers tickets (some u) = elim u.port_read [
    | none ↦ (crashed, tickets)
    | some port ↦
        ticketed id (record { url = url; for_home = x.is_home; headers = headers }) tickets
          (x.pick_address u.hostname (default_port u.scheme port) x.is_home)
  ]

  abbrev pub inner_url : ProxyOpts → Text → Text → Text
  inner_url o inner_path query = o.dest ++ (inner_path ++ query_tail query)

  abbrev pub proxied : Text → Text → Tickets → Option (ProxyOpts × Text) → MediaInput × Tickets
  proxied id query tickets none = (answered 403, tickets)
  proxied id query tickets (some (o, inner_path)) =
      ticket_for id (inner_url o inner_path query) o.req_headers tickets
        (x.urlsplit (inner_url o inner_path query))

  -- `_resolve_own_proxy_url`
  unfoldable pub resolve_own_proxy_url : Text → Url → Tickets → MediaInput × Tickets
  unfolding register drop_codes
  resolve_own_proxy_url id u tickets = proxied id u.query tickets (x.parse (drop_codes 7 u.path))

  abbrev pub is_fetchable : Url → Bool
  is_fetchable u =
      (u.scheme == codes "http" || u.scheme == codes "https") && not (is_empty u.hostname)

  abbrev pub resolve_parts : Text → Text → Tickets → Option Url → MediaInput × Tickets
  resolve_parts id media_url tickets none = (answered 403, tickets)
  resolve_parts id media_url tickets (some u) =
      if not (is_empty u.hostname)
        && (is_own_host (lower u.hostname) && starts_with u.path (codes "/proxy/"))
      then resolve_own_proxy_url id u tickets
      else if is_fetchable u
      then ticket_for id media_url [] tickets (some u)
      else (answered 403, tickets)

  abbrev pub own_or_refused : Text → Tickets → Option ℕ → MediaInput × Tickets
  own_or_refused media_url tickets none = (direct media_url, tickets)
  own_or_refused media_url tickets (some status) = (answered status, tickets)

  -- `resolve_media_input`, with the id that a ticket would get
  unfoldable pub resolve_media_input : Text → Text → Tickets → MediaInput × Tickets
  unfolding is_own_media_url refuse_own_manifest resolve_own_proxy_url starts_with is_empty lower
  resolve_media_input id media_url tickets =
      if is_own_media_url media_url
      then own_or_refused media_url tickets (refuse_own_manifest (x.urlsplit media_url))
      else resolve_parts id media_url tickets (x.urlsplit media_url)
