-- ===== src/Proxy/Opts.antt =====
-- proxy/opts.py, and the rewriting of a URL in proxy/playlist.py: the options of a proxied URL. What
-- urllib does is an argument: `quote` of a value, `urlsplit` of a URL, none where it raises, and `parse_qs`. White space
-- is the ASCII one.
pub mod Headers
use stremio_libtorrent_serve.Prelude.{
  ℕ, ◌+◌, Bool, true, false, not, ◌&&◌, ◌||◌, Option, none, some, List, [], ◌∷◌, ◌++◌, map, leb,
  nat_eq, if◌then◌else◌, ◌==◌, contains, collect, ℕ_eq,
}
use stremio_libtorrent_serve.Prelude.Text.{
  Text, Text_eq, codes, is_empty, is_digit, lower, strip, strip_prefix, starts_with, before, after,
}
use stremio_libtorrent_serve.Prelude.Dict.{Dict, get}
use stremio_libtorrent_serve.Proxy.Playlist.{Rewritten, rewrite_lines}

abbrev pub Header : Type 0
Header = Text × Text

pub record ProxyOpts : Type 0 where
  pub dest : Text
  pub req_headers : List Header
  pub res_headers : List Header

-- `_TOKEN`
abbrev pub token_marks : Text
token_marks = codes "!#$%&'*+.^_`|~-"

unfoldable pub is_token_code : ℕ → Bool
is_token_code c =
    is_digit c
    || ((leb b'A' c && leb c b'Z') || ((leb b'a' c && leb c b'z') || contains token_marks c))

unfoldable pub all_of : (ℕ → Bool) → Text → Bool
all_of p [] = true
all_of p (c ∷ s) = p c && all_of p s

-- `_TOKEN.fullmatch`
unfoldable pub is_token : Text → Bool
unfolding all_of is_token_code
is_token s = not (is_empty s) && all_of is_token_code s

-- `_LINE_BREAKERS`
abbrev pub is_breaker : ℕ → Bool
is_breaker c = nat_eq c 13 || (nat_eq c 10 || nat_eq c 0)

unfoldable pub split_header : Text → Option Header
unfolding is_token all_of
split_header spec =
    let name = strip (before b':' spec) in
    let value = strip (after b':' spec) in
    if not (contains spec b':')
      || (not (is_token name) || not (all_of (λ c. not (is_breaker c)) spec))
    then none
    else if all_of (λ c. leb c 255) value
    then some (name, value)
    else none

-- `urlsplit` of a URL, with its port where it names one.
pub record UrlParts : Type 0 where
  pub scheme : Text
  pub netloc : Text
  pub has_host : Bool
  pub port : Option ℕ
  pub url_path : Text
  pub query : Text

abbrev pub is_zero_port : Option ℕ → Bool
is_zero_port none = false
is_zero_port (some p) = nat_eq p 0

abbrev pub origin_of : UrlParts → Text
origin_of u = u.scheme ++ (codes "://" ++ u.netloc)

-- `_origin`
unfoldable pub usable_origin : Option UrlParts → Option Text
usable_origin none = none
usable_origin (some u) =
    if not (u.scheme == codes "http" || u.scheme == codes "https")
      || (not u.has_host || is_zero_port u.port)
    then none
    else some (origin_of u)

module _ (quote : Text → Text) where
  abbrev pub header_part : Text → Header → Text
  header_part key (name, value) = key ++ quote (name ++ (codes ":" ++ value))

  unfoldable pub more_parts : List Text → Text
  more_parts [] = []
  more_parts (part ∷ parts) = codes "&" ++ (part ++ more_parts parts)

  unfoldable pub serialize : ProxyOpts → Text
  unfolding more_parts
  serialize o =
      (codes "d=" ++ quote o.dest)
      ++ more_parts (
          map (header_part (codes "h=")) o.req_headers
          ++ map (header_part (codes "r=")) o.res_headers)

unfoldable pub lstrip_slash : Text → Text
lstrip_slash [] = []
lstrip_slash (c ∷ s) = let rest = lstrip_slash s in if nat_eq c b'/' then rest else c ∷ s

abbrev pub cons_kept : ℕ → Text → Text
cons_kept c [] = if nat_eq c b'/' then [] else c ∷ []
cons_kept c (d ∷ s) = c ∷ d ∷ s

unfoldable pub rstrip_slash : Text → Text
rstrip_slash [] = []
rstrip_slash (c ∷ s) = cons_kept c (rstrip_slash s)

-- `_join`
unfoldable pub join : Text → Text → Text
unfolding rstrip_slash lstrip_slash
join root path = rstrip_slash root ++ (codes "/" ++ lstrip_slash path)

abbrev pub proxy_root : Text
proxy_root = codes "/proxy/"

abbrev pub query_tail : Text → Text
query_tail q = if is_empty q then [] else codes "?" ++ q

module _ (quote : Text → Text) (urlsplit : Text → Option UrlParts) where
  abbrev pub rewrite_parts : Text → ProxyOpts → Option UrlParts → Option Text
  rewrite_parts root o none = none
  rewrite_parts root o (some u) =
      let tail = u.url_path ++ query_tail u.query in
      if lower (origin_of u) == lower o.dest
      then some (join root tail)
      else some (
          join
            (proxy_root
              ++ serialize quote
                  (record { dest = origin_of u; req_headers = o.req_headers; res_headers = [] }))
            tail)

  -- `_rewrite_url`, none where it raises
  unfoldable pub rewrite_url : Text → ProxyOpts → Text → Option Text
  unfolding serialize join
  rewrite_url root o url =
      if starts_with url (codes "http://") || starts_with url (codes "https://")
      then rewrite_parts root o (urlsplit url)
      else if starts_with url (codes "/")
      then some (join root url)
      else some url

  -- playlist.py, `rewrite`
  unfoldable pub rewrite : Option ℕ → ProxyOpts → Text → Rewritten
  unfolding rewrite_lines rewrite_url serialize
  rewrite limit o body =
      let root = proxy_root ++ serialize quote o in rewrite_lines (rewrite_url root o) limit body

-- `q.get(key, [])`
abbrev pub values_of : Option (List Text) → List Text
values_of none = []
values_of (some values) = values

abbrev pub first_or_empty : List Text → Text
first_or_empty [] = []
first_or_empty (value ∷ values) = value

module _ (parse_qs : Text → Dict Text (List Text)) (urlsplit : Text → Option UrlParts) where
  -- `parse`
  unfoldable pub parse_opts : Text → Option (ProxyOpts × Text)
  unfolding usable_origin split_header
  parse_opts raw =
      let q = parse_qs (before b'/' raw) in
      elim (usable_origin (urlsplit (first_or_empty (values_of (get (codes "d") q))))) [
        | none ↦ none
        | some dest ↦ some (
          record {
            dest = dest;
            req_headers = collect split_header (values_of (get (codes "h") q));
            res_headers = collect split_header (values_of (get (codes "r") q));
          },
          codes "/" ++ after b'/' raw,
        )
      ]
