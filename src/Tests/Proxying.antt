-- ===== src/Tests/Proxying.antt =====
-- A small playlist, a header option, and a name with two addresses.
use stremio_libtorrent_serve.Prelude.{
  ◌≡◌, ◌↔◌, refl, true, false, some, All, collect, ◌==◌, if◌then◌else◌, none, Option, List, [], ◌∷◌,
  ◌++◌, length, contains,
}
use stremio_libtorrent_serve.Prelude.Text.{
  Text, Text_eq, text_eq, codes, is_empty, strip, before, after,
}
use stremio_libtorrent_serve.Prelude.Dict.{Dict, get}
use stremio_libtorrent_serve.Proxy.Playlist.{lines_of, done, passes_limit, rewrite_lines}
use stremio_libtorrent_serve.Proxy.Playlist.Whole.{rewritten}
use stremio_libtorrent_serve.Proxy.Playlist.Whole.Mapped.{
  AreLinesOf, IsRewriting, rewrite_lines-done,
}
use stremio_libtorrent_serve.Proxy.Dest.{Address, Ip, pick}
use stremio_libtorrent_serve.Proxy.Dest.Picked.{IsPicked, pick-IsPicked}
use stremio_libtorrent_serve.Proxy.Opts.{ProxyOpts, UrlParts, parse_opts}
use stremio_libtorrent_serve.Proxy.Opts.Headers.{IsSendable, parse_opts-IsSendable}

abbrev behind_proxy : Text → Option Text
behind_proxy url = some (codes "/proxy" ++ url)

abbrev playlist : Text
playlist = codes "#EXTM3U\n#EXT-X-KEY:URI=\"/k\"\r\n/seg.ts\n"

abbrev mapped : Text
mapped = codes "#EXTM3U\n#EXT-X-KEY:URI=\"/proxy/k\"\r\n/proxy/seg.ts\n"

rewrite_lines-done_example :
    ((rewrite_lines behind_proxy (some 60) playlist ≡ done mapped) ↔ (
      (rewritten behind_proxy playlist ≡ some mapped)
      × (passes_limit (some 60) (length mapped) ≡ false)))
    × AreLinesOf (lines_of playlist) playlist
    × IsRewriting behind_proxy (lines_of playlist) (rewritten behind_proxy playlist)
rewrite_lines-done_example = rewrite_lines-done behind_proxy (some 60) playlist mapped

-- what `parse_qs` and `urlsplit` answer for the options of this request
abbrev query_of : Text → Dict Text (List Text)
query_of segment =
    (codes "d", codes "https://cdn.example" ∷ [])
    ∷ (codes "h", codes "Range: bytes=0-" ∷ codes "no header" ∷ [])
    ∷ []

abbrev cdn : Text → Option UrlParts
cdn url = some (record {
  scheme = codes "https";
  netloc = codes "cdn.example";
  has_host = true;
  port = none;
  url_path = [];
  query = [];
})

abbrev read_opts : ProxyOpts
read_opts = record {
  dest = codes "https://cdn.example";
  req_headers = (codes "Range", codes "bytes=0-") ∷ [];
  res_headers = [];
}

opts_read : parse_opts query_of cdn (codes "d=x/seg.ts") ≡ some (read_opts, codes "/seg.ts")
unfolding parse_opts text_eq collect after get contains is_empty strip before
opts_read = refl

parse_opts-IsSendable_example :
    All IsSendable read_opts.req_headers × All IsSendable read_opts.res_headers
parse_opts-IsSendable_example =
    parse_opts-IsSendable query_of cdn (codes "d=x/seg.ts") read_opts (codes "/seg.ts") opts_read

-- a private and a global address
abbrev home_address : Address
home_address = record {
  is_link_local = false;
  is_global = false;
  is_multicast = false;
  is_in = λ net. false;
}

abbrev far_address : Address
far_address = record {
  is_link_local = false;
  is_global = true;
  is_multicast = false;
  is_in = λ net. false;
}

abbrev addresses : Text → Option Ip
addresses a =
    if a == codes "10.0.0.5"
    then some (record { own = home_address; ipv4_mapped = none })
    else some (record { own = home_address; ipv4_mapped = some far_address })

pick-IsPicked_example :
    IsPicked addresses
      (some (codes "10.0.0.5" ∷ codes "::ffff:9.9.9.9" ∷ []))
      false
      (pick addresses (some (codes "10.0.0.5" ∷ codes "::ffff:9.9.9.9" ∷ [])) false)
pick-IsPicked_example =
    pick-IsPicked addresses (some (codes "10.0.0.5" ∷ codes "::ffff:9.9.9.9" ∷ [])) false
