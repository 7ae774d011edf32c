-- ===== src/Torrent/Trackers.antt =====
-- torrent/trackers.py and torrent/tracker_source.py: which trackers a torrent announces to, and the list
-- that is fetched in the background. White space is the ASCII one. A split on runs of separators is one
-- on each of them: the empty words between are no tracker's address.
pub mod Lists
pub mod Reboot
use stremio_libtorrent_serve.Prelude.{
  ℕ, Bool, true, false, not, ◌&&◌, ◌||◌, Option, none, some, List, [], ◌∷◌, ◌++◌, nat_eq,
  if◌then◌else◌, contains, ◌==◌,
}
use stremio_libtorrent_serve.Prelude.Text.{
  Text, Text_eq, codes, is_empty, is_space, starts_with, strip_prefix, strip,
}

-- `DEFAULT_TRACKERS`
unfoldable pub default_trackers : List Text
default_trackers =
    codes "udp://tracker.opentrackr.org:1337/announce"
    ∷ codes "udp://open.tracker.cl:1337/announce"
    ∷ codes "udp://tracker.openbittorrent.com:6969/announce"
    ∷ codes "udp://exodus.desync.com:6969/announce"
    ∷ codes "udp://tracker.torrent.eu.org:451/announce"
    ∷ codes "udp://open.demonii.com:1337/announce"
    ∷ codes "udp://open.stealth.si:80/announce"
    ∷ codes "udp://tracker.dler.org:6969/announce"
    ∷ codes "udp://tracker2.dler.org:80/announce"
    ∷ codes "udp://tracker.0x7c0.com:6969/announce"
    ∷ codes "udp://tracker-udp.gbitt.info:80/announce"
    ∷ codes "udp://explodie.org:6969/announce"
    ∷ codes "udp://uploads.gamecoast.net:6969/announce"
    ∷ codes "udp://opentracker.io:6969/announce"
    ∷ codes "udp://tracker.tiny-vps.com:6969/announce"
    ∷ codes "udp://tracker.qu.ax:6969/announce"
    ∷ codes "udp://tracker.bittor.pw:1337/announce"
    ∷ codes "udp://tracker.auctor.tv:6969/announce"
    ∷ codes "udp://t.overflow.biz:6969/announce"
    ∷ codes "udp://open.demonoid.ch:6969/announce"
    ∷ codes "udp://leet-tracker.moe:1337/announce"
    ∷ codes "udp://bt.rer.lol:6969/announce"
    ∷ codes "udp://open.dstud.io:6969/announce"
    ∷ codes "udp://run.publictracker.xyz:6969/announce"
    ∷ codes "udp://retracker01-msk-virt.corbina.net:80/announce"
    ∷ codes "udp://tracker.therarbg.to:6969/announce"
    ∷ codes "udp://tracker1.myporn.club:9337/announce"
    ∷ codes "https://tracker.tamersunion.org:443/announce"
    ∷ codes "https://tracker.gbitt.info:443/announce"
    ∷ codes "udp://tracker.skynetcloud.site:6969/announce"
    ∷ codes "udp://tracker.ducks.party:1984/announce"
    ∷ codes "udp://tracker.nyaa.vc:6969/announce"
    ∷ codes "udp://tracker.corpscorp.online:80/announce"
    ∷ codes "udp://tracker.gmi.gd:6969/announce"
    ∷ codes "udp://tracker.farted.net:6969/announce"
    ∷ codes "http://tracker.dler.org:6969/announce"
    ∷ codes "http://tracker.dler.com:6969/announce"
    ∷ codes "http://tracker.renfei.net:8080/announce"
    ∷ codes "udp://tracker.tryhackx.org:6969/announce"
    ∷ codes "http://tracker2.dler.org:80/announce"
    ∷ codes "udp://tracker.peerfect.org:6969/announce"
    ∷ []

abbrev pub tracker_schemes : List Text
tracker_schemes =
    codes "udp://" ∷ codes "http://" ∷ codes "https://" ∷ codes "ws://" ∷ codes "wss://" ∷ []

unfoldable pub starts_with_any : List Text → Text → Bool
starts_with_any [] s = false
starts_with_any (p ∷ prefixes) s = starts_with s p || starts_with_any prefixes s

unfoldable pub is_tracker_url : Text → Bool
unfolding starts_with_any starts_with
is_tracker_url url = starts_with_any tracker_schemes url

abbrev pub is_separator : ℕ → Bool
is_separator c = is_space c || nat_eq c b','

abbrev pub cons_head : ℕ → List Text → List Text
cons_head c [] = (c ∷ []) ∷ []
cons_head c (w ∷ words) = (c ∷ w) ∷ words

-- `_SPLIT.split`
unfoldable pub split_trackers : Text → List Text
split_trackers [] = [] ∷ []
split_trackers (c ∷ s) =
    let rest = split_trackers s in if is_separator c then [] ∷ rest else cons_head c rest

-- The loops of this file: what passes a test and is not there yet is appended. `seen` is the set of
-- what is there.
abbrev pub append_new : (Text → Bool) → List Text → Text → List Text
append_new test out t = if test t && not (contains out t) then out ++ t ∷ [] else out

unfoldable pub add_new : (Text → Bool) → List Text → List Text → List Text
add_new test out [] = out
add_new test out (t ∷ ts) = add_new test (append_new test out t) ts

unfoldable pub parse_tracker_string : Option Text → List Text
unfolding add_new split_trackers is_tracker_url
parse_tracker_string none = []
parse_tracker_string (some raw) =
    if is_empty raw then [] else add_new is_tracker_url [] (split_trackers (strip raw))

-- the address in a source, a value that is no text left out
abbrev pub after_prefix : Option Text → Text → Text
after_prefix none url = url
after_prefix (some rest) url = rest

unfoldable pub source_urls : List (Option Text) → List Text
source_urls [] = []
source_urls (none ∷ sources) = source_urls sources
source_urls (some src ∷ sources) =
    after_prefix (strip_prefix (codes "tracker:") (strip src)) (strip src) ∷ source_urls sources

unfoldable pub sources_to_trackers : List (Option Text) → List Text
unfolding add_new source_urls is_tracker_url
sources_to_trackers sources = add_new is_tracker_url [] (source_urls sources)

abbrev pub is_given : Text → Bool
is_given t = not (is_empty t)

unfoldable pub merge_trackers : List Text → List Text → List Text → List Text → List Text
unfolding add_new default_trackers
merge_trackers existing extra env live =
    add_new is_given
      (add_new is_given
        (add_new is_given (add_new is_given (add_new is_given [] existing) default_trackers) env)
        live)
      extra

-- `"\n".join(trackers) + "\n"` of at least one tracker
unfoldable pub cache_text : List Text → Text
cache_text [] = []
cache_text (t ∷ ts) = t ++ 10 ∷ cache_text ts

-- A `TrackerSource` with its cache file, none where there is none.
pub record TrackerSource : Type 0 where
  pub cached : Bool
  pub trackers : List Text
  pub file : Option Text

-- `_load_cache`, for a cache file that is UTF-8; one that is not raises, which is left out
abbrev pub load_cache : Bool → Option Text → List Text
load_cache cached file = if cached then parse_tracker_string file else []

-- `__init__`
unfoldable pub start_source : Bool → Option Text → TrackerSource
unfolding parse_tracker_string
start_source cached file = record {
  cached = cached;
  trackers = load_cache cached file;
  file = file;
}

abbrev pub same_list : List Text → List Text → Bool
same_list [] [] = true
same_list (s ∷ ss) (t ∷ ts) = s == t && same_list ss ts
same_list _ _ = false

-- `_write_cache`, which may fail
abbrev pub write_cache : Bool → List Text → TrackerSource → TrackerSource
write_cache writable trackers s =
    if s.cached && writable then record s { file = some (cache_text trackers) } else s

-- what `refresh_once` makes of a list that was fetched
abbrev pub take_list : Bool → List Text → TrackerSource → Bool × TrackerSource
take_list writable parsed s =
    if is_empty parsed || same_list parsed s.trackers
    then (false, s)
    else (true, write_cache writable parsed (record s { trackers = parsed }))

-- `refresh_once`, with the body that was fetched, if any
unfoldable pub refresh_once : Option Text → Bool → TrackerSource → Bool × TrackerSource
unfolding parse_tracker_string cache_text
refresh_once none writable s = (false, s)
refresh_once (some body) writable s = take_list writable (parse_tracker_string (some body)) s
