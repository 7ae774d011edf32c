-- ===== src/Stats/Unmatched.antt =====
-- unmatched.py: the tally of requests that no route answered, under the shape of their path. Letters and
-- digits are the ASCII ones.
pub mod Shapes
pub mod Tally
use stremio_libtorrent_serve.Prelude.{
  ℕ, ◌+◌, ◌-◌, Bool, true, false, not, ◌&&◌, ◌||◌, Option, none, some, List, [], ◌∷◌, ◌++◌, map,
  leb, nat_eq, if◌then◌else◌, length, contains, ◌==◌,
}
use stremio_libtorrent_serve.Prelude.Numerals.{all_codes, is_decimal}
use stremio_libtorrent_serve.Prelude.Text.{Text, Text_eq, codes, is_empty, is_digit, before}
use stremio_libtorrent_serve.Prelude.Dict.{Dict, get, put}
use stremio_libtorrent_serve.Prelude.Dict.Unique.{has}

abbrev pub max_shapes : ℕ
max_shapes = 64

abbrev pub methods : List Text
methods =
    codes "DELETE"
    ∷ codes "GET"
    ∷ codes "HEAD"
    ∷ codes "OPTIONS"
    ∷ codes "PATCH"
    ∷ codes "POST"
    ∷ codes "PUT"
    ∷ []

-- `KNOWN_FIRST_SEGMENTS`
unfoldable pub known_first_segments : List Text
known_first_segments =
    codes "7zip"
    ∷ codes "casting"
    ∷ codes "convert"
    ∷ codes "create"
    ∷ codes "device-info"
    ∷ codes "favicon.ico"
    ∷ codes "ftp"
    ∷ codes "get-https"
    ∷ codes "heartbeat"
    ∷ codes "hlsv2"
    ∷ codes "hwaccel-profiler"
    ∷ codes "local-addon"
    ∷ codes "manifest.json"
    ∷ codes "network-info"
    ∷ codes "nzb"
    ∷ codes "opensubHash"
    ∷ codes "probe"
    ∷ codes "proxy"
    ∷ codes "rar"
    ∷ codes "removeAll"
    ∷ codes "settings"
    ∷ codes "stats.json"
    ∷ codes "status"
    ∷ codes "stream"
    ∷ codes "subtitleSignature"
    ∷ codes "subtitles.srt"
    ∷ codes "subtitles.vtt"
    ∷ codes "subtitlesTracks"
    ∷ codes "tar"
    ∷ codes "tgz"
    ∷ codes "thumb.jpg"
    ∷ codes "tracks"
    ∷ codes "transcode"
    ∷ codes "yt"
    ∷ codes "zip"
    ∷ codes "embedded-ass"
    ∷ codes "_embedded-ass-read"
    ∷ codes "_hls-media-read"
    ∷ codes "_unmatched"
    ∷ codes "active.json"
    ∷ codes "cache"
    ∷ codes "cache.json"
    ∷ codes "health"
    ∷ codes "library"
    ∷ codes "netcheck.json"
    ∷ codes "pins.json"
    ∷ codes "transcode.json"
    ∷ []

abbrev pub upper_code : ℕ → ℕ
upper_code c = if leb b'a' c && leb c b'z' then c - 32 else c

-- `s.upper()`
unfoldable pub upper : Text → Text
upper s = map upper_code s

abbrev pub is_hex : ℕ → Bool
is_hex c = is_digit c || ((leb b'a' c && leb c b'f') || (leb b'A' c && leb c b'F'))

-- `_IH.fullmatch`
unfoldable pub is_info_hash : Text → Bool
unfolding all_codes
is_info_hash s = nat_eq (length s) 40 && all_codes is_hex s

abbrev pub cons_segment : Text → List Text → List Text
cons_segment [] segs = segs
cons_segment (c ∷ seg) segs = (c ∷ seg) ∷ segs

-- `[s for s in path.split("/") if s]`, with the segment read so far
unfoldable pub segments : Text → Text → List Text
segments seg [] = cons_segment seg []
segments seg (c ∷ path) =
    let next = cons_segment seg (segments [] path) in
    let more = segments (seg ++ c ∷ []) path in if nat_eq c b'/' then next else more

abbrev pub verb_of : Text → Text
verb_of method = if contains methods (upper method) then upper method else codes "OTHER"

abbrev pub more_of : List Text → Text
more_of [] = []
more_of (s ∷ segs) = codes "/*"

abbrev pub second_of : Text → Text
second_of second =
    if is_decimal second
    then codes "{idx}"
    else if second == codes "-1"
    then codes "-1"
    else codes "{name}"

-- what follows an info hash
abbrev pub behind_hash : List Text → Text
behind_hash [] = []
behind_hash (second ∷ segs) = codes "/" ++ (second_of second ++ more_of segs)

abbrev pub known_or_x : Text → Text
known_or_x s = if contains known_first_segments s then s else codes "{x}"

abbrev pub place : List Text → Text
place [] = codes "/"
place (s ∷ segs) =
    if is_info_hash s
    then codes "/{ih}" ++ behind_hash segs
    else codes "/" ++ (known_or_x s ++ more_of segs)

unfoldable pub shape : Text → Text → Text
unfolding upper known_first_segments is_info_hash is_decimal segments
shape method path = verb_of method ++ codes " " ++ place (segments [] (before b'?' path))

abbrev pub other_key : Text
other_key = codes "other"

abbrev pub count_of : Option ℕ → ℕ
count_of none = 0
count_of (some n) = n

-- the key that a request counts under
unfoldable pub key_of : Dict Text ℕ → Text → Text
key_of counts key =
    if not (has key counts) && leb max_shapes (length counts) then other_key else key

-- `record`: the counts after, and the key that is announced because it is new
unfoldable pub record_miss : Text → Text → Dict Text ℕ → Dict Text ℕ × Option Text
unfolding key_of shape
record_miss method path counts =
    let key = key_of counts (shape method path) in
    (put key (count_of (get key counts) + 1) counts, if has key counts then none else some key)

-- An answer that the app sends: what the wrapper reads of the scope.
pub record Answer : Type 0 where
  pub status : ℕ
  pub has_endpoint : Bool
  pub route_methods : List Text
  pub method : Text
  pub path : Text

-- the test of `CountUnmatched`
unfoldable pub is_miss : Answer → Bool
is_miss a =
    (nat_eq a.status 404 && not a.has_endpoint)
    || (nat_eq a.status 405 && not (contains a.route_methods a.method))

unfoldable pub watch : Answer → Dict Text ℕ → Dict Text ℕ
unfolding record_miss is_miss
watch a counts = if is_miss a then (record_miss a.method a.path counts).0 else counts

abbrev pub header_or : Option Text → Text → Text
header_or none t = t
header_or (some h) t = if is_empty h then t else h

-- `/_unmatched`: nginx's own request names the one that it could not place
unfoldable pub unmatched :
    Bool → Text → Text → Option Text → Option Text → Dict Text ℕ → Dict Text ℕ
unfolding record_miss
unmatched from_loopback method path original_method original_uri counts =
    if from_loopback
    then (record_miss (header_or original_method method) (header_or original_uri path) counts).0
    else (record_miss method path counts).0
