-- ===== src/Tests/Counting.antt =====
-- A handful of events, and of requests that no route answered.
use stremio_libtorrent_serve.Prelude.{List, [], ◌∷◌, length}
use stremio_libtorrent_serve.Prelude.Text.{Text, codes}
use stremio_libtorrent_serve.Stats.Unmatched.Tally.{count_all, IsTallied, count_all-IsTallied}

abbrev misses : List (Text × Text)
misses =
    (codes "get", codes "/proxy/d=https/a.m3u8")
    ∷ (codes "GET", codes "/0123456789abcdef0123456789abcdef01234567/3?tr=x")
    ∷ (codes "BREW", codes "/secret/tea")
    ∷ (codes "get", codes "/proxy/other")
    ∷ []

count_all-IsTallied_example : IsTallied (length misses) (count_all misses [])
count_all-IsTallied_example = count_all-IsTallied misses
