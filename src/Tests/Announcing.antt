-- ===== src/Tests/Announcing.antt =====
-- A torrent with trackers of its own, and a list that is fetched twice.
use stremio_libtorrent_serve.Prelude.{◌≡◌, refl, Bool, true, Option, some, none, List, [], ◌∷◌}
use stremio_libtorrent_serve.Prelude.Text.{Text, Text_eq, codes}
use stremio_libtorrent_serve.Torrent.Trackers.{start_source}
use stremio_libtorrent_serve.Torrent.Trackers.Reboot.Saved.{run, run-restart}

abbrev own : List Text
own = codes "udp://own.example:80" ∷ [] ∷ []

abbrev fetches : List (Option Text × Bool)
fetches =
    (some (codes "udp://a.example:1\nhttp://b.example/announce, junk"), true)
    ∷ (none, true)
    ∷ (some (codes "wss://c.example"), true)
    ∷ []

run-restart_example :
    (start_source true (run fetches (start_source true none)).file).trackers
    ≡ (run fetches (start_source true none)).trackers
run-restart_example = run-restart none fetches (refl, (refl, (refl, (tt))))
