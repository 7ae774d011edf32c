-- ===== src/Tests/Holding.antt =====
-- A server that starts with one pin and one download of an older version, and is asked for more.
use stremio_libtorrent_serve.Prelude.{
  ℕ, ◌≡◌, ◌≢◌, refl, true, false, Option, some, none, List, [], ◌∷◌, ℕ_eq, keep, contains, collect,
  add_to,
}
use stremio_libtorrent_serve.Prelude.Text.{Text_eq, text_eq, codes, is_empty, lower}
use stremio_libtorrent_serve.Prelude.Dict.{get, put}
use stremio_libtorrent_serve.Torrent.Handle.{Torrent, Info, want_file}
use stremio_libtorrent_serve.Torrent.Wanted.{Want}
use stremio_libtorrent_serve.Torrent.Engine.{
  Surroundings, PinRecord, Engine, raised, kept, add, load_entries, is_pinned,
}
use stremio_libtorrent_serve.Torrent.Engine.Wants.{want}
use stremio_libtorrent_serve.Torrent.Engine.Pins.{pin, unpin}
use stremio_libtorrent_serve.Torrent.Engine.Startup.{load_pins_into_session}
use stremio_libtorrent_serve.Torrent.Engine.Agreed.{Agrees}
use stremio_libtorrent_serve.Torrent.Engine.Pinned.Steps.{
  Reach, here, next, adding, wanting, pinning, unpinning,
}
use stremio_libtorrent_serve.Torrent.Engine.Restart.{boot}
use stremio_libtorrent_serve.Torrent.Engine.Restart.Kept.{run-Agrees, restart-is_pinned}

abbrev two_files : Info
two_files = record {
  num_files = 2;
  piece_length = 16;
  num_pieces = 4;
  file_size = λ i. 32;
  file_offset = λ i. 0;
}

abbrev swarm : Torrent
swarm = record { info = some two_files; have_piece = λ p. false; refuses = λ c. false }

abbrev box : Surroundings
box = record {
  side = λ ih. swarm;
  files = λ ih. (codes "a.mkv", 32) ∷ (codes "b.mkv", 32) ∷ [];
  status =
      λ ih. record { total_wanted = 32; total_wanted_done = 0; total_done = 0; full_size = 64 };
  disk_free = 500;
  cache_used = 0;
  cache_size = 100;
  with_slack = λ size. 110;
}

-- a selector is the index of a file
abbrev index_of : ℕ → Option Want
index_of i = some (record { file_idx = some i; is_episode = none })

abbrev old_records : Option (List (PinRecord ℕ))
old_records = some (
    record { info_hash = codes "AA"; want = none; name = codes "film"; added_at = 1 }
    ∷ record { info_hash = codes "bb"; want = some 1; name = codes "pack"; added_at = 2 }
    ∷ [])

abbrev begun : Engine ℕ
begun = load_pins_into_session index_of box true (boot old_records none)

abbrev asked : Engine ℕ
asked = want index_of box true (codes "Cc") 0 (add (codes "cc") begun)

kept_pin :
    (pin box true (codes "CC") (codes "show") 3 asked).0
    ≡ kept (record { info_hash = codes "cc"; want = none; name = codes "show"; added_at = 3 })
unfolding pin get want put load_pins_into_session keep is_empty lower load_entries text_eq contains
    add_to collect want_file
kept_pin = refl

kept_fine : (pin box true (codes "CC") (codes "show") 3 asked).0 ≢ raised
kept_fine e = cc (kept_pin, e)

abbrev after_pin : Engine ℕ
after_pin = (pin box true (codes "CC") (codes "show") 3 asked).1

abbrev last : Engine ℕ
last = unpin box true (codes "aa") after_pin

named : is_empty (codes "CC") ≡ false
unfolding is_empty
named = refl

run_to_last : Reach index_of begun last
run_to_last =
    next
      (next
        (next (next here (adding (codes "cc") begun))
          (wanting box true (codes "Cc") 0 (add (codes "cc") begun)))
        (pinning box true (codes "CC") (codes "show") 3 asked named kept_fine))
      (unpinning box (codes "aa") after_pin)

run-Agrees_example : Agrees last
run-Agrees_example = run-Agrees index_of box true old_records none last run_to_last

restart-is_pinned_example :
    is_pinned
      (codes "cC")
      (load_pins_into_session index_of box true (boot last.pins_file last.wanted_file))
    ≡ is_pinned (codes "cC") last
restart-is_pinned_example =
    restart-is_pinned index_of box true old_records none last run_to_last box true (codes "cC")
