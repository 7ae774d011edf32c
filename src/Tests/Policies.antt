-- ===== src/Tests/Policies.antt =====
-- Seeding that stops after ten minutes, and the marks of a read-ahead buffer.
use stremio_libtorrent_serve.Prelude.{ℕ, ◌≡◌, refl, true, false, none, List, [], ◌∷◌, ℕ_eq}
use stremio_libtorrent_serve.Torrent.Policy.{SeedPolicy, Seeding}
use stremio_libtorrent_serve.Torrent.Policy.Laws.{passes, any_due, passes_stop}

abbrev policy : SeedPolicy
policy = record { seed_on_complete = true; max_seed_minutes = 10 }

abbrev seeding : Seeding
seeding = record {
  has_metadata = true;
  finished = true;
  pinned = false;
  completed_at = none;
  paused = false;
}

abbrev later : List ℕ
later = 400 ∷ 700 ∷ []

passes_stop_example :
    (passes policy (100 ∷ later) seeding).paused ≡ any_due policy 100 (100 ∷ later)
passes_stop_example = passes_stop policy 100 later seeding refl refl refl refl refl
