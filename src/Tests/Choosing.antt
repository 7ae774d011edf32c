-- ===== src/Tests/Choosing.antt =====
-- A torrent of a sample, an episode and a text.
use stremio_libtorrent_serve.Prelude.{ℕ, refl, Bool, some, none, List, [], ◌∷◌}
use stremio_libtorrent_serve.Prelude.Text.{Text, codes, starts_with}
use stremio_libtorrent_serve.Torrent.Wanted.{Want, select_wanted_file}
use stremio_libtorrent_serve.Torrent.Wanted.Largest.{IsWantedFile, select_wanted_file-IsChosen}

abbrev files : List (Text × ℕ)
files =
    (codes "s01e01-sample.mkv", 10) ∷ (codes "s01e01.mkv", 900) ∷ (codes "readme.txt", 1000) ∷ []

abbrev first_episode : Text → Bool
first_episode path = starts_with path (codes "s01e01")

abbrev request : Want
request = record { file_idx = none; is_episode = some first_episode }

select_wanted_file-IsChosen_example :
    IsWantedFile files first_episode (select_wanted_file files (some request))
select_wanted_file-IsChosen_example =
    select_wanted_file-IsChosen files first_episode request refl refl
