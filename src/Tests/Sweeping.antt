-- ===== src/Tests/Sweeping.antt =====
-- A `.resume` directory with a claimed record, an old orphan and a failed write.
use stremio_libtorrent_serve.Prelude.{◌≡◌, some, none, [], ◌∷◌, All}
use stremio_libtorrent_serve.Prelude.Text.{codes}
use stremio_libtorrent_serve.Cache.Resume.{Shelf, claimed_hashes, sweep_resume}
use stremio_libtorrent_serve.Cache.Resume.Sweep.{IsStale, sweep_resume-IsStale, sweep_resume-again}

abbrev shelf : Shelf
shelf = record {
  root = some (codes "film" ∷ []);
  files = some (
      record { name = codes "ab12.fastresume"; mtime = some 5 }
      ∷ record { name = codes "cd34.fastresume"; mtime = some 5 }
      ∷ record { name = codes "cd34.fastresume.tmp"; mtime = some 900000 }
      ∷ record { name = codes "index.json"; mtime = none }
      ∷ []);
  index = (codes "film", codes "AB12") ∷ (codes "old", codes "cd34") ∷ [];
  pinned = [];
  wanted = [];
}

sweep_resume-IsStale_example :
    All (IsStale 7 1000000 shelf) (sweep_resume 7 1000000 shelf).0.deleted
sweep_resume-IsStale_example = sweep_resume-IsStale 7 1000000 shelf

sweep_resume-again_example :
    (claimed_hashes (sweep_resume 7 1000000 shelf).1 ≡ claimed_hashes shelf)
    × ((sweep_resume 7 1000000 (sweep_resume 7 1000000 shelf).1).0.deleted ≡ [])
sweep_resume-again_example = sweep_resume-again 7 1000000 shelf
