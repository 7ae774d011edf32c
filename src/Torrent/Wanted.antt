-- ===== src/Torrent/Wanted.antt =====
-- pins.py: which file of a torrent a request wants (`select_wanted_file`, `guess_file_idx`). Files are
-- their paths and sizes. The test for an episode (`_episode_matcher`) is an argument, none where the
-- request names no episode; so is a request's `fileIdx`, none where it is no index at all.
pub mod Episode
pub mod Largest
pub mod Named
use stremio_libtorrent_serve.Prelude.{
  ℕ, ◌+◌, Bool, true, false, ◌&&◌, ◌||◌, Option, none, some, List, [], ◌∷◌, ◌++◌, ltb,
  if◌then◌else◌, length, get_elem?, keep, range_from,
}
use stremio_libtorrent_serve.Prelude.Text.{Text, codes, lower, ends_with}

pub record Want : Type 0 where
  pub file_idx : Option ℕ
  pub is_episode : Option (Text → Bool)

abbrev pub video_ext : List Text
video_ext =
    codes ".mkv"
    ∷ codes ".mp4"
    ∷ codes ".avi"
    ∷ codes ".m4v"
    ∷ codes ".mov"
    ∷ codes ".ts"
    ∷ codes ".webm"
    ∷ codes ".m2ts"
    ∷ []

abbrev pub media_ext : List Text
media_ext =
    video_ext
    ++ codes ".wmv"
      ∷ codes ".vp8"
      ∷ codes ".mpg"
      ∷ codes ".m3u8"
      ∷ codes ".flac"
      ∷ codes ".mp3"
      ∷ codes ".wav"
      ∷ codes ".wma"
      ∷ codes ".aac"
      ∷ codes ".ogg"
      ∷ []

-- `path.lower().endswith(exts)`
unfoldable pub has_ext : List Text → Text → Bool
has_ext [] path = false
has_ext (e ∷ exts) path = ends_with (lower path) e || has_ext exts path

-- `max(xs, key=size)` of a list that begins with `best`: the first of the largest
unfoldable pub largest : (ℕ → ℕ) → ℕ → List ℕ → ℕ
largest size best [] = best
largest size best (i ∷ rest) = largest size (if ltb (size best) (size i) then i else best) rest

-- `a or b` on lists
abbrev pub or_else : List ℕ → List ℕ → List ℕ
or_else [] ys = ys
or_else (x ∷ xs) ys = x ∷ xs

abbrev pub largest_of : (ℕ → ℕ) → List ℕ → Option ℕ
largest_of size [] = none
largest_of size (i ∷ rest) = some (largest size i rest)

-- the loop of `guess_file_idx`; `none` is -1
unfoldable pub guess_loop : (ℕ → ℕ) → Option ℕ → List ℕ → Option ℕ
guess_loop size best [] = best
guess_loop size none (i ∷ rest) = guess_loop size (some i) rest
guess_loop size (some b) (i ∷ rest) =
    guess_loop size (some (if ltb (size b) (size i) then i else b)) rest

module _ (files : List (Text × ℕ)) where
  unfoldable pub path_of : ℕ → Text
  path_of i = elim (get_elem? files i) [ none ↦ [] | some f ↦ f.0 ]

  unfoldable pub size_of : ℕ → ℕ
  size_of i = elim (get_elem? files i) [ none ↦ 0 | some f ↦ f.1 ]

  abbrev pub indices : List ℕ
  indices = range_from 0 (length files)

  -- the files whose names read as the episode, videos before anything else
  unfoldable pub episode_files : (Text → Bool) → List ℕ
  unfolding has_ext path_of
  episode_files is_episode =
      let hits = keep (λ i. is_episode (path_of i)) indices in
      or_else (keep (λ i. has_ext video_ext (path_of i)) hits) hits

  abbrev pub selected_episode : Option (Text → Bool) → Option ℕ
  selected_episode none = none
  selected_episode (some is_episode) = largest_of size_of (episode_files is_episode)

  abbrev pub selected : Option ℕ → Option (Text → Bool) → Option ℕ
  selected none is_episode = selected_episode is_episode
  selected (some idx) is_episode =
      if ltb idx (length files) then some idx else selected_episode is_episode

  unfoldable pub select_wanted_file : Option Want → Option ℕ
  unfolding episode_files size_of largest
  select_wanted_file none = none
  select_wanted_file (some want) = selected want.file_idx want.is_episode

  abbrev pub of_episode : Option (Text → Bool) → List ℕ → List ℕ
  of_episode none media = media
  of_episode (some is_episode) media = or_else (keep (λ i. is_episode (path_of i)) media) media

  -- the files that a guess chooses from
  unfoldable pub media_files : Option (Text → Bool) → List ℕ
  unfolding has_ext path_of
  media_files is_episode = of_episode is_episode (keep (λ i. has_ext media_ext (path_of i)) indices)

  unfoldable pub guess_file_idx : Option (Text → Bool) → Option ℕ
  unfolding guess_loop media_files size_of
  guess_file_idx is_episode = guess_loop size_of none (media_files is_episode)
