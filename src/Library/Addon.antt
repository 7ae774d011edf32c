-- ===== src/Library/Addon.antt =====
-- library/addon_model.py: what the library offers to the app. An entry is one of the library's state, a
-- field that is absent or `None` being empty, 0 or `none`. A fraction is in ten-thousandths. A label's
-- fields have the types that `labels.py` writes, its `file` being what `file_record` makes of it; a label
-- that is empty is `none`. Letters and digits are the ASCII ones.
pub mod Ids
pub mod Choice
pub mod Learned
pub mod Rows
pub mod Streams
pub mod Cards
use stremio_libtorrent_serve.Prelude.{
  ℕ, Bool, true, false, not, ◌&&◌, ◌||◌, Option, none, some, List, [], ◌∷◌, ◌++◌, map, leb, ltb,
  nat_eq, if◌then◌else◌, ◌==◌, keep, collect, contains, ℕ_eq, is_some,
}
use stremio_libtorrent_serve.Prelude.Text.{Text, Text_eq, codes, is_empty, after, before}
use stremio_libtorrent_serve.Prelude.Members.{first}
use stremio_libtorrent_serve.Prelude.Names.{base_name, replace_code}

pub record MediaFile : Type 0 where
  -- none where it is no number
  pub index : Option ℕ
  pub name : Text
  pub size : ℕ
  pub downloaded : ℕ
  pub progress : ℕ

-- a video of the torrent's own record
pub record Video : Type 0 where
  pub index : ℕ
  pub name : Text
  pub size : ℕ

-- The file that a label was learned from.
pub record Recorded : Type 0 where
  pub name : Text
  pub size : ℕ

pub record Label : Type 0 where
  pub meta_id : Text
  pub type : Text
  pub video_id : Option Text
  pub season : Option ℕ
  pub episode : Option ℕ
  pub name : Text
  pub poster : Text
  pub file : Option Recorded

pub record Entry : Type 0 where
  pub is_orphan : Bool
  pub info_hash : Text
  pub name : Text
  pub size : ℕ
  pub state : Text
  pub progress : ℕ
  pub pinned : Bool
  pub seeds : ℕ
  pub wanted_file : Text
  pub file_count : ℕ
  pub num_videos : Option ℕ
  pub files : List MediaFile
  pub torrent_videos : List Video
  pub label : Option Label

-- `is_title`
unfoldable pub is_title : Entry → Bool
unfolding is_empty
is_title e = not e.is_orphan && not (is_empty e.info_hash)

-- `is_complete`
unfoldable pub is_complete : MediaFile → Bool
is_complete f = (not (nat_eq f.size 0) && leb f.size f.downloaded) || leb 9990 f.progress

-- `_basename`
unfoldable pub base_part : Text → Text
unfolding base_name
base_part name = base_name (map (replace_code b'\\' b'/') name)

-- The files whose index is a number.
unfoldable pub addressable : List MediaFile → List MediaFile
addressable files = keep (λ f. is_some f.index) files

-- the files of a record that a listing leaves out
abbrev pub video_file : Video → MediaFile
video_file v = record {
  index = some v.index;
  name = v.name;
  size = v.size;
  downloaded = 0;
  progress = 0;
}

abbrev pub index_of : MediaFile → Option ℕ
index_of f = f.index

-- `_offerable_files`
unfoldable pub offerable_files : Entry → List MediaFile
unfolding contains
offerable_files e =
    let listed = collect index_of e.files in
    e.files ++ map video_file (keep (λ v. not (contains listed v.index)) e.torrent_videos)

-- `max(files, key=size)` of a list that begins with `best`: the first of the largest
unfoldable pub largest_file : MediaFile → List MediaFile → MediaFile
largest_file best [] = best
largest_file best (f ∷ rest) = largest_file (if ltb best.size f.size then f else best) rest

-- `_matching_files`
abbrev pub name_matches : Text → MediaFile → Bool
name_matches name f = is_empty name || base_part f.name == name

unfoldable pub matching_files : ℕ → Text → List MediaFile → List MediaFile
unfolding base_part is_empty
matching_files size name files = keep (λ f. nat_eq f.size size && name_matches name f) files
