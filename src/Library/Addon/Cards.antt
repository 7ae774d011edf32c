-- ===== src/Library/Addon/Cards.antt =====
-- library/addon_model.py: the library's catalog and the page of one of its titles (`preview`, `catalog`,
-- `find_entry`, `meta_for`). Fields that are the same for every title are left out.
pub mod Videos
use stremio_libtorrent_serve.Prelude.{
  ℕ, zero, suc, Bool, true, false, not, ◌&&◌, ◌||◌, Option, none, some, List, [], ◌∷◌, ◌++◌, ltb,
  map, if◌then◌else◌, ◌==◌, keep, collect, length, is_some, contains, ℕ_eq,
}
use stremio_libtorrent_serve.Prelude.Text.{Text, Text_eq, codes, is_empty, lower}
use stremio_libtorrent_serve.Prelude.Numerals.{decimal}
use stremio_libtorrent_serve.Prelude.Members.{first}
use stremio_libtorrent_serve.Library.Addon.{MediaFile, Entry, Label, is_title, is_complete}
use stremio_libtorrent_serve.Library.Addon.Choice.{playable_index, is_video}
use stremio_libtorrent_serve.Library.Addon.Ids.{format_id}
use stremio_libtorrent_serve.Library.Addon.Rows.{describe, display_name, text_or}

abbrev pub label_poster : Option Label → Text
label_poster none = []
label_poster (some label) = label.poster

-- A title in the catalog; a poster that is absent is empty.
pub record Preview : Type 0 where
  pub id : Text
  pub name : Text
  pub description : Text
  pub poster : Text

pub record VideoRow : Type 0 where
  pub id : Text
  pub title : Text

-- A title's page; `videos` is none where it has no list.
pub record Meta : Type 0 where
  pub card : Preview
  pub videos : Option (List VideoRow)

unfoldable pub drop_first {ℓ} : {A : Type ℓ} → ℕ → List A → List A
drop_first zero xs = xs
drop_first (suc n) [] = []
drop_first (suc n) (x ∷ xs) = drop_first n xs

-- `find_entry`
unfoldable pub find_entry : List Entry → Text → Option Entry
unfolding first is_title lower
find_entry entries info_hash =
    first (λ e. is_title e && lower e.info_hash == lower info_hash) entries

-- the complete videos that can be addressed
unfoldable pub on_disk : Entry → List MediaFile
unfolding is_complete is_video
on_disk e = keep (λ f. is_complete f && (is_some f.index && is_video f.name)) e.files

abbrev pub file_title : MediaFile → ℕ → Text
file_title f idx = text_or f.name (codes "file " ++ decimal idx)

abbrev pub video_row_at : Entry → MediaFile → Option ℕ → Option VideoRow
video_row_at e f none = none
video_row_at e f (some idx) =
    some (record { id = format_id (lower e.info_hash) (some idx); title = file_title f idx })

abbrev pub video_row : Entry → MediaFile → Option VideoRow
video_row e f = video_row_at e f f.index

-- whether the card plays one of the files by itself
unfoldable pub has_index : Option ℕ → List MediaFile → Bool
has_index none files = false
has_index (some idx) files = contains (collect (λ f. f.index) files) idx

abbrev pub lists_videos : Entry → Bool
lists_videos e =
    ltb 1 (length (on_disk e))
    || (not (is_empty (on_disk e)) && not (has_index (playable_index e false) (on_disk e)))

unfoldable pub video_rows : Entry → List VideoRow
unfolding on_disk format_id lower
video_rows e = collect (video_row e) (on_disk e)

module _ (of_progress : ℕ → ℕ) where
  -- `preview`
  unfoldable pub preview : Entry → Preview
  unfolding format_id describe display_name
  preview e = record {
    id = format_id e.info_hash none;
    name = display_name of_progress e;
    description = describe e;
    poster = label_poster e.label;
  }

  -- `catalog`
  unfoldable pub catalog : List Entry → ℕ → List Preview
  unfolding preview drop_first is_title
  catalog entries skip = drop_first skip (map preview (keep is_title entries))

  -- `meta_for`
  unfoldable pub meta_for : Entry → Meta
  unfolding preview video_rows has_index playable_index is_empty
  meta_for e = record {
    card = record (preview e) { id = format_id (lower e.info_hash) none };
    videos = if lists_videos e then some (video_rows e) else none;
  }
