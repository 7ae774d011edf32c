-- ===== src/Library/Addon/Streams.antt =====
-- library/addon_model.py, `streams_for_meta_id`: the rows that the library offers for a title of the app.
pub mod Offers
use stremio_libtorrent_serve.Prelude.{
  ℕ, Bool, true, false, not, ◌&&◌, ◌||◌, Option, none, some, List, [], ◌∷◌, ◌++◌, if◌then◌else◌,
  ◌==◌, is_some,
}
use stremio_libtorrent_serve.Prelude.Text.{Text, Text_eq}
use stremio_libtorrent_serve.Prelude.Numerals.{is_decimal, value_of}
use stremio_libtorrent_serve.Prelude.Names.{split_on}
use stremio_libtorrent_serve.Library.Addon.{
  MediaFile, Entry, Label, Recorded, is_title, is_complete,
}
use stremio_libtorrent_serve.Library.Addon.Choice.{
  playable_index, episode_index, label_alone_names_the_file, label_matches, recorded_index,
}
use stremio_libtorrent_serve.Library.Addon.Rows.{Stream, stream_at, file_for_row}

-- What a title's id says.
pub record MetaId : Type 0 where
  pub base : Text
  pub season : Option ℕ
  pub episode : Option ℕ

abbrev pub number_part : Text → Option ℕ
number_part s = if is_decimal s then some (value_of 0 s) else none

abbrev pub meta_of : List Text → MetaId
meta_of [] = record { base = []; season = none; episode = none }
meta_of (base ∷ []) = record { base = base; season = none; episode = none }
meta_of (base ∷ s ∷ []) = record { base = base; season = none; episode = none }
meta_of (base ∷ s ∷ e ∷ more) = record {
  base = base;
  season = number_part s;
  episode = number_part e;
}

unfoldable pub parse_meta_id : Text → MetaId
unfolding split_on is_decimal value_of
parse_meta_id meta_id = meta_of (split_on b':' meta_id)

abbrev pub or_index : Option ℕ → Option ℕ → Option ℕ
or_index none n = n
or_index (some i) n = some i

-- the pack's file for an episode: `int(parts[2])` is `None` where the part is no number, which no name
-- reads as
abbrev pub named_index : Entry → Option ℕ → Option ℕ → Option ℕ
named_index e (some season) (some episode) = episode_index e season episode
named_index e season episode = none

abbrev pub fallback_index : Entry → Option ℕ → Bool → Option ℕ
fallback_index e season own =
    if own && (not (is_some season) || label_alone_names_the_file e)
    then playable_index e (is_some season)
    else none

abbrev pub worked_out : Entry → MetaId → Bool → Option ℕ
worked_out e id own = or_index (named_index e id.season id.episode) (fallback_index e id.season own)

abbrev pub recorded_or_worked : Entry → MetaId → Bool → Option Recorded → Option ℕ
recorded_or_worked e id true (some recorded) = recorded_index e recorded (is_some id.season)
recorded_or_worked e id own recorded = worked_out e id own

abbrev pub labelled_row : Entry → MetaId → Option Label → Option ℕ
labelled_row e id none = none
labelled_row e id (some label) =
    if label.meta_id == id.base
    then recorded_or_worked e id (label_matches label id.base id.season id.episode) label.file
    else none

-- `idx` of a round of the loop, none where the entry has no row
unfoldable pub row_index : Entry → MetaId → Option ℕ
unfolding is_title label_matches recorded_index episode_index playable_index
    label_alone_names_the_file
row_index e id = if is_title e then labelled_row e id e.label else none

abbrev pub known_partial : Option MediaFile → Bool
known_partial none = false
known_partial (some f) = not (is_complete f)

module _ (of_bytes : ℕ → ℕ → ℕ) where
  -- the two lists of the loop, `here` and `arriving`
  abbrev pub add_row :
      Entry → Text → Option ℕ → List Stream × List Stream → List Stream × List Stream
  add_row e origin none (here, arriving) = (here, arriving)
  add_row e origin (some idx) (here, arriving) =
      let row = stream_at of_bytes e origin idx false in
      if known_partial (file_for_row e idx)
      then (here, arriving ++ row ∷ [])
      else (here ++ row ∷ [], arriving)

  unfoldable pub collect_rows :
      List Entry → MetaId → Text → List Stream × List Stream → List Stream × List Stream
  unfolding row_index stream_at file_for_row is_complete
  collect_rows [] id origin rows = rows
  collect_rows (e ∷ entries) id origin rows =
      collect_rows entries id origin (add_row e origin (row_index e id) rows)

  -- `streams_for_meta_id`
  unfoldable pub streams_for_meta_id : List Entry → Text → Text → List Stream
  unfolding collect_rows parse_meta_id
  streams_for_meta_id entries meta_id origin =
      let rows = collect_rows entries (parse_meta_id meta_id) origin ([], []) in rows.0 ++ rows.1
