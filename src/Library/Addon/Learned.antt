-- ===== src/Library/Addon/Learned.antt =====
-- library/addon_model.py: what a playback teaches the library (`_played`, `learn_labels`, `learn_files`).
-- The values that a request carries are a dictionary.
pub mod Hits
pub mod Film
use stremio_libtorrent_serve.Prelude.{
  ℕ, zero, suc, Bool, true, false, not, ◌&&◌, ◌||◌, Option, none, some, List, [], ◌∷◌, ltb,
  if◌then◌else◌, ◌==◌, collect, length, is_some,
}
use stremio_libtorrent_serve.Prelude.Text.{
  Text, Text_eq, is_empty, is_digit, lower, codes, strip_prefix,
}
use stremio_libtorrent_serve.Prelude.Numerals.{is_decimal, value_of}
use stremio_libtorrent_serve.Prelude.Names.{split_on}
use stremio_libtorrent_serve.Prelude.Dict.{Dict, get}
use stremio_libtorrent_serve.Library.Addon.{
  MediaFile, Entry, Label, Recorded, is_title, base_part, matching_files,
}
use stremio_libtorrent_serve.Library.Addon.Choice.{label_matches}

-- the groups of a match of `_VIDEO_ID_RE`
pub record VideoId : Type 0 where
  pub base : Text
  pub numbers : Option (ℕ × ℕ)

abbrev pub is_base : Text → Bool
is_base base = elim (strip_prefix (codes "tt") base) [
  | none ↦ false
  | some digits ↦ is_decimal digits
]

abbrev pub video_of : List Text → Option VideoId
video_of (base ∷ []) = if is_base base then some (record { base = base; numbers = none }) else none
video_of (base ∷ s ∷ e ∷ []) =
    if is_base base && (is_decimal s && is_decimal e)
    then some (record { base = base; numbers = some (value_of 0 s, value_of 0 e) })
    else none
video_of parts = none

-- `_VIDEO_ID_RE.fullmatch`
unfoldable pub match_video_id : Text → Option VideoId
unfolding split_on is_decimal value_of strip_prefix
match_video_id video_id = video_of (split_on b':' video_id)

-- What a request reports: the label of its video, the size of the playing file and its name.
pub record Played : Type 0 where
  pub label : Label
  pub size : ℕ
  pub name : Text

abbrev pub text_or_empty : Option Text → Text
text_or_empty none = []
text_or_empty (some t) = t

abbrev pub label_of : Text → Text → VideoId → Label
label_of type video_id id = record {
  meta_id = id.base;
  type = type;
  video_id = elim id.numbers [ none ↦ none | some n ↦ some video_id ];
  season = elim id.numbers [ none ↦ none | some n ↦ some n.0 ];
  episode = elim id.numbers [ none ↦ none | some n ↦ some n.1 ];
  name = [];
  poster = [];
  file = none;
}

-- a series has an episode, a film none
abbrev pub fits_type : Text → VideoId → Bool
fits_type type id =
    (type == codes "series" && is_some id.numbers)
    || (type == codes "movie" && not (is_some id.numbers))

abbrev pub played_size : Text → Text → VideoId → Text → Text → Option Played
played_size type video_id id size name =
    if is_decimal size && ltb 0 (value_of 0 size)
    then some (record {
      label = label_of type video_id id;
      size = value_of 0 size;
      name = base_part name;
    })
    else none

abbrev pub played_video : Text → Text → Dict Text Text → Option VideoId → Option Played
played_video type video_id extra none = none
played_video type video_id extra (some id) =
    if fits_type type id
    then played_size type video_id id (text_or_empty (get (codes "videoSize") extra))
        (text_or_empty (get (codes "filename") extra))
    else none

-- `_played`
unfoldable pub played : Text → Text → Dict Text Text → Option Played
unfolding match_video_id get base_part
played type video_id extra = played_video type video_id extra (match_video_id video_id)

abbrev pub recorded_file : Text → ℕ → Option Recorded
recorded_file [] size = none
recorded_file (c ∷ name) size = some (record { name = c ∷ name; size = size })

-- `_file_of`
unfoldable pub file_of : List MediaFile → ℕ → Option Recorded
unfolding base_part
file_of [] size = none
file_of (f ∷ []) size = recorded_file (base_part f.name) size
file_of (f ∷ g ∷ files) size = none

-- A hit: a torrent and the label for it.
abbrev pub Hit : Type 0
Hit = Text × Label

-- the label with the file, where there is one
abbrev pub with_file : Label → Option Recorded → Label
with_file label found = record label { file = found }

abbrev pub label_hit : Played → Entry → List MediaFile → Option Hit
label_hit p e [] = none
label_hit p e (f ∷ files) = some (lower e.info_hash, with_file p.label (file_of (f ∷ files) p.size))

-- a round of the loop of `learn_labels`
unfoldable pub learned_label : Played → Entry → Option Hit
unfolding is_title matching_files file_of lower
learned_label p e =
    if not (is_title e) || is_some e.label
    then none
    else label_hit p e (matching_files p.size p.name e.files)

-- by its size alone a file is known only where one torrent has it
abbrev pub unless_unclear : Text → List Hit → List Hit
unless_unclear name hits = if is_empty name && ltb 1 (length hits) then [] else hits

abbrev pub hits_of : (Played → Entry → Option Hit) → List Entry → Option Played → List Hit
hits_of round entries none = []
hits_of round entries (some p) = unless_unclear p.name (collect (round p) entries)

-- `learn_labels`
unfoldable pub learn_labels : List Entry → Text → Text → Dict Text Text → List Hit
unfolding learned_label played is_empty collect
learn_labels entries type video_id extra =
    hits_of learned_label entries (played type video_id extra)

abbrev pub file_hit : Played → Entry → Option Recorded → Option Hit
file_hit p e none = none
file_hit p e (some found) = some (lower e.info_hash, with_file p.label (some found))

abbrev pub lacks_file : Played → Option Label → Bool
lacks_file p none = false
lacks_file p (some own) =
    not (is_some own.file) && label_matches own p.label.meta_id p.label.season p.label.episode

-- a round of the loop of `learn_files`
unfoldable pub learned_file : Played → Entry → Option Hit
unfolding is_title matching_files file_of lower label_matches
learned_file p e =
    if is_title e && lacks_file p e.label
    then file_hit p e (file_of (matching_files p.size p.name e.files) p.size)
    else none

-- `learn_files`
unfoldable pub learn_files : List Entry → Text → Text → Dict Text Text → List Hit
unfolding learned_file played is_empty collect
learn_files entries type video_id extra = hits_of learned_file entries (played type video_id extra)
