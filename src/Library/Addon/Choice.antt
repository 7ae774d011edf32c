-- ===== src/Library/Addon/Choice.antt =====
-- library/addon_model.py: which file of a torrent is meant (`playable_index`, `episode_index`,
-- `_label_alone_names_the_file`, `_recorded_index`).
pub mod Playable
use stremio_libtorrent_serve.Prelude.{
  ℕ, Bool, true, false, not, ◌&&◌, ◌||◌, Option, none, some, List, [], ◌∷◌, leb, nat_eq,
  if◌then◌else◌, ◌==◌, keep, length, is_some, contains,
}
use stremio_libtorrent_serve.Prelude.Text.{
  Text, Text_eq, is_empty, is_digit, is_space, lower, lower_code, codes,
}
use stremio_libtorrent_serve.Prelude.Numerals.{value_of}
use stremio_libtorrent_serve.Prelude.Members.{first}
use stremio_libtorrent_serve.Prelude.Names.{extension}
use stremio_libtorrent_serve.Torrent.Wanted.{has_ext}
use stremio_libtorrent_serve.Torrent.Wanted.Episode.{
  run_of, skip, letter_then, is_break, search_from, names_episode,
}
use stremio_libtorrent_serve.Library.Addon.{
  MediaFile, Entry, Label, Recorded, is_complete, base_part, addressable, offerable_files,
  largest_file, matching_files, index_of,
}

-- a file's index, once the file is complete or where it may still be arriving
abbrev pub offered : Bool → MediaFile → Option ℕ
offered arriving f = if arriving || is_complete f then f.index else none

abbrev pub wanted_match : Text → List MediaFile → Option MediaFile
wanted_match wanted files =
    if is_empty wanted
    then none
    else first (λ f. base_part f.name == base_part wanted) (addressable files)

abbrev pub zero_if : Bool → Option ℕ
zero_if b = if b then some 0 else none

abbrev pub unaddressed : Bool → List MediaFile → Option ℕ
unaddressed arriving [] = some 0
unaddressed arriving (f ∷ []) = zero_if (arriving || is_complete f)
unaddressed arriving (f ∷ g ∷ files) = none

abbrev pub main_index : Bool → List MediaFile → List MediaFile → Option ℕ
main_index arriving files [] = unaddressed arriving files
main_index arriving files (f ∷ rest) = offered arriving (largest_file f rest)

abbrev pub wanted_or_main : Bool → List MediaFile → Option MediaFile → Option ℕ
wanted_or_main arriving files (some f) = offered arriving f
wanted_or_main arriving files none = main_index arriving files (addressable files)

-- `playable_index`
unfoldable pub playable_index : Entry → Bool → Option ℕ
unfolding is_empty addressable first base_part is_complete largest_file
playable_index e arriving = wanted_or_main arriving e.files (wanted_match e.wanted_file e.files)

abbrev pub video_types : List Text
video_types =
    codes ".mp4"
    ∷ codes ".m4v"
    ∷ codes ".webm"
    ∷ codes ".mkv"
    ∷ codes ".avi"
    ∷ codes ".mov"
    ∷ codes ".ts"
    ∷ codes ".m2ts"
    ∷ codes ".ogv"
    ∷ codes ".flv"
    ∷ codes ".wmv"
    ∷ codes ".mpg"
    ∷ codes ".mpeg"
    ∷ []

-- `is_video`
unfoldable pub is_video : Text → Bool
unfolding contains lower extension
is_video name = contains video_types (lower (extension name))

abbrev pub episode_named : ℕ → ℕ → MediaFile → Bool
episode_named season episode f =
    is_some f.index && (is_video f.name && names_episode f.name season episode)

abbrev pub index_of_largest : List MediaFile → Option ℕ
index_of_largest [] = none
index_of_largest (f ∷ rest) = index_of (largest_file f rest)

-- `episode_index`
unfoldable pub episode_index : Entry → ℕ → ℕ → Option ℕ
unfolding is_video names_episode offerable_files largest_file
episode_index e season episode =
    index_of_largest (keep (episode_named season episode) (offerable_files e))

-- so many digits and no digit behind them
abbrev pub digits_upto : ℕ → Text → Bool
digits_upto n s = let digits = run_of is_digit s in not (is_empty digits) && leb (length digits) n

-- the numbers of the codecs, x264 to x266
abbrev pub is_codec : Text → Bool
is_codec s =
    let digits = run_of is_digit s in
    digits == codes "264" || (digits == codes "265" || digits == codes "266")

-- `_EPISODE_NAME_RE` at a place of a text, with whether a digit stands in front
unfoldable pub episode_mark : Bool → Text → Bool
unfolding run_of skip is_empty
episode_mark behind_digit t =
    letter_then b's'
      (λ u. digits_upto 3 u && letter_then b'e' (digits_upto 4) (skip is_break (skip is_digit u))) t
    || (not behind_digit
        && (digits_upto 2 t
            && letter_then b'x'
                (λ u. digits_upto 3 (skip is_space u) && not (is_codec (skip is_space u)))
                (skip is_space (skip is_digit t))))

abbrev pub lone_unmarked : List MediaFile → Bool
lone_unmarked [] = true
lone_unmarked (f ∷ []) = not (search_from episode_mark false (base_part f.name))
lone_unmarked (f ∷ g ∷ files) = false

abbrev pub is_one : Option ℕ → Bool
is_one none = false
is_one (some n) = nat_eq n 1

-- `_label_alone_names_the_file`
unfoldable pub label_alone_names_the_file : Entry → Bool
unfolding is_empty addressable search_from episode_mark
label_alone_names_the_file e =
    not (is_empty e.wanted_file)
    || (is_empty (addressable e.files)
        || ((is_one e.num_videos || nat_eq e.file_count 1) || lone_unmarked (addressable e.files)))

abbrev pub same_number : Option ℕ → Option ℕ → Bool
same_number none none = true
same_number (some n) (some m) = nat_eq n m
same_number _ _ = false

-- `_label_matches`
unfoldable pub label_matches : Label → Text → Option ℕ → Option ℕ → Bool
label_matches label base none episode =
    label.meta_id == base && (not (is_some label.season) && not (is_some label.episode))
label_matches label base (some season) episode =
    label.meta_id == base
    && (same_number label.season (some season) && same_number label.episode episode)

abbrev pub lone_file : Bool → List MediaFile → Option ℕ
lone_file arriving [] = none
lone_file arriving (f ∷ []) = offered arriving f
lone_file arriving (f ∷ g ∷ files) = none

-- `_recorded_index`
unfoldable pub recorded_index : Entry → Recorded → Bool → Option ℕ
unfolding offerable_files matching_files addressable is_complete
recorded_index e recorded arriving =
    let files = if arriving then offerable_files e else e.files in
    lone_file arriving (addressable (matching_files recorded.size recorded.name files))
