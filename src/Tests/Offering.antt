-- ===== src/Tests/Offering.antt =====
-- A film in a folder beside its sample, played from the app and then offered on its page.
use stremio_libtorrent_serve.Prelude.{
  ℕ, ◌≡◌, ◌≤◌, refl, inl, inr, true, false, none, some, [], ◌∷◌, ◌++◌, keep, collect, length,
}
use stremio_libtorrent_serve.Prelude.Members.{In}
use stremio_libtorrent_serve.Prelude.Text.{Text, text_eq, codes, lower, is_empty}
use stremio_libtorrent_serve.Prelude.Dict.{Dict}
use stremio_libtorrent_serve.Prelude.Numerals.{decimal, all_codes}
use stremio_libtorrent_serve.Torrent.Wanted.Episode.{reads_as}
use stremio_libtorrent_serve.Torrent.Wanted.Named.{reads_as-name}
use stremio_libtorrent_serve.Library.Addon.{
  MediaFile, Entry, Label, is_title, matching_files, base_part, is_complete,
}
use stremio_libtorrent_serve.Library.Addon.Ids.{parse_id, format_id}
use stremio_libtorrent_serve.Library.Addon.Ids.RoundTrip.{
  all_codes-IsHex, IsHex, parse_id-format_id,
}
use stremio_libtorrent_serve.Library.Addon.Streams.{parse_meta_id, row_index}
use stremio_libtorrent_serve.Library.Addon.Learned.{Played, Hit, played, learn_labels}
use stremio_libtorrent_serve.Library.Addon.Learned.Hits.{IsLearned, learn_labels-IsLearned}
use stremio_libtorrent_serve.Library.Addon.Learned.Film.{recorded_as, learn_labels-row}
use stremio_libtorrent_serve.Library.Addon.Cards.{meta_for, video_rows}
use stremio_libtorrent_serve.Library.Addon.Cards.Videos.{IsPlayable, meta_for-IsPlayable}

abbrev hash : Text
hash = codes "0123456789abcdef0123456789abcdef01234567"

abbrev film_file : MediaFile
film_file = record {
  index = some 1;
  name = codes "f/a.mkv";
  size = 9;
  downloaded = 9;
  progress = 10000;
}

abbrev sample_file : MediaFile
sample_file = record {
  index = some 0;
  name = codes "f/s.mkv";
  size = 2;
  downloaded = 2;
  progress = 10000;
}

abbrev unlabelled : Entry
unlabelled = record {
  is_orphan = false;
  info_hash = hash;
  name = codes "f";
  size = 11;
  state = codes "idle";
  progress = 10000;
  pinned = false;
  seeds = 0;
  wanted_file = [];
  file_count = 2;
  num_videos = none;
  files = sample_file ∷ film_file ∷ [];
  torrent_videos = [];
  label = none;
}

abbrev reported : Dict Text Text
reported = (codes "videoSize", codes "9") ∷ (codes "filename", codes "a.mkv") ∷ []

abbrev film_label : Label
film_label = record {
  meta_id = codes "tt7";
  type = codes "movie";
  video_id = none;
  season = none;
  episode = none;
  name = [];
  poster = [];
  file = none;
}

abbrev film_played : Played
film_played = record { label = film_label; size = 9; name = codes "a.mkv" }

abbrev labelled : Entry
labelled = record unlabelled {
  label = some (record film_label { file = some (recorded_as film_played film_file) });
}

abbrev no_share : ℕ → ℕ → ℕ
no_share a b = 0

report_read : played (codes "movie") (codes "tt7") reported ≡ some film_played
unfolding played is_empty text_eq
report_read = refl

film_matches : matching_files 9 (codes "a.mkv") (sample_file ∷ film_file ∷ []) ≡ film_file ∷ []
unfolding matching_files keep text_eq
film_matches = refl

film_named : is_empty (base_part (codes "f/a.mkv")) ≡ false
unfolding is_empty base_part
film_named = refl

is_listed : is_title unlabelled ≡ true
unfolding is_title
is_listed = refl

film_complete : is_complete film_file ≡ true
unfolding is_complete
film_complete = refl

hash_digits : IsHex 40 (lower hash)
unfolding lower all_codes
hash_digits = all_codes-IsHex (lower hash) refl

two_videos : (meta_for (λ n. n) unlabelled).videos ≡ some (video_rows unlabelled)
unfolding meta_for keep text_eq
two_videos = refl

second_there :
    In
      (record {
        id = codes "stremiosrv:0123456789abcdef0123456789abcdef01234567:1";
        title = codes "f/a.mkv";
      })
      (video_rows unlabelled)
unfolding video_rows collect keep text_eq decimal
second_there = inr (inl refl)

rest_unread : reads_as 1 1 (codes "mkv") ≡ false
unfolding reads_as
rest_unread = refl

learn_labels-row_example :
    (l : Label) × In
      (lower hash, l)
      (learn_labels (unlabelled ∷ []) (codes "movie") (codes "tt7") reported)
    × (row_index (record unlabelled { label = some l }) (parse_meta_id (codes "tt7")) ≡ some 1)
unfolding is_empty
learn_labels-row_example =
    learn_labels-row (unlabelled ∷ []) unlabelled (codes "tt7") reported film_played film_file 1
      (inl refl) report_read refl is_listed refl film_matches film_named refl film_complete

learn_labels-IsLearned_example :
    ((hit : Hit)
      → In hit (learn_labels (unlabelled ∷ []) (codes "movie") (codes "tt7") reported)
      → IsLearned (unlabelled ∷ []) film_played hit)
    × (is_empty (codes "a.mkv") ≡ true
        → length (learn_labels (unlabelled ∷ []) (codes "movie") (codes "tt7") reported) ≤ 1)
learn_labels-IsLearned_example =
    learn_labels-IsLearned (unlabelled ∷ []) (codes "movie") (codes "tt7") reported film_played
      report_read

meta_for-IsPlayable_example : IsPlayable unlabelled (record {
  id = codes "stremiosrv:0123456789abcdef0123456789abcdef01234567:1";
  title = codes "f/a.mkv";
})
meta_for-IsPlayable_example =
    meta_for-IsPlayable (λ n. n) unlabelled (video_rows unlabelled)
      (record {
        id = codes "stremiosrv:0123456789abcdef0123456789abcdef01234567:1";
        title = codes "f/a.mkv";
      })
      hash_digits two_videos second_there

parse_id-format_id_example : parse_id (format_id hash (some 1)) ≡ some (lower hash, some 1)
parse_id-format_id_example = parse_id-format_id hash (some 1) hash_digits

reads_as-name_example :
    reads_as 1 1 (b'S' ∷ (decimal 1 ++ b'E' ∷ (decimal 10 ++ b'.' ∷ codes "mkv"))) ≡ false
reads_as-name_example = reads_as-name 1 1 1 10 (codes "mkv") rest_unread
