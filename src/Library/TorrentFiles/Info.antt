-- ===== src/Library/TorrentFiles/Info.antt =====
-- library/torrentfiles.py, `parse_info` and `_read`: the file list in a decoded record.
use stremio_libtorrent_serve.Prelude.{
  ℕ, suc, ◌+◌, Bool, true, false, not, ◌&&◌, ◌||◌, Option, none, some, List, [], ◌∷◌, leb, nat_eq,
  if◌then◌else◌, ◌==◌, length, contains, ℕ_eq,
}
use stremio_libtorrent_serve.Prelude.Int.{ℤ}
use stremio_libtorrent_serve.Prelude.Text.{Text, Text_eq, codes, is_empty}
use stremio_libtorrent_serve.Library.TorrentFiles.{
  Value, number, bytes, list, dict, Values, nil, cons, Entries, end, entry, bdecode,
}

-- The value under a key, the last one where it stands twice.
abbrev pub newer : Option Value → Option Value → Option Value
newer none old = old
newer (some v) old = some v

unfoldable pub find : Text → Entries → Option Value
find k end = none
find k (entry j v es) = newer (find k es) (if j == k then some v else none)

pub record TorrentFile : Type 0 where
  pub index : ℕ
  pub parts : List Text
  pub size : ℤ

pub record Listing : Type 0 where
  pub count : ℕ
  pub files : List TorrentFile

abbrev pub is_bad : ℕ → Bool
is_bad c = nat_eq c b'/' || (nat_eq c b'\\' || nat_eq c 0)

unfoldable pub has_bad : Text → Bool
has_bad [] = false
has_bad (c ∷ s) = is_bad c || has_bad s

-- `_safe`
unfoldable pub is_safe : Text → Bool
unfolding has_bad
is_safe part =
    not (is_empty part)
    && (not (part == codes ".") && (not (part == codes "..") && not (has_bad part)))

unfoldable pub all_safe : List Text → Bool
unfolding is_safe
all_safe [] = true
all_safe (part ∷ parts) = is_safe part && all_safe parts

-- whether a file is a pad file or a symlink
abbrev pub is_skipped : Option Value → Bool
is_skipped (some (bytes attr)) = contains attr b'p' || contains attr b'l'
is_skipped v = false

abbrev pub int_under : Option Value → Option ℤ
int_under (some (number n)) = some n
int_under v = none

-- the path, where it is a list
abbrev pub path_list : Option Value → Option Value → Option Values
path_list (some (list vs)) other = some vs
path_list v (some (list vs)) = some vs
path_list v other = none

abbrev pub count_values : Values → ℕ
count_values nil = 0
count_values (cons v vs) = suc (count_values vs)

abbrev pub or_unlisted : Option Listing → Listing
or_unlisted none = record { count = 0; files = [] }
or_unlisted (some l) = l

abbrev pub max_record_bytes : ℕ
max_record_bytes = 33554432

abbrev pub add_file :
    ℕ → ℤ → Option (List Text) → Option (List TorrentFile) → Option (List TorrentFile)
add_file index size none rest = none
add_file index size (some parts) none = none
add_file index size (some parts) (some files) =
    some (
      if all_safe parts
      then record { index = index; parts = parts; size = size } ∷ files
      else files)

abbrev pub listing_of : ℕ → Option (List TorrentFile) → Option Listing
listing_of count none = none
listing_of count (some files) = some (record { count = count; files = files })

abbrev pub single_file : Option ℤ → Option Listing
single_file none = none
single_file (some size) =
    some (record { count = 1; files = record { index = 0; parts = []; size = size } ∷ [] })

module _ (decode_utf8 : Text → Text) where
  abbrev pub cons_part : Text → Option (List Text) → Option (List Text)
  cons_part p none = none
  cons_part p (some parts) = some (decode_utf8 p ∷ parts)

  -- the parts, none where one is no byte string
  unfoldable pub parts_of : Values → Option (List Text)
  parts_of nil = some []
  parts_of (cons (bytes p) vs) = cons_part p (parts_of vs)
  parts_of (cons v vs) = none

  abbrev pub path_parts : Option Values → Option (List Text)
  path_parts none = none
  path_parts (some nil) = none
  path_parts (some (cons v vs)) = parts_of (cons v vs)

  abbrev pub file_with :
      ℕ → Entries → Option ℤ → Option (List TorrentFile) → Option (List TorrentFile)
  file_with index f none rest = none
  file_with index f (some size) rest =
      if is_skipped (find (codes "attr") f)
      then rest
      else add_file index size
          (path_parts (path_list (find (codes "path.utf-8") f) (find (codes "path") f))) rest

  abbrev pub file_at : ℕ → Value → Option (List TorrentFile) → Option (List TorrentFile)
  file_at index (dict f) rest = file_with index f (int_under (find (codes "length") f)) rest
  file_at index v rest = none

  -- the loop over the files, from an index on
  unfoldable pub list_files : ℕ → Values → Option (List TorrentFile)
  unfolding find parts_of all_safe
  list_files index nil = some []
  list_files index (cons v vs) = file_at index v (list_files (index + 1) vs)

  abbrev pub listing_under : Option Value → Entries → Option Listing
  listing_under (some (list fs)) info = listing_of (count_values fs) (list_files 0 fs)
  listing_under v info = single_file (int_under (find (codes "length") info))

  -- `parse_info`
  unfoldable pub parse_info : Value → Option Listing
  unfolding list_files
  parse_info (dict info) = listing_under (find (codes "files") info) info
  parse_info v = none

  abbrev pub info_listing : Option Value → Option Listing
  info_listing (some (dict info)) = some (or_unlisted (parse_info (dict info)))
  info_listing v = none

  abbrev pub record_listing : Option Value → Option Listing
  record_listing (some (dict r)) = info_listing (find (codes "info") r)
  record_listing v = none

  -- `_read`, of the bytes of a record, if there is one
  unfoldable pub read_listing : Option Text → Option Listing
  unfolding parse_info bdecode
  read_listing none = none
  read_listing (some buf) =
      if leb (length buf) max_record_bytes then record_listing (bdecode buf) else none
