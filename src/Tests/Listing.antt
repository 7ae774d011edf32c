-- ===== src/Tests/Listing.antt =====
-- A record of two files and a pad file, one of which would leave the directory.
use stremio_libtorrent_serve.Prelude.{◌≡◌, ◌*◌, ◌+◌, refl, some, [], ◌∷◌, ◌++◌, length, contains}
use stremio_libtorrent_serve.Prelude.Text.{Text, codes, before, after, text_eq, is_empty}
use stremio_libtorrent_serve.Prelude.Int.{pos}
use stremio_libtorrent_serve.Stream.Ranges.{int_of}
use stremio_libtorrent_serve.Library.TorrentFiles.{decode}
use stremio_libtorrent_serve.Library.TorrentFiles.Info.{Listing, read_listing}
use stremio_libtorrent_serve.Library.TorrentFiles.Fuel.{IsShorter, decode_all-IsShorter}
use stremio_libtorrent_serve.Library.TorrentFiles.Listed.{IsListing, read_listing-IsListing}

abbrev resume_record : Text
resume_record =
    codes "d4:infod5:filesl"
    ++ codes "d6:lengthi5e4:pathl2:..5:a.mkvee"
    ++ codes "d4:attr1:p6:lengthi9e4:pathl3:padee"
    ++ codes "d6:lengthi7e4:pathl1:s5:b.mkvee"
    ++ codes "eee"

abbrev same_bytes : Text → Text
same_bytes t = t

abbrev one_listed : Listing
one_listed = record {
  count = 3;
  files = record { index = 2; parts = codes "s" ∷ codes "b.mkv" ∷ []; size = pos 7 } ∷ [];
}

record_read : read_listing same_bytes (some resume_record) ≡ some one_listed
unfolding read_listing contains before int_of after text_eq is_empty
record_read = refl

read_listing-IsListing_example : IsListing one_listed
read_listing-IsListing_example =
    read_listing-IsListing same_bytes (some resume_record) one_listed record_read

decode_all-IsShorter_example :
    IsShorter (length resume_record) (decode (2 * length resume_record + 1) 0 resume_record)
decode_all-IsShorter_example = decode_all-IsShorter resume_record
