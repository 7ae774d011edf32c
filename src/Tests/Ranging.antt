-- ===== src/Tests/Ranging.antt =====
-- Range headers on a file of 100 bytes.
use stremio_libtorrent_serve.Prelude.{◌-◌, ◌≡◌, refl, some, [], ◌∷◌, ◌++◌}
use stremio_libtorrent_serve.Prelude.Int.{pos, min_ℤ}
use stremio_libtorrent_serve.Prelude.Text.{
  codes, strip_prefix, strip, before, after, lstrip, is_empty,
}
use stremio_libtorrent_serve.Stream.Ranges.{
  last_byte, parse_range, parse_spec, parse_digits, parse_signed, int_of,
}
use stremio_libtorrent_serve.Prelude.Numerals.{decimal}
use stremio_libtorrent_serve.Stream.Ranges.Bounds.{InFile, parse_range-InFile}
use stremio_libtorrent_serve.Stream.Ranges.Forms.{header, parse_range_forms}

suffix-accepted : parse_range (some (codes "bytes=-30")) 100 ≡ some (pos 70, pos 99)
unfolding parse_range parse_spec parse_digits parse_signed int_of strip_prefix strip before after
    lstrip is_empty
suffix-accepted = refl

parse_range-InFile_example : InFile 100 (pos 70) (pos 99)
parse_range-InFile_example =
    parse_range-InFile (some (codes "bytes=-30")) 100 (pos 70) (pos 99) suffix-accepted

parse_range_forms_example :
    (parse_range (some (header (decimal 10 ++ b'-' ∷ decimal 200))) 100
      ≡ some (pos 10, min_ℤ (pos 200) (last_byte 100)))
    × (parse_range (some (header (decimal 10 ++ b'-' ∷ []))) 100 ≡ some (pos 10, last_byte 100))
    × (parse_range (some (header (b'-' ∷ decimal 30))) 100 ≡ some (pos (100 - 30), last_byte 100))
parse_range_forms_example = parse_range_forms 10 200 30 100
