-- ===== src/Torrent/Prefetch.antt =====
-- torrent/prefetch.py: the pieces of the next file that are fetched ahead. A `Fraction` is a
-- configured fraction: whether it is above 1, and what `int(size * fraction)` gives; lengths and sizes
-- are not negative.
pub mod Ends
use stremio_libtorrent_serve.Prelude.{
  ℕ, ◌+◌, ◌-◌, ◌*◌, Bool, ◌||◌, List, [], min, nat_eq, if◌then◌else◌,
}
use stremio_libtorrent_serve.Torrent.Picker.{pieces_for_range}

pub record Fraction : Type 0 where
  pub above_one : Bool
  pub share : ℕ → ℕ

abbrev pub tail_bytes : ℕ
tail_bytes = 4194304

-- `n` of `head_pieces`
abbrev pub head_bytes : ℕ → Fraction → ℕ → ℕ
head_bytes file_size fraction max_bytes = min (fraction.share file_size) (min max_bytes file_size)

unfoldable pub head_pieces : ℕ → ℕ → ℕ → Fraction → ℕ → List ℕ
head_pieces file_offset file_size piece_length fraction max_bytes =
    let n = head_bytes file_size fraction max_bytes in
    if nat_eq piece_length 0 || (nat_eq file_size 0 || fraction.above_one)
    then []
    else if nat_eq n 0
    then []
    else pieces_for_range file_offset (file_offset + n - 1) piece_length

unfoldable pub tail_pieces : ℕ → ℕ → ℕ → List ℕ
tail_pieces file_offset file_size piece_length =
    let n = min tail_bytes file_size in
    let stop = file_offset + file_size - 1 in
    if nat_eq piece_length 0 || nat_eq file_size 0
    then []
    else pieces_for_range (stop + 1 - n) stop piece_length
