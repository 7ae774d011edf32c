-- ===== src/Torrent/Picker.antt =====
-- torrent/picker.py: pieces and their priorities.
pub mod Cover
use stremio_libtorrent_serve.Prelude.{
  ℕ, zero, suc, ◌+◌, ◌-◌, ◌/◌, List, [], ◌∷◌, min, map, range_from, ℕ_eq,
}
use stremio_libtorrent_serve.Prelude.Dict.{Dict, put}

-- The pieces that cover the bytes from `start` to `end`, both included.
unfoldable pub pieces_for_range : ℕ → ℕ → ℕ → List ℕ
pieces_for_range start end piece_length =
    range_from (start / piece_length) (end / piece_length + 1 - start / piece_length)

-- `for p in ...: plan[p] = prio`
unfoldable pub put_all : List ℕ → ℕ → Dict ℕ ℕ → Dict ℕ ℕ
put_all [] prio plan = plan
put_all (p ∷ pieces) prio plan = put_all pieces prio (put p prio plan)

unfoldable pub priority_plan : ℕ → ℕ → ℕ → Dict ℕ ℕ
unfolding put_all
priority_plan active_piece readahead total_pieces =
    put_all
      (range_from active_piece (min (active_piece + readahead + 1) total_pieces - active_piece)) 7
      (map (λ p. (p, 1)) (range_from 0 total_pieces))
