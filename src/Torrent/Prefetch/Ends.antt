-- ===== src/Torrent/Prefetch/Ends.antt =====
-- Which pieces are fetched ahead: those of the first and of the last bytes of the file.
use stremio_libtorrent_serve.Prelude.{
  ℕ, ◌+◌, ◌-◌, ◌/◌, ◌≤◌, ◌<◌, ◌≡◌, ◌↔◌, true, false, arith, min, contains, ℕ_eq,
}
use stremio_libtorrent_serve.Torrent.Picker.{pieces_for_range}
use stremio_libtorrent_serve.Torrent.Picker.Cover.{pieces_for_range-cover}
use stremio_libtorrent_serve.Torrent.Prefetch.{
  Fraction, tail_bytes, head_bytes, head_pieces, tail_pieces,
}

module _ (off size piece_length : ℕ) (fraction : Fraction) (max_bytes : ℕ) where
  head_pieces-eq :
      0 < size
      → 0 < piece_length
      → fraction.above_one ≡ false
      → 0 < head_bytes size fraction max_bytes
      → head_pieces off size piece_length fraction max_bytes
        ≡ pieces_for_range off (off + head_bytes size fraction max_bytes - 1) piece_length
  unfolding head_pieces
  head_pieces-eq a b c d = ground arith

  tail_pieces-eq :
      0 < size
      → 0 < piece_length
      → tail_pieces off size piece_length
        ≡ pieces_for_range (off + size - 1 + 1 - min tail_bytes size) (off + size - 1) piece_length
  unfolding tail_pieces
  tail_pieces-eq a b = ground arith

  -- Of a file that is not empty, in a torrent with pieces of positive length and with a fraction of at
  -- most 1 that comes to some bytes, the head is the pieces that hold one of the first
  -- min(fraction of the size, `max_bytes`, size) bytes, and the tail those that hold one of its last 4 MiB.
  pub head_tail_pieces-cover :
      (p : ℕ)
      → 0 < size
      → 0 < piece_length
      → fraction.above_one ≡ false
      → 0 < head_bytes size fraction max_bytes
      → ((contains (head_pieces off size piece_length fraction max_bytes) p ≡ true) ↔ (
          (b : ℕ) × (off ≤ b)
          × (b ≤ off + head_bytes size fraction max_bytes - 1)
          × (b / piece_length ≡ p)))
        × ((contains (tail_pieces off size piece_length) p ≡ true) ↔ (
            (b : ℕ) × (off + size - 1 + 1 - min tail_bytes size ≤ b)
            × (b ≤ off + size - 1)
            × (b / piece_length ≡ p)))
  head_tail_pieces-cover p a b c d = (
    rw (head_pieces-eq a b c d) (
        pieces_for_range-cover off (off + head_bytes size fraction max_bytes - 1) piece_length b p
          (omega arith)),
    rw (tail_pieces-eq a b) (
        pieces_for_range-cover (off + size - 1 + 1 - min tail_bytes size) (off + size - 1)
          piece_length b p (omega arith)),
  )
