-- ===== src/Stream/FileServer/Window.antt =====
-- The window of pieces that `wait_and_read` rushes ahead of the position.
use stremio_libtorrent_serve.Prelude.{
  ℕ, ◌-◌, ◌*◌, ◌/◌, ◌≤◌, ◌<◌, ◌≡◌, true, List, map, range_from, All, max,
}
use stremio_libtorrent_serve.Stream.FileServer.{
  Request, State, Boost, Read, viewer_first_bytes, piece_at,
}

abbrev pub pieces : List Boost → List ℕ
pieces = map (λ b. b.piece)

-- A boost that a second reader may make: it leaves boosted pieces alone, and it is due no earlier
-- than the viewer's next 32 MiB.
abbrev pub Yields : Request → Boost → Type 0
Yields r b = (b.keep_existing ≡ true) × (viewer_first_bytes / r.piece_length * r.step_ms ≤ b.delay)

pub record IsWindow (r : Request) (s : State) : Type 0 where
  pub from : piece_at r r.start ≤ s.next
  pub within : s.next ≤ max (piece_at r r.start) r.num_pieces
  pub in_order : pieces s.boosts ≡ range_from (piece_at r r.start) (s.next - piece_at r r.start)
  pub covered :
      All
        (λ (d : Read). piece_at r d.position < r.num_pieces → piece_at r d.position < s.next)
        s.reads
  pub yields : r.yield_to_viewer ≡ true → All (Yields r) s.boosts
