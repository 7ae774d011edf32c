-- ===== src/Stream/FileServer.antt =====
-- stream/fileserver.py, `wait_and_read`: the generator that serves bytes of a torrent's file, and
-- waits for the piece that covers the next byte.
--
-- Times are milliseconds. What the generator meets is a `World`: whether the torrent's handle is
-- still valid, whether a piece is on the disk, and what a read of the file returns, each at a
-- moment; a call on an invalid handle raises. Calls made at one moment agree. The last byte `end`
-- is given by `stop`, one more than it, and 0 for an end below 0.
pub mod Outcome
pub mod Served
pub mod Window
pub mod Complete
use stremio_libtorrent_serve.Prelude.{
  ℕ, zero, suc, ◌+◌, ◌-◌, ◌*◌, ◌/◌, Bool, true, false, not, ◌&&◌, ◌||◌, Option, none, some, List,
  [], ◌∷◌, ◌++◌, min, max, ltb, nat_eq, if◌then◌else◌, length,
}

pub record World : Type 0 where
  pub valid : ℕ → Bool
  pub have_piece : ℕ → ℕ → Bool
  -- a read at a moment, from a position, of at most so many bytes; `none` is an `OSError`
  pub read : ℕ → ℕ → ℕ → Option (List ℕ)
  -- how long the consumer takes to ask for more, once the bytes up to a position are out
  pub consume : ℕ → ℕ

-- The torrent's geometry and the generator's arguments.
pub record Request : Type 0 where
  pub piece_length : ℕ
  pub file_offset : ℕ
  pub num_pieces : ℕ
  pub start : ℕ
  pub stop : ℕ
  pub timeout : ℕ
  pub first_timeout : ℕ
  pub chunk : ℕ
  pub window_bytes : ℕ
  pub step_ms : ℕ
  pub count : Bool
  pub yield_to_viewer : Bool

abbrev pub viewer_first_bytes : ℕ
viewer_first_bytes = 33554432

-- `handle.boost_piece(piece, delay, keep_existing)`
pub record Boost : Type 0 where
  pub piece : ℕ
  pub delay : ℕ
  pub keep_existing : Bool

-- One `f.read` that returned bytes: when, from where, and how many.
pub record Read : Type 0 where
  pub at : ℕ
  pub position : ℕ
  pub size : ℕ

-- The generator's variables, and what it has done so far. `next` is `deadlined_to + 1`.
pub record State : Type 0 where
  pub pos : ℕ
  pub next : ℕ
  pub yielded : Bool
  pub now : ℕ
  pub out : List ℕ
  pub boosts : List Boost
  pub reads : List Read
  pub stalls : ℕ
  pub timeouts : ℕ

pub data End : Type 0 where
  served starved empty_read raised out_of_fuel : End

-- How the wait for a piece ended: it is there, its budget passed, or a call raised.
pub data Waited : Type 0 where
  arrived late lost : Waited

-- the loop that polls every 200 ms, on fuel
unfoldable pub wait_for : World → ℕ → ℕ → ℕ → ℕ → Waited × ℕ
wait_for w zero piece deadline now = (late, now)
wait_for w (suc fuel) piece deadline now =
    let rest = wait_for w fuel piece deadline (now + 200) in
    if not (w.valid now)
    then (lost, now)
    else if w.have_piece now piece
    then (arrived, now)
    else if ltb now deadline
    then rest
    else (late, now)

unfoldable pub boost_from : Bool → ℕ → ℕ → ℕ → ℕ → ℕ → List Boost
boost_from keep offset step gp next zero = []
boost_from keep offset step gp next (suc n) =
    record { piece = next; delay = offset + (next - gp) * step; keep_existing = keep }
    ∷ boost_from keep offset step gp (suc next) n

module _ (r : Request) where
  unfoldable pub offset_ms : ℕ
  offset_ms =
      if r.yield_to_viewer then max 1 (viewer_first_bytes / r.piece_length) * r.step_ms else 0

  unfoldable pub window : ℕ
  window = max 4 (min r.num_pieces (r.window_bytes / r.piece_length))

  -- the piece that holds the byte at a position of the file
  unfoldable pub piece_at : ℕ → ℕ
  piece_at pos = (r.file_offset + pos) / r.piece_length

  -- one past `far`
  unfoldable pub window_end : ℕ → ℕ
  unfolding window
  window_end gp = min (gp + window + 1) r.num_pieces

  unfoldable pub slide : State → State
  unfolding offset_ms piece_at window_end boost_from
  slide s =
      let gp = piece_at s.pos in
      let n = window_end gp - s.next in
      record s {
        next = s.next + n;
        boosts = s.boosts ++ boost_from r.yield_to_viewer offset_ms r.step_ms gp s.next n;
      }

  abbrev pub budget : State → ℕ
  budget s = if s.yielded then r.timeout else r.first_timeout

  -- how many bytes to read: no further than the piece that is known to be there
  unfoldable pub read_size : ℕ → ℕ
  unfolding piece_at
  read_size pos =
      min r.chunk (min (r.stop - pos) ((piece_at pos + 1) * r.piece_length - (r.file_offset + pos)))

  unfoldable pub count_timeout : State → State
  count_timeout s = record s { timeouts = if r.count then s.timeouts + 1 else s.timeouts }

  unfoldable pub count_stall : Bool → State → State
  count_stall had_to_wait s = record s {
    stalls = if had_to_wait && r.count then s.stalls + 1 else s.stalls;
  }

  module _ (w : World) where
    -- the bytes of one read: none left ends the loop, others are handed to the consumer
    unfoldable pub take_bytes : State → List ℕ → End × State
    take_bytes s [] = (empty_read, s)
    take_bytes s (b ∷ bytes) =
        let pos' = s.pos + length (b ∷ bytes) in
        (
          served,
          record s {
            pos = pos';
            yielded = true;
            now = s.now + w.consume pos';
            out = s.out ++ b ∷ bytes;
            reads =
                s.reads ++ record { at = s.now; position = s.pos; size = length (b ∷ bytes) } ∷ [];
          },
        )

    unfoldable pub read_chunk : State → Option (List ℕ) → End × State
    unfolding count_timeout take_bytes
    read_chunk s none = (raised, count_timeout s)
    read_chunk s (some bytes) = take_bytes s bytes

    -- after the wait
    unfoldable pub finish : Bool → State → Waited → End × State
    unfolding count_timeout count_stall read_chunk read_size
    finish had_to_wait s lost = (raised, count_timeout s)
    finish had_to_wait s late = (starved, count_timeout s)
    finish had_to_wait s arrived =
        read_chunk (count_stall had_to_wait s) (w.read s.now s.pos (read_size s.pos))

    -- one round of `while pos <= end`; `served` means that the loop goes on
    unfoldable pub round : State → End × State
    unfolding slide wait_for piece_at finish count_timeout
    round s =
        if not (w.valid s.now)
        then (raised, count_timeout s)
        else let s' = slide s in
          let gp = piece_at s.pos in
          let (waited, now') = wait_for w (budget s + 1) gp (s.now + budget s) s.now in
          finish (not (w.have_piece s.now gp)) (record s' { now = now' }) waited

    -- the generator goes on unless it has ended
    unfoldable pub continue : (State → End × State) → End × State → End × State
    continue k (served, s) = k s
    continue k (e, s) = (e, s)

    -- the loop, on fuel; it returns `served` when the range is out
    unfoldable pub go : ℕ → State → End × State
    unfolding continue
    go zero s = (out_of_fuel, s)
    go (suc fuel) s = elim (ltb s.pos r.stop) [
      | false ↦ (served, s)
      | true ↦ continue (λ t. go fuel t) (round s)
    ]

    abbrev pub started : ℕ → State
    started now = record {
      pos = r.start;
      next = (r.file_offset + r.start) / r.piece_length;
      yielded = false;
      now = now;
      out = [];
      boosts = [];
      reads = [];
      stalls = 0;
      timeouts = 0;
    }

    -- The generator, run to its end, from the moment it starts.
    unfoldable pub wait_and_read : ℕ → End × State
    unfolding go count_timeout
    wait_and_read now =
        if not (w.valid now) || nat_eq r.piece_length 0
        then (raised, count_timeout (started now))
        else go (r.stop - r.start + 1) (started now)
