-- ===== src/Api/MediaFetch/Head.antt =====
-- api/media_fetch.py, `_torrent_head`: the head of a torrent's file, read before ffmpeg may open it. A
-- `Source` is the torrent that `playback._handle` finds or adds, with what libtorrent and the disk
-- answer during the sniff. The calls that ask for the head (`focus_file`, `resume`,
-- `prioritize_pieces`), whose errors are ignored, act on the handle alone; what they bring about is in
-- the world's pieces. Times are milliseconds.
use stremio_libtorrent_serve.Prelude.{
  ℕ, ◌+◌, ◌/◌, Bool, true, false, Option, none, some, List, nat_eq, min, if◌then◌else◌, length,
  get_elem?,
}
use stremio_libtorrent_serve.Prelude.Int.{ℤ, pos, negsuc}
use stremio_libtorrent_serve.Prelude.Text.{Text}
use stremio_libtorrent_serve.Torrent.Wanted.{guess_file_idx}
use stremio_libtorrent_serve.Stream.FileServer.{
  World, Request, State, End, served, starved, empty_read, raised, out_of_fuel, Waited, arrived,
  late, lost, wait_for, wait_and_read,
}

pub record Source : Type 0 where
  -- whether the metadata came in time, and when the wait for it ended
  pub has_metadata : Bool
  pub ready_at : ℕ
  pub files : List (Text × ℕ)
  pub piece_length : ℕ
  pub num_pieces : ℕ
  -- none where it raises
  pub file_offset : ℕ → Option ℕ
  -- what a reader of a file meets
  pub world : ℕ → World

-- The three outcomes: the bytes, nothing that could be inspected (`b""`), and `None`.
pub data Sniffed : Type 0 where
  inspected : Text → Sniffed
  uninspected : Sniffed
  unread : Sniffed

abbrev pub head_bytes : ℕ
head_bytes = 64

-- the file of an index, guessed where the index is negative
unfoldable pub served_file : Source → ℤ → Option ℕ
unfolding guess_file_idx
served_file s (pos i) = some i
served_file s (negsuc n) = guess_file_idx s.files none

-- the arguments of `wait_and_read`, which are its defaults
abbrev pub head_request : Source → ℕ → Request
head_request s offset = record {
  piece_length = s.piece_length;
  file_offset = offset;
  num_pieces = s.num_pieces;
  start = 0;
  stop = head_bytes;
  timeout = 30000;
  first_timeout = 120000;
  chunk = 262144;
  window_bytes = 50331648;
  step_ms = 50;
  count = false;
  yield_to_viewer = false;
}

abbrev pub is_raised : End → Bool
is_raised raised = true
is_raised served = false
is_raised starved = false
is_raised empty_read = false
is_raised out_of_fuel = false

-- a head counts only when it is whole
abbrev pub whole_head : End × State → Option (Text × ℕ) → Sniffed
whole_head x none = unread
whole_head x (some f) =
    if is_raised x.0
    then unread
    else if nat_eq (length x.1.out) (min head_bytes f.1)
    then inspected x.1.out
    else unread

-- after the wait for the head's piece
abbrev pub read_head : Source → ℕ → ℕ → Waited × ℕ → Sniffed
read_head s i offset (lost, now) = uninspected
read_head s i offset (late, now) = unread
read_head s i offset (arrived, now) =
    whole_head (wait_and_read (head_request s offset) (s.world i) now) (get_elem? s.files i)

-- the loop that polls `have_piece`, which goes on while the time is not past `give_up`
abbrev pub await_head : ℕ → Source → ℕ → Option ℕ → Sniffed
await_head timeout s i none = uninspected
await_head timeout s i (some offset) =
    if nat_eq s.piece_length 0
    then uninspected
    else read_head s i offset (
        wait_for (s.world i) (timeout + 2) (offset / s.piece_length) (s.ready_at + timeout + 1)
          s.ready_at)

abbrev pub head_of_file : ℕ → Source → Option ℕ → Sniffed
head_of_file timeout s none = uninspected
head_of_file timeout s (some i) = await_head timeout s i (s.file_offset i)

abbrev pub head_of_source : ℕ → ℤ → Option Source → Sniffed
head_of_source timeout idx none = uninspected
head_of_source timeout idx (some s) =
    if s.has_metadata then head_of_file timeout s (served_file s idx) else unread

-- `_torrent_head`; `engine` is none where there is no engine or the torrent cannot be resolved
unfoldable pub torrent_head : ℕ → (Text → Option Source) → Text → ℤ → Sniffed
unfolding wait_for wait_and_read served_file
torrent_head timeout engine ih idx = head_of_source timeout idx (engine ih)
