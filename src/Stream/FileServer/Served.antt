-- ===== src/Stream/FileServer/Served.antt =====
-- What `wait_and_read` hands out: the file's own bytes, in order, and only from pieces that have
-- arrived.
use stremio_libtorrent_serve.Prelude.{
  ℕ, zero, suc, ◌+◌, ◌-◌, ◌*◌, ◌≤◌, ◌<◌, ◌≡◌, refl, sym, ap, ap₂, ◌∙◌, true, not, ◌||◌, some, List,
  [], ◌∷◌, ◌++◌, inl, inr, arith, nat_eq, length, length-append, All, All-append, Bool-cases,
}
use stremio_libtorrent_serve.Stream.FileServer.{
  World, Request, State, Read, piece_at, read_size, slide, go, started, count_timeout,
  wait_and_read,
}
use stremio_libtorrent_serve.Stream.FileServer.Outcome.{SameWork, Advance, go_keeps}

-- The bytes of a file from a position, so many of them.
unfoldable pub slice : (ℕ → ℕ) → ℕ → ℕ → List ℕ
slice content pos zero = []
slice content pos (suc n) = content pos ∷ slice content (suc pos) n

slice-append :
    (content : ℕ → ℕ) (pos m n : ℕ) {end : ℕ}
    → pos + m ≡ end
    → slice content pos m ++ slice content end n ≡ slice content pos (m + n)
unfolding slice
slice-append content pos zero n {end} e =
    let e' : end ≡ pos = omega arith in rw e' (ap (slice content pos) (omega arith))
slice-append content pos (suc m) n e =
    let e' : suc m + n ≡ suc (m + n) = omega arith in
    rw e' (ap (◌∷◌ (content pos)) (slice-append content (suc pos) m n (omega arith)))

-- What a read of the torrent's file returns where the piece is there: at most as many bytes as were
-- asked for, and the file's. Past that piece nothing is known of them.
pub record IsFile (r : Request) (w : World) (content : ℕ → ℕ) : Type 0 where
  pub read_ok :
      (at pos n : ℕ) (bytes : List ℕ)
      → w.have_piece at (piece_at r pos) ≡ true
      → r.file_offset + pos + n ≤ (piece_at r pos + 1) * r.piece_length
      → w.read at pos n ≡ some bytes
      → (length bytes ≤ n) × (bytes ≡ slice content pos (length bytes))

-- A read that stayed inside the requested range and inside a piece that had arrived.
pub record IsVerified (r : Request) (w : World) (d : Read) : Type 0 where
  pub there : w.have_piece d.at (piece_at r d.position) ≡ true
  pub inside : r.file_offset + d.position + d.size ≤ (piece_at r d.position + 1) * r.piece_length
  pub from : r.start ≤ d.position
  pub upto : d.position + d.size ≤ r.stop

pub record IsServing (r : Request) (w : World) (content : ℕ → ℕ) (s : State) : Type 0 where
  pub pos : s.pos ≡ r.start + length s.out
  pub bound : s.pos ≤ r.stop
  pub out : s.out ≡ slice content r.start (length s.out)
  pub reads : All (IsVerified r w) s.reads

module _ (r : Request) (positive : 0 < r.piece_length) where
  -- the byte at a position lies before the end of its piece
  pub piece_covers : (pos : ℕ) → r.file_offset + pos < (piece_at r pos + 1) * r.piece_length
  unfolding piece_at
  piece_covers pos = grind arith

  pub read_size-le-stop : (pos : ℕ) → pos < r.stop → pos + read_size r pos ≤ r.stop
  unfolding read_size
  read_size-le-stop pos h = omega arith

  read_size_inside :
      (pos : ℕ) → r.file_offset + pos + read_size r pos ≤ (piece_at r pos + 1) * r.piece_length
  unfolding read_size
  read_size_inside pos = omega (arith, piece_covers pos)

  module _ (w : World) (content : ℕ → ℕ) (file : IsFile r w content) where
    same_keeps : (s t : State) → SameWork s t → IsServing r w content s → IsServing r w content t
    same_keeps s t h v = record {
      pos = cc (h.pos, v.pos, h.out);
      bound = omega (arith, h.pos, v.bound);
      out = cc (h.out, v.out);
      reads = rw h.reads v.reads;
    }

    slide_keeps :
        (s : State) → s.pos < r.stop → IsServing r w content s → IsServing r w content (slide r s)
    unfolding slide
    slide_keeps s h v = record { pos = v.pos; bound = v.bound; out = v.out; reads = v.reads }

    Advance-keeps :
        (s t : State)
        → s.pos < r.stop
        → Advance r w (slide r s) t
        → IsServing r w content (slide r s)
        → IsServing r w content t
    unfolding slide
    Advance-keeps s t h a v =
        let bytes : List ℕ = a.first ∷ a.rest in
        let (fits, same) =
          file.read_ok a.at s.pos (read_size r s.pos) bytes a.there (read_size_inside s.pos)
            a.read in
        let grown : length t.out ≡ length s.out + length bytes =
          ap length a.out ∙ length-append s.out bytes in
        let stop_ok : s.pos + length bytes ≤ r.stop = omega (arith, read_size-le-stop s.pos h) in
        record {
          pos = omega (arith, a.pos, v.pos, grown);
          bound = omega (arith, a.pos);
          out =
              a.out
              ∙ (ap₂ ◌++◌ v.out same
                  ∙ slice-append content r.start (length s.out) (length bytes) (sym v.pos))
              ∙ ap (slice content r.start) (sym grown);
          reads = rw a.reads (
              All-append (IsVerified r w) s.reads _ v.reads (
                record {
                  there = a.there;
                  inside = omega (arith, read_size_inside s.pos);
                  from = omega (arith, v.pos);
                  upto = stop_ok;
                },
                tt,
              ));
        }

    started-IsServing : (now : ℕ) → r.start ≤ r.stop → IsServing r w content (started r w now)
    unfolding slice
    started-IsServing now h = record { pos = omega arith; bound = h; out = refl; reads = tt }

    go-IsServing :
        (fuel now : ℕ) → r.start ≤ r.stop → IsServing r w content (go r w fuel (started r w now)).1
    go-IsServing fuel now h =
        go_keeps r w (IsServing r w content) same_keeps slide_keeps Advance-keeps fuel
          (started r w now) (started-IsServing now h)

    -- With pieces of positive length, a disk that holds the file's bytes where pieces are there, and a
    -- range that does not end before it starts: however the stream ends, what it has handed out is the
    -- file's bytes from `start` on, without a gap and never beyond the end of the range; and every read
    -- stayed inside a piece that was there at that moment.
    pub wait_and_read-IsServing :
        (now : ℕ) → r.start ≤ r.stop → IsServing r w content (wait_and_read r w now).1
    unfolding wait_and_read count_timeout
    wait_and_read-IsServing now h =
        elim (Bool-cases (not (w.valid now) || nat_eq r.piece_length 0)) [
          | inl bad ↦
              rw (bad, wait_and_read)
                (same_keeps (started r w now) (count_timeout r (started r w now))
                  (record {
                    pos = refl;
                    next = refl;
                    yielded = refl;
                    out = refl;
                    boosts = refl;
                    reads = refl;
                  })
                  (started-IsServing now h))
          | inr good ↦ rw (good, wait_and_read) (go-IsServing (r.stop - r.start + 1) now h)
        ]

pub length-slice : (content : ℕ → ℕ) (pos n : ℕ) → length (slice content pos n) ≡ n
unfolding slice
length-slice content pos zero = refl
length-slice content pos (suc n) = ap suc (length-slice content (suc pos) n)
