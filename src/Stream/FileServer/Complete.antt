-- ===== src/Stream/FileServer/Complete.antt =====
-- `wait_and_read` ends, and serves the whole range where the pieces come in time.
use stremio_libtorrent_serve.Prelude.{
  ℕ, zero, suc, ◌+◌, ◌-◌, ◌*◌, ◌≤◌, ◌<◌, ◌≡◌, ◌≢◌, refl, ap, ◌∙◌, Bool, true, false, not, ◌||◌,
  some, List, ◌∷◌, inl, inr, min, arith, ltb, ltb→lt, nat_eq, Bool-cases,
}
use stremio_libtorrent_serve.Stream.FileServer.{
  World, Request, State, End, served, out_of_fuel, Waited, arrived, late, wait_for, slide, budget,
  read_size, piece_at, count_stall, take_bytes, read_chunk, finish, round, continue, go, started,
  wait_and_read,
}
use stremio_libtorrent_serve.Stream.FileServer.Outcome.{
  Outcome, stop, advance, wait_for-arrived, round-Outcome,
}
use stremio_libtorrent_serve.Stream.FileServer.Served.{
  slice, IsFile, IsServing, piece_covers, read_size-le-stop, wait_and_read-IsServing,
}

-- With fuel for its budget, the wait for a piece gives up only once the deadline has passed, and
-- only if the piece is still missing then.
pub wait_for-late :
    (w : World) (fuel piece deadline now : ℕ)
    → deadline - now < fuel
    → (wait_for w fuel piece deadline now).0 ≡ late
    → (deadline ≤ (wait_for w fuel piece deadline now).1)
      × (w.have_piece (wait_for w fuel piece deadline now).1 piece ≡ false)
unfolding wait_for
wait_for-late w zero piece deadline now enough h = absurd (omega arith)
wait_for-late w (suc fuel) piece deadline now enough h =
    ground (arith, wait_for-late w fuel piece deadline (now + 200))

-- A piece that is there at one of the polls of the wait is seen.
wait_for-sees :
    (w : World) (fuel piece deadline now k : ℕ)
    → ((t : ℕ) → w.valid t ≡ true)
    → k < fuel
    → now + k * 200 ≤ deadline
    → w.have_piece (now + k * 200) piece ≡ true
    → (wait_for w fuel piece deadline now).0 ≡ arrived
unfolding wait_for
wait_for-sees w zero piece deadline now k valid enough intime there = absurd (omega arith)
wait_for-sees w (suc fuel) piece deadline now zero valid enough intime there =
    let e : now + 0 * 200 ≡ now = omega arith in
    let here : w.have_piece now piece ≡ true = rw e at there in ground (arith, valid now)
wait_for-sees w (suc fuel) piece deadline now (suc k) valid enough intime there =
    let e : now + suc k * 200 ≡ now + 200 + k * 200 = omega arith in
    let there' : w.have_piece (now + 200 + k * 200) piece ≡ true = rw e at there in
    ground (
      arith,
      valid now,
      wait_for-sees w fuel piece deadline (now + 200) k valid (omega arith) (omega arith) there',
    )

module _ (r : Request) (w : World) where
  advances : {s : State} {x : End × State} → Outcome r w s x → x.0 ≡ served → s.pos < x.1.pos
  advances (stop ne nf k) h = absurd (ne h)
  advances (advance a) h = omega (arith, a.pos)

  stops : {s : State} {x : End × State} → Outcome r w s x → x.0 ≢ out_of_fuel
  stops (stop ne nf k) h = nf h
  stops (advance a) h = cc

  round-ne-out_of_fuel : (s : State) → (round r w s).0 ≢ out_of_fuel
  round-ne-out_of_fuel s = elim (round-Outcome r w s) [
    | inl (e, _) ↦ (λ f. cc (e, f))
    | inr o ↦ stops o
  ]

  round_grows : (s : State) → (round r w s).0 ≡ served → s.pos < (round r w s).1.pos
  unfolding slide
  round_grows s h = elim (round-Outcome r w s) [
    | inl (e, _) ↦ absurd (cc (e, h))
    | inr o ↦ advances o h
  ]

  continue_ends :
      (k : State → End × State) (x : End × State)
      → x.0 ≢ out_of_fuel
      → (x.0 ≡ served → (k x.1).0 ≢ out_of_fuel)
      → (continue r w k x).0 ≢ out_of_fuel
  unfolding continue
  continue_ends k (served, s) n f = f refl
  continue_ends k (_, s) n f = n

  go_ends : (fuel : ℕ) (s : State) → r.stop - s.pos < fuel → (go r w fuel s).0 ≢ out_of_fuel
  unfolding go
  go_ends zero s h = absurd (omega arith)
  go_ends (suc fuel) s h = elim (Bool-cases (ltb s.pos r.stop)) [
    | inl more ↦
        rw (more, go)
          (continue_ends (λ t. go r w fuel t) (round r w s) (round-ne-out_of_fuel s)
            (λ e. go_ends fuel (round r w s).1 (omega (arith, round_grows s e, ltb→lt _ _ more))))
    | inr done ↦ rw (done, go) (cc)
  ]

  -- The generator always ends: the rounds that its loop is given are enough, whatever the torrent
  -- and the disk do.
  pub wait_and_read-ends : (now : ℕ) → (wait_and_read r w now).0 ≢ out_of_fuel
  unfolding wait_and_read
  wait_and_read-ends now = elim (Bool-cases (not (w.valid now) || nat_eq r.piece_length 0)) [
    | inl bad ↦ rw (bad, wait_and_read) (cc)
    | inr good ↦
        rw (good, wait_and_read) (go_ends (r.stop - r.start + 1) (started r w now) (omega arith))
  ]

-- A torrent that keeps up: its handle stays valid, the range lies in its pieces, a piece of it that is
-- waited for is there at some poll within the shorter budget, and a position of the range whose piece is
-- there can be read.
pub record IsPrompt (r : Request) (w : World) : Type 0 where
  pub positive : 0 < r.piece_length
  pub chunk : 0 < r.chunk
  pub valid : (t : ℕ) → w.valid t ≡ true
  pub inside : r.file_offset + r.stop ≤ r.num_pieces * r.piece_length
  pub comes :
      (t piece : ℕ)
      → piece < r.num_pieces
      → (k : ℕ) × (k * 200 ≤ min r.timeout r.first_timeout)
        × (w.have_piece (t + k * 200) piece ≡ true)
  pub reads :
      (at pos n : ℕ)
      → pos + n ≤ r.stop
      → w.have_piece at (piece_at r pos) ≡ true
      → 0 < n
      → (b : ℕ) × (bytes : List ℕ) × (w.read at pos n ≡ some (b ∷ bytes))

module _ (r : Request) (w : World) (prompt : IsPrompt r w) where
  read_size_pos : (pos : ℕ) → pos < r.stop → 0 < read_size r pos
  unfolding read_size
  read_size_pos pos h = omega (arith, prompt.chunk, piece_covers r prompt.positive pos)

  piece_inside : (pos : ℕ) → pos < r.stop → piece_at r pos < r.num_pieces
  unfolding piece_at
  piece_inside pos h = grind (arith, prompt.positive, prompt.inside)

  wait-arrived :
      (b piece now : ℕ)
      → piece < r.num_pieces
      → min r.timeout r.first_timeout ≤ b
      → (wait_for w (b + 1) piece (now + b) now).0 ≡ arrived
  wait-arrived b piece now inside h =
      let (k, intime, there) = prompt.comes now piece inside in
      wait_for-sees w (b + 1) piece (now + b) now k prompt.valid (omega arith) (omega arith) there

  finish-served :
      (had_to_wait : Bool) (s : State) (waited : Waited)
      → waited ≡ arrived
      → w.have_piece s.now (piece_at r s.pos) ≡ true
      → s.pos < r.stop
      → (finish r w had_to_wait s waited).0 ≡ served
  unfolding finish count_stall read_chunk take_bytes
  finish-served had_to_wait s waited e there h =
      let (b, bytes, read) =
        prompt.reads s.now s.pos (read_size r s.pos) (read_size-le-stop r prompt.positive s.pos h)
          there (read_size_pos s.pos h) in
      rw e (rw read refl)

  round-served : (s : State) → s.pos < r.stop → (round r w s).0 ≡ served
  unfolding round slide
  round-served s h =
      let b = budget r s in
      let e = wait-arrived b (piece_at r s.pos) s.now (piece_inside s.pos h) (ground arith) in
      rw (prompt.valid s.now) (
        finish-served (not (w.have_piece s.now (piece_at r s.pos)))
          (record (slide r s) { now = (wait_for w (b + 1) (piece_at r s.pos) (s.now + b) s.now).1 })
          (wait_for w (b + 1) (piece_at r s.pos) (s.now + b) s.now).0 e
          (wait_for-arrived w _ _ _ _ e).0 h)

  continue_served :
      (k : State → End × State) (x : End × State)
      → x.0 ≡ served
      → ((k x.1).0 ≡ served) × (r.stop ≤ (k x.1).1.pos)
      → ((continue r w k x).0 ≡ served) × (r.stop ≤ (continue r w k x).1.pos)
  unfolding continue
  continue_served k (served, s) e h = h
  continue_served k (_, s) e h = absurd (cc e)

  go-served :
      (fuel : ℕ) (s : State)
      → r.stop - s.pos < fuel
      → ((go r w fuel s).0 ≡ served) × (r.stop ≤ (go r w fuel s).1.pos)
  unfolding go
  go-served zero s h = absurd (omega arith)
  go-served (suc fuel) s h = elim (Bool-cases (ltb s.pos r.stop)) [
    | inl more ↦
        rw (more, go)
          (let more' = ltb→lt _ _ more in
            let e = round-served s more' in
            continue_served (λ t. go r w fuel t) (round r w s) e
              (go-served fuel (round r w s).1 (omega (arith, round_grows r w s e))))
    | inr done ↦ rw (done, go) (refl, ground arith)
  ]

  -- Where the torrent keeps up (its handle stays valid, the range lies in the torrent, the torrent's
  -- pieces, of positive length, come within the shorter of the two waits, chunks are not empty, and what
  -- is there of the range can be read), the disk holds the file's bytes where pieces are there, and the
  -- range does not end before it starts, the generator runs to the end of the range and hands out exactly
  -- the file's bytes from `start` to before `stop`.
  pub wait_and_read_complete :
      (content : ℕ → ℕ) (now : ℕ)
      → IsFile r w content
      → r.start ≤ r.stop
      → ((wait_and_read r w now).0 ≡ served)
        × ((wait_and_read r w now).1.out ≡ slice content r.start (r.stop - r.start))
  unfolding wait_and_read
  wait_and_read_complete content now file h =
      let ok : (not (w.valid now) || nat_eq r.piece_length 0) ≡ false =
        ground (arith, prompt.valid now, prompt.positive) in
      let (e, reached) = go-served (r.stop - r.start + 1) (started r w now) (omega arith) in
      let v : IsServing r w content (go r w (r.stop - r.start + 1) (started r w now)).1 =
        rw (ok, wait_and_read) at
          (wait_and_read-IsServing r prompt.positive w content file now h) in
      rw ok (e, v.out ∙ ap (slice content r.start) (omega (arith, v.pos, v.bound)))
