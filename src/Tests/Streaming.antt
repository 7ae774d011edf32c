-- ===== src/Tests/Streaming.antt =====
-- A stream of 40 bytes of a file, over pieces of 16 bytes that arrive after 20 seconds.
use stremio_libtorrent_serve.Prelude.{
  ℕ, suc, ◌+◌, ◌-◌, ◌*◌, ◌&&◌, ltb, ◌≤◌, ◌<◌, ◌≡◌, ◌≢◌, refl, ap, true, Option, some, List, ◌∷◌,
  min, arith, leb, length,
}
use stremio_libtorrent_serve.Stream.FileServer.{
  World, Request, served, out_of_fuel, wait_and_read, wait_for, late,
}
use stremio_libtorrent_serve.Stream.FileServer.Served.{
  slice, length-slice, IsFile, IsServing, wait_and_read-IsServing,
}
use stremio_libtorrent_serve.Stream.FileServer.Complete.{
  IsPrompt, wait_and_read-ends, wait_and_read_complete,
}

abbrev content : ℕ → ℕ
content i = i + 7

-- nine pieces, and a file of 50 bytes; every read is short: six bytes at most
abbrev world : World
world = record {
  valid = λ t. true;
  have_piece = λ t piece. leb 20000 t && ltb piece 9;
  read = λ t pos n. some (slice content pos (min n (min 6 (50 - pos))));
  consume = λ pos. 5;
}

abbrev request : Request
request = record {
  piece_length = 16;
  file_offset = 5;
  num_pieces = 9;
  start = 3;
  stop = 43;
  timeout = 30000;
  first_timeout = 120000;
  chunk = 32;
  window_bytes = 64;
  step_ms = 50;
  count = true;
  yield_to_viewer = true;
}

world-IsFile : IsFile request world content
world-IsFile = record { read_ok = λ at pos n bytes there inside read. short pos n bytes read }
  where
    short :
        (pos n : ℕ) (bytes : List ℕ)
        → ◌≡◌ {A = Option (List ℕ)}
            (some (slice content pos (min n (min 6 (50 - pos)))))
            (some bytes)
        → (length bytes ≤ n) × (bytes ≡ slice content pos (length bytes))
    short pos n bytes e =
        let e' : slice content pos (min n (min 6 (50 - pos))) ≡ bytes = cc in
        rw (← e') (rw length-slice (omega arith, refl))

wait_and_read-IsServing_example : IsServing request world content (wait_and_read request world 0).1
wait_and_read-IsServing_example =
    wait_and_read-IsServing request (omega arith) world content world-IsFile 0 (omega arith)

wait_and_read-ends_example : (wait_and_read request world 0).0 ≢ out_of_fuel
wait_and_read-ends_example = wait_and_read-ends request world 0

short_read :
    (pos n : ℕ)
    → 0 < n
    → pos + n ≤ 43
    → (b : ℕ) × (bytes : List ℕ) × (◌≡◌ {A = Option (List ℕ)}
        (some (slice content pos (min n (min 6 (50 - pos)))))
        (some (b ∷ bytes)))
unfolding slice
short_read pos n h le =
    let e : min n (min 6 (50 - pos)) ≡ suc (min n (min 6 (50 - pos)) - 1) = omega arith in
    (
      content pos,
      slice content (suc pos) (min n (min 6 (50 - pos)) - 1),
      ap (λ k. some (slice content pos k)) e,
    )

polled : (t piece : ℕ) → piece < 9 → (leb 20000 (t + 100 * 200) && ltb piece 9) ≡ true
polled t piece h = ground (arith, h)

world-IsPrompt : IsPrompt request world
world-IsPrompt = record {
  positive = omega arith;
  chunk = omega arith;
  valid = λ t. refl;
  inside = omega arith;
  comes = λ t piece h. (100, omega arith, polled t piece h);
  reads = λ at pos n le there h. short_read pos n h le;
}

wait_and_read_complete_example :
    ((wait_and_read request world 0).0 ≡ served)
    × ((wait_and_read request world 0).1.out ≡ slice content 3 40)
wait_and_read_complete_example =
    wait_and_read_complete request world world-IsPrompt content 0 world-IsFile (omega arith)

-- two polls, at 0 and at 200 milliseconds, and no piece
gives_up : (wait_for world 301 0 300 0).0 ≡ late
unfolding wait_for
gives_up = refl
