-- ===== src/Cache/Owner/Sweeps.antt =====
-- How often one server's loop sweeps the records.
use stremio_libtorrent_serve.Prelude.{ℕ, ◌+◌, ◌<◌, ◌≡◌, ◌≢◌, true, List, [], ◌∷◌, arith, All}
use stremio_libtorrent_serve.Cache.Owner.{
  Server, Root, Settings, Loop, Cycle, evicted, sweep_due, cycle,
}

-- A round's time, and the root as it finds it: other servers may have changed it in between.
pub record Visit : Type 0 where
  pub now : ℕ
  pub root : Root

unfoldable pub rounds : Server → Settings → Loop → List Visit → List Cycle
rounds srv cfg loop [] = []
rounds srv cfg loop (v ∷ visits) =
    let (c, _, loop') = cycle srv cfg v.now v.root loop in c ∷ rounds srv cfg loop' visits

round-next_sweep :
    (srv : Server) (cfg : Settings) (now : ℕ) (root : Root) (loop : Loop)
    → (cycle srv cfg now root loop).0 ≡ evicted true
    → (cycle srv cfg now root loop).2.next_sweep ≡ now + cfg.resume_sweep_interval
unfolding cycle
round-next_sweep srv cfg now root loop h = ground (arith, h)

round_early :
    (srv : Server) (cfg : Settings) (now : ℕ) (root : Root) (loop : Loop)
    → now < loop.next_sweep
    → ((cycle srv cfg now root loop).0 ≢ evicted true)
      × ((cycle srv cfg now root loop).2.next_sweep ≡ loop.next_sweep)
unfolding cycle sweep_due
round_early srv cfg now root loop h = ground arith

rounds_early :
    (srv : Server) (cfg : Settings) (loop : Loop) (visits : List Visit)
    → All (λ (v : Visit). v.now < loop.next_sweep) visits
    → All (λ c. c ≢ evicted true) (rounds srv cfg loop visits)
unfolding rounds
rounds_early srv cfg loop [] h = tt
rounds_early srv cfg loop (v ∷ visits) h =
    let (quiet, same) = round_early srv cfg v.now v.root loop h.0 in
    (quiet, rounds_early srv cfg (cycle srv cfg v.now v.root loop).2 visits (rw same h.1))

-- After a round that swept, no round sweeps again before a whole interval has passed, whatever other
-- servers do to the claim in between.
pub cycle_sweeps_apart :
    (srv : Server) (cfg : Settings) (now : ℕ) (root : Root) (loop : Loop)
    → (cycle srv cfg now root loop).0 ≡ evicted true
    → (visits : List Visit) → All (λ (v : Visit). v.now < now + cfg.resume_sweep_interval) visits
    → All (λ c. c ≢ evicted true) (rounds srv cfg (cycle srv cfg now root loop).2 visits)
cycle_sweeps_apart srv cfg now root loop h visits early =
    rounds_early srv cfg (cycle srv cfg now root loop).2 visits
      (rw (round-next_sweep srv cfg now root loop h) early)
