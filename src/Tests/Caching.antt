-- ===== src/Tests/Caching.antt =====
-- Two servers that share a cache root, and a cache of four entries that is over its budget.
use stremio_libtorrent_serve.Prelude.{
  ℕ, ◌≤◌, ◌<◌, ◌≡◌, ◌≢◌, refl, true, false, not, some, none, [], ◌∷◌, arith, All, keep, contains,
  ap, get_or, nat_eq,
}
use stremio_libtorrent_serve.Prelude.Text.{Text, Text_eq, codes}
use stremio_libtorrent_serve.Cache.Eviction.{Item, total_size, older, candidates, select_evictions}
use stremio_libtorrent_serve.Cache.Eviction.Choice.{IsChoice, IsIdle, select_evictions-IsChoice}
use stremio_libtorrent_serve.Prelude.Sort.{IsSorted}
use mathlib.Core.List.{Perm}
use stremio_libtorrent_serve.Cache.Pass.{Scene}
use stremio_libtorrent_serve.Cache.Owner.{
  Server, Claim, Root, Settings, Loop, stopped, evicted, release_owner, sweep_due, cycle,
  evictor_may_run,
}
use stremio_libtorrent_serve.Cache.Owner.Exclusion.{
  Turn, after_turns, cycles, IsHeldBy, NoEviction, cycle_excludes, release_owner-frees,
}
use stremio_libtorrent_serve.Cache.Owner.Sweeps.{Visit}

abbrev entry : Text → ℕ → ℕ → Item
entry name size mtime = record { name = name; size = size; mtime = mtime }

abbrev hash : Text
hash = codes "ab12"

abbrev scene : Scene
scene = record {
  entries =
      entry (codes "film") 50 1
      ∷ entry (codes "pack") 40 2
      ∷ entry (codes ".ab12.parts") 30 3
      ∷ entry (codes "old") 20 4
      ∷ [];
  now = 1000;
  grace = 60;
  engine = none;
  pins = record { info_hash = codes "AB12"; name = codes "pack" } ∷ [];
  name_index = [];
}

abbrev here : Server
here = record { token = codes "t1"; host = codes "h1" }

abbrev there : Server
there = record { token = codes "t2"; host = codes "h2" }

abbrev settings : Settings
settings = record { stale_after = 300; resume_retention_days = 30; resume_sweep_interval = 3600 }

abbrev unclaimed : Root
unclaimed = record { claim = none; released = [] }

abbrev idle : Loop
idle = record { next_sweep = 0; blocked = false }

abbrev rival_turn : Turn
rival_turn = record { server = there; settings = settings; loop = idle; now = 250 }

abbrev claimed : Root
claimed = (cycle here settings 100 unclaimed idle).1

here-evicts : (cycle here settings 100 unclaimed idle).0 ≡ evicted true
unfolding cycle evictor_may_run sweep_due contains
here-evicts = refl

tokens-differ : codes "t2" ≢ codes "t1"
tokens-differ = λ e.
    let same : nat_eq (get_or (codes "t2") 1 0) 49 ≡ true = ap (λ t. nat_eq (get_or t 1 0) 49) e in
    cc same

hosts-differ : codes "h2" ≢ codes "h1"
hosts-differ = λ e.
    let same : nat_eq (get_or (codes "h2") 1 0) 49 ≡ true = ap (λ t. nat_eq (get_or t 1 0) 49) e in
    cc same

cycle_excludes_example :
    All NoEviction (cycles claimed (rival_turn ∷ []))
    × ((cfg' : Settings) (later : ℕ) (loop' : Loop)
        → (cycle here cfg' later (after_turns claimed (rival_turn ∷ [])) loop').0
          ≡ evicted (sweep_due cfg' later loop'))
cycle_excludes_example =
    cycle_excludes here settings 100 unclaimed idle true here-evicts (rival_turn ∷ [])
      ((tokens-differ, hosts-differ, omega arith), tt)

release_owner-frees_example :
    (cycle here settings 200 (after_turns (release_owner here claimed) (rival_turn ∷ [])) idle
      ≡ (stopped, after_turns (release_owner here claimed) (rival_turn ∷ []), idle))
    × ((c : Claim)
        → claimed.claim ≡ some c
        → c.token ≢ here.token
        → (release_owner here claimed).claim ≡ some c)
    × ((since : ℕ)
        → IsHeldBy here since claimed
        → contains claimed.released there.token ≡ false
        → there.token ≢ here.token
        → (cycle there settings 200 (release_owner here claimed) idle).0
          ≡ evicted (sweep_due settings 200 idle))
release_owner-frees_example =
    release_owner-frees here there claimed settings 200 idle (rival_turn ∷ [])

abbrev visit : Visit
visit = record { now = 900; root = claimed }

select_evictions-IsChoice_example :
    (total_size scene.entries ≤ 100 → select_evictions (λ b. b) scene.entries 100 (hash ∷ []) ≡ [])
    × (100 < total_size scene.entries
        → IsChoice
            (total_size scene.entries)
            100
            (candidates scene.entries (hash ∷ []))
            (select_evictions (λ b. b) scene.entries 100 (hash ∷ [])))
    × IsSorted older (candidates scene.entries (hash ∷ []))
    × Perm
        (candidates scene.entries (hash ∷ []))
        (keep (λ i. not (contains (hash ∷ []) i.name)) scene.entries)
    × All (IsIdle (hash ∷ [])) (candidates scene.entries (hash ∷ []))
select_evictions-IsChoice_example = select_evictions-IsChoice (λ b. b) scene.entries 100 (hash ∷ [])
