-- ===== src/Cache/Owner/Exclusion.antt =====
-- One evictor at a time: while a server refreshes its claim in time, no other server evicts.
use stremio_libtorrent_serve.Prelude.{
  ℕ, ◌-◌, ◌≤◌, ◌≡◌, ◌≢◌, refl, ◌∙◌, Bool, true, false, some, List, [], ◌∷◌, arith, beq_refl, All,
  contains, contains-add_to,
}
use stremio_libtorrent_serve.Prelude.Text.{Text, Text_eq, text_eq_iff}
use stremio_libtorrent_serve.Cache.Owner.{
  Server, Claim, Root, Settings, Loop, Cycle, stopped, evicted, release_owner, sweep_due, cycle,
}

-- A round of some server, with its own settings and loop variables, at some time.
pub record Turn : Type 0 where
  pub server : Server
  pub settings : Settings
  pub loop : Loop
  pub now : ℕ

abbrev pub turn : Turn → Root → Cycle × Root × Loop
turn t root = cycle t.server t.settings t.now root t.loop

unfoldable pub after_turns : Root → List Turn → Root
after_turns root [] = root
after_turns root (t ∷ turns) = after_turns (turn t root).1 turns

unfoldable pub cycles : Root → List Turn → List Cycle
cycles root [] = []
cycles root (t ∷ turns) = (turn t root).0 ∷ cycles (turn t root).1 turns

-- The root is claimed by a server, since a time.
abbrev pub IsHeldBy : Server → ℕ → Root → Type 0
IsHeldBy srv since root =
    root.claim ≡ some (record { token = srv.token; host = srv.host; heartbeat = since })

-- Another server's round, before the claim is stale by that server's own limit.
abbrev pub IsRival : Server → ℕ → Turn → Type 0
IsRival srv since t =
    (t.server.token ≢ srv.token)
    × (t.server.host ≢ srv.host)
    × (t.now - since ≤ t.settings.stale_after)

abbrev pub NoEviction : Cycle → Type 0
NoEviction c = (swept : Bool) → c ≢ evicted swept

-- A round that evicts has taken the claim.
pub evicted-IsHeldBy :
    (srv : Server) (cfg : Settings) (now : ℕ) (root : Root) (loop : Loop) (swept : Bool)
    → (cycle srv cfg now root loop).0 ≡ evicted swept
    → IsHeldBy srv now (cycle srv cfg now root loop).1
unfolding cycle
evicted-IsHeldBy srv cfg now root loop swept h = ground (arith, h)

rival_held_off :
    (srv : Server) (since : ℕ) (root : Root) (t : Turn)
    → IsHeldBy srv since root
    → IsRival srv since t
    → NoEviction (turn t root).0 × ((turn t root).1 ≡ root)
unfolding cycle
rival_held_off srv since root t held (token, host, fresh) =
    ground (arith, held, text_eq_iff srv.token t.server.token, text_eq_iff srv.host t.server.host)

rivals_held_off :
    (srv : Server) (since : ℕ) (root : Root) (turns : List Turn)
    → IsHeldBy srv since root
    → All (IsRival srv since) turns
    → All NoEviction (cycles root turns) × (after_turns root turns ≡ root)
unfolding cycles after_turns
rivals_held_off srv since root [] held rivals = (tt, refl)
rivals_held_off srv since root (t ∷ turns) held rivals =
    let (off, same) = rival_held_off srv since root t held rivals.0 in
    rw same
      (let (rest, kept) = rivals_held_off srv since root turns held rivals.1 in ((off, rest), kept))

own_turn :
    (srv : Server) (since later : ℕ) (root : Root) (cfg : Settings) (loop : Loop)
    → IsHeldBy srv since root
    → contains root.released srv.token ≡ false
    → (cycle srv cfg later root loop).0 ≡ evicted (sweep_due cfg later loop)
unfolding cycle
own_turn srv since later root cfg loop held going =
    ground (arith, held, going, text_eq_iff srv.token srv.token)

evicted-going :
    (srv : Server) (cfg : Settings) (now : ℕ) (root : Root) (loop : Loop) (swept : Bool)
    → (cycle srv cfg now root loop).0 ≡ evicted swept
    → contains (cycle srv cfg now root loop).1.released srv.token ≡ false
unfolding cycle
evicted-going srv cfg now root loop swept h = ground (arith, h)

-- When a server's round has run an eviction pass at `now`, no round of another server, on another
-- host and before the claim is stale for it, runs one, however many there are and in whatever order;
-- and the server's own next round runs a pass again.
pub cycle_excludes :
    (srv : Server) (cfg : Settings) (now : ℕ) (root : Root) (loop : Loop) (swept : Bool)
    → (cycle srv cfg now root loop).0 ≡ evicted swept
    → (turns : List Turn) → All (IsRival srv now) turns
    → let claimed = (cycle srv cfg now root loop).1 in
      All NoEviction (cycles claimed turns)
      × ((cfg' : Settings) (later : ℕ) (loop' : Loop)
          → (cycle srv cfg' later (after_turns claimed turns) loop').0
            ≡ evicted (sweep_due cfg' later loop'))
cycle_excludes srv cfg now root loop swept h turns rivals =
    let claimed : Root = (cycle srv cfg now root loop).1 in
    let held = evicted-IsHeldBy srv cfg now root loop swept h in
    let (off, same) = rivals_held_off srv now claimed turns held rivals in
    (
      off,
      λ cfg' later loop'. rw same (
          own_turn srv now later claimed cfg' loop' held
            (evicted-going srv cfg now root loop swept h)),
    )

turn-released : (t : Turn) (root : Root) → (turn t root).1.released ≡ root.released
unfolding cycle
turn-released t root = ground arith

after_turns-released :
    (turns : List Turn) (root : Root) → (after_turns root turns).released ≡ root.released
unfolding after_turns
after_turns-released [] root = refl
after_turns-released (t ∷ turns) root =
    after_turns-released turns (turn t root).1 ∙ turn-released t root

released-stops :
    (srv : Server) (root : Root) (cfg : Settings) (now : ℕ) (loop : Loop)
    → contains root.released srv.token ≡ true
    → cycle srv cfg now root loop ≡ (stopped, root, loop)
unfolding cycle
released-stops srv root cfg now loop h = rw h refl

release_owner-released :
    (srv : Server) (root : Root) → contains (release_owner srv root).released srv.token ≡ true
unfolding release_owner
release_owner-released srv root =
    rw (contains-add_to root.released srv.token srv.token, beq_refl {A = Text} srv.token) refl

-- A server that has given a root back never evicts there again: after any rounds of any servers, in
-- whatever order, its next round stops and leaves the root as it is. A claim of its own is gone, so that
-- another running server evicts in a round that comes next; a claim of another server is left as it was.
pub release_owner-frees :
    (srv other : Server) (root : Root) (cfg : Settings) (now : ℕ) (loop : Loop) (turns : List Turn)
    → let left = after_turns (release_owner srv root) turns in
      (cycle srv cfg now left loop ≡ (stopped, left, loop))
      × ((c : Claim)
          → root.claim ≡ some c
          → c.token ≢ srv.token
          → (release_owner srv root).claim ≡ some c)
      × ((since : ℕ)
          → IsHeldBy srv since root
          → contains root.released other.token ≡ false
          → other.token ≢ srv.token
          → (cycle other cfg now (release_owner srv root) loop).0
            ≡ evicted (sweep_due cfg now loop))
unfolding cycle release_owner
release_owner-frees srv other root cfg now loop turns = (
  let left : Root = after_turns (release_owner srv root) turns in
      released-stops srv left cfg now loop (
        rw (after_turns-released turns (release_owner srv root)) (release_owner-released srv root)),
  λ c e ne. ground (arith, e, text_eq_iff c.token srv.token),
  λ since held going ne. ground (
    arith,
    held,
    going,
    text_eq_iff srv.token srv.token,
    text_eq_iff srv.token other.token,
    contains-add_to root.released srv.token other.token,
  ),
)
