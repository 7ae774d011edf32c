-- ===== src/Cache/Owner.antt =====
-- cache.py: the claim on a cache root (`write_owner`, `release_owner`, `evictor_may_run`), and one
-- round of the loop of `run_evictor`. Reading the claim and writing it is one step here, and the
-- root can be written. A field that the claim's file lacks is the empty text, or 0. Times are whole
-- ticks.
pub mod Exclusion
pub mod Sweeps
use stremio_libtorrent_serve.Prelude.{
  ℕ, ◌+◌, ◌-◌, Bool, true, false, not, ◌&&◌, ◌||◌, Option, none, some, List, [], ◌∷◌, leb, ltb,
  if◌then◌else◌, ◌==◌, contains, add_to,
}
use stremio_libtorrent_serve.Prelude.Text.{Text, Text_eq}

-- A process: the token minted when it started, and its host.
pub record Server : Type 0 where
  pub token : Text
  pub host : Text

pub record Claim : Type 0 where
  pub token : Text
  pub host : Text
  pub heartbeat : ℕ

-- The claim file of one root, and the processes whose `_released` set holds that root.
pub record Root : Type 0 where
  pub claim : Option Claim
  pub released : List Text

unfoldable pub write_owner : Server → ℕ → Root → Root
write_owner srv now root = if contains root.released srv.token then root else record root {
  claim = some (record { token = srv.token; host = srv.host; heartbeat = now });
}

abbrev pub without_own : Server → Option Claim → Option Claim
without_own srv none = none
without_own srv (some c) = if c.token == srv.token then none else some c

unfoldable pub release_owner : Server → Root → Root
release_owner srv root = record {
  claim = without_own srv root.claim;
  released = add_to root.released srv.token;
}

-- A claim that keeps this process from evicting.
abbrev pub blocks : Server → ℕ → ℕ → Option Claim → Bool
blocks srv stale_after now none = false
blocks srv stale_after now (some c) =
    not (c.token == srv.token) && (not (c.host == srv.host) && leb (now - c.heartbeat) stale_after)

unfoldable pub evictor_may_run : Server → ℕ → ℕ → Root → Bool × Root
unfolding write_owner
evictor_may_run srv stale_after now root =
    if blocks srv stale_after now root.claim
    then (false, root)
    else (true, write_owner srv now root)

pub record Settings : Type 0 where
  pub stale_after : ℕ
  pub resume_retention_days : ℕ
  pub resume_sweep_interval : ℕ

-- The variables of the loop.
pub record Loop : Type 0 where
  pub next_sweep : ℕ
  pub blocked : Bool

-- What one round did: the loop returned; it held off, with the error logged or not; or it ran an
-- eviction pass, after a sweep of the records or not.
pub data Cycle : Type 0 where
  stopped : Cycle
  held_off : Bool → Cycle
  evicted : Bool → Cycle

unfoldable pub sweep_due : Settings → ℕ → Loop → Bool
sweep_due cfg now loop = ltb 0 cfg.resume_retention_days && leb loop.next_sweep now

abbrev pub after_claim : Settings → ℕ → Loop → Bool × Root → Cycle × Root × Loop
after_claim cfg now loop (false, root) =
    (held_off (not loop.blocked), root, record loop { blocked = true })
after_claim cfg now loop (true, root) = (
  evicted (sweep_due cfg now loop),
  root,
  record {
    next_sweep =
        if sweep_due cfg now loop then now + cfg.resume_sweep_interval else loop.next_sweep;
    blocked = false;
  },
)

-- one round of `run_evictor`, after its sleep
unfoldable pub cycle : Server → Settings → ℕ → Root → Loop → Cycle × Root × Loop
unfolding evictor_may_run
cycle srv cfg now root loop =
    if contains root.released srv.token
    then (stopped, root, loop)
    else after_claim cfg now loop (evictor_may_run srv cfg.stale_after now root)
