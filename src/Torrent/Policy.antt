-- ===== src/Torrent/Policy.antt =====
-- torrent/engine.py: the decisions about seeding, download caps and the order of pieces, and the
-- loops that apply them to the torrents.
pub mod Laws
use stremio_libtorrent_serve.Prelude.{
  ℕ, ◌+◌, ◌-◌, ◌*◌, Bool, true, false, not, ◌&&◌, ◌||◌, Option, none, some, List, [], ◌∷◌, map, leb,
  ltb, if◌then◌else◌, is_some,
}
use stremio_libtorrent_serve.Prelude.Int.{ℤ, pos, leb_ℤ}

abbrev pub ltb_ℤ : ℤ → ℤ → Bool
ltb_ℤ a b = not (leb_ℤ b a)

unfoldable pub idle_download_limit : Bool → Bool → ℤ → ℤ
idle_download_limit this_active any_active idle_limit =
    if ltb_ℤ (pos 0) idle_limit && (any_active && not this_active) then idle_limit else pos 0

unfoldable pub should_resume_on_open : Bool → Bool → Bool
should_resume_on_open paused finished = paused && not finished

-- Marks are bytes; a `high` that is not positive, a negative `low`, or `low` at `high` or above is a
-- misconfiguration.
unfoldable pub adaptive_sequential : ℕ → Bool → ℤ → ℤ → Bool
adaptive_sequential buffer_bytes currently_sequential low high =
    if leb_ℤ high (pos 0) || (ltb_ℤ low (pos 0) || leb_ℤ high low)
    then true
    else if leb_ℤ high (pos buffer_bytes)
    then false
    else if leb_ℤ (pos buffer_bytes) low
    then true
    else currently_sequential

-- The owner's settings for seeding. Times are seconds.
pub record SeedPolicy : Type 0 where
  pub seed_on_complete : Bool
  pub max_seed_minutes : ℕ

unfoldable pub should_stop_seeding : SeedPolicy → Bool → Bool → Option ℕ → ℕ → Bool
should_stop_seeding cfg pinned finished none now = false
should_stop_seeding cfg pinned finished (some completed_at) now =
    if pinned || not finished
    then false
    else if not cfg.seed_on_complete
    then true
    else ltb 0 cfg.max_seed_minutes && leb (cfg.max_seed_minutes * 60) (now - completed_at)

-- What the seeding policy reads of a torrent, and what it writes.
pub record Seeding : Type 0 where
  pub has_metadata : Bool
  pub finished : Bool
  pub pinned : Bool
  pub completed_at : Option ℕ
  pub paused : Bool

unfoldable pub note_completion : ℕ → Seeding → Seeding
note_completion now t =
    if t.finished
    then record t { completed_at = if is_some t.completed_at then t.completed_at else some now }
    else record t { completed_at = none }

-- the body of the loop of `_enforce_seed_policy`
unfoldable pub enforce_one : SeedPolicy → ℕ → Seeding → Seeding
unfolding note_completion should_stop_seeding
enforce_one cfg now t =
    if not t.has_metadata
    then t
    else let t' = note_completion now t in
      if not t'.paused && should_stop_seeding cfg t'.pinned t'.finished t'.completed_at now
      then record t' { paused = true }
      else t'

unfoldable pub enforce_seed_policy : SeedPolicy → ℕ → List Seeding → List Seeding
unfolding enforce_one
enforce_seed_policy cfg now torrents =
    if cfg.seed_on_complete && leb cfg.max_seed_minutes 0
    then torrents
    else map (enforce_one cfg now) torrents

-- `_apply_bandwidth_policy`: a torrent with its open streams and its download cap.
pub record Capped : Type 0 where
  pub active : Bool
  pub limit : ℤ

unfoldable pub any_active : List Capped → Bool
any_active [] = false
any_active (t ∷ torrents) = t.active || any_active torrents

unfoldable pub apply_bandwidth_policy : ℤ → List Capped → List Capped
apply_bandwidth_policy idle_limit torrents =
    if leb_ℤ idle_limit (pos 0)
    then torrents
    else map
        (λ (t : Capped). record t {
          limit = idle_download_limit t.active (any_active torrents) idle_limit;
        })
        torrents
