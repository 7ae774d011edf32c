-- ===== src/Torrent/Policy/Laws.antt =====
-- What the policies do to the torrents over time.
use stremio_libtorrent_serve.Prelude.{
  ℕ, ◌-◌, ◌*◌, ◌≤◌, ◌<◌, ◌≡◌, ◌≢◌, ◌⊎◌, refl, ap, ◌∙◌, Bool, true, false, not, ◌&&◌, ◌||◌, none,
  some, List, [], ◌∷◌, arith, leb, ltb, map, if◌then◌else◌, All,
}
use stremio_libtorrent_serve.Prelude.Int.{ℤ, pos, leb_ℤ}
use stremio_libtorrent_serve.Torrent.Policy.{
  idle_download_limit, adaptive_sequential, ltb_ℤ, SeedPolicy, Seeding, enforce_one, Capped,
  any_active, apply_bandwidth_policy,
}

-- Passes of the seeding policy over one torrent, at these times.
unfoldable pub passes : SeedPolicy → List ℕ → Seeding → Seeding
passes cfg [] t = t
passes cfg (now ∷ times) t = passes cfg times (enforce_one cfg now t)

-- Whether seeding has lasted long enough at one of these times, if it was complete at `since`.
unfoldable pub any_due : SeedPolicy → ℕ → List ℕ → Bool
any_due cfg since [] = false
any_due cfg since (now ∷ times) =
    (not cfg.seed_on_complete
      || (ltb 0 cfg.max_seed_minutes && leb (cfg.max_seed_minutes * 60) (now - since)))
    || any_due cfg since times

-- A complete torrent that the policy may stop.
pub record IsComplete (since : ℕ) (t : Seeding) : Type 0 where
  pub loaded : t.has_metadata ≡ true
  pub finished : t.finished ≡ true
  pub pinned : t.pinned ≡ false
  pub completed_at : t.completed_at ≡ some since

enforce_one-IsComplete :
    (cfg : SeedPolicy) (since now : ℕ) (t : Seeding)
    → IsComplete since t
    → IsComplete since (enforce_one cfg now t)
unfolding enforce_one
enforce_one-IsComplete cfg since now t h = ground arith

enforce_one-paused :
    (cfg : SeedPolicy) (since now : ℕ) (t : Seeding)
    → IsComplete since t
    → (enforce_one cfg now t).paused ≡ (
        t.paused
        || (not cfg.seed_on_complete
            || (ltb 0 cfg.max_seed_minutes && leb (cfg.max_seed_minutes * 60) (now - since))))
unfolding enforce_one
enforce_one-paused cfg since now t h = ground arith

or_assoc : (a b c : Bool) → ((a || b) || c) ≡ (a || (b || c))
or_assoc a b c = ground arith

passes-paused :
    (cfg : SeedPolicy) (since : ℕ) (times : List ℕ) (t : Seeding)
    → IsComplete since t
    → (passes cfg times t).paused ≡ (t.paused || any_due cfg since times)
unfolding passes any_due
passes-paused cfg since [] t h = ground arith
passes-paused cfg since (now ∷ times) t h =
    rw
      (passes-paused cfg since times (enforce_one cfg now t)
        (enforce_one-IsComplete cfg since now t h))
      (rw (enforce_one-paused cfg since now t h) (or_assoc t.paused _ _))

first_pass :
    (cfg : SeedPolicy) (now : ℕ) (t : Seeding)
    → t.has_metadata ≡ true
    → t.finished ≡ true
    → t.pinned ≡ false
    → t.completed_at ≡ none
    → enforce_one cfg now t ≡ enforce_one cfg now (record t { completed_at = some now })
unfolding enforce_one
first_pass cfg now t loaded finished pinned fresh = ground arith

-- A loaded, unpinned torrent that has all its wanted data and is seen complete for the first time at
-- `now` is stopped by the passes from `now` on exactly when seeding is off, or a pass comes as many
-- minutes after `now` as seeding is to last.
pub passes_stop :
    (cfg : SeedPolicy) (now : ℕ) (times : List ℕ) (t : Seeding)
    → t.has_metadata ≡ true
    → t.finished ≡ true
    → t.pinned ≡ false
    → t.completed_at ≡ none
    → t.paused ≡ false
    → (passes cfg (now ∷ times) t).paused ≡ any_due cfg now (now ∷ times)
unfolding passes
passes_stop cfg now times t loaded finished pinned fresh going =
    let t' : Seeding = record t { completed_at = some now } in
    let same = first_pass cfg now t loaded finished pinned fresh in
    let whole =
      passes-paused cfg now (now ∷ times) t'
        (record { loaded = loaded; finished = finished; pinned = pinned; completed_at = refl }) in
    ap (λ (x : Seeding). (passes cfg times x).paused) same
    ∙ (whole ∙ ap (λ b. b || any_due cfg now (now ∷ times)) going)

spared :
    (cfg : SeedPolicy) (now : ℕ) (t : Seeding)
    → (t.pinned ≡ true) ⊎ (t.finished ≡ false)
    → ((enforce_one cfg now t).paused ≡ t.paused)
      × ((enforce_one cfg now t).pinned ≡ t.pinned)
      × ((enforce_one cfg now t).finished ≡ t.finished)
unfolding enforce_one
spared cfg now t h = ground arith

-- However often the policy runs, it never stops a pinned torrent, nor one that is still missing
-- wanted data.
pub passes_spare :
    (cfg : SeedPolicy) (times : List ℕ) (t : Seeding)
    → (t.pinned ≡ true) ⊎ (t.finished ≡ false)
    → (passes cfg times t).paused ≡ t.paused
unfolding passes
passes_spare cfg [] t h = refl
passes_spare cfg (now ∷ times) t h =
    let (paused, pinned, finished) = spared cfg now t h in
    passes_spare cfg times (enforce_one cfg now t) (ground (arith, h, pinned, finished)) ∙ paused

-- The cap that a torrent should have while something plays, or nothing does.
abbrev pub cap_for : ℤ → Bool → Capped → ℤ
cap_for idle_limit playing t = if playing && not t.active then idle_limit else pos 0

any_active-map :
    (f : Capped → ℤ) (torrents : List Capped)
    → any_active (map (λ (t : Capped). record t { limit = f t }) torrents) ≡ any_active torrents
unfolding any_active
any_active-map f [] = refl
any_active-map f (t ∷ torrents) = ap (λ b. t.active || b) (any_active-map f torrents)

cap-All :
    (idle_limit : ℤ) (playing : Bool) (torrents : List Capped)
    → ltb_ℤ (pos 0) idle_limit ≡ true
    → All
        (λ (t : Capped). t.limit ≡ cap_for idle_limit playing t)
        (map
          (λ (t : Capped). record t { limit = idle_download_limit t.active playing idle_limit })
          torrents)
unfolding idle_download_limit
cap-All idle_limit playing [] h = tt
cap-All idle_limit playing (t ∷ torrents) h = (rw h refl, cap-All idle_limit playing torrents h)

-- With a positive limit, after the policy has run every torrent that is watched is uncapped, every
-- other one is capped while something is watched, and uncapped when nothing is; what is watched is
-- as before.
pub apply_bandwidth_policy-caps :
    (idle_limit : ℤ) (torrents : List Capped)
    → ltb_ℤ (pos 0) idle_limit ≡ true
    → let capped = apply_bandwidth_policy idle_limit torrents in
      (any_active capped ≡ any_active torrents)
      × All (λ t. t.limit ≡ cap_for idle_limit (any_active capped) t) capped
unfolding apply_bandwidth_policy
apply_bandwidth_policy-caps idle_limit torrents h =
    let off : leb_ℤ idle_limit (pos 0) ≡ false = ground (arith, h) in
    let same =
      any_active-map (λ t. idle_download_limit t.active (any_active torrents) idle_limit)
        torrents in
    rw off (same, rw same (cap-All idle_limit (any_active torrents) torrents h))

-- With marks in order the decision changes only beyond them: in-order picking is given up only with
-- `high` bytes buffered, and taken up again only at `low` or fewer; between the marks the mode stays,
-- and the decision made twice on one buffer is the decision made once.
pub adaptive_sequential-hysteresis :
    (buffer : ℕ) (current : Bool) (low high : ℕ)
    → low < high
    → let next = adaptive_sequential buffer current (pos low) (pos high) in
      (next ≢ current → ((current ≡ true) × (high ≤ buffer)) ⊎ ((current ≡ false) × (buffer ≤ low)))
      × (high ≤ buffer → next ≡ false)
      × (buffer ≤ low → next ≡ true)
      × (adaptive_sequential buffer next (pos low) (pos high) ≡ next)
unfolding adaptive_sequential
adaptive_sequential-hysteresis buffer current low high h =
    (λ ne. ground arith, λ k. ground arith, λ k. ground arith, ground arith)
