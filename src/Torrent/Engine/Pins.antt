-- ===== src/Torrent/Engine/Pins.antt =====
-- torrent/engine.py, `Engine`: pinning, with the guard of the disk, and unpinning.
use stremio_libtorrent_serve.Prelude.{
  ℕ, ◌+◌, Bool, true, false, not, ◌&&◌, ◌||◌, Option, none, some, List, [], ◌∷◌, ◌++◌,
  if◌then◌else◌, ◌==◌, Keyed, keep, add_to,
}
use stremio_libtorrent_serve.Prelude.Text.{Text, Text_eq, is_empty, lower}
use stremio_libtorrent_serve.Prelude.Dict.{get, remove}
use stremio_libtorrent_serve.Torrent.Handle.{Torrent, Handle, reapply_priorities}
use stremio_libtorrent_serve.Torrent.Engine.{
  discard, or_none, headroom, pin_fits, Surroundings, knows_metadata, remaining_bytes,
  pin_remaining, piece_pass, piece_pass_raises, full_priority, PinRecord, Engine, PinOutcome,
  size_unknown, no_space, raised, kept, held, set_handle, add,
}

-- what a pinned torrent is told to fetch, and whether that raises
abbrev pub pinned_handle : Torrent → Handle → Handle × Bool
pinned_handle t h =
    if is_empty h.wanted
    then (full_priority t h, piece_pass_raises t (piece_pass t))
    else (reapply_priorities t h, false)

module _ {S : Type 0} ⦃s : Keyed S⦄ where
  -- the records of other torrents
  unfoldable pub other_pins : Text → Option (List (PinRecord S)) → List (PinRecord S)
  other_pins ih file = keep (λ p. not (lower p.info_hash == ih)) (or_none file)

  unfoldable pub pinned_remaining : Surroundings → Text → List Text → Engine S → ℕ
  unfolding remaining_bytes
  pinned_remaining w ih [] e = 0
  pinned_remaining w ih (p ∷ pins) e =
      (if held e p && not (p == ih) then remaining_bytes w p else 0) + pinned_remaining w ih pins e

  -- `pin` once the guard has let it pass; the write of pins.json may raise
  abbrev pub keep_pin :
      Surroundings → Bool → Text → PinRecord S → Handle → Engine S → PinOutcome S × Engine S
  keep_pin w writable ih entry h e =
      let done = pinned_handle (w.side ih) (record h { pinned = true }) in
      let e' = record (set_handle ih done.0 e) { pinned = add_to e.pinned ih } in
      if done.1 || not writable
      then (raised, e')
      else (kept entry, record e' { pins_file = some (other_pins ih e'.pins_file ++ entry ∷ []) })

  abbrev pub guard_pin :
      Surroundings → Bool → Text → PinRecord S → Option Handle → Engine S → PinOutcome S × Engine S
  guard_pin w writable ih entry none e = (size_unknown, e)
  guard_pin w writable ih entry (some h) e =
      let rest = pinned_remaining w ih e.pinned e in
      let more = pin_remaining w ih h in
      if not (knows_metadata (w.side ih))
      then (size_unknown, e)
      else if not (pin_fits w.with_slack w.disk_free rest more w.cache_size w.cache_used)
      then (
        no_space (headroom w.with_slack w.cache_size w.cache_used + (rest + more)) w.disk_free,
        e,
      )
      else keep_pin w writable ih entry h e

  -- the torrent is added where it is not held, and its metadata waited for
  unfoldable pub pin : Surroundings → Bool → Text → Text → ℕ → Engine S → PinOutcome S × Engine S
  unfolding add full_priority piece_pass_raises reapply_priorities other_pins pinned_remaining
      pin_remaining pin_fits headroom
  pin w writable info_hash name now e =
      let ih = lower info_hash in
      let e' = if held e ih then e else add ih e in
      guard_pin w writable ih (record { info_hash = ih; want = none; name = name; added_at = now })
        (get ih e'.torrents) e'

  abbrev pub unpin_held : Surroundings → Text → Option Handle → Engine S → Engine S
  unpin_held w ih none e = e
  unpin_held w ih (some h) e =
      set_handle ih (reapply_priorities (w.side ih) (record h { pinned = false })) e

  -- the write of pins.json may raise, at the end
  unfoldable pub unpin : Surroundings → Bool → Text → Engine S → Engine S
  unfolding discard reapply_priorities other_pins
  unpin w writable info_hash e =
      let ih = lower info_hash in
      let e' = unpin_held w ih (get ih e.torrents) (record e {
        pinned = discard e.pinned ih;
        wanted = remove ih e.wanted;
        applied = discard e.applied ih;
      }) in
      if writable then record e' { pins_file = some (other_pins ih e'.pins_file) } else e'
