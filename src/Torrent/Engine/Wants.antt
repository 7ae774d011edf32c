-- ===== src/Torrent/Engine/Wants.antt =====
-- torrent/engine.py, `Engine`: what is wanted of each torrent, applied once its metadata is there.
use stremio_libtorrent_serve.Prelude.{
  ℕ, Bool, not, ◌||◌, Option, none, some, List, [], ◌∷◌, map, nat_eq, if◌then◌else◌, Keyed, length,
  collect, contains, add_to,
}
use stremio_libtorrent_serve.Prelude.Text.{Text, Text_eq, is_empty, lower}
use stremio_libtorrent_serve.Prelude.Dict.{Dict, get, put, remove}
use stremio_libtorrent_serve.Torrent.Handle.{Handle}
use stremio_libtorrent_serve.Torrent.Wanted.{Want, select_wanted_file}
use stremio_libtorrent_serve.Torrent.Engine.{
  discard, Surroundings, knows_metadata, full_priority, want_each, Engine, add_spec, record_wanted,
  drop_wanted,
}

module _ {S : Type 0} ⦃s : Keyed S⦄ where
  module _ (want_of : S → Option Want) where
    unfoldable pub resolve : List (Text × ℕ) → List S → List (Option ℕ)
    unfolding select_wanted_file
    resolve files specs = map (λ spec. select_wanted_file files (want_of spec)) specs

    -- `_apply_wanted`: every file that the selectors name, or all where one names none
    unfoldable pub apply_wanted : Surroundings → Text → List S → Handle → Handle
    unfolding full_priority want_each resolve
    apply_wanted w ih specs h =
        let resolved = resolve (w.files ih) specs in
        let narrowed = collect (λ i. i) resolved in
        if is_empty specs || not (nat_eq (length narrowed) (length resolved))
        then full_priority (w.side ih) h
        else want_each (w.side ih) narrowed h

    abbrev pub apply_held : Surroundings → Text → List S → Option Handle → Engine S → Engine S
    apply_held w ih specs none e = e
    apply_held w ih specs (some h) e =
        if knows_metadata (w.side ih)
        then record e {
          torrents = put ih (apply_wanted w ih specs h) e.torrents;
          applied = add_to e.applied ih;
        }
        else e

    -- the body of the loop of `_apply_pending_wanted`
    unfoldable pub apply_one : Surroundings → Text → List S → Engine S → Engine S
    unfolding apply_wanted
    apply_one w ih specs e =
        if contains e.applied ih then e else apply_held w ih specs (get ih e.torrents) e

    unfoldable pub apply_all : Surroundings → Dict Text (List S) → Engine S → Engine S
    unfolding apply_one
    apply_all w [] e = e
    apply_all w ((ih, specs) ∷ wanted) e = apply_all w wanted (apply_one w ih specs e)

    -- `_apply_pending_wanted`
    abbrev pub apply_pending : Surroundings → Engine S → Engine S
    apply_pending w e = apply_all w e.wanted e

    unfoldable pub want : Surroundings → Bool → Text → S → Engine S → Engine S
    unfolding add_spec record_wanted discard apply_all
    want w writable info_hash entry e =
        let ih = lower info_hash in
        let e' =
          record_wanted writable entry ih (record e { wanted = add_spec entry ih e.wanted }) in
        apply_pending w (record e' { applied = discard e'.applied ih })

  unfoldable pub unwant : Bool → Text → Engine S → Engine S
  unfolding drop_wanted discard
  unwant writable info_hash e =
      let ih = lower info_hash in
      drop_wanted writable ih
        (record e { wanted = remove ih e.wanted; applied = discard e.applied ih })
