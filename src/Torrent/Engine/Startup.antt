-- ===== src/Torrent/Engine/Startup.antt =====
-- torrent/engine.py, `load_pins_into_session`: what a start takes back from the two registries. Its write
-- of pins.json, without the downloads that an older version kept there, succeeds.
use stremio_libtorrent_serve.Prelude.{
  Bool, true, not, Option, none, some, List, [], ◌∷◌, if◌then◌else◌, Keyed, keep, add_to, is_some,
}
use stremio_libtorrent_serve.Prelude.Text.{Text, Text_eq, is_empty, lower}
use stremio_libtorrent_serve.Prelude.Dict.{Dict}
use stremio_libtorrent_serve.Torrent.Wanted.{Want}
use stremio_libtorrent_serve.Torrent.Engine.{
  or_none, fresh_handle, Surroundings, PinRecord, Engine, load_wanted, record_wanted, held,
  set_handle, add,
}
use stremio_libtorrent_serve.Torrent.Engine.Wants.{apply_pending}

module _ {S : Type 0} where
  -- `{}`, the selector of a whole torrent, aside: a record that carries a `want` is a download
  abbrev pub is_download : PinRecord S → Bool
  is_download p = is_some p.want

  -- `{... for e in records if e.get("infoHash")}`
  unfoldable pub pin_set : List (PinRecord S) → List Text
  pin_set [] = []
  pin_set (p ∷ pins) =
      let rest = pin_set pins in
      if is_empty p.info_hash then rest else add_to rest (lower p.info_hash)

module _ {S : Type 0} ⦃s : Keyed S⦄ where
  abbrev pub migrate_one : Bool → PinRecord S → Engine S → Engine S
  migrate_one writable p e = elim p.want [
    | none ↦ e
    | some spec ↦
        if is_empty (lower p.info_hash)
        then e
        else record_wanted writable spec (lower p.info_hash) e
  ]

  unfoldable pub migrate : Bool → List (PinRecord S) → Engine S → Engine S
  unfolding record_wanted
  migrate writable [] e = e
  migrate writable (p ∷ pins) e = migrate writable pins (migrate_one writable p e)

  -- the downloads are moved out, and pins.json is written only then
  unfoldable pub migrate_all : Bool → List (PinRecord S) → Engine S → Engine S
  unfolding migrate
  migrate_all writable pins e =
      if is_empty (keep is_download pins)
      then e
      else record (migrate writable (keep is_download pins) e) {
        pins_file = some (keep (λ p. not (is_download p)) pins);
      }

  -- for an infohash that is hexadecimal; `bytes.fromhex` raises for any other, which is left out
  abbrev pub hold_pin : PinRecord S → Engine S → Engine S
  hold_pin p e =
      if is_empty (lower p.info_hash)
      then e
      else set_handle (lower p.info_hash) (record fresh_handle { pinned = true }) e

  unfoldable pub hold_pins : List (PinRecord S) → Engine S → Engine S
  hold_pins [] e = e
  hold_pins (p ∷ pins) e = hold_pins pins (hold_pin p e)

  unfoldable pub hold_wanted : Dict Text (List S) → Engine S → Engine S
  unfolding add
  hold_wanted [] e = e
  hold_wanted ((ih, specs) ∷ wanted) e = hold_wanted wanted (if held e ih then e else add ih e)

  module _ (want_of : S → Option Want) where
    -- on an engine that holds no torrent yet
    unfoldable pub load_pins_into_session : Surroundings → Bool → Engine S → Engine S
    unfolding migrate_all pin_set hold_pins hold_wanted
    load_pins_into_session w writable e =
        let records = or_none e.pins_file in
        let pins = keep (λ p. not (is_download p)) records in
        let migrated = migrate_all writable records e in
        let holding = hold_pins pins (record migrated { pinned = pin_set pins }) in
        let wanted = load_wanted holding.wanted_file in
        apply_pending want_of w (hold_wanted wanted (record holding { wanted = wanted }))
