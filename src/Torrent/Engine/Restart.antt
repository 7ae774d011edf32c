-- ===== src/Torrent/Engine/Restart.antt =====
-- What is pinned survives a restart, whatever was asked in between.
pub mod Kept
use stremio_libtorrent_serve.Prelude.{
  ◌≡◌, refl, sym, ap, subst, ◌∙◌, Bool, true, false, not, Option, none, List, [], ◌∷◌, arith,
  if◌then◌else◌, Keyed, keep, keep-All, contains, All, All-weaken, Bool-cases, Option-cases, inl,
  inr, contains-add_to,
}
use stremio_libtorrent_serve.Prelude.Text.{Text, Text_eq, is_empty, lower}
use stremio_libtorrent_serve.Prelude.Dict.{Dict, get}
use stremio_libtorrent_serve.Torrent.Wanted.{Want}
use stremio_libtorrent_serve.Torrent.Engine.{
  or_none, fresh_handle, Surroundings, PinRecord, Engine, held, add, record_wanted, load_wanted,
  is_pinned,
}
use stremio_libtorrent_serve.Torrent.Engine.Wants.{apply_one, apply_all}
use stremio_libtorrent_serve.Torrent.Engine.Startup.{
  is_download, pin_set, migrate_one, migrate, migrate_all, hold_pin, hold_pins, hold_wanted,
  load_pins_into_session,
}
use stremio_libtorrent_serve.Torrent.Engine.Agreed.{
  IsFlagged, put-IsFlagged, Agrees, apply_all-Agrees, add-Agrees,
}
use stremio_libtorrent_serve.Torrent.Engine.Pinned.{is_empty-lower}
use stremio_libtorrent_serve.Torrent.Engine.Pinned.Steps.{if-Agrees, Reach, Reach-Agrees}

-- An engine before its start, with the two files that it finds.
abbrev pub boot :
    {S : Type 0}
    → Option (List (PinRecord S))
    → Option (Dict Text (Option (List (Option S))))
    → Engine S
boot pins_file wanted_file = record {
  torrents = [];
  pinned = [];
  wanted = [];
  applied = [];
  pins_file = pins_file;
  wanted_file = wanted_file;
}

-- the pins among the records
abbrev pub chosen_pins : {S : Type 0} → Option (List (PinRecord S)) → List (PinRecord S)
chosen_pins file = keep (λ p. not (is_download p)) (or_none file)

chosen-All :
    {S : Type 0} (file : Option (List (PinRecord S)))
    → All (λ (p : PinRecord S). p.want ≡ none) (chosen_pins file)
chosen-All file =
    All-weaken (λ p. not (is_download p) ≡ true) (λ p. p.want ≡ none) (chosen_pins file)
      (λ p e. elim (Option-cases p.want) [
        | inl n ↦ n
        | inr (spec, t) ↦ absurd (let e' = rw t at e in cc e')
      ])
      (keep-All (λ p. not (is_download p)) (or_none file))

no_downloads :
    {S : Type 0} (pins : List (PinRecord S))
    → is_empty (keep is_download pins) ≡ true
    → keep (λ p. not (is_download p)) pins ≡ pins
unfolding keep is_empty
no_downloads [] e = refl
no_downloads (p ∷ pins) e = ground (arith, no_downloads pins)

all_chosen :
    {S : Type 0} (pins : List (PinRecord S))
    → All (λ (p : PinRecord S). p.want ≡ none) pins
    → keep (λ p. not (is_download p)) pins ≡ pins
unfolding keep
all_chosen [] h = refl
all_chosen (p ∷ pins) h =
    let chosen : is_download p ≡ false = rw h.0 refl in
    rw (chosen, keep) (ap (λ rest. p ∷ rest) (all_chosen pins h.1))

-- a record's torrent is in the set
abbrev IsIn : {S : Type 0} → List Text → PinRecord S → Type 0
IsIn pinned p = is_empty p.info_hash ≡ false → contains pinned (lower p.info_hash) ≡ true

pin_set-All : {S : Type 0} (pins : List (PinRecord S)) → All (IsIn (pin_set pins)) pins
unfolding pin_set
pin_set-All [] = tt
pin_set-All (p ∷ pins) = (
  λ e. ground (
    arith,
    contains-add_to (pin_set pins) (lower p.info_hash) (lower p.info_hash),
    Text_eq.decides (lower p.info_hash) (lower p.info_hash),
  ),
  All-weaken (IsIn (pin_set pins)) (IsIn (pin_set (p ∷ pins))) pins
      (λ q h e.
        ground (arith, h e, contains-add_to (pin_set pins) (lower p.info_hash) (lower q.info_hash)))
      (pin_set-All pins),
)

module _ {S : Type 0} ⦃s : Keyed S⦄ where
  -- Moving the downloads out leaves the torrents and the set alone.
  record_wanted-torrents :
      (writable : Bool) (entry : S) (ih : Text) (e : Engine S)
      → (record_wanted writable entry ih e).torrents ≡ e.torrents
  unfolding record_wanted
  record_wanted-torrents writable entry ih e = ground arith

  migrate-torrents :
      (writable : Bool) (pins : List (PinRecord S)) (e : Engine S)
      → (migrate writable pins e).torrents ≡ e.torrents
  unfolding migrate
  migrate-torrents writable [] e = refl
  migrate-torrents writable (p ∷ pins) e =
      migrate-torrents writable pins (migrate_one writable p e) ∙ elim (Option-cases p.want) [
        | inl n ↦ rw n refl
        | inr (spec, t) ↦
            rw t (ground (arith, record_wanted-torrents writable spec (lower p.info_hash) e))
      ]

  migrate_all-torrents :
      (writable : Bool) (pins : List (PinRecord S)) (e : Engine S)
      → (migrate_all writable pins e).torrents ≡ e.torrents
  unfolding migrate_all
  migrate_all-torrents writable pins e =
      ground (arith, migrate-torrents writable (keep is_download pins) e)

  migrate_all-file :
      (writable : Bool) (e : Engine S)
      → or_none (migrate_all writable (or_none e.pins_file) e).pins_file ≡ chosen_pins e.pins_file
  unfolding migrate_all
  migrate_all-file writable e =
      elim (Bool-cases (is_empty (keep is_download (or_none e.pins_file)))) [
        | inl t ↦ rw (t, migrate_all) (sym (no_downloads (or_none e.pins_file) t))
        | inr t ↦ rw (t, migrate_all) refl
      ]

  hold_pin-pinned : (p : PinRecord S) (e : Engine S) → (hold_pin p e).pinned ≡ e.pinned
  hold_pin-pinned p e = ground arith

  hold_pin-Agrees :
      (p : PinRecord S) (e : Engine S) → IsIn e.pinned p → Agrees e → Agrees (hold_pin p e)
  hold_pin-Agrees p e h a = elim (Bool-cases (is_empty (lower p.info_hash))) [
    | inl t ↦ rw t a
    | inr t ↦ rw t (record {
      flagged =
          put-IsFlagged e.pinned e.torrents (lower p.info_hash)
            (record fresh_handle { pinned = true }) (sym (h (sym (is_empty-lower p.info_hash) ∙ t)))
            a.flagged;
      written = a.written;
      chosen = a.chosen;
    })
  ]

  hold_pins-Agrees :
      (pins : List (PinRecord S)) (e : Engine S)
      → All (IsIn e.pinned) pins
      → Agrees e
      → Agrees (hold_pins pins e)
  unfolding hold_pins
  hold_pins-Agrees [] e h a = a
  hold_pins-Agrees (p ∷ pins) e h a =
      hold_pins-Agrees pins (hold_pin p e)
        (subst (λ pinned. All (IsIn pinned) pins) (sym (hold_pin-pinned p e)) h.1)
        (hold_pin-Agrees p e h.0 a)

  hold_pins-pinned :
      (pins : List (PinRecord S)) (e : Engine S) → (hold_pins pins e).pinned ≡ e.pinned
  unfolding hold_pins
  hold_pins-pinned [] e = refl
  hold_pins-pinned (p ∷ pins) e = hold_pins-pinned pins (hold_pin p e) ∙ hold_pin-pinned p e

  hold_wanted-Agrees :
      (wanted : Dict Text (List S)) (e : Engine S) → Agrees e → Agrees (hold_wanted wanted e)
  unfolding hold_wanted
  hold_wanted-Agrees [] e a = a
  hold_wanted-Agrees ((ih, specs) ∷ wanted) e a =
      hold_wanted-Agrees wanted (if held e ih then e else add ih e)
        (if-Agrees (held e ih) e (add ih e) a (add-Agrees ih e a))

  hold_wanted-pinned :
      (wanted : Dict Text (List S)) (e : Engine S) → (hold_wanted wanted e).pinned ≡ e.pinned
  unfolding hold_wanted add
  hold_wanted-pinned [] e = refl
  hold_wanted-pinned ((ih, specs) ∷ wanted) e =
      hold_wanted-pinned wanted (if held e ih then e else add ih e) ∙ ground arith
