-- ===== src/Torrent/Engine/Restart/Kept.antt =====
-- A run from a start, and the restart behind it.
use stremio_libtorrent_serve.Prelude.{
  ◌≡◌, refl, sym, ap, subst, ◌∙◌, Bool, Option, none, List, [], ◌∷◌, arith, Keyed, contains, All,
  Option-cases, inl, inr,
}
use stremio_libtorrent_serve.Prelude.Text.{Text, Text_eq, lower}
use stremio_libtorrent_serve.Prelude.Dict.{Dict, get}
use stremio_libtorrent_serve.Torrent.Wanted.{Want}
use stremio_libtorrent_serve.Torrent.Engine.{
  or_none, Surroundings, PinRecord, Engine, load_wanted, is_pinned,
}
use stremio_libtorrent_serve.Torrent.Engine.Wants.{apply_one, apply_all}
use stremio_libtorrent_serve.Torrent.Engine.Startup.{
  pin_set, migrate_all, hold_pins, hold_wanted, load_pins_into_session,
}
use stremio_libtorrent_serve.Torrent.Engine.Agreed.{IsFlagged, Agrees, apply_all-Agrees}
use stremio_libtorrent_serve.Torrent.Engine.Pinned.Steps.{Reach, Reach-Agrees}
use stremio_libtorrent_serve.Torrent.Engine.Restart.{
  boot, chosen_pins, chosen-All, all_chosen, pin_set-All, migrate_all-torrents, migrate_all-file,
  hold_pins-Agrees, hold_pins-pinned, hold_wanted-Agrees, hold_wanted-pinned,
}

module _ {S : Type 0} ⦃s : Keyed S⦄ where
  module _ (want_of : S → Option Want) where
    apply_one-pinned :
        (w : Surroundings) (ih : Text) (specs : List S) (e : Engine S)
        → (apply_one want_of w ih specs e).pinned ≡ e.pinned
    unfolding apply_one
    apply_one-pinned w ih specs e = elim (Option-cases (get ih e.torrents)) [
      | inl n ↦ rw n (ground arith)
      | inr (h, t) ↦ rw t (ground arith)
    ]

    apply_all-pinned :
        (w : Surroundings) (wanted : Dict Text (List S)) (e : Engine S)
        → (apply_all want_of w wanted e).pinned ≡ e.pinned
    unfolding apply_all
    apply_all-pinned w [] e = refl
    apply_all-pinned w ((ih, specs) ∷ wanted) e =
        apply_all-pinned w wanted (apply_one want_of w ih specs e) ∙ apply_one-pinned w ih specs e

    start-pinned :
        (w : Surroundings) (writable : Bool) (e : Engine S)
        → (load_pins_into_session want_of w writable e).pinned ≡ pin_set (chosen_pins e.pins_file)
    unfolding load_pins_into_session
    start-pinned w writable e =
        let pins = chosen_pins e.pins_file in
        let begun = record (migrate_all writable (or_none e.pins_file) e) {
          pinned = pin_set pins;
        } in
        let holding = hold_pins pins begun in
        let wanted = load_wanted holding.wanted_file in
        let all = hold_wanted wanted (record holding { wanted = wanted }) in
        apply_all-pinned w all.wanted all
        ∙ hold_wanted-pinned wanted (record holding { wanted = wanted })
        ∙ hold_pins-pinned pins begun

    -- what a start makes of the two files agrees
    start-Agrees :
        (w : Surroundings) (writable : Bool) (pins_file : Option (List (PinRecord S)))
        (wanted_file : Option (Dict Text (Option (List (Option S)))))
        → Agrees (load_pins_into_session want_of w writable (boot pins_file wanted_file))
    unfolding load_pins_into_session get
    start-Agrees w writable pins_file wanted_file =
        let e = boot pins_file wanted_file in
        let pins = chosen_pins pins_file in
        let migrated = migrate_all writable (or_none pins_file) e in
        let begun = record migrated { pinned = pin_set pins } in
        let file : or_none migrated.pins_file ≡ pins = migrate_all-file writable e in
        let torrents : migrated.torrents ≡ [] =
          migrate_all-torrents writable (or_none pins_file) e in
        let first : Agrees begun = record {
          flagged = subst (IsFlagged (pin_set pins)) (sym torrents) (λ ih h t. cc t);
          written = λ ih. ap (λ x. contains (pin_set x) ih) (sym file);
          chosen = subst (All (λ p. p.want ≡ none)) (sym file) (chosen-All pins_file);
        } in
        let holding = hold_pins pins begun in
        let held_all = hold_pins-Agrees pins begun (pin_set-All pins) first in
        let wanted = load_wanted holding.wanted_file in
        let all = hold_wanted wanted (record holding { wanted = wanted }) in
        apply_all-Agrees want_of w all.wanted all (
          hold_wanted-Agrees wanted (record holding { wanted = wanted })
            (record {
              flagged = held_all.flagged;
              written = held_all.written;
              chosen = held_all.chosen;
            }))

    -- From the start on, whatever is added, removed, wanted, pinned and unpinned, the set of pinned
    -- torrents, the flags that the handles carry and the records of pins.json say the same, as long as
    -- every pin names an infohash, no pin raises in the middle and every write of pins.json at an unpin
    -- succeeds.
    pub run-Agrees :
        (w : Surroundings) (writable : Bool) (pins_file : Option (List (PinRecord S)))
        (wanted_file : Option (Dict Text (Option (List (Option S))))) (e : Engine S)
        → Reach want_of (load_pins_into_session want_of w writable (boot pins_file wanted_file)) e
        → Agrees e
    run-Agrees w writable pins_file wanted_file e r =
        Reach-Agrees want_of r (start-Agrees w writable pins_file wanted_file)

    -- After any such run, a restart from the files that it leaves behind pins the torrents that were
    -- pinned, and no others.
    pub restart-is_pinned :
        (w : Surroundings) (writable : Bool) (pins_file : Option (List (PinRecord S)))
        (wanted_file : Option (Dict Text (Option (List (Option S))))) (e : Engine S)
        → Reach want_of (load_pins_into_session want_of w writable (boot pins_file wanted_file)) e
        → (later : Surroundings) (saves : Bool) (ih : Text)
        → is_pinned ih (load_pins_into_session want_of later saves (boot e.pins_file e.wanted_file))
          ≡ is_pinned ih e
    unfolding is_pinned
    restart-is_pinned w writable pins_file wanted_file e r later saves ih =
        let a = run-Agrees w writable pins_file wanted_file e r in
        ap (λ pinned. contains pinned (lower ih))
          (start-pinned later saves (boot e.pins_file e.wanted_file)
            ∙ ap pin_set (all_chosen (or_none e.pins_file) a.chosen))
        ∙ sym (a.written (lower ih))
