-- ===== src/Torrent/Engine/Pinned.antt =====
-- Every operation of the engine keeps the views of what is pinned in agreement.
pub mod Steps
use stremio_libtorrent_serve.Prelude.{
  ℕ, ◌≡◌, ◌≢◌, refl, sym, subst, ◌∙◌, Bool, true, false, not, ◌&&◌, ◌||◌, Option, none, some, List,
  [], ◌∷◌, ◌++◌, arith, if◌then◌else◌, ◌==◌, Keyed, keep, contains, add_to, is_some, All,
  All-append, All-keep, Bool-cases, Option-cases, inl, inr, contains-add_to,
}
use stremio_libtorrent_serve.Prelude.Text.{Text, Text_eq, is_empty, lower, lower_code}
use stremio_libtorrent_serve.Prelude.Dict.{Dict, get, remove}
use stremio_libtorrent_serve.Torrent.Handle.{Torrent, Handle, reapply_priorities}
use stremio_libtorrent_serve.Torrent.Wanted.{Want}
use stremio_libtorrent_serve.Torrent.Engine.{
  discard, or_none, Surroundings, knows_metadata, pin_fits, pin_remaining, PinRecord, Engine,
  raised, held, add, drop_torrent, add_spec, record_wanted, drop_wanted, load_wanted,
}
use stremio_libtorrent_serve.Torrent.Engine.Wants.{apply_pending, want, unwant}
use stremio_libtorrent_serve.Torrent.Engine.Pins.{
  other_pins, pinned_remaining, pinned_handle, keep_pin, guard_pin, pin, unpin,
}
use stremio_libtorrent_serve.Torrent.Engine.Startup.{pin_set}
use stremio_libtorrent_serve.Torrent.Engine.Agreed.{
  full_priority-pinned, reapply_priorities-pinned, repin-IsFlagged, contains-discard, Agrees,
  apply_all-Agrees, add-Agrees, drop_torrent-Agrees,
}

lower_code-twice : (c : ℕ) → lower_code (lower_code c) ≡ lower_code c
lower_code-twice c = ground arith

pub lower-twice : (s : Text) → lower (lower s) ≡ lower s
unfolding lower
lower-twice [] = refl
lower-twice (c ∷ s) = cc (lower_code-twice c, lower-twice s)

pub is_empty-lower : (s : Text) → is_empty (lower s) ≡ is_empty s
unfolding is_empty lower
is_empty-lower [] = refl
is_empty-lower (c ∷ s) = refl

pub is_empty-eq : (s : Text) → is_empty s ≡ true → s ≡ []
unfolding is_empty
is_empty-eq [] e = refl
is_empty-eq (c ∷ s) e = cc e

pin_set-others :
    {S : Type 0} (ih k : Text) (pins : List (PinRecord S))
    → contains (pin_set (keep (λ p. not (lower p.info_hash == ih)) pins)) k
      ≡ (not (ih == k) && contains (pin_set pins) k)
unfolding pin_set contains keep
pin_set-others ih k [] = ground arith
pin_set-others ih k (p ∷ pins) = ground (
  arith,
  pin_set-others ih k pins,
  contains-add_to (pin_set pins) (lower p.info_hash) k,
  contains-add_to (pin_set (keep (λ q. not (lower q.info_hash == ih)) pins)) (lower p.info_hash) k,
  Text_eq.decides (lower p.info_hash) ih,
  Text_eq.decides (lower p.info_hash) k,
  Text_eq.decides ih k,
)

pin_set-append :
    {S : Type 0} (k : Text) (pins : List (PinRecord S)) (p : PinRecord S)
    → is_empty p.info_hash ≡ false
    → contains (pin_set (pins ++ p ∷ [])) k ≡ (lower p.info_hash == k || contains (pin_set pins) k)
unfolding pin_set contains
pin_set-append k [] p e = ground (arith, contains-add_to [] (lower p.info_hash) k)
pin_set-append k (q ∷ pins) p e = ground (
  arith,
  pin_set-append k pins p e,
  contains-add_to (pin_set pins) (lower q.info_hash) k,
  contains-add_to (pin_set (pins ++ p ∷ [])) (lower q.info_hash) k,
)

pinned_handle-pinned : (t : Torrent) (h : Handle) → (pinned_handle t h).0.pinned ≡ h.pinned
pinned_handle-pinned t h = ground (arith, full_priority-pinned t h, reapply_priorities-pinned t h)

module _ {S : Type 0} ⦃s : Keyed S⦄ where
  -- The registry of what is wanted, and what is applied, is no part of it.
  other_parts-Agrees :
      (wanted : Dict Text (List S)) (applied : List Text)
      (file : Option (Dict Text (Option (List (Option S))))) (e : Engine S)
      → Agrees e
      → Agrees (record e { wanted = wanted; applied = applied; wanted_file = file })
  other_parts-Agrees wanted applied file e a = record {
    flagged = a.flagged;
    written = a.written;
    chosen = a.chosen;
  }

  record_wanted-Agrees :
      (writable : Bool) (entry : S) (ih : Text) (e : Engine S)
      → Agrees e
      → Agrees (record_wanted writable entry ih e)
  unfolding record_wanted
  record_wanted-Agrees writable entry ih e a = elim (Bool-cases writable) [
    | inl t ↦
        rw (t, record_wanted)
          (record { flagged = a.flagged; written = a.written; chosen = a.chosen })
    | inr t ↦ rw (t, record_wanted) a
  ]

  drop_wanted-Agrees :
      (writable : Bool) (ih : Text) (e : Engine S) → Agrees e → Agrees (drop_wanted writable ih e)
  unfolding drop_wanted
  drop_wanted-Agrees writable ih e a =
      elim (Bool-cases (is_some (get ih (load_wanted e.wanted_file)))) [
        | inl p ↦ elim (Bool-cases writable) [
          | inl t ↦
              rw (p, t, drop_wanted)
                (record { flagged = a.flagged; written = a.written; chosen = a.chosen })
          | inr t ↦ rw (p, t, drop_wanted) a
        ]
        | inr p ↦ rw (p, drop_wanted) a
      ]

  want-Agrees :
      (want_of : S → Option Want) (w : Surroundings) (writable : Bool) (info_hash : Text)
      (entry : S) (e : Engine S)
      → Agrees e
      → Agrees (want want_of w writable info_hash entry e)
  unfolding want
  want-Agrees want_of w writable info_hash entry e a =
      let ih = lower info_hash in
      let wanting = record e { wanted = add_spec entry ih e.wanted } in
      let e' = record_wanted writable entry ih wanting in
      apply_all-Agrees want_of w e'.wanted (record e' { applied = discard e'.applied ih })
        (other_parts-Agrees e'.wanted (discard e'.applied ih) e'.wanted_file e' (
          record_wanted-Agrees writable entry ih wanting
            (other_parts-Agrees (add_spec entry ih e.wanted) e.applied e.wanted_file e a)))

  unwant-Agrees :
      (writable : Bool) (info_hash : Text) (e : Engine S)
      → Agrees e
      → Agrees (unwant writable info_hash e)
  unfolding unwant
  unwant-Agrees writable info_hash e a =
      let ih = lower info_hash in
      drop_wanted-Agrees writable ih
        (record e { wanted = remove ih e.wanted; applied = discard e.applied ih })
        (other_parts-Agrees (remove ih e.wanted) (discard e.applied ih) e.wanted_file e a)

  others-chosen :
      (ih : Text) (file : Option (List (PinRecord S)))
      → All (λ (p : PinRecord S). p.want ≡ none) (or_none file)
      → All (λ (p : PinRecord S). p.want ≡ none) (other_pins ih file)
  unfolding other_pins
  others-chosen ih file h =
      All-keep (λ p. p.want ≡ none) (λ p. not (lower p.info_hash == ih)) (or_none file) h

  keep_pin-Agrees :
      (w : Surroundings) (writable : Bool) (ih : Text) (entry : PinRecord S) (h : Handle)
      (e : Engine S)
      → is_empty ih ≡ false
      → lower ih ≡ ih
      → entry.info_hash ≡ ih
      → entry.want ≡ none
      → Agrees e
      → (keep_pin w writable ih entry h e).0 ≢ raised
      → Agrees (keep_pin w writable ih entry h e).1
  unfolding other_pins
  keep_pin-Agrees w writable ih entry h e named low same plain a fine =
      let flag = record h { pinned = true } in
      let done = pinned_handle (w.side ih) flag in
      elim (Bool-cases (done.1 || not writable)) [
        | inl bad ↦ absurd (fine (rw bad refl))
        | inr good ↦ rw good (record {
          flagged =
              repin-IsFlagged e.pinned (add_to e.pinned ih) e.torrents ih done.0
                (pinned_handle-pinned (w.side ih) flag
                  ∙ sym (ground (arith, contains-add_to e.pinned ih ih, Text_eq.decides ih ih)))
                (λ k other. ground (arith, contains-add_to e.pinned ih k)) a.flagged;
          written = λ k.
              let filed : is_empty entry.info_hash ≡ false =
                subst (λ x. is_empty x ≡ false) (sym same) named in
              ground (
                arith,
                contains-add_to e.pinned ih k,
                a.written k,
                pin_set-others ih k (or_none e.pins_file),
                pin_set-append k (other_pins ih e.pins_file) entry filed,
                same,
                low,
              );
          chosen =
              All-append (λ p. p.want ≡ none) (other_pins ih e.pins_file) (entry ∷ [])
                (others-chosen ih e.pins_file a.chosen) (plain, tt);
        })
      ]
