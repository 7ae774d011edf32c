-- ===== src/Torrent/Engine/Pinned/Steps.antt =====
-- The operations on pins, and all operations as a step relation.
use stremio_libtorrent_serve.Prelude.{
  ℕ, ◌≡◌, ◌≢◌, refl, sym, ◌∙◌, Bool, true, false, Option, none, some, arith, if◌then◌else◌, Keyed,
  contains, Bool-cases, Option-cases, inl, inr,
}
use stremio_libtorrent_serve.Prelude.Text.{Text, Text_eq, is_empty, lower}
use stremio_libtorrent_serve.Prelude.Dict.{get}
use stremio_libtorrent_serve.Torrent.Handle.{Handle, reapply_priorities}
use stremio_libtorrent_serve.Torrent.Wanted.{Want}
use stremio_libtorrent_serve.Torrent.Engine.{
  discard, or_none, Surroundings, knows_metadata, pin_fits, pin_remaining, PinRecord, Engine,
  raised, held, add, drop_torrent,
}
use stremio_libtorrent_serve.Torrent.Engine.Wants.{apply_pending, want, unwant}
use stremio_libtorrent_serve.Torrent.Engine.Pins.{
  other_pins, pinned_remaining, guard_pin, pin, unpin,
}
use stremio_libtorrent_serve.Torrent.Engine.Startup.{pin_set}
use stremio_libtorrent_serve.Torrent.Engine.Agreed.{
  reapply_priorities-pinned, repin-IsFlagged, contains-discard, Agrees, apply_all-Agrees,
  add-Agrees, drop_torrent-Agrees,
}
use stremio_libtorrent_serve.Torrent.Engine.Pinned.{
  lower-twice, is_empty-lower, pin_set-others, want-Agrees, unwant-Agrees, others-chosen,
  keep_pin-Agrees,
}

module _ {S : Type 0} ⦃s : Keyed S⦄ where
  pub if-Agrees : (b : Bool) (e f : Engine S) → Agrees e → Agrees f → Agrees (if b then e else f)
  if-Agrees true e f a b = a
  if-Agrees false e f a b = b

  guard_pin-Agrees :
      (w : Surroundings) (writable : Bool) (ih : Text) (entry : PinRecord S) (o : Option Handle)
      (e : Engine S)
      → is_empty ih ≡ false
      → lower ih ≡ ih
      → entry.info_hash ≡ ih
      → entry.want ≡ none
      → Agrees e
      → (guard_pin w writable ih entry o e).0 ≢ raised
      → Agrees (guard_pin w writable ih entry o e).1
  guard_pin-Agrees w writable ih entry none e named low same plain a fine = a
  guard_pin-Agrees w writable ih entry (some h) e named low same plain a fine =
      let rest = pinned_remaining w ih e.pinned e in
      let fits =
        pin_fits w.with_slack w.disk_free rest (pin_remaining w ih h) w.cache_size w.cache_used in
      elim (Bool-cases (knows_metadata (w.side ih))) [
        | inr unknown ↦ rw unknown a
        | inl known ↦ elim (Bool-cases fits) [
          | inr full ↦ rw (known, full) a
          | inl room ↦
              let fine' = rw (known, room) at fine in
              rw (known, room)
                (keep_pin-Agrees w writable ih entry h e named low same plain a fine')
        ]
      ]

  pin-Agrees :
      (w : Surroundings) (writable : Bool) (info_hash name : Text) (now : ℕ) (e : Engine S)
      → is_empty info_hash ≡ false
      → (pin w writable info_hash name now e).0 ≢ raised
      → Agrees e
      → Agrees (pin w writable info_hash name now e).1
  unfolding pin
  pin-Agrees w writable info_hash name now e named fine a =
      let ih = lower info_hash in
      let e' = if held e ih then e else add ih e in
      guard_pin-Agrees w writable ih
        (record { info_hash = ih; want = none; name = name; added_at = now }) (get ih e'.torrents)
        e' (is_empty-lower info_hash ∙ named) (lower-twice info_hash) refl refl
        (if-Agrees (held e ih) e (add ih e) a (add-Agrees ih e a)) fine

  unpin-Agrees :
      (w : Surroundings) (info_hash : Text) (e : Engine S)
      → Agrees e
      → Agrees (unpin w true info_hash e)
  unfolding unpin other_pins
  unpin-Agrees w info_hash e a =
      let ih = lower info_hash in
      let left : (k : Text)
          → contains (discard e.pinned ih) k ≡ contains (pin_set (other_pins ih e.pins_file)) k =
        λ k. ground (
          arith,
          contains-discard e.pinned ih k,
          a.written k,
          pin_set-others ih k (or_none e.pins_file),
        ) in
      elim (Option-cases (get ih e.torrents)) [
        | inl absent ↦
            rw (absent, unpin)
              (record {
                flagged = λ k g here.
                    ground
                      (arith, contains-discard e.pinned ih k, a.flagged k g, Text_eq.decides ih k);
                written = left;
                chosen = others-chosen ih e.pins_file a.chosen;
              })
        | inr (h, here) ↦
            rw (here, unpin)
              (record {
                flagged =
                    repin-IsFlagged e.pinned (discard e.pinned ih) e.torrents ih
                      (reapply_priorities (w.side ih) (record h { pinned = false }))
                      (reapply_priorities-pinned (w.side ih) (record h { pinned = false })
                        ∙ sym (
                            ground (arith, contains-discard e.pinned ih ih, Text_eq.decides ih ih)))
                      (λ k other. ground (arith, contains-discard e.pinned ih k)) a.flagged;
                written = left;
                chosen = others-chosen ih e.pins_file a.chosen;
              })
      ]

-- What the engine is asked. A pin that raises in the middle, and a write of pins.json that fails, are
-- left out: the caller hears of either.
pub data Step {S : Type 0} ⦃s : Keyed S⦄ (want_of : S → Option Want)
    : Engine S → Engine S → Type 0 where
  adding : (ih : Text) (e : Engine S) → Step want_of e (add ih e)
  dropping : (ih : Text) (e : Engine S) → Step want_of e (drop_torrent ih e)
  announcing : (w : Surroundings) (e : Engine S) → Step want_of e (apply_pending want_of w e)
  wanting :
      (w : Surroundings) (writable : Bool) (ih : Text) (spec : S) (e : Engine S)
      → Step want_of e (want want_of w writable ih spec e)
  unwanting : (writable : Bool) (ih : Text) (e : Engine S) → Step want_of e (unwant writable ih e)
  pinning :
      (w : Surroundings) (writable : Bool) (ih name : Text) (now : ℕ) (e : Engine S)
      → is_empty ih ≡ false
      → (pin w writable ih name now e).0 ≢ raised
      → Step want_of e (pin w writable ih name now e).1
  unpinning : (w : Surroundings) (ih : Text) (e : Engine S) → Step want_of e (unpin w true ih e)

pub data Reach {S : Type 0} ⦃s : Keyed S⦄ (want_of : S → Option Want) (e : Engine S)
    : Engine S → Type 0 where
  here : Reach want_of e e
  next : {f g : Engine S} → Reach want_of e f → Step want_of f g → Reach want_of e g

module _ {S : Type 0} ⦃s : Keyed S⦄ (want_of : S → Option Want) where
  Step-Agrees : {e f : Engine S} → Step want_of e f → Agrees e → Agrees f
  Step-Agrees (adding ih e) a = add-Agrees ih e a
  Step-Agrees (dropping ih e) a = drop_torrent-Agrees ih e a
  Step-Agrees (announcing w e) a = apply_all-Agrees want_of w e.wanted e a
  Step-Agrees (wanting w writable ih spec e) a = want-Agrees want_of w writable ih spec e a
  Step-Agrees (unwanting writable ih e) a = unwant-Agrees writable ih e a
  Step-Agrees (pinning w writable ih name now e named fine) a =
      pin-Agrees w writable ih name now e named fine a
  Step-Agrees (unpinning w ih e) a = unpin-Agrees w ih e a

  pub Reach-Agrees : {e f : Engine S} → Reach want_of e f → Agrees e → Agrees f
  Reach-Agrees here a = a
  Reach-Agrees (next r step) a = Step-Agrees step (Reach-Agrees r a)
