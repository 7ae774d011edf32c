-- ===== src/Stream/FileServer/Outcome.antt =====
-- What one round of `wait_and_read` can do, and the induction over its rounds.
use stremio_libtorrent_serve.Prelude.{
  ℕ, zero, suc, ◌+◌, ◌<◌, ◌≡◌, ◌≢◌, ◌⊎◌, ◌∙◌, refl, Bool, true, not, Option, none, some, List, [],
  ◌∷◌, ◌++◌, inl, inr, arith, ltb, ltb→lt, length, Bool-cases,
}
use stremio_libtorrent_serve.Stream.FileServer.{
  World, Request, State, End, served, raised, out_of_fuel, Waited, arrived, late, lost, wait_for,
  slide, budget, read_size, piece_at, count_timeout, count_stall, take_bytes, read_chunk, finish,
  round, continue, go,
}

-- A piece that the wait reports is there at the moment the wait ends, and the handle is valid.
pub wait_for-arrived :
    (w : World) (fuel piece deadline now : ℕ)
    → (wait_for w fuel piece deadline now).0 ≡ arrived
    → (w.have_piece (wait_for w fuel piece deadline now).1 piece ≡ true)
      × (w.valid (wait_for w fuel piece deadline now).1 ≡ true)
unfolding wait_for
wait_for-arrived w zero piece deadline now h = cc
wait_for-arrived w (suc fuel) piece deadline now h =
    ground (arith, wait_for-arrived w fuel piece deadline (now + 200))

-- Nothing but the clock and the counters differs.
pub record SameWork (s t : State) : Type 0 where
  pub pos : t.pos ≡ s.pos
  pub next : t.next ≡ s.next
  pub yielded : t.yielded ≡ s.yielded
  pub out : t.out ≡ s.out
  pub boosts : t.boosts ≡ s.boosts
  pub reads : t.reads ≡ s.reads

module _ (r : Request) (w : World) where
  -- The bytes that a round read from a piece that was there, and the state that they lead to.
  pub record Advance (s t : State) : Type 0 where
    pub at : ℕ
    pub first : ℕ
    pub rest : List ℕ
    pub there : w.have_piece at (piece_at r s.pos) ≡ true
    pub read : w.read at s.pos (read_size r s.pos) ≡ some (first ∷ rest)
    pub pos : t.pos ≡ s.pos + length (first ∷ rest)
    pub next : t.next ≡ s.next
    pub out : t.out ≡ s.out ++ first ∷ rest
    pub boosts : t.boosts ≡ s.boosts
    pub reads :
        t.reads ≡ s.reads ++ record { at = at; position = s.pos; size = length (first ∷ rest) } ∷ []

  pub data Outcome (s : State) : End × State → Type 0 where
    stop : {e : End} {t : State} → e ≢ served → e ≢ out_of_fuel → SameWork s t → Outcome s (e, t)
    advance : {t : State} → Advance s t → Outcome s (served, t)

  count_timeout-SameWork : (s : State) → SameWork s (count_timeout r s)
  unfolding count_timeout
  count_timeout-SameWork s = record {
    pos = refl;
    next = refl;
    yielded = refl;
    out = refl;
    boosts = refl;
    reads = refl;
  }

  read_chunk-Outcome :
      (s : State) (bytes : Option (List ℕ))
      → w.have_piece s.now (piece_at r s.pos) ≡ true
      → w.read s.now s.pos (read_size r s.pos) ≡ bytes
      → Outcome s (read_chunk r w s bytes)
  unfolding read_chunk count_timeout take_bytes
  read_chunk-Outcome s none there read = stop (cc) (cc) (count_timeout-SameWork s)
  read_chunk-Outcome s (some []) there read =
      stop (cc) (cc) (record {
        pos = refl;
        next = refl;
        yielded = refl;
        out = refl;
        boosts = refl;
        reads = refl;
      })
  read_chunk-Outcome s (some (b ∷ bytes)) there read = advance (record {
    at = s.now;
    first = b;
    rest = bytes;
    there = there;
    read = read;
    pos = refl;
    next = refl;
    out = refl;
    boosts = refl;
    reads = refl;
  })

  SameWork-trans : {s t u : State} → SameWork s t → SameWork t u → SameWork s u
  SameWork-trans h k = record {
    pos = k.pos ∙ h.pos;
    next = k.next ∙ h.next;
    yielded = k.yielded ∙ h.yielded;
    out = k.out ∙ h.out;
    boosts = k.boosts ∙ h.boosts;
    reads = k.reads ∙ h.reads;
  }

  -- An outcome from a state is one from any state with the same work done.
  Outcome-SameWork : {s t : State} {x : End × State} → SameWork s t → Outcome t x → Outcome s x
  Outcome-SameWork h (stop ne nf k) = stop ne nf (SameWork-trans h k)
  Outcome-SameWork h (advance a) = advance (record {
    at = a.at;
    first = a.first;
    rest = a.rest;
    there = cc (a.there, h.pos);
    read = cc (a.read, h.pos);
    pos = cc (a.pos, h.pos);
    next = a.next ∙ h.next;
    out = cc (a.out, h.out);
    boosts = a.boosts ∙ h.boosts;
    reads = cc (a.reads, h.reads, h.pos);
  })

  count_stall-SameWork : (had_to_wait : Bool) (s : State) → SameWork s (count_stall r had_to_wait s)
  unfolding count_stall
  count_stall-SameWork had_to_wait s = record {
    pos = refl;
    next = refl;
    yielded = refl;
    out = refl;
    boosts = refl;
    reads = refl;
  }

  finish-Outcome :
      (had_to_wait : Bool) (s : State) (waited : Waited)
      → (waited ≡ arrived → w.have_piece s.now (piece_at r s.pos) ≡ true)
      → Outcome s (finish r w had_to_wait s waited)
  unfolding finish count_timeout
  finish-Outcome had_to_wait s lost there = stop (cc) (cc) (count_timeout-SameWork s)
  finish-Outcome had_to_wait s late there = stop (cc) (cc) (count_timeout-SameWork s)
  finish-Outcome had_to_wait s arrived there =
      Outcome-SameWork (count_stall-SameWork had_to_wait s) (
        unfold count_stall in
        read_chunk-Outcome (count_stall r had_to_wait s) (w.read s.now s.pos (read_size r s.pos))
          (there refl) refl)

  -- One round: it stops before it has changed anything, or goes on from the slid window.
  pub round-Outcome :
      (s : State)
      → ((round r w s).0 ≡ raised) × SameWork s (round r w s).1 ⊎ Outcome (slide r s) (round r w s)
  unfolding round slide
  round-Outcome s = elim (Bool-cases (w.valid s.now)) [
    | inl ok ↦ rw ok (
        inr (
          let x = wait_for w (budget r s + 1) (piece_at r s.pos) (s.now + budget r s) s.now in
          Outcome-SameWork {t = record (slide r s) { now = x.1 }}
            (record {
              pos = refl;
              next = refl;
              yielded = refl;
              out = refl;
              boosts = refl;
              reads = refl;
            })
            (finish-Outcome (not (w.have_piece s.now (piece_at r s.pos)))
              (record (slide r s) { now = x.1 }) x.0 (λ e. (wait_for-arrived w _ _ _ _ e).0))))
    | inr bad ↦ rw bad (inl (refl, count_timeout-SameWork s))
  ]

  -- What every round keeps, the loop keeps.
  module _ {ℓ} (P : State → Type ℓ) (same : (s t : State) → SameWork s t → P s → P t)
      (slides : (s : State) → s.pos < r.stop → P s → P (slide r s))
      (advances : (s t : State)
        → s.pos < r.stop
        → Advance (slide r s) t
        → P (slide r s)
        → P t) where
    step :
        (s : State) {x : End × State}
        → s.pos < r.stop
        → P (slide r s)
        → Outcome (slide r s) x
        → P x.1
    step s h p (stop {t = t} _ _ k) = same (slide r s) t k p
    step s h p (advance {t = t} a) = advances s t h a p

    round_keeps : (s : State) → s.pos < r.stop → P s → P (round r w s).1
    round_keeps s h p = elim (round-Outcome s) [
      | inl (_, k) ↦ same s (round r w s).1 k p
      | inr o ↦ step s h (slides s h p) o
    ]

    continue_keeps :
        (k : State → End × State) (x : End × State)
        → ((t : State) → P t → P (k t).1)
        → P x.1
        → P (continue r w k x).1
    unfolding continue
    continue_keeps k (served, s) f p = f s p
    continue_keeps k (_, s) f p = p

    pub go_keeps : (fuel : ℕ) (s : State) → P s → P (go r w fuel s).1
    unfolding go
    go_keeps zero s p = p
    go_keeps (suc fuel) s p = elim (Bool-cases (ltb s.pos r.stop)) [
      | inl more ↦
          rw (more, go)
            (continue_keeps (λ t. go r w fuel t) (round r w s) (λ t q. go_keeps fuel t q)
              (round_keeps s (ltb→lt _ _ more) p))
      | inr done ↦ rw (done, go) p
    ]
