-- ===== src/Torrent/Handle/Quiet.antt =====
-- The operations of a handle that leave the files' priorities alone, and what libtorrent's calls do to them.
use stremio_libtorrent_serve.Prelude.{
  ℕ, ◌≡◌, ◌≢◌, refl, sym, subst, ◌∙◌, Bool, false, ◌&&◌, some, List, [], ◌∷◌, ◌++◌, set, contains,
  add_to, ℕ_eq, if◌then◌else◌, Bool-cases, inl, inr,
}
use stremio_libtorrent_serve.Torrent.Handle.{
  Call, prioritize_files, file_priority, piece_priority, set_piece_deadline, reset_piece_deadline,
  Info, Torrent, Handle, priorities, attempt, boost_piece, unboost, prefetch_arm,
}

-- What libtorrent's calls do to its file priorities: `prioritize_files` replaces them, `file_priority`
-- sets one, and no call about pieces or the torrent as a whole touches them.
pub record FilePriorities : Type 0 where
  pub effect : Call → List ℕ → List ℕ
  pub replaces : (new old : List ℕ) → effect (prioritize_files new) old ≡ new
  pub sets : (i p : ℕ) (old : List ℕ) → effect (file_priority i p) old ≡ set old i p
  pub leaves :
      (c : Call) (old : List ℕ)
      → ((new : List ℕ) → c ≢ prioritize_files new)
      → ((i p : ℕ) → c ≢ file_priority i p)
      → effect c old ≡ old

module _ (lt : FilePriorities) where
  -- the file priorities after these calls
  unfoldable pub prios_after : List ℕ → List Call → List ℕ
  prios_after prios [] = prios
  prios_after prios (c ∷ calls) = prios_after (lt.effect c prios) calls

  pub prios_after-append :
      (prios : List ℕ) (xs ys : List Call)
      → prios_after prios (xs ++ ys) ≡ prios_after (prios_after prios xs) ys
  unfolding prios_after
  prios_after-append prios [] ys = refl
  prios_after-append prios (x ∷ xs) ys = prios_after-append (lt.effect x prios) xs ys

-- A torrent with its metadata, whose calls libtorrent accepts.
pub record IsLive (t : Torrent) (i : Info) : Type 0 where
  pub info : t.info ≡ some i
  pub accepts : (c : Call) → t.refuses c ≡ false

-- Nothing that the file priorities depend on differs.
pub record SameFiles (lt : FilePriorities) (start : List ℕ) (h k : Handle) : Type 0 where
  pub pinned : k.pinned ≡ h.pinned
  pub wanted : k.wanted ≡ h.wanted
  pub focused : k.focused_idx ≡ h.focused_idx
  pub active : k.active ≡ h.active
  pub prios : prios_after lt start k.calls ≡ prios_after lt start h.calls

module _ (lt : FilePriorities) (start : List ℕ) where
  -- libtorrent's file priorities after the calls of this handle
  abbrev pub prios : Handle → List ℕ
  prios h = prios_after lt start h.calls

  -- libtorrent holds the priorities that the state asks for.
  abbrev pub IsSynced : Info → Handle → Type 0
  IsSynced i h = prios h ≡ priorities i.num_files h h.focused_idx

module _ (t : Torrent) (i : Info) (live : IsLive t i) (lt : FilePriorities) (start : List ℕ) where
  SameFiles-trans :
      {g h k : Handle} → SameFiles lt start g h → SameFiles lt start h k → SameFiles lt start g k
  SameFiles-trans p q = record {
    pinned = q.pinned ∙ p.pinned;
    wanted = q.wanted ∙ p.wanted;
    focused = q.focused ∙ p.focused;
    active = q.active ∙ p.active;
    prios = q.prios ∙ p.prios;
  }

  pub SameFiles-IsSynced :
      (h k : Handle) → SameFiles lt start h k → IsSynced lt start i h → IsSynced lt start i k
  unfolding priorities
  SameFiles-IsSynced h k same e =
      cc (same.prios, e, same.pinned, same.wanted, same.focused, same.active)

  -- one call that leaves the files alone
  pub add_call-prios :
      (h : Handle) (c : Call)
      → ((new : List ℕ) → c ≢ prioritize_files new)
      → ((f p : ℕ) → c ≢ file_priority f p)
      → prios_after lt start (h.calls ++ c ∷ []) ≡ prios lt start h
  unfolding prios_after
  add_call-prios h c nf np =
      prios_after-append lt start h.calls (c ∷ []) ∙ lt.leaves c (prios lt start h) nf np

  pub attempt_one :
      (c : Call) (h : Handle) → attempt t (c ∷ []) h ≡ record h { calls = h.calls ++ c ∷ [] }
  unfolding attempt
  attempt_one c h = rw (live.accepts c) refl

  -- the state after a boost that is not left out
  abbrev boosted_state : ℕ → ℕ → Handle → Handle
  boosted_state piece deadline h = record h {
    boosted = add_to h.boosted piece;
    calls = (h.calls ++ piece_priority piece 7 ∷ []) ++ set_piece_deadline piece deadline ∷ [];
  }

  boost_piece-eq :
      (piece deadline : ℕ) (keep : Bool) (h : Handle)
      → boost_piece t piece deadline keep h
        ≡ some (if keep && contains h.boosted piece then h else boosted_state piece deadline h)
  unfolding boost_piece
  boost_piece-eq piece deadline keep h = elim (Bool-cases (keep && contains h.boosted piece)) [
    | inl e ↦ rw e refl
    | inr e ↦ rw e (
        rw (live.accepts (piece_priority piece 7), live.accepts (set_piece_deadline piece deadline))
          refl)
  ]

  boosted-SameFiles :
      (piece deadline : ℕ) (h : Handle) → SameFiles lt start h (boosted_state piece deadline h)
  boosted-SameFiles piece deadline h = record {
    pinned = refl;
    wanted = refl;
    focused = refl;
    active = refl;
    prios =
        add_call-prios (record h { calls = h.calls ++ piece_priority piece 7 ∷ [] })
          (set_piece_deadline piece deadline) (λ new e. cc e) (λ f p e. cc e)
        ∙ add_call-prios h (piece_priority piece 7) (λ new e. cc e) (λ f p e. cc e);
  }

  SameFiles-refl : (h : Handle) → SameFiles lt start h h
  SameFiles-refl h = record {
    pinned = refl;
    wanted = refl;
    focused = refl;
    active = refl;
    prios = refl;
  }

  pub boost-SameFiles :
      (piece deadline : ℕ) (keep : Bool) (h h' : Handle)
      → boost_piece t piece deadline keep h ≡ some h'
      → SameFiles lt start h h'
  boost-SameFiles piece deadline keep h h' e =
      elim (Bool-cases (keep && contains h.boosted piece)) [
        | inl k ↦
            let known : boost_piece t piece deadline keep h ≡ some h =
              rw k at (boost_piece-eq piece deadline keep h) in
            let same : h ≡ h' = cc (known, e) in
            subst (SameFiles lt start h) same (SameFiles-refl h)
        | inr k ↦
            let known : boost_piece t piece deadline keep h
                ≡ some (boosted_state piece deadline h) =
              rw k at (boost_piece-eq piece deadline keep h) in
            let same : boosted_state piece deadline h ≡ h' = cc (known, e) in
            subst (SameFiles lt start h) same (boosted-SameFiles piece deadline h)
      ]

  -- the state after one piece is dropped back to normal priority
  abbrev dropped_state : ℕ → Handle → Handle
  dropped_state p h = record h {
    calls = (h.calls ++ piece_priority p 4 ∷ []) ++ reset_piece_deadline p ∷ [];
  }

  dropped-SameFiles : (p : ℕ) (h : Handle) → SameFiles lt start h (dropped_state p h)
  dropped-SameFiles p h = record {
    pinned = refl;
    wanted = refl;
    focused = refl;
    active = refl;
    prios =
        add_call-prios (record h { calls = h.calls ++ piece_priority p 4 ∷ [] })
          (reset_piece_deadline p) (λ new e. cc e) (λ f q e. cc e)
        ∙ add_call-prios h (piece_priority p 4) (λ new e. cc e) (λ f q e. cc e);
  }

  unboost-cons :
      (p : ℕ) (pieces : List ℕ) (h : Handle)
      → unboost t (p ∷ pieces) h
        ≡ (if t.have_piece p then unboost t pieces h else unboost t pieces (dropped_state p h))
  unfolding unboost
  unboost-cons p pieces h = elim (Bool-cases (t.have_piece p)) [
    | inl e ↦ rw e refl
    | inr e ↦
        rw e (rw (live.accepts (piece_priority p 4), live.accepts (reset_piece_deadline p)) refl)
  ]

  unboost-nil : (h : Handle) → unboost t [] h ≡ some h
  unfolding unboost
  unboost-nil h = refl

  pub unboost-SameFiles :
      (pieces : List ℕ) (h h' : Handle) → unboost t pieces h ≡ some h' → SameFiles lt start h h'
  unboost-SameFiles [] h h' e =
      let same : h ≡ h' = cc (unboost-nil h, e) in
      subst (SameFiles lt start h) same (SameFiles-refl h)
  unboost-SameFiles (p ∷ pieces) h h' e = elim (Bool-cases (t.have_piece p)) [
    | inl k ↦
        let known : unboost t (p ∷ pieces) h ≡ unboost t pieces h =
          rw k at (unboost-cons p pieces h) in
        unboost-SameFiles pieces h h' (sym known ∙ e)
    | inr k ↦
        let known : unboost t (p ∷ pieces) h ≡ unboost t pieces (dropped_state p h) =
          rw k at (unboost-cons p pieces h) in
        SameFiles-trans (dropped-SameFiles p h)
          (unboost-SameFiles pieces (dropped_state p h) h' (sym known ∙ e))
  ]

  pub arm-SameFiles :
      (pieces : List ℕ) (prio : ℕ) (h : Handle)
      → SameFiles lt start h (prefetch_arm t pieces prio h)
  unfolding prefetch_arm
  arm-SameFiles [] prio h = SameFiles-refl h
  arm-SameFiles (p ∷ pieces) prio h = rw (attempt_one (piece_priority p prio) h) (
      SameFiles-trans
        (record {
          pinned = refl;
          wanted = refl;
          focused = refl;
          active = refl;
          prios = add_call-prios h (piece_priority p prio) (λ new e. cc e) (λ f q e. cc e);
        })
        (arm-SameFiles pieces prio (record h { calls = h.calls ++ piece_priority p prio ∷ [] })))

  quiet-SameFiles :
      (h : Handle) (c : Call)
      → ((new : List ℕ) → c ≢ prioritize_files new)
      → ((f p : ℕ) → c ≢ file_priority f p)
      → SameFiles lt start h (attempt t (c ∷ []) h)
  quiet-SameFiles h c nf np = rw (attempt_one c h) (record {
    pinned = refl;
    wanted = refl;
    focused = refl;
    active = refl;
    prios = add_call-prios h c nf np;
  })
