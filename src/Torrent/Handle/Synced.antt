-- ===== src/Torrent/Handle/Synced.antt =====
-- libtorrent's file priorities stay what the handle's state says they are, through any sequence of
-- requests, streams that open and close, and policy steps.
use stremio_libtorrent_serve.Prelude.{
  ℕ, ◌+◌, ◌-◌, ◌≡◌, refl, sym, ap, subst, ◌∙◌, Bool, true, ◌&&◌, none, some, List, [], ◌∷◌, ◌++◌,
  arith, ltb, nat_eq, set, replicate, add_to, ℕ_eq, if◌then◌else◌, Bool-cases, Option-cases, inl,
  inr,
}
use stremio_libtorrent_serve.Prelude.Text.{is_empty}
use stremio_libtorrent_serve.Torrent.Handle.{
  Call, prioritize_files, file_priority, set_sequential_download, unset_auto_managed, pause_torrent,
  resume_torrent, Info, Torrent, Handle, num_files, focus_prio, mark_wanted, priorities, attempt,
  is_focused, apply_focus, focus_file, reapply_priorities, want_file, set_focused_priority,
  mark_active, mark_idle, pause, resume, note_read_position, boost_piece, refocus, prefetch_arm,
}
use stremio_libtorrent_serve.Torrent.Handle.Priorities.{set-set}
use stremio_libtorrent_serve.Torrent.Handle.Quiet.{
  FilePriorities, prios_after, prios_after-append, IsLive, SameFiles-IsSynced, boost-SameFiles,
  unboost-SameFiles, arm-SameFiles, add_call-prios, attempt_one, IsSynced, prios,
}

-- One thing that happens to a handle (a request for all files, `want_all_files`, is none of them): a file is played or wanted, a stream opens or closes, pieces are
-- boosted, dropped back or prefetched, the seeding policy pauses or resumes, progress is noted.
pub data Step (t : Torrent) : Handle → Handle → Type 0 where
  play : (idx : ℕ) (h : Handle) → Step t h (focus_file t idx h)
  want : (idx : ℕ) (h : Handle) → Step t h (want_file t idx h)
  reapply : (h : Handle) → Step t h (reapply_priorities t h)
  open_stream : (h : Handle) → Step t h (mark_active t h)
  close_stream : (h : Handle) → Step t h (mark_idle t h)
  boost :
      (piece deadline : ℕ) (keep : Bool) (h h' : Handle)
      → boost_piece t piece deadline keep h ≡ some h'
      → Step t h h'
  seek : (h h' : Handle) → refocus t h ≡ some h' → Step t h h'
  arm : (pieces : List ℕ) (prio : ℕ) (h : Handle) → Step t h (prefetch_arm t pieces prio h)
  stop_seeding : (h : Handle) → Step t h (pause t h)
  go_on : (h : Handle) → Step t h (resume t h)
  progress : (at total : ℕ) (h : Handle) → Step t h (note_read_position t at total h)

pub data Reach (t : Torrent) (h : Handle) : Handle → Type 0 where
  here : Reach t h h
  next : {g k : Handle} → Reach t h g → Step t g k → Reach t h k

module _ (t : Torrent) (i : Info) (live : IsLive t i) (lt : FilePriorities) (start : List ℕ) where
  -- the priorities after a call that replaces them, and after one that sets the played file's
  pub replaced :
      (h : Handle) (new : List ℕ)
      → prios_after lt start (h.calls ++ prioritize_files new ∷ []) ≡ new
  unfolding prios_after
  replaced h new =
      prios_after-append lt start h.calls (prioritize_files new ∷ [])
      ∙ lt.replaces new (prios lt start h)

  reapply-IsSynced : (h : Handle) → IsSynced lt start i (reapply_priorities t h)
  unfolding reapply_priorities priorities
  reapply-IsSynced h =
      let n : num_files t ≡ i.num_files = rw live.info refl in
      rw (live.accepts (prioritize_files (priorities (num_files t) h h.focused_idx))) (
        replaced h (priorities (num_files t) h h.focused_idx)
        ∙ ap (λ k. priorities k h h.focused_idx) n)

  want-IsSynced :
      (idx : ℕ) (h : Handle) → IsSynced lt start i h → IsSynced lt start i (want_file t idx h)
  unfolding want_file
  want-IsSynced idx h e = elim (Bool-cases (ltb idx (num_files t))) [
    | inl k ↦ rw (k, want_file) (reapply-IsSynced (record h { wanted = add_to h.wanted idx }))
    | inr k ↦ rw (k, want_file) e
  ]

  -- A played file gets the priority of its open streams, by a call or because it already has it.
  recount-IsSynced :
      (h : Handle) (n : ℕ)
      → focus_prio n ≡ focus_prio h.active
      → IsSynced lt start i h
      → IsSynced lt start i (record h { active = n })
  unfolding priorities
  recount-IsSynced h n e synced = rw e synced

  -- the call that sets the played file's priority, where a file is played
  set_played :
      (h : Handle) (n f prio : ℕ)
      → focus_prio n ≡ prio
      → h.focused_idx ≡ some f
      → IsSynced lt start i h
      → prios_after lt start (h.calls ++ file_priority f prio ∷ [])
        ≡ priorities i.num_files (record h { active = n }) (some f)
  unfolding priorities prios_after
  set_played h n f prio e focused synced =
      let base : List ℕ =
        if h.pinned && is_empty h.wanted
        then replicate i.num_files 1
        else mark_wanted (replicate i.num_files 0) h.wanted in
      let was : prios lt start h ≡ set base f (focus_prio h.active) =
        synced ∙ ap (λ o. priorities i.num_files h o) focused in
      prios_after-append lt start h.calls (file_priority f prio ∷ [])
      ∙ lt.sets f prio (prios lt start h)
      ∙ ap (λ xs. set xs f prio) was
      ∙ set-set base f (focus_prio h.active) prio
      ∙ ap (λ p. set base f p) (sym e)

  pub set_focused_priority-none :
      (h : Handle) (prio : ℕ) → h.focused_idx ≡ none → set_focused_priority t prio h ≡ h
  unfolding set_focused_priority
  set_focused_priority-none h prio e = rw e refl

  pub set_focused_priority-some :
      (h : Handle) (f prio : ℕ)
      → h.focused_idx ≡ some f
      → set_focused_priority t prio h ≡ record h { calls = h.calls ++ file_priority f prio ∷ [] }
  unfolding set_focused_priority
  set_focused_priority-some h f prio e =
      ap (λ o. elim o [ none ↦ h | some i ↦ attempt t (file_priority i prio ∷ []) h ]) e
      ∙ attempt_one t i live lt start (file_priority f prio) h

  promote-IsSynced :
      (h : Handle) (n prio : ℕ)
      → focus_prio n ≡ prio
      → IsSynced lt start i h
      → IsSynced lt start i (set_focused_priority t prio (record h { active = n }))
  unfolding priorities
  promote-IsSynced h n prio e synced = elim (Option-cases h.focused_idx) [
    | inl idle ↦
        let there : prios lt start h
            ≡ priorities i.num_files (record h { active = n }) h.focused_idx =
          synced
          ∙ ap (λ o. priorities i.num_files h o) idle
          ∙ ap (λ o. priorities i.num_files (record h { active = n }) o) (sym idle) in
        subst (IsSynced lt start i)
          (sym (set_focused_priority-none (record h { active = n }) prio idle)) there
    | inr (f, focused) ↦
        let there : prios_after lt start (h.calls ++ file_priority f prio ∷ [])
            ≡ priorities i.num_files (record h { active = n }) h.focused_idx =
          set_played h n f prio e focused synced
          ∙ ap (λ o. priorities i.num_files (record h { active = n }) o) (sym focused) in
        subst (IsSynced lt start i)
          (sym (set_focused_priority-some (record h { active = n }) f prio focused)) there
  ]

  -- `focus_file` ends with the priorities of its file, and with the rest dropped or kept as `wanted` says.
  pub attempt_two :
      (c d : Call) (h : Handle)
      → attempt t (c ∷ d ∷ []) h ≡ record h { calls = (h.calls ++ c ∷ []) ++ d ∷ [] }
  unfolding attempt
  attempt_two c d h = rw (live.accepts c, live.accepts d) refl

  pub apply_focus-IsSynced : (idx : ℕ) (h : Handle) → IsSynced lt start i (apply_focus t idx i h)
  unfolding apply_focus priorities
  apply_focus-IsSynced idx h =
      let h' = record h { wanted = add_to h.wanted idx } in
      let new = priorities i.num_files h' (some idx) in
      rw (attempt_two (prioritize_files new) (set_sequential_download true) h') (
        add_call-prios t i live lt start
          (record h' { calls = h.calls ++ prioritize_files new ∷ [] })
          (set_sequential_download true) (λ xs e. cc e) (λ f q e. cc e)
        ∙ replaced h new)

  focus-IsSynced :
      (idx : ℕ) (h : Handle) → IsSynced lt start i h → IsSynced lt start i (focus_file t idx h)
  unfolding focus_file
  focus-IsSynced idx h synced =
      let h' = record h { read_pos = 0; read_total = 0; prefetched = [] } in
      elim (Bool-cases (is_focused t h idx)) [
        | inl k ↦ rw (focus_file, k) synced
        | inr k ↦ rw (focus_file, k) (rw live.info (apply_focus-IsSynced idx h'))
      ]

  open-IsSynced : (h : Handle) → IsSynced lt start i h → IsSynced lt start i (mark_active t h)
  unfolding mark_active
  open-IsSynced h synced = elim (Bool-cases (nat_eq (h.active + 1) 1)) [
    | inl k ↦ rw (mark_active, k) (promote-IsSynced h (h.active + 1) 4 (ground arith) synced)
    | inr k ↦ rw (mark_active, k) (recount-IsSynced h (h.active + 1) (ground arith) synced)
  ]

  close-IsSynced : (h : Handle) → IsSynced lt start i h → IsSynced lt start i (mark_idle t h)
  unfolding mark_idle
  close-IsSynced h synced =
      let n : ℕ = if ltb 0 h.active then h.active - 1 else h.active in
      elim (Bool-cases (nat_eq n 0)) [
        | inl k ↦ rw (mark_idle, k) (promote-IsSynced h n 1 (ground arith) synced)
        | inr k ↦ rw (mark_idle, k) (recount-IsSynced h n (ground arith) synced)
      ]

  pause-IsSynced : (h : Handle) → IsSynced lt start i h → IsSynced lt start i (pause t h)
  unfolding pause priorities
  pause-IsSynced h synced = rw (attempt_two unset_auto_managed pause_torrent h) (
      add_call-prios t i live lt start (record h { calls = h.calls ++ unset_auto_managed ∷ [] })
        pause_torrent (λ xs e. cc e) (λ f q e. cc e)
      ∙ add_call-prios t i live lt start h unset_auto_managed (λ xs e. cc e) (λ f q e. cc e)
      ∙ synced)

  resume-IsSynced : (h : Handle) → IsSynced lt start i h → IsSynced lt start i (resume t h)
  unfolding resume priorities
  resume-IsSynced h synced =
      rw (attempt_one t i live lt start resume_torrent h)
        (add_call-prios t i live lt start h resume_torrent (λ xs e. cc e) (λ f q e. cc e) ∙ synced)

  seek-IsSynced :
      (h h' : Handle) → refocus t h ≡ some h' → IsSynced lt start i h → IsSynced lt start i h'
  unfolding refocus priorities
  seek-IsSynced h h' e synced =
      let from = record h { boosted = [] } in
      SameFiles-IsSynced t i live lt start from h'
        (unboost-SameFiles t i live lt start h.boosted from h' e) synced

  Step-IsSynced : {h k : Handle} → Step t h k → IsSynced lt start i h → IsSynced lt start i k
  unfolding note_read_position priorities
  Step-IsSynced (play idx h) synced = focus-IsSynced idx h synced
  Step-IsSynced (want idx h) synced = want-IsSynced idx h synced
  Step-IsSynced (reapply h) synced = reapply-IsSynced h
  Step-IsSynced (open_stream h) synced = open-IsSynced h synced
  Step-IsSynced (close_stream h) synced = close-IsSynced h synced
  Step-IsSynced (boost piece deadline keep h h' e) synced =
      SameFiles-IsSynced t i live lt start h h'
        (boost-SameFiles t i live lt start piece deadline keep h h' e) synced
  Step-IsSynced (seek h h' e) synced = seek-IsSynced h h' e synced
  Step-IsSynced (arm pieces prio h) synced =
      SameFiles-IsSynced t i live lt start h (prefetch_arm t pieces prio h)
        (arm-SameFiles t i live lt start pieces prio h) synced
  Step-IsSynced (stop_seeding h) synced = pause-IsSynced h synced
  Step-IsSynced (go_on h) synced = resume-IsSynced h synced
  Step-IsSynced (progress at total h) synced = synced

  pub Reach-IsSynced : {h k : Handle} → Reach t h k → IsSynced lt start i h → IsSynced lt start i k
  Reach-IsSynced here synced = synced
  Reach-IsSynced (next r s) synced = Step-IsSynced s (Reach-IsSynced r synced)
