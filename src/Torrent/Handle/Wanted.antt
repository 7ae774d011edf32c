-- ===== src/Torrent/Handle/Wanted.antt =====
-- What a handle's file priorities mean over its life: a wanted file is never dropped again.
use stremio_libtorrent_serve.Prelude.{
  ℕ, ◌+◌, ◌-◌, ◌≤◌, ◌<◌, ◌≡◌, ◌≢◌, refl, ap, ◌∙◌, Bool, true, false, none, some, List, [], ◌∷◌,
  ◌++◌, arith, ltb, nat_eq, get_or, replicate, contains, add_to, contains-add_to, ℕ_eq,
  if◌then◌else◌, Bool-cases, Option-cases, inl, inr,
}
use stremio_libtorrent_serve.Torrent.Handle.{
  Call, prioritize_files, set_sequential_download, unset_auto_managed, pause_torrent,
  resume_torrent, Info, Torrent, Handle, num_files, focus_prio, priorities, attempt, is_focused,
  apply_focus, focus_file, want_all_files, reapply_priorities, want_file, set_focused_priority,
  mark_active, mark_idle, pause, resume, note_read_position, refocus,
}
use stremio_libtorrent_serve.Torrent.Handle.Priorities.{get_or-priorities, base_prio, focused_on}
use stremio_libtorrent_serve.Torrent.Handle.Quiet.{
  FilePriorities, IsLive, boost-SameFiles, unboost-SameFiles, arm-SameFiles, attempt_one, IsSynced,
  prios,
}
use stremio_libtorrent_serve.Torrent.Handle.Synced.{
  Step, play, want, reapply, open_stream, close_stream, boost, seek, arm, stop_seeding, go_on,
  progress, Reach, here, next, Reach-IsSynced, attempt_two, apply_focus-IsSynced, replaced,
  set_focused_priority-none, set_focused_priority-some,
}

contains-kept : (xs : List ℕ) (i j : ℕ) → contains xs i ≡ true → contains (add_to xs j) i ≡ true
contains-kept xs i j e = ground (arith, contains-add_to xs j i)

module _ (t : Torrent) (i : Info) (live : IsLive t i) (lt : FilePriorities) (start : List ℕ) where
  attempt-wanted : (calls : List Call) (h : Handle) → (attempt t calls h).wanted ≡ h.wanted
  unfolding attempt
  attempt-wanted [] h = refl
  attempt-wanted (c ∷ calls) h = elim (Bool-cases (t.refuses c)) [
    | inl e ↦ rw e refl
    | inr e ↦ rw e (attempt-wanted calls (record h { calls = h.calls ++ c ∷ [] }))
  ]

  set_focused_priority-wanted :
      (prio : ℕ) (h : Handle) → (set_focused_priority t prio h).wanted ≡ h.wanted
  set_focused_priority-wanted prio h = elim (Option-cases h.focused_idx) [
    | inl e ↦ ap (λ k. k.wanted) (set_focused_priority-none t i live lt start h prio e)
    | inr (f, e) ↦ ap (λ k. k.wanted) (set_focused_priority-some t i live lt start h f prio e)
  ]

  focus-wanted :
      (f idx : ℕ) (h : Handle)
      → contains h.wanted f ≡ true
      → contains (focus_file t idx h).wanted f ≡ true
  unfolding focus_file apply_focus
  focus-wanted f idx h e =
      let h' = record h {
        read_pos = 0;
        read_total = 0;
        prefetched = [];
        wanted = add_to h.wanted idx;
      } in
      let calls =
        prioritize_files (priorities i.num_files h' (some idx))
        ∷ set_sequential_download true
        ∷ [] in
      elim (Bool-cases (is_focused t h idx)) [
        | inl k ↦ rw (focus_file, k) e
        | inr k ↦
            rw (focus_file, k)
              (rw (live.info, attempt-wanted calls h') (contains-kept h.wanted f idx e))
      ]

  want-wanted :
      (f idx : ℕ) (h : Handle)
      → contains h.wanted f ≡ true
      → contains (want_file t idx h).wanted f ≡ true
  unfolding want_file reapply_priorities
  want-wanted f idx h e =
      let h' = record h { wanted = add_to h.wanted idx } in
      elim (Bool-cases (ltb idx (num_files t))) [
        | inl k ↦
            rw (want_file, k)
              (rw
                (attempt-wanted (prioritize_files (priorities (num_files t) h' h.focused_idx) ∷ [])
                  h')
                (contains-kept h.wanted f idx e))
        | inr k ↦ rw (want_file, k) e
      ]

  open-wanted : (h : Handle) → (mark_active t h).wanted ≡ h.wanted
  unfolding mark_active
  open-wanted h = ground (arith, set_focused_priority-wanted 4 (record h { active = h.active + 1 }))

  close-wanted : (h : Handle) → (mark_idle t h).wanted ≡ h.wanted
  unfolding mark_idle
  close-wanted h =
      let n : ℕ = if ltb 0 h.active then h.active - 1 else h.active in
      elim (Bool-cases (nat_eq n 0)) [
        | inl k ↦ rw (mark_idle, k) (set_focused_priority-wanted 1 (record h { active = n }))
        | inr k ↦ rw (mark_idle, k) refl
      ]

  Step-wanted :
      (f : ℕ) {h k : Handle} → Step t h k → contains h.wanted f ≡ true → contains k.wanted f ≡ true
  unfolding note_read_position reapply_priorities pause resume refocus
  Step-wanted f (play idx h) e = focus-wanted f idx h e
  Step-wanted f (want idx h) e = want-wanted f idx h e
  Step-wanted f (reapply h) e =
      rw (attempt-wanted (prioritize_files (priorities (num_files t) h h.focused_idx) ∷ []) h) e
  Step-wanted f (open_stream h) e = rw (open-wanted h) e
  Step-wanted f (close_stream h) e = rw (close-wanted h) e
  Step-wanted f (boost piece deadline keep h h' q) e =
      rw (boost-SameFiles t i live lt start piece deadline keep h h' q).wanted e
  Step-wanted f (seek h h' q) e =
      rw (unboost-SameFiles t i live lt start h.boosted (record h { boosted = [] }) h' q).wanted e
  Step-wanted f (arm pieces prio h) e = rw (arm-SameFiles t i live lt start pieces prio h).wanted e
  Step-wanted f (stop_seeding h) e =
      rw (attempt-wanted (unset_auto_managed ∷ pause_torrent ∷ []) h) e
  Step-wanted f (go_on h) e = rw (attempt-wanted (resume_torrent ∷ []) h) e
  Step-wanted f (progress at total h) e = e

  Reach-wanted :
      (f : ℕ) {h k : Handle} → Reach t h k → contains h.wanted f ≡ true → contains k.wanted f ≡ true
  Reach-wanted f here e = e
  Reach-wanted f (next r s) e = Step-wanted f s (Reach-wanted f r e)

  -- On a torrent with metadata whose calls libtorrent accepts, from a handle in step with libtorrent:
  -- after any sequence of the steps of `Step` (files are played and wanted one by one, streams opened,
  -- closed and sought, pieces boosted and prefetched, priorities reapplied, the torrent paused and
  -- resumed; `want_all_files` and a change of the pin are no such step), every file of the torrent has in
  -- libtorrent the priority that the state then says: the played file 4 while a stream is open and 1 after
  -- the last one closed, every other file 1 if it is wanted, or if the torrent is pinned with no file
  -- wanted, else 0.
  pub Reach-file_priority :
      {h k : Handle} (f : ℕ)
      → f < i.num_files
      → IsSynced lt start i h
      → Reach t h k
      → get_or (prios lt start k) f 0
        ≡ (if focused_on k.focused_idx f then focus_prio k.active else base_prio k f)
  Reach-file_priority {h} {k} f inside synced r =
      rw (Reach-IsSynced t i live lt start r synced)
        (get_or-priorities i.num_files k k.focused_idx f inside)

  -- On a torrent with metadata whose calls libtorrent accepts, from a handle in step with libtorrent: a
  -- file that is wanted keeps a priority above 0 in libtorrent after any sequence of the steps of `Step`
  -- (files are played and wanted one by one, streams opened, closed and sought, pieces boosted and
  -- prefetched, priorities reapplied, the torrent paused and resumed; `want_all_files` and a change of
  -- the pin are no such step).
  pub Reach-keeps_wanted :
      {h k : Handle} (f : ℕ)
      → f < i.num_files
      → IsSynced lt start i h
      → contains h.wanted f ≡ true
      → Reach t h k
      → 1 ≤ get_or (prios lt start k) f 0
  Reach-keeps_wanted {h} {k} f inside synced wanted r =
      ground (arith, Reach-file_priority f inside synced r, Reach-wanted f r wanted)

  want_all_files-eq :
      (h : Handle)
      → want_all_files t h ≡ record h {
        calls = h.calls ++ prioritize_files (replicate i.num_files 1) ∷ [];
        focused_idx = none;
      }
  unfolding want_all_files
  want_all_files-eq h =
      rw live.info
        (rw (attempt_one t i live lt start (prioritize_files (replicate i.num_files 1)) h) refl)

  focus_file-eq :
      (idx : ℕ) (h : Handle)
      → h.focused_idx ≡ none
      → focus_file t idx h
        ≡ apply_focus t idx i (record h { read_pos = 0; read_total = 0; prefetched = [] })
  unfolding focus_file apply_focus
  focus_file-eq idx h e =
      let k : is_focused t h idx ≡ false =
        ap (λ o. elim o as (λ u. Bool) [ none ↦ false | some g ↦ nat_eq g idx ]) e in
      rw (focus_file, k) (rw live.info refl)

  -- the priority of another file after one file is played on such a torrent
  unpinned-dropped :
      (h : Handle) (f idx : ℕ)
      → f < i.num_files
      → f ≢ idx
      → h.pinned ≡ false
      → h.wanted ≡ []
      → get_or (prios lt start (apply_focus t idx i h)) f 0 ≡ 0
  unfolding apply_focus contains add_to
  unpinned-dropped h f idx inside other unpinned none_wanted =
      let h' = record h { wanted = add_to h.wanted idx } in
      let k = apply_focus t idx i h in
      let new = priorities i.num_files h' (some idx) in
      ap (λ xs. get_or xs f 0) (apply_focus-IsSynced t i live lt start idx h)
      ∙ get_or-priorities i.num_files k k.focused_idx f inside
      ∙ rw (attempt_two t i live lt start (prioritize_files new) (set_sequential_download true) h')
          (rw (unpinned, none_wanted) (ground arith))

  -- A torrent with metadata whose calls libtorrent accepts, not pinned and without a wanted file, asked for as a whole by `want_all_files`, gives
  -- every file priority 1; but the first file played afterwards takes all others back to 0.
  pub want_all_files-forgotten :
      (h : Handle) (f idx : ℕ)
      → f < i.num_files
      → f ≢ idx
      → h.pinned ≡ false
      → h.wanted ≡ []
      → (prios lt start (want_all_files t h) ≡ replicate i.num_files 1)
        × (get_or (prios lt start (focus_file t idx (want_all_files t h))) f 0 ≡ 0)
  want_all_files-forgotten h f idx inside other unpinned none_wanted =
      let g = record h {
        calls = h.calls ++ prioritize_files (replicate i.num_files 1) ∷ [];
        focused_idx = none;
      } in
      rw (want_all_files-eq h) (
        replaced t i live lt start h (replicate i.num_files 1),
        rw (focus_file-eq idx g refl) (
            unpinned-dropped (record g { read_pos = 0; read_total = 0; prefetched = [] }) f idx
              inside other unpinned none_wanted),
      )
