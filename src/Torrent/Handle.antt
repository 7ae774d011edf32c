-- ===== src/Torrent/Handle.antt =====
-- torrent/engine.py, `Handle`: one torrent's state beside libtorrent's handle. What the methods ask
-- of libtorrent is a list of calls, in order; a call that `refuses` says raises and leaves no trace,
-- and most methods swallow that. The torrent's metadata is `Info`, or absent. File and piece indices
-- are not negative, and sets are lists without duplicates.
pub mod Priorities
pub mod Quiet
pub mod Synced
pub mod Wanted
pub mod Present
use stremio_libtorrent_serve.Prelude.{
  ℕ, zero, suc, ◌+◌, ◌-◌, Bool, true, false, not, ◌&&◌, Option, none, some, List, [], ◌∷◌, ◌++◌,
  leb, ltb, nat_eq, if◌then◌else◌, replicate, set, contains, add_to, ℕ_eq,
}
use stremio_libtorrent_serve.Prelude.Text.{is_empty}
use stremio_libtorrent_serve.Prelude.Int.{ℤ, pos, leb_ℤ}
use stremio_libtorrent_serve.Torrent.Picker.{pieces_for_range}
use stremio_libtorrent_serve.Torrent.Policy.{adaptive_sequential}

pub data Call : Type 0 where
  prioritize_files : List ℕ → Call
  file_priority : ℕ → ℕ → Call
  piece_priority : ℕ → ℕ → Call
  prioritize_pieces : List ℕ → Call
  set_piece_deadline : ℕ → ℕ → Call
  reset_piece_deadline : ℕ → Call
  set_sequential_download : Bool → Call
  unset_auto_managed : Call
  pause_torrent : Call
  resume_torrent : Call

pub record Info : Type 0 where
  pub num_files : ℕ
  pub piece_length : ℕ
  pub num_pieces : ℕ
  pub file_size : ℕ → ℕ
  pub file_offset : ℕ → ℕ

-- libtorrent's side of the torrent.
pub record Torrent : Type 0 where
  pub info : Option Info
  pub have_piece : ℕ → Bool
  pub refuses : Call → Bool

pub record Handle : Type 0 where
  pub pinned : Bool
  pub wanted : List ℕ
  pub boosted : List ℕ
  pub focused_idx : Option ℕ
  pub active : ℕ
  pub paused : Bool
  pub adaptive_seq : Bool
  pub read_pos : ℕ
  pub read_total : ℕ
  pub prefetched : List ℕ
  -- the calls that libtorrent has accepted so far
  pub calls : List Call

abbrev pub active_file_prio : ℕ
active_file_prio = 4

abbrev pub idle_file_prio : ℕ
idle_file_prio = 1

abbrev pub num_files : Torrent → ℕ
num_files t = elim t.info [ none ↦ 0 | some i ↦ i.num_files ]

unfoldable pub mark_wanted : List ℕ → List ℕ → List ℕ
mark_wanted prios [] = prios
mark_wanted prios (i ∷ wanted) = mark_wanted (set prios i idle_file_prio) wanted

abbrev pub set_focus : Option ℕ → ℕ → List ℕ → List ℕ
set_focus none prio prios = prios
set_focus (some i) prio prios = set prios i prio

abbrev pub focus_prio : ℕ → ℕ
focus_prio active = if ltb 0 active then active_file_prio else idle_file_prio

-- `_priorities`
unfoldable pub priorities : ℕ → Handle → Option ℕ → List ℕ
unfolding mark_wanted
priorities n h focus =
    set_focus focus (focus_prio h.active) (
      if h.pinned && is_empty h.wanted then replicate n 1 else mark_wanted (replicate n 0) h.wanted)

abbrev pub same_bool : Bool → Bool → Bool
same_bool true b = b
same_bool false b = not b

module _ (t : Torrent) where
  -- Calls made one after the other, until one raises.
  unfoldable pub attempt : List Call → Handle → Handle
  attempt [] h = h
  attempt (c ∷ calls) h =
      let more = attempt calls (record h { calls = h.calls ++ c ∷ [] }) in
      if t.refuses c then h else more

  abbrev pub is_focused : Handle → ℕ → Bool
  is_focused h idx = elim h.focused_idx [ none ↦ false | some i ↦ nat_eq i idx ]

  unfoldable pub apply_focus : ℕ → Info → Handle → Handle
  unfolding attempt priorities
  apply_focus idx i h =
      let h' = record h { wanted = add_to h.wanted idx } in
      record (attempt
        (prioritize_files (priorities i.num_files h' (some idx))
          ∷ set_sequential_download true
          ∷ [])
        h') { focused_idx = some idx }

  unfoldable pub focus_file : ℕ → Handle → Handle
  focus_file idx h =
      if is_focused h idx
      then h
      else let h' = record h { read_pos = 0; read_total = 0; prefetched = [] } in
        elim t.info [ none ↦ h' | some i ↦ apply_focus idx i h' ]

  unfoldable pub want_all_files : Handle → Handle
  unfolding attempt
  want_all_files h = elim t.info [
    | none ↦ h
    | some i ↦ record (attempt (prioritize_files (replicate i.num_files 1) ∷ []) h) {
      focused_idx = none;
    }
  ]

  unfoldable pub reapply_priorities : Handle → Handle
  unfolding attempt priorities
  reapply_priorities h =
      attempt (prioritize_files (priorities (num_files t) h h.focused_idx) ∷ []) h

  unfoldable pub want_file : ℕ → Handle → Handle
  want_file idx h =
      if ltb idx (num_files t)
      then reapply_priorities (record h { wanted = add_to h.wanted idx })
      else h

  unfoldable pub set_focused_priority : ℕ → Handle → Handle
  unfolding attempt
  set_focused_priority prio h = elim h.focused_idx [
    | none ↦ h
    | some i ↦ attempt (file_priority i prio ∷ []) h
  ]

  unfoldable pub mark_active : Handle → Handle
  mark_active h =
      let h' = record h { active = h.active + 1 } in
      if nat_eq h'.active 1 then set_focused_priority active_file_prio h' else h'

  unfoldable pub mark_idle : Handle → Handle
  mark_idle h =
      let h' = record h { active = if ltb 0 h.active then h.active - 1 else h.active } in
      if nat_eq h'.active 0 then set_focused_priority idle_file_prio h' else h'

  unfoldable pub pause : Handle → Handle
  unfolding attempt
  pause h = record (attempt (unset_auto_managed ∷ pause_torrent ∷ []) h) { paused = true }

  unfoldable pub resume : Handle → Handle
  unfolding attempt
  resume h = record (attempt (resume_torrent ∷ []) h) { paused = false }

  unfoldable pub note_read_position : ℕ → ℕ → Handle → Handle
  note_read_position at total h = record h { read_pos = at; read_total = total }

  -- `piece_priority` is not guarded: where it raises, so does the method, before anything changes.
  unfoldable pub boost_piece : ℕ → ℕ → Bool → Handle → Option Handle
  unfolding attempt
  boost_piece piece deadline_ms keep_existing h =
      if keep_existing && contains h.boosted piece
      then some h
      else if t.refuses (piece_priority piece 7)
      then none
      else let h' =
          attempt (set_piece_deadline piece deadline_ms ∷ [])
            (record h { calls = h.calls ++ piece_priority piece 7 ∷ [] }) in
        some (record h' { boosted = add_to h'.boosted piece })

  -- the loop of `refocus` over the pieces that were boosted
  unfoldable pub unboost : List ℕ → Handle → Option Handle
  unfolding attempt
  unboost [] h = some h
  unboost (p ∷ pieces) h =
      let kept = unboost pieces h in
      let dropped = unboost pieces (
        attempt (reset_piece_deadline p ∷ [])
          (record h { calls = h.calls ++ piece_priority p 4 ∷ [] })) in
      if t.have_piece p then kept else if t.refuses (piece_priority p 4) then none else dropped

  unfoldable pub refocus : Handle → Option Handle
  unfolding unboost
  refocus h = unboost h.boosted (record h { boosted = [] })

  unfoldable pub prefetch_arm : List ℕ → ℕ → Handle → Handle
  unfolding attempt
  prefetch_arm [] prio h = h
  prefetch_arm (p ∷ pieces) prio h =
      prefetch_arm pieces prio (attempt (piece_priority p prio ∷ []) h)

  unfoldable pub all_present : List ℕ → Bool
  all_present [] = true
  all_present (p ∷ pieces) = t.have_piece p && all_present pieces

  unfoldable pub file_complete : ℕ → Bool
  unfolding all_present
  file_complete idx = elim t.info [
    | none ↦ false
    | some i ↦
        let size = i.file_size idx in
        let off = i.file_offset idx in
        if nat_eq size 0
        then false
        else all_present (pieces_for_range off (off + size - 1) i.piece_length)
  ]

  -- how many bytes stand contiguous from piece `p` on, at most just past `high`; `rounds` is the
  -- count of pieces left
  unfoldable pub ahead_from : ℕ → ℤ → ℕ → ℕ → ℕ → ℕ
  ahead_from piece_length high zero p ahead = ahead
  ahead_from piece_length high (suc rounds) p ahead =
      let more = ahead_from piece_length high rounds (p + 1) (ahead + piece_length) in
      if leb_ℤ (pos ahead) high && t.have_piece p then more else ahead

  unfoldable pub minimum : ℕ → List ℕ → ℕ
  minimum m [] = m
  minimum m (p ∷ pieces) = minimum (if ltb p m then p else m) pieces

  abbrev pub switch : Bool → Handle → Handle × Option Bool
  switch want_seq h =
      if same_bool want_seq h.adaptive_seq
      then (h, none)
      else if t.refuses (set_sequential_download want_seq)
      then (h, none)
      else (
        record h {
          adaptive_seq = want_seq;
          calls = h.calls ++ set_sequential_download want_seq ∷ [];
        },
        some want_seq,
      )

  -- the decision for the buffer ahead of a playhead
  unfoldable pub tick_at : ℤ → ℤ → Info → ℕ → Handle → Handle × Option Bool
  unfolding ahead_from
  tick_at low high i playhead h =
      let ahead = ahead_from i.piece_length high (i.num_pieces - playhead) playhead 0 in
      switch (adaptive_sequential ahead h.adaptive_seq low high) h

  abbrev pub tick_boosted : ℤ → ℤ → Info → List ℕ → Handle → Handle × Option Bool
  tick_boosted low high i [] h = (h, none)
  tick_boosted low high i (p ∷ pieces) h = tick_at low high i (minimum p pieces) h

  unfoldable pub adaptive_tick : ℤ → ℤ → Handle → Handle × Option Bool
  unfolding tick_at minimum
  adaptive_tick low high h = elim t.info [
    | none ↦ (h, none)
    | some i ↦ tick_boosted low high i h.boosted h
  ]
