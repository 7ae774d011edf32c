-- ===== src/Tests/Handling.antt =====
-- A torrent of three files, one of which is played while another one is asked for.
use stremio_libtorrent_serve.Prelude.{
  ℕ, ◌≤◌, ◌+◌, ◌<◌, ◌≡◌, ◌≢◌, ◌↔◌, ◌*◌, ◌/◌, refl, true, false, some, none, List, [], ◌∷◌, arith,
  set, get_or, contains, add_to, leb, ℕ_eq, if◌then◌else◌,
}
use stremio_libtorrent_serve.Torrent.Handle.{
  file_complete, Call, prioritize_files, file_priority, piece_priority, prioritize_pieces,
  set_piece_deadline, reset_piece_deadline, set_sequential_download, unset_auto_managed,
  pause_torrent, resume_torrent, Info, Torrent, Handle, focus_prio, focus_file, want_file,
  mark_active, mark_idle, priorities, attempt, apply_focus, reapply_priorities,
}
use stremio_libtorrent_serve.Torrent.Handle.Priorities.{base_prio, focused_on}
use stremio_libtorrent_serve.Torrent.Handle.Quiet.{
  FilePriorities, prios_after, IsLive, IsSynced, prios,
}
use stremio_libtorrent_serve.Torrent.Handle.Synced.{
  play, want, open_stream, close_stream, Reach, here, next,
}
use stremio_libtorrent_serve.Torrent.Handle.Present.{file_complete-bytes}
use stremio_libtorrent_serve.Torrent.Handle.Wanted.{Reach-file_priority, Reach-keeps_wanted}

-- libtorrent's calls on the list of its file priorities
abbrev effect : Call → List ℕ → List ℕ
effect (prioritize_files new) old = new
effect (file_priority i p) old = set old i p
effect (piece_priority p prio) old = old
effect (prioritize_pieces new) old = old
effect (set_piece_deadline p ms) old = old
effect (reset_piece_deadline p) old = old
effect (set_sequential_download b) old = old
effect unset_auto_managed old = old
effect pause_torrent old = old
effect resume_torrent old = old

effect-leaves :
    (c : Call) (old : List ℕ)
    → ((new : List ℕ) → c ≢ prioritize_files new)
    → ((i p : ℕ) → c ≢ file_priority i p)
    → effect c old ≡ old
effect-leaves (prioritize_files new) old nf np = elim (nf new refl) [ ]
effect-leaves (file_priority i p) old nf np = elim (np i p refl) [ ]
effect-leaves (piece_priority p prio) old nf np = refl
effect-leaves (prioritize_pieces new) old nf np = refl
effect-leaves (set_piece_deadline p ms) old nf np = refl
effect-leaves (reset_piece_deadline p) old nf np = refl
effect-leaves (set_sequential_download b) old nf np = refl
effect-leaves unset_auto_managed old nf np = refl
effect-leaves pause_torrent old nf np = refl
effect-leaves resume_torrent old nf np = refl

abbrev client : FilePriorities
client = record {
  effect = effect;
  replaces = λ new old. refl;
  sets = λ i p old. refl;
  leaves = effect-leaves;
}

abbrev info : Info
info = record {
  num_files = 3;
  piece_length = 16;
  num_pieces = 9;
  file_size = λ idx. 48;
  file_offset = λ idx. idx * 48;
}

abbrev torrent : Torrent
torrent = record { info = some info; have_piece = λ p. false; refuses = λ c. false }

torrent-IsLive : IsLive torrent info
torrent-IsLive = record { info = refl; accepts = λ c. refl }

abbrev fresh : Handle
fresh = record {
  pinned = false;
  wanted = [];
  boosted = [];
  focused_idx = none;
  active = 0;
  paused = false;
  adaptive_seq = true;
  read_pos = 0;
  read_total = 0;
  prefetched = [];
  calls = [];
}

abbrev start : List ℕ
start = 0 ∷ 0 ∷ 0 ∷ []

fresh-IsSynced : IsSynced client start info fresh
unfolding prios_after priorities
fresh-IsSynced = refl

-- file 1 is played, file 2 asked for
abbrev chosen : Handle
chosen = want_file torrent 2 (focus_file torrent 1 fresh)

abbrev watched : Handle
watched = mark_active torrent chosen

abbrev moved_on : Handle
moved_on = focus_file torrent 0 (mark_idle torrent watched)

chosen-Reach : Reach torrent fresh chosen
chosen-Reach = next (next here (play 1 fresh)) (want 2 (focus_file torrent 1 fresh))

moved_on-Reach : Reach torrent chosen moved_on
moved_on-Reach =
    next (next (next here (open_stream chosen)) (close_stream watched))
      (play 0 (mark_idle torrent watched))

chosen-IsSynced : IsSynced client start info chosen
unfolding prios_after priorities focus_file want_file reapply_priorities apply_focus
chosen-IsSynced = refl

chosen-wanted : contains chosen.wanted 2 ≡ true
unfolding contains add_to attempt priorities focus_file want_file reapply_priorities apply_focus
chosen-wanted = refl

Reach-file_priority_example :
    get_or (prios client start chosen) 2 0
    ≡ (if focused_on chosen.focused_idx 2 then focus_prio chosen.active else base_prio chosen 2)
Reach-file_priority_example =
    Reach-file_priority torrent info torrent-IsLive client start 2 (omega arith) fresh-IsSynced
      chosen-Reach

Reach-keeps_wanted_example : 1 ≤ get_or (prios client start moved_on) 2 0
Reach-keeps_wanted_example =
    Reach-keeps_wanted torrent info torrent-IsLive client start 2 (omega arith) chosen-IsSynced
      chosen-wanted moved_on-Reach

abbrev half : Torrent
half = record torrent { have_piece = λ p. leb p 5 }

file_complete-bytes_example :
    (file_complete half 1 ≡ true)
    ↔ ((b : ℕ) → 48 ≤ b → b < 48 + 48 → half.have_piece (b / 16) ≡ true)
file_complete-bytes_example = file_complete-bytes half info 1 refl (omega arith) (omega arith)
