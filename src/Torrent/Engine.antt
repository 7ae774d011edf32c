-- ===== src/Torrent/Engine.antt =====
-- torrent/engine.py, `Engine`, with wanted.py and the registry of pins.py: the torrents that the
-- server holds, which of them are pinned, and what is wanted of each. A JSON file is the value that
-- it holds, none where it is absent, unreadable or of another shape. A selector is any type with a
-- test for equality.

pub mod Wants
pub mod Pins
pub mod Startup
pub mod Agreed
pub mod Pinned
pub mod Restart
use stremio_libtorrent_serve.Prelude.{
  ℕ, zero, suc, ◌+◌, ◌-◌, min, Bool, true, false, not, ◌&&◌, ◌||◌, Option, none, some, List, [],
  ◌∷◌, ◌++◌, map, leb, nat_eq, if◌then◌else◌, ◌==◌, Keyed, length, replicate, keep, collect,
  contains, add_to, is_some,
}
use stremio_libtorrent_serve.Prelude.Text.{Text, Text_eq, is_empty, lower}
use stremio_libtorrent_serve.Prelude.Dict.{Dict, get, put, remove}
use stremio_libtorrent_serve.Torrent.Handle.{
  Call, prioritize_pieces, Info, Torrent, Handle, attempt, want_all_files, want_file,
  reapply_priorities,
}
use stremio_libtorrent_serve.Torrent.Wanted.{Want, select_wanted_file}

-- `discard`
unfoldable pub discard : List Text → Text → List Text
discard xs a = keep (λ x. not (x == a)) xs

abbrev pub or_none {ℓ} : {A : Type ℓ} → Option (List A) → List A
or_none none = []
or_none (some xs) = xs

-- `headroom`, with the budget and 10% of it, rounded up
unfoldable pub headroom : (ℕ → ℕ) → ℕ → ℕ → ℕ
headroom with_slack cache_size cache_used = with_slack cache_size - min cache_size cache_used

-- `disk_free - (pinned + candidate) >= headroom`, where the difference may be negative
unfoldable pub pin_fits : (ℕ → ℕ) → ℕ → ℕ → ℕ → ℕ → ℕ → Bool
unfolding headroom
pin_fits with_slack disk_free pinned_remaining candidate_remaining cache_size cache_used =
    leb (headroom with_slack cache_size cache_used + (pinned_remaining + candidate_remaining))
      disk_free

-- `Handle(th)`
abbrev pub fresh_handle : Handle
fresh_handle = record {
  pinned = false;
  wanted = [];
  boosted = [];
  focused_idx = none;
  active = 0;
  paused = false;
  adaptive_seq = true;
  read_pos = 0;
  read_total = 0;
  prefetched = [];
  calls = [];
}

-- What libtorrent counts of a torrent.
pub record Status : Type 0 where
  pub total_wanted : ℕ
  pub total_wanted_done : ℕ
  pub total_done : ℕ
  pub full_size : ℕ

-- What an operation finds outside the engine: libtorrent's side of each torrent, its files with
-- their sizes, its counts, and the disk.
pub record Surroundings : Type 0 where
  pub side : Text → Torrent
  pub files : Text → List (Text × ℕ)
  pub status : Text → Status
  pub disk_free : ℕ
  pub cache_used : ℕ
  pub cache_size : ℕ
  pub with_slack : ℕ → ℕ

abbrev pub knows_metadata : Torrent → Bool
knows_metadata t = is_some t.info

unfoldable pub remaining_bytes : Surroundings → Text → ℕ
remaining_bytes w ih = (w.status ih).total_wanted - (w.status ih).total_done

unfoldable pub pin_remaining : Surroundings → Text → Handle → ℕ
pin_remaining w ih h =
    if is_empty h.wanted
    then (w.status ih).full_size - (w.status ih).total_done
    else (w.status ih).total_wanted - (w.status ih).total_wanted_done

abbrev pub piece_pass : Torrent → List Call
piece_pass t = elim t.info [
  | none ↦ []
  | some i ↦ if nat_eq i.num_pieces 0 then [] else prioritize_pieces (replicate i.num_pieces 1) ∷ []
]

-- whether the pass over the pieces raises, which nothing here guards
unfoldable pub piece_pass_raises : Torrent → List Call → Bool
piece_pass_raises t [] = false
piece_pass_raises t (c ∷ calls) = t.refuses c || piece_pass_raises t calls

-- `_full_priority`
unfoldable pub full_priority : Torrent → Handle → Handle
unfolding want_all_files attempt
full_priority t h = attempt t (piece_pass t) (want_all_files t h)

unfoldable pub want_each : Torrent → List ℕ → Handle → Handle
want_each t [] h = h
want_each t (i ∷ idxs) h = want_each t idxs (want_file t i h)

-- A record of pins.json: `infoHash` is empty where absent, `want` is none where absent or empty.
pub record PinRecord (S : Type 0) : Type 0 where
  pub info_hash : Text
  pub want : Option S
  pub name : Text
  pub added_at : ℕ

pub record Engine (S : Type 0) : Type 0 where
  pub torrents : Dict Text Handle
  pub pinned : List Text
  pub wanted : Dict Text (List S)
  pub applied : List Text
  pub pins_file : Option (List (PinRecord S))
  -- the values of an entry that is no list, and the selectors that are no objects, are none
  pub wanted_file : Option (Dict Text (Option (List (Option S))))

-- What `pin` answers: the record, or what it raises.
pub data PinOutcome (S : Type 0) : Type 0 where
  size_unknown : PinOutcome S
  no_space : ℕ → ℕ → PinOutcome S
  raised : PinOutcome S
  kept : PinRecord S → PinOutcome S

module _ {S : Type 0} ⦃s : Keyed S⦄ where
  unfoldable pub load_entries :
      Dict Text (Option (List (Option S))) → Dict Text (List S) → Dict Text (List S)
  load_entries [] out = out
  load_entries ((ih, none) ∷ data_) out = load_entries data_ out
  load_entries ((ih, some specs) ∷ data_) out =
      load_entries data_ (put (lower ih) (collect (λ x. x) specs) out)

  -- wanted.py, `load`
  abbrev pub load_wanted : Option (Dict Text (Option (List (Option S)))) → Dict Text (List S)
  load_wanted none = []
  load_wanted (some data_) = load_entries data_ []

  abbrev pub as_json : Text × List S → Text × Option (List (Option S))
  as_json (ih, specs) = (ih, some (map some specs))

  -- wanted.py, `save`, best-effort
  abbrev pub save_wanted : Bool → Dict Text (List S) → Engine S → Engine S
  save_wanted writable data_ e =
      if writable then record e { wanted_file = some (map as_json data_) } else e

  -- `if entry not in specs: specs.append(entry)`, with the list that may be absent
  unfoldable pub add_spec : S → Text → Dict Text (List S) → Dict Text (List S)
  add_spec entry ih data_ = put ih (add_to (or_none (get ih data_)) entry) data_

  -- wanted.py, `add`
  unfoldable pub record_wanted : Bool → S → Text → Engine S → Engine S
  unfolding add_spec
  record_wanted writable entry ih e =
      save_wanted writable (add_spec entry ih (load_wanted e.wanted_file)) e

  -- wanted.py, `drop`
  unfoldable pub drop_wanted : Bool → Text → Engine S → Engine S
  drop_wanted writable ih e =
      let data_ = load_wanted e.wanted_file in
      if is_some (get ih data_) then save_wanted writable (remove ih data_) e else e

  abbrev pub held : Engine S → Text → Bool
  held e ih = is_some (get ih e.torrents)

  -- `self._torrents[ih] = h`
  abbrev pub set_handle : Text → Handle → Engine S → Engine S
  set_handle ih h e = record e { torrents = put ih h e.torrents }

  -- the registration in `add`, of the infohash that libtorrent reads
  unfoldable pub add : Text → Engine S → Engine S
  add ih e = set_handle ih (record fresh_handle { pinned = contains e.pinned ih }) e

  unfoldable pub drop_torrent : Text → Engine S → Engine S
  drop_torrent ih e = record e { torrents = remove (lower ih) e.torrents }

  unfoldable pub is_pinned : Text → Engine S → Bool
  is_pinned ih e = contains e.pinned (lower ih)
