-- ===== src/Cache/Pass.antt =====
-- cache.py, `evict_once`: one eviction pass. What the pass reads is a `Scene`: the entries of
-- the cache directory with their sizes and times, the pin registry, the name index, and what the engine answers (none where the
-- pass has no engine). A missing field of a registry entry is the empty text. What it does is a list
-- of actions, in order; the sets of names and hashes are lists, read only by membership.
pub mod Protection
use stremio_libtorrent_serve.Prelude.{
  ℕ, ◌+◌, ◌-◌, ◌≡◌, Bool, true, false, not, Option, none, some, List, [], ◌∷◌, ◌++◌, map, leb,
  if◌then◌else◌, keep, collect, contains,
}
use stremio_libtorrent_serve.Prelude.Text.{Text, Text_eq, codes, lower, is_empty}
use stremio_libtorrent_serve.Prelude.Dict.{Dict, get, put}
use stremio_libtorrent_serve.Cache.Eviction.{Item, total_size, select_evictions}

pub record Pin : Type 0 where
  pub info_hash : Text
  pub name : Text

pub record EngineView : Type 0 where
  pub recent_names : List Text
  pub pinned_names : List Text
  pub name_to_hash : Dict Text Text

pub record Scene : Type 0 where
  pub entries : List Item
  pub now : ℕ
  pub grace : ℕ
  pub engine : Option EngineView
  pub pins : List Pin
  pub name_index : Dict Text Text

pub data Action : Type 0 where
  stop_torrent : Text → Action
  remove_path : Text → Action

pub record Report : Type 0 where
  pub before : ℕ
  pub after : ℕ
  pub deleted : List Item
  pub actions : List Action

-- `PROTECTED`: the entries that are never evicted.
abbrev pub protected : List Text
protected =
    codes "certificates.pem"
    ∷ codes "httpsCert.json"
    ∷ codes "server-settings.json"
    ∷ codes ".server-settings.json.swp"
    ∷ codes "stremio-cache"
    ∷ codes "transcode"
    ∷ codes ".resume"
    ∷ codes "pins.json"
    ∷ codes "labels.json"
    ∷ codes "wanted.json"
    ∷ codes "library-ui.json"
    ∷ codes ".evictor-owner"
    ∷ codes "cert-status.json"
    ∷ []

unfoldable pub scan_cache : List Item → List Item
scan_cache entries = keep (λ (i : Item). not (contains protected i.name)) entries

abbrev pub nonempty : Text → Option Text
nonempty t = if is_empty t then none else some t

-- `.<infohash>.parts`
unfoldable pub partfile : Text → Text
partfile ih = b'.' ∷ ih ++ codes ".parts"

abbrev pub engine_recent : Option EngineView → List Text
engine_recent none = []
engine_recent (some e) = e.recent_names ++ e.pinned_names

abbrev pub engine_hashes : Option EngineView → Dict Text Text
engine_hashes none = []
engine_hashes (some e) = e.name_to_hash

-- `{str(h).lower(): n for n, h in index.items() if h}`
unfoldable pub by_hash : Dict Text Text → Dict Text Text → Dict Text Text
by_hash out [] = out
by_hash out ((n, h) ∷ index) = by_hash (if is_empty h then out else put (lower h) n out) index

module _ (s : Scene) where
  unfoldable pub fresh_names : List Text
  fresh_names =
      map (λ i. i.name) (keep (λ (i : Item). leb (s.now - i.mtime) s.grace) (scan_cache s.entries))

  unfoldable pub pin_hashes : List Text
  pin_hashes = collect (λ (p : Pin). nonempty (lower p.info_hash)) s.pins

  unfoldable pub pin_names : List Text
  pin_names = collect (λ (p : Pin). nonempty p.name) s.pins

  -- the names of pinned torrents that the index knows
  unfoldable pub indexed_names : List Text
  indexed_names = collect (λ ih. get ih (by_hash [] s.name_index)) pin_hashes

  -- every name that is protected for its own sake
  unfoldable pub kept_names : List Text
  kept_names = fresh_names ++ (engine_recent s.engine ++ (pin_names ++ indexed_names))

  unfoldable pub kept_hashes : List Text
  kept_hashes = pin_hashes ++ collect (λ n. get n (engine_hashes s.engine)) kept_names

  unfoldable pub in_use : List Text
  in_use = kept_names ++ map partfile (collect nonempty kept_hashes)

  -- stop the torrent before its files go, and its holding file with them
  unfoldable pub victim_actions : Item → List Action
  victim_actions v = elim (get v.name (engine_hashes s.engine)) [
    | none ↦ remove_path v.name ∷ []
    | some ih ↦
        if is_empty ih
        then remove_path v.name ∷ []
        else stop_torrent ih ∷ remove_path v.name ∷ remove_path (partfile ih) ∷ []
  ]

  unfoldable pub all_actions : List Item → List Action
  all_actions [] = []
  all_actions (v ∷ victims) = victim_actions v ++ all_actions victims

  unfoldable pub evict_once : (ℕ → ℕ) → ℕ → Report
  evict_once target_of budget =
      let victims = select_evictions target_of (scan_cache s.entries) budget in_use in
      record {
        before = total_size (scan_cache s.entries);
        after = total_size (scan_cache s.entries) - total_size victims;
        deleted = victims;
        actions = all_actions victims;
      }
