-- ===== src/Cache/Pass/Protection.antt =====
-- What an eviction pass may not delete.
use stremio_libtorrent_serve.Prelude.{
  ◌-◌, ◌<◌, ◌≡◌, ◌≢◌, false, some, List, [], leb, map, All, keep, contains,
}
use stremio_libtorrent_serve.Prelude.Text.{Text, Text_eq, lower, is_empty}
use stremio_libtorrent_serve.Prelude.Members.{In}
use stremio_libtorrent_serve.Prelude.Dict.{get}
use stremio_libtorrent_serve.Cache.Eviction.{Item}
use stremio_libtorrent_serve.Cache.Pass.{
  Pin, Scene, Action, stop_torrent, remove_path, protected, nonempty, partfile, engine_recent,
  engine_hashes, by_hash, fresh_names, kept_names, in_use,
}

-- An entry that nothing protects: it is no file of the server's own, it was not written within the
-- grace time, the engine neither served it lately nor reports it pinned, and it is neither the data
-- nor the holding file of a torrent that the pin registry names, by name or through the name index,
-- nor the holding file of a loaded torrent that is kept.
pub record IsUnprotected (s : Scene) (v : Item) : Type 0 where
  pub own : contains protected v.name ≡ false
  pub aged : s.grace < s.now - v.mtime
  pub unserved : All (λ n. n ≢ v.name) (engine_recent s.engine)
  pub unnamed : All (λ (p : Pin). (n : Text) → nonempty p.name ≡ some n → n ≢ v.name) s.pins
  pub unpinned :
      All
        (λ (p : Pin).
          (ih : Text)
          → nonempty (lower p.info_hash) ≡ some ih
          → (partfile ih ≢ v.name)
            × ((n : Text) → get ih (by_hash [] s.name_index) ≡ some n → n ≢ v.name))
        s.pins
  pub holding :
      All
        (λ n.
          (ih : Text)
          → get n (engine_hashes s.engine) ≡ some ih
          → is_empty ih ≡ false
          → partfile ih ≢ v.name)
        (kept_names s)

-- An action that is taken for one of the entries that are deleted.
pub data IsOf (s : Scene) (deleted : List Item) : Action → Type 0 where
  removes_data : (v : Item) → In v deleted → IsOf s deleted (remove_path v.name)
  stops_torrent :
      (v : Item) (ih : Text)
      → In v deleted
      → get v.name (engine_hashes s.engine) ≡ some ih
      → is_empty ih ≡ false
      → IsOf s deleted (stop_torrent ih)
  removes_holding :
      (v : Item) (ih : Text)
      → In v deleted
      → get v.name (engine_hashes s.engine) ≡ some ih
      → is_empty ih ≡ false
      → IsOf s deleted (remove_path (partfile ih))

module _ (s : Scene) where
  abbrev IsFree : Item → Type 0
  IsFree v = (contains (in_use s) v.name ≡ false)

  -- an entry that was scanned, and whose name is not among the fresh ones, is old
  abbrev IsScanned : Item → Type 0
  IsScanned v =
      (contains protected v.name ≡ false)
      × (contains (fresh_names s) v.name ≡ false → s.grace < s.now - v.mtime)

  abbrev names_of_fresh : List Item → List Text
  names_of_fresh items =
      map (λ (j : Item). j.name) (keep (λ (j : Item). leb (s.now - j.mtime) s.grace) items)
