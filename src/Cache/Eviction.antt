-- ===== src/Cache/Eviction.antt =====
-- cache.py, `select_evictions`: which entries of the cache to delete, the least recently modified
-- first. Sizes are bytes and times whole ticks of one clock. `target_of` is `int(budget * ratio)`.
pub mod Choice
use stremio_libtorrent_serve.Prelude.{
  ℕ, ◌+◌, ◌-◌, ◌*◌, ◌≤◌, ◌<◌, ◌≡◌, refl, Bool, true, false, not, List, [], ◌∷◌, ◌++◌, leb,
  if◌then◌else◌, keep, contains,
}
use stremio_libtorrent_serve.Prelude.Text.{Text, Text_eq}
use stremio_libtorrent_serve.Prelude.Sort.{sort_by}

pub record Item : Type 0 where
  pub name : Text
  pub size : ℕ
  pub mtime : ℕ

-- `sum(i["size"] for i in items)`
unfoldable pub total_size : List Item → ℕ
total_size [] = 0
total_size (i ∷ items) = i.size + total_size items

-- the loop over the candidates
unfoldable pub take_victims : ℕ → ℕ → ℕ → List Item → List Item
take_victims total target freed [] = []
take_victims total target freed (i ∷ items) =
    let rest = take_victims total target (freed + i.size) items in
    if leb (total - freed) target then [] else i ∷ rest

abbrev pub older : Item → Item → Bool
older i j = leb i.mtime j.mtime

unfoldable pub candidates : List Item → List Text → List Item
candidates items in_use = sort_by older (keep (λ i. not (contains in_use i.name)) items)

module _ (target_of : ℕ → ℕ) where
  unfoldable pub select_evictions : List Item → ℕ → List Text → List Item
  select_evictions items budget in_use =
      let total = total_size items in
      if leb total budget
      then []
      else take_victims total (target_of budget) 0 (candidates items in_use)
