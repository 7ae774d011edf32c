-- ===== src/Cache/Eviction/Choice.antt =====
-- The choice of victims: over budget only, never an entry in use, the oldest first, as many as bring
-- the cache down to the target and no more.
use mathlib.Core.List.{Perm}
use stremio_libtorrent_serve.Prelude.{
  ℕ, ◌+◌, ◌-◌, ◌≤◌, ◌<◌, ◌≡◌, ◌⊎◌, refl, ap, Bool, true, false, not, List, [], ◌∷◌, ◌++◌, inl, inr,
  arith, leb, leb→le, All, All-weaken, Bool-cases, keep, keep-All, contains,
}
use stremio_libtorrent_serve.Prelude.Text.{Text, Text_eq}
use stremio_libtorrent_serve.Prelude.Sort.{IsSorted, sort_by-perm, sort_by-All, sort_by-IsSorted}
use stremio_libtorrent_serve.Cache.Eviction.{
  Item, total_size, take_victims, older, candidates, select_evictions,
}

abbrev pub IsIdle : List Text → Item → Type 0
IsIdle in_use i = contains in_use i.name ≡ false

-- `victims` is what a pass deletes of a cache of `total` bytes to bring it down to `target`.
pub record IsChoice (total target : ℕ) (idle victims : List Item) : Type 0 where
  pub rest : List Item
  -- the victims are the first of the entries that may go
  pub split : victims ++ rest ≡ idle
  -- what is left fits the target, or nothing more may go
  pub enough : (total - total_size victims ≤ target) ⊎ (rest ≡ [])
  -- no victim is one too many
  pub needed :
      (before : List Item) (v : Item) (after : List Item)
      → victims ≡ before ++ v ∷ after
      → target < total - total_size before

pub total_size-append : (xs ys : List Item) → total_size (xs ++ ys) ≡ total_size xs + total_size ys
unfolding total_size
total_size-append [] ys = omega arith
total_size-append (x ∷ xs) ys = omega (arith, total_size-append xs ys)

-- The loop, from a moment when the entries `done` are already chosen.
take_victims-rest :
    (total target freed : ℕ) (items : List Item)
    → (rest : List Item) × (take_victims total target freed items ++ rest ≡ items)
      × ((total - (freed + total_size (take_victims total target freed items)) ≤ target)
          ⊎ (rest ≡ []))
unfolding take_victims total_size
take_victims-rest total target freed [] = ([], refl, inr refl)
take_victims-rest total target freed (i ∷ items) = elim (Bool-cases (leb (total - freed) target)) [
  | inl e ↦ rw (e, take_victims) (i ∷ items, refl, inl (omega (arith, leb→le _ _ e)))
  | inr e ↦
      let (rest, split, enough) = take_victims-rest total target (freed + i.size) items in
      rw (e, take_victims) (rest, ap (◌∷◌ i) split, grind (arith, enough))
]

take_victims-needed :
    (total target freed : ℕ) (items before : List Item) (v : Item) (after : List Item)
    → take_victims total target freed items ≡ before ++ v ∷ after
    → target < total - (freed + total_size before)
unfolding take_victims total_size
take_victims-needed total target freed [] [] v after h = absurd (cc h)
take_victims-needed total target freed [] (b ∷ before) v after h = absurd (cc h)
take_victims-needed total target freed (i ∷ items) [] v after h = ground (arith, h)
take_victims-needed total target freed (i ∷ items) (b ∷ before) v after h =
    elim (Bool-cases (leb (total - freed) target)) [
      | inl e ↦ absurd (ground (arith, h, e))
      | inr e ↦
          let same : i ∷ take_victims total target (freed + i.size) items
              ≡ b ∷ (before ++ v ∷ after) =
            rw (e, take_victims) at h in
          let rest : take_victims total target (freed + i.size) items ≡ before ++ v ∷ after =
            cc same in
          let head : i ≡ b = cc same in
          let size : i.size ≡ b.size = ap (λ (x : Item). x.size) head in
          omega (arith, take_victims-needed total target (freed + i.size) items before v after rest)
    ]

older_total : (a b : Item) → older a b ≡ false → older b a ≡ true
older_total a b h = ground arith

older_trans : (a b c : Item) → older a b ≡ true → older b c ≡ true → older a c ≡ true
older_trans a b c h k = ground arith

not-false : (b : Bool) → not b ≡ true → b ≡ false
not-false b h = ground arith

pub candidates-All :
    (items : List Item) (in_use : List Text) → All (IsIdle in_use) (candidates items in_use)
unfolding candidates
candidates-All items in_use =
    sort_by-All older (IsIdle in_use) _
      (All-weaken _ _ _ (λ i h. not-false _ h) (keep-All (λ i. not (contains in_use i.name)) items))

module _ (target_of : ℕ → ℕ) (items : List Item) (budget : ℕ) (in_use : List Text) where
  -- Within budget a pass deletes nothing. Over budget, the entries not in use are put in order of
  -- their age, and the victims are the oldest of them: as many as bring the cache down to the target,
  -- or all of them, and none that was not needed for it. No entry in use is among them.
  pub select_evictions-IsChoice :
      (total_size items ≤ budget → select_evictions target_of items budget in_use ≡ [])
      × (budget < total_size items
          → IsChoice
              (total_size items)
              (target_of budget)
              (candidates items in_use)
              (select_evictions target_of items budget in_use))
      × IsSorted older (candidates items in_use)
      × Perm (candidates items in_use) (keep (λ i. not (contains in_use i.name)) items)
      × All (IsIdle in_use) (candidates items in_use)
  unfolding select_evictions candidates
  select_evictions-IsChoice = (
    λ h. ground arith,
    λ h.
        let over : leb (total_size items) budget ≡ false = ground arith in
        let t = total_size items in
        let (rest, split, enough) =
          take_victims-rest t (target_of budget) 0 (candidates items in_use) in
        rw over (record {
          rest = rest;
          split = split;
          enough = grind (arith, enough);
          needed = λ before v after e. omega (
            arith,
            take_victims-needed t (target_of budget) 0 (candidates items in_use) before v after e,
          );
        }),
    sort_by-IsSorted older older_total older_trans _,
    sort_by-perm older _,
    candidates-All items in_use,
  )
