-- ===== src/Cache/Resume/Sweep.antt =====
-- What a sweep of the resume records may remove, and that it leaves every claim in place.
use stremio_libtorrent_serve.Prelude.{
  ℕ, ◌+◌, ◌*◌, ◌<◌, ◌≡◌, ◌≢◌, inl, inr, refl, ap, ◌∙◌, Bool, true, false, not, Option, none, some,
  List, [], ◌∷◌, ◌++◌, arith, leb, keep, keep-All, All-weaken, collect, contains, All, All-append,
  All-collect, contains-All, contains-append_false, Bool-cases,
}
use stremio_libtorrent_serve.Prelude.Text.{Text, Text_eq, codes, lower, is_empty, ends_with}
use stremio_libtorrent_serve.Prelude.Dict.{Dict}
use stremio_libtorrent_serve.Cache.Resume.{
  File, Shelf, Swept, nothing, listed, cached_hash, claimed_hashes, stem, Fate, gone, stale_tmp,
  fresh_tmp, foreign, claimed_record, old_record, recent_record, record_fate, fate_at, is_removed,
  tally, fate, sweep_files, still_indexed, prune_name_index, sweep_listed, sweep_resume,
}

-- A hash that nothing claims: no pin, no want, and no entry of the name index whose name is on the disk.
pub record IsUnclaimed (s : Shelf) (ih : Text) : Type 0 where
  pub unpinned : All (λ h. h ≢ lower ih) s.pinned
  pub unwanted : All (λ h. h ≢ lower ih) s.wanted
  pub uncached :
      All
        (λ (entry : Text × Text).
          is_empty entry.1 ≡ false
          → contains (listed s.root) entry.0 ≡ true
          → lower entry.1 ≢ lower ih)
        s.index

cached_hash-some :
    (on_disk : List Text) (entry : Text × Text)
    → is_empty entry.1 ≡ false
    → contains on_disk entry.0 ≡ true
    → cached_hash on_disk entry ≡ some (lower entry.1)
unfolding cached_hash
cached_hash-some on_disk (n, h) e k = rw (e, k) refl

claimed_hashes-IsUnclaimed :
    (s : Shelf) (ih : Text) → contains (claimed_hashes s) (lower ih) ≡ false → IsUnclaimed s ih
unfolding claimed_hashes
claimed_hashes-IsUnclaimed s ih h =
    let cached = collect (cached_hash (listed s.root)) s.index in
    let (a, b) = contains-append_false cached (s.pinned ++ s.wanted) (lower ih) h in
    let (c, d) = contains-append_false s.pinned s.wanted (lower ih) b in
    record {
      unpinned = contains-All s.pinned (lower ih) c;
      unwanted = contains-All s.wanted (lower ih) d;
      uncached =
          All-weaken _ _ s.index
            (λ entry f e k. f (lower entry.1) (cached_hash-some (listed s.root) entry e k))
            (All-collect (λ h. h ≢ lower ih) (cached_hash (listed s.root)) s.index
              (contains-All cached (lower ih) a));
    }

-- A file that a sweep at `now` may remove: a failed write older than a day, or the record of a hash
-- that nothing claims, older than so many days.
pub data IsStale (days now : ℕ) (s : Shelf) (f : File) : Type 0 where
  old_tmp :
      (mtime : ℕ)
      → f.mtime ≡ some mtime
      → ends_with f.name (codes ".tmp") ≡ true
      → mtime + 86400 < now
      → IsStale days now s f
  orphan :
      (mtime : ℕ) (ih : Text)
      → f.mtime ≡ some mtime
      → stem f.name ≡ some ih
      → IsUnclaimed s ih
      → mtime + days * 86400 < now
      → IsStale days now s f

-- The same, with the claims as the sweep collects them.
data IsSwept (days now : ℕ) (claimed : List Text) (f : File) : Type 0 where
  failed_write :
      (mtime : ℕ)
      → f.mtime ≡ some mtime
      → ends_with f.name (codes ".tmp") ≡ true
      → mtime + 86400 < now
      → IsSwept days now claimed f
  unclaimed :
      (mtime : ℕ) (ih : Text)
      → f.mtime ≡ some mtime
      → stem f.name ≡ some ih
      → contains claimed (lower ih) ≡ false
      → mtime + days * 86400 < now
      → IsSwept days now claimed f

tally-deleted : (x : Fate) (out : Swept) → (tally x out).deleted ≡ out.deleted
tally-deleted gone out = refl
tally-deleted stale_tmp out = refl
tally-deleted fresh_tmp out = refl
tally-deleted foreign out = refl
tally-deleted claimed_record out = refl
tally-deleted old_record out = refl
tally-deleted recent_record out = refl

module _ (days now : ℕ) where
  record_fate-IsSwept :
      (claimed : List Text) (f : File) (mtime : ℕ) (o : Option Text)
      → f.mtime ≡ some mtime
      → stem f.name ≡ o
      → is_removed (record_fate days now claimed mtime o) ≡ true
      → IsSwept days now claimed f
  record_fate-IsSwept claimed f mtime none e r h = cc h
  record_fate-IsSwept claimed f mtime (some ih) e r h =
      elim (Bool-cases (contains claimed (lower ih))) [
        | inl c ↦ cc (rw c at h)
        | inr c ↦ unclaimed mtime ih e r c (let h' = rw c at h in ground (arith, h'))
      ]

  fate_at-IsSwept :
      (claimed : List Text) (f : File) (o : Option ℕ)
      → f.mtime ≡ o
      → is_removed (fate_at days now claimed f.name o) ≡ true
      → IsSwept days now claimed f
  fate_at-IsSwept claimed f none e h = cc h
  fate_at-IsSwept claimed f (some mtime) e h = elim (Bool-cases (ends_with f.name (codes ".tmp"))) [
    | inl t ↦ failed_write mtime e t (let h' = rw t at h in ground (arith, h'))
    | inr t ↦ record_fate-IsSwept claimed f mtime (stem f.name) e refl (rw t at h)
  ]

  removed-IsSwept :
      (claimed : List Text) (f : File)
      → is_removed (fate days now claimed f) ≡ true
      → IsSwept days now claimed f
  unfolding fate
  removed-IsSwept claimed f h = fate_at-IsSwept claimed f f.mtime refl h

  sweep_files-IsSwept :
      (claimed : List Text) (files : List File) (out : Swept)
      → All (IsSwept days now claimed) out.deleted
      → All (IsSwept days now claimed) (sweep_files days now claimed files out).deleted
  unfolding sweep_files
  sweep_files-IsSwept claimed [] out h = h
  sweep_files-IsSwept claimed (f ∷ files) out h =
      let out' = tally (fate days now claimed f) out in
      let before : All (IsSwept days now claimed) out'.deleted =
        rw (tally-deleted (fate days now claimed f) out) h in
      sweep_files-IsSwept claimed files _
        (elim (Bool-cases (is_removed (fate days now claimed f))) [
          | inl e ↦ rw e (
              All-append (IsSwept days now claimed) out'.deleted (f ∷ []) before
                (removed-IsSwept claimed f e, tt))
          | inr e ↦ rw e before
        ])

  -- files that stay leave nothing to remove
  sweep_files-stay :
      (claimed : List Text) (files : List File) (out : Swept)
      → All (λ f. is_removed (fate days now claimed f) ≡ false) files
      → (sweep_files days now claimed files out).deleted ≡ out.deleted
  unfolding sweep_files
  sweep_files-stay claimed [] out h = refl
  sweep_files-stay claimed (f ∷ files) out h =
      sweep_files-stay claimed files _ h.1 ∙ rw h.0 (tally-deleted (fate days now claimed f) out)

-- An entry that yields a claim is kept, so that dropping entries drops no claim.
module _ {ℓ κ} {A : Type ℓ} {B : Type κ} where
  collect-keep :
      (f : A → Option B) (p : A → Bool) (xs : List A)
      → ((x : A) → p x ≡ false → f x ≡ none)
      → collect f (keep p xs) ≡ collect f xs
  unfolding collect keep
  collect-keep f p [] h = refl
  collect-keep f p (x ∷ xs) h = elim (Bool-cases (p x)) [
    | inl e ↦
        rw (e, keep)
          (ap (λ rest. elim (f x) as (λ o. List B) [ none ↦ rest | some y ↦ y ∷ rest ])
            (collect-keep f p xs h))
    | inr e ↦ rw (e, keep) (rw (h x e, collect) (collect-keep f p xs h))
  ]

cached_hash-none :
    (claimed : List Text) (files : List File) (on_disk : List Text) (entry : Text × Text)
    → still_indexed claimed files on_disk entry ≡ false
    → cached_hash on_disk entry ≡ none
unfolding still_indexed cached_hash
cached_hash-none claimed files on_disk (n, h) e = ground arith

prune_name_index-claims :
    (claimed : List Text) (files : List File) (root : Option (List Text)) (index : Dict Text Text)
    → collect (cached_hash (listed root)) (prune_name_index claimed files root index).1
      ≡ collect (cached_hash (listed root)) index
unfolding prune_name_index
prune_name_index-claims claimed files none index = refl
prune_name_index-claims claimed files (some on_disk) index =
    collect-keep (cached_hash on_disk) (still_indexed claimed files on_disk) index
      (cached_hash-none claimed files on_disk)

module _ (days now : ℕ) where
  sweep_listed-IsSwept :
      (s : Shelf) (o : Option (List File))
      → All (IsSwept days now (claimed_hashes s)) (sweep_listed days now s o).0.deleted
  sweep_listed-IsSwept s none = tt
  sweep_listed-IsSwept s (some files) =
      sweep_files-IsSwept days now (claimed_hashes s) files (nothing false) tt

  swept-IsStale :
      (s : Shelf) (f : File) → IsSwept days now (claimed_hashes s) f → IsStale days now s f
  swept-IsStale s f (failed_write mtime e t lt) = old_tmp mtime e t lt
  swept-IsStale s f (unclaimed mtime ih e q c lt) =
      orphan mtime ih e q (claimed_hashes-IsUnclaimed s ih c) lt

  -- Whatever the cache and the registries hold, a sweep removes only failed writes older than a day and
  -- records older than the retention whose hash no pin and no want names and the name index gives to no
  -- entry that is on the disk.
  pub sweep_resume-IsStale :
      (s : Shelf) → All (IsStale days now s) (sweep_resume days now s).0.deleted
  unfolding sweep_resume
  sweep_resume-IsStale s = elim (Bool-cases (leb days 0)) [
    | inl e ↦ rw (e, sweep_resume) tt
    | inr e ↦
        rw (e, sweep_resume)
          (All-weaken _ _ (sweep_listed days now s s.files).0.deleted (swept-IsStale s)
            (sweep_listed-IsSwept s s.files))
  ]

  sweep_listed-claims :
      (s : Shelf) (o : Option (List File))
      → claimed_hashes (sweep_listed days now s o).1 ≡ claimed_hashes s
  unfolding claimed_hashes
  sweep_listed-claims s none = refl
  sweep_listed-claims s (some files) =
      ap (λ hs. hs ++ (s.pinned ++ s.wanted))
        (prune_name_index-claims (claimed_hashes s)
          (keep (λ f. not (is_removed (fate days now (claimed_hashes s) f))) files) s.root s.index)

  not-true : (b : Bool) → not b ≡ true → b ≡ false
  not-true b h = ground arith

  sweep_listed-again :
      (s : Shelf) (o : Option (List File))
      → let s' = (sweep_listed days now s o).1 in
        s.files ≡ o → (sweep_listed days now s' s'.files).0.deleted ≡ []
  sweep_listed-again s none e = rw e refl
  sweep_listed-again s (some files) e =
      let left = keep (λ f. not (is_removed (fate days now (claimed_hashes s) f))) files in
      let s' = (sweep_listed days now s (some files)).1 in
      sweep_files-stay days now (claimed_hashes s') left (nothing false) (
        rw (sweep_listed-claims s (some files)) (
          All-weaken _ _ left (λ f h. not-true _ h)
            (keep-All (λ f. not (is_removed (fate days now (claimed_hashes s) f))) files)))

  sweep_off : leb days 0 ≡ true → (s : Shelf) → sweep_resume days now s ≡ (nothing true, s)
  unfolding sweep_resume
  sweep_off e s = rw e refl

  sweep_on :
      leb days 0 ≡ false → (s : Shelf) → sweep_resume days now s ≡ sweep_listed days now s s.files
  unfolding sweep_resume
  sweep_on e s = rw e refl

  -- A sweep leaves what is claimed claimed, and one more sweep at the same time removes nothing.
  pub sweep_resume-again :
      (s : Shelf)
      → let s' = (sweep_resume days now s).1 in
        (claimed_hashes s' ≡ claimed_hashes s) × ((sweep_resume days now s').0.deleted ≡ [])
  sweep_resume-again s = elim (Bool-cases (leb days 0)) [
    | inl e ↦ rw (sweep_off e s) (refl, rw (sweep_off e s) refl)
    | inr e ↦
        let t = (sweep_listed days now s s.files).1 in
        rw (sweep_on e s)
          (sweep_listed-claims s s.files, rw (sweep_on e t) (sweep_listed-again s s.files refl))
  ]
