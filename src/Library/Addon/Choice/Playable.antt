-- ===== src/Library/Addon/Choice/Playable.antt =====
-- library/addon_model.py: what the index that the module chooses for an entry points at.
use stremio_libtorrent_serve.Prelude.{
  ℕ, ◌≡◌, refl, sym, subst, ◌⊎◌, inl, inr, Bool, true, false, ◌||◌, Option, none, some, List, [],
  ◌∷◌, arith, Bool-cases, keep, is_some, ltb, ◌==◌,
}
use stremio_libtorrent_serve.Prelude.Members.{In, In-keep, In-first, In-append_left, first}
use stremio_libtorrent_serve.Prelude.Text.{Text_eq, is_empty}
use stremio_libtorrent_serve.Library.Addon.{
  MediaFile, Entry, Recorded, is_complete, addressable, offerable_files, largest_file,
  matching_files, base_part,
}
use stremio_libtorrent_serve.Library.Addon.Choice.{
  offered, wanted_match, unaddressed, main_index, wanted_or_main, playable_index, episode_named,
  index_of_largest, episode_index, lone_file, recorded_index,
}

-- A file that the entry knows has this index, and is complete unless it may still be arriving.
abbrev pub FileAt : Entry → Bool → ℕ → Type 0
FileAt e arriving idx =
    (f : MediaFile) × In f (offerable_files e)
    × (f.index ≡ some idx)
    × ((arriving || is_complete f) ≡ true)

-- The one file of a listing without indices, or nothing is listed.
abbrev pub LoneFile : Entry → Bool → ℕ → Type 0
LoneFile e arriving idx =
    (idx ≡ 0)
    × (addressable e.files ≡ [])
    × ((e.files ≡ [])
        ⊎ ((f : MediaFile) × (e.files ≡ f ∷ []) × ((arriving || is_complete f) ≡ true)))

abbrev pub IsOffer : Entry → Bool → ℕ → Type 0
IsOffer e arriving idx = FileAt e arriving idx ⊎ LoneFile e arriving idx

pub offered-some :
    (arriving : Bool) (f : MediaFile) (idx : ℕ)
    → offered arriving f ≡ some idx
    → (f.index ≡ some idx) × ((arriving || is_complete f) ≡ true)
offered-some arriving f idx h = elim (Bool-cases (arriving || is_complete f)) [
  | inl e ↦ (rw e at h, e)
  | inr e ↦ absurd (ground (arith, rw e at h))
]

files-offerable : (e : Entry) (f : MediaFile) → In f e.files → In f (offerable_files e)
unfolding offerable_files
files-offerable e f m = In-append_left f e.files _ m

pub largest_file-In :
    (best : MediaFile) (files : List MediaFile) → In (largest_file best files) (best ∷ files)
unfolding largest_file
largest_file-In best [] = inl refl
largest_file-In best (f ∷ rest) = elim (Bool-cases (ltb best.size f.size)) [
  | inl e ↦
      let step : largest_file best (f ∷ rest) ≡ largest_file f rest = rw e refl in
      subst (λ x. In x (best ∷ f ∷ rest)) (sym step) (inr (largest_file-In f rest))
  | inr e ↦
      let step : largest_file best (f ∷ rest) ≡ largest_file best rest = rw e refl in
      subst (λ x. In x (best ∷ f ∷ rest)) (sym step) (past_second (largest_file-In best rest))
]
  where
    past_second : {x : MediaFile} → In x (best ∷ rest) → In x (best ∷ f ∷ rest)
    past_second (inl same) = inl same
    past_second (inr m) = inr (inr m)

offered-FileAt :
    (e : Entry) (arriving : Bool) (f : MediaFile) (idx : ℕ)
    → In f e.files
    → offered arriving f ≡ some idx
    → FileAt e arriving idx
offered-FileAt e arriving f idx m h =
    let (i, c) = offered-some arriving f idx h in (f, files-offerable e f m, i, c)

addressable-In : (f : MediaFile) (files : List MediaFile) → In f (addressable files) → In f files
unfolding addressable
addressable-In f files m = (In-keep (λ g. is_some g.index) f files m).0

main_index-IsOffer :
    (e : Entry) (arriving : Bool) (idx : ℕ)
    → main_index arriving e.files (addressable e.files) ≡ some idx
    → IsOffer e arriving idx
main_index-IsOffer e arriving idx h = at_least (addressable e.files) refl h
  where
    lone :
        (files : List MediaFile)
        → e.files ≡ files
        → addressable e.files ≡ []
        → unaddressed arriving files ≡ some idx
        → IsOffer e arriving idx
    lone [] q none_there k = inr (sym (cc k), none_there, inl q)
    lone (f ∷ []) q none_there k = elim (Bool-cases (arriving || is_complete f)) [
      | inl c ↦ inr (ground (arith, rw c at k), none_there, inr (f, q, c))
      | inr c ↦ absurd (ground (arith, rw c at k))
    ]
    lone (f ∷ g ∷ files) q none_there k = absurd (cc k)

    at_least :
        (found : List MediaFile)
        → addressable e.files ≡ found
        → main_index arriving e.files found ≡ some idx
        → IsOffer e arriving idx
    at_least [] q k = lone e.files refl q k
    at_least (f ∷ rest) q k =
        let m =
          addressable-In (largest_file f rest) e.files
            (subst (In (largest_file f rest)) (sym q) (largest_file-In f rest)) in
        inl (offered-FileAt e arriving (largest_file f rest) idx m k)

wanted_or_main-IsOffer :
    (e : Entry) (arriving : Bool) (idx : ℕ) (o : Option MediaFile)
    → wanted_match e.wanted_file e.files ≡ o
    → wanted_or_main arriving e.files o ≡ some idx
    → IsOffer e arriving idx
wanted_or_main-IsOffer e arriving idx none q h = main_index-IsOffer e arriving idx h
wanted_or_main-IsOffer e arriving idx (some f) q h = elim (Bool-cases (is_empty e.wanted_file)) [
  | inl c ↦ absurd (cc (rw c at q))
  | inr c ↦
      let q' : first (λ g. base_part g.name == base_part e.wanted_file) (addressable e.files)
          ≡ some f =
        rw c at q in
      let m = (In-first (λ g. base_part g.name == base_part e.wanted_file) f _ q').0 in
      inl (offered-FileAt e arriving f idx (addressable-In f e.files m) h)
]

-- What `playable_index` answers is an offer.
pub playable_index-IsOffer :
    (e : Entry) (arriving : Bool) (idx : ℕ)
    → playable_index e arriving ≡ some idx
    → IsOffer e arriving idx
unfolding playable_index
playable_index-IsOffer e arriving idx h =
    wanted_or_main-IsOffer e arriving idx (wanted_match e.wanted_file e.files) refl h

index_of_largest-FileAt :
    (e : Entry) (p : MediaFile → Bool) (idx : ℕ)
    → index_of_largest (keep p (offerable_files e)) ≡ some idx
    → FileAt e true idx
index_of_largest-FileAt e p idx h = of_found (keep p (offerable_files e)) refl h
  where
    of_found :
        (found : List MediaFile)
        → keep p (offerable_files e) ≡ found
        → index_of_largest found ≡ some idx
        → FileAt e true idx
    of_found [] q k = absurd (cc k)
    of_found (f ∷ rest) q k =
        let m =
          In-keep p (largest_file f rest) (offerable_files e)
            (subst (In (largest_file f rest)) (sym q) (largest_file-In f rest)) in
        (largest_file f rest, m.0, k, refl)

lone_file-FileAt :
    (e : Entry) (arriving : Bool) (idx : ℕ) (p : MediaFile → Bool) (files : List MediaFile)
    → ((f : MediaFile) → In f files → In f (offerable_files e))
    → lone_file arriving (addressable (keep p files)) ≡ some idx
    → FileAt e arriving idx
lone_file-FileAt e arriving idx p files sub h = of_found (addressable (keep p files)) refl h
  where
    of_found :
        (found : List MediaFile)
        → addressable (keep p files) ≡ found
        → lone_file arriving found ≡ some idx
        → FileAt e arriving idx
    of_found [] q k = absurd (cc k)
    of_found (f ∷ []) q k =
        let m = addressable-In f (keep p files) (subst (In f) (sym q) (inl refl)) in
        let (i, c) = offered-some arriving f idx k in (f, sub f (In-keep p f files m).0, i, c)
    of_found (f ∷ g ∷ rest) q k = absurd (cc k)

pub episode_index-FileAt :
    (e : Entry) (season episode idx : ℕ)
    → episode_index e season episode ≡ some idx
    → FileAt e true idx
unfolding episode_index
episode_index-FileAt e season episode idx h =
    index_of_largest-FileAt e (episode_named season episode) idx h

-- What `recorded_index` answers is a file of the entry.
pub recorded_index-FileAt :
    (e : Entry) (recorded : Recorded) (arriving : Bool) (idx : ℕ)
    → recorded_index e recorded arriving ≡ some idx
    → FileAt e arriving idx
unfolding recorded_index matching_files
recorded_index-FileAt e recorded true idx h =
    lone_file-FileAt e true idx _ (offerable_files e) (λ f m. m) h
recorded_index-FileAt e recorded false idx h =
    lone_file-FileAt e false idx _ e.files (files-offerable e) h
