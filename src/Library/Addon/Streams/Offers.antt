-- ===== src/Library/Addon/Streams/Offers.antt =====
-- library/addon_model.py, `streams_for_meta_id`: what each row stands for.
use stremio_libtorrent_serve.Prelude.{
  ℕ, ◌≡◌, refl, inl, inr, Bool, true, false, not, ◌&&◌, ◌||◌, ◌∙◌, Option, none, some, List, [],
  ◌∷◌, ◌++◌, Bool-cases, Option-cases, if◌then◌else◌, is_some, ◌==◌, collect,
}
use mathlib.Core.List.{append-nil, append_assoc}
use stremio_libtorrent_serve.Prelude.Members.{In}
use stremio_libtorrent_serve.Prelude.Text.{Text, Text_eq}
use stremio_libtorrent_serve.Library.Addon.{Entry, Label, Recorded, is_title}
use stremio_libtorrent_serve.Library.Addon.Choice.{label_alone_names_the_file}
use stremio_libtorrent_serve.Library.Addon.Choice.Playable.{
  FileAt, IsOffer, playable_index-IsOffer, episode_index-FileAt, recorded_index-FileAt,
}
use stremio_libtorrent_serve.Library.Addon.Rows.{Stream, stream_at, file_for_row}
use stremio_libtorrent_serve.Library.Addon.Streams.{
  MetaId, named_index, fallback_index, worked_out, recorded_or_worked, labelled_row, row_index,
  known_partial, add_row, collect_rows, streams_for_meta_id, parse_meta_id,
}

-- The entry is a title that is labelled as this one.
abbrev pub IsLabelled : Entry → MetaId → Type 0
IsLabelled e id =
    (is_title e ≡ true) × ((label : Label) × (e.label ≡ some label) × (label.meta_id ≡ id.base))

named_index-FileAt :
    (e : Entry) (s n : Option ℕ) (idx : ℕ)
    → named_index e s n ≡ some idx
    → (FileAt e true idx) × (is_some s ≡ true)
named_index-FileAt e (some s) (some n) idx h = (episode_index-FileAt e s n idx h, refl)
named_index-FileAt e (some s) none idx h = absurd (cc h)
named_index-FileAt e none n idx h = absurd (cc h)

fallback_index-IsOffer :
    (e : Entry) (s : Option ℕ) (own : Bool) (idx : ℕ)
    → fallback_index e s own ≡ some idx
    → IsOffer e (is_some s) idx
fallback_index-IsOffer e s own idx h =
    elim (Bool-cases (own && (not (is_some s) || label_alone_names_the_file e))) [
      | inl c ↦ playable_index-IsOffer e (is_some s) idx (rw c at h)
      | inr c ↦ absurd (cc (rw c at h))
    ]

worked_out-IsOffer :
    (e : Entry) (id : MetaId) (own : Bool) (idx : ℕ)
    → worked_out e id own ≡ some idx
    → IsOffer e (is_some id.season) idx
worked_out-IsOffer e id own idx h = elim (Option-cases (named_index e id.season id.episode)) [
  | inl c ↦ fallback_index-IsOffer e id.season own idx (rw c at h)
  | inr (n, c) ↦
      let h' : some n ≡ some idx = rw c at h in
      let (at, series) = named_index-FileAt e id.season id.episode idx (c ∙ h') in
      inl (rw series at)
]

recorded_or_worked-IsOffer :
    (e : Entry) (id : MetaId) (own : Bool) (file : Option Recorded) (idx : ℕ)
    → recorded_or_worked e id own file ≡ some idx
    → IsOffer e (is_some id.season) idx
recorded_or_worked-IsOffer e id true (some r) idx h =
    inl (recorded_index-FileAt e r (is_some id.season) idx h)
recorded_or_worked-IsOffer e id true none idx h = worked_out-IsOffer e id true idx h
recorded_or_worked-IsOffer e id false file idx h = worked_out-IsOffer e id false idx h

labelled_row-IsOffer :
    (e : Entry) (id : MetaId) (o : Option Label) (idx : ℕ)
    → labelled_row e id o ≡ some idx
    → ((label : Label) × (o ≡ some label) × (label.meta_id ≡ id.base))
      × IsOffer e (is_some id.season) idx
labelled_row-IsOffer e id none idx h = absurd (cc h)
labelled_row-IsOffer e id (some label) idx h = elim (Bool-cases (label.meta_id == id.base)) [
  | inl c ↦
      let same : label.meta_id ≡ id.base = (Text_eq.decides label.meta_id id.base).0 c in
      ((label, refl, same), recorded_or_worked-IsOffer e id _ label.file idx (rw c at h))
  | inr c ↦ absurd (cc (rw c at h))
]

-- Where an entry has a row for a title of the app, it is a title of the library that is labelled as that
-- one, and the row's index is that of a file that the entry lists, or 0 where it lists at most one file and
-- none with an index. A file that is listed so is complete unless the row is for an episode.
pub row_index-IsOffer :
    (e : Entry) (id : MetaId) (idx : ℕ)
    → row_index e id ≡ some idx
    → IsLabelled e id × IsOffer e (is_some id.season) idx
unfolding row_index
row_index-IsOffer e id idx h = elim (Bool-cases (is_title e)) [
  | inl c ↦ let (l, o) = labelled_row-IsOffer e id e.label idx (rw c at h) in ((c, l), o)
  | inr c ↦ absurd (cc (rw c at h))
]

abbrev one_or_none : {A : Type 0} → Option A → List A
one_or_none none = []
one_or_none (some x) = x ∷ []

collect-one :
    {A B : Type 0} (f : A → Option B) (x : A) (xs : List A)
    → collect f (x ∷ xs) ≡ one_or_none (f x) ++ collect f xs
unfolding collect
collect-one f x xs = elim (Option-cases (f x)) [
  | inl e ↦ rw (e, collect) refl
  | inr (y, e) ↦ rw (e, collect) refl
]

module _ (of_bytes : ℕ → ℕ → ℕ) where
  -- A row for an entry of the library.
  abbrev pub IsRow : List Entry → MetaId → Text → Stream → Type 0
  IsRow entries id origin s =
      (e : Entry) × (idx : ℕ) × In e entries
      × IsLabelled e id
      × IsOffer e (is_some id.season) idx
      × (s ≡ stream_at of_bytes e origin idx false)

  -- the row of an entry, where its file is as complete as said
  abbrev row_at : Bool → Entry → Text → Option ℕ → Option Stream
  row_at partial e origin none = none
  row_at partial e origin (some idx) =
      if known_partial (file_for_row e idx)
      then (if partial then some (stream_at of_bytes e origin idx false) else none)
      else (if partial then none else some (stream_at of_bytes e origin idx false))

  unfoldable pub row_when : Bool → MetaId → Text → Entry → Option Stream
  unfolding row_index
  row_when partial id origin e = row_at partial e origin (row_index e id)

  add_row-split :
      (e : Entry) (origin : Text) (o : Option ℕ) (here arriving : List Stream)
      → add_row of_bytes e origin o (here, arriving) ≡ (
        here ++ one_or_none (row_at false e origin o),
        arriving ++ one_or_none (row_at true e origin o),
      )
  add_row-split e origin none here arriving = rw (append-nil here, append-nil arriving) refl
  add_row-split e origin (some idx) here arriving =
      elim (Bool-cases (known_partial (file_for_row e idx))) [
        | inl k ↦ rw (k, append-nil here) refl
        | inr k ↦ rw (k, append-nil arriving) refl
      ]

  collect_rows-split :
      (entries : List Entry) (id : MetaId) (origin : Text) (here arriving : List Stream)
      → collect_rows of_bytes entries id origin (here, arriving) ≡ (
        here ++ collect (row_when false id origin) entries,
        arriving ++ collect (row_when true id origin) entries,
      )
  unfolding collect_rows collect row_when
  collect_rows-split [] id origin here arriving = rw (append-nil here, append-nil arriving) refl
  collect_rows-split (e ∷ entries) id origin here arriving =
      let o = row_index e id in
      rw
        (
          add_row-split e origin o here arriving,
          collect_rows-split entries id origin (here ++ one_or_none (row_at false e origin o))
              (arriving ++ one_or_none (row_at true e origin o)),
          collect-one (row_when false id origin) e entries,
          collect-one (row_when true id origin) e entries,
        )
        (rw (append_assoc here, append_assoc arriving) refl)

  -- The rows for a title are one for each entry that has one, in the order of the entries: first those
  -- whose file is not known to be incomplete, then the others.
  pub streams_for_meta_id-split :
      (entries : List Entry) (meta_id origin : Text)
      → streams_for_meta_id of_bytes entries meta_id origin ≡ (
          collect (row_when false (parse_meta_id meta_id) origin) entries
          ++ collect (row_when true (parse_meta_id meta_id) origin) entries)
  unfolding streams_for_meta_id
  streams_for_meta_id-split entries meta_id origin =
      rw (collect_rows-split entries (parse_meta_id meta_id) origin [] []) refl
