-- ===== src/Library/Addon/Cards/Videos.antt =====
-- library/addon_model.py, `meta_for` and `find_entry`: the videos that a title's page lists, and the way
-- back from a card to its title.
use stremio_libtorrent_serve.Prelude.{
  ℕ, ◌≡◌, refl, sym, subst, ap, inl, inr, Bool, true, false, ◌&&◌, ◌∙◌, Option, none, some, List,
  [], ◌∷◌, arith, Bool-cases, ◌==◌, beq_refl,
}
use stremio_libtorrent_serve.Prelude.Members.{In, In-collect, In-keep, In-first, first}
use stremio_libtorrent_serve.Prelude.Text.{Text, Text_eq, lower}
use stremio_libtorrent_serve.Library.Addon.{MediaFile, Entry, is_title, is_complete}
use stremio_libtorrent_serve.Library.Addon.Choice.{is_video}
use stremio_libtorrent_serve.Library.Addon.Ids.{format_id, parse_id}
use stremio_libtorrent_serve.Library.Addon.Ids.RoundTrip.{IsHex, parse_id-format_id}
use stremio_libtorrent_serve.Library.Addon.Cards.{
  VideoRow, find_entry, on_disk, video_row_at, video_row, video_rows, preview, meta_for,
  lists_videos, file_title,
}
use stremio_libtorrent_serve.Torrent.Engine.Pinned.{lower-twice}

-- A video of the page: a complete video of the entry, under an id that is read back as its own.
abbrev pub IsPlayable : Entry → VideoRow → Type 0
IsPlayable e v =
    (f : MediaFile) × (idx : ℕ) × In f e.files
    × (is_complete f ≡ true)
    × (is_video f.name ≡ true)
    × (f.index ≡ some idx)
    × (parse_id v.id ≡ some (lower e.info_hash, some idx))

video_row_at-some :
    (e : Entry) (f : MediaFile) (o : Option ℕ) (v : VideoRow)
    → video_row_at e f o ≡ some v
    → (idx : ℕ) × (o ≡ some idx) × (v.id ≡ format_id (lower e.info_hash) (some idx))
video_row_at-some e f none v h = absurd (cc h)
video_row_at-some e f (some idx) v h =
    let same : record { id = format_id (lower e.info_hash) (some idx); title = file_title f idx }
        ≡ v =
      cc h in
    (idx, refl, ap (λ (x : VideoRow). x.id) (sym same))

parse_id-lower :
    (ih : Text) (n : Option ℕ)
    → IsHex 40 (lower ih)
    → parse_id (format_id (lower ih) n) ≡ some (lower ih, n)
parse_id-lower ih n h =
    let h' : IsHex 40 (lower (lower ih)) = subst (IsHex 40) (sym (lower-twice ih)) h in
    parse_id-format_id (lower ih) n h' ∙ ap (λ t. some (t, n)) (lower-twice ih)

-- Each video on the page of a torrent whose hash has 40 hexadecimal digits is a file of the torrent, a
-- video that is complete and has an index, and its id is read back as the torrent's hash and that index.
pub meta_for-IsPlayable :
    (of_progress : ℕ → ℕ) (e : Entry) (rows : List VideoRow) (v : VideoRow)
    → IsHex 40 (lower e.info_hash)
    → (meta_for of_progress e).videos ≡ some rows
    → In v rows
    → IsPlayable e v
unfolding meta_for video_rows on_disk
meta_for-IsPlayable of_progress e rows v x h m = elim (Bool-cases (lists_videos e)) [
  | inl c ↦
      let h' : some (video_rows e) ≡ some rows = rw c at h in
      let same : video_rows e ≡ rows = cc h' in
      let (f, i, k) = In-collect (video_row e) v (on_disk e) (subst (In v) (sym same) m) in
      let (j, p) = In-keep _ f e.files i in
      let (idx, q, r) = video_row_at-some e f f.index v k in
      (
        f,
        idx,
        j,
        ground (arith, p),
        ground (arith, p),
        q,
        ap parse_id r ∙ parse_id-lower e.info_hash (some idx) x,
      )
  | inr c ↦ absurd (cc (rw c at h))
]

first-exists :
    {A : Type 0} (p : A → Bool) (x : A) (xs : List A)
    → In x xs
    → p x ≡ true
    → (y : A) × (first p xs ≡ some y)
unfolding first
first-exists p x [] m h = absurd m
first-exists p x (y ∷ xs) m h = elim (Bool-cases (p y)) [
  | inl c ↦ (y, rw c refl)
  | inr c ↦ let (z, q) = first-exists p x xs (past m c) h in (z, rw c q)
]
  where
    past : In x (y ∷ xs) → p y ≡ false → In x xs
    past (inl same) c = absurd (cc (ap p same, c, h))
    past (inr m') c = m'

both_true : (a b : Bool) → (a && b) ≡ true → (a ≡ true) × (b ≡ true)
both_true true b h = (refl, h)
both_true false b h = absurd (cc h)

-- The id of the card of a title whose hash has 40 hexadecimal digits is read back as that hash, under
-- which the library finds a title with the same hash.
pub find_entry-preview :
    (of_progress : ℕ → ℕ) (entries : List Entry) (e : Entry)
    → In e entries
    → is_title e ≡ true
    → IsHex 40 (lower e.info_hash)
    → (parse_id (preview of_progress e).id ≡ some (lower e.info_hash, none))
      × ((found : Entry) × (find_entry entries (lower e.info_hash) ≡ some found)
          × In found entries
          × (is_title found ≡ true)
          × (lower found.info_hash ≡ lower e.info_hash))
unfolding preview find_entry
find_entry-preview of_progress entries e m t h =
    let (found, q) =
      first-exists is_it e entries m (ground (arith, t, beq_refl (lower e.info_hash), same)) in
    let (i, k) = In-first is_it found entries q in
    (
      parse_id-format_id e.info_hash none h,
      (
        found,
        q,
        i,
        (both_true _ _ k).0,
        (Text_eq.decides (lower found.info_hash) (lower (lower e.info_hash))).0 (both_true _ _ k).1
            ∙ same,
      ),
    )
  where
    same : lower (lower e.info_hash) ≡ lower e.info_hash
    same = lower-twice e.info_hash

    is_it : Entry → Bool
    is_it x = is_title x && lower x.info_hash == lower (lower e.info_hash)
