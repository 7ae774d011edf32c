-- ===== src/Torrent/Wanted/Largest.antt =====
-- The file that a request gets is the first of the largest among those that fit it.
use stremio_libtorrent_serve.Prelude.{
  ℕ, zero, suc, ◌+◌, ◌≤◌, ◌<◌, ◌≡◌, ◌⊎◌, inl, inr, refl, sym, ap, subst, Bool, true, false, ◌&&◌,
  Option, none, some, List, [], ◌∷◌, arith, ltb, nat_eq, if◌then◌else◌, All, Bool-cases, ltb→lt,
  keep, length, range_from,
}
use stremio_libtorrent_serve.Prelude.Text.{Text}
use stremio_libtorrent_serve.Torrent.Wanted.{
  Want, largest, largest_of, guess_loop, size_of, path_of, has_ext, video_ext, indices, or_else,
  episode_files, select_wanted_file, media_files, guess_file_idx,
}

module _ (size : ℕ → ℕ) where
  -- `r` stands in the list, everything before it is smaller and nothing after it is larger.
  abbrev pub IsFirstLargest : ℕ → List ℕ → Type 0
  IsFirstLargest r [] = ⊥
  IsFirstLargest r (x ∷ xs) =
      ((r ≡ x) × All (λ j. size j ≤ size r) xs) ⊎ ((size x < size r) × IsFirstLargest r xs)

  IsFirstLargest-bound : (r x : ℕ) (xs : List ℕ) → IsFirstLargest r (x ∷ xs) → size x ≤ size r
  IsFirstLargest-bound r x xs (inl (e, h)) = rw e (omega arith)
  IsFirstLargest-bound r x xs (inr (lt, h)) = omega arith

  -- an entry that is no larger may stand after the first
  insert-IsFirstLargest :
      (r b x : ℕ) (xs : List ℕ)
      → size x ≤ size b
      → IsFirstLargest r (b ∷ xs)
      → IsFirstLargest r (b ∷ x ∷ xs)
  insert-IsFirstLargest r b x xs le (inl (e, h)) = inl (e, (rw e le, h))
  insert-IsFirstLargest r b x xs le (inr (lt, h)) = inr (lt, inr (omega arith, h))

  largest-cons :
      (b x y : ℕ) (xs : List ℕ)
      → (if ltb (size b) (size x) then x else b) ≡ y
      → largest size y xs ≡ largest size b (x ∷ xs)
  unfolding largest
  largest-cons b x y xs e = ap (λ z. largest size z xs) (sym e)

  largest-IsFirstLargest : (b : ℕ) (xs : List ℕ) → IsFirstLargest (largest size b xs) (b ∷ xs)
  unfolding largest
  largest-IsFirstLargest b [] = inl (refl, tt)
  largest-IsFirstLargest b (x ∷ xs) = elim (Bool-cases (ltb (size b) (size x))) [
    | inl e ↦
        let there = largest-IsFirstLargest x xs in
        let bound = IsFirstLargest-bound (largest size x xs) x xs there in
        let less = ltb→lt (size b) (size x) e in
        subst (λ r. IsFirstLargest r (b ∷ x ∷ xs)) (largest-cons b x x xs (rw e refl))
          (inr (omega arith, there))
    | inr e ↦
        subst (λ r. IsFirstLargest r (b ∷ x ∷ xs)) (largest-cons b x b xs (rw e refl))
          (insert-IsFirstLargest (largest size b xs) b x xs (ground arith)
            (largest-IsFirstLargest b xs))
  ]

  -- The choice of a list: none of the empty one, else the first of the largest.
  abbrev pub IsChosen : List ℕ → Option ℕ → Type 0
  IsChosen xs none = xs ≡ []
  IsChosen xs (some r) = IsFirstLargest r xs

  largest_of-IsChosen : (xs : List ℕ) → IsChosen xs (largest_of size xs)
  largest_of-IsChosen [] = refl
  largest_of-IsChosen (x ∷ xs) = largest-IsFirstLargest x xs

  guess_loop-largest :
      (b : ℕ) (xs : List ℕ) → guess_loop size (some b) xs ≡ some (largest size b xs)
  unfolding guess_loop largest
  guess_loop-largest b [] = refl
  guess_loop-largest b (x ∷ xs) = guess_loop-largest (if ltb (size b) (size x) then x else b) xs

  guess_loop-largest_of : (xs : List ℕ) → guess_loop size none xs ≡ largest_of size xs
  unfolding guess_loop
  guess_loop-largest_of [] = refl
  guess_loop-largest_of (x ∷ xs) = guess_loop-largest x xs

-- `r` is the first of the largest of the numbers below `n` that pass a test.
pub record IsBest (size : ℕ → ℕ) (fits : ℕ → Bool) (n r : ℕ) : Type 0 where
  pub inside : r < n
  pub passes : fits r ≡ true
  pub bound : (j : ℕ) → j < n → fits j ≡ true → size j ≤ size r
  pub foremost : (j : ℕ) → j < r → fits j ≡ true → size j < size r

abbrev pub NoneFits : (ℕ → Bool) → ℕ → Type 0
NoneFits fits n = (j : ℕ) → j < n → fits j ≡ false

keep-keep : (p q : ℕ → Bool) (xs : List ℕ) → keep q (keep p xs) ≡ keep (λ x. p x && q x) xs
unfolding keep
keep-keep p q [] = refl
keep-keep p q (x ∷ xs) = elim (Bool-cases (p x)) [
  | inl e ↦ rw (e, keep, keep-keep p q xs) refl
  | inr e ↦ rw (e, keep, keep-keep p q xs) refl
]

nil-fits :
    (fits : ℕ → Bool) (k n : ℕ)
    → keep fits (range_from k n) ≡ []
    → (j : ℕ) → k ≤ j
    → j < k + n
    → fits j ≡ false
unfolding keep
nil-fits fits k zero h j le lt = absurd (omega arith)
nil-fits fits k (suc n) h j le lt = elim (Bool-cases (fits k)) [
  | inl e ↦ absurd (let h' = rw (e, keep) at h in cc h')
  | inr e ↦ elim (Bool-cases (nat_eq j k)) [
    | inl same ↦ let eq : j ≡ k = ground (arith, same) in rw eq e
    | inr other ↦
        nil-fits fits (suc k) n (rw (e, keep) at h) j (ground (arith, other, le))
          (omega (arith, lt))
  ]
]

keep-NoneFits : (fits : ℕ → Bool) (n : ℕ) → keep fits (range_from 0 n) ≡ [] → NoneFits fits n
keep-NoneFits fits n h j lt = nil-fits fits 0 n h j (omega arith) (omega (arith, lt))

module _ (size : ℕ → ℕ) (fits : ℕ → Bool) where
  -- what the numbers from `k` on say of `r`
  abbrev Beats : ℕ → ℕ → ℕ → Type 0
  Beats k n r =
      (j : ℕ) → k ≤ j → j < k + n → fits j ≡ true → (size j ≤ size r) × (j < r → size j < size r)

  all-Beats :
      (k n r : ℕ) → r < k → All (λ j. size j ≤ size r) (keep fits (range_from k n)) → Beats k n r
  unfolding keep
  all-Beats k zero r less h j le lt f = absurd (omega arith)
  all-Beats k (suc n) r less h j le lt f = elim (Bool-cases (nat_eq j k)) [
    | inl same ↦
        let eq : j ≡ k = ground (arith, same) in
        let f' : fits k ≡ true = rw eq at f in
        let h' = rw (f', keep) at h in (rw eq h'.0, λ l. absurd (omega (arith, l, less, le)))
    | inr other ↦
        all-Beats (suc k) n r (omega arith)
          (elim (Bool-cases (fits k)) [
            | inl e ↦ let h' = rw (e, keep) at h in h'.1
            | inr e ↦ rw (e, keep) at h
          ])
          j (ground (arith, other, le)) (omega (arith, lt)) f
  ]

  range-IsBest :
      (k n r : ℕ)
      → IsFirstLargest size r (keep fits (range_from k n))
      → (k ≤ r) × (r < k + n) × (fits r ≡ true) × Beats k n r
  unfolding keep
  range-IsBest k zero r h = absurd h
  range-IsBest k (suc n) r h = elim (Bool-cases (fits k)) [
    | inl e ↦ elim (rw (e, keep) at h) [
      | inl (same, rest) ↦ (
        omega (arith, same),
        omega (arith, same),
        rw same e,
        λ j le lt f. elim (Bool-cases (nat_eq j k)) [
          | inl here ↦
              let eq : j ≡ k = ground (arith, here) in
              (rw (eq, same) (omega arith), λ l. absurd (omega (arith, l, eq, same)))
          | inr other ↦
              all-Beats (suc k) n r (omega (arith, same)) rest j (ground (arith, other, le))
                (omega (arith, lt)) f
        ],
      )
      | inr (less, later) ↦
          let (a, b, c, d) = range-IsBest (suc k) n r later in
          (
            omega (arith, a),
            omega (arith, b),
            c,
            λ j le lt f. elim (Bool-cases (nat_eq j k)) [
              | inl here ↦
                  let eq : j ≡ k = ground (arith, here) in
                  (rw eq (omega (arith, less)), λ l. rw eq less)
              | inr other ↦ d j (ground (arith, other, le)) (omega (arith, lt)) f
            ],
          )
    ]
    | inr e ↦
        let (a, b, c, d) = range-IsBest (suc k) n r (rw (e, keep) at h) in
        (
          omega (arith, a),
          omega (arith, b),
          c,
          λ j le lt f. elim (Bool-cases (nat_eq j k)) [
            | inl here ↦ let eq : j ≡ k = ground (arith, here) in absurd (cc (rw eq at f, e))
            | inr other ↦ d j (ground (arith, other, le)) (omega (arith, lt)) f
          ],
        )
  ]

  keep-IsBest :
      (n r : ℕ) → IsFirstLargest size r (keep fits (range_from 0 n)) → IsBest size fits n r
  keep-IsBest n r h =
      let (a, b, c, d) = range-IsBest 0 n r h in
      record {
        inside = omega (arith, b);
        passes = c;
        bound = λ j lt f. (d j (omega arith) (omega (arith, lt)) f).0;
        foremost = λ j lt f. (d j (omega arith) (omega (arith, lt, b)) f).1 lt;
      }

module _ (files : List (Text × ℕ)) where
  -- A guess is the first of the largest media files, of those that read as the episode where it names
  -- one and there are any; it is -1 only when the torrent has no media file.
  pub guess_file_idx-IsChosen :
      (is_episode : Option (Text → Bool))
      → IsChosen (size_of files) (media_files files is_episode) (guess_file_idx files is_episode)
  unfolding guess_file_idx
  guess_file_idx-IsChosen is_episode =
      rw (guess_loop-largest_of (size_of files) (media_files files is_episode))
        (largest_of-IsChosen (size_of files) (media_files files is_episode))

  module _ (is_episode : Text → Bool) where
    abbrev pub is_hit : ℕ → Bool
    is_hit i = is_episode (path_of files i)

    abbrev pub is_video_hit : ℕ → Bool
    is_video_hit i = is_hit i && has_ext video_ext (path_of files i)

    -- The file that a download of the episode should get: the first of the largest videos that read as the
    -- episode; where there is none, the first of the largest files that do; none where no file does.
    abbrev pub IsWantedFile : Option ℕ → Type 0
    IsWantedFile none = NoneFits is_hit (length files)
    IsWantedFile (some r) =
        IsBest (size_of files) is_video_hit (length files) r
        ⊎ (NoneFits is_video_hit (length files) × IsBest (size_of files) is_hit (length files) r)

    largest_of-IsWantedFile :
        (hits videos : List ℕ)
        → keep is_hit (indices files) ≡ hits
        → keep is_video_hit (indices files) ≡ videos
        → IsWantedFile (largest_of (size_of files) (or_else videos hits))
    largest_of-IsWantedFile [] [] h v = keep-NoneFits is_hit (length files) h
    largest_of-IsWantedFile (x ∷ hits) [] h v = inr (
      keep-NoneFits is_video_hit (length files) v,
      keep-IsBest (size_of files) is_hit (length files) (largest (size_of files) x hits) (
          subst (IsFirstLargest (size_of files) (largest (size_of files) x hits)) (sym h)
            (largest-IsFirstLargest (size_of files) x hits)),
    )
    largest_of-IsWantedFile hits (y ∷ videos) h v = inl (
        keep-IsBest (size_of files) is_video_hit (length files) (largest (size_of files) y videos) (
          subst (IsFirstLargest (size_of files) (largest (size_of files) y videos)) (sym v)
            (largest-IsFirstLargest (size_of files) y videos)))

    episode_files-eq :
        episode_files files is_episode
        ≡ or_else (keep is_video_hit (indices files)) (keep is_hit (indices files))
    unfolding episode_files
    episode_files-eq =
        ap (λ videos. or_else videos (keep is_hit (indices files)))
          (keep-keep is_hit (λ i. has_ext video_ext (path_of files i)) (indices files))

    -- A request that names an episode and no file index gets the first of the largest among the videos
    -- that read as the episode; where no video reads as it, the first of the largest among all files that
    -- do; and the whole torrent only where no file reads as the episode.
    pub select_wanted_file-IsChosen :
        (want : Want)
        → want.file_idx ≡ none
        → want.is_episode ≡ some is_episode
        → IsWantedFile (select_wanted_file files (some want))
    unfolding select_wanted_file
    select_wanted_file-IsChosen want e k =
        rw (e, k)
          (rw episode_files-eq (
            largest_of-IsWantedFile (keep is_hit (indices files))
              (keep is_video_hit (indices files)) refl refl))
