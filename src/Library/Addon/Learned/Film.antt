-- ===== src/Library/Addon/Learned/Film.antt =====
-- library/addon_model.py: a film that is learned at playback, and the row that its page then has.
use stremio_libtorrent_serve.Prelude.{
  ℕ, ◌≡◌, refl, sym, subst, ap, inl, inr, Bool, true, false, ◌&&◌, ◌∙◌, Option, none, some, List,
  [], ◌∷◌, arith, Bool-cases, Option-cases, keep, nat_eq, ltb, beq_refl,
}
use stremio_libtorrent_serve.Prelude.Members.{In, In-keep, collect-In}
use stremio_libtorrent_serve.Prelude.Text.{Text, Text_eq, text_eq, is_empty, lower, codes}
use stremio_libtorrent_serve.Prelude.Dict.{Dict, get}
use stremio_libtorrent_serve.Prelude.Names.{split_on}
use stremio_libtorrent_serve.Prelude.Numerals.{is_decimal, value_of}
use stremio_libtorrent_serve.Library.Addon.{
  MediaFile, Entry, Label, Recorded, is_title, is_complete, base_part, matching_files, name_matches,
  addressable,
}
use stremio_libtorrent_serve.Library.Addon.Choice.{recorded_index, label_matches}
use stremio_libtorrent_serve.Library.Addon.Streams.{parse_meta_id, meta_of, row_index}
use stremio_libtorrent_serve.Library.Addon.Learned.{
  Played, VideoId, video_of, match_video_id, label_of, fits_type, played_size, played_video, played,
  recorded_file, file_of, with_file, learned_label, is_base, text_or_empty, Hit, learn_labels,
}

-- What a film's playback says of its id.
abbrev IsFilm : Text → Played → Type 0
IsFilm video_id p =
    (parse_meta_id video_id ≡ record { base = p.label.meta_id; season = none; episode = none })
    × (p.label.season ≡ none)
    × (p.label.episode ≡ none)

video_of-film :
    (parts : List Text) (id : VideoId)
    → video_of parts ≡ some id
    → id.numbers ≡ none
    → meta_of parts ≡ record { base = id.base; season = none; episode = none }
video_of-film [] id h k = absurd (cc h)
video_of-film (base ∷ []) id h k = elim (Bool-cases (is_base base)) [
  | inl c ↦
      let same : some (record { base = base; numbers = none }) ≡ some id = rw c at h in
      let q : record { base = base; numbers = none } ≡ id = cc same in
      ap (λ (v : VideoId). record { base = v.base; season = none; episode = none }) q
  | inr c ↦ absurd (cc (rw c at h))
]
video_of-film (base ∷ s ∷ []) id h k = absurd (cc h)
video_of-film (base ∷ s ∷ e ∷ []) id h k =
    elim (Bool-cases (is_base base && (is_decimal s && is_decimal e))) [
      | inl c ↦
          let same : some (record { base = base; numbers = some (value_of 0 s, value_of 0 e) })
              ≡ some id =
            rw c at h in
          let q : record { base = base; numbers = some (value_of 0 s, value_of 0 e) } ≡ id =
            cc same in
          absurd (cc (ap (λ (v : VideoId). v.numbers) q, k))
      | inr c ↦ absurd (cc (rw c at h))
    ]
video_of-film (base ∷ s ∷ e ∷ f ∷ more) id h k = absurd (cc h)

played_size-label :
    (type video_id size name : Text) (id : VideoId) (p : Played)
    → played_size type video_id id size name ≡ some p
    → p.label ≡ label_of type video_id id
played_size-label type video_id size name id p h =
    elim (Bool-cases (is_decimal size && ltb 0 (value_of 0 size))) [
      | inl c ↦
          let same : some (record {
            label = label_of type video_id id;
            size = value_of 0 size;
            name = base_part name;
          })
              ≡ some p =
            rw c at h in
          let q : record {
            label = label_of type video_id id;
            size = value_of 0 size;
            name = base_part name;
          }
              ≡ p =
            cc same in
          ap (λ (x : Played). x.label) (sym q)
      | inr c ↦ absurd (cc (rw c at h))
    ]

fits_type-film : (id : VideoId) → fits_type (codes "movie") id ≡ true → id.numbers ≡ none
unfolding text_eq
fits_type-film id h = elim (Option-cases id.numbers) [
  | inl c ↦ c
  | inr (n, c) ↦ absurd (cc (rw c at h))
]

played-IsFilm :
    (video_id : Text) (extra : Dict Text Text) (p : Played)
    → played (codes "movie") video_id extra ≡ some p
    → IsFilm video_id p
unfolding played match_video_id parse_meta_id
played-IsFilm video_id extra p h = of_match (match_video_id video_id) refl h
  where
    of_match :
        (o : Option VideoId)
        → match_video_id video_id ≡ o
        → played_video (codes "movie") video_id extra o ≡ some p
        → IsFilm video_id p
    of_match none q k = absurd (cc k)
    of_match (some id) q k = elim (Bool-cases (fits_type (codes "movie") id)) [
      | inl c ↦
          let film = fits_type-film id c in
          let l : p.label ≡ label_of (codes "movie") video_id id =
            played_size-label (codes "movie") video_id
              (text_or_empty (get (codes "videoSize") extra))
              (text_or_empty (get (codes "filename") extra)) id p (rw c at k) in
          let m = video_of-film (split_on b':' video_id) id q film in
          (
            m
                ∙ ap (λ b. record { base = b; season = none; episode = none })
                    (sym (ap (λ (x : Label). x.meta_id) l)),
            ap (λ (x : Label). x.season) l ∙ rw film refl,
            ap (λ (x : Label). x.episode) l ∙ rw film refl,
          )
      | inr c ↦ absurd (cc (rw c at k))
    ]

keep-refine :
    {A : Type 0} (p q : A → Bool) (xs : List A)
    → ((x : A) → p x ≡ true → q x ≡ true)
    → keep p xs ≡ keep p (keep q xs)
unfolding keep
keep-refine p q [] h = refl
keep-refine p q (x ∷ xs) h = elim (Bool-cases (q x)) [
  | inl c ↦ rw (c, keep, keep-refine p q xs h) refl
  | inr c ↦ elim (Bool-cases (p x)) [
    | inl d ↦ absurd (cc (h x d, c))
    | inr d ↦ rw (c, d, keep) (keep-refine p q xs h)
  ]
]

matching_files-played :
    (size : ℕ) (name : Text) (files : List MediaFile) (f : MediaFile)
    → matching_files size name files ≡ f ∷ []
    → is_empty (base_part f.name) ≡ false
    → matching_files size (base_part f.name) files ≡ f ∷ []
unfolding matching_files
matching_files-played size name files f h n =
    keep-refine named given files (λ x k. ground (
      arith,
      k,
      n,
      passed,
      Text_eq.decides (base_part x.name) (base_part f.name),
      Text_eq.decides (base_part f.name) name,
    ))
    ∙ (ap (keep named) h ∙ named-f)
  where
    given : MediaFile → Bool
    given g = nat_eq g.size size && name_matches name g

    named : MediaFile → Bool
    named g = nat_eq g.size size && name_matches (base_part f.name) g

    passed : given f ≡ true
    passed = (In-keep given f files (subst (In f) (sym h) (inl refl))).1

    named-f : keep named (f ∷ []) ≡ f ∷ []
    named-f = unfold keep in ground (arith, passed, beq_refl (base_part f.name))

-- What is recorded of a file that was played.
abbrev pub recorded_as : Played → MediaFile → Recorded
recorded_as p f = record { name = base_part f.name; size = p.size }

recorded_file-named :
    (name : Text) (size : ℕ)
    → is_empty name ≡ false
    → recorded_file name size ≡ some (record { name = name; size = size })
unfolding is_empty
recorded_file-named [] size n = absurd (cc n)
recorded_file-named (c ∷ name) size n = refl

learned_label-hit :
    (e : Entry) (p : Played) (f : MediaFile)
    → is_title e ≡ true
    → e.label ≡ none
    → matching_files p.size p.name e.files ≡ f ∷ []
    → is_empty (base_part f.name) ≡ false
    → learned_label p e ≡ some (lower e.info_hash, with_file p.label (some (recorded_as p f)))
unfolding learned_label file_of
learned_label-hit e p f t u m n =
    rw (t, u, m) (rw (recorded_file-named (base_part f.name) p.size n) refl)

addressable-one : (f : MediaFile) (idx : ℕ) → f.index ≡ some idx → addressable (f ∷ []) ≡ f ∷ []
unfolding addressable keep
addressable-one f idx i = rw i refl

learned-row_index :
    (e : Entry) (video_id : Text) (p : Played) (f : MediaFile) (idx : ℕ)
    → IsFilm video_id p
    → is_title e ≡ true
    → matching_files p.size p.name e.files ≡ f ∷ []
    → is_empty (base_part f.name) ≡ false
    → f.index ≡ some idx
    → is_complete f ≡ true
    → row_index
        (record e { label = some (with_file p.label (some (recorded_as p f))) })
        (parse_meta_id video_id)
      ≡ some idx
unfolding row_index recorded_index label_matches addressable
learned-row_index e video_id p f idx (meta, season, episode) t m n i c =
    let labelled : Entry = record e { label = some (with_file p.label (some (recorded_as p f))) } in
    let t' : is_title labelled ≡ true = unfold is_title in t in
    let found = matching_files-played p.size p.name e.files f m n in
    rw (meta, t', beq_refl p.label.meta_id, season, episode)
      (rw (found, addressable-one f idx i) (rw c i))

learn_labels-hit :
    (entries : List Entry) (e : Entry) (video_id : Text) (extra : Dict Text Text) (p : Played)
    (hit : Hit)
    → In e entries
    → played (codes "movie") video_id extra ≡ some p
    → is_empty p.name ≡ false
    → learned_label p e ≡ some hit
    → In hit (learn_labels entries (codes "movie") video_id extra)
unfolding learn_labels
learn_labels-hit entries e video_id extra p hit i h named found =
    rw h (rw named (collect-In (learned_label p) e hit entries i found))

-- A film is played and its file named: where an unlabelled title of the library has exactly one file of
-- that size and name, `learn_labels` has a label for the title with which the film's page offers that
-- file, once it is complete and has a name and an index.
pub learn_labels-row :
    (entries : List Entry) (e : Entry) (video_id : Text) (extra : Dict Text Text) (p : Played)
    (f : MediaFile) (idx : ℕ)
    → In e entries
    → played (codes "movie") video_id extra ≡ some p
    → is_empty p.name ≡ false
    → is_title e ≡ true
    → e.label ≡ none
    → matching_files p.size p.name e.files ≡ f ∷ []
    → is_empty (base_part f.name) ≡ false
    → f.index ≡ some idx
    → is_complete f ≡ true
    → (l : Label) × In (lower e.info_hash, l) (learn_labels entries (codes "movie") video_id extra)
      × (row_index (record e { label = some l }) (parse_meta_id video_id) ≡ some idx)
unfolding learn_labels row_index file_of
learn_labels-row entries e video_id extra p f idx listed h named t u m n i c =
    let film = played-IsFilm video_id extra p h in
    (
      with_file p.label (some (recorded_as p f)),
      learn_labels-hit entries e video_id extra p
          (lower e.info_hash, with_file p.label (some (recorded_as p f))) listed h named
          (learned_label-hit e p f t u m n),
      learned-row_index e video_id p f idx film t m n i c,
    )
