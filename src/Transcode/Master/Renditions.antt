-- ===== src/Transcode/Master/Renditions.antt =====
-- transcode/converter.py, `audio_master`: one default track, and names that stay within their quotes.
use stremio_libtorrent_serve.Prelude.{
  ℕ, suc, ◌+◌, ◌≡◌, ◌≢◌, ◌≤◌, ◌<◌, refl, inl, inr, Bool, true, false, none, some, List, [], ◌∷◌,
  ◌++◌, arith, Bool-cases, Option-cases, All, All-append, All-weaken, All-keep, map, keep, length,
  nat_eq, ltb,
}
use stremio_libtorrent_serve.Prelude.Text.{Text, Text_eq, codes}
use stremio_libtorrent_serve.Prelude.Numerals.{all_codes, decimal, IsDigit, decimal-All}
use stremio_libtorrent_serve.Prelude.Names.{split_on, cons_part, replace_code}
use stremio_libtorrent_serve.Prelude.Dict.{Dict, put}
use stremio_libtorrent_serve.Transcode.Master.{
  Track, Rendition, join_words, or_text, default_from, default_track, count_in, numbered,
  is_tag_code, is_language_tag, language_of, safe_code, quoted_text, track_name, renditions_from,
  renditions,
}

-- No quote and no line break.
abbrev pub IsQuotable : ℕ → Type 0
IsQuotable c = (c ≢ 34) × (c ≢ 10) × (c ≢ 13)

-- The values that a line of the playlist puts between quotes: its name, and its language if it has one.
abbrev pub quoted_values : Rendition → List Text
quoted_values r = r.name ∷ elim r.language [ none ↦ [] | some lang ↦ lang ∷ [] ]

abbrev pub IsSafe : Rendition → Type 0
IsSafe r = All (All IsQuotable) (quoted_values r)

tag_codes-All : (lang : Text) → all_codes is_tag_code lang ≡ true → All IsQuotable lang
unfolding all_codes
tag_codes-All [] h = tt
tag_codes-All (c ∷ lang) h = (
  (ground (arith, h), ground (arith, h), ground (arith, h)),
  tag_codes-All lang (ground (arith, h)),
)

language_tag-All : (lang : Text) → is_language_tag lang ≡ true → All IsQuotable lang
unfolding is_language_tag
language_tag-All lang h = tag_codes-All lang (ground (arith, h))

language-All :
    (lang : Text)
    → All (All IsQuotable) (elim (language_of lang) [ none ↦ [] | some tag ↦ tag ∷ [] ])
language-All lang = elim (Bool-cases (is_language_tag lang)) [
  | inl e ↦ rw e (language_tag-All lang e, tt)
  | inr e ↦ rw e tt
]

module _ (is_printable : ℕ → Bool) (no_lf : is_printable 10 ≡ false)
    (no_cr : is_printable 13 ≡ false) where
  printed-IsQuotable : (c : ℕ) → c ≢ 34 → IsQuotable (safe_code is_printable c)
  printed-IsQuotable c h = elim (Bool-cases (is_printable c)) [
    | inl e ↦ rw e (h, λ q. absurd (cc (q, e, no_lf)), λ q. absurd (cc (q, e, no_cr)))
    | inr e ↦ rw e (ground arith, ground arith, ground arith)
  ]

  safe_code-IsQuotable : (c : ℕ) → IsQuotable (safe_code is_printable (replace_code 34 39 c))
  safe_code-IsQuotable c = printed-IsQuotable (replace_code 34 39 c) (ground arith)

  safe-All : (t : Text) → All IsQuotable (map (safe_code is_printable) (map (replace_code 34 39) t))
  safe-All [] = tt
  safe-All (c ∷ t) = (safe_code-IsQuotable c, safe-All t)

cons_part-All :
    (c : ℕ) (parts : List Text)
    → IsQuotable c
    → All (All IsQuotable) parts
    → All (All IsQuotable) (cons_part c parts)
cons_part-All c [] h k = ((h, tt), tt)
cons_part-All c (p ∷ parts) h k = ((h, k.0), k.1)

split_on-All : (c : ℕ) (t : Text) → All IsQuotable t → All (All IsQuotable) (split_on c t)
unfolding split_on
split_on-All c [] h = (tt, tt)
split_on-All c (d ∷ t) h = elim (Bool-cases (nat_eq d c)) [
  | inl e ↦ rw e (tt, split_on-All c t h.1)
  | inr e ↦ rw e (cons_part-All d (split_on c t) h.0 (split_on-All c t h.1))
]

join_words-All :
    (words : List Text) → All (All IsQuotable) words → All IsQuotable (join_words words)
unfolding join_words
join_words-All [] h = tt
join_words-All (w ∷ []) h = h.0
join_words-All (w ∷ v ∷ words) h =
    All-append IsQuotable w (b' ' ∷ join_words (v ∷ words)) h.0
      (space, join_words-All (v ∷ words) h.1)
  where
    space : IsQuotable b' '
    space = (ground arith, ground arith, ground arith)

digits-IsQuotable : (n : ℕ) → All IsQuotable (decimal n)
digits-IsQuotable n =
    All-weaken IsDigit IsQuotable (decimal n)
      (λ c h. (ground (arith, h), ground (arith, h), ground (arith, h))) (decimal-All n)

or_text-All : (s t : Text) → All IsQuotable s → All IsQuotable t → All IsQuotable (or_text s t)
or_text-All [] t h k = k
or_text-All (c ∷ s) t h k = h

plain : (c : ℕ) → ltb 34 c ≡ true → IsQuotable c
plain c h = (ground (arith, h), ground (arith, h), ground (arith, h))

space-IsQuotable : IsQuotable b' '
space-IsQuotable = (ground arith, ground arith, ground arith)

audio-All : All IsQuotable (codes "Audio ")
audio-All = (
  plain b'A' refl,
  (
    plain b'u' refl,
    (plain b'd' refl, (plain b'i' refl, (plain b'o' refl, (space-IsQuotable, tt)))),
  ),
)

numbered-All : (name : Text) (k : ℕ) → All IsQuotable name → All IsQuotable (numbered name k)
numbered-All name k h = elim (Bool-cases (ltb 1 k)) [
  | inl e ↦ rw e (
      All-append IsQuotable name (codes " (" ++ (decimal k ++ codes ")")) h (
        All-append IsQuotable (codes " (") (decimal k ++ codes ")")
          (space-IsQuotable, (plain b'(' refl, tt))
          (All-append IsQuotable (decimal k) (codes ")") (digits-IsQuotable k)
            (plain b')' refl, tt))))
  | inr e ↦ rw e h
]

-- Lines that are chosen.
abbrev pub chosen_count : List Rendition → ℕ
chosen_count rs = length (keep (λ (r : Rendition). r.chosen) rs)

module _ (is_printable : ℕ → Bool) where
  chosen-before :
      (default n : ℕ) (seen : Dict Text ℕ) (tracks : List Track)
      → default < n
      → chosen_count (renditions_from is_printable default n seen tracks) ≡ 0
  unfolding renditions_from keep
  chosen-before default n seen [] h = refl
  chosen-before default n seen (t ∷ tracks) h =
      let name = track_name is_printable n t in
      let none_chosen =
        chosen-before default (suc n) (put name (count_in name seen) seen) tracks
          (omega (arith, h)) in
      ground (arith, none_chosen, h)

  chosen-one :
      (default n : ℕ) (seen : Dict Text ℕ) (tracks : List Track)
      → n ≤ default
      → default < n + length tracks
      → chosen_count (renditions_from is_printable default n seen tracks) ≡ 1
  unfolding renditions_from keep
  chosen-one default n seen [] h k = absurd (omega (arith, h, k))
  chosen-one default n seen (t ∷ tracks) h k =
      let name = track_name is_printable n t in
      let seen' = put name (count_in name seen) seen in
      elim (Bool-cases (nat_eq n default)) [
        | inl e ↦
            let zero_left = chosen-before default (suc n) seen' tracks (ground (arith, e)) in
            ground (arith, zero_left, e)
        | inr e ↦
            let one_left =
              chosen-one default (suc n) seen' tracks (ground (arith, e, h)) (omega (arith, k)) in
            ground (arith, one_left, e)
      ]

  default_from-within :
      (n k : ℕ) (tracks : List Track)
      → default_from n tracks ≡ some k
      → (n ≤ k) × (k < n + length tracks)
  unfolding default_from
  default_from-within n k [] h = absurd (cc h)
  default_from-within n k (t ∷ tracks) h = elim (Bool-cases t.is_default) [
    | inl e ↦
        let h' : some n ≡ some k = rw e at h in
        let same : n ≡ k = cc h' in (omega (arith, same), omega (arith, same))
    | inr e ↦
        let (a, b) = default_from-within (suc n) k tracks (rw e at h) in
        (omega (arith, a), omega (arith, b))
  ]

  default_track-within :
      (t : Track) (tracks : List Track) → default_track (t ∷ tracks) < length (t ∷ tracks)
  unfolding default_track
  default_track-within t tracks = elim (Option-cases (default_from 0 (t ∷ tracks))) [
    | inl e ↦ rw (e, default_track) (omega arith)
    | inr (k, e) ↦ rw (e, default_track) (omega (arith, (default_from-within 0 k (t ∷ tracks) e).1))
  ]

  module _ (no_lf : is_printable 10 ≡ false) (no_cr : is_printable 13 ≡ false) where
    quoted_text-All : (t : Text) → All IsQuotable (quoted_text is_printable t)
    unfolding quoted_text
    quoted_text-All t =
        join_words-All _ (
          All-keep (All IsQuotable) _ _ (split_on-All b' ' _ (safe-All is_printable no_lf no_cr t)))

    renditions_from-All :
        (default n : ℕ) (seen : Dict Text ℕ) (tracks : List Track)
        → All IsSafe (renditions_from is_printable default n seen tracks)
    unfolding renditions_from
    renditions_from-All default n seen [] = tt
    renditions_from-All default n seen (t ∷ tracks) =
        let name = track_name is_printable n t in
        let quotable : All IsQuotable name =
          or_text-All (quoted_text is_printable t.title) _ (quoted_text-All t.title) (
            or_text-All (quoted_text is_printable t.lang) _ (quoted_text-All t.lang) (
              All-append IsQuotable (codes "Audio ") (decimal (n + 1)) audio-All
                (digits-IsQuotable (n + 1)))) in
        (
          (numbered-All name (count_in name seen) quotable, language-All t.lang),
          renditions_from-All default (suc n) (put name (count_in name seen) seen) tracks,
        )

    -- Whatever the tags of the tracks of a file, where line breaks are not printable, the master playlist
    -- marks exactly one of its tracks as the default, and no value that it quotes, a track's name or its
    -- language, holds a quote or a line break.
    pub renditions-AreSafe :
        (t : Track) (tracks : List Track)
        → (chosen_count (renditions is_printable (t ∷ tracks)) ≡ 1)
          × All IsSafe (renditions is_printable (t ∷ tracks))
    unfolding renditions
    renditions-AreSafe t tracks = (
      chosen-one (default_track (t ∷ tracks)) 0 [] (t ∷ tracks) (omega arith)
          (omega (arith, default_track-within t tracks)),
      renditions_from-All (default_track (t ∷ tracks)) 0 [] (t ∷ tracks),
    )
