-- ===== src/Library/Addon/Learned/Hits.antt =====
-- library/addon_model.py, `learn_labels`: what it labels, and that the title's page then offers the file
-- that was played.
use stremio_libtorrent_serve.Prelude.{
  ℕ, ◌≡◌, ◌≤◌, refl, sym, ap, inl, inr, true, false, not, ◌&&◌, ◌||◌, Option, none, some, List, [],
  ◌∷◌, arith, Bool-cases, is_some, collect, length, nat_eq, ltb,
}
use stremio_libtorrent_serve.Prelude.Members.{In, In-collect, In-keep}
use stremio_libtorrent_serve.Prelude.Text.{Text, Text_eq, is_empty, lower}
use stremio_libtorrent_serve.Prelude.Dict.{Dict}
use stremio_libtorrent_serve.Library.Addon.{
  MediaFile, Entry, is_title, matching_files, name_matches,
}
use stremio_libtorrent_serve.Library.Addon.Learned.{
  Played, Hit, played, file_of, with_file, label_hit, learned_label, unless_unclear, learn_labels,
}

-- A label for a title that had none and holds a file that was played.
abbrev pub IsLearned : List Entry → Played → Hit → Type 0
IsLearned entries p hit =
    (e : Entry) × In e entries
    × (is_title e ≡ true)
    × (e.label ≡ none)
    × (hit.0 ≡ lower e.info_hash)
    × (hit.1 ≡ with_file p.label (file_of (matching_files p.size p.name e.files) p.size))
    × ((f : MediaFile) × In f e.files × (f.size ≡ p.size) × (name_matches p.name f ≡ true))

matching_files-In :
    (size : ℕ) (name : Text) (files : List MediaFile) (f : MediaFile)
    → In f (matching_files size name files)
    → In f files × (f.size ≡ size) × (name_matches name f ≡ true)
unfolding matching_files
matching_files-In size name files f m =
    let (i, h) = In-keep (λ g. nat_eq g.size size && name_matches name g) f files m in
    (i, ground (arith, h), ground (arith, h))

label_hit-some :
    (p : Played) (e : Entry) (matched : List MediaFile) (hit : Hit)
    → label_hit p e matched ≡ some hit
    → ((f : MediaFile) × In f matched)
      × (hit.0 ≡ lower e.info_hash)
      × (hit.1 ≡ with_file p.label (file_of matched p.size))
label_hit-some p e [] hit h = absurd (cc h)
label_hit-some p e (f ∷ matched) hit h =
    let same : (lower e.info_hash, with_file p.label (file_of (f ∷ matched) p.size)) ≡ hit = cc h in
    ((f, inl refl), ap (λ (x : Hit). x.0) (sym same), ap (λ (x : Hit). x.1) (sym same))

is_none : {A : Type 0} (o : Option A) → is_some o ≡ false → o ≡ none
is_none none h = refl
is_none (some a) h = absurd (cc h)

learned_label-some :
    (p : Played) (e : Entry) (hit : Hit)
    → learned_label p e ≡ some hit
    → (is_title e ≡ true)
      × (e.label ≡ none)
      × (label_hit p e (matching_files p.size p.name e.files) ≡ some hit)
unfolding learned_label
learned_label-some p e hit h = elim (Bool-cases (not (is_title e) || is_some e.label)) [
  | inl c ↦ absurd (cc (rw c at h))
  | inr c ↦
      let t : is_title e ≡ true = ground (arith, c) in
      let u : is_some e.label ≡ false = ground (arith, c) in (t, is_none e.label u, rw c at h)
]

hits_of-In :
    (entries : List Entry) (p : Played) (hit : Hit)
    → In hit (unless_unclear p.name (collect (learned_label p) entries))
    → IsLearned entries p hit
hits_of-In entries p hit m =
    let (e, i, h) = In-collect (learned_label p) hit entries (clear m) in
    let (t, u, k) = learned_label-some p e hit h in
    let ((f, n), q, r) = label_hit-some p e (matching_files p.size p.name e.files) hit k in
    let (i', z, w) = matching_files-In p.size p.name e.files f n in
    (e, i, t, u, q, r, (f, i', z, w))
  where
    clear :
        In hit (unless_unclear p.name (collect (learned_label p) entries))
        → In hit (collect (learned_label p) entries)
    clear m =
        elim (Bool-cases (is_empty p.name && ltb 1 (length (collect (learned_label p) entries)))) [
          | inl c ↦ absurd (rw c at m)
          | inr c ↦ rw c at m
        ]

unclear-length :
    (name : Text) (hits : List Hit) → is_empty name ≡ true → length (unless_unclear name hits) ≤ 1
unclear-length name hits h = elim (Bool-cases (ltb 1 (length hits))) [
  | inl c ↦ rw (h, c) (omega arith)
  | inr c ↦ rw (h, c) (ground (arith, c))
]

-- Each hit of a playback is for a title of the library that has no label and holds a file of the size that
-- was played, and of the name where the request names one: it is the played video's label, with that file
-- where it is the only one. A request without a name hits one torrent at most.
pub learn_labels-IsLearned :
    (entries : List Entry) (type video_id : Text) (extra : Dict Text Text) (p : Played)
    → played type video_id extra ≡ some p
    → ((hit : Hit) → In hit (learn_labels entries type video_id extra) → IsLearned entries p hit)
      × (is_empty p.name ≡ true → length (learn_labels entries type video_id extra) ≤ 1)
unfolding learn_labels
learn_labels-IsLearned entries type video_id extra p h =
    rw h (hits_of-In entries p, unclear-length p.name (collect (learned_label p) entries))
