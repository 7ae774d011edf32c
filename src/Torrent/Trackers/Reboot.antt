-- ===== src/Torrent/Trackers/Reboot.antt =====
-- The background list survives a restart: what `_write_cache` writes is read back as it was.
pub mod Saved
use mathlib.Core.List.{reverse, reverse-cons, reverse-reverse}
use stremio_libtorrent_serve.Prelude.{
  ℕ, ◌≡◌, inl, inr, refl, sym, ap, ◌∙◌, Bool, true, false, ◌||◌, Option, none, some, List, [], ◌∷◌,
  ◌++◌, arith, contains, All, Bool-cases,
}
use stremio_libtorrent_serve.Prelude.Text.{Text, Text_eq, is_empty, is_space, lstrip, strip}
use stremio_libtorrent_serve.Torrent.Trackers.{
  is_tracker_url, is_separator, cons_head, split_trackers, append_new, add_new,
  parse_tracker_string, cache_text, TrackerSource, load_cache, start_source, same_list, write_cache,
  take_list, refresh_once,
}
use stremio_libtorrent_serve.Torrent.Trackers.Lists.{
  Distinct, add_new-Distinct, add_new-All, add_new-passes, add_new-new,
}

abbrev IsPlain : ℕ → Type 0
IsPlain c = is_separator c ≡ false

abbrev IsWord : Text → Type 0
IsWord t = All IsPlain t

split_trackers-word :
    (t rest : Text) → IsWord t → split_trackers (t ++ 10 ∷ rest) ≡ t ∷ split_trackers rest
unfolding split_trackers
split_trackers-word [] rest h = refl
split_trackers-word (c ∷ t) rest h = rw h.0 (rw (split_trackers-word t rest h.1) refl)

cons_head-words :
    (c : ℕ) (words : List Text) → IsPlain c → All IsWord words → All IsWord (cons_head c words)
cons_head-words c [] p h = ((p, tt), tt)
cons_head-words c (w ∷ words) p h = ((p, h.0), h.1)

split_trackers-words : (s : Text) → All IsWord (split_trackers s)
unfolding split_trackers
split_trackers-words [] = (tt, tt)
split_trackers-words (c ∷ s) = elim (Bool-cases (is_separator c)) [
  | inl e ↦ rw e (tt, split_trackers-words s)
  | inr e ↦ rw e (cons_head-words c (split_trackers s) e (split_trackers-words s))
]

split_trackers-ne-nil :
    (s : Text) → (w : Text) × (words : List Text) × (split_trackers s ≡ w ∷ words)
unfolding split_trackers
split_trackers-ne-nil [] = ([], [], refl)
split_trackers-ne-nil (c ∷ s) = elim (Bool-cases (is_separator c)) [
  | inl e ↦ rw e ([], split_trackers s, refl)
  | inr e ↦ let (w, words, eq) = split_trackers-ne-nil s in rw e (rw eq (c ∷ w, words, refl))
]

split_snoc :
    (s : Text) (c : ℕ)
    → is_separator c ≡ true
    → split_trackers (s ++ c ∷ []) ≡ split_trackers s ++ [] ∷ []
unfolding split_trackers
split_snoc [] c h = rw h refl
split_snoc (d ∷ s) c h = elim (Bool-cases (is_separator d)) [
  | inl e ↦ rw e (ap (λ ws. [] ∷ ws) (split_snoc s c h))
  | inr e ↦
      let (w, words, eq) = split_trackers-ne-nil s in rw e (rw (split_snoc s c h) (rw eq refl))
]

split_trackers-space :
    (c : ℕ) (s : Text) → is_space c ≡ true → split_trackers (c ∷ s) ≡ [] ∷ split_trackers s
unfolding split_trackers
split_trackers-space c s e = rw e refl

lstrip-nil : lstrip [] ≡ []
unfolding lstrip
lstrip-nil = refl

lstrip-space : (c : ℕ) (s : Text) → is_space c ≡ true → lstrip (c ∷ s) ≡ lstrip s
unfolding lstrip
lstrip-space c s e = rw e refl

lstrip-other : (c : ℕ) (s : Text) → is_space c ≡ false → lstrip (c ∷ s) ≡ c ∷ s
unfolding lstrip
lstrip-other c s e = rw e refl

module _ (test : Text → Bool) where
  add_new-nil : (out : List Text) → add_new test out [] ≡ out
  unfolding add_new
  add_new-nil out = refl

  add_new-append :
      (out xs ys : List Text) → add_new test out (xs ++ ys) ≡ add_new test (add_new test out xs) ys
  unfolding add_new
  add_new-append out [] ys = refl
  add_new-append out (x ∷ xs) ys = add_new-append (append_new test out x) xs ys

  module _ (no_empty : test [] ≡ false) where
    add_new-skip : (out xs : List Text) → add_new test out ([] ∷ xs) ≡ add_new test out xs
    unfolding add_new
    add_new-skip out xs = rw no_empty refl

    lstrip-same :
        (out : List Text) (s : Text)
        → add_new test out (split_trackers (lstrip s)) ≡ add_new test out (split_trackers s)
    lstrip-same out [] = ap (λ u. add_new test out (split_trackers u)) lstrip-nil
    lstrip-same out (c ∷ s) = elim (Bool-cases (is_space c)) [
      | inl e ↦
          ap (λ u. add_new test out (split_trackers u)) (lstrip-space c s e)
          ∙ lstrip-same out s
          ∙ sym (
              ap (add_new test out) (split_trackers-space c s e)
              ∙ add_new-skip out (split_trackers s))
      | inr e ↦ ap (λ u. add_new test out (split_trackers u)) (lstrip-other c s e)
    ]

    snoc-same :
        (out : List Text) (s : Text) (c : ℕ)
        → is_separator c ≡ true
        → add_new test out (split_trackers (s ++ c ∷ [])) ≡ add_new test out (split_trackers s)
    snoc-same out s c h = rw (split_snoc s c h) (
        add_new-append out (split_trackers s) ([] ∷ [])
        ∙ add_new-skip (add_new test out (split_trackers s)) []
        ∙ add_new-nil (add_new test out (split_trackers s)))

    rstrip-same :
        (out : List Text) (s : Text)
        → add_new test out (split_trackers (reverse (lstrip s)))
          ≡ add_new test out (split_trackers (reverse s))
    unfolding lstrip
    rstrip-same out [] = refl
    rstrip-same out (c ∷ s) = elim (Bool-cases (is_space c)) [
      | inl e ↦
          rw (e, lstrip)
            (rstrip-same out s
              ∙ sym (snoc-same out (reverse s) c (rw e refl))
              ∙ ap (λ u. add_new test out (split_trackers u)) (sym (reverse-cons c s)))
      | inr e ↦ rw (e, lstrip) refl
    ]

    strip-same :
        (out : List Text) (s : Text)
        → add_new test out (split_trackers (strip s)) ≡ add_new test out (split_trackers s)
    unfolding strip
    strip-same out s =
        rstrip-same out (reverse (lstrip s))
        ∙ ap (λ u. add_new test out (split_trackers u)) (reverse-reverse (lstrip s))
        ∙ lstrip-same out s
