-- ===== src/Torrent/Trackers/Lists.antt =====
-- What the loops over trackers gather.
use mathlib.Core.List.{append-nil, append_assoc}
use stremio_libtorrent_serve.Prelude.{
  ◌≡◌, inl, inr, refl, sym, ap, ◌∙◌, Bool, true, false, not, ◌&&◌, ◌||◌, List, [], ◌∷◌, ◌++◌, arith,
  contains, contains-append, All, All-append, Bool-cases,
}
use stremio_libtorrent_serve.Prelude.Text.{Text, Text_eq, is_empty, text_eq_iff}
use stremio_libtorrent_serve.Torrent.Trackers.{
  default_trackers, append_new, add_new, is_given, merge_trackers,
}

-- No entry is there twice.
abbrev pub Distinct : List Text → Type 0
Distinct [] = Unit
Distinct (t ∷ ts) = (contains ts t ≡ false) × Distinct ts

snoc-Distinct :
    (ts : List Text) (t : Text) → Distinct ts → contains ts t ≡ false → Distinct (ts ++ t ∷ [])
unfolding contains
snoc-Distinct [] t d fresh = (refl, tt)
snoc-Distinct (u ∷ ts) t d fresh = (
  ground (arith, text_eq_iff u t, text_eq_iff t u, contains-append ts (t ∷ []) u),
  snoc-Distinct ts t d.1 (ground arith),
)

still_new :
    (out us : List Text) (t : Text)
    → All (λ u. contains out u ≡ false) us
    → contains us t ≡ false
    → All (λ u. contains (out ++ t ∷ []) u ≡ false) us
unfolding contains
still_new out [] t h fresh = tt
still_new out (u ∷ us) t h fresh = (
  ground (arith, contains-append out (t ∷ []) u, text_eq_iff t u, text_eq_iff u t),
  still_new out us t h.1 (ground arith),
)

module _ (test : Text → Bool) where
  -- What passes the test is there in the end, and nothing else is new.
  pub contains-add_new :
      (out ts : List Text) (t : Text)
      → contains (add_new test out ts) t ≡ (contains out t || (test t && contains ts t))
  unfolding add_new contains
  contains-add_new out [] t = ground arith
  contains-add_new out (u ∷ ts) t = ground (
    arith,
    text_eq_iff u t,
    contains-append out (u ∷ []) t,
    contains-add_new (out ++ u ∷ []) ts t,
    contains-add_new out ts t,
  )

  pub add_new-Distinct : (out ts : List Text) → Distinct out → Distinct (add_new test out ts)
  unfolding add_new
  add_new-Distinct out [] d = d
  add_new-Distinct out (t ∷ ts) d =
      add_new-Distinct (append_new test out t) ts
        (elim (Bool-cases (test t && not (contains out t))) [
          | inl e ↦ rw e (snoc-Distinct out t d (ground arith))
          | inr e ↦ rw e d
        ])

  -- What was there stays, in its place.
  pub add_new-prefix :
      (out ts : List Text) → (rest : List Text) × (add_new test out ts ≡ out ++ rest)
  unfolding add_new
  add_new-prefix out [] = ([], sym (append-nil out))
  add_new-prefix out (t ∷ ts) = elim (Bool-cases (test t && not (contains out t))) [
    | inl e ↦
        let (rest, eq) = add_new-prefix (out ++ t ∷ []) ts in
        (t ∷ rest, rw e (eq ∙ append_assoc out (t ∷ []) rest))
    | inr e ↦ let (rest, eq) = add_new-prefix out ts in (rest, rw e eq)
  ]

  pub add_new-All {κ} :
      (P : Text → Type κ) (out ts : List Text) → All P out → All P ts → All P (add_new test out ts)
  unfolding add_new
  add_new-All P out [] h k = h
  add_new-All P out (t ∷ ts) h k =
      add_new-All P (append_new test out t) ts
        (elim (Bool-cases (test t && not (contains out t))) [
          | inl e ↦ rw e (All-append P out (t ∷ []) h (k.0, tt))
          | inr e ↦ rw e h
        ])
        k.1

  pub add_new-passes :
      (out ts : List Text)
      → All (λ t. test t ≡ true) out
      → All (λ t. test t ≡ true) (add_new test out ts)
  unfolding add_new
  add_new-passes out [] h = h
  add_new-passes out (t ∷ ts) h =
      add_new-passes (append_new test out t) ts
        (elim (Bool-cases (test t && not (contains out t))) [
          | inl e ↦ rw e (All-append (λ u. test u ≡ true) out (t ∷ []) h (ground arith, tt))
          | inr e ↦ rw e h
        ])

  -- Entries that pass, are new and differ from one another are all appended.
  pub add_new-new :
      (out ts : List Text)
      → All (λ t. test t ≡ true) ts
      → All (λ t. contains out t ≡ false) ts
      → Distinct ts
      → add_new test out ts ≡ out ++ ts
  unfolding add_new
  add_new-new out [] p n d = sym (append-nil out)
  add_new-new out (t ∷ ts) p n d =
      rw (p.0, n.0)
        (add_new-new (out ++ t ∷ []) ts p.1 (still_new out ts t n.1 d.0) d.1
          ∙ append_assoc out (t ∷ []) ts)

prefix_trans : (a b c r q : List Text) → b ≡ a ++ r → c ≡ b ++ q → c ≡ a ++ (r ++ q)
prefix_trans a b c r q e f = f ∙ ap (λ xs. xs ++ q) e ∙ append_assoc a r q

-- One torrent's list: a tracker is announced to exactly when it is not empty and one of the five sources
-- names it; none stands there twice; and those that the torrent came with stand first, in their order.
pub merge_trackers-IsUnion :
    (existing extra env live : List Text)
    → let merged = merge_trackers existing extra env live in
      ((t : Text)
        → contains merged t ≡ (
            not (is_empty t)
            && (contains existing t
                || (contains default_trackers t
                    || (contains env t || (contains live t || contains extra t))))))
      × Distinct merged
      × ((rest : List Text) × (merged ≡ add_new is_given [] existing ++ rest))
unfolding merge_trackers contains
merge_trackers-IsUnion existing extra env live =
    let one = add_new is_given [] existing in
    let two = add_new is_given one default_trackers in
    let three = add_new is_given two env in
    let four = add_new is_given three live in
    (
      λ t. ground (
        arith,
        contains-add_new is_given [] existing t,
        contains-add_new is_given one default_trackers t,
        contains-add_new is_given two env t,
        contains-add_new is_given three live t,
        contains-add_new is_given four extra t,
      ),
      add_new-Distinct is_given four extra (
          add_new-Distinct is_given three live (
            add_new-Distinct is_given two env (
              add_new-Distinct is_given one default_trackers
                (add_new-Distinct is_given [] existing tt)))),
      let (r, e) = add_new-prefix is_given one default_trackers in
          let (r', e') = add_new-prefix is_given two env in
          let (r'', e'') = add_new-prefix is_given three live in
          let (q, f) = add_new-prefix is_given four extra in
          (
            r ++ (r' ++ (r'' ++ q)),
            prefix_trans one two _ r _ e
                (prefix_trans two three _ r' _ e' (prefix_trans three four _ r'' q e'' f)),
          ),
    )
