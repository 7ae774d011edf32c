-- ===== src/Stats/Unmatched/Shapes.antt =====
-- The shapes are few and fixed: what a request named never shows in one.
use stremio_libtorrent_serve.Prelude.{
  ◌≡◌, ◌⊎◌, inl, inr, refl, ap, subst, sym, Bool, true, false, List, [], ◌∷◌, ◌++◌, map, arith,
  if◌then◌else◌, ◌==◌, contains, Bool-cases,
}
use stremio_libtorrent_serve.Prelude.Text.{Text, Text_eq, codes, before, text_eq_iff}
use stremio_libtorrent_serve.Stats.Unmatched.{
  methods, known_first_segments, upper, is_info_hash, is_decimal, segments, verb_of, more_of,
  behind_hash, known_or_x, place, shape,
}

-- the text is one of the list
abbrev pub Among : Text → List Text → Type 0
Among t [] = ⊥
Among t (x ∷ xs) = (t ≡ x) ⊎ Among t xs

Among-contains : (xs : List Text) (t : Text) → contains xs t ≡ true → Among t xs
unfolding contains
Among-contains [] t h = cc h
Among-contains (x ∷ xs) t h = elim (Bool-cases (x == t)) [
  | inl e ↦ inl (let here = (text_eq_iff x t).0 e in cc here)
  | inr e ↦ inr (Among-contains xs t (let h' = rw e at h in h'))
]

Among-append_left : (xs ys : List Text) (t : Text) → Among t xs → Among t (xs ++ ys)
Among-append_left [] ys t h = absurd h
Among-append_left (x ∷ xs) ys t (inl e) = inl e
Among-append_left (x ∷ xs) ys t (inr h) = inr (Among-append_left xs ys t h)

Among-append_right : (xs ys : List Text) (t : Text) → Among t ys → Among t (xs ++ ys)
Among-append_right [] ys t h = h
Among-append_right (x ∷ xs) ys t h = inr (Among-append_right xs ys t h)

Among-append : (xs ys : List Text) (t : Text) → Among t xs ⊎ Among t ys → Among t (xs ++ ys)
Among-append xs ys t (inl h) = Among-append_left xs ys t h
Among-append xs ys t (inr h) = Among-append_right xs ys t h

if-true : (b : Bool) (s t : Text) → b ≡ true → (if b then s else t) ≡ s
if-true b s t e = ground arith

if-false : (b : Bool) (s t : Text) → b ≡ false → (if b then s else t) ≡ t
if-false b s t e = ground arith

Among-map : (f : Text → Text) (xs : List Text) (t : Text) → Among t xs → Among (f t) (map f xs)
Among-map f [] t h = absurd h
Among-map f (x ∷ xs) t (inl e) = inl (ap f e)
Among-map f (x ∷ xs) t (inr h) = inr (Among-map f xs t h)

-- The method's part.
abbrev pub verbs : List Text
verbs = codes "OTHER" ∷ methods

-- What stands for the first segment of a path that begins with no info hash.
unfoldable pub first_segments : List Text
first_segments = codes "{x}" ∷ known_first_segments

abbrev pub hash_places : List Text
hash_places =
    codes "/{ih}"
    ∷ codes "/{ih}/{idx}"
    ∷ codes "/{ih}/{idx}/*"
    ∷ codes "/{ih}/-1"
    ∷ codes "/{ih}/-1/*"
    ∷ codes "/{ih}/{name}"
    ∷ codes "/{ih}/{name}/*"
    ∷ []

abbrev pub alone : Text → Text
alone s = codes "/" ++ (s ++ [])

abbrev pub with_more : Text → Text
with_more s = codes "/" ++ (s ++ codes "/*")

unfoldable pub named_alone : List Text
named_alone = map alone first_segments

unfoldable pub named_more : List Text
named_more = map with_more first_segments

-- All paths that a shape can have.
unfoldable pub places : List Text
places = codes "/" ∷ hash_places ++ (named_alone ++ named_more)

-- A method or `OTHER`, and one of the fixed paths.
pub record IsShape (k : Text) : Type 0 where
  pub verb : Text
  pub path : Text
  pub verb_known : Among verb verbs
  pub path_known : Among path places
  pub spelled : k ≡ verb ++ codes " " ++ path

verb_of-Among : (method : Text) → Among (verb_of method) verbs
verb_of-Among method = elim (Bool-cases (contains methods (upper method))) [
  | inl e ↦ rw e (inr (Among-contains methods (upper method) e))
  | inr e ↦ rw e (inl refl)
]

behind_hash-Among : (segs : List Text) → Among (codes "/{ih}" ++ behind_hash segs) hash_places
behind_hash-Among [] = inl refl
behind_hash-Among (second ∷ []) = elim (Bool-cases (is_decimal second)) [
  | inl e ↦ rw e (inr (inl refl))
  | inr e ↦ elim (Bool-cases (second == codes "-1")) [
    | inl f ↦ rw (e, f) (inr (inr (inr (inl refl))))
    | inr f ↦ rw (e, f) (inr (inr (inr (inr (inr (inl refl))))))
  ]
]
behind_hash-Among (second ∷ (third ∷ segs)) = elim (Bool-cases (is_decimal second)) [
  | inl e ↦ rw e (inr (inr (inl refl)))
  | inr e ↦ elim (Bool-cases (second == codes "-1")) [
    | inl f ↦ rw (e, f) (inr (inr (inr (inr (inl refl)))))
    | inr f ↦ rw (e, f) (inr (inr (inr (inr (inr (inr (inl refl)))))))
  ]
]

known_or_x-Among : (s : Text) → Among (known_or_x s) first_segments
unfolding first_segments
known_or_x-Among s = elim (Bool-cases (contains known_first_segments s)) [
  | inl e ↦
      subst (λ t. Among t (codes "{x}" ∷ known_first_segments))
        (sym (if-true (contains known_first_segments s) s (codes "{x}") e))
        (inr (Among-contains known_first_segments s e))
  | inr e ↦
      subst (λ t. Among t (codes "{x}" ∷ known_first_segments))
        (sym (if-false (contains known_first_segments s) s (codes "{x}") e)) (inl refl)
]

alone-Among : (s : Text) → Among (alone (known_or_x s)) named_alone
unfolding named_alone
alone-Among s = Among-map alone first_segments (known_or_x s) (known_or_x-Among s)

with_more-Among : (s : Text) → Among (with_more (known_or_x s)) named_more
unfolding named_more
with_more-Among s = Among-map with_more first_segments (known_or_x s) (known_or_x-Among s)

named-Among :
    (s : Text) (segs : List Text)
    → Among (codes "/" ++ (known_or_x s ++ more_of segs)) (named_alone ++ named_more)
named-Among s [] = Among-append_left named_alone named_more (alone (known_or_x s)) (alone-Among s)
named-Among s (second ∷ segs) =
    Among-append_right named_alone named_more (with_more (known_or_x s)) (with_more-Among s)

place-Among : (segs : List Text) → Among (place segs) places
unfolding places
place-Among [] = inl refl
place-Among (s ∷ segs) =
    let hashed = codes "/{ih}" ++ behind_hash segs in
    let named = codes "/" ++ (known_or_x s ++ more_of segs) in
    let either : (t : Text)
        → Among t hash_places ⊎ Among t (named_alone ++ named_more)
        → Among t (codes "/" ∷ hash_places ++ (named_alone ++ named_more)) =
      λ t h. inr (Among-append hash_places (named_alone ++ named_more) t h) in
    elim (Bool-cases (is_info_hash s)) [
      | inl e ↦
          subst (λ t. Among t (codes "/" ∷ hash_places ++ (named_alone ++ named_more)))
            (sym (if-true (is_info_hash s) hashed named e))
            (either hashed (inl (behind_hash-Among segs)))
      | inr e ↦
          subst (λ t. Among t (codes "/" ∷ hash_places ++ (named_alone ++ named_more)))
            (sym (if-false (is_info_hash s) hashed named e))
            (either named (inr (named-Among s segs)))
    ]

pub shape-IsShape : (method path : Text) → IsShape (shape method path)
unfolding shape
shape-IsShape method path = record {
  verb = verb_of method;
  path = place (segments [] (before b'?' path));
  verb_known = verb_of-Among method;
  path_known = place-Among (segments [] (before b'?' path));
  spelled = refl;
}
