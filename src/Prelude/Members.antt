-- ===== src/Prelude/Members.antt =====
-- Membership in a list, and what the operations on lists keep of it.
use mathlib.Core.Path.{◌≡◌, refl, sym, subst}
use mathlib.Core.Logic.{◌⊎◌, inl, inr}
use mathlib.Core.Bool.{Bool, true}
use mathlib.Core.List.{List, [], ◌∷◌, ◌++◌, map}
use mathlib.Core.Option.{Option, none, some}
use stremio_libtorrent_serve.Prelude.Tests.{Bool-cases, Option-cases, if◌then◌else◌}
use stremio_libtorrent_serve.Prelude.Lists.{All, All-weaken, keep, collect}

module _ {A : Type 0} where
  abbrev pub In : A → List A → Type 0
  In x [] = ⊥
  In x (y ∷ ys) = (x ≡ y) ⊎ In x ys

  -- the first element that passes a test
  unfoldable pub first : (A → Bool) → List A → Option A
  first p [] = none
  first p (x ∷ xs) = let rest = first p xs in if p x then some x else rest

  pub All-In {κ} : (P : A → Type κ) (x : A) (xs : List A) → All P xs → In x xs → P x
  All-In P x [] h m = absurd m
  All-In P x (y ∷ ys) h (inl e) = subst P (sym e) h.0
  All-In P x (y ∷ ys) h (inr m) = All-In P x ys h.1 m

  -- Every element of a list is in it.
  pub All-itself : (xs : List A) → All (λ x. In x xs) xs
  All-itself [] = tt
  All-itself (x ∷ xs) = (inl refl, All-weaken _ _ xs (λ y i. inr i) (All-itself xs))

  pub In-append_left : (x : A) (xs ys : List A) → In x xs → In x (xs ++ ys)
  In-append_left x [] ys m = absurd m
  In-append_left x (y ∷ xs) ys (inl e) = inl e
  In-append_left x (y ∷ xs) ys (inr m) = inr (In-append_left x xs ys m)

  pub In-append : (x : A) (xs ys : List A) → In x (xs ++ ys) → In x xs ⊎ In x ys
  In-append x [] ys m = inr m
  In-append x (y ∷ xs) ys (inl e) = inl (inl e)
  In-append x (y ∷ xs) ys (inr m) = elim (In-append x xs ys m) [
    | inl i ↦ inl (inr i)
    | inr i ↦ inr i
  ]

  -- What is kept was there and passes the test.
  pub In-keep : (p : A → Bool) (x : A) (xs : List A) → In x (keep p xs) → In x xs × (p x ≡ true)
  unfolding keep
  In-keep p x [] m = absurd m
  In-keep p x (y ∷ xs) m = elim (Bool-cases (p y)) [
    | inl e ↦ elim (rw (e, keep) at m) [
      | inl same ↦ (inl same, subst (λ z. p z ≡ true) (sym same) e)
      | inr m' ↦ let (i, h) = In-keep p x xs m' in (inr i, h)
    ]
    | inr e ↦ let (i, h) = In-keep p x xs (rw (e, keep) at m) in (inr i, h)
  ]

  pub In-first : (p : A → Bool) (x : A) (xs : List A) → first p xs ≡ some x → In x xs × (p x ≡ true)
  unfolding first
  In-first p x [] e = absurd (cc e)
  In-first p x (y ∷ xs) e = elim (Bool-cases (p y)) [
    | inl h ↦
        let e' : some y ≡ some x = rw (h, first) at e in
        let same : y ≡ x = cc e' in (inl (sym same), subst (λ z. p z ≡ true) same h)
    | inr h ↦ let (i, q) = In-first p x xs (rw (h, first) at e) in (inr i, q)
  ]

module _ {A B : Type 0} where
  pub collect-In :
      (f : A → Option B) (x : A) (y : B) (xs : List A)
      → In x xs
      → f x ≡ some y
      → In y (collect f xs)
  unfolding collect
  collect-In f x y [] m e = absurd m
  collect-In f x y (z ∷ xs) (inl same) e = rw (← same, e, collect) (inl refl)
  collect-In f x y (z ∷ xs) (inr m) e = elim (Option-cases (f z)) [
    | inl q ↦ rw (q, collect) (collect-In f x y xs m e)
    | inr (w, q) ↦ rw (q, collect) (inr (collect-In f x y xs m e))
  ]

  pub In-map : (f : A → B) (y : B) (xs : List A) → In y (map f xs) → (x : A) × In x xs × (y ≡ f x)
  In-map f y [] m = absurd m
  In-map f y (x ∷ xs) (inl e) = (x, inl refl, e)
  In-map f y (x ∷ xs) (inr m) = let (z, i, e) = In-map f y xs m in (z, inr i, e)

  pub In-collect :
      (f : A → Option B) (y : B) (xs : List A)
      → In y (collect f xs)
      → (x : A) × In x xs × (f x ≡ some y)
  unfolding collect
  In-collect f y [] m = absurd m
  In-collect f y (x ∷ xs) m = elim (Option-cases (f x)) [
    | inl e ↦ let (z, i, h) = In-collect f y xs (rw (e, collect) at m) in (z, inr i, h)
    | inr (w, e) ↦ elim (rw (e, collect) at m) [
      | inl same ↦ (x, inl refl, subst (λ v. f x ≡ some v) (sym same) e)
      | inr m' ↦ let (z, i, h) = In-collect f y xs m' in (z, inr i, h)
    ]
  ]
