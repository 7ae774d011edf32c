-- ===== src/Prelude/Dict/Unique.antt =====
-- Dictionaries that hold no key twice, as every one does that is built by writes and deletions.
use Prim.Native.Nat.{◌+◌}
use mathlib.Core.Path.{◌≡◌, refl, subst}
use mathlib.Core.Logic.{inl, inr}
use mathlib.Core.Bool.{Bool, true, false, ◌||◌}
use mathlib.Core.List.{[], ◌∷◌}
use mathlib.Core.Option.{Option, none, some}
use native.Mathlib.Omega.{arith}
use stremio_libtorrent_serve.Prelude.Tests.{Keyed, ◌==◌, if◌then◌else◌, Bool-cases}
use stremio_libtorrent_serve.Prelude.Lists.{keep, length}
use stremio_libtorrent_serve.Prelude.Dict.{Dict, get, put, remove}

abbrev pub keep_value {κ} : {V : Type κ} → (V → Bool) → Option V → Option V
keep_value p none = none
keep_value p (some v) = if p v then some v else none

module _ {ℓ κ} {K : Type ℓ} {V : Type κ} ⦃e : Keyed K⦄ where
  -- `k in d`
  unfoldable pub has : K → Dict K V → Bool
  has k [] = false
  has k ((j, v) ∷ m) = j == k || has k m

  abbrev pub IsUnique : Dict K V → Type 0
  IsUnique [] = Unit
  IsUnique ((k, v) ∷ m) = (has k m ≡ false) × IsUnique m

  pub get-none : (k : K) (m : Dict K V) → has k m ≡ false → get k m ≡ none
  unfolding has get
  get-none k [] h = refl
  get-none k ((j, v) ∷ m) h = ground (arith, get-none k m)

  pub has_of_get : (k : K) (m : Dict K V) (v : V) → get k m ≡ some v → has k m ≡ true
  unfolding has get
  has_of_get k [] v h = cc h
  has_of_get k ((j, w) ∷ m) v h = ground (arith, has_of_get k m v)

  pub has-put : (k j : K) (v : V) (m : Dict K V) → has j (put k v m) ≡ (k == j || has j m)
  unfolding has put
  has-put k j v [] = refl
  has-put k j v ((i, w) ∷ m) =
      ground (arith, e.decides k j, e.decides i k, e.decides i j, has-put k j v m)

  has-keep-false :
      (p : K × V → Bool) (k : K) (m : Dict K V) → has k m ≡ false → has k (keep p m) ≡ false
  unfolding has keep
  has-keep-false p k [] h = refl
  has-keep-false p k ((j, v) ∷ m) h = elim (Bool-cases (p (j, v))) [
    | inl t ↦ rw (t, keep) (ground (arith, has-keep-false p k m))
    | inr t ↦ rw (t, keep) (ground (arith, has-keep-false p k m))
  ]

  pub keep-IsUnique : (p : K × V → Bool) (m : Dict K V) → IsUnique m → IsUnique (keep p m)
  unfolding keep
  keep-IsUnique p [] h = tt
  keep-IsUnique p ((k, v) ∷ m) h = elim (Bool-cases (p (k, v))) [
    | inl t ↦ rw (t, keep) (has-keep-false p k m h.0, keep-IsUnique p m h.1)
    | inr t ↦ rw (t, keep) (keep-IsUnique p m h.1)
  ]

  -- What a key has after a comprehension that tests the values.
  pub get-keep :
      (p : V → Bool) (k : K) (m : Dict K V)
      → IsUnique m
      → get k (keep (λ (j, v). p v) m) ≡ keep_value p (get k m)
  unfolding get keep
  get-keep p k [] h = refl
  get-keep p k ((j, v) ∷ m) h = elim (Bool-cases (j == k)) [
    | inl same ↦
        let here : j ≡ k = (e.decides j k).0 same in
        let fresh : has k m ≡ false = subst (λ x. has x m ≡ false) here h.0 in
        let gone : get k (keep (λ (i, w). p w) m) ≡ none =
          get-none k (keep (λ (i, w). p w) m) (has-keep-false (λ (i, w). p w) k m fresh) in
        elim (Bool-cases (p v)) [
          | inl t ↦ rw (t, keep, same, get) (rw t refl)
          | inr t ↦ rw (t, keep, same, get) (rw t gone)
        ]
    | inr other ↦ elim (Bool-cases (p v)) [
      | inl t ↦ rw (t, keep, other, get) (get-keep p k m h.1)
      | inr t ↦ rw (t, keep, other, get) (get-keep p k m h.1)
    ]
  ]

  pub put-IsUnique : (k : K) (v : V) (m : Dict K V) → IsUnique m → IsUnique (put k v m)
  unfolding has put
  put-IsUnique k v [] h = (refl, tt)
  put-IsUnique k v ((j, w) ∷ m) h = elim (Bool-cases (j == k)) [
    | inl same ↦ rw (same, put) h
    | inr other ↦
        rw (other, put)
          (ground (arith, has-put k j v m, e.decides k j, e.decides j k), put-IsUnique k v m h.1)
  ]

  has-remove-false : (k j : K) (m : Dict K V) → has j m ≡ false → has j (remove k m) ≡ false
  unfolding has remove
  has-remove-false k j [] h = refl
  has-remove-false k j ((i, w) ∷ m) h = ground (arith, has-remove-false k j m)

  pub remove-IsUnique : (k : K) (m : Dict K V) → IsUnique m → IsUnique (remove k m)
  unfolding has remove
  remove-IsUnique k [] h = tt
  remove-IsUnique k ((j, w) ∷ m) h = elim (Bool-cases (j == k)) [
    | inl same ↦ rw (same, remove) (remove-IsUnique k m h.1)
    | inr other ↦ rw (other, remove) (has-remove-false k j m h.0, remove-IsUnique k m h.1)
  ]

  pub length-put :
      (k : K) (v : V) (m : Dict K V)
      → length (put k v m) ≡ (if has k m then length m else length m + 1)
  unfolding has put
  length-put k v [] = refl
  length-put k v ((j, w) ∷ m) = ground (arith, length-put k v m)
