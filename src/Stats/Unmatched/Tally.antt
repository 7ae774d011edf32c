-- ===== src/Stats/Unmatched/Tally.antt =====
-- The tally is bounded, complete, and says nothing of what a request named.
use stremio_libtorrent_serve.Prelude.{
  ℕ, ◌+◌, ◌≤◌, ◌<◌, ◌≡◌, ◌⊎◌, inl, inr, refl, subst, ap, ◌∙◌, true, false, not, ◌&&◌, List, [], ◌∷◌,
  arith, leb, ◌==◌, length, All, Bool-cases,
}
use stremio_libtorrent_serve.Prelude.Text.{Text, Text_eq, text_eq}
use stremio_libtorrent_serve.Prelude.Dict.{Dict, get, put}
use stremio_libtorrent_serve.Prelude.Dict.Unique.{has, length-put, has-put}
use stremio_libtorrent_serve.Stats.Unmatched.{
  max_shapes, shape, other_key, count_of, key_of, record_miss,
}
use stremio_libtorrent_serve.Stats.Unmatched.Shapes.{IsShape, shape-IsShape}

unfoldable pub sum : Dict Text ℕ → ℕ
sum [] = 0
sum ((k, n) ∷ counts) = n + sum counts

-- The counts after these requests, each with its method and its path.
unfoldable pub count_all : List (Text × Text) → Dict Text ℕ → Dict Text ℕ
count_all [] counts = counts
count_all ((method, path) ∷ requests) counts = count_all requests (record_miss method path counts).0

abbrev pub IsKey : Text × ℕ → Type 0
IsKey (k, n) = (k ≡ other_key) ⊎ IsShape k

pub record IsTallied (n : ℕ) (counts : Dict Text ℕ) : Type 0 where
  pub bounded : length counts ≤ max_shapes + 1
  pub all : sum counts ≡ n
  pub keys : All IsKey counts
  -- past the bound only the common key is new
  pub last : max_shapes < length counts → has other_key counts ≡ true

sum-put :
    (k : Text) (counts : Dict Text ℕ)
    → sum (put k (count_of (get k counts) + 1) counts) ≡ sum counts + 1
unfolding sum get put
sum-put k [] = refl
sum-put k ((j, n) ∷ counts) = ground (arith, sum-put k counts)

put-keys :
    (k : Text) (n : ℕ) (counts : Dict Text ℕ)
    → IsKey (k, n)
    → All IsKey counts
    → All IsKey (put k n counts)
unfolding put
put-keys k n [] h all = (h, tt)
put-keys k n ((j, m) ∷ counts) h all = elim (Bool-cases (j == k)) [
  | inl e ↦ rw (e, put) (all.0, all.1)
  | inr e ↦ rw (e, put) (all.0, put-keys k n counts h all.1)
]

key_of-IsKey :
    (counts : Dict Text ℕ) (method path : Text) (n : ℕ)
    → IsKey (key_of counts (shape method path), n)
unfolding key_of
key_of-IsKey counts method path n =
    elim (Bool-cases (not (has (shape method path) counts) && leb max_shapes (length counts))) [
      | inl e ↦ rw e (inl refl)
      | inr e ↦ rw e (inr (shape-IsShape method path))
    ]

-- where a count goes past the bound
key_of-bounded :
    (counts : Dict Text ℕ) (key : Text)
    → max_shapes ≤ length counts
    → has (key_of counts key) counts ≡ false
    → key_of counts key ≡ other_key
unfolding key_of
key_of-bounded counts key full fresh = ground arith

put-last :
    (k : Text) (n : ℕ) (counts : Dict Text ℕ)
    → (max_shapes < length counts → has other_key counts ≡ true)
    → (max_shapes ≤ length counts → has k counts ≡ false → k ≡ other_key)
    → max_shapes < length (put k n counts)
    → has other_key (put k n counts) ≡ true
unfolding text_eq
put-last k n counts old fresh past = elim (Bool-cases (has k counts)) [
  | inl e ↦
      let same : length (put k n counts) ≡ length counts =
        let h = length-put k n counts in rw e at h in
      let known = old (omega (arith, same, past)) in rw has-put (ground (arith, known))
  | inr e ↦
      let grown : length (put k n counts) ≡ length counts + 1 =
        let h = length-put k n counts in rw e at h in
      let same = fresh (omega (arith, grown, past)) e in rw (has-put, same) refl
]

record_miss-IsTallied :
    (method path : Text) (n : ℕ) (counts : Dict Text ℕ)
    → IsTallied n counts
    → IsTallied (n + 1) (record_miss method path counts).0
unfolding record_miss
record_miss-IsTallied method path n counts t =
    let key = key_of counts (shape method path) in
    let value = count_of (get key counts) + 1 in
    record {
      bounded = ground (
        arith,
        length-put key value counts,
        key_of-bounded counts (shape method path),
        t.last,
        t.bounded,
      );
      all = sum-put key counts ∙ ap (λ m. m + 1) t.all;
      keys = put-keys key value counts (key_of-IsKey counts method path value) t.keys;
      last = put-last key value counts t.last (key_of-bounded counts (shape method path));
    }

count_from-IsTallied :
    (requests : List (Text × Text)) (n : ℕ) (counts : Dict Text ℕ)
    → IsTallied n counts
    → IsTallied (n + length requests) (count_all requests counts)
unfolding count_all
count_from-IsTallied [] n counts t = subst (λ m. IsTallied m counts) (omega arith) t
count_from-IsTallied ((method, path) ∷ requests) n counts t =
    subst (λ m. IsTallied m (count_all requests (record_miss method path counts).0)) (omega arith)
      (count_from-IsTallied requests (n + 1) (record_miss method path counts).0
        (record_miss-IsTallied method path n counts t))

-- Whatever requests are counted, from the start: there are at most 65 keys, the counts add up to the
-- number of the requests, and each key is `other` or a method or `OTHER` with one of the fixed paths,
-- none of which quotes what the request named.
pub count_all-IsTallied :
    (requests : List (Text × Text)) → IsTallied (length requests) (count_all requests [])
unfolding sum
count_all-IsTallied requests =
    subst (λ n. IsTallied n (count_all requests [])) (omega arith)
      (count_from-IsTallied requests 0 [] (record {
        bounded = omega arith;
        all = refl;
        keys = tt;
        last = λ past. absurd (omega (arith, past));
      }))
