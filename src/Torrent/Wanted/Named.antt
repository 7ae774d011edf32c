-- ===== src/Torrent/Wanted/Named.antt =====
-- pins.py, `_episode_matcher`: which episode a name of the form S1E5 reads as.
use stremio_libtorrent_serve.Prelude.{
  ℕ, ◌≡◌, refl, Bool, false, ◌&&◌, [], ◌∷◌, ◌++◌, nat_eq, All, arith, Bool-cases, inl, inr,
}
use stremio_libtorrent_serve.Prelude.Text.{Text, is_digit, is_empty, is_space, lower_code}
use stremio_libtorrent_serve.Prelude.Numerals.{
  decimal, IsDigit, decimal-All, value_of-decimal, decimal-nonempty,
}
use stremio_libtorrent_serve.Torrent.Wanted.Episode.{
  run_of, skip, number_is, mark_at, search_from, reads_as,
}

-- What begins with no digit.
abbrev pub Stops : Text → Type 0
Stops s = run_of is_digit s ≡ []

run_of-digits : (s t : Text) → All IsDigit s → Stops t → run_of is_digit (s ++ t) ≡ s
unfolding run_of
run_of-digits [] t h k = k
run_of-digits (c ∷ s) t h k = ground (arith, h.0, run_of-digits s t h.1 k)

skip-Stops : (t : Text) → Stops t → skip is_digit t ≡ t
unfolding skip run_of
skip-Stops [] k = refl
skip-Stops (c ∷ t) k = elim (Bool-cases (is_digit c)) [
  | inl e ↦ absurd (ground (arith, rw (e, run_of) at k))
  | inr e ↦ rw (e, skip) refl
]

skip-digits : (s t : Text) → All IsDigit s → Stops t → skip is_digit (s ++ t) ≡ t
unfolding skip
skip-digits [] t h k = skip-Stops t k
skip-digits (c ∷ s) t h k = ground (arith, h.0, skip-digits s t h.1 k)

number_is-decimal : (n k : ℕ) (t : Text) → Stops t → number_is k (decimal n ++ t) ≡ nat_eq n k
number_is-decimal n k t h =
    rw (run_of-digits (decimal n) t (decimal-All n) h)
      (ground (arith, decimal-nonempty n, value_of-decimal n))

-- What ends a number and begins no other mark.
abbrev IsEnd : ℕ → Type 0
IsEnd c =
    (is_digit c ≡ false)
    × (is_space c ≡ false)
    × (nat_eq (lower_code c) b's' ≡ false)
    × (nat_eq (lower_code c) b'x' ≡ false)

end-Stops : (c : ℕ) (t : Text) → IsEnd c → Stops (c ∷ t)
unfolding run_of
end-Stops c t h = ground (arith, h.0)

digit-letter : (c : ℕ) → IsDigit c → nat_eq (lower_code c) b's' ≡ false
digit-letter c h = ground (arith, h)

skip_space-end : (c : ℕ) (t : Text) → IsEnd c → skip is_space (c ∷ t) ≡ c ∷ t
unfolding skip
skip_space-end c t h = rw (h.1, skip) refl

mark_at-digits :
    (s e c : ℕ) (behind : Bool) (d : ℕ) (ds t : Text)
    → IsDigit d
    → All IsDigit ds
    → IsEnd c
    → mark_at s e behind (d ∷ ds ++ c ∷ t) ≡ false
unfolding mark_at
mark_at-digits s e c behind d ds t hd h k =
    rw (skip-digits (d ∷ ds) (c ∷ t) (hd, h) (end-Stops c t k), skip_space-end c t k)
      (ground (arith, digit-letter d hd, k.3))

mark_at-end : (s e c : ℕ) (behind : Bool) (t : Text) → IsEnd c → mark_at s e behind (c ∷ t) ≡ false
unfolding mark_at is_empty
mark_at-end s e c behind t k = rw (end-Stops c t k) (ground (arith, k.2))

-- Digits between two ends hold no mark.
search_from-digits :
    (s e c : ℕ) (behind : Bool) (ds t : Text)
    → All IsDigit ds
    → IsEnd c
    → search_from (mark_at s e) behind (ds ++ c ∷ t) ≡ search_from (mark_at s e) false t
unfolding search_from
search_from-digits s e c behind [] t h k = rw (mark_at-end s e c behind t k, k.0) refl
search_from-digits s e c behind (d ∷ ds) t h k =
    rw (mark_at-digits s e c behind d ds t h.0 h.1 k)
      (search_from-digits s e c (is_digit d) ds t h.1 k)

e-IsEnd : IsEnd b'E'
e-IsEnd = (refl, refl, refl, refl)

dot-IsEnd : IsEnd b'.'
dot-IsEnd = (refl, refl, refl, refl)

mark_at-name :
    (s e a b : ℕ) (t : Text)
    → mark_at s e false (b'S' ∷ (decimal a ++ b'E' ∷ (decimal b ++ b'.' ∷ t)))
      ≡ (nat_eq a s && nat_eq b e)
unfolding mark_at
mark_at-name s e a b t =
    let behind_a = b'E' ∷ (decimal b ++ b'.' ∷ t) in
    let end_a : Stops behind_a = end-Stops b'E' (decimal b ++ b'.' ∷ t) e-IsEnd in
    let end_b : Stops (b'.' ∷ t) = end-Stops b'.' t dot-IsEnd in
    rw
      (number_is-decimal a s behind_a end_a, skip-digits (decimal a) behind_a (decimal-All a) end_a)
      (rw (number_is-decimal b e (b'.' ∷ t) end_b) (ground arith))

-- A name S<a>E<b>, a dot and a rest that reads as no episode reads as episode `e` of season `s` exactly
-- where `a` is `s` and `b` is `e`: S01E1 is not read in S01E10.
pub reads_as-name :
    (s e a b : ℕ) (t : Text)
    → reads_as s e t ≡ false
    → reads_as s e (b'S' ∷ (decimal a ++ b'E' ∷ (decimal b ++ b'.' ∷ t)))
      ≡ (nat_eq a s && nat_eq b e)
unfolding reads_as search_from
reads_as-name s e a b t h =
    rw
      (
        mark_at-name s e a b t,
        search_from-digits s e b'E' false (decimal a) (decimal b ++ b'.' ∷ t) (decimal-All a)
            e-IsEnd,
        search_from-digits s e b'.' false (decimal b) t (decimal-All b) dot-IsEnd,
        h,
      )
      (ground arith)
