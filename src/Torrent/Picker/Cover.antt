-- ===== src/Torrent/Picker/Cover.antt =====
-- The pieces of a byte range, and the plan around the playhead.
use stremio_libtorrent_serve.Prelude.{
  ℕ, zero, suc, ◌+◌, ◌-◌, ◌*◌, ◌/◌, ◌≤◌, ◌<◌, ◌≡◌, ◌↔◌, refl, true, ◌&&◌, none, some, List, [], ◌∷◌,
  min, max, map, arith, leb, ltb, range_from, contains, ℕ_eq, if◌then◌else◌,
}
use stremio_libtorrent_serve.Prelude.Dict.{Dict, get, put, get-put}
use stremio_libtorrent_serve.Torrent.Picker.{pieces_for_range, put_all, priority_plan}

pub contains-range_from : (i n p : ℕ) → contains (range_from i n) p ≡ (leb i p && ltb p (i + n))
unfolding contains
contains-range_from i zero p = ground arith
contains-range_from i (suc n) p = ground (arith, contains-range_from (suc i) n p)

div_mono : (a b k : ℕ) → a ≤ b → a / k ≤ b / k
div_mono a b k h = grind arith

module _ (start end piece_length : ℕ) (positive : 0 < piece_length) where
  covers_from :
      (p : ℕ)
      → contains (pieces_for_range start end piece_length) p ≡ true
      → (start / piece_length ≤ p) × (p ≤ end / piece_length)
  unfolding pieces_for_range
  covers_from p h = let (a, b) = split (rw contains-range_from at h) in (a, b)
    where
      split :
          (leb (start / piece_length) p
              && ltb p (start / piece_length + (end / piece_length + 1 - start / piece_length)))
            ≡ true
          → (start / piece_length ≤ p) × (p ≤ end / piece_length)
      split e = ground arith

  div_down : (p : ℕ) → p ≤ end / piece_length → p * piece_length ≤ end
  div_down p h = grind arith

  div_up : (p : ℕ) → start / piece_length ≤ p → start < (p + 1) * piece_length
  div_up p h = grind arith

  in_piece : (b p : ℕ) → p * piece_length ≤ b → b < (p + 1) * piece_length → b / piece_length ≡ p
  in_piece b p h k = grind arith

  in_range :
      (p : ℕ)
      → start / piece_length ≤ p
      → p ≤ end / piece_length
      → contains (pieces_for_range start end piece_length) p ≡ true
  unfolding pieces_for_range
  in_range p h k = rw contains-range_from (ground arith)

  -- With pieces of positive length, a piece is among those of a byte range that is not empty exactly
  -- when some byte of the range lies in it.
  pub pieces_for_range-cover :
      (p : ℕ)
      → start ≤ end
      → (contains (pieces_for_range start end piece_length) p ≡ true)
        ↔ ((b : ℕ) × (start ≤ b) × (b ≤ end) × (b / piece_length ≡ p))
  pieces_for_range-cover p h = (
    λ c.
        let (a, b) = covers_from p c in
        let down = div_down p b in
        let up = div_up p a in
        (
          max start (p * piece_length),
          omega arith,
          omega arith,
          in_piece (max start (p * piece_length)) p (omega arith) (grind arith),
        ),
    λ (b, from, to, e).
        in_range p (rw (← e) (div_mono start b piece_length from))
          (rw (← e) (div_mono b end piece_length to)),
  )

get-put_all :
    (pieces : List ℕ) (prio p : ℕ) (plan : Dict ℕ ℕ)
    → get p (put_all pieces prio plan) ≡ (if contains pieces p then some prio else get p plan)
unfolding put_all contains
get-put_all [] prio p plan = refl
get-put_all (q ∷ pieces) prio p plan =
    ground (arith, get-put_all pieces prio p (put q prio plan), get-put q p prio plan)

get-baseline :
    (i n p : ℕ)
    → get {V = ℕ} p (map (λ q. (q, 1)) (range_from i n))
      ≡ (if leb i p && ltb p (i + n) then some 1 else none)
unfolding get
get-baseline i zero p = ground arith
get-baseline i (suc n) p = ground (arith, get-baseline (suc i) n p)

-- Every piece of the torrent gets a priority, and no other: 7 for the playhead's piece and the
-- read-ahead after it, 1 for all others.
pub get-priority_plan :
    (active_piece readahead total_pieces p : ℕ)
    → get p (priority_plan active_piece readahead total_pieces) ≡ (
        if ltb p total_pieces
        then (if leb active_piece p && leb p (active_piece + readahead) then some 7 else some 1)
        else none)
unfolding priority_plan
get-priority_plan active_piece readahead total_pieces p =
    let n = min (active_piece + readahead + 1) total_pieces - active_piece in
    rw (get-put_all (range_from active_piece n) 7 p _)
      (rw (contains-range_from active_piece n p, get-baseline 0 total_pieces p) (ground arith))
