-- ===== src/Torrent/Wanted/Episode.antt =====
-- pins.py, `_episode_matcher` and `names_episode`: whether a file's name reads as an episode, as S01E05
-- or as 1x05. Letters, digits and spaces are the ASCII ones.
use stremio_libtorrent_serve.Prelude.{
  ℕ, Bool, false, not, ◌&&◌, ◌||◌, [], ◌∷◌, nat_eq, if◌then◌else◌,
}
use stremio_libtorrent_serve.Prelude.Text.{Text, is_digit, is_space, lower_code, is_empty}
use stremio_libtorrent_serve.Prelude.Numerals.{value_of}
use stremio_libtorrent_serve.Prelude.Names.{base_name}

-- what a text begins with, of a class of characters, and what follows
unfoldable pub run_of : (ℕ → Bool) → Text → Text
run_of p [] = []
run_of p (c ∷ s) = let rest = run_of p s in if p c then c ∷ rest else []

unfoldable pub skip : (ℕ → Bool) → Text → Text
skip p [] = []
skip p (c ∷ s) = let rest = skip p s in if p c then rest else c ∷ s

-- `0*{n}` and no digit behind it
abbrev pub number_is : ℕ → Text → Bool
number_is n s =
    let digits = run_of is_digit s in not (is_empty digits) && nat_eq (value_of 0 digits) n

-- a letter in either case, and what may follow it
abbrev pub letter_then : ℕ → (Text → Bool) → Text → Bool
letter_then c p [] = false
letter_then c p (d ∷ s) = nat_eq (lower_code d) c && p s

abbrev pub is_break : ℕ → Bool
is_break c = is_space c || (nat_eq c b'.' || (nat_eq c b'_' || nat_eq c b'-'))

-- `s0*{s}[\s._-]*e0*{e}(?!\d)`
abbrev pub season_mark : ℕ → ℕ → Text → Bool
season_mark s e t =
    letter_then b's'
      (λ u. number_is s u && letter_then b'e' (number_is e) (skip is_break (skip is_digit u))) t

-- `(?<!\d)0*{s}\s*x\s*0*{e}(?!\d)`, with whether a digit stands in front
abbrev pub cross_mark : ℕ → ℕ → Bool → Text → Bool
cross_mark s e behind_digit t =
    not behind_digit
    && (number_is s t
        && letter_then b'x' (λ u. number_is e (skip is_space u)) (skip is_space (skip is_digit t)))

-- `re.search`: a match at some place, with whether a digit stands in front of it
unfoldable pub search_from : (Bool → Text → Bool) → Bool → Text → Bool
search_from p behind_digit [] = p behind_digit []
search_from p behind_digit (c ∷ s) = p behind_digit (c ∷ s) || search_from p (is_digit c) s

unfoldable pub mark_at : ℕ → ℕ → Bool → Text → Bool
unfolding run_of skip value_of is_empty
mark_at s e behind_digit t = season_mark s e t || cross_mark s e behind_digit t

unfoldable pub reads_as : ℕ → ℕ → Text → Bool
unfolding search_from mark_at
reads_as s e name = search_from (mark_at s e) false name

-- `names_episode`
unfoldable pub names_episode : Text → ℕ → ℕ → Bool
unfolding reads_as base_name
names_episode path season episode = reads_as season episode (base_name path)
