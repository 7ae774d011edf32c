-- ===== src/Transcode/Master.antt =====
-- transcode/converter.py, `audio_master`: the master playlist of an encode with several audio tracks.
-- `str.isprintable` of one character is the argument `is_printable`; a character that it refuses becomes a
-- space, so that the spaces are what `str.split` splits at.
pub mod Renditions
use stremio_libtorrent_serve.Prelude.{
  ℕ, zero, suc, ◌+◌, Bool, true, false, not, ◌&&◌, ◌||◌, Option, none, some, List, [], ◌∷◌, ◌++◌,
  ltb, leb, nat_eq, map, keep, if◌then◌else◌, length,
}
use stremio_libtorrent_serve.Prelude.Text.{Text, Text_eq, codes, is_empty, is_digit}
use stremio_libtorrent_serve.Prelude.Numerals.{decimal, all_codes}
use stremio_libtorrent_serve.Prelude.Names.{split_on, replace_code}
use stremio_libtorrent_serve.Prelude.Dict.{Dict, get, put}

pub record Track : Type 0 where
  pub title : Text
  pub lang : Text
  pub is_default : Bool

abbrev pub is_tag_code : ℕ → Bool
is_tag_code c =
    is_digit c || ((leb b'a' c && leb c b'z') || ((leb b'A' c && leb c b'Z') || nat_eq c b'-'))

-- `_LANGUAGE_TAG.fullmatch`
unfoldable pub is_language_tag : Text → Bool
unfolding all_codes is_empty
is_language_tag lang = not (is_empty lang) && (leb (length lang) 35 && all_codes is_tag_code lang)

-- `" ".join(words)`
unfoldable pub join_words : List Text → Text
join_words [] = []
join_words (w ∷ []) = w
join_words (w ∷ v ∷ words) = w ++ (b' ' ∷ join_words (v ∷ words))

abbrev pub or_text : Text → Text → Text
or_text [] t = t
or_text (c ∷ s) t = c ∷ s

unfoldable pub default_from : ℕ → List Track → Option ℕ
default_from n [] = none
default_from n (t ∷ tracks) =
    let rest = default_from (suc n) tracks in if t.is_default then some n else rest

-- the position of the default track
unfoldable pub default_track : List Track → ℕ
unfolding default_from
default_track tracks = elim (default_from 0 tracks) [ none ↦ 0 | some n ↦ n ]

-- A line for a track.
pub record Rendition : Type 0 where
  pub name : Text
  pub language : Option Text
  pub chosen : Bool
  pub number : ℕ

abbrev pub count_in : Text → Dict Text ℕ → ℕ
count_in name seen = elim (get name seen) [ none ↦ 1 | some k ↦ k + 1 ]

abbrev pub numbered : Text → ℕ → Text
numbered name k = if ltb 1 k then name ++ (codes " (" ++ (decimal k ++ codes ")")) else name

abbrev pub language_of : Text → Option Text
language_of lang = if is_language_tag lang then some lang else none

module _ (is_printable : ℕ → Bool) where
  abbrev pub safe_code : ℕ → ℕ
  safe_code c = if is_printable c then c else b' '

  -- `_quoted_text`
  unfoldable pub quoted_text : Text → Text
  unfolding split_on is_empty join_words
  quoted_text text =
      join_words (
        keep (λ w. not (is_empty w))
          (split_on b' ' (map safe_code (map (replace_code 34 39) text))))

  abbrev pub track_name : ℕ → Track → Text
  track_name n t =
      or_text (quoted_text t.title)
        (or_text (quoted_text t.lang) (codes "Audio " ++ decimal (n + 1)))

  -- the loop over the tracks
  unfoldable pub renditions_from : ℕ → ℕ → Dict Text ℕ → List Track → List Rendition
  unfolding quoted_text get put is_language_tag
  renditions_from default n seen [] = []
  renditions_from default n seen (t ∷ tracks) =
      let name = track_name n t in
      let k = count_in name seen in
      record {
        name = numbered name k;
        language = language_of t.lang;
        chosen = nat_eq n default;
        number = n;
      }
      ∷ renditions_from default (suc n) (put name k seen) tracks

  unfoldable pub renditions : List Track → List Rendition
  unfolding renditions_from default_track
  renditions tracks = renditions_from (default_track tracks) 0 [] tracks

abbrev pub language_part : Option Text → Text
language_part none = []
language_part (some lang) = codes ",LANGUAGE=" ++ (34 ∷ (lang ++ (34 ∷ [])))

abbrev pub yes_or_no : Bool → Text
yes_or_no b = if b then codes "YES" else codes "NO"

abbrev pub quoted : Text → Text
quoted t = 34 ∷ (t ++ (34 ∷ []))

-- `#EXT-X-MEDIA` of a rendition
abbrev pub rendition_line : Rendition → Text
rendition_line r =
    codes "#EXT-X-MEDIA:TYPE=AUDIO,GROUP-ID="
    ++ (quoted (codes "audio")
        ++ (codes ",NAME="
            ++ (quoted r.name
                ++ (language_part r.language
                    ++ (codes ",AUTOSELECT=YES,DEFAULT="
                        ++ (yes_or_no r.chosen
                            ++ (codes ",URI="
                                ++ quoted
                                    (codes "audio" ++ (decimal r.number ++ codes ".m3u8")))))))))

-- lines with a line break behind each
unfoldable pub lines_text : List Text → Text
lines_text [] = []
lines_text (l ∷ lines) = l ++ (10 ∷ lines_text lines)

-- `audio_master`
unfoldable pub audio_master : (ℕ → Bool) → List Track → Text
unfolding renditions lines_text
audio_master is_printable tracks = lines_text (
    codes "#EXTM3U"
    ∷ codes "#EXT-X-VERSION:7"
    ∷ codes "#EXT-X-INDEPENDENT-SEGMENTS"
    ∷ (map rendition_line (renditions is_printable tracks)
        ++ (codes "#EXT-X-STREAM-INF:BANDWIDTH=164000,AUDIO=" ++ quoted (codes "audio"))
          ∷ codes "video0.m3u8"
          ∷ []))
