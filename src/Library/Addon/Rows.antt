-- ===== src/Library/Addon/Rows.antt =====
-- library/addon_model.py: the lines under a title and the rows of a stream list (`describe`,
-- `describe_file`, `display_name`, `stream_for`). `of_progress` and `of_bytes` are what Python's `round`
-- gives of a hundred times a fraction and of a hundred times a quotient; a size is below 2 ^ 53.
use stremio_libtorrent_serve.Prelude.{
  ℕ, ◌+◌, ◌*◌, ◌/◌, ◌%◌, Bool, false, not, ◌&&◌, ◌||◌, Option, none, some, List, [], ◌∷◌, ◌++◌, ltb,
  nat_eq, min, if◌then◌else◌, ◌==◌,
}
use stremio_libtorrent_serve.Prelude.Text.{Text, Text_eq, is_empty, lower, codes}
use stremio_libtorrent_serve.Prelude.Numerals.{decimal}
use stremio_libtorrent_serve.Prelude.Members.{first}
use stremio_libtorrent_serve.Library.Addon.{
  MediaFile, Entry, Label, is_complete, base_part, offerable_files,
}
use stremio_libtorrent_serve.Library.Addon.Choice.{playable_index, same_number}
use stremio_libtorrent_serve.Library.Addon.Ids.{id_prefix}

-- a quotient rounded to the nearest number, a half to the even one
abbrev pub round_even : ℕ → ℕ → ℕ
round_even a b =
    let q = a / b in
    let r = 2 * (a % b) in if ltb b r || (nat_eq r b && nat_eq (q % 2) 1) then q + 1 else q

abbrev pub two_digits : ℕ → Text
two_digits n = (b'0' + n / 10) ∷ (b'0' + n % 10) ∷ []

-- `human_size`
unfoldable pub human_size : ℕ → Text
human_size n =
    let hundredths = round_even (n * 100) 1073741824 in
    decimal (hundredths / 100) ++ (b'.' ∷ (two_digits (hundredths % 100) ++ codes " GB"))

-- `" · ".join(bits)`
unfoldable pub join_bits : List Text → Text
join_bits [] = []
join_bits (b ∷ []) = b
join_bits (b ∷ c ∷ bits) = b ++ (codes " · " ++ join_bits (c ∷ bits))

abbrev pub state_word : Text → Text
state_word state =
    if state == codes "downloading"
    then codes "downloading"
    else if state == codes "seeding"
    then codes "seeding"
    else codes "on disk"

abbrev pub bit_if : Bool → Text → List Text
bit_if b t = if b then t ∷ [] else []

-- `_state_bits`
unfoldable pub state_bits : Entry → List Text
state_bits e =
    state_word e.state
    ∷ (bit_if e.pinned (codes "kept")
        ++ bit_if (not (nat_eq e.seeds 0)) (decimal e.seeds ++ codes " seeders"))

-- `describe`
unfoldable pub describe : Entry → Text
unfolding human_size join_bits state_bits
describe e = join_bits (human_size e.size ∷ state_bits e)

-- `a or b`
abbrev pub text_or : Text → Text → Text
text_or [] t = t
text_or (c ∷ s) t = c ∷ s

abbrev pub label_name : Option Label → Text
label_name none = []
label_name (some label) = label.name

abbrev pub shown_name : Entry → Text
shown_name e = text_or (label_name e.label) e.name

abbrev pub label_meta : Option Label → Text
label_meta none = []
label_meta (some label) = label.meta_id

-- `_binge_group`
unfoldable pub binge_group : Entry → Text
unfolding lower
binge_group e = id_prefix ++ text_or (label_meta e.label) (lower e.info_hash)

abbrev pub lone_listed : ℕ → List MediaFile → Option MediaFile
lone_listed idx (f ∷ []) = if nat_eq idx 0 then some f else none
lone_listed idx files = none

abbrev pub or_lone : Option MediaFile → Option MediaFile → Option MediaFile
or_lone none f = f
or_lone (some g) f = some g

-- `_file_at`
unfoldable pub file_for_row : Entry → ℕ → Option MediaFile
unfolding offerable_files first
file_for_row e idx =
    or_lone (first (λ f. same_number f.index (some idx)) (offerable_files e))
      (lone_listed idx e.files)

pub record Stream : Type 0 where
  pub url : Text
  pub title : Text
  pub group : Text

-- `display_name`
unfoldable pub display_name : (ℕ → ℕ) → Entry → Text
display_name of_progress e =
    if e.state == codes "downloading"
    then shown_name e ++ (codes " · " ++ (decimal (of_progress e.progress) ++ codes "%"))
    else shown_name e

module _ (of_bytes : ℕ → ℕ → ℕ) where
  abbrev pub file_size : MediaFile → ℕ
  file_size f = if nat_eq f.size 0 then f.downloaded else f.size

  abbrev pub share_here : MediaFile → ℕ
  share_here f = if nat_eq (file_size f) 0 then 0 else min 99 (of_bytes f.downloaded (file_size f))

  -- `describe_file`
  unfoldable pub describe_file : Entry → MediaFile → Text
  unfolding human_size join_bits state_bits is_complete
  describe_file e f =
      if is_complete f
      then join_bits (human_size (file_size f) ∷ state_bits e)
      else join_bits (
          human_size (file_size f)
          ∷ codes "streaming from peers"
          ∷ bit_if (not (nat_eq (share_here f) 0)) (decimal (share_here f) ++ codes "% downloaded"))

  abbrev pub row_title : Entry → Bool → Option MediaFile → Text
  row_title e own_page none = describe e
  row_title e own_page (some f) =
      let name = base_part f.name in
      if not (is_empty name) && not (own_page && name == base_part (shown_name e))
      then name ++ (10 ∷ describe_file e f)
      else describe_file e f

  -- `stream_for` of an index
  unfoldable pub stream_at : Entry → Text → ℕ → Bool → Stream
  unfolding describe describe_file file_for_row base_part is_empty binge_group lower
  stream_at e origin idx own_page = record {
    url = origin ++ (b'/' ∷ (lower e.info_hash ++ (b'/' ∷ decimal idx)));
    title = row_title e own_page (file_for_row e idx);
    group = binge_group e;
  }

  abbrev pub stream_of : Entry → Text → Bool → Option ℕ → Option Stream
  stream_of e origin own_page none = none
  stream_of e origin own_page (some idx) = some (stream_at e origin idx own_page)

  abbrev pub given_or_playable : Entry → Option ℕ → Option ℕ
  given_or_playable e none = playable_index e false
  given_or_playable e (some idx) = some idx

  -- `stream_for`
  unfoldable pub stream_for : Entry → Text → Option ℕ → Bool → Option Stream
  unfolding stream_at playable_index
  stream_for e origin file_idx own_page = stream_of e origin own_page (given_or_playable e file_idx)
