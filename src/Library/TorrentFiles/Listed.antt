-- ===== src/Library/TorrentFiles/Listed.antt =====
-- What a listing may hold, whatever the record.
use stremio_libtorrent_serve.Prelude.{
  ℕ, ◌+◌, ◌≤◌, ◌<◌, ◌≡◌, ◌≢◌, refl, subst, true, false, Option, none, some, List, [], ◌∷◌, arith,
  leb, length, All, Bool-cases, Option-cases, inl, inr,
}
use stremio_libtorrent_serve.Prelude.Int.{ℤ}
use stremio_libtorrent_serve.Prelude.Text.{Text, Text_eq, codes, is_empty, text_eq_iff}
use stremio_libtorrent_serve.Library.TorrentFiles.{
  Value, number, bytes, list, dict, Values, nil, cons, Entries, bdecode,
}
use stremio_libtorrent_serve.Library.TorrentFiles.Info.{
  find, TorrentFile, Listing, is_bad, has_bad, is_safe, all_safe, is_skipped, int_under, path_list,
  count_values, path_parts, add_file, file_with, file_at, list_files, listing_of, single_file,
  listing_under, parse_info, or_unlisted, info_listing, record_listing, max_record_bytes,
  read_listing,
}

-- A name that stays in its directory.
pub record IsInside (part : Text) : Type 0 where
  pub named : is_empty part ≡ false
  pub not_here : part ≢ codes "."
  pub not_above : part ≢ codes ".."
  pub one_name : All (λ c. is_bad c ≡ false) part

has_bad-All : (s : Text) → has_bad s ≡ false → All (λ c. is_bad c ≡ false) s
unfolding has_bad
has_bad-All [] h = tt
has_bad-All (c ∷ s) h = (ground (arith, h), has_bad-All s (ground (arith, h)))

is_safe-IsInside : (part : Text) → is_safe part ≡ true → IsInside part
unfolding is_safe
is_safe-IsInside part h = record {
  named = ground (arith, h);
  not_here = λ e. ground (arith, h, (text_eq_iff part (codes ".")).1 e);
  not_above = λ e. ground (arith, h, (text_eq_iff part (codes "..")).1 e);
  one_name = has_bad-All part (ground (arith, h));
}

all_safe-All : (parts : List Text) → all_safe parts ≡ true → All IsInside parts
unfolding all_safe
all_safe-All [] h = tt
all_safe-All (part ∷ parts) h =
    (is_safe-IsInside part (ground (arith, h)), all_safe-All parts (ground (arith, h)))

-- Files numbered upwards from an index and below another one, each with a path that stays inside.
abbrev pub AreListed : ℕ → ℕ → List TorrentFile → Type 0
AreListed from count [] = Unit
AreListed from count (f ∷ files) =
    (from ≤ f.index)
    × (f.index < count)
    × All IsInside f.parts
    × AreListed (f.index + 1) count files

AreListed-le :
    (m n count : ℕ) (files : List TorrentFile)
    → m ≤ n
    → AreListed n count files
    → AreListed m count files
AreListed-le m n count [] le h = tt
AreListed-le m n count (f ∷ files) le h = (omega (arith, le, h.0), h.1, h.2, h.3)

-- A listing whose files are numbered upwards within its count and stay inside.
abbrev pub IsListing : Listing → Type 0
IsListing l = AreListed 0 l.count l.files

module _ (decode_utf8 : Text → Text) where
  add_file-AreListed :
      (index count : ℕ) (size : ℤ) (o : Option (List Text)) (rest : Option (List TorrentFile))
      (files : List TorrentFile)
      → index < count
      → ((later : List TorrentFile) → rest ≡ some later → AreListed (index + 1) count later)
      → add_file index size o rest ≡ some files
      → AreListed index count files
  add_file-AreListed index count size none rest files lt h e = absurd (cc e)
  add_file-AreListed index count size (some parts) none files lt h e = absurd (cc e)
  add_file-AreListed index count size (some parts) (some later) files lt h e =
      elim (Bool-cases (all_safe parts)) [
        | inl t ↦
            let e' = rw t at e in
            let same : record { index = index; parts = parts; size = size } ∷ later ≡ files =
              cc e' in
            subst (AreListed index count) same (omega arith, lt, all_safe-All parts t, h later refl)
        | inr t ↦
            let e' = rw t at e in
            let same : later ≡ files = cc e' in
            subst (AreListed index count) same
              (AreListed-le index (index + 1) count later (omega arith) (h later refl))
      ]

  file_with-AreListed :
      (index count : ℕ) (f : Entries) (o : Option ℤ) (rest : Option (List TorrentFile))
      (files : List TorrentFile)
      → index < count
      → ((later : List TorrentFile) → rest ≡ some later → AreListed (index + 1) count later)
      → file_with decode_utf8 index f o rest ≡ some files
      → AreListed index count files
  file_with-AreListed index count f none rest files lt h e = absurd (cc e)
  file_with-AreListed index count f (some size) rest files lt h e =
      let parts =
        path_parts decode_utf8 (path_list (find (codes "path.utf-8") f) (find (codes "path") f)) in
      elim (Bool-cases (is_skipped (find (codes "attr") f))) [
        | inl t ↦ AreListed-le index (index + 1) count files (omega arith) (h files (rw t at e))
        | inr t ↦ add_file-AreListed index count size parts rest files lt h (rw t at e)
      ]

  file_at-AreListed :
      (index count : ℕ) (v : Value) (rest : Option (List TorrentFile)) (files : List TorrentFile)
      → index < count
      → ((later : List TorrentFile) → rest ≡ some later → AreListed (index + 1) count later)
      → file_at decode_utf8 index v rest ≡ some files
      → AreListed index count files
  file_at-AreListed index count (dict f) rest files lt h e =
      file_with-AreListed index count f (int_under (find (codes "length") f)) rest files lt h e
  file_at-AreListed index count (number n) rest files lt h e = absurd (cc e)
  file_at-AreListed index count (bytes b) rest files lt h e = absurd (cc e)
  file_at-AreListed index count (list vs) rest files lt h e = absurd (cc e)

  list_files-AreListed :
      (index count : ℕ) (vs : Values) (files : List TorrentFile)
      → index + count_values vs ≤ count
      → list_files decode_utf8 index vs ≡ some files
      → AreListed index count files
  unfolding list_files
  list_files-AreListed index count nil files le e =
      let same : [] ≡ files = cc e in subst (AreListed index count) same tt
  list_files-AreListed index count (cons v vs) files le e =
      file_at-AreListed index count v (list_files decode_utf8 (index + 1) vs) files
        (omega (arith, le))
        (λ later k. list_files-AreListed (index + 1) count vs later (omega (arith, le)) k) e

  single_file-IsListing : (o : Option ℤ) (l : Listing) → single_file o ≡ some l → IsListing l
  single_file-IsListing none l e = absurd (cc e)
  single_file-IsListing (some size) l e =
      let same : record { count = 1; files = record { index = 0; parts = []; size = size } ∷ [] }
          ≡ l =
        cc e in
      subst IsListing same (omega arith, omega arith, tt, tt)

  listing_of-IsListing :
      (fs : Values) (l : Listing)
      → listing_of (count_values fs) (list_files decode_utf8 0 fs) ≡ some l
      → IsListing l
  listing_of-IsListing fs l e = elim (Option-cases (list_files decode_utf8 0 fs)) [
    | inl k ↦ absurd (let e' = rw k at e in cc e')
    | inr (files, k) ↦
        let e' = rw k at e in
        let same : record { count = count_values fs; files = files } ≡ l = cc e' in
        subst IsListing same (list_files-AreListed 0 (count_values fs) fs files (omega arith) k)
  ]

  listing_under-IsListing :
      (o : Option Value) (info : Entries) (l : Listing)
      → listing_under decode_utf8 o info ≡ some l
      → IsListing l
  listing_under-IsListing none info l e =
      single_file-IsListing (int_under (find (codes "length") info)) l e
  listing_under-IsListing (some (number n)) info l e =
      single_file-IsListing (int_under (find (codes "length") info)) l e
  listing_under-IsListing (some (bytes b)) info l e =
      single_file-IsListing (int_under (find (codes "length") info)) l e
  listing_under-IsListing (some (dict d)) info l e =
      single_file-IsListing (int_under (find (codes "length") info)) l e
  listing_under-IsListing (some (list fs)) info l e = listing_of-IsListing fs l e

  parse_info-IsListing : (v : Value) (l : Listing) → parse_info decode_utf8 v ≡ some l → IsListing l
  unfolding parse_info
  parse_info-IsListing (dict info) l e =
      listing_under-IsListing (find (codes "files") info) info l e
  parse_info-IsListing (number n) l e = absurd (cc e)
  parse_info-IsListing (bytes b) l e = absurd (cc e)
  parse_info-IsListing (list vs) l e = absurd (cc e)

  or_unlisted-IsListing :
      (o : Option Listing) → ((l : Listing) → o ≡ some l → IsListing l) → IsListing (or_unlisted o)
  or_unlisted-IsListing none h = tt
  or_unlisted-IsListing (some l) h = h l refl

  info_listing-IsListing :
      (o : Option Value) (l : Listing) → info_listing decode_utf8 o ≡ some l → IsListing l
  info_listing-IsListing none l e = absurd (cc e)
  info_listing-IsListing (some (number n)) l e = absurd (cc e)
  info_listing-IsListing (some (bytes b)) l e = absurd (cc e)
  info_listing-IsListing (some (list vs)) l e = absurd (cc e)
  info_listing-IsListing (some (dict info)) l e =
      let same : or_unlisted (parse_info decode_utf8 (dict info)) ≡ l = cc e in
      subst IsListing same (
        or_unlisted-IsListing (parse_info decode_utf8 (dict info))
          (λ k. parse_info-IsListing (dict info) k))

  record_listing-IsListing :
      (o : Option Value) (l : Listing) → record_listing decode_utf8 o ≡ some l → IsListing l
  record_listing-IsListing none l e = absurd (cc e)
  record_listing-IsListing (some (number n)) l e = absurd (cc e)
  record_listing-IsListing (some (bytes b)) l e = absurd (cc e)
  record_listing-IsListing (some (list vs)) l e = absurd (cc e)
  record_listing-IsListing (some (dict r)) l e = info_listing-IsListing (find (codes "info") r) l e

  -- Whatever bytes a resume record holds: in the listing that is read from it the files are numbered
  -- upwards, each below the listing's count, and no part of a path is empty, `.` or `..`, or has a slash,
  -- a backslash or a NUL in it, so that every path stays in the torrent's directory.
  pub read_listing-IsListing :
      (file : Option Text) (l : Listing) → read_listing decode_utf8 file ≡ some l → IsListing l
  unfolding read_listing
  read_listing-IsListing none l e = absurd (cc e)
  read_listing-IsListing (some buf) l e = elim (Bool-cases (leb (length buf) max_record_bytes)) [
    | inl t ↦ record_listing-IsListing (bdecode buf) l (rw (t, read_listing) at e)
    | inr t ↦ absurd (let e' = rw (t, read_listing) at e in cc e')
  ]
