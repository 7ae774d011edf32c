-- ===== src/Cache/Resume.antt =====
-- cache.py: the sweep of the fast-resume records (`sweep_resume`, `claimed_hashes`,
-- `_prune_name_index`). A `Shelf` is what the sweep reads: the listing of the cache root and of
-- `.resume` (none where it cannot be read), the name index, and the hashes that the pin registry and
-- the wants name. Files go when they are removed; times are whole seconds, and the age not negative.
pub mod Sweep
use mathlib.Core.List.{reverse}
use stremio_libtorrent_serve.Prelude.{
  ℕ, ◌+◌, ◌-◌, ◌*◌, Bool, true, false, not, ◌&&◌, ◌||◌, Option, none, some, List, [], ◌∷◌, ◌++◌,
  leb, ltb, nat_eq, if◌then◌else◌, length, keep, collect, contains, is_some,
}
use stremio_libtorrent_serve.Prelude.Text.{
  Text, Text_eq, codes, lower, is_empty, ends_with, strip_prefix,
}
use stremio_libtorrent_serve.Prelude.Dict.{Dict}

-- A file of `.resume`; without a time where `getmtime` raises.
pub record File : Type 0 where
  pub name : Text
  pub mtime : Option ℕ

pub record Shelf : Type 0 where
  pub root : Option (List Text)
  pub files : Option (List File)
  pub index : Dict Text Text
  pub pinned : List Text
  pub wanted : List Text

-- `out`, with the files that were given to `_remove`
pub record Swept : Type 0 where
  pub disabled : Bool
  pub deleted : List File
  pub removed : ℕ
  pub kept : ℕ
  pub claimed : ℕ
  pub tmp : ℕ
  pub index_pruned : ℕ

abbrev pub nothing : Bool → Swept
nothing disabled = record {
  disabled = disabled;
  deleted = [];
  removed = 0;
  kept = 0;
  claimed = 0;
  tmp = 0;
  index_pruned = 0;
}

abbrev pub listed : Option (List Text) → List Text
listed none = []
listed (some names) = names

-- `str(h).lower()` where `h and n in on_disk`
unfoldable pub cached_hash : List Text → Text × Text → Option Text
cached_hash on_disk (n, h) = if not (is_empty h) && contains on_disk n then some (lower h) else none

unfoldable pub claimed_hashes : Shelf → List Text
claimed_hashes s = collect (cached_hash (listed s.root)) s.index ++ (s.pinned ++ s.wanted)

abbrev pub resume_suffix : Text
resume_suffix = codes ".fastresume"

-- the name without the suffix of a record, if it has it
unfoldable pub stem : Text → Option Text
stem name = elim (strip_prefix (reverse resume_suffix) (reverse name)) [
  | none ↦ none
  | some rest ↦ some (reverse rest)
]

-- What the sweep makes of a file.
pub data Fate : Type 0 where
  gone stale_tmp fresh_tmp foreign claimed_record old_record recent_record : Fate

abbrev pub record_fate : ℕ → ℕ → List Text → ℕ → Option Text → Fate
record_fate days now claimed mtime none = foreign
record_fate days now claimed mtime (some ih) =
    if contains claimed (lower ih)
    then claimed_record
    else if ltb (mtime + days * 86400) now
    then old_record
    else recent_record

abbrev pub fate_at : ℕ → ℕ → List Text → Text → Option ℕ → Fate
fate_at days now claimed name none = gone
fate_at days now claimed name (some mtime) =
    if ends_with name (codes ".tmp")
    then (if ltb (mtime + 86400) now then stale_tmp else fresh_tmp)
    else record_fate days now claimed mtime (stem name)

abbrev pub is_removed : Fate → Bool
is_removed stale_tmp = true
is_removed old_record = true
is_removed _ = false

abbrev pub tally : Fate → Swept → Swept
tally stale_tmp out = record out { tmp = out.tmp + 1 }
tally claimed_record out = record out { claimed = out.claimed + 1 }
tally old_record out = record out { removed = out.removed + 1 }
tally recent_record out = record out { kept = out.kept + 1 }
tally _ out = out

unfoldable pub has_record : List File → Text → Bool
has_record [] ih = false
has_record (f ∷ files) ih =
    contains (f.name ∷ []) (lower ih ++ resume_suffix) || has_record files ih

unfoldable pub still_indexed : List Text → List File → List Text → Text × Text → Bool
unfolding has_record
still_indexed claimed files on_disk (n, h) =
    contains on_disk n || (contains claimed (lower h) || has_record files h)

-- `_prune_name_index`: how many entries were dropped, and the index after
unfoldable pub prune_name_index :
    List Text → List File → Option (List Text) → Dict Text Text → ℕ × Dict Text Text
unfolding still_indexed
prune_name_index claimed files none index = (0, index)
prune_name_index claimed files (some on_disk) index =
    let left = keep (still_indexed claimed files on_disk) index in
    (length index - length left, left)

module _ (days now : ℕ) where
  unfoldable pub fate : List Text → File → Fate
  fate claimed f = fate_at days now claimed f.name f.mtime

  -- the loop over the files
  unfoldable pub sweep_files : List Text → List File → Swept → Swept
  unfolding fate
  sweep_files claimed [] out = out
  sweep_files claimed (f ∷ files) out =
      let out' = tally (fate claimed f) out in
      sweep_files claimed files (record out' {
        deleted = if is_removed (fate claimed f) then out'.deleted ++ f ∷ [] else out'.deleted;
      })

  abbrev pub sweep_listed : Shelf → Option (List File) → Swept × Shelf
  sweep_listed s none = (nothing false, s)
  sweep_listed s (some files) =
      let claimed = claimed_hashes s in
      let left = keep (λ f. not (is_removed (fate claimed f))) files in
      let (pruned, index) = prune_name_index claimed left s.root s.index in
      (
        record (sweep_files claimed files (nothing false)) { index_pruned = pruned },
        record s { files = some left; index = index },
      )

  unfoldable pub sweep_resume : Shelf → Swept × Shelf
  unfolding claimed_hashes sweep_files prune_name_index fate
  sweep_resume s = if leb days 0 then (nothing true, s) else sweep_listed s s.files
