-- ===== src/Prelude/Names.antt =====
-- The names of files and the parts of a text between separators.
use Prim.Native.Nat.{ℕ}
use mathlib.Core.List.{List, [], ◌∷◌, reverse}
use stremio_libtorrent_serve.Prelude.Tests.{nat_eq, if◌then◌else◌}
use stremio_libtorrent_serve.Prelude.Text.{Text, before, after}
use stremio_libtorrent_serve.Prelude.Numerals.{all_codes}

-- `os.path.basename(path)`
unfoldable pub base_name : Text → Text
unfolding before
base_name path = reverse (before b'/' (reverse path))

-- `os.path.splitext(path)[1]`
unfoldable pub extension : Text → Text
unfolding base_name before after all_codes
extension path =
    let name = reverse (base_name path) in
    if all_codes (nat_eq b'.') (after b'.' name) then [] else b'.' ∷ reverse (before b'.' name)

abbrev pub cons_part : ℕ → List Text → List Text
cons_part c [] = (c ∷ []) ∷ []
cons_part c (part ∷ parts) = (c ∷ part) ∷ parts

-- `s.split(c)`
unfoldable pub split_on : ℕ → Text → List Text
split_on c [] = [] ∷ []
split_on c (d ∷ s) = let rest = split_on c s in if nat_eq d c then [] ∷ rest else cons_part d rest

abbrev pub replace_code : ℕ → ℕ → ℕ → ℕ
replace_code c d x = if nat_eq x c then d else x
