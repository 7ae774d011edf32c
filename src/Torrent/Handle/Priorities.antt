-- ===== src/Torrent/Handle/Priorities.antt =====
-- The list of file priorities that a handle asks for.
use stremio_libtorrent_serve.Prelude.{
  ℕ, zero, suc, ◌<◌, ◌≡◌, refl, ap, Bool, false, ◌&&◌, Option, none, some, List, [], ◌∷◌, arith,
  ltb, nat_eq, length, length-set, get_or, set, replicate, contains, ℕ_eq, if◌then◌else◌,
  Bool-cases, inl, inr,
}
use stremio_libtorrent_serve.Prelude.Text.{is_empty}
use stremio_libtorrent_serve.Torrent.Handle.{
  Handle, mark_wanted, focus_prio, idle_file_prio, priorities,
}

pub set-set : (xs : List ℕ) (i a b : ℕ) → set (set xs i a) i b ≡ set xs i b
set-set [] i a b = refl
set-set (x ∷ xs) zero a b = refl
set-set (x ∷ xs) (suc i) a b = ap (◌∷◌ x) (set-set xs i a b)

pub get_or-set :
    (xs : List ℕ) (i j v d : ℕ)
    → get_or (set xs i v) j d ≡ (if nat_eq i j && ltb i (length xs) then v else get_or xs j d)
get_or-set [] i j v d = ground arith
get_or-set (x ∷ xs) zero zero v d = ground arith
get_or-set (x ∷ xs) zero (suc j) v d = ground arith
get_or-set (x ∷ xs) (suc i) zero v d = ground arith
get_or-set (x ∷ xs) (suc i) (suc j) v d = ground (arith, get_or-set xs i j v d)

length-replicate : (n v : ℕ) → length (replicate n v) ≡ n
length-replicate zero v = refl
length-replicate (suc n) v = ap suc (length-replicate n v)

get_or-replicate : (n v i : ℕ) → i < n → get_or (replicate n v) i 0 ≡ v
get_or-replicate zero v i h = elim h [ ]
get_or-replicate (suc n) v zero h = refl
get_or-replicate (suc n) v (suc i) h = get_or-replicate n v i (omega arith)

-- Marking a set of files touches those files and no others.
get_or-mark_wanted :
    (prios wanted : List ℕ) (i : ℕ)
    → i < length prios
    → get_or (mark_wanted prios wanted) i 0
      ≡ (if contains wanted i then idle_file_prio else get_or prios i 0)
unfolding mark_wanted contains
get_or-mark_wanted prios [] i h = refl
get_or-mark_wanted prios (w ∷ wanted) i h = ground (
  arith,
  length-set prios w idle_file_prio,
  get_or-set prios w i idle_file_prio 0,
  get_or-mark_wanted (set prios w idle_file_prio) wanted i
      (omega (arith, length-set prios w idle_file_prio)),
)

length-mark_wanted : (prios wanted : List ℕ) → length (mark_wanted prios wanted) ≡ length prios
unfolding mark_wanted
length-mark_wanted prios [] = refl
length-mark_wanted prios (w ∷ wanted) = omega (
  arith,
  length-mark_wanted (set prios w idle_file_prio) wanted,
  length-set prios w idle_file_prio,
)

-- the priorities before the focus
abbrev pub base_prio : Handle → ℕ → ℕ
base_prio h i =
    if h.pinned && is_empty h.wanted then 1 else if contains h.wanted i then idle_file_prio else 0

abbrev base : ℕ → Handle → List ℕ
base n h =
    if h.pinned && is_empty h.wanted then replicate n 1 else mark_wanted (replicate n 0) h.wanted

get_or-base : (n : ℕ) (h : Handle) (i : ℕ) → i < n → get_or (base n h) i 0 ≡ base_prio h i
get_or-base n h i lt = elim (Bool-cases (h.pinned && is_empty h.wanted)) [
  | inl e ↦ rw e (get_or-replicate n 1 i lt)
  | inr e ↦ rw e (
      rw (get_or-mark_wanted (replicate n 0) h.wanted i (omega (arith, length-replicate n 0)))
        (rw (get_or-replicate n 0 i lt) refl))
]

length-base : (n : ℕ) (h : Handle) → length (base n h) ≡ n
length-base n h =
    ground (
      arith,
      length-replicate n 1,
      length-replicate n 0,
      length-mark_wanted (replicate n 0) h.wanted,
    )

abbrev pub focused_on : Option ℕ → ℕ → Bool
focused_on none i = false
focused_on (some f) i = nat_eq f i

-- A file's priority: that of the played file by its open streams, of a wanted file the idle one, of
-- every file 1 for a pinned torrent of which no file was chosen, and 0 otherwise.
pub get_or-priorities :
    (n : ℕ) (h : Handle) (focus : Option ℕ) (i : ℕ)
    → i < n
    → get_or (priorities n h focus) i 0
      ≡ (if focused_on focus i then focus_prio h.active else base_prio h i)
unfolding priorities
get_or-priorities n h none i lt = get_or-base n h i lt
get_or-priorities n h (some f) i lt = ground (
  arith,
  get_or-set (base n h) f i (focus_prio h.active) 0,
  get_or-base n h i lt,
  length-base n h,
)
