-- ===== src/Library/RateLimit/Window.antt =====
-- The cap holds over every window of time: the limiter answers as one would that remembers every
-- attempt it ever granted.
pub mod Agreement
use mathlib.Core.List.{append-nil}
use stremio_libtorrent_serve.Prelude.{
  beq_refl, ℕ, ◌+◌, ◌≤◌, ◌≡◌, refl, sym, ap, ap₂, subst, ◌∙◌, Bool, true, false, not, Option, none,
  some, List, [], ◌∷◌, ◌++◌, arith, leb, ltb, if◌then◌else◌, ◌==◌, length, keep, keep-append,
  collect, collect-append, All, All-append, All-weaken, All-keep, Bool-cases, inl, inr,
}
use stremio_libtorrent_serve.Prelude.Text.{Text, Text_eq, text_eq_iff}
use stremio_libtorrent_serve.Prelude.Dict.{get, put, get-put}
use stremio_libtorrent_serve.Prelude.Dict.Unique.{
  IsUnique, keep_value, get-keep, keep-IsUnique, put-IsUnique,
}
use stremio_libtorrent_serve.Library.RateLimit.{
  RateLimiter, last_of, or_empty, is_stale, is_recent, reap, allow,
}

-- The times that are granted so far, with their keys, the oldest first.
abbrev pub Log : Type 0
Log = List (Text × ℕ)

abbrev time_of : Text → Text × ℕ → Option ℕ
time_of key (k, t) = if k == key then some t else none

unfoldable pub times : Text → Log → List ℕ
times key log = collect (time_of key) log

-- The limiter that forgets nothing: an attempt is granted while fewer than `limit` were granted to its
-- key within the window.
unfoldable pub grants : ℕ → ℕ → Log → Text → ℕ → Bool
unfolding times
grants limit window log key now = ltb (length (keep (is_recent window now) (times key log))) limit

unfoldable pub answers : RateLimiter → List (Text × ℕ) → List Bool
answers l [] = []
answers l ((key, now) ∷ attempts) = (allow l key now).0 ∷ answers (allow l key now).1 attempts

unfoldable pub ideal_answers : ℕ → ℕ → Log → List (Text × ℕ) → List Bool
ideal_answers limit window log [] = []
ideal_answers limit window log ((key, now) ∷ attempts) =
    let granted = grants limit window log key now in
    granted ∷ ideal_answers limit window (if granted then log ++ (key, now) ∷ [] else log) attempts

-- No attempt comes before an earlier one.
abbrev pub InOrder : ℕ → List (Text × ℕ) → Type 0
InOrder t [] = Unit
InOrder t ((key, now) ∷ attempts) = (t ≤ now) × InOrder now attempts

abbrev Ascending : List ℕ → Type 0
Ascending [] = Unit
Ascending (t ∷ ts) = All (λ u. t ≤ u) ts × Ascending ts

keep-Ascending : (p : ℕ → Bool) (ts : List ℕ) → Ascending ts → Ascending (keep p ts)
unfolding keep
keep-Ascending p [] h = tt
keep-Ascending p (t ∷ ts) h = elim (Bool-cases (p t)) [
  | inl e ↦ rw (e, keep) (All-keep (λ u. t ≤ u) p ts h.0, keep-Ascending p ts h.1)
  | inr e ↦ rw (e, keep) (keep-Ascending p ts h.1)
]

append-Ascending :
    (ts : List ℕ) (now : ℕ) → Ascending ts → All (λ t. t ≤ now) ts → Ascending (ts ++ now ∷ [])
append-Ascending [] now h below = (tt, tt)
append-Ascending (t ∷ ts) now h below =
    (All-append (λ u. t ≤ u) ts (now ∷ []) h.0 (below.0, tt), append-Ascending ts now h.1 below.1)

le-last_of : (t : ℕ) (ts : List ℕ) → Ascending (t ∷ ts) → t ≤ last_of t ts
unfolding last_of
le-last_of t [] h = omega arith
le-last_of t (u ∷ ts) h = omega (arith, h.0.0, le-last_of u ts h.1)

-- When the last is old, all are.
old_times :
    (window later : ℕ) (t : ℕ) (ts : List ℕ)
    → Ascending (t ∷ ts)
    → last_of t ts + window ≤ later
    → keep (is_recent window later) (t ∷ ts) ≡ []
unfolding keep last_of
old_times window later t [] h old = ground arith
old_times window later t (u ∷ ts) h old =
    ground (arith, le-last_of u ts h.1, h.0.0, old_times window later u ts h.1)

keep-keep :
    (window now later : ℕ) (ts : List ℕ)
    → now ≤ later
    → keep (is_recent window later) (keep (is_recent window now) ts)
      ≡ keep (is_recent window later) ts
unfolding keep
keep-keep window now later [] h = refl
keep-keep window now later (t ∷ ts) h = elim (Bool-cases (is_recent window now t)) [
  | inl e ↦ rw (e, keep) (ground (arith, keep-keep window now later ts h))
  | inr e ↦ rw (e, keep) (ground (arith, keep-keep window now later ts h))
]
