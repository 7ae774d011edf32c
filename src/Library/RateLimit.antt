-- ===== src/Library/RateLimit.antt =====
-- library/ratelimit.py: the cap on sign-in attempts. Times are whole ticks, and a cutoff `now - window`
-- that is compared with a time is written as a sum. A key that is looked up and not held has no hits.
pub mod Window
use stremio_libtorrent_serve.Prelude.{
  ℕ, ◌+◌, Bool, true, false, not, Option, none, some, List, [], ◌∷◌, ◌++◌, leb, ltb, if◌then◌else◌,
  length, keep,
}
use stremio_libtorrent_serve.Prelude.Text.{Text, Text_eq}
use stremio_libtorrent_serve.Prelude.Dict.{Dict, get, put}

pub record RateLimiter : Type 0 where
  pub limit : ℕ
  pub window : ℕ
  pub hits : Dict Text (List ℕ)

-- the last of a list that begins with `t`
unfoldable pub last_of : ℕ → List ℕ → ℕ
last_of t [] = t
last_of t (u ∷ ts) = last_of u ts

abbrev pub or_empty : Option (List ℕ) → List ℕ
or_empty none = []
or_empty (some ts) = ts

module _ (window now : ℕ) where
  -- `not v or v[-1] <= cutoff`
  unfoldable pub is_stale : List ℕ → Bool
  is_stale [] = true
  is_stale (t ∷ ts) = leb (last_of t ts + window) now

  -- `t > cutoff`
  abbrev pub is_recent : ℕ → Bool
  is_recent t = ltb now (t + window)

unfoldable pub reap : RateLimiter → ℕ → Dict Text (List ℕ)
unfolding is_stale
reap l now = keep (λ (k, v). not (is_stale l.window now v)) l.hits

unfoldable pub allow : RateLimiter → Text → ℕ → Bool × RateLimiter
unfolding reap
allow l key now =
    let held = reap l now in
    let hits = keep (is_recent l.window now) (or_empty (get key held)) in
    if leb l.limit (length hits)
    then (false, record l { hits = put key hits held })
    else (true, record l { hits = put key (hits ++ now ∷ []) held })
