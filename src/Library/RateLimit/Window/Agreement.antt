-- ===== src/Library/RateLimit/Window/Agreement.antt =====
-- The limiter and the one that forgets nothing answer alike.
use mathlib.Core.List.{append-nil}
use stremio_libtorrent_serve.Prelude.{
  beq_refl, ℕ, ◌+◌, ◌≤◌, ◌≡◌, refl, sym, ap, ap₂, subst, ◌∙◌, true, false, not, Option, none, some,
  List, [], ◌∷◌, ◌++◌, arith, leb, ltb, if◌then◌else◌, ◌==◌, length, keep, keep-append, collect,
  collect-append, All, All-append, All-weaken, All-keep, Bool-cases, inl, inr,
}
use stremio_libtorrent_serve.Prelude.Text.{Text, Text_eq, text_eq_iff}
use stremio_libtorrent_serve.Prelude.Dict.{get, put, get-put}
use stremio_libtorrent_serve.Prelude.Dict.Unique.{
  IsUnique, keep_value, get-keep, keep-IsUnique, put-IsUnique,
}
use stremio_libtorrent_serve.Library.RateLimit.{
  RateLimiter, last_of, or_empty, is_stale, is_recent, reap, allow,
}
use stremio_libtorrent_serve.Library.RateLimit.Window.{
  Log, time_of, times, grants, answers, ideal_answers, InOrder, Ascending, keep-Ascending,
  append-Ascending, old_times, keep-keep,
}

record IsKept (now : ℕ) (ts : List ℕ) : Type 0 where
  pub ascending : Ascending ts
  pub past : All (λ t. t ≤ now) ts

reap-IsUnique : (l : RateLimiter) (now : ℕ) → IsUnique l.hits → IsUnique (reap l now)
unfolding reap
reap-IsUnique l now u = keep-IsUnique (λ (k, v). not (is_stale l.window now v)) l.hits u

times-append :
    (key k : Text) (now : ℕ) (log : Log)
    → times k (log ++ (key, now) ∷ []) ≡ times k log ++ (if key == k then now ∷ [] else [])
unfolding times collect
times-append key k now log =
    collect-append (time_of k) log ((key, now) ∷ [])
    ∙ ap (λ xs. collect (time_of k) log ++ xs) (ground arith)

IsKept-later : (prev now : ℕ) (ts : List ℕ) → prev ≤ now → IsKept prev ts → IsKept now ts
IsKept-later prev now ts h k = record {
  ascending = k.ascending;
  past = All-weaken (λ t. t ≤ prev) (λ t. t ≤ now) ts (λ t p. omega arith) k.past;
}

module _ (window : ℕ) where
  -- what a key holds after the stale keys are reaped
  abbrev reaped : ℕ → Option (List ℕ) → List ℕ
  reaped now o = or_empty (keep_value (λ v. not (is_stale window now v)) o)

  reaped-agrees :
      (prev now later : ℕ) (o : Option (List ℕ))
      → IsKept prev (or_empty o)
      → now ≤ later
      → keep (is_recent window later) (reaped now o) ≡ keep (is_recent window later) (or_empty o)
  unfolding is_stale keep
  reaped-agrees prev now later none k h = refl
  reaped-agrees prev now later (some []) k h = refl
  reaped-agrees prev now later (some (t ∷ ts)) k h =
      elim (Bool-cases (leb (last_of t ts + window) now)) [
        | inl old ↦ rw old (sym (old_times window later t ts k.ascending (ground arith)))
        | inr e ↦ rw e refl
      ]

  reaped-IsKept :
      (now : ℕ) (o : Option (List ℕ)) → IsKept now (or_empty o) → IsKept now (reaped now o)
  unfolding is_stale
  reaped-IsKept now none k = k
  reaped-IsKept now (some []) k = k
  reaped-IsKept now (some (t ∷ ts)) k = elim (Bool-cases (leb (last_of t ts + window) now)) [
    | inl old ↦ rw old (record { ascending = tt; past = tt })
    | inr e ↦ rw e k
  ]

  -- the limiter agrees with the log about every window that is still to come
  record Agrees (l : RateLimiter) (log : Log) (now : ℕ) : Type 0 where
    pub same_window : l.window ≡ window
    pub unique : IsUnique l.hits
    pub kept : (k : Text) → IsKept now (or_empty (get k l.hits))
    pub agrees :
        (k : Text) (later : ℕ)
        → now ≤ later
        → keep (is_recent window later) (or_empty (get k l.hits))
          ≡ keep (is_recent window later) (times k log)

  get-reap :
      (l : RateLimiter) (now : ℕ) (k : Text)
      → l.window ≡ window
      → IsUnique l.hits
      → or_empty (get k (reap l now)) ≡ reaped now (get k l.hits)
  unfolding reap
  get-reap l now k e u =
      ap or_empty (get-keep (λ v. not (is_stale l.window now v)) k l.hits u)
      ∙ ap (λ w. or_empty (keep_value (λ v. not (is_stale w now v)) (get k l.hits))) e

  -- the hits that an attempt counts
  abbrev counted : RateLimiter → Text → ℕ → List ℕ
  counted l key now = keep (is_recent l.window now) (or_empty (get key (reap l now)))

  counted-times :
      (l : RateLimiter) (log : Log) (prev now : ℕ) (key : Text)
      → Agrees l log prev
      → prev ≤ now
      → counted l key now ≡ keep (is_recent window now) (times key log)
  counted-times l log prev now key a h =
      ap (λ w. keep (is_recent w now) (or_empty (get key (reap l now)))) a.same_window
      ∙ ap (keep (is_recent window now)) (get-reap l now key a.same_window a.unique)
      ∙ reaped-agrees prev now now (get key l.hits) (a.kept key) (omega arith)
      ∙ a.agrees key now h

  counted-IsKept :
      (l : RateLimiter) (log : Log) (prev now : ℕ) (key : Text)
      → Agrees l log prev
      → prev ≤ now
      → IsKept now (or_empty (get key (reap l now)))
  counted-IsKept l log prev now key a h =
      rw (get-reap l now key a.same_window a.unique)
        (reaped-IsKept now (get key l.hits) (IsKept-later prev now _ h (a.kept key)))

  counted-IsKept' :
      (l : RateLimiter) (log : Log) (prev now : ℕ) (key : Text)
      → Agrees l log prev
      → prev ≤ now
      → IsKept now (counted l key now)
  counted-IsKept' l log prev now key a h =
      let k = counted-IsKept l log prev now key a h in
      let held = or_empty (get key (reap l now)) in
      record {
        ascending = keep-Ascending (is_recent l.window now) held k.ascending;
        past = All-keep (λ t. t ≤ now) (is_recent l.window now) held k.past;
      }

  -- what a write of the key's hits leaves
  write-Agrees :
      (l : RateLimiter) (log log' : Log) (prev now : ℕ) (key : Text) (ts : List ℕ)
      → Agrees l log prev
      → prev ≤ now
      → IsKept now ts
      → ((later : ℕ)
          → now ≤ later
          → keep (is_recent window later) ts ≡ keep (is_recent window later) (times key log'))
      → ((k : Text) → (key == k) ≡ false → times k log' ≡ times k log)
      → Agrees (record l { hits = put key ts (reap l now) }) log' now
  write-Agrees l log log' prev now key ts a h kept same others = record {
    same_window = a.same_window;
    unique = put-IsUnique key ts (reap l now) (reap-IsUnique l now a.unique);
    kept = λ k. elim (Bool-cases (key == k)) [
      | inl e ↦ rw (get-put key k ts (reap l now)) (rw e kept)
      | inr e ↦ rw (get-put key k ts (reap l now)) (rw e (counted-IsKept l log prev now k a h))
    ];
    agrees = λ k later le. elim (Bool-cases (key == k)) [
      | inl e ↦
          let here : key ≡ k = (text_eq_iff key k).0 e in
          rw (get-put key k ts (reap l now)) (
            rw e (
              subst
                (λ x.
                  keep (is_recent window later) ts ≡ keep (is_recent window later) (times x log'))
                here (same later le)))
      | inr e ↦
          rw (get-put key k ts (reap l now), others k e)
            (rw e (
              ap (keep (is_recent window later)) (get-reap l now k a.same_window a.unique)
              ∙ reaped-agrees prev now later (get k l.hits) (a.kept k) le
              ∙ a.agrees k later (omega arith)))
    ];
  }

  denied-Agrees :
      (l : RateLimiter) (log : Log) (prev now : ℕ) (key : Text)
      → Agrees l log prev
      → prev ≤ now
      → Agrees (record l { hits = put key (counted l key now) (reap l now) }) log now
  denied-Agrees l log prev now key a h =
      write-Agrees l log log prev now key (counted l key now) a h
        (counted-IsKept' l log prev now key a h)
        (λ later le.
          ap (keep (is_recent window later)) (counted-times l log prev now key a h)
          ∙ keep-keep window now later (times key log) le)
        (λ k e. refl)

  granted-Agrees :
      (l : RateLimiter) (log : Log) (prev now : ℕ) (key : Text)
      → Agrees l log prev
      → prev ≤ now
      → Agrees
          (record l { hits = put key (counted l key now ++ now ∷ []) (reap l now) })
          (log ++ (key, now) ∷ [])
          now
  granted-Agrees l log prev now key a h =
      let k = counted-IsKept' l log prev now key a h in
      write-Agrees l log (log ++ (key, now) ∷ []) prev now key (counted l key now ++ now ∷ []) a h
        (record {
          ascending = append-Ascending (counted l key now) now k.ascending k.past;
          past = All-append (λ t. t ≤ now) (counted l key now) (now ∷ []) k.past (omega arith, tt);
        })
        (λ later le.
          keep-append (is_recent window later) (counted l key now) (now ∷ [])
          ∙ ap (λ xs. keep (is_recent window later) xs ++ keep (is_recent window later) (now ∷ []))
              (counted-times l log prev now key a h)
          ∙ ap (λ xs. xs ++ keep (is_recent window later) (now ∷ []))
              (keep-keep window now later (times key log) le)
          ∙ sym (
              ap (keep (is_recent window later)) (times-append key key now log)
              ∙ keep-append (is_recent window later) (times key log)
                  (if key == key then now ∷ [] else [])
              ∙ rw (beq_refl {A = Text} key) refl))
        (λ k e. times-append key k now log ∙ rw e (append-nil (times k log)))

  allow-Agrees :
      (l : RateLimiter) (log : Log) (prev now : ℕ) (key : Text)
      → Agrees l log prev
      → prev ≤ now
      → ((allow l key now).0 ≡ grants l.limit window log key now)
        × ((allow l key now).1.limit ≡ l.limit)
        × Agrees
            (allow l key now).1
            (if grants l.limit window log key now then log ++ (key, now) ∷ [] else log)
            now
  unfolding allow grants
  allow-Agrees l log prev now key a h =
      let same : length (counted l key now) ≡ length (keep (is_recent window now) (times key log)) =
        ap length (counted-times l log prev now key a h) in
      elim (Bool-cases (leb l.limit (length (counted l key now)))) [
        | inl e ↦
            let f : ltb (length (keep (is_recent window now) (times key log))) l.limit ≡ false =
              ground (arith, same) in
            rw (e, allow) (rw f (refl, refl, denied-Agrees l log prev now key a h))
        | inr e ↦
            let f : ltb (length (keep (is_recent window now) (times key log))) l.limit ≡ true =
              ground (arith, same) in
            rw (e, allow) (rw f (refl, refl, granted-Agrees l log prev now key a h))
      ]

  answers-agree :
      (limit : ℕ) (l : RateLimiter) (log : Log) (prev : ℕ) (attempts : List (Text × ℕ))
      → l.limit ≡ limit
      → Agrees l log prev
      → InOrder prev attempts
      → answers l attempts ≡ ideal_answers limit window log attempts
  unfolding answers ideal_answers
  answers-agree limit l log prev [] e a o = refl
  answers-agree limit l log prev ((key, now) ∷ attempts) e a o =
      let (same, kept, next) = allow-Agrees l log prev now key a o.0 in
      let rest =
        answers-agree limit (allow l key now).1
          (if grants l.limit window log key now then log ++ (key, now) ∷ [] else log) now attempts
          (kept ∙ e) next o.1 in
      ap₂ ◌∷◌ (same ∙ ap (λ n. grants n window log key now) e) (
        rest
        ∙ ap
            (λ n.
              ideal_answers limit window
                (if grants n window log key now then log ++ (key, now) ∷ [] else log) attempts)
            e)

-- However many keys there are and however their attempts interleave, as long as time does not go back:
-- a new limiter, which drops every time and every key that has left the window, gives each attempt the
-- answer of one that forgets nothing and grants an attempt exactly while fewer than `limit` attempts of
-- its key were granted within the window.
pub answers-refine :
    (limit window : ℕ) (attempts : List (Text × ℕ))
    → InOrder 0 attempts
    → answers (record { limit = limit; window = window; hits = [] }) attempts
      ≡ ideal_answers limit window [] attempts
unfolding get times collect
answers-refine limit window attempts o =
    answers-agree window limit (record { limit = limit; window = window; hits = [] }) [] 0 attempts
      refl
      (record {
        same_window = refl;
        unique = tt;
        kept = λ k. record { ascending = tt; past = tt };
        agrees = λ k later le. refl;
      })
      o
