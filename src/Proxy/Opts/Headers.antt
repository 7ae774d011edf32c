-- ===== src/Proxy/Opts/Headers.antt =====
-- No header option can inject a line, or a name that is no field name.
use stremio_libtorrent_serve.Prelude.{
  ℕ, ◌≡◌, subst, collect, Option-cases, Bool, true, false, not, ◌||◌, Option, some, List, [], ◌∷◌,
  arith, leb, nat_eq, contains, ℕ_eq, All, All-reverse, All-weaken, Bool-cases, inl, inr,
}
use stremio_libtorrent_serve.Prelude.Text.{
  Text, Text_eq, codes, is_empty, is_space, lstrip, strip, before, after,
}
use stremio_libtorrent_serve.Prelude.Dict.{Dict, get}
use mathlib.Core.List.{reverse}
use stremio_libtorrent_serve.Proxy.Opts.{
  Header, is_token_code, all_of, is_token, is_breaker, split_header, ProxyOpts, UrlParts,
  usable_origin, values_of, first_or_empty, parse_opts,
}

all_of-All : (p : ℕ → Bool) (s : Text) → all_of p s ≡ true → All (λ c. p c ≡ true) s
unfolding all_of
all_of-All p [] h = tt
all_of-All p (c ∷ s) h = (ground (arith, h), all_of-All p s (ground (arith, h)))

module _ (P : ℕ → Type 0) where
  before-All : (c : ℕ) (s : Text) → All P s → All P (before c s)
  unfolding before
  before-All c [] h = tt
  before-All c (d ∷ s) h = elim (Bool-cases (nat_eq d c)) [
    | inl e ↦ rw (e, before) tt
    | inr e ↦ rw (e, before) (h.0, before-All c s h.1)
  ]

  after-All : (c : ℕ) (s : Text) → All P s → All P (after c s)
  unfolding after
  after-All c [] h = tt
  after-All c (d ∷ s) h = elim (Bool-cases (nat_eq d c)) [
    | inl e ↦ rw (e, after) h.1
    | inr e ↦ rw (e, after) (after-All c s h.1)
  ]

  lstrip-All : (s : Text) → All P s → All P (lstrip s)
  unfolding lstrip
  lstrip-All [] h = tt
  lstrip-All (c ∷ s) h = elim (Bool-cases (is_space c)) [
    | inl e ↦ rw (e, lstrip) (lstrip-All s h.1)
    | inr e ↦ rw (e, lstrip) h
  ]

  strip-All : (s : Text) → All P s → All P (strip s)
  unfolding strip
  strip-All s h =
      All-reverse P (lstrip (reverse (lstrip s)))
        (lstrip-All (reverse (lstrip s)) (All-reverse P (lstrip s) (lstrip-All s h)))

-- A field name of RFC 9110, and a value that fits into one line of Latin-1.
pub record IsSendable (h : Header) : Type 0 where
  pub named : is_empty h.0 ≡ false
  pub name : All (λ c. is_token_code c ≡ true) h.0
  pub latin : All (λ c. leb c 255 ≡ true) h.1
  pub one_line : All (λ c. is_breaker c ≡ false) h.1

split_header-IsSendable : (spec : Text) (h : Header) → split_header spec ≡ some h → IsSendable h
unfolding split_header is_token
split_header-IsSendable spec h e =
    let name = strip (before b':' spec) in
    let value = strip (after b':' spec) in
    let refused =
      not (contains spec b':')
      || (not (is_token name) || not (all_of (λ c. not (is_breaker c)) spec)) in
    elim (Bool-cases refused) [
      | inl bad ↦ absurd (let e' = rw (bad, split_header) at e in cc e')
      | inr good ↦ elim (Bool-cases (all_of (λ c. leb c 255) value)) [
        | inr wide ↦ absurd (let e' = rw (good, wide, split_header) at e in cc e')
        | inl latin ↦
            let e' = rw (good, latin, split_header) at e in
            let same : (name, value) ≡ h = cc e' in
            let token : is_token name ≡ true = ground (arith, good) in
            let plain : all_of (λ c. not (is_breaker c)) spec ≡ true = ground (arith, good) in
            let lines = all_of-All (λ c. not (is_breaker c)) spec plain in
            subst IsSendable same (record {
              named = ground (arith, token);
              name = all_of-All is_token_code name (ground (arith, token));
              latin = all_of-All (λ c. leb c 255) value latin;
              one_line =
                  strip-All (λ c. is_breaker c ≡ false) (after b':' spec)
                    (after-All (λ c. is_breaker c ≡ false) b':' spec
                      (All-weaken (λ c. not (is_breaker c) ≡ true) (λ c. is_breaker c ≡ false) spec
                        (λ c k. ground (arith, k)) lines));
            })
      ]
    ]

headers-IsSendable : (specs : List Text) → All IsSendable (collect split_header specs)
unfolding collect
headers-IsSendable [] = tt
headers-IsSendable (spec ∷ specs) = elim (Option-cases (split_header spec)) [
  | inl e ↦ rw (e, collect) (headers-IsSendable specs)
  | inr (h, e) ↦ rw (e, collect) (split_header-IsSendable spec h e, headers-IsSendable specs)
]

-- Whatever a client puts into the options of a proxied URL: where they are read at all, each request and
-- each response header among them has a field name of RFC 9110 for its name and a value in Latin-1
-- without carriage return, line feed or NUL, so that none can inject a line.
pub parse_opts-IsSendable :
    (parse_qs : Text → Dict Text (List Text)) (urlsplit : Text → Option UrlParts) (raw : Text)
    (o : ProxyOpts) (path : Text)
    → parse_opts parse_qs urlsplit raw ≡ some (o, path)
    → All IsSendable o.req_headers × All IsSendable o.res_headers
unfolding parse_opts
parse_opts-IsSendable parse_qs urlsplit raw o path e =
    let q = parse_qs (before b'/' raw) in
    let req = values_of (get (codes "h") q) in
    let res = values_of (get (codes "r") q) in
    elim (Option-cases
      (usable_origin (urlsplit (first_or_empty (values_of (get (codes "d") q)))))) [
        | inl bad ↦ absurd (let e' = rw (bad, parse_opts) at e in cc e')
        | inr (dest, good) ↦
            let e' = rw (good, parse_opts) at e in
            let same : record {
              dest = dest;
              req_headers = collect split_header req;
              res_headers = collect split_header res;
            }
                ≡ o =
              cc e' in
            subst (λ p. All IsSendable p.req_headers × All IsSendable p.res_headers) same
              (headers-IsSendable req, headers-IsSendable res)
      ]
