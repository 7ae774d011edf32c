-- ===== src/Proxy/Playlist/Whole/Uris.antt =====
-- proxy/playlist.py, `_URI_ATTR`: the first URI attribute of a tag, said of the text alone.
use stremio_libtorrent_serve.Prelude.{
  ℕ, ◌≡◌, ◌≢◌, refl, sym, ap, ap₂, subst, ◌∙◌, false, none, some, [], ◌∷◌, ◌++◌, arith, nat_eq, All,
  Bool-cases, Option-cases, inl, inr,
}
use stremio_libtorrent_serve.Prelude.Text.{Text, is_empty, strip_prefix, before}
use stremio_libtorrent_serve.Proxy.Playlist.{
  from_quote, Attribute, uri_mark, match_here, first_of, search_uri,
}
use stremio_libtorrent_serve.Proxy.Playlist.Whole.Same.{strip_prefix-append, from_quote-append}

-- A text that begins `URI="`, a value of at least one character and none of them a quote, and a quote.
pub data BeginsUri : Text → Text → Text → Type 0 where
  begins :
      (value behind : Text)
      → is_empty value ≡ false
      → All (λ c. c ≢ b'"') value
      → BeginsUri (uri_mark ++ value ++ b'"' ∷ behind) value (b'"' ∷ behind)

abbrev pub NoUriHere : Text → Type 0
NoUriHere text = (value back : Text) → ¬ BeginsUri text value back

-- The first place of a text where it begins so: what stands in front of the value, the value, and the
-- rest from the quote on.
pub data IsFirstUri : Text → Text → Text → Text → Type 0 where
  here : (text value back : Text) → BeginsUri text value back → IsFirstUri text uri_mark value back
  later :
      (c : ℕ) (text front value back : Text)
      → NoUriHere (c ∷ text)
      → IsFirstUri text front value back
      → IsFirstUri (c ∷ text) (c ∷ front) value back

-- A text that begins so nowhere.
abbrev pub NoUri : Text → Type 0
NoUri [] = Unit
NoUri (c ∷ text) = NoUriHere (c ∷ text) × NoUri text

before-noquote : (s : Text) → All (λ c. c ≢ b'"') (before b'"' s)
unfolding before
before-noquote [] = tt
before-noquote (c ∷ s) = elim (Bool-cases (nat_eq c b'"')) [
  | inl e ↦ rw (e, before) tt
  | inr e ↦ rw (e, before) (ground (arith, e), before-noquote s)
]

from_quote-quote : (s back : Text) → from_quote s ≡ some back → (b : Text) × (back ≡ b'"' ∷ b)
unfolding from_quote
from_quote-quote [] back e = absurd (cc e)
from_quote-quote (c ∷ s) back e = elim (Bool-cases (nat_eq c b'"')) [
  | inl q ↦
      let e' : some (c ∷ s) ≡ some back = rw (q, from_quote) at e in
      let same : c ∷ s ≡ back = cc e' in
      let quote : c ≡ b'"' = ground (arith, q) in (s, sym same ∙ ap (λ d. d ∷ s) quote)
  | inr q ↦ from_quote-quote s back (rw (q, from_quote) at e)
]

match_here-Begins :
    (s : Text) (a : Attribute)
    → match_here (strip_prefix uri_mark s) ≡ some a
    → BeginsUri s a.value a.back × (a.front ≡ uri_mark)
match_here-Begins s a e = elim (Option-cases (strip_prefix uri_mark s)) [
  | inl n ↦ absurd (let e' = rw n at e in cc e')
  | inr (rest, m) ↦ elim (Option-cases (from_quote rest)) [
    | inl n ↦ absurd (let e' = rw (m, n) at e in cc e')
    | inr (back, q) ↦ elim (Bool-cases (is_empty (before b'"' rest))) [
      | inl n ↦ absurd (let e' = rw (m, q, n) at e in cc e')
      | inr n ↦
          let e' = rw (m, q, n) at e in
          let same : record { front = uri_mark; value = before b'"' rest; back = back } ≡ a =
            cc e' in
          let (b, quote) = from_quote-quote rest back q in
          let whole : uri_mark ++ before b'"' rest ++ b'"' ∷ b ≡ s =
            ap (λ x. uri_mark ++ before b'"' rest ++ x) (sym quote)
            ∙ ap (λ x. uri_mark ++ x) (from_quote-append rest back q)
            ∙ strip_prefix-append uri_mark s rest m in
          let found : BeginsUri s (before b'"' rest) back =
            subst (λ x. BeginsUri s (before b'"' rest) x) (sym quote)
              (subst (λ x. BeginsUri x (before b'"' rest) (b'"' ∷ b)) whole
                (begins (before b'"' rest) b n (before-noquote rest))) in
          subst (λ (x : Attribute). BeginsUri s x.value x.back × (x.front ≡ uri_mark)) same
            (found, refl)
    ]
  ]
]

-- the other way: a text that begins so is matched
strip_prefix-whole : (p s : Text) → strip_prefix p (p ++ s) ≡ some s
unfolding strip_prefix
strip_prefix-whole [] s = refl
strip_prefix-whole (c ∷ p) s = ground (arith, strip_prefix-whole p s)

from_quote-value :
    (v b : Text) → All (λ c. c ≢ b'"') v → from_quote (v ++ b'"' ∷ b) ≡ some (b'"' ∷ b)
unfolding from_quote
from_quote-value [] b h = refl
from_quote-value (c ∷ v) b h = ground (arith, h.0, from_quote-value v b h.1)

before-value : (v b : Text) → All (λ c. c ≢ b'"') v → before b'"' (v ++ b'"' ∷ b) ≡ v
unfolding before
before-value [] b h = refl
before-value (c ∷ v) b h = ground (arith, h.0, before-value v b h.1)

Begins-matched :
    (s v back : Text) → BeginsUri s v back → match_here (strip_prefix uri_mark s) ≢ none
Begins-matched _ _ _ (begins v b n h) =
    rw (strip_prefix-whole uri_mark (v ++ b'"' ∷ b), from_quote-value v b h, before-value v b h, n)
      (λ q. cc q)

pub search_uri-none : (s : Text) → search_uri s ≡ none → NoUri s
unfolding search_uri
search_uri-none [] e = tt
search_uri-none (c ∷ s) e = elim (Option-cases (match_here (strip_prefix uri_mark (c ∷ s)))) [
  | inr (b, m) ↦ absurd (cc (sym (ap (λ o. first_of c o (search_uri s)) m) ∙ e))
  | inl n ↦ elim (Option-cases (search_uri s)) [
    | inr (b, k) ↦ absurd (cc (sym (ap₂ (first_of c) n k) ∙ e))
    | inl k ↦ (λ v back h. Begins-matched (c ∷ s) v back h n, search_uri-none s k)
  ]
]

pub search_uri-some :
    (s : Text) (a : Attribute) → search_uri s ≡ some a → IsFirstUri s a.front a.value a.back
unfolding search_uri
search_uri-some [] a e = absurd (cc e)
search_uri-some (c ∷ s) a e = elim (Option-cases (match_here (strip_prefix uri_mark (c ∷ s)))) [
  | inr (b, m) ↦
      let e' : some b ≡ some a = sym (ap (λ o. first_of c o (search_uri s)) m) ∙ e in
      let same : b ≡ a = cc e' in
      let (found, front) = match_here-Begins (c ∷ s) b m in
      subst (λ (x : Attribute). IsFirstUri (c ∷ s) x.front x.value x.back) same
        (subst (λ f. IsFirstUri (c ∷ s) f b.value b.back) (sym front)
          (here (c ∷ s) b.value b.back found))
  | inl n ↦ elim (Option-cases (search_uri s)) [
    | inl k ↦ absurd (let e' = sym (ap₂ (first_of c) n k) ∙ e in cc e')
    | inr (b, k) ↦
        let e' = sym (ap₂ (first_of c) n k) ∙ e in
        let same : record b { front = c ∷ b.front } ≡ a = cc e' in
        subst (λ (x : Attribute). IsFirstUri (c ∷ s) x.front x.value x.back) same
          (later c s b.front b.value b.back (λ v back h. Begins-matched (c ∷ s) v back h n)
            (search_uri-some s b k))
  ]
]
