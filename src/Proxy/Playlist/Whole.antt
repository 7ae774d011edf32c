-- ===== src/Proxy/Playlist/Whole.antt =====
-- The loop that stops at its limit against the playlist rewritten at once.
pub mod Same
pub mod Uris
pub mod Mapped
use stremio_libtorrent_serve.Prelude.{
  ℕ, ◌+◌, ◌≤◌, ◌≡◌, ◌↔◌, refl, sym, ap, ap₂, subst, ◌∙◌, false, Option, none, some, List, [], ◌∷◌,
  ◌++◌, arith, nat_eq, length, length-append, Bool-cases, Option-cases, inl, inr,
}
use stremio_libtorrent_serve.Prelude.Text.{Text, is_empty, strip_prefix, before}
use stremio_libtorrent_serve.Proxy.Playlist.{
  cons_line, lines_of, cut_ending, from_quote, Attribute, uri_mark, match_here, first_of,
  search_uri, done, map_line, piece_of, passes_limit, rewrite_loop, rewrite_lines,
}

append_assoc : (xs ys zs : Text) → (xs ++ ys) ++ zs ≡ xs ++ (ys ++ zs)
append_assoc [] ys zs = refl
append_assoc (x ∷ xs) ys zs = ap (λ l. x ∷ l) (append_assoc xs ys zs)

append_nil : (xs : Text) → xs ++ [] ≡ xs
append_nil [] = refl
append_nil (x ∷ xs) = ap (λ l. x ∷ l) (append_nil xs)

passes_none : (limit : Option ℕ) → passes_limit limit 0 ≡ false
passes_none none = refl
passes_none (some most) = ground arith

module _ (map_url : Text → Option Text) where
  abbrev pub append_some : Text → Option Text → Option Text
  append_some text none = none
  append_some text (some rest) = some (text ++ rest)

  -- The pieces of all lines, none where the map raises for one of them.
  unfoldable pub join_pieces : Text → List Text → Option Text
  unfolding piece_of
  join_pieces feed [] = some []
  join_pieces feed (raw ∷ lines) = elim (piece_of map_url raw) [
    | none ↦ none
    | some text ↦ append_some (feed ++ text) (join_pieces (10 ∷ []) lines)
  ]

  -- The whole playlist with its URLs mapped, whatever its size.
  unfoldable pub rewritten : Text → Option Text
  unfolding join_pieces lines_of
  rewritten body = join_pieces [] (lines_of body)

  module _ (limit : Option ℕ) where
    passes_less : (m n : ℕ) → m ≤ n → passes_limit limit n ≡ false → passes_limit limit m ≡ false
    passes_less m n le h = elim (Option-cases limit) [
      | inl e ↦ rw e refl
      | inr (most, e) ↦ let h' = rw e at h in rw e (ground arith)
    ]

    loop_sound :
        (feed out : Text) (lines : List Text) (t : Text)
        → passes_limit limit (length out) ≡ false
        → rewrite_loop map_url limit feed out lines ≡ done t
        → (tail : Text) × (join_pieces feed lines ≡ some tail)
          × (t ≡ out ++ tail)
          × (passes_limit limit (length t) ≡ false)
    unfolding rewrite_loop join_pieces
    loop_sound feed out [] t h e =
        let same : out ≡ t = cc e in
        (
          [],
          refl,
          sym same ∙ sym (append_nil out),
          subst (λ x. passes_limit limit (length x) ≡ false) same h,
        )
    loop_sound feed out (raw ∷ lines) t h e = elim (Option-cases (piece_of map_url raw)) [
      | inl bad ↦ absurd (let e' = rw (bad, rewrite_loop) at e in cc e')
      | inr (text, good) ↦
          elim (Bool-cases (passes_limit limit (length out + length (feed ++ text)))) [
            | inl past ↦ absurd (let e' = rw (good, past, rewrite_loop) at e in cc e')
            | inr room ↦
                let e' = rw (good, room, rewrite_loop) at e in
                let (tail, joined, same, within) =
                  loop_sound (10 ∷ []) (out ++ (feed ++ text)) lines t
                    (subst (λ n. passes_limit limit n ≡ false)
                      (sym (length-append out (feed ++ text))) room)
                    e' in
                (
                  (feed ++ text) ++ tail,
                  rw (good, join_pieces, joined) refl,
                  same ∙ append_assoc out (feed ++ text) tail,
                  within,
                )
          ]
    ]

    loop_complete :
        (feed out : Text) (lines : List Text) (tail : Text)
        → join_pieces feed lines ≡ some tail
        → passes_limit limit (length (out ++ tail)) ≡ false
        → rewrite_loop map_url limit feed out lines ≡ done (out ++ tail)
    unfolding rewrite_loop join_pieces
    loop_complete feed out [] tail e h =
        let same : [] ≡ tail = cc e in ap done (sym (append_nil out) ∙ ap (λ x. out ++ x) same)
    loop_complete feed out (raw ∷ lines) tail e h = elim (Option-cases (piece_of map_url raw)) [
      | inl bad ↦ absurd (let e' = rw (bad, join_pieces) at e in cc e')
      | inr (text, good) ↦ elim (Option-cases (join_pieces (10 ∷ []) lines)) [
        | inl bad ↦ absurd (let e' = rw (good, join_pieces, bad) at e in cc e')
        | inr (rest, joined) ↦
            let e' = rw (good, join_pieces, joined) at e in
            let whole : (feed ++ text) ++ rest ≡ tail = cc e' in
            let split : out ++ tail ≡ (out ++ (feed ++ text)) ++ rest =
              ap (λ x. out ++ x) (sym whole) ∙ sym (append_assoc out (feed ++ text) rest) in
            let within : passes_limit limit (length ((out ++ (feed ++ text)) ++ rest)) ≡ false =
              subst (λ x. passes_limit limit (length x) ≡ false) split h in
            let room : passes_limit limit (length out + length (feed ++ text)) ≡ false =
              passes_less (length out + length (feed ++ text))
                (length ((out ++ (feed ++ text)) ++ rest))
                (omega (
                  arith,
                  length-append (out ++ (feed ++ text)) rest,
                  length-append out (feed ++ text),
                ))
                within in
            rw (good, room, rewrite_loop)
              (loop_complete (10 ∷ []) (out ++ (feed ++ text)) lines rest joined within
                ∙ ap done (sym split))
      ]
    ]

    -- The rewriting returns a playlist exactly when no line's map raises and the whole stays within the
    -- limit, and then it is the whole playlist with every URL mapped.
    pub rewrite_lines-rewritten :
        (body t : Text)
        → (rewrite_lines map_url limit body ≡ done t)
          ↔ ((rewritten body ≡ some t) × (passes_limit limit (length t) ≡ false))
    unfolding rewrite_lines rewritten
    rewrite_lines-rewritten body t = (
      λ e.
          let (tail, joined, same, within) =
            loop_sound [] [] (lines_of body) t (passes_none limit) e in
          (joined ∙ ap some (sym same), within),
      λ h. loop_complete [] [] (lines_of body) t h.0 h.1,
    )
