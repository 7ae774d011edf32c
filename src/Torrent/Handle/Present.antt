-- ===== src/Torrent/Handle/Present.antt =====
-- When a file is complete.
use stremio_libtorrent_serve.Prelude.{
  ℕ, ◌+◌, ◌-◌, ◌/◌, ◌≤◌, ◌<◌, ◌≡◌, ◌↔◌, refl, sym, ap, subst, ◌∙◌, Bool, true, false, none, some,
  List, [], ◌∷◌, arith, nat_eq, nat_eq_iff, contains, ℕ_eq, Bool-cases, inl, inr, if◌then◌else◌,
}
use stremio_libtorrent_serve.Torrent.Picker.{pieces_for_range}
use stremio_libtorrent_serve.Torrent.Picker.Cover.{pieces_for_range-cover}
use stremio_libtorrent_serve.Torrent.Handle.{Info, Torrent, all_present, file_complete}

module _ (t : Torrent) where
  all_present-each :
      (pieces : List ℕ) (p : ℕ)
      → all_present t pieces ≡ true
      → contains pieces p ≡ true
      → t.have_piece p ≡ true
  unfolding all_present contains
  all_present-each [] p h c = cc c
  all_present-each (q ∷ pieces) p h c = elim (Bool-cases (t.have_piece q)) [
    | inl e ↦
        let more : all_present t pieces ≡ true = rw e at h in
        elim (Bool-cases (nat_eq q p)) [
          | inl k ↦
              let same : q ≡ p = (nat_eq_iff q p).0 k in subst (λ x. t.have_piece x ≡ true) same e
          | inr k ↦ all_present-each pieces p more (rw k at c)
        ]
    | inr e ↦ cc (rw e at h)
  ]

  all_present-from :
      (pieces : List ℕ)
      → ((p : ℕ) → contains pieces p ≡ true → t.have_piece p ≡ true)
      → all_present t pieces ≡ true
  unfolding all_present contains
  all_present-from [] h = refl
  all_present-from (q ∷ pieces) h =
      let first : t.have_piece q ≡ true = h q (rw ((nat_eq_iff q q).1 refl) refl) in
      rw first (
        all_present-from pieces
          (λ p c. h p (elim (Bool-cases (nat_eq q p)) [ inl k ↦ rw k refl | inr k ↦ rw k c ])))

  file_complete-eq :
      (i : Info) (idx : ℕ)
      → t.info ≡ some i
      → 0 < i.file_size idx
      → file_complete t idx
        ≡ all_present t (
            pieces_for_range
              (i.file_offset idx)
              (i.file_offset idx + i.file_size idx - 1)
              i.piece_length)
  unfolding file_complete
  file_complete-eq i idx e size =
      let some_bytes : nat_eq (i.file_size idx) 0 ≡ false = ground arith in
      ap
        (λ o. elim o as (λ u. Bool) [
          | none ↦ false
          | some j ↦
              if nat_eq (j.file_size idx) 0
              then false
              else all_present t (
                  pieces_for_range (j.file_offset idx) (j.file_offset idx + j.file_size idx - 1)
                    j.piece_length)
        ])
        e
      ∙ rw some_bytes refl

  -- On a torrent with metadata and pieces of positive length, a file that is not empty counts as
  -- complete exactly when, for every byte of it, the piece that holds the byte is there.
  pub file_complete-bytes :
      (i : Info) (idx : ℕ)
      → t.info ≡ some i
      → 0 < i.file_size idx
      → 0 < i.piece_length
      → (file_complete t idx ≡ true) ↔ (
          (b : ℕ)
          → i.file_offset idx ≤ b
          → b < i.file_offset idx + i.file_size idx
          → t.have_piece (b / i.piece_length) ≡ true)
  file_complete-bytes i idx e size positive =
      let from = i.file_offset idx in
      let to = from + i.file_size idx - 1 in
      let pieces = pieces_for_range from to i.piece_length in
      let eq = file_complete-eq i idx e size in
      (
        λ h b low high. all_present-each pieces (b / i.piece_length) (sym eq ∙ h) (
            (pieces_for_range-cover from to i.piece_length positive (b / i.piece_length)
                (omega arith)).1
              (b, low, omega arith, refl)),
        λ h.
            eq
            ∙ all_present-from pieces (λ p c.
              let (b, low, high, at) =
                (pieces_for_range-cover from to i.piece_length positive p (omega arith)).0 c in
              subst (λ x. t.have_piece x ≡ true) at (h b low (omega arith))),
      )
