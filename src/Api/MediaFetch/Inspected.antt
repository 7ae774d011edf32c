-- ===== src/Api/MediaFetch/Inspected.antt =====
-- api/media_fetch.py, `_torrent_head`: what its outcomes say.
use stremio_libtorrent_serve.Prelude.{
  ℕ, zero, suc, ◌+◌, ◌/◌, ◌≡◌, ◌⊎◌, refl, inl, inr, true, false, Option, none, some, arith, nat_eq,
  min, length, get_elem?, Bool-cases,
}
use stremio_libtorrent_serve.Prelude.Int.{ℤ}
use stremio_libtorrent_serve.Prelude.Text.{Text}
use stremio_libtorrent_serve.Stream.FileServer.{
  World, End, State, Waited, arrived, late, lost, wait_for, wait_and_read,
}
use stremio_libtorrent_serve.Stream.FileServer.Outcome.{wait_for-arrived}
use stremio_libtorrent_serve.Api.MediaFetch.Head.{
  Source, Sniffed, inspected, uninspected, unread, head_bytes, served_file, head_request, is_raised,
  whole_head, read_head, await_head, head_of_file, head_of_source, torrent_head,
}

-- Why there was nothing to inspect: the torrent cannot be resolved, it has no media file to guess, the
-- file has no place in it, or its handle became invalid while the head was waited for.
pub data IsAbsent (engine : Text → Option Source) (ih : Text) (idx : ℤ) : Type 0 where
  unresolved : engine ih ≡ none → IsAbsent engine ih idx
  no_file : (s : Source) → engine ih ≡ some s → served_file s idx ≡ none → IsAbsent engine ih idx
  no_place :
      (s : Source) (i : ℕ)
      → engine ih ≡ some s
      → served_file s idx ≡ some i
      → (s.file_offset i ≡ none) ⊎ (nat_eq s.piece_length 0 ≡ true)
      → IsAbsent engine ih idx
  went_away :
      (s : Source) (i now : ℕ)
      → engine ih ≡ some s
      → served_file s idx ≡ some i
      → (s.world i).valid now ≡ false
      → IsAbsent engine ih idx

-- The whole head, read by `wait_and_read` from the moment that its piece was there: the first 64 bytes of
-- the file that is served, or all of a shorter one.
pub record IsWholeHead (engine : Text → Option Source) (ih : Text) (idx : ℤ) (head : Text)
    : Type 0 where
  pub source : Source
  pub file : ℕ
  pub offset : ℕ
  pub path : Text
  pub size : ℕ
  pub now : ℕ
  pub resolved : engine ih ≡ some source
  pub metadata : source.has_metadata ≡ true
  pub served_as : served_file source idx ≡ some file
  pub placed : source.file_offset file ≡ some offset
  pub listed : get_elem? source.files file ≡ some (path, size)
  pub there : (source.world file).have_piece now (offset / source.piece_length) ≡ true
  pub bytes : (wait_and_read (head_request source offset) (source.world file) now).1.out ≡ head
  pub whole : length head ≡ min head_bytes size

-- What an outcome of the sniff says.
abbrev pub IsSniffed : (Text → Option Source) → Text → ℤ → Sniffed → Type 0
IsSniffed engine ih idx (inspected head) = IsWholeHead engine ih idx head
IsSniffed engine ih idx uninspected = IsAbsent engine ih idx
IsSniffed engine ih idx unread = Unit

wait_for-lost :
    (w : World) (fuel piece deadline now : ℕ)
    → (wait_for w fuel piece deadline now).0 ≡ lost
    → w.valid (wait_for w fuel piece deadline now).1 ≡ false
unfolding wait_for
wait_for-lost w zero piece deadline now h = absurd (cc h)
wait_for-lost w (suc fuel) piece deadline now h =
    ground (arith, wait_for-lost w fuel piece deadline (now + 200))

module _ (timeout : ℕ) (engine : Text → Option Source) (ih : Text) (idx : ℤ) where
  module _ (s : Source) (resolved : engine ih ≡ some s) (metadata : s.has_metadata ≡ true) where
    whole_head-IsSniffed :
        (i offset now : ℕ) (o : Option (Text × ℕ))
        → served_file s idx ≡ some i
        → s.file_offset i ≡ some offset
        → (s.world i).have_piece now (offset / s.piece_length) ≡ true
        → get_elem? s.files i ≡ o
        → IsSniffed engine ih idx
            (whole_head (wait_and_read (head_request s offset) (s.world i) now) o)
    whole_head-IsSniffed i offset now none f p t e = tt
    whole_head-IsSniffed i offset now (some (path, size)) f p t e =
        let x : End × State = wait_and_read (head_request s offset) (s.world i) now in
        elim (Bool-cases (is_raised x.0)) [
          | inl bad ↦ rw bad tt
          | inr good ↦ elim (Bool-cases (nat_eq (length x.1.out) (min head_bytes size))) [
            | inl all ↦
                rw (good, all)
                  (record {
                    source = s;
                    file = i;
                    offset = offset;
                    path = path;
                    size = size;
                    now = now;
                    resolved = resolved;
                    metadata = metadata;
                    served_as = f;
                    placed = p;
                    listed = e;
                    there = t;
                    bytes = refl;
                    whole = ground (arith, all);
                  })
            | inr short ↦ rw (good, short) tt
          ]
        ]

    read_head-IsSniffed :
        (i offset : ℕ) (x : Waited × ℕ)
        → served_file s idx ≡ some i
        → s.file_offset i ≡ some offset
        → (x.0 ≡ lost → (s.world i).valid x.1 ≡ false)
        → (x.0 ≡ arrived → (s.world i).have_piece x.1 (offset / s.piece_length) ≡ true)
        → IsSniffed engine ih idx (read_head s i offset x)
    read_head-IsSniffed i offset (lost, now) f p gone there =
        went_away s i now resolved f (gone refl)
    read_head-IsSniffed i offset (late, now) f p gone there = tt
    read_head-IsSniffed i offset (arrived, now) f p gone there =
        whole_head-IsSniffed i offset now (get_elem? s.files i) f p (there refl) refl

    await_head-IsSniffed :
        (i : ℕ) (o : Option ℕ)
        → served_file s idx ≡ some i
        → s.file_offset i ≡ o
        → IsSniffed engine ih idx (await_head timeout s i o)
    await_head-IsSniffed i none f p = no_place s i resolved f (inl p)
    await_head-IsSniffed i (some offset) f p = elim (Bool-cases (nat_eq s.piece_length 0)) [
      | inl e ↦ rw e (no_place s i resolved f (inr e))
      | inr e ↦ rw e (
          read_head-IsSniffed i offset
            (wait_for (s.world i) (timeout + 2) (offset / s.piece_length) (s.ready_at + timeout + 1)
              s.ready_at)
            f p (wait_for-lost (s.world i) _ _ _ _)
            (λ e. (wait_for-arrived (s.world i) _ _ _ _ e).0))
    ]

    head_of_file-IsSniffed :
        (o : Option ℕ) → served_file s idx ≡ o → IsSniffed engine ih idx (head_of_file timeout s o)
    head_of_file-IsSniffed none f = no_file s resolved f
    head_of_file-IsSniffed (some i) f = await_head-IsSniffed i (s.file_offset i) f refl

  head_of_source-IsSniffed :
      (o : Option Source) → engine ih ≡ o → IsSniffed engine ih idx (head_of_source timeout idx o)
  unfolding served_file
  head_of_source-IsSniffed none e = unresolved e
  head_of_source-IsSniffed (some s) e = elim (Bool-cases s.has_metadata) [
    | inl m ↦ rw m (head_of_file-IsSniffed s e m (served_file s idx) refl)
    | inr m ↦ rw m tt
  ]

  -- Bytes were read whole, and nothing was read only where the file cannot be reached.
  pub torrent_head-IsSniffed : IsSniffed engine ih idx (torrent_head timeout engine ih idx)
  unfolding torrent_head
  torrent_head-IsSniffed = head_of_source-IsSniffed (engine ih) refl
