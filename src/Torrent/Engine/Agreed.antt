-- ===== src/Torrent/Engine/Agreed.antt =====
-- The engine's three views of what is pinned agree: the set, the flags of the handles, and pins.json.
use stremio_libtorrent_serve.Prelude.{
  ℕ, ◌≡◌, refl, ◌∙◌, false, not, ◌&&◌, Option, none, some, List, [], ◌∷◌, ◌++◌, arith, ◌==◌, Keyed,
  keep, collect, contains, add_to, All, Bool-cases, Option-cases, inl, inr, replicate, ℕ_eq,
}
use stremio_libtorrent_serve.Prelude.Text.{Text, Text_eq, lower}
use stremio_libtorrent_serve.Prelude.Dict.{Dict, get, put, remove, get-put, get-remove}
use stremio_libtorrent_serve.Torrent.Handle.{
  Call, prioritize_files, Torrent, Handle, num_files, priorities, attempt, want_all_files,
  want_file, reapply_priorities,
}
use stremio_libtorrent_serve.Torrent.Wanted.{Want}
use stremio_libtorrent_serve.Torrent.Engine.{
  discard, or_none, fresh_handle, Surroundings, knows_metadata, piece_pass, full_priority,
  want_each, PinRecord, Engine, add, drop_torrent,
}
use stremio_libtorrent_serve.Torrent.Engine.Wants.{resolve, apply_wanted, apply_one, apply_all}
use stremio_libtorrent_serve.Torrent.Engine.Startup.{pin_set}

attempt-pinned :
    (t : Torrent) (calls : List Call) (h : Handle) → (attempt t calls h).pinned ≡ h.pinned
unfolding attempt
attempt-pinned t [] h = refl
attempt-pinned t (c ∷ calls) h = elim (Bool-cases (t.refuses c)) [
  | inl e ↦ rw (e, attempt) refl
  | inr e ↦ rw (e, attempt) (attempt-pinned t calls (record h { calls = h.calls ++ c ∷ [] }))
]

want_all_files-pinned : (t : Torrent) (h : Handle) → (want_all_files t h).pinned ≡ h.pinned
unfolding want_all_files
want_all_files-pinned t h = elim (Option-cases t.info) [
  | inl e ↦ rw (e, want_all_files) refl
  | inr (i, e) ↦
      rw (e, want_all_files) (attempt-pinned t (prioritize_files (replicate i.num_files 1) ∷ []) h)
]

pub full_priority-pinned : (t : Torrent) (h : Handle) → (full_priority t h).pinned ≡ h.pinned
unfolding full_priority
full_priority-pinned t h =
    attempt-pinned t (piece_pass t) (want_all_files t h) ∙ want_all_files-pinned t h

pub reapply_priorities-pinned :
    (t : Torrent) (h : Handle) → (reapply_priorities t h).pinned ≡ h.pinned
unfolding reapply_priorities
reapply_priorities-pinned t h =
    attempt-pinned t (prioritize_files (priorities (num_files t) h h.focused_idx) ∷ []) h

want_file-pinned : (t : Torrent) (i : ℕ) (h : Handle) → (want_file t i h).pinned ≡ h.pinned
unfolding want_file
want_file-pinned t i h =
    ground (arith, reapply_priorities-pinned t (record h { wanted = add_to h.wanted i }))

want_each-pinned :
    (t : Torrent) (idxs : List ℕ) (h : Handle) → (want_each t idxs h).pinned ≡ h.pinned
unfolding want_each
want_each-pinned t [] h = refl
want_each-pinned t (i ∷ idxs) h = want_each-pinned t idxs (want_file t i h) ∙ want_file-pinned t i h

-- A pinned torrent's handle says so, and no other.
abbrev pub IsFlagged : List Text → Dict Text Handle → Type 0
IsFlagged pinned torrents =
    (ih : Text) (h : Handle) → get ih torrents ≡ some h → h.pinned ≡ contains pinned ih

pub put-IsFlagged :
    (pinned : List Text) (torrents : Dict Text Handle) (ih : Text) (h : Handle)
    → h.pinned ≡ contains pinned ih
    → IsFlagged pinned torrents
    → IsFlagged pinned (put ih h torrents)
put-IsFlagged pinned torrents ih h p old k g e =
    ground (arith, get-put ih k h torrents, Text_eq.decides ih k, old k g)

pub remove-IsFlagged :
    (pinned : List Text) (torrents : Dict Text Handle) (ih : Text)
    → IsFlagged pinned torrents
    → IsFlagged pinned (remove ih torrents)
remove-IsFlagged pinned torrents ih old k g e = ground (arith, get-remove ih k torrents, old k g)

-- the flag of one torrent changes with the set
pub repin-IsFlagged :
    (pinned after : List Text) (torrents : Dict Text Handle) (ih : Text) (h : Handle)
    → h.pinned ≡ contains after ih
    → ((k : Text) → (ih == k) ≡ false → contains after k ≡ contains pinned k)
    → IsFlagged pinned torrents
    → IsFlagged after (put ih h torrents)
repin-IsFlagged pinned after torrents ih h p same old k g e =
    ground (arith, get-put ih k h torrents, Text_eq.decides ih k, old k g, same k)

pub contains-discard :
    (xs : List Text) (a b : Text) → contains (discard xs a) b ≡ (not (a == b) && contains xs b)
unfolding contains discard keep
contains-discard [] a b = ground arith
contains-discard (x ∷ xs) a b =
    ground (
      arith,
      contains-discard xs a b,
      Text_eq.decides x a,
      Text_eq.decides x b,
      Text_eq.decides a b,
    )

-- No record is a download, and the records name what is pinned.
pub record Agrees {S : Type 0} (e : Engine S) : Type 0 where
  pub flagged : IsFlagged e.pinned e.torrents
  pub written : (ih : Text) → contains e.pinned ih ≡ contains (pin_set (or_none e.pins_file)) ih
  pub chosen : All (λ (p : PinRecord S). p.want ≡ none) (or_none e.pins_file)

module _ {S : Type 0} ⦃s : Keyed S⦄ where
  pub apply_wanted-pinned :
      (want_of : S → Option Want) (w : Surroundings) (ih : Text) (specs : List S) (h : Handle)
      → (apply_wanted want_of w ih specs h).pinned ≡ h.pinned
  unfolding apply_wanted
  apply_wanted-pinned want_of w ih specs h =
      let resolved = resolve want_of (w.files ih) specs in
      let narrowed = collect (λ i. i) resolved in
      ground (arith, full_priority-pinned (w.side ih) h, want_each-pinned (w.side ih) narrowed h)

  apply_one-Agrees :
      (want_of : S → Option Want) (w : Surroundings) (ih : Text) (specs : List S) (e : Engine S)
      → Agrees e
      → Agrees (apply_one want_of w ih specs e)
  unfolding apply_one
  apply_one-Agrees want_of w ih specs e a = elim (Bool-cases (contains e.applied ih)) [
    | inl done ↦ rw (done, apply_one) a
    | inr due ↦ elim (Option-cases (get ih e.torrents)) [
      | inl absent ↦ rw (due, absent, apply_one) a
      | inr (h, here) ↦ elim (Bool-cases (knows_metadata (w.side ih))) [
        | inl known ↦
            rw (due, here, known, apply_one)
              (record {
                flagged =
                    put-IsFlagged e.pinned e.torrents ih (apply_wanted want_of w ih specs h)
                      (apply_wanted-pinned want_of w ih specs h ∙ a.flagged ih h here) a.flagged;
                written = a.written;
                chosen = a.chosen;
              })
        | inr unknown ↦ rw (due, here, unknown, apply_one) a
      ]
    ]
  ]

  pub apply_all-Agrees :
      (want_of : S → Option Want) (w : Surroundings) (wanted : Dict Text (List S)) (e : Engine S)
      → Agrees e
      → Agrees (apply_all want_of w wanted e)
  unfolding apply_all
  apply_all-Agrees want_of w [] e a = a
  apply_all-Agrees want_of w ((ih, specs) ∷ wanted) e a =
      apply_all-Agrees want_of w wanted (apply_one want_of w ih specs e)
        (apply_one-Agrees want_of w ih specs e a)

  pub add-Agrees : (ih : Text) (e : Engine S) → Agrees e → Agrees (add ih e)
  unfolding add
  add-Agrees ih e a = record {
    flagged =
        put-IsFlagged e.pinned e.torrents ih (record fresh_handle { pinned = contains e.pinned ih })
          refl a.flagged;
    written = a.written;
    chosen = a.chosen;
  }

  pub drop_torrent-Agrees : (ih : Text) (e : Engine S) → Agrees e → Agrees (drop_torrent ih e)
  unfolding drop_torrent
  drop_torrent-Agrees ih e a = record {
    flagged = remove-IsFlagged e.pinned e.torrents (lower ih) a.flagged;
    written = a.written;
    chosen = a.chosen;
  }
