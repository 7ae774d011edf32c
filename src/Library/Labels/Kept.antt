-- ===== src/Library/Labels/Kept.antt =====
-- What the server learns at playback never takes the place of a label that is there.
use stremio_libtorrent_serve.Prelude.{
  ℕ, ◌≡◌, refl, sym, ap, subst, ◌∙◌, Bool, true, false, ◌||◌, Option, none, some, List, [], ◌∷◌,
  arith, if◌then◌else◌, ◌==◌, is_some, Bool-cases, Option-cases, inl, inr,
}
use stremio_libtorrent_serve.Prelude.Text.{Text, Text_eq, codes, lower}
use stremio_libtorrent_serve.Library.Labels.{
  Json, null, flag, whole, text, other, object, Fields, no_fields, field, get_field, set_field,
  is_truthy, same_video_fields, file_record, load_labels, learned_entry, is_labelled, learn,
  differs, add_found, add_label_file,
}

-- A report of the player: a label for a torrent without one, or a file for a label without one.
pub data Report : Type 0 where
  learning : Text → Fields → ℕ → Report
  adding_file : Text → Fields → Report

get_field-set_field :
    (k j : Text) (v : Json) (fs : Fields)
    → get_field j (set_field k v fs) ≡ (if k == j then some v else get_field j fs)
unfolding get_field set_field
get_field-set_field k j v no_fields = refl
get_field-set_field k j v (field i w fs) = ground (
  arith,
  Text_eq.decides k j,
  Text_eq.decides i k,
  Text_eq.decides i j,
  get_field-set_field k j v fs,
)

set_field-labelled :
    (k : Text) (v : Json) (fs : Fields) → is_truthy (object (set_field k v fs)) ≡ true
unfolding set_field
set_field-labelled k v no_fields = refl
set_field-labelled k v (field j w fs) = elim (Bool-cases (j == k)) [
  | inl e ↦ rw (e, set_field) refl
  | inr e ↦ rw (e, set_field) refl
]

-- The label has its fields, and its file where it had a proper one.
pub record IsKeptLabel (old new : Fields) : Type 0 where
  pub labelled : is_truthy (object new) ≡ true
  pub others : (k : Text) → (codes "file" == k) ≡ false → get_field k new ≡ get_field k old
  pub filed :
      is_some (file_record (get_field (codes "file") old)) ≡ true
      → get_field (codes "file") new ≡ get_field (codes "file") old

-- The file has a label under this hash that keeps the old one.
pub record Holds (ih : Text) (old : Fields) (file : Option Json) : Type 0 where
  pub new : Fields
  pub there : get_field ih (load_labels file) ≡ some (object new)
  pub kept_label : IsKeptLabel old new

IsKeptLabel-same : (fs : Fields) → is_truthy (object fs) ≡ true → IsKeptLabel fs fs
IsKeptLabel-same fs t = record { labelled = t; others = λ k o. refl; filed = λ f. refl }

module _ (same : Option Json → Option Json → Bool) where
  abbrev pub take_report : Report → Option Json → Option Json
  take_report (learning ih label now) file = (learn ih label now file).1
  take_report (adding_file ih label) file = (add_label_file same ih label file).1

  unfoldable pub take_reports : List Report → Option Json → Option Json
  take_reports [] file = file
  take_reports (r ∷ reports) file = take_reports reports (take_report r file)

  -- a write under a key
  write-Holds :
      (ih key : Text) (old entry : Fields) (file : Option Json)
      → Holds ih old file
      → ((key == ih) ≡ true → IsKeptLabel old entry)
      → Holds ih old (some (object (set_field key (object entry) (load_labels file))))
  write-Holds ih key old entry file h k = elim (Bool-cases (key == ih)) [
    | inl e ↦ record {
      new = entry;
      there = get_field-set_field key ih (object entry) (load_labels file) ∙ rw e refl;
      kept_label = k e;
    }
    | inr e ↦ record {
      new = h.new;
      there = get_field-set_field key ih (object entry) (load_labels file) ∙ rw e h.there;
      kept_label = h.kept_label;
    }
  ]

  learn-Holds :
      (key : Text) (label : Fields) (now : ℕ) (ih : Text) (old : Fields) (file : Option Json)
      → Holds ih old file
      → Holds ih old (learn key label now file).1
  unfolding learn
  learn-Holds key label now ih old file h =
      elim (Bool-cases (is_labelled (get_field (lower key) (load_labels file)))) [
        | inl e ↦ rw (e, learn) h
        | inr e ↦
            rw (e, learn)
              (write-Holds ih (lower key) old (learned_entry label now) file h (λ s.
                let here : lower key ≡ ih = (Text_eq.decides (lower key) ih).0 s in
                let found : get_field (lower key) (load_labels file) ≡ some (object h.new) =
                  ap (λ x. get_field x (load_labels file)) here ∙ h.there in
                absurd (let bad = sym e ∙ ap is_labelled found ∙ h.kept_label.labelled in cc bad)))
      ]

  filed-IsKeptLabel :
      (old stored found : Fields)
      → is_some (file_record (get_field (codes "file") stored)) ≡ false
      → IsKeptLabel old stored
      → IsKeptLabel old (set_field (codes "file") (object found) stored)
  filed-IsKeptLabel old stored found free k = record {
    labelled = set_field-labelled (codes "file") (object found) stored;
    others =
        λ j o. get_field-set_field (codes "file") j (object found) stored ∙ rw o (k.others j o);
    filed = λ f. absurd (
        let e = k.filed f in
        let bad : false ≡ true = sym free ∙ ap (λ v. is_some (file_record v)) e ∙ f in cc bad);
  }

  add_found-Holds :
      (key : Text) (found label : Fields) (ih : Text) (old : Fields) (file o : Option Json)
      → get_field key (load_labels file) ≡ o
      → Holds ih old file
      → Holds ih old (add_found same key found label file o).1
  add_found-Holds key found label ih old file none e h = h
  add_found-Holds key found label ih old file (some null) e h = h
  add_found-Holds key found label ih old file (some (flag b)) e h = h
  add_found-Holds key found label ih old file (some (whole n)) e h = h
  add_found-Holds key found label ih old file (some (text t)) e h = h
  add_found-Holds key found label ih old file (some (other b)) e h = h
  add_found-Holds key found label ih old file (some (object stored)) e h =
      let filed = is_some (file_record (get_field (codes "file") stored)) in
      elim (Bool-cases (filed || differs same same_video_fields stored label)) [
        | inl t ↦ rw t h
        | inr t ↦ rw t (
            write-Holds ih key old (set_field (codes "file") (object found) stored) file h (λ s.
              let here : key ≡ ih = (Text_eq.decides key ih).0 s in
              let eq : some (object h.new) ≡ some (object stored) =
                sym h.there ∙ ap (λ x. get_field x (load_labels file)) (sym here) ∙ e in
              let is : h.new ≡ stored = cc eq in
              filed-IsKeptLabel old stored found (ground (arith, t))
                (subst (IsKeptLabel old) is h.kept_label)))
      ]

  add_file-Holds :
      (key : Text) (label : Fields) (ih : Text) (old : Fields) (file : Option Json)
      → Holds ih old file
      → Holds ih old (add_label_file same key label file).1
  unfolding add_label_file
  add_file-Holds key label ih old file h =
      elim (Option-cases (file_record (get_field (codes "file") label))) [
        | inl e ↦ rw (e, add_label_file) h
        | inr (found, e) ↦
            rw (e, add_label_file)
              (add_found-Holds (lower key) found label ih old file
                (get_field (lower key) (load_labels file)) refl h)
      ]

  take_report-Holds :
      (r : Report) (ih : Text) (old : Fields) (file : Option Json)
      → Holds ih old file
      → Holds ih old (take_report r file)
  take_report-Holds (learning key label now) ih old file h = learn-Holds key label now ih old file h
  take_report-Holds (adding_file key label) ih old file h = add_file-Holds key label ih old file h

  run-Holds :
      (reports : List Report) (ih : Text) (old : Fields) (file : Option Json)
      → Holds ih old file
      → Holds ih old (take_reports reports file)
  unfolding take_reports
  run-Holds [] ih old file h = h
  run-Holds (r ∷ reports) ih old file h =
      run-Holds reports ih old (take_report r file) (take_report-Holds r ih old file h)

  -- A label that a torrent has, whoever wrote it, outlives whatever players report, of this torrent and of
  -- others: it stays there with all its fields but `file`, and with that one too where it is a proper
  -- file record.
  pub take_reports-Holds :
      (reports : List Report) (ih : Text) (label : Fields) (file : Option Json)
      → get_field ih (load_labels file) ≡ some (object label)
      → is_truthy (object label) ≡ true
      → Holds ih label (take_reports reports file)
  take_reports-Holds reports ih label file e t =
      run-Holds reports ih label file
        (record { new = label; there = e; kept_label = IsKeptLabel-same label t })
