-- ===== src/Tests/Labelling.antt =====
-- A film with a label of its page, and two reports of the player.
use stremio_libtorrent_serve.Prelude.{◌≡◌, refl, Bool, true, Option, some, [], ◌∷◌}
use stremio_libtorrent_serve.Prelude.Text.{text_eq, codes}
use stremio_libtorrent_serve.Prelude.Int.{pos}
use stremio_libtorrent_serve.Library.Labels.{
  Json, whole, text, object, Fields, no_fields, field, get_field,
}
use stremio_libtorrent_serve.Library.Labels.Kept.{
  learning, adding_file, Holds, take_reports, take_reports-Holds,
}

abbrev film : Fields
film =
    field (codes "metaId") (text (codes "tt1"))
      (field (codes "name") (text (codes "A film")) no_fields)

abbrev labels_file : Option Json
labels_file = some (object (field (codes "aa") (object film) no_fields))

abbrev report : Fields
report = field (codes "metaId") (text (codes "tt1")) (
    field (codes "file")
      (object (
        field (codes "name") (text (codes "a.mkv"))
          (field (codes "size") (whole (pos 9)) no_fields)))
      no_fields)

abbrev always : Option Json → Option Json → Bool
always a b = true

film_there :
    get_field (codes "aa") (field (codes "aa") (object film) no_fields) ≡ some (object film)
unfolding get_field text_eq
film_there = refl

take_reports-Holds_example : Holds (codes "aa") film (
    take_reports always
      (learning (codes "AA") report 5
        ∷ learning (codes "bb") report 6
        ∷ adding_file (codes "aa") report
        ∷ [])
      labels_file)
take_reports-Holds_example =
    take_reports-Holds always
      (learning (codes "AA") report 5
        ∷ learning (codes "bb") report 6
        ∷ adding_file (codes "aa") report
        ∷ [])
      (codes "aa") film labels_file film_there refl
