-- ===== src/Library/Labels.antt =====
-- library/labels.py: what each torrent was labelled as. A JSON file is the value that it holds, none where
-- it is absent, unreadable or no object; an object's fields stand in the order of insertion. What Python's
-- `==` answers on two fields that may be absent is the argument `same`. Writing the file succeeds.
pub mod Kept
use stremio_libtorrent_serve.Prelude.{
  ℕ, zero, suc, Bool, true, false, not, ◌&&◌, ◌||◌, Option, none, some, List, [], ◌∷◌,
  if◌then◌else◌, ◌==◌, is_some,
}
use stremio_libtorrent_serve.Prelude.Int.{ℤ, pos, negsuc}
use stremio_libtorrent_serve.Prelude.Text.{Text, Text_eq, codes, is_empty, lower}

mutual
  -- A JSON value, of those that the module looks at.
  pub data Json : Type 0 where
    null : Json
    flag : Bool → Json
    whole : ℤ → Json
    text : Text → Json
    -- a list or a fraction, and whether it is true
    other : Bool → Json
    object : Fields → Json

  pub data Fields : Type 0 where
    no_fields : Fields
    field : Text → Json → Fields → Fields

-- `d.get(k)`
unfoldable pub get_field : Text → Fields → Option Json
get_field k no_fields = none
get_field k (field j v fs) = if j == k then some v else get_field k fs

-- `d[k] = v`
unfoldable pub set_field : Text → Json → Fields → Fields
set_field k v no_fields = field k v no_fields
set_field k v (field j w fs) = if j == k then field j v fs else field j w (set_field k v fs)

-- `d.pop(k, None)`
unfoldable pub drop_field : Text → Fields → Fields
drop_field k no_fields = no_fields
drop_field k (field j v fs) = let rest = drop_field k fs in if j == k then rest else field j v rest

-- `bool(v)`
abbrev pub is_truthy : Json → Bool
is_truthy null = false
is_truthy (flag b) = b
is_truthy (whole (pos zero)) = false
is_truthy (whole n) = true
is_truthy (text t) = not (is_empty t)
is_truthy (other b) = b
is_truthy (object no_fields) = false
is_truthy (object (field k v fs)) = true

-- `FIELDS`
abbrev pub page_fields : List Text
page_fields =
    codes "metaId"
    ∷ codes "videoId"
    ∷ codes "type"
    ∷ codes "name"
    ∷ codes "season"
    ∷ codes "episode"
    ∷ codes "poster"
    ∷ []

-- `LEARNED_FIELDS`
abbrev pub learned_fields : List Text
learned_fields =
    codes "metaId"
    ∷ codes "videoId"
    ∷ codes "type"
    ∷ codes "season"
    ∷ codes "episode"
    ∷ codes "file"
    ∷ []

abbrev pub same_video_fields : List Text
same_video_fields = codes "metaId" ∷ codes "season" ∷ codes "episode" ∷ []

abbrev pub field_if : Text → Option Json → Fields → Fields
field_if k none rest = rest
field_if k (some v) rest = field k v rest

-- `{k: label[k] for k in keys if k in label}`
unfoldable pub pick_fields : List Text → Fields → Fields
unfolding get_field
pick_fields [] label = no_fields
pick_fields (k ∷ keys) label = field_if k (get_field k label) (pick_fields keys label)

abbrev pub file_parts : Option Json → Option Json → Option Fields
file_parts (some (text (c ∷ name))) (some (whole (pos (suc size)))) = some (
    field (codes "name") (text (c ∷ name))
      (field (codes "size") (whole (pos (suc size))) no_fields))
file_parts name size = none

-- `file_record`, of a value that may be absent
unfoldable pub file_record : Option Json → Option Fields
unfolding get_field
file_record (some (object fs)) =
    file_parts (get_field (codes "name") fs) (get_field (codes "size") fs)
file_record v = none

abbrev pub load_labels : Option Json → Fields
load_labels (some (object data_)) = data_
load_labels file = no_fields

unfoldable pub put_label : Text → Fields → ℕ → Option Json → Option Json
unfolding set_field pick_fields
put_label info_hash label now file = some (
    object (
      set_field (lower info_hash)
        (object (set_field (codes "addedAt") (whole (pos now)) (pick_fields page_fields label)))
        (load_labels file)))

abbrev pub file_if : Option Fields → Fields → Fields
file_if none entry = entry
file_if (some found) entry = set_field (codes "file") (object found) entry

abbrev pub learned_entry : Fields → ℕ → Fields
learned_entry label now =
    let entry = pick_fields learned_fields label in
    set_field (codes "addedAt") (whole (pos now))
      (file_if (file_record (get_field (codes "file") entry)) (drop_field (codes "file") entry))

abbrev pub is_labelled : Option Json → Bool
is_labelled none = false
is_labelled (some v) = is_truthy v

-- `learn`: whether it has written, and the file
unfoldable pub learn : Text → Fields → ℕ → Option Json → Bool × Option Json
unfolding set_field drop_field pick_fields file_record
learn info_hash label now file =
    let data_ = load_labels file in
    if is_labelled (get_field (lower info_hash) data_) then (false, file) else (
      true,
      some (object (set_field (lower info_hash) (object (learned_entry label now)) data_)),
    )

module _ (same : Option Json → Option Json → Bool) where
  -- `any(stored.get(k) != label.get(k) for k in keys)`
  unfoldable pub differs : List Text → Fields → Fields → Bool
  differs [] stored label = false
  differs (k ∷ keys) stored label =
      not (same (get_field k stored) (get_field k label)) || differs keys stored label

  abbrev pub add_found : Text → Fields → Fields → Option Json → Option Json → Bool × Option Json
  add_found ih found label file (some (object stored)) =
      if is_some (file_record (get_field (codes "file") stored))
        || differs same_video_fields stored label
      then (false, file)
      else (
        true,
        some (
            object (
              set_field ih (object (set_field (codes "file") (object found) stored))
                (load_labels file))),
      )
  add_found ih found label file stored = (false, file)

  abbrev pub add_file_of : Text → Option Fields → Fields → Option Json → Bool × Option Json
  add_file_of ih none label file = (false, file)
  add_file_of ih (some found) label file =
      add_found ih found label file (get_field ih (load_labels file))

  -- `add_file`
  unfoldable pub add_label_file : Text → Fields → Option Json → Bool × Option Json
  unfolding differs get_field set_field file_record
  add_label_file info_hash label file =
      add_file_of (lower info_hash) (file_record (get_field (codes "file") label)) label file

-- `drop`
unfoldable pub drop_label : Text → Option Json → Option Json
unfolding drop_field get_field
drop_label info_hash file =
    let data_ = load_labels file in
    elim (get_field (lower info_hash) data_) [
      | none ↦ file
      | some null ↦ file
      | some v ↦ some (object (drop_field (lower info_hash) data_))
    ]
