-- ===== src/Bind/Multipart.antt =====
-- HttpMultipartFormBinder of core/bind/from.go, and MultipartFormBodyBinder.
use gin_t.Common.{Bool, false, Option, none, some, List, [], ◌∷◌, list_eq, if◌then◌else◌}
use gin_t.Text.{Bytes, codes}
use gin_t.Validators.Field.{Platform, other}
use gin_t.Bind.Slot.{
  Host, Slot, scalar, slice, nil_form, pointer_required, Status, done, crashed, failed, Binding,
  find_key, FormField,
}
use gin_t.Bind.Single.{bind}
use gin_t.Bind.File.{Files, bind_file}
use gin_t.Bind.Form.{
  Values, FormBinder, Target, pointer, no_pointer, key_of, defaults_of, tags_of, Flow, go_on, stop,
  with_slot, flow_of, on_done, with_rest, plain_binder,
}

-- multipart.Form
pub record MultipartForm (P : Platform) : Type 0 where
  pub values : Values
  pub files : List (Bytes × Files P)

-- the type switch
abbrev takes_files : {P : Platform} → Host P → Slot P → Bool
takes_files h (scalar (other o)) = h.is_file o
takes_files h (slice (other o) values) = h.is_file o
takes_files h slot = false

module _ {P : Platform} (h : Host P) where
  -- A value that does not fit is dropped without an error if there are no defaults.
  unfoldable try_default_leniently : Slot P → List Bytes → Status → Slot P × Flow
  try_default_leniently bound defaults done = (bound, go_on)
  try_default_leniently bound defaults crashed = (bound, stop crashed)
  try_default_leniently bound [] (failed e) = (bound, go_on)
  try_default_leniently bound (d ∷ ds) (failed e) =
      let (again, status) = bind h bound (d ∷ ds) in (again, flow_of status)

  unfoldable bind_lenient : Slot P → List Bytes → List Bytes → Slot P × Flow
  unfolding try_default_leniently
  bind_lenient slot values defaults =
      let (bound, status) = bind h slot values in try_default_leniently bound defaults status

  -- A bind tag without a method leaves the field alone.
  unfoldable bind_present : FormBinder P → FormField P → List Bytes → List Bytes → Slot P × Flow
  unfolding bind_lenient
  bind_present binder field values defaults = elim (find_key field.tags binder.bind_tag_name) [
    | none ↦ bind_lenient field.slot values defaults
    | some name ↦ elim (find_key binder.bind_methods name) [
      | none ↦ (field.slot, go_on)
      | some method ↦ let (bound, status) = method field.slot values in (bound, flow_of status)
    ]
  ]

  -- The key of the files is the field's name if there is a file tag, and empty if there is none.
  abbrev files_key : Bytes → FormField P → Bytes
  files_key field_tag field = elim (find_key field.tags field_tag) [
    | none ↦ []
    | some tag ↦ field.name
  ]

  unfoldable bind_field_files : Bytes → MultipartForm P → FormField P → Slot P → Slot P × Flow
  bind_field_files field_tag form field slot =
      if takes_files h slot
      then (if list_eq (files_key field_tag field) (codes "-")
          then (slot, go_on)
          else elim (find_key form.files (files_key field_tag field)) [
            | none ↦ (slot, go_on)
            | some files ↦ let (bound, status) = bind_file h slot files in (bound, flow_of status)
          ])
      else (slot, go_on)

  -- no value in the form
  unfoldable bind_absent : Bytes → MultipartForm P → FormField P → List Bytes → Slot P × Flow
  unfolding bind_field_files
  bind_absent field_tag form field [] = bind_field_files field_tag form field field.slot
  bind_absent field_tag form field (d ∷ ds) =
      let (bound, status) = bind h field.slot (d ∷ ds) in
      on_done status bound (bind_field_files field_tag form field bound)

  unfoldable pub bind_multipart_field :
      FormBinder P → Bytes → MultipartForm P → FormField P → Slot P × Flow
  unfolding bind_present bind_absent tags_of
  bind_multipart_field binder field_tag form field =
      let key = key_of (tags_of binder.tag_name field) in
      let defaults = defaults_of (tags_of binder.tag_name field) in
      if list_eq key (codes "-") then (field.slot, go_on) else elim (find_key form.values key) [
        | some values ↦ bind_present binder field values defaults
        | none ↦ bind_absent field_tag form field defaults
      ]

  unfoldable bind_multipart_fields :
      FormBinder P → Bytes → MultipartForm P → List (FormField P) → Binding (List (FormField P))
  bind_multipart_fields binder field_tag form [] = ([], done)
  bind_multipart_fields binder field_tag form (field ∷ fields) =
      let (slot, flow) = bind_multipart_field binder field_tag form field in
      with_rest flow (with_slot field slot) fields
        (bind_multipart_fields binder field_tag form fields)

  unfoldable bind_multipart_form :
      FormBinder P → Bytes → Option (MultipartForm P) → Target P → Binding (Target P)
  unfolding bind_multipart_fields
  bind_multipart_form binder field_tag none v = (v, failed nil_form)
  bind_multipart_form binder field_tag (some form) no_pointer =
      (no_pointer, failed pointer_required)
  bind_multipart_form binder field_tag (some form) (pointer fields) =
      let (fields', status) = bind_multipart_fields binder field_tag form fields in
      (pointer fields', status)

  -- MultipartFormBodyBinder
  unfoldable pub bind_multipart_body : Option (MultipartForm P) → Target P → Binding (Target P)
  unfolding bind_multipart_form
  bind_multipart_body form v =
      bind_multipart_form (plain_binder h (codes "form")) (codes "file") form v
