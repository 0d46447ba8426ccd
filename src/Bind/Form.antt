-- ===== src/Bind/Form.antt =====
-- URLValueBinder of core/bind/from.go, and the binders of core/bind/binder.go that use it.
use gin_t.Common.{Option, none, some, List, [], ◌∷◌, list_eq, if◌then◌else◌}
use gin_t.Text.{Bytes, split_on, codes}
use gin_t.Validators.Field.{Platform}
use gin_t.Bind.Slot.{
  Host, Slot, no_bind_method, pointer_required, Status, done, crashed, failed, Binding, find_key,
  FormField, BindMethod,
}
use gin_t.Bind.Single.{bind}

-- url.Values
abbrev pub Values : Type 0
Values = List (Bytes × List Bytes)

pub record FormBinder (P : Platform) : Type 0 where
  pub tag_name : Bytes
  pub bind_tag_name : Bytes
  pub bind_methods : List (Bytes × BindMethod P)

-- What `v` is: a pointer to a struct with these fields, or no pointer.
pub data Target (P : Platform) : Type 0 where
  pointer : List (FormField P) → Target P
  no_pointer : Target P

abbrev or_name : Option Bytes → Bytes → Bytes
or_name none name = name
or_name (some tag) name = tag

-- the key in the form, and the default values, of a tag
abbrev pub key_of : List Bytes → Bytes
key_of [] = []
key_of (key ∷ defaults) = key

abbrev pub defaults_of : List Bytes → List Bytes
defaults_of [] = []
defaults_of (key ∷ defaults) = defaults

unfoldable pub tags_of : {P : Platform} → Bytes → FormField P → List Bytes
tags_of tag_name field = split_on b',' (or_name (find_key field.tags tag_name) field.name)

abbrev values_or_nil : Option (List Bytes) → List Bytes
values_or_nil none = []
values_or_nil (some values) = values

-- Whether the loop over the fields goes on, or BindForm returns.
pub data Flow : Type 0 where
  go_on : Flow
  stop : Status → Flow

abbrev pub with_slot : {P : Platform} → FormField P → Slot P → FormField P
with_slot field slot = record field { slot = slot }

-- "if err != nil { return err }" at the end of a round, and further up in it
abbrev pub flow_of : Status → Flow
flow_of done = go_on
flow_of crashed = stop crashed
flow_of (failed e) = stop (failed e)

abbrev pub on_done {ℓ} : {A : Type ℓ} → Status → A → A × Flow → A × Flow
on_done done a next = next
on_done crashed a next = (a, stop crashed)
on_done (failed e) a next = (a, stop (failed e))

-- the fields behind the first one, if the loop goes on
abbrev pub with_rest {ℓ} : {A : Type ℓ} → Flow → A → List A → Binding (List A) → Binding (List A)
with_rest go_on a rest (rest', status) = (a ∷ rest', status)
with_rest (stop status) a rest result = (a ∷ rest, status)

module _ {P : Platform} (h : Host P) where
  -- Behind an error the defaults are tried, and BindForm returns what they return.
  unfoldable pub try_default : Slot P → List Bytes → Status → Slot P × Flow
  try_default bound defaults done = (bound, go_on)
  try_default bound defaults crashed = (bound, stop crashed)
  try_default bound [] (failed e) = (bound, stop (failed e))
  try_default bound (d ∷ ds) (failed e) =
      let (again, status) = bind h bound (d ∷ ds) in (again, stop status)

  unfoldable pub bind_or_default : Slot P → List Bytes → List Bytes → Slot P × Flow
  unfolding try_default
  bind_or_default slot values defaults =
      let (bound, status) = bind h slot values in try_default bound defaults status

  -- a value in the form, or no defaults
  unfoldable pub bind_given : FormBinder P → FormField P → List Bytes → List Bytes → Slot P × Flow
  unfolding bind_or_default
  bind_given binder field values defaults = elim (find_key field.tags binder.bind_tag_name) [
    | none ↦ bind_or_default field.slot values defaults
    | some name ↦ elim (find_key binder.bind_methods name) [
      | none ↦ (field.slot, stop (failed (no_bind_method name)))
      | some method ↦ let (bound, status) = method field.slot values in (bound, flow_of status)
    ]
  ]

  -- no value in the form: the defaults, and then the missing values
  unfoldable pub bind_missing : Slot P → List Bytes → Slot P × Flow
  unfolding bind_or_default
  bind_missing slot defaults =
      let (bound, status) = bind h slot defaults in
      on_done status bound (bind_or_default bound [] defaults)

  unfoldable pub bind_no_value : FormBinder P → FormField P → List Bytes → Slot P × Flow
  unfolding bind_given bind_missing
  bind_no_value binder field [] = bind_given binder field [] []
  bind_no_value binder field (d ∷ ds) = bind_missing field.slot (d ∷ ds)

  -- one round of the loop of BindForm
  unfoldable pub bind_field : FormBinder P → Values → FormField P → Slot P × Flow
  unfolding bind_given bind_no_value tags_of
  bind_field binder form field =
      let key = key_of (tags_of binder.tag_name field) in
      let defaults = defaults_of (tags_of binder.tag_name field) in
      if list_eq key (codes "-") then (field.slot, go_on) else elim (find_key form key) [
        | some values ↦ bind_given binder field values defaults
        | none ↦ bind_no_value binder field defaults
      ]

  unfoldable pub bind_fields :
      FormBinder P → Values → List (FormField P) → Binding (List (FormField P))
  bind_fields binder form [] = ([], done)
  bind_fields binder form (field ∷ fields) =
      let (slot, flow) = bind_field binder form field in
      with_rest flow (with_slot field slot) fields (bind_fields binder form fields)

  unfoldable bind_form : FormBinder P → Values → Target P → Binding (Target P)
  unfolding bind_fields
  bind_form binder form no_pointer = (no_pointer, failed pointer_required)
  bind_form binder form (pointer fields) =
      let (fields', status) = bind_fields binder form fields in (pointer fields', status)

  -- QueryBinder, FormBinder, HeaderBinder and URIBinder
  abbrev pub plain_binder : Bytes → FormBinder P
  plain_binder tag_name = record {
    tag_name = tag_name;
    bind_tag_name = codes "bind";
    bind_methods = [];
  }

  unfoldable pub bind_query : Values → Target P → Binding (Target P)
  unfolding bind_form
  bind_query query v = bind_form (plain_binder (codes "form")) query v

  unfoldable pub bind_form_body : Values → Target P → Binding (Target P)
  unfolding bind_form
  bind_form_body form v = bind_form (plain_binder (codes "form")) form v

  unfoldable pub bind_header : Values → Target P → Binding (Target P)
  unfolding bind_form
  bind_header headers v = bind_form (plain_binder (codes "header")) headers v

  unfoldable pub bind_uri : Values → Target P → Binding (Target P)
  unfolding bind_form
  bind_uri params v = bind_form (plain_binder (codes "url")) params v

-- AddBindMethod; an error is none.
unfoldable add_bind_method :
    {P : Platform} → Bytes → BindMethod P → FormBinder P → Option (FormBinder P)
add_bind_method name method binder = elim (find_key binder.bind_methods name) [
  | some taken ↦ none
  | none ↦ some (record binder { bind_methods = (name, method) ∷ binder.bind_methods })
]
