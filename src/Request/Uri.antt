-- ===== src/Request/Uri.antt =====
-- BindURI of core/context.go: the parameters of a path, through url.Values, to the fields of a struct.
use gin_t.Common.{
  ◌≡◌, refl, sym, ◌∙◌, ap, inl, inr, Bool-cases, Option, none, some, List, [], ◌∷◌, ◌++◌, list_eq,
  if◌then◌else◌, same_key, other_key,
}
use mathlib.Core.List.{append_assoc, append-nil}
use gin_t.Text.{Bytes, codes}
use gin_t.Tree.Lookup.{Param}
use gin_t.Validators.Field.{Platform}
use gin_t.Bind.Slot.{Host, done, Binding, Slot, FormField, find_key}
use gin_t.Bind.Form.{
  pointer, with_rest, with_slot, bind_fields, FormBinder, Flow, go_on, key_of, defaults_of, tags_of,
  bind_field, bind_given, bind_no_value, bind_uri, plain_binder,
}
use gin_t.Request.{UrlValues, add_value, add_params, to_url_values}
use gin_t.Request.Params.{vals_of}
use gin_t.Request.Bound.{bound, bind_uri_into}

-- the values of a key that has some
abbrev some_values : List Bytes → Option (List Bytes)
some_values [] = none
some_values (v ∷ vs) = some (v ∷ vs)

abbrev or_nil : Option (List Bytes) → List Bytes
or_nil none = []
or_nil (some vs) = vs

find_key-add_value :
    (values : UrlValues) (j k v : Bytes)
    → find_key (add_value values j v) k
      ≡ (if list_eq j k then some (or_nil (find_key values k) ++ v ∷ []) else find_key values k)
unfolding find_key add_value
find_key-add_value [] j k v = elim (Bool-cases (list_eq j k)) [
  | inl b ↦ rw b refl
  | inr b ↦ rw b refl
]
find_key-add_value ((i, vs) ∷ values) j k v = elim (Bool-cases (list_eq i j)) [
  | inl b ↦ elim (Bool-cases (list_eq i k)) [
    | inl c ↦ rw (b, c, same_key i j k b, c) refl
    | inr c ↦ rw (b, c, same_key i j k b, c) refl
  ]
  | inr b ↦ elim (Bool-cases (list_eq i k)) [
    | inl c ↦ rw (b, c, other_key i j k b c) refl
    | inr c ↦ rw (b, c) (find_key-add_value values j k v)
  ]
]

abbrev joined : Option (List Bytes) → List Bytes → Option (List Bytes)
joined none vs = some_values vs
joined (some us) vs = some (us ++ vs)

joined-cons :
    (o : Option (List Bytes)) (v : Bytes) (vs : List Bytes)
    → joined (some (or_nil o ++ v ∷ [])) vs ≡ joined o (v ∷ vs)
joined-cons none v vs = refl
joined-cons (some us) v vs = ap some (append_assoc us (v ∷ []) vs)

joined-nil : (o : Option (List Bytes)) → o ≡ joined o []
joined-nil none = refl
joined-nil (some us) = ap some (sym (append-nil us))

find_key-add_params :
    (params : List Param) (values : UrlValues) (k : Bytes)
    → find_key (add_params params values) k ≡ joined (find_key values k) (vals_of params k)
unfolding add_params
find_key-add_params [] values k = joined-nil (find_key values k)
find_key-add_params (p ∷ params) values k =
    find_key-add_params params (add_value values p.key p.val) k
    ∙ elim (Bool-cases (list_eq p.key k)) [
      | inl b ↦
          rw (find_key-add_value values p.key k p.val, b)
            (joined-cons (find_key values k) p.val (vals_of params k))
      | inr b ↦ rw (find_key-add_value values p.key k p.val, b) refl
    ]

find_key-to_url_values :
    (params : List Param) (k : Bytes)
    → find_key (to_url_values params) k ≡ some_values (vals_of params k)
unfolding to_url_values find_key
find_key-to_url_values params k = find_key-add_params params [] k

module _ {P : Platform} (h : Host P) (binder : FormBinder P) where
  -- A field with the values of its key, or as one whose key is missing if there are none.
  abbrev given_or_not : FormField P → List Bytes → List Bytes → Slot P × Flow
  given_or_not field [] defaults = bind_no_value h binder field defaults
  given_or_not field (v ∷ vs) defaults = bind_given h binder field (v ∷ vs) defaults

  some_or_not :
      (field : FormField P) (vs defaults : List Bytes)
      → elim (some_values vs) as (λ _. Slot P × Flow) [
        | none ↦ bind_no_value h binder field defaults
        | some values ↦ bind_given h binder field values defaults
      ]
        ≡ given_or_not field vs defaults
  some_or_not field [] defaults = refl
  some_or_not field (v ∷ vs) defaults = refl

  abbrev field_from : (Bytes → List Bytes) → FormField P → Slot P × Flow
  field_from values field =
      let key = key_of (tags_of binder.tag_name field) in
      if list_eq key (codes "-")
      then (field.slot, go_on)
      else given_or_not field (values key) (defaults_of (tags_of binder.tag_name field))

  abbrev pub fields_from : (Bytes → List Bytes) → List (FormField P) → Binding (List (FormField P))
  fields_from values [] = ([], done)
  fields_from values (field ∷ fields) =
      let (slot, flow) = field_from values field in
      with_rest flow (with_slot field slot) fields (fields_from values fields)

  bind_field-vals_of :
      (params : List Param) (field : FormField P)
      → bind_field h binder (to_url_values params) field ≡ field_from (vals_of params) field
  unfolding bind_field
  bind_field-vals_of params field =
      elim (Bool-cases (list_eq (key_of (tags_of binder.tag_name field)) (codes "-"))) [
        | inl b ↦ rw b refl
        | inr b ↦
            rw (b, find_key-to_url_values params (key_of (tags_of binder.tag_name field)))
              (some_or_not field (vals_of params (key_of (tags_of binder.tag_name field)))
                (defaults_of (tags_of binder.tag_name field)))
      ]

  bind_fields-vals_of :
      (params : List Param) (fields : List (FormField P))
      → bind_fields h binder (to_url_values params) fields ≡ fields_from (vals_of params) fields
  unfolding bind_fields
  bind_fields-vals_of params [] = refl
  bind_fields-vals_of params (field ∷ fields) =
      rw (bind_field-vals_of params field, bind_fields-vals_of params fields) refl

module _ {P : Platform} {E : Type 0} (h : Host P) where
  -- BindURI runs the loop of BindForm over the parameters themselves, with no map between: each field
  -- but one with the key "-" is bound as BindForm binds a field that is given the values of the
  -- parameters that have its key, all of them, in their order, or as one whose key is missing if
  -- there are none; where the loop goes on and where it stops is as in BindForm.
  pub bind_uri_into-vals_of :
      (params : List Param) (fields : List (FormField P))
      → bind_uri_into {E = E} h params (pointer fields) ≡ (
          let (fields', status) =
            fields_from h (plain_binder h (codes "url")) (vals_of params) fields in
          (pointer fields', bound status))
  unfolding bind_uri_into bind_uri bind_fields
  bind_uri_into-vals_of params fields =
      rw (bind_fields-vals_of h (plain_binder h (codes "url")) params fields) refl
