-- ===== src/Bind/Runs.antt =====
-- The loop of BindForm in core/bind/from.go: how far it goes, and where it ends without an error.
use gin_t.Common.{
  ◌≡◌, ◌≢◌, refl, ap, ◌∙◌, ◌⊎◌, Bool-cases, Option-cases, inl, inr, Option, none, some, List, [],
  ◌∷◌, ◌++◌, map, list_eq,
}
use mathlib.Core.Path.{subst}
use gin_t.Text.{Bytes, codes}
use gin_t.Validators.Field.{Platform}
use gin_t.Bind.Slot.{
  Host, Slot, BindError, Status, done, crashed, failed, Binding, FormField, find_key,
}
use gin_t.Bind.Single.{bind}
use gin_t.Bind.Form.{
  Values, FormBinder, Flow, go_on, stop, with_slot, with_rest, flow_of, on_done, try_default,
  bind_or_default, bind_given, bind_missing, bind_no_value, bind_field, bind_fields, tags_of,
  key_of, defaults_of,
}

module _ {P : Platform} (h : Host P) where
  abbrev texts_of : Option (List Bytes) → List Bytes
  texts_of none = []
  texts_of (some values) = values

  -- These texts did not fit, and these defaults did.
  pub record FellBack (values defaults : List Bytes) (again : Slot P) : Type 0 where
    pub begun : Slot P
    pub bound : Slot P
    pub error : BindError
    pub unfit : bind h begun values ≡ (bound, failed error)
    pub some_defaults : defaults ≢ []
    pub fits : bind h bound defaults ≡ (again, done)

  try_default-FellBack :
      (begun : Slot P) (values defaults : List Bytes) (again : Slot P) (r : Binding (Slot P))
      → bind h begun values ≡ r
      → try_default h r.0 defaults r.1 ≡ (again, stop done)
      → FellBack values defaults again
  unfolding try_default
  try_default-FellBack begun values defaults again (bound, done) e s = cc (ap (λ x. x.1) s)
  try_default-FellBack begun values defaults again (bound, crashed) e s = cc (ap (λ x. x.1) s)
  try_default-FellBack begun values [] again (bound, failed x) e s = cc (ap (λ x. x.1) s)
  try_default-FellBack begun values (d ∷ ds) again (bound, failed x) e s = record {
    begun = begun;
    bound = bound;
    error = x;
    unfit = e;
    some_defaults = λ no. cc no;
    fits = same (bind h bound (d ∷ ds)) s;
  }
    where
      same :
          (r : Binding (Slot P))
          → ◌≡◌ {A = Slot P × Flow} (r.0, stop r.1) (again, stop done)
          → r ≡ (again, done)
      same r e = cc e

  bind_or_default-FellBack :
      (begun : Slot P) (values defaults : List Bytes) (again : Slot P)
      → bind_or_default h begun values defaults ≡ (again, stop done)
      → FellBack values defaults again
  unfolding bind_or_default
  bind_or_default-FellBack begun values defaults again s =
      try_default-FellBack begun values defaults again (bind h begun values) refl s

  -- A bind method ends the loop only with an error.
  no_stop :
      (bound again : Slot P) (status : Status)
      → ◌≡◌ {A = Slot P × Flow} (bound, flow_of status) (again, stop done)
      → ⊥
  no_stop bound again done s = cc (ap (λ x. x.1) s)
  no_stop bound again crashed s = cc (ap (λ x. x.1) s)
  no_stop bound again (failed e) s = cc (ap (λ x. x.1) s)

  module _ (binder : FormBinder P) where
    bind_given-FellBack :
        (field : FormField P) (values defaults : List Bytes) (again : Slot P)
        → bind_given h binder field values defaults ≡ (again, stop done)
        → FellBack values defaults again
    unfolding bind_given
    bind_given-FellBack field values defaults again s =
        elim (Option-cases (find_key field.tags binder.bind_tag_name)) [
          | inl e ↦
              bind_or_default-FellBack field.slot values defaults again (rw (bind_given, e) at s)
          | inr (name, e) ↦ elim (Option-cases (find_key binder.bind_methods name)) [
            | inl e' ↦ cc (ap (λ x. x.1) (rw (bind_given, e, e') at s))
            | inr (method, e') ↦ absurd (
                no_stop (method field.slot values).0 again (method field.slot values).1
                  (rw (bind_given, e, e') at s))
          ]
        ]

    on_done-FellBack :
        (bound again : Slot P) (defaults : List Bytes) (status : Status)
        → on_done status bound (bind_or_default h bound [] defaults) ≡ (again, stop done)
        → FellBack [] defaults again
    on_done-FellBack bound again defaults done s =
        bind_or_default-FellBack bound [] defaults again s
    on_done-FellBack bound again defaults crashed s = cc (ap (λ x. x.1) s)
    on_done-FellBack bound again defaults (failed e) s = cc (ap (λ x. x.1) s)

    bind_no_value-FellBack :
        (field : FormField P) (defaults : List Bytes) (again : Slot P)
        → bind_no_value h binder field defaults ≡ (again, stop done)
        → FellBack [] defaults again
    unfolding bind_no_value bind_missing
    bind_no_value-FellBack field [] again s = bind_given-FellBack field [] [] again s
    bind_no_value-FellBack field (d ∷ ds) again s =
        on_done-FellBack (bind h field.slot (d ∷ ds)).0 again (d ∷ ds)
          (bind h field.slot (d ∷ ds)).1 s

    bind_field-FellBack :
        (form : Values) (field : FormField P) (again : Slot P)
        → bind_field h binder form field ≡ (again, stop done)
        → FellBack
            (texts_of (find_key form (key_of (tags_of binder.tag_name field))))
            (defaults_of (tags_of binder.tag_name field))
            again
    unfolding bind_field
    bind_field-FellBack form field again s =
        let key = key_of (tags_of binder.tag_name field) in
        let defaults = defaults_of (tags_of binder.tag_name field) in
        elim (Bool-cases (list_eq key (codes "-"))) [
          | inl b ↦ cc (ap (λ x. x.1) (rw b at s))
          | inr b ↦ elim (Option-cases (find_key form key)) [
            | inl e ↦ rw e (bind_no_value-FellBack field defaults again (rw (b, e) at s))
            | inr (values, e) ↦
                rw e (bind_given-FellBack field values defaults again (rw (b, e) at s))
          ]
        ]

    -- the field as one round leaves it
    abbrev pub bound_field : Values → FormField P → FormField P
    bound_field form field = with_slot field (bind_field h binder form field).0

    abbrev pub AllGoOn : Values → List (FormField P) → Type 0
    AllGoOn form [] = Unit
    AllGoOn form (field ∷ fields) =
        ((bind_field h binder form field).1 ≡ go_on) × AllGoOn form fields

    -- The loop ends at this field, with this status.
    pub record EndsAt (form : Values) (before : List (FormField P)) (field : FormField P)
        (behind fields' : List (FormField P)) (status : Status) : Type 0 where
      pub again : Slot P
      pub stopped : bind_field h binder form field ≡ (again, stop status)
      pub left : fields' ≡ map (bound_field form) before ++ with_slot field again ∷ behind
      pub why :
          status ≡ done
          → FellBack
              (texts_of (find_key form (key_of (tags_of binder.tag_name field))))
              (defaults_of (tags_of binder.tag_name field))
              again

    -- The rounds of the loop: those of the fields before, which go on, and the one that ends it, if
    -- there is one.
    pub record IsRun (form : Values) (fields fields' : List (FormField P)) (status : Status)
        : Type 0 where
      pub before : List (FormField P)
      pub went_on : AllGoOn form before
      pub ended :
          ((fields ≡ before) × (fields' ≡ map (bound_field form) before) × (status ≡ done))
          ⊎ ((field : FormField P) × (behind : List (FormField P)) × (fields
                ≡ before ++ field ∷ behind)
              × EndsAt form before field behind fields' status)

    run_on :
        (form : Values) (field : FormField P) (fields fields' : List (FormField P))
        (status : Status)
        → (bind_field h binder form field).1 ≡ go_on
        → IsRun form fields fields' status
        → IsRun form (field ∷ fields) (bound_field form field ∷ fields') status
    run_on form field fields fields' status on r = record {
      before = field ∷ r.before;
      went_on = (on, r.went_on);
      ended = elim r.ended [
        | inl (all, left, fine) ↦
            inl (ap (◌∷◌ field) all, ap (◌∷◌ (bound_field form field)) left, fine)
        | inr (last, behind, all, x) ↦ inr (
          last,
          behind,
          ap (◌∷◌ field) all,
          record {
            again = x.again;
            stopped = x.stopped;
            left = ap (◌∷◌ (bound_field form field)) x.left;
            why = x.why;
          },
        )
      ];
    }

    -- one round, by what it returns
    round :
        (form : Values) (field : FormField P) (fields : List (FormField P)) (x : Slot P × Flow)
        (rest : Binding (List (FormField P)))
        → bind_field h binder form field ≡ x
        → IsRun form fields rest.0 rest.1
        → IsRun form
            (field ∷ fields)
            (with_rest x.1 (with_slot field x.0) fields rest).0
            (with_rest x.1 (with_slot field x.0) fields rest).1
    round form field fields (slot, go_on) (fields', status) e r =
        let same : bound_field form field ≡ with_slot field slot =
          ap (λ y. with_slot field y.0) e in
        subst (λ f. IsRun form (field ∷ fields) (f ∷ fields') status) same
          (run_on form field fields fields' status (ap (λ y. y.1) e) r)
    round form field fields (slot, stop status) rest e r = record {
      before = [];
      went_on = tt;
      ended = inr (
        field,
        fields,
        refl,
        record {
          again = slot;
          stopped = e;
          left = refl;
          why = λ fine. bind_field-FellBack form field slot (e ∙ ap (λ t. (slot, stop t)) fine);
        },
      );
    }

    -- BindForm binds the fields in their order. Either each round goes on and there is no error, or one
    -- round ends the loop with the status that BindForm has: the fields before are bound, those behind
    -- are as they were. If it ends so without an error, what the form has for the field's key (or the
    -- missing value) did not fit, and the field's defaults, of which there are some, did.
    pub bind_fields-IsRun :
        (form : Values) (fields : List (FormField P))
        → IsRun form fields
            (bind_fields h binder form fields).0
            (bind_fields h binder form fields).1
    unfolding bind_fields
    bind_fields-IsRun form [] = record { before = []; went_on = tt; ended = inl (refl, refl, refl) }
    bind_fields-IsRun form (field ∷ fields) =
        round form field fields (bind_field h binder form field) (bind_fields h binder form fields)
          refl (bind_fields-IsRun form fields)
