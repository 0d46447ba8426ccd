-- ===== src/Validators/Run.antt =====
-- The order in which Validate runs the rules of a struct.
use gin_t.Common.{
  ◌≡◌, ◌≢◌, inl, inr, refl, ◌∙◌, Option-cases, ap, none, some, List, [], ◌∷◌, ◌++◌, map,
}
use gin_t.Text.{Bytes, split_on}
use gin_t.Validators.Field.{Platform, Field, Struct, Checked, fine, err, crash, ◌>>◌}
use gin_t.Validators.Tags.{Library, run_rule, run_tag, run_fields, validate}

module _ {P : Platform} where
  -- The rules of a struct: the parts of the fields' tags, in order, each with its field.
  abbrev pub rules_of : List (Field P) → List (Field P × Bytes)
  rules_of [] = []
  rules_of (f ∷ fields) = elim f.tag [
    | none ↦ rules_of fields
    | some tags ↦ map (λ source. (f, source)) (split_on b';' tags) ++ rules_of fields
  ]

  abbrev run_each : Library P → Struct P → List (Field P × Bytes) → Checked (Unit {0})
  run_each rules owner [] = fine tt
  run_each rules owner ((f, source) ∷ more) = do
    run_rule rules owner f source
    run_each rules owner more

  abbrev AllPass : Library P → Struct P → List (Field P × Bytes) → Type 0
  AllPass rules owner [] = Unit
  AllPass rules owner ((f, source) ∷ more) =
      (run_rule rules owner f source ≡ fine tt) × AllPass rules owner more

  run_tag-append :
      (rules : Library P) (owner : Struct P) (f : Field P) (sources : List Bytes)
      (more : List (Field P × Bytes))
      → (run_tag rules owner f sources >> run_each rules owner more)
        ≡ run_each rules owner (map (λ source. (f, source)) sources ++ more)
  unfolding run_tag
  run_tag-append rules owner f [] more = refl
  run_tag-append rules owner f (source ∷ sources) more =
      assoc (run_rule rules owner f source) (run_tag rules owner f sources)
        (run_each rules owner more)
      ∙ ap (λ x. run_rule rules owner f source >> x) (run_tag-append rules owner f sources more)
    where
      assoc : (x y z : Checked (Unit {0})) → ((x >> y) >> z) ≡ (x >> (y >> z))
      assoc crash y z = refl
      assoc (err e) y z = refl
      assoc (fine u) y z = refl

  run_fields-run_each :
      (rules : Library P) (owner : Struct P) (fields : List (Field P))
      → run_fields rules owner fields ≡ run_each rules owner (rules_of fields)
  unfolding run_fields
  run_fields-run_each rules owner [] = refl
  run_fields-run_each rules owner (f ∷ fields) =
      let rest = run_fields-run_each rules owner fields in
      elim (Option-cases f.tag) [
        | inl untagged ↦ rw untagged rest
        | inr (tags, tagged) ↦
            rw (tagged, rest) (run_tag-append rules owner f (split_on b';' tags) (rules_of fields))
      ]

  -- Validate runs rules up to the first one that does not pass.
  pub data IsFirst (rules : Library P) (owner : Struct P) (all : List (Field P × Bytes))
      (result : Checked (Unit {0})) : Type 0 where
    all_pass : AllPass rules owner all → result ≡ fine tt → IsFirst rules owner all result
    stopped :
        (before : List (Field P × Bytes)) (f : Field P) (source : Bytes)
        (after : List (Field P × Bytes))
        → all ≡ before ++ (f, source) ∷ after
        → AllPass rules owner before
        → run_rule rules owner f source ≡ result
        → result ≢ fine tt
        → IsFirst rules owner all result

  run_each-IsFirst :
      (rules : Library P) (owner : Struct P) (all : List (Field P × Bytes))
      → IsFirst rules owner all (run_each rules owner all)
  run_each-IsFirst rules owner [] = all_pass tt refl
  run_each-IsFirst rules owner ((f, source) ∷ more) =
      on (run_rule rules owner f source) refl (run_each-IsFirst rules owner more)
    where
      on :
          (x : Checked (Unit {0}))
          → run_rule rules owner f source ≡ x
          → IsFirst rules owner more (run_each rules owner more)
          → IsFirst rules owner ((f, source) ∷ more) (x >> run_each rules owner more)
      on crash e first = stopped [] f source more refl tt e (λ h. cc)
      on (err c) e first = stopped [] f source more refl tt e (λ h. cc)
      on (fine u) e (all_pass all h) = all_pass (e, all) h
      on (fine u) e (stopped before f' source' after split all run ne) =
          stopped ((f, source) ∷ before) f' source' after (ap (λ x. (f, source) ∷ x) split) (e, all)
            run ne

  -- Validate passes exactly if every rule in the tags of the fields does, in the order of the fields
  -- and of each tag; otherwise it returns what the first rule that does not pass returns.
  pub validate-IsFirst :
      (rules : Library P) (value : Struct P)
      → IsFirst rules value (rules_of value.fields) (validate rules value)
  unfolding validate
  validate-IsFirst rules value =
      rw (run_fields-run_each rules value value.fields)
        (run_each-IsFirst rules value (rules_of value.fields))
