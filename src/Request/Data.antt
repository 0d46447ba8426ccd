-- ===== src/Request/Data.antt =====
-- Context.Data: the parser of the content type, and then the rules in the tags of the fields.
use gin_t.Common.{ℕ, ◌≡◌, refl, Option, Option-cases, inl, inr, none, some, List, length}
use gin_t.Text.{Bytes}
use gin_t.Outcome.{Outcome, ok, panic, nil_dereference}
use gin_t.Blueprint.Store.{BluePrint, Store, parsers, validator}
use gin_t.Blueprint.Services.{Lineage, first_of, find_service-Lineage}
use gin_t.Validators.Field.{Platform, Struct, Checked}
use gin_t.Validators.Tags.{Library, validate}
use gin_t.Validators.Run.{rules_of, IsFirst, validate-IsFirst}
use gin_t.Request.{
  Parser, Answer, not_bound, checked, current_blueprint, choose_parser, parsers_or_nil, parse,
  validate_bound, data_into,
}

module _ {E : Type 0} {P : Platform} (rules : ℕ → Library P) (a : Option ℕ) where
  -- What Data answers for a struct that a binder has left, with the validator at `a`.
  pub data IsAnswer : Struct P × Option E → Outcome (Struct P × Answer E) → Type 0 where
    refused : (v : Struct P) (e : E) → IsAnswer (v, some e) (ok (v, not_bound e))
    validated :
        (v : Struct P) (at : ℕ) (r : Checked (Unit {0}))
        → a ≡ some at
        → IsFirst (rules at) v (rules_of v.fields) r
        → IsAnswer (v, none) (ok (v, checked r))
    no_validator : (v : Struct P) → a ≡ none → IsAnswer (v, none) (panic nil_dereference)

-- In a blueprint whose parents lead to a root, Data runs the parser that the content type chooses
-- among those of the nearest ancestor that has parsers. It returns the error of that parser; without
-- one, it runs the rules of the bound struct under the validator of the nearest ancestor that has one,
-- and returns what the first rule that does not pass returns; it panics if no ancestor has a validator.
pub data_into-IsAnswer :
    {H E : Type 0} {P : Platform} (w : Store H) (b : ℕ) (bps : List BluePrint) (blueprints : List ℕ)
    (i : ℕ) (parsers_of : ℕ → List Parser) (rules : ℕ → Library P)
    (binders : Parser → Struct P → Struct P × Option E) (content_type : Bytes) (v : Struct P)
    → Lineage w b bps
    → current_blueprint blueprints i ≡ ok b
    → IsAnswer rules
        (first_of bps validator)
        (binders (choose_parser (parsers_or_nil parsers_of (first_of bps parsers)) content_type) v)
        (data_into (length bps) w blueprints i parsers_of rules binders content_type v)
unfolding data_into parse validate_bound
data_into-IsAnswer {H} {E} {P} w b bps blueprints i parsers_of rules binders content_type v line
      at =
    rw (at, find_service-Lineage parsers line)
      (answered
        (binders (choose_parser (parsers_or_nil parsers_of (first_of bps parsers)) content_type) v))
  where
    answered :
        (bound : Struct P × Option E)
        → IsAnswer rules
            (first_of bps validator)
            bound
            (validate_bound (length bps) w b rules bound)
    answered (v', some e) = refused v' e
    answered (v', none) = elim (Option-cases (first_of bps validator)) [
      | inl nowhere ↦ rw (find_service-Lineage validator line, nowhere) (no_validator v' refl)
      | inr (a, there) ↦
          rw (find_service-Lineage validator line, there)
            (validated v' a (validate (rules a) v') refl (validate-IsFirst (rules a) v'))
    ]
