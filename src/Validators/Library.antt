-- ===== src/Validators/Library.antt =====
-- The rules that `init` of core/validators/validate.go registers.
use gin_t.Common.{
  none, some, List, [], ◌∷◌, list_eq, list_eq_iff, list_eq_refl, ◌≡◌, ◌≢◌, Bool-cases, Option-cases,
  inl, inr, ◌⊎◌, sym,
}
use gin_t.Text.{Bytes, codes}
use gin_t.Validators.Field.{Platform}
use gin_t.Validators.Rules.{
  Rule, between, contains, date_format, email, equal, greater_equal, greater_than, lower_equal,
  lower_than, max_length, method, min_length, not_between, not_contains, not_equal, phone, regexp,
  required, round, url, uuid,
}
use gin_t.Validators.Fields.{
  equal_field, great_equal_field, great_than_field, lower_equal_field, lower_than_field,
  not_equal_field,
}
use gin_t.Validators.Tags.{Library, find_rule, register_validator}

module _ {P : Platform} where
  abbrev built_in : List (Bytes × Rule P)
  built_in =
      (codes "required", required)
      ∷ (codes "max_length", max_length)
      ∷ (codes "min_length", min_length)
      ∷ (codes "gt", greater_than)
      ∷ (codes "lt", lower_than)
      ∷ (codes "ge", greater_equal)
      ∷ (codes "le", lower_equal)
      ∷ (codes "equal", equal)
      ∷ (codes "eq", equal)
      ∷ (codes "equal_field", equal_field)
      ∷ (codes "ef", equal_field)
      ∷ (codes "method", method)
      ∷ (codes "regexp", regexp)
      ∷ (codes "email", email)
      ∷ (codes "uuid", uuid)
      ∷ (codes "phone", phone)
      ∷ (codes "between", between)
      ∷ (codes "not_between", not_between)
      ∷ (codes "not_equal", not_equal)
      ∷ (codes "ne", not_equal)
      ∷ (codes "not_equal_field", not_equal_field)
      ∷ (codes "nef", not_equal_field)
      ∷ (codes "url", url)
      ∷ (codes "contains", contains)
      ∷ (codes "not_contains", not_contains)
      ∷ (codes "date_format", date_format)
      ∷ (codes "great_than_field", great_than_field)
      ∷ (codes "gtf", great_than_field)
      ∷ (codes "lower_than_field", lower_than_field)
      ∷ (codes "ltf", lower_than_field)
      ∷ (codes "great_equal_field", great_equal_field)
      ∷ (codes "gef", great_equal_field)
      ∷ (codes "lower_equal_field", lower_equal_field)
      ∷ (codes "lef", lower_equal_field)
      ∷ (codes "round", round)
      ∷ []

  -- The error of a name that is taken is dropped.
  unfoldable register_all : List (Bytes × Rule P) → Library P → Library P
  unfolding register_validator
  register_all [] rules = rules
  register_all ((key, rule) ∷ more) rules = elim (register_validator key rule rules) [
    | some grown ↦ register_all more grown
    | none ↦ register_all more rules
  ]

-- validatorLibrary behind `init`
unfoldable pub library : (P : Platform) → Library P
unfolding register_all
library P = register_all built_in []

-- What a registration does to a lookup.
pub record IsRegistered {P : Platform} (key : Bytes) (rule : Rule P) (rules rules' : Library P)
    : Type 0 where
  pub found : find_rule rules' key ≡ some rule
  pub others : (k : Bytes) → k ≢ key → find_rule rules' k ≡ find_rule rules k

module _ {P : Platform} where
  IsRegistered-cons :
      (key : Bytes) (rule : Rule P) (rules : Library P)
      → IsRegistered key rule rules ((key, rule) ∷ rules)
  unfolding find_rule
  IsRegistered-cons key rule rules = record {
    found = rw (list_eq_refl key);
    others = λ k ne. elim (Bool-cases (list_eq key k)) [
      | inl b ↦ absurd (ne (sym ((list_eq_iff key k).0 b)))
      | inr b ↦ rw b
    ];
  }

  -- RegisterValidator of a name that is taken is an error. Otherwise it succeeds, and the library
  -- finds the rule under the name and every other name as before.
  register_validator-find_rule :
      (key : Bytes) (rule : Rule P) (rules : Library P)
      → ((r : Rule P) × (find_rule rules key ≡ some r) × (register_validator key rule rules ≡ none))
        ⊎ ((rules' : Library P) × (find_rule rules key ≡ none)
            × (register_validator key rule rules ≡ some rules')
            × IsRegistered key rule rules rules')
  unfolding register_validator
  register_validator-find_rule key rule rules = elim (Option-cases (find_rule rules key)) [
    | inl free ↦
        inr (
          (key, rule) ∷ rules,
          free,
          rw (free, register_validator),
          IsRegistered-cons key rule rules,
        )
    | inr (r, taken) ↦ inl (r, taken, rw (taken, register_validator))
  ]
