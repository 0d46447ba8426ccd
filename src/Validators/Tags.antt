-- ===== src/Validators/Tags.antt =====
-- ValidatorLibrary.Validate and RegisterValidator of core/validators/validate.go: the rules in the
-- tags of a struct's fields, in the order of the fields and of the tag.
use gin_t.Common.{
  ℕ, ◌+◌, Bool, ◌&&◌, ◌||◌, Option, none, some, List, [], ◌∷◌, ◌++◌, leb, ◌==◌, length, drop,
  list_eq, if◌then◌else◌,
}
use gin_t.Text.{Bytes, split_on, trim_space}
use gin_t.Validators.Field.{
  Platform, Field, Struct, Param, Checked, fine, err, crash, ◌>>=◌, ◌>>◌, syntax_error,
  unexpected_param, no_validator, validation,
}
use gin_t.Validators.Rules.{Rule}

-- \w
abbrev is_word : ℕ → Bool
is_word c =
    (leb b'0' c && leb c b'9')
    || (leb b'A' c && leb c b'Z')
    || (c == b'_')
    || (leb b'a' c && leb c b'z')

-- What `.*\)` takes: the text up to the last ')' in front of the end of the line.
unfoldable up_to_last : Bytes → Option Bytes
up_to_last [] = none
up_to_last (c ∷ s) =
    let rest = up_to_last s in
    if c == 10
    then none
    else elim rest [ some t ↦ some (c ∷ t) | none ↦ if c == b')' then some [] else none ]

-- The first match of `(\w+)\((.*)\)`; `word` is the run of word bytes in front of the text.
unfoldable match_rule : Bytes → Bytes → Option (Bytes × Bytes)
unfolding up_to_last
match_rule word [] = none
match_rule word (c ∷ s) =
    let longer = match_rule (word ++ c ∷ []) s in
    let next = match_rule [] s in
    if is_word c then longer else elim word [
      | [] ↦ next
      | d ∷ w ↦
          if c == b'('
          then elim (up_to_last s) [ some params ↦ some (d ∷ w, params) | none ↦ next ]
          else next
    ]

-- At most two parameters: the second one is all the text behind the first comma.
unfoldable two_params : Bytes → List Bytes
two_params s = elim (split_on b',' s) [
  | first ∷ second ∷ third ∷ more ↦ first ∷ drop (length first + 1) s ∷ []
  | pieces ↦ pieces
]

abbrev is_message : Bytes → Bool
is_message key =
    list_eq key (b'm' ∷ []) || list_eq key (b'm' ∷ b'e' ∷ b's' ∷ b's' ∷ b'a' ∷ b'g' ∷ b'e' ∷ [])

abbrev is_value : Bytes → Bool
is_value key = list_eq key (b'v' ∷ []) || list_eq key (b'v' ∷ b'a' ∷ b'l' ∷ b'u' ∷ b'e' ∷ [])

-- one round of the loop over the parameters
unfoldable read_param : Bytes → Param → Checked Param
read_param item param = elim (split_on b'=' item) [
  | key ∷ val ∷ [] ↦
      if is_message key
      then fine (record param { message = val })
      else if is_value key
      then fine (record param { value = val })
      else err (unexpected_param key)
  | _ ↦ err (syntax_error item)
]

unfoldable read_params : List Bytes → Param → Checked Param
unfolding read_param
read_params [] param = fine param
read_params (item ∷ items) param = do
  next ← read_param (trim_space item) param
  read_params items next

abbrev pub Library : Platform → Type 0
Library P = List (Bytes × Rule P)

-- "return NewValidationError(err, t.Field(i).Name, key)"
unfoldable located : Bytes → Bytes → Checked (Unit {0}) → Checked (Unit {0})
located name key (fine u) = fine u
located name key (err e) = err (validation e name key)
located name key crash = crash

module _ {P : Platform} where
  unfoldable pub find_rule : Library P → Bytes → Option (Rule P)
  find_rule [] key = none
  find_rule ((name, rule) ∷ rules) key = if list_eq name key then some rule else find_rule rules key

  -- RegisterValidator; an error is none.
  unfoldable pub register_validator : Bytes → Rule P → Library P → Option (Library P)
  unfolding find_rule
  register_validator key rule rules = elim (find_rule rules key) [
    | some r ↦ none
    | none ↦ some ((key, rule) ∷ rules)
  ]

  -- one rule of a tag; a text that is no rule is passed over
  unfoldable pub run_rule : Library P → Struct P → Field P → Bytes → Checked (Unit {0})
  unfolding match_rule find_rule two_params read_params located
  run_rule rules owner field source = elim (match_rule [] source) [
    | none ↦ fine tt
    | some (key, params) ↦ elim (find_rule rules key) [
      | none ↦ err (no_validator key)
      | some rule ↦ do
        param ← read_params (two_params params) (record { message = []; value = [] })
        located field.name key (rule owner field param)
    ]
  ]

  -- the loop over the rules of a tag
  unfoldable pub run_tag : Library P → Struct P → Field P → List Bytes → Checked (Unit {0})
  run_tag rules owner field [] = fine tt
  run_tag rules owner field (source ∷ sources) = do
    run_rule rules owner field source
    run_tag rules owner field sources

  -- the loop over the fields
  unfoldable pub run_fields : Library P → Struct P → List (Field P) → Checked (Unit {0})
  unfolding run_tag
  run_fields rules owner [] = fine tt
  run_fields rules owner (field ∷ fields) = elim field.tag [
    | none ↦ run_fields rules owner fields
    | some tags ↦ do run_tag rules owner field (split_on b';' tags); run_fields rules owner fields
  ]

  unfoldable pub validate : Library P → Struct P → Checked (Unit {0})
  unfolding run_fields
  validate rules value = run_fields rules value value.fields
