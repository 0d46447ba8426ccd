-- ===== src/Validators/Fields.antt =====
-- The rules of core/validators/validate.go that compare two fields of a struct.
use gin_t.Common.{ℕ, Bool, not, none, some, ℤ, ltz, lez, ltb, leb, if◌then◌else◌}
use gin_t.Validators.Field.{
  Platform, Value, signed, unsigned, floating, Param, Checked, err, ◌>>◌, fail_if, need_message,
  need_value, no_field, different_kind, unsupported_type, message_required, is_empty, field_by_name,
  deep_equal, same_kind,
}
use gin_t.Validators.Compare.{listed}
use gin_t.Validators.Rules.{Rule, require, refuse}

module _ {P : Platform} where
  unfoldable pub equal_field : Rule P
  equal_field owner field param = do
    need_message param
    need_value param
    elim (field_by_name owner.fields param.value) [
      | none ↦ err (no_field param.value)
      | some f ↦ require (deep_equal field.value f) param
    ]

  unfoldable pub not_equal_field : Rule P
  not_equal_field owner field param = do
    need_message param
    need_value param
    elim (field_by_name owner.fields param.value) [
      | none ↦ err (no_field param.value)
      | some f ↦ refuse (deep_equal field.value f) param
    ]

  -- The switch on the kind, which is that of both fields; the three tests are the operators of the
  -- source. No branch takes `int16`.
  unfoldable pub compare_values :
      (ℤ → ℤ → Bool)
      → (ℕ → ℕ → Bool)
      → (Platform.Float P → Platform.Float P → Bool)
      → Value P
      → Value P
      → Param
      → Checked (Unit {0})
  compare_values ints nats floats (signed w a) (signed w' b) param =
      if listed w then require (ints a b) param else err unsupported_type
  compare_values ints nats floats (unsigned w a) (unsigned w' b) param = require (nats a b) param
  compare_values ints nats floats (floating w a) (floating w' b) param = require (floats a b) param
  compare_values ints nats floats a b param = err unsupported_type

  -- the body of the four rules behind the tests on the parameter
  unfoldable pub compare_with :
      (ℤ → ℤ → Bool) → (ℕ → ℕ → Bool) → (Platform.Float P → Platform.Float P → Bool) → Rule P
  unfolding compare_values
  compare_with ints nats floats owner field param = elim (field_by_name owner.fields param.value) [
    | none ↦ err (no_field param.value)
    | some another ↦ do
      fail_if (not (same_kind field.value another)) (different_kind field.name param.value)
      compare_values ints nats floats field.value another param
  ]

  -- A missing value is reported as a missing message.
  unfoldable pub great_than_field : Rule P
  unfolding compare_with
  great_than_field owner field param = do
    need_message param
    fail_if (is_empty param.value) message_required
    compare_with (λ a b. ltz b a) (λ a b. ltb b a) (λ a b. Platform.less P b a) owner field param

  unfoldable pub great_equal_field : Rule P
  unfolding compare_with
  great_equal_field owner field param = do
    need_message param
    need_value param
    compare_with (λ a b. lez b a) (λ a b. leb b a) (λ a b. Platform.less_equal P b a) owner field
        param

  unfoldable pub lower_than_field : Rule P
  unfolding compare_with
  lower_than_field owner field param = do
    need_message param
    need_value param
    compare_with ltz ltb (Platform.less P) owner field param

  unfoldable pub lower_equal_field : Rule P
  unfolding compare_with
  lower_equal_field owner field param = do
    need_message param
    need_value param
    compare_with lez leb (Platform.less_equal P) owner field param
