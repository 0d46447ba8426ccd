-- ===== src/Validators/Rules.antt =====
-- The rules of core/validators/validate.go that look at one field. A rule takes the struct, the
-- field at the index, and the parameter.
use gin_t.Common.{
  Bool, true, false, not, none, some, List, [], ◌∷◌, ℤ, pos, lez, ltz, list_eq, length,
  if◌then◌else◌,
}
use gin_t.Text.{Bytes, split_on, without_spaces}
use gin_t.Text.Runes.{rune_count}
use gin_t.Text.Numbers.{parse_int}
use gin_t.Validators.Field.{
  Platform, Value, text, floating, Field, Struct, Param, Checked, fine, err, crash, ◌>>=◌, ◌>>◌,
  fail_if, number_of, need_message, need_value, custom, bare_value, no_method, text_only,
  float_only, syntax_error,
}
use gin_t.Validators.Compare.{is_gt, is_lt, is_ge, is_le, is_equal, is_contains, is_between}

abbrev pub Rule : Platform → Type 0
Rule P = Struct P → Field P → Param → Checked (Unit {0})

-- "if !ok { return errors.New(param.Message) }"
abbrev pub require : Bool → Param → Checked (Unit {0})
require ok param = fail_if (not ok) (custom param.message)

-- "if ok { return errors.New(param.Message) }"
abbrev pub refuse : Bool → Param → Checked (Unit {0})
refuse ok param = fail_if ok (custom param.message)

abbrev member : Bytes → List Bytes → Bool
member s [] = false
member s (t ∷ ts) = if list_eq t s then true else member s ts

-- len(s[1]) > v, for a text of two pieces
abbrev too_long : List Bytes → ℤ → Bool
too_long (whole ∷ digits ∷ []) v = ltz v (pos (length digits))
too_long pieces v = false

module _ {P : Platform} where
  unfoldable pub required : Rule P
  required owner field param = do
    need_message param
    elim field.value [
      | text s ↦ do
        except ← number_of (parse_int 64 param.value)
        refuse (lez except (pos (rune_count s))) param
      | _ ↦ fine tt
    ]

  unfoldable pub max_length : Rule P
  max_length owner field param = do
    need_message param
    elim field.value [
      | text s ↦ do
        except ← number_of (parse_int 64 param.value)
        refuse (lez except (pos (rune_count s))) param
      | _ ↦ fine tt
    ]

  unfoldable pub min_length : Rule P
  min_length owner field param = do
    need_message param
    elim field.value [
      | text s ↦ do
        except ← number_of (parse_int 64 param.value)
        refuse (lez (pos (rune_count s)) except) param
      | _ ↦ fine tt
    ]

  unfoldable pub greater_than : Rule P
  greater_than owner field param = do
    need_message param
    need_value param
    ok ← is_gt field.value param.value
    require ok param

  unfoldable pub lower_than : Rule P
  lower_than owner field param = do
    need_message param
    need_value param
    ok ← is_lt field.value param.value
    require ok param

  -- The error of a field that is too small carries the value, not the message.
  unfoldable pub greater_equal : Rule P
  greater_equal owner field param = do
    need_message param
    need_value param
    ok ← is_ge field.value param.value
    fail_if (not ok) (bare_value param.value)

  unfoldable pub lower_equal : Rule P
  lower_equal owner field param = do
    need_message param
    need_value param
    ok ← is_le field.value param.value
    require ok param

  unfoldable pub equal : Rule P
  equal owner field param = do
    need_message param
    need_value param
    ok ← is_equal field.value param.value
    require ok param

  unfoldable pub not_equal : Rule P
  not_equal owner field param = do
    need_message param
    need_value param
    ok ← is_equal field.value param.value
    refuse ok param

  unfoldable pub contains : Rule P
  contains owner field param = do
    need_message param
    need_value param
    ok ← is_contains field.value param.value
    require ok param

  unfoldable pub not_contains : Rule P
  not_contains owner field param = do
    need_message param
    need_value param
    ok ← is_contains field.value param.value
    refuse ok param

  -- the two bounds of `between`, and the test of the field
  unfoldable pub in_range : Value P → Bytes → Checked Bool
  in_range value range = elim (split_on b',' range) [
    | low ∷ high ∷ [] ↦ is_between value (without_spaces low) (without_spaces high)
    | _ ↦ err (syntax_error range)
  ]

  unfoldable pub between : Rule P
  unfolding in_range
  between owner field param = do
    need_message param
    need_value param
    ok ← in_range field.value param.value
    require ok param

  unfoldable pub not_between : Rule P
  unfolding in_range
  not_between owner field param = do
    need_message param
    need_value param
    ok ← in_range field.value param.value
    refuse ok param

  -- A method that exists is reported as missing; the zero Value of one that does not panics.
  unfoldable pub method : Rule P
  method owner field param = do
    need_value param
    if member param.value owner.methods then err (no_method param.value) else crash

  -- The pattern is compiled in front of the test on the kind; MustCompile panics.
  unfoldable pub regexp : Rule P
  regexp owner field param = do
    need_message param
    need_value param
    elim (Platform.compile P param.value) [
      | none ↦ crash
      | some pattern ↦ elim field.value [
        | text s ↦ require (Platform.matches P pattern s) param
        | _ ↦ err text_only
      ]
    ]

  -- Email, UUID, Phone and Url, which differ in the pattern.
  unfoldable known_pattern : Platform.Pattern P → Rule P
  known_pattern pattern owner field param = do
    need_message param
    elim field.value [ text s ↦ require (Platform.matches P pattern s) param | _ ↦ err text_only ]

  unfoldable pub email : Rule P
  unfolding known_pattern
  email = known_pattern (Platform.email P)

  unfoldable pub uuid : Rule P
  unfolding known_pattern
  uuid = known_pattern (Platform.uuid P)

  unfoldable pub phone : Rule P
  unfolding known_pattern
  phone = known_pattern (Platform.phone P)

  unfoldable pub url : Rule P
  unfolding known_pattern
  url = known_pattern (Platform.url P)

  unfoldable pub date_format : Rule P
  date_format owner field param = do
    need_message param
    need_value param
    elim field.value [
      | text s ↦ require (Platform.parses_as_date P param.value s) param
      | _ ↦ err text_only
    ]

  unfoldable pub round : Rule P
  round owner field param = do
    need_message param
    need_value param
    v ← number_of (parse_int 64 param.value)
    elim field.value [
      | floating w x ↦ refuse (too_long (split_on b'.' (Platform.format_float P w x)) v) param
      | _ ↦ err float_only
    ]
