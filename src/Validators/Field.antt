-- ===== src/Validators/Field.antt =====
-- The values that the validators look at: a struct with its fields, as reflection shows it, and the
-- errors that a rule returns. Floating-point numbers, regular expressions, dates and values of other
-- kinds than numbers, texts and Booleans stand in a record of parameters.
use gin_t.Common.{
  ℕ, Bool, true, false, Option, none, some, List, [], ◌∷◌, ℤ, list_eq, ◌==◌, eqz, if◌then◌else◌,
  ◌&&◌,
}
use gin_t.Text.{Bytes}
use gin_t.Text.Numbers.{NumError, Parsed, parsed, unparsed}

-- The sizes of Go's integer types; `word` is that of `int` and `uint`.
pub data Width : Type 0 where
  word w8 w16 w32 w64 : Width

pub data FloatWidth : Type 0 where
  f32 f64 : FloatWidth

-- A number for each size: its bits, and 0 for `word`.
abbrev pub width_code : Width → ℕ
width_code word = 0
width_code w8 = 8
width_code w16 = 16
width_code w32 = 32
width_code w64 = 64

abbrev pub same_width : Width → Width → Bool
same_width w w' = width_code w == width_code w'

abbrev pub float_code : FloatWidth → ℕ
float_code f32 = 32
float_code f64 = 64

abbrev same_float_width : FloatWidth → FloatWidth → Bool
same_float_width w w' = float_code w == float_code w'

-- What is not under the repository: float64 with strconv.ParseFloat and FormatFloat, package regexp,
-- time.Parse, and values of other kinds with their kind's number and reflect.DeepEqual.
pub record Platform : Type 1 where
  pub Float : Type 0
  pub less : Float → Float → Bool
  pub less_equal : Float → Float → Bool
  pub equal : Float → Float → Bool
  pub parse_float : Bytes → Parsed Float
  pub format_float : FloatWidth → Float → Bytes
  pub Pattern : Type 0
  pub compile : Bytes → Option Pattern
  pub matches : Pattern → Bytes → Bool
  pub email : Pattern
  pub uuid : Pattern
  pub phone : Pattern
  pub url : Pattern
  pub parses_as_date : Bytes → Bytes → Bool
  pub Opaque : Type 0
  pub kind_of : Opaque → ℕ
  pub deep_equal : Opaque → Opaque → Bool

pub data Value (P : Platform) : Type 0 where
  text : Bytes → Value P
  signed : Width → ℤ → Value P
  unsigned : Width → ℕ → Value P
  floating : FloatWidth → Platform.Float P → Value P
  boolean : Bool → Value P
  other : Platform.Opaque P → Value P

pub record Field (P : Platform) : Type 0 where
  pub name : Bytes
  pub tag : Option Bytes
  pub value : Value P

-- A struct: its fields, and the names of its methods.
pub record Struct (P : Platform) : Type 0 where
  pub fields : List (Field P)
  pub methods : List Bytes

-- A parameter of core/validators/validator.go.
pub record Param : Type 0 where
  pub message : Bytes
  pub value : Bytes

pub data Error : Type 0 where
  message_required value_required unsupported : Error
  custom : Bytes → Error  -- errors.New(param.Message)
  bare_value : Bytes → Error  -- errors.New(param.Value)
  number : NumError → Error
  syntax_error unexpected_param no_validator : Bytes → Error
  no_field no_method not_a_validator : Bytes → Error
  different_kind : Bytes → Bytes → Error
  text_only float_only unsupported_type : Error
  validation : Error → Bytes → Bytes → Error  -- *ValidationError: the error, the field, the rule

-- What a rule returns; `crash` is a panic.
pub data Checked {ℓ} (A : Type ℓ) : Type ℓ where
  fine : A → Checked A
  err : Error → Checked A
  crash : Checked A

infixl 5 ◌>>=◌ ◌>>◌
abbrev pub ◌>>=◌ {ℓ ℓ'} : {S : Type ℓ} {T : Type ℓ'} → Checked S → (S → Checked T) → Checked T
crash >>= next = crash
err cause >>= next = err cause
fine result >>= next = next result

abbrev pub ◌>>◌ {ℓ} : {S : Type ℓ} → Checked (Unit {0}) → Checked S → Checked S
check >> next = check >>= λ _. next

abbrev pub fail_if : Bool → Error → Checked (Unit {0})
fail_if true e = err e
fail_if false e = fine tt

-- `if err != nil { return err }` behind a parser of strconv
abbrev pub number_of {ℓ} : {A : Type ℓ} → Parsed A → Checked A
number_of (parsed a) = fine a
number_of (unparsed e) = err (number e)

abbrev pub is_empty : Bytes → Bool
is_empty [] = true
is_empty (c ∷ s) = false

-- "message is required", "value is required"
abbrev pub need_message : Param → Checked (Unit {0})
need_message param = fail_if (is_empty param.message) message_required

abbrev pub need_value : Param → Checked (Unit {0})
need_value param = fail_if (is_empty param.value) value_required

module _ {P : Platform} where
  -- valueOf.FieldByName
  unfoldable pub field_by_name : List (Field P) → Bytes → Option (Value P)
  field_by_name [] name = none
  field_by_name (f ∷ fields) name =
      if list_eq f.name name then some f.value else field_by_name fields name

  -- reflect.DeepEqual on the values of two fields: the types are those of the kinds.
  unfoldable pub deep_equal : Value P → Value P → Bool
  deep_equal (text a) (text b) = list_eq a b
  deep_equal (signed w a) (signed w' b) = same_width w w' && eqz a b
  deep_equal (unsigned w a) (unsigned w' b) = same_width w w' && (a == b)
  deep_equal (floating w a) (floating w' b) = same_float_width w w' && Platform.equal P a b
  deep_equal (boolean true) (boolean b) = b
  deep_equal (boolean false) (boolean b) = if b then false else true
  deep_equal (other a) (other b) = Platform.deep_equal P a b
  deep_equal a b = false

  -- field.Kind() == anotherField.Kind()
  unfoldable pub same_kind : Value P → Value P → Bool
  same_kind (text a) (text b) = true
  same_kind (signed w a) (signed w' b) = same_width w w'
  same_kind (unsigned w a) (unsigned w' b) = same_width w w'
  same_kind (floating w a) (floating w' b) = same_float_width w w'
  same_kind (boolean a) (boolean b) = true
  same_kind (other a) (other b) = Platform.kind_of P a == Platform.kind_of P b
  same_kind a b = false
