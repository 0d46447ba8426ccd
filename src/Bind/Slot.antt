-- ===== src/Bind/Slot.antt =====
-- What core/bind reads and writes: the fields of a struct as reflection shows them, and the values
-- of a form. A field that is neither a number, a text nor a Boolean is `other` in `Value`.
use gin_t.Common.{ℕ, Bool, Option, none, some, List, [], ◌∷◌, ℤ, list_eq, if◌then◌else◌}
use gin_t.Text.{Bytes}
use gin_t.Text.Numbers.{NumError, Parsed}
use gin_t.Validators.Field.{Width, word, w8, w16, w32, w64, FloatWidth, Platform, Value}

-- What binding calls outside the repository: strconv.ParseFloat, encoding/json into a struct, a map
-- or a pointer (with the value left behind an error), and packages time and mime/multipart.
pub record Host (P : Platform) : Type 0 where
  pub parse_float : FloatWidth → Bytes → Parsed (Platform.Float P)
  pub takes_json : Platform.Opaque P → Bool
  pub unmarshal : Bytes → Platform.Opaque P → Platform.Opaque P × Bool
  pub is_time : Platform.Opaque P → Bool
  pub of_unix : ℤ → Platform.Opaque P
  pub parse_time : Bytes → Bytes → Option (Platform.Opaque P)
  pub is_file : Platform.Opaque P → Bool  -- a *multipart.FileHeader

-- A field that can be set. A slice carries the zero value of its elements.
pub data Slot (P : Platform) : Type 0 where
  scalar : Value P → Slot P
  array : List (Value P) → Slot P
  slice : Value P → List (Value P) → Slot P

pub data BindError : Type 0 where
  number : NumError → BindError
  json unknown_type time_required no_file nil_form pointer_required : BindError
  bad_time : BindError
  no_bind_method : Bytes → BindError
  reported : ℕ → BindError  -- by a bind method of the caller

-- `nil`, an error, or a panic.
pub data Status : Type 0 where
  done crashed : Status
  failed : BindError → Status

abbrev pub Binding {ℓ} : Type ℓ → Type ℓ
Binding A = A × Status

-- "if err != nil { return err }"
abbrev and_then {ℓ} : {A : Type ℓ} → Binding A → (A → Binding A) → Binding A
and_then (a, done) next = next a
and_then (a, crashed) next = (a, crashed)
and_then (a, failed e) next = (a, failed e)

-- Go's bit sizes; `int` and `uint` have 64 bits.
abbrev pub bits_of : Width → ℕ
bits_of word = 64
bits_of w8 = 8
bits_of w16 = 16
bits_of w32 = 32
bits_of w64 = 64

-- A map from texts: url.Values, the tags of a field, and the bind methods.
unfoldable pub find_key {ℓ} : {A : Type ℓ} → List (Bytes × A) → Bytes → Option A
find_key [] key = none
find_key ((k, a) ∷ rest) key = if list_eq k key then some a else find_key rest key

pub record FormField (P : Platform) : Type 0 where
  pub name : Bytes
  pub tags : List (Bytes × Bytes)
  pub slot : Slot P

abbrev pub BindMethod : Platform → Type 0
BindMethod P = Slot P → List Bytes → Binding (Slot P)
