-- ===== src/Bind/Single.antt =====
-- core/bind/bind_value.go but bindFile.
use gin_t.Common.{ℕ, Bool, none, some, List, [], ◌∷◌, ℤ, if◌then◌else◌}
use gin_t.Text.{Bytes, codes}
use gin_t.Text.Numbers.{Parsed, parsed, unparsed, parse_int, parse_uint, parse_bool}
use gin_t.Validators.Field.{
  Width, FloatWidth, Platform, Value, text, signed, unsigned, floating, boolean, other,
}
use gin_t.Bind.Slot.{
  Host, Slot, scalar, array, slice, number, json, unknown_type, time_required, bad_time, Status,
  done, crashed, failed, Binding, bits_of, BindMethod,
}

-- an empty text stands for a zero
abbrev pub or_zero : Bytes → Bytes → Bytes
or_zero [] zero = zero
or_zero (c ∷ s) zero = c ∷ s

-- The field is set to a number that parses, and left alone otherwise.
abbrev pub set_parsed {ℓ ℓ'} : {A : Type ℓ} {B : Type ℓ'} → Parsed A → (A → B) → B → Binding B
set_parsed (parsed a) set old = (set a, done)
set_parsed (unparsed e) set old = (old, failed (number e))

-- the elements behind the first one, if it could be set
abbrev pub with_first {ℓ} : {A : Type ℓ} → Status → A → List A → Binding (List A) → Binding (List A)
with_first done v values (values', rest) = (v ∷ values', rest)
with_first crashed v values rest = (v ∷ values, crashed)
with_first (failed e) v values rest = (v ∷ values, failed e)

-- The new value if all went well.
abbrev pub if_done {ℓ} : {A : Type ℓ} → A → Binding A → Binding A
if_done old (a, done) = (a, done)
if_done old (a, crashed) = (old, crashed)
if_done old (a, failed e) = (old, failed e)

module _ {P : Platform} (h : Host P) where
  unfoldable bind_int : Width → ℤ → Bytes → Binding (Value P)
  bind_int w old s =
      set_parsed (parse_int (bits_of w) (or_zero s (codes "0"))) (signed w) (signed w old)

  unfoldable bind_uint : Width → ℕ → Bytes → Binding (Value P)
  bind_uint w old s =
      set_parsed (parse_uint (bits_of w) (or_zero s (codes "0"))) (unsigned w) (unsigned w old)

  unfoldable bind_float : FloatWidth → Platform.Float P → Bytes → Binding (Value P)
  bind_float w old s =
      set_parsed (h.parse_float w (or_zero s (codes "0.0"))) (floating w) (floating w old)

  unfoldable bind_bool : Bool → Bytes → Binding (Value P)
  bind_bool old s = set_parsed (parse_bool (or_zero s (codes "0"))) boolean (boolean old)

  -- json.Unmarshal into the field
  unfoldable bind_json : Platform.Opaque P → Bytes → Binding (Value P)
  bind_json o s = let (o', fine) = h.unmarshal s o in (other o', if fine then done else failed json)

  unfoldable pub bind_single : Value P → Bytes → Binding (Value P)
  unfolding bind_int bind_uint bind_float bind_bool bind_json
  bind_single (text old) s = (text s, done)
  bind_single (signed w old) s = bind_int w old s
  bind_single (unsigned w old) s = bind_uint w old s
  bind_single (floating w old) s = bind_float w old s
  bind_single (boolean old) s = bind_bool old s
  bind_single (other o) s = if h.takes_json o then bind_json o s else (other o, failed unknown_type)

  -- The elements in front of the first error are set; an array that is too short panics.
  unfoldable pub bind_array : List (Value P) → List Bytes → Binding (List (Value P))
  bind_array values [] = (values, done)
  bind_array [] (s ∷ texts) = ([], crashed)
  bind_array (v ∷ values) (s ∷ texts) =
      let (v', first) = bind_single v s in with_first first v' values (bind_array values texts)

  abbrev pub zeros : Value P → List Bytes → List (Value P)
  zeros zero [] = []
  zeros zero (s ∷ texts) = zero ∷ zeros zero texts

  -- A new slice takes the place of the old one if all its elements are set.
  unfoldable pub bind_slice : Value P → List (Value P) → List Bytes → Binding (List (Value P))
  unfolding bind_array
  bind_slice zero old texts = if_done old (bind_array (zeros zero texts) texts)

  unfoldable pub bind : Slot P → List Bytes → Binding (Slot P)
  unfolding bind_array bind_slice
  bind (array values) texts =
      let (values', status) = bind_array values texts in (array values', status)
  bind (slice zero values) texts =
      let (values', status) = bind_slice zero values texts in (slice zero values', status)
  bind (scalar v) [] = (scalar v, done)
  bind (scalar v) (s ∷ texts) = let (v', status) = bind_single v s in (scalar v', status)

  abbrev first_text : List Bytes → Bytes
  first_text [] = []
  first_text (s ∷ texts) = s

  unfoldable int64_time_binder : BindMethod P
  int64_time_binder (scalar (other o)) texts =
      if h.is_time o
      then set_parsed (parse_int 64 (first_text texts)) (λ i. scalar (other (h.of_unix i)))
          (scalar (other o))
      else (scalar (other o), failed time_required)
  int64_time_binder field texts = (field, failed time_required)

  unfoldable format_time_binder : Bytes → BindMethod P
  format_time_binder format (scalar (other o)) texts =
      if h.is_time o
      then elim (h.parse_time format (first_text texts)) [
        | some t ↦ (scalar (other t), done)
        | none ↦ (scalar (other o), failed bad_time)
      ]
      else (scalar (other o), failed time_required)
  format_time_binder format field texts = (field, failed time_required)
