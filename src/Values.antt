-- ===== src/Values.antt =====
-- What core/valuse.go reads from a text. A conversion returns a value and
-- the error, if any; behind an error the value is the default, if there is one.
pub mod Numerals
mod Samples
use gin_t.Common.{
  ℕ, ◌-◌, ◌%◌, ◌^◌, ltb, negsuc, Bool, true, false, Option, none, some, List, [], ◌∷◌, ◌++◌, map, ℤ,
  pos, neg, ◌==◌, if◌then◌else◌,
}
use gin_t.Text.{Bytes}
use gin_t.Text.Numbers.{
  NumError, invalid_syntax, out_of_range, Parsed, parsed, unparsed, parse_int, parse_uint,
  parse_bool,
}

abbrev pub starts_with_minus : Bytes → Bool
starts_with_minus [] = false
starts_with_minus (c ∷ s) = c == b'-'

-- What ParseInt returns beside an error: 0, or the bound that the number is behind.
unfoldable pub int_at_error : ℕ → Bytes → NumError → ℤ
int_at_error bits v invalid_syntax = pos 0
int_at_error bits v out_of_range =
    if starts_with_minus v then neg (2 ^ (bits - 1)) else pos (2 ^ (bits - 1) - 1)

unfoldable pub uint_at_error : ℕ → NumError → ℕ
uint_at_error bits invalid_syntax = 0
uint_at_error bits out_of_range = 2 ^ bits - 1

abbrev pub or_default {ℓ} : {A : Type ℓ} → Option A → A → A
or_default none a = a
or_default (some d) a = d

-- The conversions int8(i), int16(i), ... of an int64: the low bits, as two's complement.
unfoldable pub signed_of : ℕ → ℕ → ℤ
signed_of bits m = if ltb m (2 ^ (bits - 1)) then pos m else negsuc (2 ^ bits - 1 - m)

unfoldable pub wrap_int : ℕ → ℤ → ℤ
unfolding signed_of
wrap_int bits (pos n) = signed_of bits (n % 2 ^ bits)
wrap_int bits (negsuc n) = signed_of bits (2 ^ bits - 1 - n % 2 ^ bits)

-- uint8(i), uint16(i), ... of a uint64
abbrev pub wrap_uint : ℕ → ℕ → ℕ
wrap_uint bits n = n % 2 ^ bits

-- Int, Int8, Int16, Int32 and Int64, for 64, 8, 16, 32 and 64 bits. An empty text does not parse.
unfoldable pub int_of : ℕ → Bytes → Option ℤ → ℤ × Option NumError
unfolding int_at_error wrap_int
int_of bits v def = elim (parse_int bits v) [
  | parsed k ↦ (wrap_int bits k, none)
  | unparsed e ↦ (or_default def (wrap_int bits (int_at_error bits v e)), some e)
]

unfoldable pub must_int_of : ℕ → Bytes → Option ℤ → ℤ
must_int_of bits v def = (int_of bits v def).0

-- Uint, Uint8, Uint16, Uint32 and Uint64.
unfoldable pub uint_of : ℕ → Bytes → Option ℕ → ℕ × Option NumError
unfolding uint_at_error
uint_of bits v def = elim (parse_uint bits v) [
  | parsed k ↦ (wrap_uint bits k, none)
  | unparsed e ↦ (or_default def (wrap_uint bits (uint_at_error bits e)), some e)
]

unfoldable pub must_uint_of : ℕ → Bytes → Option ℕ → ℕ
must_uint_of bits v def = (uint_of bits v def).0

-- Float32 and Float64: `parse_float` is strconv.ParseFloat for the number of bits, which returns a
-- number beside an error too.
unfoldable float_of :
    {F : Type 0} → (ℕ → Bytes → F × Option NumError) → ℕ → Bytes → Option F → F × Option NumError
float_of parse_float bits [] def = let (x, e) = parse_float bits [] in (or_default def x, e)
float_of parse_float bits (c ∷ s) def =
    let (x, e) = parse_float bits (c ∷ s) in
    elim e [ none ↦ (x, none) | some error ↦ (or_default def x, some error) ]

unfoldable must_float_of :
    {F : Type 0} → (ℕ → Bytes → F × Option NumError) → ℕ → Bytes → Option F → F
must_float_of parse_float bits v def = (float_of parse_float bits v def).0

-- Duration: a number of nanoseconds
unfoldable duration : Bytes → Option ℤ → ℤ × Option NumError
unfolding int_of
duration v def = int_of 64 v def

-- Bool: an empty text is false without an error, whatever the default.
unfoldable bool_of : Bytes → Option Bool → Bool × Option NumError
bool_of [] def = (false, none)
bool_of (c ∷ s) def = elim (parse_bool (c ∷ s)) [
  | parsed b ↦ (b, none)
  | unparsed e ↦ (or_default def false, some e)
]

unfoldable must_bool_of : Bytes → Option Bool → Bool
unfolding bool_of
must_bool_of v def = (bool_of v def).0

-- Text
unfoldable text_of : Bytes → Option Bytes → Bytes
text_of [] def = or_default def []
text_of (c ∷ s) def = c ∷ s

-- NewValues: the slice begins with as many empty values as there are texts.
unfoldable pub new_values : List Bytes → List Bytes
new_values values = map (λ v. []) values ++ values
