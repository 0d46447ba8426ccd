-- ===== src/Text/Numbers.antt =====
-- strconv.ParseUint, ParseInt (base 10, 64 bits), Atoi on a 64-bit machine, and ParseBool.
use gin_t.Common.{
  ℕ, ◌+◌, ◌-◌, ◌*◌, ◌^◌, Bool, true, false, ◌&&◌, not, List, [], ◌∷◌, leb, ltb, ◌==◌, ◌||◌, list_eq,
  if◌then◌else◌, ℤ, pos, neg,
}

pub data NumError : Type 0 where
  invalid_syntax out_of_range : NumError

pub data Parsed {ℓ} (A : Type ℓ) : Type ℓ where
  parsed : A → Parsed A
  unparsed : NumError → Parsed A

abbrev pub is_digit : ℕ → Bool
is_digit c = leb b'0' c && leb c b'9'

-- The loop of ParseUint: `n` is the number so far.
unfoldable pub parse_digits : ℕ → ℕ → List ℕ → Parsed ℕ
parse_digits max n [] = parsed n
parse_digits max n (c ∷ s) =
    let next = n * 10 + (c - b'0') in
    let rest = parse_digits max next s in
    if not (is_digit c)
    then unparsed invalid_syntax
    else if leb next max
    then rest
    else unparsed out_of_range

unfoldable pub parse_uint : ℕ → List ℕ → Parsed ℕ
unfolding parse_digits
parse_uint bits [] = unparsed invalid_syntax
parse_uint bits (c ∷ s) = parse_digits (2 ^ bits - 1) 0 (c ∷ s)

-- behind the sign: the bound on the magnitude, and the number that it stands for
unfoldable pub parse_signed : Bool → ℕ → List ℕ → Parsed ℤ
unfolding parse_uint
parse_signed minus bits s = elim (parse_uint bits s) [
  | unparsed invalid_syntax ↦ unparsed invalid_syntax
  | unparsed out_of_range ↦ unparsed out_of_range
  | parsed n ↦
      if minus
      then (if leb n (2 ^ (bits - 1)) then parsed (neg n) else unparsed out_of_range)
      else if ltb n (2 ^ (bits - 1))
      then parsed (pos n)
      else unparsed out_of_range
]

unfoldable pub parse_int : ℕ → List ℕ → Parsed ℤ
unfolding parse_signed
parse_int bits [] = unparsed invalid_syntax
parse_int bits (c ∷ s) =
    if c == b'+'
    then parse_signed false bits s
    else if c == b'-'
    then parse_signed true bits s
    else parse_signed false bits (c ∷ s)

abbrev accepts : List (List ℕ) → List ℕ → Bool
accepts [] s = false
accepts (t ∷ ts) s = list_eq t s || accepts ts s

-- "1", "t", "T", "true", "TRUE", "True"
abbrev true_texts : List (List ℕ)
true_texts =
    (b'1' ∷ [])
    ∷ (b't' ∷ [])
    ∷ (b'T' ∷ [])
    ∷ (b't' ∷ b'r' ∷ b'u' ∷ b'e' ∷ [])
    ∷ (b'T' ∷ b'R' ∷ b'U' ∷ b'E' ∷ [])
    ∷ (b'T' ∷ b'r' ∷ b'u' ∷ b'e' ∷ [])
    ∷ []

-- "0", "f", "F", "false", "FALSE", "False"
abbrev false_texts : List (List ℕ)
false_texts =
    (b'0' ∷ [])
    ∷ (b'f' ∷ [])
    ∷ (b'F' ∷ [])
    ∷ (b'f' ∷ b'a' ∷ b'l' ∷ b's' ∷ b'e' ∷ [])
    ∷ (b'F' ∷ b'A' ∷ b'L' ∷ b'S' ∷ b'E' ∷ [])
    ∷ (b'F' ∷ b'a' ∷ b'l' ∷ b's' ∷ b'e' ∷ [])
    ∷ []

unfoldable pub parse_bool : List ℕ → Parsed Bool
parse_bool s =
    if accepts true_texts s
    then parsed true
    else if accepts false_texts s
    then parsed false
    else unparsed invalid_syntax
