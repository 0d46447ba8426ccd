-- ===== src/Values/Numerals.antt =====
-- The integer conversions of core/valuse.go on decimal numerals.
use gin_t.Common.{
  ℕ, zero, suc, ◌+◌, ◌-◌, ◌*◌, ◌%◌, ◌^◌, ◌≤◌, ◌<◌, ◌≡◌, refl, ap, ◌∙◌, Bool, Bool-cases, true,
  false, inl, inr, Option, none, some, List, ◌∷◌, length, ℤ, pos, neg, ltb, leb, ◌==◌, arith,
  if◌then◌else◌,
}
use native.Mathlib.Nat.{mod-eq_of_lt}
use Prim.Native.Nat.pow
use gin_t.Text.{Bytes}
use gin_t.Text.Numbers.{
  NumError, invalid_syntax, out_of_range, Parsed, parsed, unparsed, parse_int, parse_uint,
  parse_signed, is_digit,
}
use gin_t.Text.Decimal.{both, all_digits, decimal, bounded, bounded_int, parse_digits-decimal}
use gin_t.Values.{
  int_of, uint_of, int_at_error, uint_at_error, or_default, wrap_int, signed_of, starts_with_minus,
}

power_positive : (l : ℕ) → 1 ≤ 2 ^ l
power_positive zero = omega arith
power_positive (suc l) = omega (arith, power_positive l)

twice : (bits : ℕ) → 1 ≤ bits → 2 ^ bits ≡ 2 ^ (bits - 1) + 2 ^ (bits - 1)
twice zero h = elim h [ ]
twice (suc b) h = grind (arith, pow.suc 2 b)

wrap_int-pos : (bits n : ℕ) → 1 ≤ bits → n < 2 ^ (bits - 1) → wrap_int bits (pos n) ≡ pos n
unfolding wrap_int signed_of
wrap_int-pos bits n h lt =
    let small : n < 2 ^ bits = omega (arith, twice bits h) in
    let below : ltb n (2 ^ (bits - 1)) ≡ true = ground arith in rw (mod-eq_of_lt small, below) refl

wrap_int-neg : (bits n : ℕ) → 1 ≤ bits → n ≤ 2 ^ (bits - 1) → wrap_int bits (neg n) ≡ neg n
unfolding wrap_int signed_of
wrap_int-neg bits zero h le = wrap_int-pos bits 0 h (power_positive (bits - 1))
wrap_int-neg bits (suc n) h le =
    let small : n < 2 ^ bits = omega (arith, twice bits h) in
    let above : ltb (2 ^ bits - 1 - n) (2 ^ (bits - 1)) ≡ false = ground (arith, twice bits h) in
    let back : 2 ^ bits - 1 - (2 ^ bits - 1 - n) ≡ n = omega arith in
    rw (mod-eq_of_lt small, above, back) refl

parse_uint-decimal :
    (bits c : ℕ) (s : List ℕ)
    → all_digits (c ∷ s) ≡ true
    → parse_uint bits (c ∷ s) ≡ bounded (2 ^ bits - 1) (decimal (c ∷ s))
unfolding parse_uint
parse_uint-decimal bits c s h =
    parse_digits-decimal (2 ^ bits - 1) 0 (c ∷ s) (omega arith) h
    ∙ ap (bounded (2 ^ bits - 1)) (from_zero (10 ^ length (c ∷ s)) (decimal (c ∷ s)))
  where
    from_zero : (p n : ℕ) → 0 * p + n ≡ n
    from_zero p n = omega arith

parse_signed-decimal :
    (minus : Bool) (bits c : ℕ) (s : List ℕ)
    → 1 ≤ bits
    → all_digits (c ∷ s) ≡ true
    → parse_signed minus bits (c ∷ s) ≡ bounded_int minus bits (decimal (c ∷ s))
unfolding parse_signed
parse_signed-decimal minus bits c s some_bits h =
    on minus (decimal (c ∷ s)) (parse_uint bits (c ∷ s)) (parse_uint-decimal bits c s h)
  where
    large :
        (minus : Bool) (n : ℕ)
        → leb n (2 ^ bits - 1) ≡ false
        → unparsed out_of_range ≡ bounded_int minus bits n
    large true n over =
        let e : leb n (2 ^ (bits - 1)) ≡ false =
          ground (arith, twice bits some_bits, power_positive (bits - 1)) in
        rw e refl
    large false n over =
        let e : ltb n (2 ^ (bits - 1)) ≡ false =
          ground (arith, twice bits some_bits, power_positive (bits - 1)) in
        rw e refl

    on :
        (minus : Bool) (n : ℕ) (x : Parsed ℕ)
        → x ≡ bounded (2 ^ bits - 1) n
        → (elim x [
          | unparsed invalid_syntax ↦ unparsed invalid_syntax
          | unparsed out_of_range ↦ unparsed out_of_range
          | parsed n ↦ bounded_int minus bits n
        ])
          ≡ bounded_int minus bits n
    on minus n x e = elim (Bool-cases (leb n (2 ^ bits - 1))) [
      | inl fits ↦ rw (e, fits)
      | inr over ↦ rw (e, over) (large minus n over)
    ]

-- What the conversions make of the result of the parser.
abbrev signed_result : ℕ → Bytes → Option ℤ → Parsed ℤ → ℤ × Option NumError
signed_result bits v def (parsed k) = (wrap_int bits k, none)
signed_result bits v def (unparsed e) =
    (or_default def (wrap_int bits (int_at_error bits v e)), some e)

abbrev unsigned_result : ℕ → Option ℕ → Parsed ℕ → ℕ × Option NumError
unsigned_result bits def (parsed k) = (k % 2 ^ bits, none)
unsigned_result bits def (unparsed e) = (or_default def (uint_at_error bits e % 2 ^ bits), some e)

int_of-signed_result :
    (bits : ℕ) (v : Bytes) (def : Option ℤ)
    → int_of bits v def ≡ signed_result bits v def (parse_int bits v)
unfolding int_of
int_of-signed_result bits v def = on (parse_int bits v)
  where
    on :
        (x : Parsed ℤ)
        → (elim x as (λ y. ℤ × Option NumError) [
          | parsed k ↦ (wrap_int bits k, none)
          | unparsed e ↦ (or_default def (wrap_int bits (int_at_error bits v e)), some e)
        ])
          ≡ signed_result bits v def x
    on (parsed k) = refl
    on (unparsed e) = refl

uint_of-unsigned_result :
    (bits : ℕ) (v : Bytes) (def : Option ℕ)
    → uint_of bits v def ≡ unsigned_result bits def (parse_uint bits v)
unfolding uint_of
uint_of-unsigned_result bits v def = on (parse_uint bits v)
  where
    on :
        (x : Parsed ℕ)
        → (elim x as (λ y. ℕ × Option NumError) [
          | parsed k ↦ (k % 2 ^ bits, none)
          | unparsed e ↦ (or_default def (uint_at_error bits e % 2 ^ bits), some e)
        ])
          ≡ unsigned_result bits def x
    on (parsed k) = refl
    on (unparsed e) = refl

module _ (bits c : ℕ) (s : Bytes) (some_bits : 1 ≤ bits) (h : all_digits (c ∷ s) ≡ true) where
  run : (minus : Bool) → parse_signed minus bits (c ∷ s) ≡ bounded_int minus bits (decimal (c ∷ s))
  run minus = parse_signed-decimal minus bits c s some_bits h

  digit : is_digit c ≡ true
  digit = (both (is_digit c) (all_digits s) h).0

  first : starts_with_minus (c ∷ s) ≡ false
  first = ground (arith, digit)

  plus : parse_int bits (b'+' ∷ c ∷ s) ≡ parse_signed false bits (c ∷ s)
  unfolding parse_int
  plus = refl

  plain : parse_int bits (c ∷ s) ≡ parse_signed false bits (c ∷ s)
  unfolding parse_int
  plain =
      let no_plus : (c == b'+') ≡ false = ground (arith, digit) in
      let no_minus : (c == b'-') ≡ false = ground (arith, digit) in rw (no_plus, no_minus) refl

  positive :
      (v : Bytes) (def : Option ℤ)
      → parse_int bits v ≡ bounded_int false bits (decimal (c ∷ s))
      → starts_with_minus v ≡ false
      → int_of bits v def ≡ (
          if ltb (decimal (c ∷ s)) (2 ^ (bits - 1))
          then (pos (decimal (c ∷ s)), none)
          else (or_default def (pos (2 ^ (bits - 1) - 1)), some out_of_range))
  unfolding int_at_error
  positive v def e plain_sign = elim (Bool-cases (ltb (decimal (c ∷ s)) (2 ^ (bits - 1)))) [
    | inl b ↦
        rw
          (
            int_of-signed_result bits v def,
            e,
            b,
            wrap_int-pos bits (decimal (c ∷ s)) some_bits (ground arith),
          )
          refl
    | inr b ↦
        rw
          (
            int_of-signed_result bits v def,
            e,
            b,
            plain_sign,
            wrap_int-pos bits (2 ^ (bits - 1) - 1) some_bits
                (omega (arith, power_positive (bits - 1))),
          )
          refl
  ]

  minus_sign : parse_int bits (b'-' ∷ c ∷ s) ≡ parse_signed true bits (c ∷ s)
  unfolding parse_int
  minus_sign = refl

  negative :
      (def : Option ℤ)
      → parse_signed true bits (c ∷ s) ≡ bounded_int true bits (decimal (c ∷ s))
      → int_of bits (b'-' ∷ c ∷ s) def ≡ (
          if leb (decimal (c ∷ s)) (2 ^ (bits - 1))
          then (neg (decimal (c ∷ s)), none)
          else (or_default def (neg (2 ^ (bits - 1))), some out_of_range))
  unfolding int_at_error
  negative def e = elim (Bool-cases (leb (decimal (c ∷ s)) (2 ^ (bits - 1)))) [
    | inl b ↦
        rw
          (
            int_of-signed_result bits (b'-' ∷ c ∷ s) def,
            minus_sign,
            e,
            b,
            wrap_int-neg bits (decimal (c ∷ s)) some_bits (ground arith),
          )
          refl
    | inr b ↦
        rw
          (
            int_of-signed_result bits (b'-' ∷ c ∷ s) def,
            minus_sign,
            e,
            b,
            wrap_int-neg bits (2 ^ (bits - 1)) some_bits (omega arith),
          )
          refl
  ]

  natural :
      (udef : Option ℕ)
      → parse_uint bits (c ∷ s) ≡ bounded (2 ^ bits - 1) (decimal (c ∷ s))
      → uint_of bits (c ∷ s) udef ≡ (
          if ltb (decimal (c ∷ s)) (2 ^ bits)
          then (decimal (c ∷ s), none)
          else (or_default udef (2 ^ bits - 1), some out_of_range))
  unfolding uint_at_error
  natural udef e = elim (Bool-cases (ltb (decimal (c ∷ s)) (2 ^ bits))) [
    | inl b ↦
        let fits : leb (decimal (c ∷ s)) (2 ^ bits - 1) ≡ true = ground arith in
        let small : decimal (c ∷ s) < 2 ^ bits = ground arith in
        rw (uint_of-unsigned_result bits (c ∷ s) udef, e, fits, b, mod-eq_of_lt small) refl
    | inr b ↦
        let over : leb (decimal (c ∷ s)) (2 ^ bits - 1) ≡ false =
          ground (arith, power_positive bits) in
        let small : 2 ^ bits - 1 < 2 ^ bits = omega (arith, power_positive bits) in
        rw (uint_of-unsigned_result bits (c ∷ s) udef, e, over, b, mod-eq_of_lt small) refl
  ]

-- For a type of at least one bit and a numeral of at least one digit, n: the signed conversion of the
-- numeral, and of it behind a plus sign, returns n if n is below 2 ^ (bits - 1), and behind a minus
-- sign the negative of n if n is at most 2 ^ (bits - 1); otherwise it returns the range error, beside
-- the default if there is one and else the bound of the type on that side. The unsigned conversion
-- returns n if n is below 2 ^ bits, and otherwise the range error beside the default or the bound.
pub int_of-decimal :
    (bits c : ℕ) (s : Bytes) (def : Option ℤ) (udef : Option ℕ)
    → 1 ≤ bits
    → all_digits (c ∷ s) ≡ true
    → (int_of bits (c ∷ s) def ≡ (
        if ltb (decimal (c ∷ s)) (2 ^ (bits - 1))
        then (pos (decimal (c ∷ s)), none)
        else (or_default def (pos (2 ^ (bits - 1) - 1)), some out_of_range)))
      × (int_of bits (b'+' ∷ c ∷ s) def ≡ (
          if ltb (decimal (c ∷ s)) (2 ^ (bits - 1))
          then (pos (decimal (c ∷ s)), none)
          else (or_default def (pos (2 ^ (bits - 1) - 1)), some out_of_range)))
      × (int_of bits (b'-' ∷ c ∷ s) def ≡ (
          if leb (decimal (c ∷ s)) (2 ^ (bits - 1))
          then (neg (decimal (c ∷ s)), none)
          else (or_default def (neg (2 ^ (bits - 1))), some out_of_range)))
      × (uint_of bits (c ∷ s) udef ≡ (
          if ltb (decimal (c ∷ s)) (2 ^ bits)
          then (decimal (c ∷ s), none)
          else (or_default udef (2 ^ bits - 1), some out_of_range)))
int_of-decimal bits c s def udef some_bits h = (
  positive bits c s some_bits h (c ∷ s) def
      (plain bits c s some_bits h ∙ run bits c s some_bits h false) (first bits c s some_bits h),
  positive bits c s some_bits h (b'+' ∷ c ∷ s) def
      (plus bits c s some_bits h ∙ run bits c s some_bits h false) refl,
  negative bits c s some_bits h def (run bits c s some_bits h true),
  natural bits c s some_bits h udef (parse_uint-decimal bits c s h),
)
