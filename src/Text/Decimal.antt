-- ===== src/Text/Decimal.antt =====
-- The numbers that strconv's parsers read, against the decimal numeral's own value.
use gin_t.Common.{
  ℕ, zero, suc, ◌+◌, ◌-◌, ◌*◌, ◌^◌, ◌≤◌, ◌≡◌, refl, ap, ◌∙◌, Bool, true, false, ◌&&◌, List, [], ◌∷◌,
  arith, leb, ltb, ◌==◌, length, if◌then◌else◌, ℤ, pos, neg, Bool-cases, inl, inr,
}
use Prim.Native.Nat.pow
use gin_t.Text.Numbers.{
  Parsed, parsed, unparsed, out_of_range, invalid_syntax, is_digit, parse_digits, parse_uint,
  parse_signed, parse_int,
}

abbrev pub all_digits : List ℕ → Bool
all_digits [] = true
all_digits (c ∷ s) = is_digit c && all_digits s

-- The value of a decimal numeral, by the weights of its digits.
abbrev pub decimal : List ℕ → ℕ
decimal [] = 0
decimal (c ∷ s) = (c - b'0') * 10 ^ length s + decimal s

-- a number that must not exceed `max`
abbrev pub bounded : ℕ → ℕ → Parsed ℕ
bounded max n = if leb n max then parsed n else unparsed out_of_range

power_positive : (l : ℕ) → 1 ≤ 10 ^ l
power_positive zero = omega arith
power_positive (suc l) = omega (arith, power_positive l)

times_grows : (a b : ℕ) → 1 ≤ b → a ≤ a * b
times_grows a zero h = elim h [ ]
times_grows a (suc b) h = omega arith

split_product : (n d p r : ℕ) → (n * 10 + d) * p + r ≡ n * (p * 10) + (d * p + r)
split_product n d p r = grind arith

power_suc : (l : ℕ) → 10 ^ suc l ≡ 10 ^ l * 10
power_suc l = grind (arith, pow.suc 10 l)

split_digit : (n d l r : ℕ) → (n * 10 + d) * 10 ^ l + r ≡ n * 10 ^ suc l + (d * 10 ^ l + r)
split_digit n d l r = rw (power_suc l) (split_product n d (10 ^ l) r)

pub both : (a b : Bool) → (a && b) ≡ true → (a ≡ true) × (b ≡ true)
both true true h = (refl, refl)
both true false h = cc
both false b h = cc

pub parse_digits-decimal :
    (max n : ℕ) (s : List ℕ)
    → n ≤ max
    → all_digits s ≡ true
    → parse_digits max n s ≡ bounded max (n * 10 ^ length s + decimal s)
unfolding parse_digits
parse_digits-decimal max n [] le h = ground arith
parse_digits-decimal max n (c ∷ s) le h =
    let (digit, rest) = both (is_digit c) (all_digits s) h in
    let next = n * 10 + (c - b'0') in
    let p = 10 ^ length s in
    elim (Bool-cases (leb next max)) [
      | inl fits ↦
          rw (digit, fits)
            (parse_digits-decimal max next s (ground arith) rest
              ∙ ap (bounded max) (split_digit n (c - b'0') (length s) (decimal s)))
      | inr over ↦
          let grows = times_grows next p (power_positive (length s)) in
          let e : leb (n * 10 ^ suc (length s) + decimal (c ∷ s)) max ≡ false =
            rw (← split_digit n (c - b'0') (length s) (decimal s)) (ground (arith, grows)) in
          rw (digit, over, e)
    ]

from_zero : (p n : ℕ) → 0 * p + n ≡ n
from_zero p n = omega arith

-- ParseUint of a text of digits reads the number that the text stands for, or reports that it is
-- out of range, which it is from 2 ^ 64 on.
parse_uint-decimal :
    (c : ℕ) (s : List ℕ)
    → all_digits (c ∷ s) ≡ true
    → parse_uint 64 (c ∷ s) ≡ bounded (2 ^ 64 - 1) (decimal (c ∷ s))
unfolding parse_uint
parse_uint-decimal c s h =
    parse_digits-decimal (2 ^ 64 - 1) 0 (c ∷ s) (omega arith) h
    ∙ ap (bounded (2 ^ 64 - 1)) (from_zero (10 ^ length (c ∷ s)) (decimal (c ∷ s)))

-- the number behind a sign, for a bound that 64 bits can hold
abbrev pub bounded_int : Bool → ℕ → ℕ → Parsed ℤ
bounded_int minus bits n =
    if minus
    then (if leb n (2 ^ (bits - 1)) then parsed (neg n) else unparsed out_of_range)
    else if ltb n (2 ^ (bits - 1))
    then parsed (pos n)
    else unparsed out_of_range

parse_signed-decimal :
    (minus : Bool) (c : ℕ) (s : List ℕ)
    → all_digits (c ∷ s) ≡ true
    → parse_signed minus 64 (c ∷ s) ≡ bounded_int minus 64 (decimal (c ∷ s))
unfolding parse_signed
parse_signed-decimal minus c s h =
    on minus (decimal (c ∷ s)) (parse_uint 64 (c ∷ s)) (parse_uint-decimal c s h)
  where
    on :
        (minus : Bool) (n : ℕ) (x : Parsed ℕ)
        → x ≡ bounded (2 ^ 64 - 1) n
        → (elim x [
          | unparsed invalid_syntax ↦ unparsed invalid_syntax
          | unparsed out_of_range ↦ unparsed out_of_range
          | parsed n ↦ bounded_int minus 64 n
        ])
          ≡ bounded_int minus 64 n
    on minus n x e = elim (Bool-cases (leb n (2 ^ 64 - 1))) [
      | inl fits ↦ rw (e, fits)
      | inr over ↦ rw (e, over) (large minus n over)
    ]
      where
        large :
            (minus : Bool) (n : ℕ)
            → leb n (2 ^ 64 - 1) ≡ false
            → unparsed out_of_range ≡ bounded_int minus 64 n
        large true n over = ground arith
        large false n over = ground arith

-- On a text of at least one digit ParseInt returns the number that the digits stand for if it is
-- below 2 ^ 63, and the range error otherwise, with or without a plus sign; behind a minus sign it
-- returns the negative number if it is at least -2 ^ 63, and the range error otherwise.
pub parse_int-decimal :
    (c : ℕ) (s : List ℕ)
    → all_digits (c ∷ s) ≡ true
    → (parse_int 64 (c ∷ s) ≡ bounded_int false 64 (decimal (c ∷ s)))
      × (parse_int 64 (b'+' ∷ c ∷ s) ≡ bounded_int false 64 (decimal (c ∷ s)))
      × (parse_int 64 (b'-' ∷ c ∷ s) ≡ bounded_int true 64 (decimal (c ∷ s)))
unfolding parse_int
parse_int-decimal c s h =
    let digit = (both (is_digit c) (all_digits s) h).0 in
    let no_plus : (c == b'+') ≡ false = ground arith in
    let no_minus : (c == b'-') ≡ false = ground arith in
    (
      rw (no_plus, no_minus) (parse_signed-decimal false c s h),
      parse_signed-decimal false c s h,
      parse_signed-decimal true c s h,
    )
