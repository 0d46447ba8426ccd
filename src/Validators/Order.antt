-- ===== src/Validators/Order.antt =====
-- The rules that compare an integer field with a number.
use gin_t.Common.{
  ◌^◌, ◌∙◌, ℕ, Bool, true, false, not, ◌≡◌, ◌⊎◌, inl, inr, refl, Option, ◌∷◌, ◌==◌, ltb, leb, arith,
  ℤ, pos, negsuc, ltz, lez, eqz,
}
use gin_t.Text.{Bytes}
use gin_t.Text.Numbers.{parsed, parse_int, parse_uint}
use gin_t.Text.Decimal.{all_digits, decimal, parse_int-decimal}
use gin_t.Validators.Field.{
  Width, Platform, Field, Struct, Param, Error, Value, signed, unsigned, Checked, fine, err,
  fail_if, is_empty,
}
use gin_t.Validators.Compare.{listed, is_gt, is_lt, is_ge, is_le, is_equal}
use gin_t.Validators.Rules.{equal, not_equal, greater_than, greater_equal, lower_than, lower_equal}

abbrev pub Passes : Checked (Unit {0}) → Type 0
Passes r = r ≡ fine tt

-- A field of an integer type that all six rules take, and its order and equality with the number
-- that a text stands for.
pub data Against {P : Platform} : Value P → Bytes → Bool → Bool → Bool → Type 0 where
  ints :
      (w : Width) (n k : ℤ) (v : Bytes)
      → listed w ≡ true
      → parse_int 64 v ≡ parsed k
      → Against (signed w n) v (ltz n k) (eqz n k) (ltz k n)
  nats :
      (w : Width) (n k : ℕ) (v : Bytes)
      → listed w ≡ true
      → parse_uint 64 v ≡ parsed k
      → Against (unsigned w n) v (ltb n k) (n == k) (ltb k n)

-- Exactly one of three.
abbrev OneOf : Bool → Bool → Bool → Type 0
OneOf lt eq gt =
    ((lt ≡ true) × (eq ≡ false) × (gt ≡ false))
    ⊎ ((lt ≡ false) × (eq ≡ true) × (gt ≡ false))
    ⊎ ((lt ≡ false) × (eq ≡ false) × (gt ≡ true))

lez-not : (a b : ℤ) → lez a b ≡ not (ltz b a)
lez-not (pos a) (pos b) = ground arith
lez-not (pos a) (negsuc b) = refl
lez-not (negsuc a) (pos b) = refl
lez-not (negsuc a) (negsuc b) = ground arith

leb-not : (a b : ℕ) → leb a b ≡ not (ltb b a)
leb-not a b = ground arith

OneOf-nats : (a b : ℕ) → OneOf (ltb a b) (a == b) (ltb b a)
OneOf-nats a b = ground arith

OneOf-ints : (a b : ℤ) → OneOf (ltz a b) (eqz a b) (ltz b a)
OneOf-ints (pos a) (pos b) = ground arith
OneOf-ints (pos a) (negsuc b) = inr (inr (refl, refl, refl))
OneOf-ints (negsuc a) (pos b) = inl (refl, refl, refl)
OneOf-ints (negsuc a) (negsuc b) = ground arith

-- The rule passes if the test holds, and returns an error if it does not.
abbrev Tells : Checked (Unit {0}) → Bool → Type 0
Tells result b = (b ≡ true → Passes result) × (b ≡ false → (e : Error) × (result ≡ err e))

fail_if-Tells : (b : Bool) (e : Error) → Tells (fail_if (not b) e) b
fail_if-Tells true e = (λ h. refl, λ h. cc)
fail_if-Tells false e = (λ h. cc, λ h. (e, refl))

refuse-Tells : (b : Bool) (e : Error) → Tells (fail_if b e) (not b)
refuse-Tells true e = (λ h. cc, λ h. (e, refl))
refuse-Tells false e = (λ h. refl, λ h. cc)

-- A field that is below, at or above a number: what each of the six rules makes of it.
pub record IsOrdered {P : Platform} (owner : Struct P) (field : Field P) (param : Param)
    (lt eq gt : Bool) : Type 0 where
  pub one_of : OneOf lt eq gt
  pub lower : Tells (lower_than owner field param) lt
  pub same : Tells (equal owner field param) eq
  pub greater : Tells (greater_than owner field param) gt
  pub not_lower : Tells (greater_equal owner field param) (not lt)
  pub not_same : Tells (not_equal owner field param) (not eq)
  pub not_greater : Tells (lower_equal owner field param) (not gt)

-- On a field of an integer type but int16 and uint16, with a message, and a value that parses as a
-- number: the field is below, at or above the number, exactly one of these; lt, eq and gt pass in
-- the first, second and third case, and ge, ne and le exactly where lt, eq and gt return an error.
pub integer_rules :
    {P : Platform} (owner : Struct P) (name : Bytes) (tag : Option Bytes) (value : Value P)
    (param : Param) (lt eq gt : Bool)
    → is_empty param.message ≡ false
    → is_empty param.value ≡ false
    → Against value param.value lt eq gt
    → IsOrdered owner (record { name = name; tag = tag; value = value }) param lt eq gt
unfolding equal not_equal greater_than greater_equal lower_than lower_equal is_gt is_lt is_ge is_le
    is_equal
integer_rules owner name tag value param lt eq gt hm hv (ints w n k v l e) = record {
  one_of = OneOf-ints n k;
  lower = rw (hm, hv, l, e) (fail_if-Tells (ltz n k) _);
  same = rw (hm, hv, l, e) (fail_if-Tells (eqz n k) _);
  greater = rw (hm, hv, l, e) (fail_if-Tells (ltz k n) _);
  not_lower = rw (hm, hv, l, e, lez-not k n) (fail_if-Tells (not (ltz n k)) _);
  not_same = rw (hm, hv, l, e) (refuse-Tells (eqz n k) _);
  not_greater = rw (hm, hv, l, e, lez-not n k) (fail_if-Tells (not (ltz k n)) _);
}
integer_rules owner name tag value param lt eq gt hm hv (nats w n k v l e) = record {
  one_of = OneOf-nats n k;
  lower = rw (hm, hv, l, e) (fail_if-Tells (ltb n k) _);
  same = rw (hm, hv, e) (fail_if-Tells (n == k) _);
  greater = rw (hm, hv, e) (fail_if-Tells (ltb k n) _);
  not_lower = rw (hm, hv, e, leb-not k n) (fail_if-Tells (not (ltb n k)) _);
  not_same = rw (hm, hv, e) (refuse-Tells (n == k) _);
  not_greater = rw (hm, hv, e, leb-not n k) (fail_if-Tells (not (ltb k n)) _);
}

-- On a signed field but int16, with a message and a value of decimal digits below 2 ^ 63, the six
-- rules compare the field with the number that the digits stand for.
decimal_rules :
    {P : Platform} (owner : Struct P) (name : Bytes) (tag : Option Bytes) (w : Width) (n : ℤ)
    (message : Bytes) (c : ℕ) (s : Bytes)
    → listed w ≡ true
    → is_empty message ≡ false
    → all_digits (c ∷ s) ≡ true
    → ltb (decimal (c ∷ s)) (2 ^ 63) ≡ true
    → IsOrdered owner
        (record { name = name; tag = tag; value = signed w n })
        (record { message = message; value = c ∷ s })
        (ltz n (pos (decimal (c ∷ s))))
        (eqz n (pos (decimal (c ∷ s))))
        (ltz (pos (decimal (c ∷ s))) n)
decimal_rules owner name tag w n message c s l hm digits small =
    integer_rules owner name tag (signed w n) (record { message = message; value = c ∷ s }) _ _ _ hm
      refl
      (ints w n (pos (decimal (c ∷ s))) (c ∷ s) l ((parse_int-decimal c s digits).0 ∙ rw small))
