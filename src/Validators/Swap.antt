-- ===== src/Validators/Swap.antt =====
-- The rules that compare two fields, seen from either field.
use gin_t.Common.{ℕ, Bool, ◌==◌, arith, if◌then◌else◌, true, false, not, ◌≡◌, ◌↔◌, refl, some, ℤ}
use gin_t.Validators.Field.{
  Width, same_width, Platform, Value, text, signed, unsigned, floating, boolean, other, Field,
  Struct, Param, Error, err, ◌>>◌, fail_if, is_empty, field_by_name, same_kind, unsupported_type,
  width_code, float_code,
}
use gin_t.Validators.Compare.{listed}
use gin_t.Validators.Rules.{require}
use gin_t.Validators.Fields.{
  compare_values, compare_with, great_than_field, great_equal_field, lower_than_field,
  lower_equal_field,
}
use gin_t.Validators.Order.{Passes}

never : (c : Bool) (e e' : Error) → Passes (fail_if c e >> err e') → ⊥
never true e e' h = cc
never false e e' h = cc

-- a test behind the comparison of two kinds
test_swapped :
    (v v' : ℕ) (b : Bool) (e e' : Error) (p q : Param)
    → Passes (fail_if (not (v == v')) e >> require b p)
    → Passes (fail_if (not (v' == v)) e' >> require b q)
test_swapped v v' b e e' p q h = under (v == v') (v' == v) b (ground arith) h
  where
    under :
        (c c' b : Bool)
        → c ≡ c'
        → Passes (fail_if (not c) e >> require b p)
        → Passes (fail_if (not c') e' >> require b q)
    under true true true s h = refl
    under true true false s h = cc
    under true false b s h = cc
    under false c' b s h = cc

listed_test :
    (w w' : Width) (b : Bool) (e e' : Error) (p q : Param)
    → Passes (
        fail_if (not (same_width w w')) e
        >> (if listed w then require b p else err unsupported_type))
    → Passes (
        fail_if (not (same_width w' w)) e'
        >> (if listed w' then require b q else err unsupported_type))
listed_test w w' b e e' p q h =
    under (same_width w w') (same_width w' w) (listed w) (listed w') b (ground arith) (ground arith)
      h
  where
    under :
        (c c' l l' b : Bool)
        → c ≡ c'
        → (c ≡ true → l ≡ l')
        → Passes (fail_if (not c) e >> (if l then require b p else err unsupported_type))
        → Passes (fail_if (not c') e' >> (if l' then require b q else err unsupported_type))
    under false c' l l' b s t h = cc
    under true false l l' b s t h = cc
    under true true false l' b s t h = cc
    under true true true false b s t h = cc (t refl)
    under true true true true true s t h = refl
    under true true true true false s t h = cc

module _ {P : Platform} (ints : ℤ → ℤ → Bool) (nats : ℕ → ℕ → Bool)
    (floats : Platform.Float P → Platform.Float P → Bool) where
  -- A comparison that passes also passes from the other side.
  swapped :
      (a b : Value P) (e e' : Error) (p q : Param)
      → Passes (fail_if (not (same_kind a b)) e >> compare_values ints nats floats a b p)
      → Passes (
          fail_if (not (same_kind b a)) e'
          >> compare_values (λ x y. ints y x) (λ x y. nats y x) (λ x y. floats y x) b a q)
  unfolding same_kind compare_values
  swapped (text s) b e e' p q h = absurd (never _ e unsupported_type h)
  swapped (boolean s) b e e' p q h = absurd (never _ e unsupported_type h)
  swapped (other s) b e e' p q h = absurd (never _ e unsupported_type h)
  swapped (signed w a) (text s) e e' p q h = cc
  swapped (signed w a) (signed w' b) e e' p q h = listed_test w w' (ints a b) e e' p q h
  swapped (signed w a) (unsigned w' b) e e' p q h = cc
  swapped (signed w a) (floating w' b) e e' p q h = cc
  swapped (signed w a) (boolean b) e e' p q h = cc
  swapped (signed w a) (other b) e e' p q h = cc
  swapped (unsigned w a) (text s) e e' p q h = cc
  swapped (unsigned w a) (signed w' b) e e' p q h = cc
  swapped (unsigned w a) (unsigned w' b) e e' p q h =
      test_swapped (width_code w) (width_code w') (nats a b) e e' p q h
  swapped (unsigned w a) (floating w' b) e e' p q h = cc
  swapped (unsigned w a) (boolean b) e e' p q h = cc
  swapped (unsigned w a) (other b) e e' p q h = cc
  swapped (floating w a) (text s) e e' p q h = cc
  swapped (floating w a) (signed w' b) e e' p q h = cc
  swapped (floating w a) (unsigned w' b) e e' p q h = cc
  swapped (floating w a) (floating w' b) e e' p q h =
      test_swapped (float_code w) (float_code w') (floats a b) e e' p q h
  swapped (floating w a) (boolean b) e e' p q h = cc
  swapped (floating w a) (other b) e e' p q h = cc

  compare_swapped :
      (owner : Struct P) (f g : Field P) (p q : Param)
      → field_by_name owner.fields p.value ≡ some g.value
      → field_by_name owner.fields q.value ≡ some f.value
      → Passes (compare_with ints nats floats owner f p)
      → Passes (compare_with (λ x y. ints y x) (λ x y. nats y x) (λ x y. floats y x) owner g q)
  unfolding compare_with
  compare_swapped owner f g p q at_g at_f h =
      rw (at_f, compare_with) (swapped f.value g.value _ _ p q (rw (at_g, compare_with) at h))

-- For two fields of a struct that name each other: the first is greater than the second exactly if
-- the second is lower than the first, and the same with equality allowed, as the rules see it.
field_rules_swap :
    {P : Platform} (owner : Struct P) (f g : Field P) (p q : Param)
    → is_empty p.message ≡ false
    → is_empty p.value ≡ false
    → is_empty q.message ≡ false
    → is_empty q.value ≡ false
    → field_by_name owner.fields p.value ≡ some g.value
    → field_by_name owner.fields q.value ≡ some f.value
    → (Passes (great_than_field owner f p) ↔ Passes (lower_than_field owner g q))
      × (Passes (great_equal_field owner f p) ↔ Passes (lower_equal_field owner g q))
unfolding great_than_field great_equal_field lower_than_field lower_equal_field
field_rules_swap owner f g p q hm hv hm' hv' at_g at_f =
    rw (hm, hv, hm', hv')
      (
        (
          compare_swapped _ _ _ owner f g p q at_g at_f,
          compare_swapped _ _ _ owner g f q p at_f at_g,
        ),
        (
          compare_swapped _ _ _ owner f g p q at_g at_f,
          compare_swapped _ _ _ owner g f q p at_f at_g,
        ),
      )
