-- ===== src/Validators/Opposites.antt =====
-- Rules that are the opposite of each other.
use gin_t.Common.{ℕ, Bool, true, false, ◌≡◌, ◌≢◌, refl, Option, List, [], ◌∷◌, ◌==◌, if◌then◌else◌}
use gin_t.Text.{Bytes, split_on, without_spaces}
use gin_t.Text.Numbers.{Parsed, parsed, unparsed, parse_uint}
use gin_t.Validators.Field.{
  Width, Platform, Field, Struct, Param, unsigned, Checked, fine, err, crash, ◌>>=◌, ◌>>◌, custom,
  fail_if, need_message, need_value, number_of, unsupported, is_empty, message_required,
  value_required,
}
use gin_t.Validators.Compare.{is_contains, is_equal, any_item}
use gin_t.Validators.Rules.{
  require, refuse, in_range, equal, not_equal, contains, not_contains, between, not_between,
}

-- One of two results passes and the other one carries the message, or both are the same refusal.
pub data IsOpposed (message : Bytes) (a b : Checked (Unit {0})) : Type 0 where
  first_passes : a ≡ fine tt → b ≡ err (custom message) → IsOpposed message a b
  second_passes : a ≡ err (custom message) → b ≡ fine tt → IsOpposed message a b
  both_refuse : a ≡ b → a ≢ fine tt → IsOpposed message a b

opposed :
    (x : Checked Bool) (param : Param)
    → IsOpposed param.message (x >>= λ ok. require ok param) (x >>= λ ok. refuse ok param)
opposed crash param = both_refuse refl (λ e. cc)
opposed (err e) param = both_refuse refl (λ e'. cc)
opposed (fine true) param = first_passes refl refl
opposed (fine false) param = second_passes refl refl

-- the tests on the parameter come first in both
behind_checks :
    (param : Param) (a b : Checked (Unit {0}))
    → IsOpposed param.message a b
    → IsOpposed param.message
        (need_message param >> (need_value param >> a))
        (need_message param >> (need_value param >> b))
behind_checks param a b o = under (is_empty param.message) (is_empty param.value)
  where
    under :
        (m v : Bool)
        → IsOpposed param.message
            (fail_if m message_required >> (fail_if v value_required >> a))
            (fail_if m message_required >> (fail_if v value_required >> b))
    under true v = both_refuse refl (λ e. cc)
    under false true = both_refuse refl (λ e. cc)
    under false false = o

-- For every field and parameter, equal and not_equal, contains and not_contains, and between and
-- not_between are opposed: exactly one of the two passes and the other one fails with the message,
-- or both fail with the same error.
pub opposite_rules :
    {P : Platform} (owner : Struct P) (field : Field P) (param : Param)
    → IsOpposed param.message (equal owner field param) (not_equal owner field param)
      × IsOpposed param.message (contains owner field param) (not_contains owner field param)
      × IsOpposed param.message (between owner field param) (not_between owner field param)
unfolding equal not_equal contains not_contains between not_between
opposite_rules owner field param = (
  behind_checks param _ _ (opposed (is_equal field.value param.value) param),
  behind_checks param _ _ (opposed (is_contains field.value param.value) param),
  behind_checks param _ _ (opposed (in_range field.value param.value) param),
)

-- The loop over a list never returns false if the code behind it returns an error.
any_item_never_false :
    {A : Type 0} (parse : Bytes → Parsed A) (is : A → Bool) (items : List Bytes)
    → any_item parse is (err unsupported) items ≢ fine false
unfolding any_item
any_item_never_false parse is [] e = cc
any_item_never_false {A} parse is (item ∷ items) e =
    step (any_item parse is (err unsupported) items) (any_item_never_false parse is items)
      (parse (without_spaces item)) e
  where
    step :
        (rest : Checked Bool)
        → rest ≢ fine false
        → (x : Parsed A) → (number_of x >>= λ k. if is k then fine true else rest) ≢ fine false
    step rest h (unparsed u) e = cc
    step rest h (parsed k) e = on (is k) e
      where
        on : (b : Bool) → (if b then fine true else rest) ≢ fine false
        on true e = cc
        on false e = h e

-- not_contains passes for no field of an unsigned integer type, whatever the parameter.
not_contains-unsigned :
    {P : Platform} (owner : Struct P) (name : Bytes) (tag : Option Bytes) (w : Width) (n : ℕ)
    (param : Param)
    → not_contains owner (record { name = name; tag = tag; value = unsigned w n }) param ≢ fine tt
unfolding not_contains is_contains
not_contains-unsigned owner name tag w n param =
    under (is_empty param.message) (is_empty param.value) _
      (any_item_never_false (parse_uint 64) (λ k. n == k) (split_on b',' param.value))
  where
    under :
        (m v : Bool) (x : Checked Bool)
        → x ≢ fine false
        → (fail_if m message_required
            >> (fail_if v value_required >> (x >>= λ ok. refuse ok param)))
          ≢ fine tt
    under true v x h e = cc
    under false true x h e = cc
    under false false crash h e = cc
    under false false (err c) h e = cc
    under false false (fine true) h e = cc
    under false false (fine false) h e = h refl
