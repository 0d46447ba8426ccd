-- ===== src/Validators/Samples.antt =====
-- The theorems at work on a struct with rules in its tags.
use gin_t.Common.{◌≡◌, refl, true, false, none, pos, list_eq}
use gin_t.Text.{Bytes, codes}
use gin_t.Text.Numbers.{parsed, parse_int}
use gin_t.Validators.Field.{Field, Struct, Param, fine, err, unsupported, signed, word, w16}
use gin_t.Validators.Rules.{
  Rule, required, greater_than, equal, not_equal, contains, not_contains, between, not_between,
}
use gin_t.Validators.Tags.{Library, find_rule, register_validator, validate}
use gin_t.Validators.Library.{library}
use gin_t.Validators.Opposites.{IsOpposed, opposite_rules}
use gin_t.Validators.Order.{Against, ints, IsOrdered, integer_rules}
use gin_t.Validators.Run.{IsFirst, rules_of, validate-IsFirst}
use gin_t.Validators.Small.{small, age, person}

abbrev param_of : Bytes → Param
param_of v = record { message = codes "no"; value = v }

person_passes : validate (library small) person ≡ fine tt
unfolding validate library gin_t.Validators.Tags.run_rule greater_than
    gin_t.Validators.Rules.lower_than gin_t.Validators.Compare.is_gt gin_t.Validators.Compare.is_lt
    gin_t.Text.split_on list_eq parse_int
person_passes = refl

opposite_rules_example :
    IsOpposed
      (codes "no")
      (equal person age (param_of (codes "20")))
      (not_equal person age (param_of (codes "20")))
    × IsOpposed
        (codes "no")
        (contains person age (param_of (codes "20")))
        (not_contains person age (param_of (codes "20")))
    × IsOpposed
        (codes "no")
        (between person age (param_of (codes "20")))
        (not_between person age (param_of (codes "20")))
opposite_rules_example = opposite_rules person age (param_of (codes "20"))

parse_17 : parse_int 64 (codes "17") ≡ parsed (pos 17)
unfolding parse_int
parse_17 = refl

age-Against : Against (Field.value age) (codes "17") false false true
age-Against = ints word (pos 20) (pos 17) (codes "17") refl parse_17

integer_rules_example : IsOrdered person age (param_of (codes "17")) false false true
integer_rules_example =
    integer_rules person (Field.name age) (Field.tag age) (Field.value age) (param_of (codes "17"))
      false false true refl refl age-Against

-- A field of type int16, which the rules refuse.
abbrev short : Field small
short = record { name = codes "Short"; tag = none; value = signed w16 (pos 20) }

int16_refused : equal person short (param_of (codes "20")) ≡ err unsupported
unfolding equal gin_t.Validators.Compare.is_equal
int16_refused = refl

validate-IsFirst_example :
    IsFirst
      (library small)
      person
      (rules_of (Struct.fields person))
      (validate (library small) person)
validate-IsFirst_example = validate-IsFirst (library small) person
