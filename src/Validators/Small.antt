-- ===== src/Validators/Small.antt =====
-- A struct with rules in its tags, on a small platform: floating-point numbers are natural numbers,
-- and a pattern matches the text it was compiled from.
use gin_t.Common.{ℕ, true, none, some, [], ◌∷◌, pos, ltb, leb, ◌==◌, list_eq}
use gin_t.Text.{Bytes, codes}
use gin_t.Text.Numbers.{unparsed, invalid_syntax}
use gin_t.Validators.Field.{Platform, Field, Struct, signed, word}

abbrev pub small : Platform
small = record {
  Float = ℕ;
  less = ltb;
  less_equal = leb;
  equal = λ x y. x == y;
  parse_float = λ s. unparsed invalid_syntax;
  format_float = λ w x. [];
  Pattern = Bytes;
  compile = λ s. some s;
  matches = list_eq;
  email = codes "a@b.c";
  uuid = [];
  phone = codes "1";
  url = codes "ftp://a";
  parses_as_date = list_eq;
  Opaque = ⊥;
  kind_of = λ x. 0;
  deep_equal = λ x y. true;
}

abbrev pub age : Field small
age = record {
  name = codes "Age";
  tag = some (codes "gt(m=young,value=17);lt(m=old, value=30)");
  value = signed word (pos 20);
}

abbrev limit : Field small
limit = record { name = codes "Limit"; tag = none; value = signed word (pos 8) }

abbrev pub person : Struct small
person = record { fields = age ∷ limit ∷ []; methods = [] }
