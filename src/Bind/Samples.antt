-- ===== src/Bind/Samples.antt =====
-- Structs that are bound, and the theorems at work on them. In the small platform the values of
-- other kinds are numbers, all of one kind, and floating-point numbers are natural numbers.
use gin_t.Common.{
  ℕ, ◌≡◌, ◌⊎◌, refl, true, false, none, some, List, [], ◌∷◌, pos, ltb, leb, ◌==◌, list_eq,
}
use gin_t.Text.{Bytes, codes}
use gin_t.Text.Numbers.{NumError, Parsed, unparsed, invalid_syntax, parse_int}
use gin_t.Validators.Field.{Platform, Value, text, signed, unsigned, word, w8}
use gin_t.Bind.Slot.{
  Host, Slot, scalar, slice, BindError, number, done, failed, FormField, find_key,
}
use gin_t.Tree.Lookup.{Param}
use gin_t.Request.Params.{vals_of}
use gin_t.Request.Bound.{bound, bind_uri_into}
use gin_t.Request.Uri.{fields_from, bind_uri_into-vals_of}
use gin_t.Bind.Single.{bind, bind_slice, bind_single}
use gin_t.Bind.Form.{
  Target, pointer, Values, FormBinder, bind_fields, with_slot, plain_binder, tags_of,
}
use gin_t.Bind.Runs.{IsRun, bind_fields-IsRun}
use gin_t.Bind.Slices.{AllBound, bind_slice-AllBound}

abbrev small : Platform
small = record {
  Float = ℕ;
  less = ltb;
  less_equal = leb;
  equal = λ x y. x == y;
  parse_float = λ s. unparsed invalid_syntax;
  format_float = λ w x. [];
  Pattern = Bytes;
  compile = λ s. some s;
  matches = list_eq;
  email = codes "a@b.c";
  uuid = [];
  phone = codes "1";
  url = codes "ftp://a";
  parses_as_date = list_eq;
  Opaque = ℕ;
  kind_of = λ x. 0;
  deep_equal = λ x y. true;
}

abbrev host : Host small
host = record {
  parse_float = λ w s. unparsed invalid_syntax;
  takes_json = λ o. true;
  unmarshal = λ s o. (7, true);
  is_time = λ o. false;
  of_unix = λ i. 0;
  parse_time = λ format s. none;
  is_file = λ o. true;
}

abbrev bytes_field : Slot small
bytes_field = slice (unsigned w8 0) (unsigned w8 1 ∷ [])

too_large :
    bind host bytes_field (codes "9" ∷ codes "300" ∷ [])
    ≡ (bytes_field, failed (number gin_t.Text.Numbers.NumError.out_of_range))
unfolding bind bind_single gin_t.Text.Numbers.parse_uint
too_large = refl

bind_slice-AllBound_example :
    ((values : List (Value small)) × (bind_slice host (unsigned w8 0) [] (codes "9" ∷ [])
        ≡ (values, done))
      × AllBound host (unsigned w8 0) (codes "9" ∷ []) values)
    ⊎ ((e : BindError) × (bind_slice host (unsigned w8 0) [] (codes "9" ∷ []) ≡ ([], failed e)))
bind_slice-AllBound_example = bind_slice-AllBound host (unsigned w8 0) [] (codes "9" ∷ [])

-- A page with a default, and a name behind it.
abbrev page : FormField small
page = record {
  name = codes "Page";
  tags = (codes "form", codes "page,1") ∷ [];
  slot = scalar (signed word (pos 0));
}

abbrev name : FormField small
name = record { name = codes "Name"; tags = []; slot = scalar (text []) }

abbrev binder : FormBinder small
binder = plain_binder host (codes "form")

abbrev form : Values
form = (codes "page", codes "x" ∷ []) ∷ (codes "Name", codes "Ann" ∷ []) ∷ []

bytes_bound :
    bind host bytes_field (codes "9" ∷ []) ≡ (slice (unsigned w8 0) (unsigned w8 9 ∷ []), done)
unfolding bind bind_single gin_t.Text.Numbers.parse_uint
bytes_bound = refl

-- The parameters of a path, of which one is a field of the page.
abbrev params : List Param
params = record { key = codes "Page"; val = codes "7" } ∷ record { key = codes "id"; val = [] } ∷ []

bind_uri_into-vals_of_example : bind_uri_into {E = ℕ} host params (pointer (page ∷ name ∷ [])) ≡ (
    let (fields', status) =
      fields_from host (plain_binder host (codes "url")) (vals_of params) (page ∷ name ∷ []) in
    (pointer fields', bound status))
bind_uri_into-vals_of_example = bind_uri_into-vals_of host params (page ∷ name ∷ [])

page_seven :
    fields_from host (plain_binder host (codes "url")) (vals_of params) (page ∷ [])
    ≡ (with_slot page (scalar (signed word (pos 7))) ∷ [], done)
unfolding tags_of find_key list_eq gin_t.Text.split_on gin_t.Bind.Form.bind_given bind bind_single
    parse_int
page_seven = refl

-- The page does not fit and takes its default; the binding ends there, and the name is not bound.
falls_back :
    bind_fields host binder form (page ∷ name ∷ [])
    ≡ (with_slot page (scalar (signed word (pos 1))) ∷ name ∷ [], done)
unfolding bind_fields find_key bind bind_single parse_int tags_of list_eq gin_t.Text.split_on
    gin_t.Bind.Form.bind_field
falls_back = refl

bind_fields-IsRun_example :
    IsRun host binder form
      (page ∷ name ∷ [])
      (bind_fields host binder form (page ∷ name ∷ [])).0
      (bind_fields host binder form (page ∷ name ∷ [])).1
bind_fields-IsRun_example = bind_fields-IsRun host binder form (page ∷ name ∷ [])
