-- ===== src/Request/Samples.antt =====
-- A request for a struct with rules in its tags, and the theorems at work on it.
use gin_t.Common.{ℕ, ◌≡◌, refl, Option, none, some, List, [], ◌∷◌, list_eq}
use gin_t.Text.{codes}
use gin_t.Outcome.{Outcome, ok}
use gin_t.Tree.Lookup.{Param}
use gin_t.Blueprint.Store.{BluePrint, new_blue_print, Store, load, parsers, validator}
use gin_t.Blueprint.Services.{Lineage, top, first_of}
use gin_t.Validators.Field.{Struct}
use gin_t.Validators.Library.{library}
use gin_t.Validators.Small.{small, person}
use gin_t.Request.{
  Parser, json_parser, form_parser, multipart_parser, xml_parser, query_parser, default_parsers,
  choose_parser, current_blueprint, parsers_or_nil, data_into,
}
use gin_t.Request.Data.{IsAnswer, data_into-IsAnswer}

abbrev params : List Param
params =
    record { key = codes "id"; val = codes "7" } ∷ record { key = codes "id"; val = codes "8" } ∷ []

-- A content type is searched for a name, whatever the type itself is.
boundary_chooses :
    choose_parser default_parsers (codes "Multipart/Form-Data; boundary=application/json")
    ≡ json_parser
unfolding choose_parser list_eq
boundary_chooses = refl

form_chooses :
    choose_parser default_parsers (codes "Application/X-WWW-Form-Urlencoded; charset=utf-8")
    ≡ form_parser
unfolding choose_parser list_eq
form_chooses = refl

abbrev root : BluePrint
root = record new_blue_print { services = λ s. some 0 }

abbrev site : Store ℕ
site = record { blueprints = root ∷ []; arrays = [] }

site-Lineage : Lineage site 0 (root ∷ [])
unfolding load
site-Lineage = top root refl refl

at_first : current_blueprint (0 ∷ []) 1 ≡ ok 0
unfolding current_blueprint gin_t.Outcome.index
at_first = refl

-- binders that leave the struct as it is, and refuse XML
abbrev binders : Parser → Struct small → Struct small × Option ℕ
binders xml_parser v = (v, some 1)
binders json_parser v = (v, none)
binders form_parser v = (v, none)
binders multipart_parser v = (v, none)
binders query_parser v = (v, none)

data_into-IsAnswer_example :
    IsAnswer
      (λ a. library small)
      (first_of (root ∷ []) validator)
      (binders
        (choose_parser
          (parsers_or_nil (λ a. default_parsers) (first_of (root ∷ []) parsers))
          (codes "text/xml"))
        person)
      (data_into 1 site
        (0 ∷ [])
        1
        (λ a. default_parsers)
        (λ a. library small)
        binders
        (codes "text/xml")
        person)
data_into-IsAnswer_example =
    data_into-IsAnswer site 0 (root ∷ []) (0 ∷ []) 1 (λ a. default_parsers) (λ a. library small)
      binders (codes "text/xml") person site-Lineage at_first
