-- ===== src/Request.antt =====
-- What a handler reads from a request: core/params.go, core/parser.go, and the readers of
-- core/context.go. The values of the query and of the form are what net/url and net/http parse; the
-- binders are functions of the parser that is chosen.
pub mod Params
pub mod Data
pub mod Bound
pub mod Uri
pub mod Upload
mod Samples
use gin_t.Common.{
  ℕ, zero, suc, ◌+◌, ◌-◌, Bool, true, false, ◌&&◌, ◌||◌, Option, none, some, List, [], ◌∷◌, ◌++◌,
  map, length, take, leb, list_eq, if◌then◌else◌,
}
use gin_t.Text.{Bytes, codes}
use gin_t.Outcome.{Outcome, ok, or_panic, nil_dereference, index, ◌>>=◌}
use gin_t.Tree.Node.{u8}
use gin_t.Tree.Lookup.{Param}
use gin_t.Blueprint.Store.{Store, Service, parsers, validator, find_service}
use gin_t.Values.{new_values}
use gin_t.Validators.Field.{Platform, Struct, Checked}
use gin_t.Validators.Tags.{Library, validate}

-- Params.byName, and Get
unfoldable pub by_name : List Param → Bytes → Bytes
by_name [] name = []
by_name (p ∷ params) name = if list_eq p.key name then p.val else by_name params name

-- url.Values, with each key once
abbrev pub UrlValues : Type 0
UrlValues = List (Bytes × List Bytes)

unfoldable pub values_at : UrlValues → Bytes → List Bytes
values_at [] key = []
values_at ((k, vs) ∷ values) key = if list_eq k key then vs else values_at values key

-- values.Add
unfoldable pub add_value : UrlValues → Bytes → Bytes → UrlValues
add_value [] key v = (key, v ∷ []) ∷ []
add_value ((k, vs) ∷ values) key v =
    let rest = add_value values key v in
    if list_eq k key then (k, vs ++ v ∷ []) ∷ values else (k, vs) ∷ rest

-- the loop of ToURLValues
unfoldable pub add_params : List Param → UrlValues → UrlValues
unfolding add_value
add_params [] values = values
add_params (p ∷ params) values = add_params params (add_value values p.key p.val)

unfoldable pub to_url_values : List Param → UrlValues
unfolding add_params
to_url_values params = add_params params []

-- url.Values.Get
abbrev pub first_value : List Bytes → Bytes
first_value [] = []
first_value (v ∷ vs) = v

-- The caches of a context; `none` is nil.
pub record Caches : Type 0 where
  pub query_cache : Option UrlValues
  pub form_cache : Option UrlValues

-- Query: `parsed` is what url.URL.Query returns, which is never nil
unfoldable pub query : UrlValues → Caches → UrlValues × Caches
query parsed c = elim c.query_cache [
  | some values ↦ (values, c)
  | none ↦ (parsed, record c { query_cache = some parsed })
]

unfoldable query_value : UrlValues → Bytes → Caches → Bytes × Caches
unfolding query values_at
query_value parsed key c =
    let (values, c') = query parsed c in (first_value (values_at values key), c')

unfoldable query_values : UrlValues → Bytes → Caches → List Bytes × Caches
unfolding query values_at
query_values parsed key c =
    let (values, c') = query parsed c in (new_values (values_at values key), c')

-- From: `post_form` is Request.PostForm behind ParseForm, whose error is dropped
unfoldable pub form : Option UrlValues → Caches → Option UrlValues × Caches
form post_form c = elim c.form_cache [
  | some values ↦ (some values, c)
  | none ↦ (post_form, record c { form_cache = post_form })
]

-- the map of a form; nil has no keys
abbrev or_empty : Option UrlValues → UrlValues
or_empty none = []
or_empty (some values) = values

unfoldable form_value : Option UrlValues → Bytes → Caches → Bytes × Caches
unfolding form values_at
form_value post_form key c =
    let (values, c') = form post_form c in (first_value (values_at (or_empty values) key), c')

unfoldable form_values : Option UrlValues → Bytes → Caches → List Bytes × Caches
unfolding form values_at new_values
form_values post_form key c =
    let (values, c') = form post_form c in (new_values (values_at (or_empty values) key), c')

-- reset, of the caches
abbrev reset_caches : Caches → Caches
reset_caches c = record { query_cache = none; form_cache = none }

pub data Parser : Type 0 where
  json_parser form_parser multipart_parser xml_parser query_parser : Parser

-- strings.ToLower, on ASCII, and strings.Contains
abbrev to_lower : Bytes → Bytes
to_lower s = map (λ c. if leb b'A' c && leb c b'Z' then c + 32 else c) s

abbrev has_part : Bytes → Bytes → Bool
has_part [] part = list_eq [] part
has_part (c ∷ s) part = list_eq (take (length part) (c ∷ s)) part || has_part s part

-- IsWebsocket and IsAjax, of the headers that they read; `equal_fold` is strings.EqualFold
unfoldable is_websocket : (Bytes → Bytes → Bool) → Bytes → Bytes → Bool
is_websocket equal_fold connection upgrade =
    has_part (to_lower connection) (codes "upgrade") && equal_fold upgrade (codes "websocket")

unfoldable is_ajax : (Bytes → Bytes → Bool) → Bytes → Bool
is_ajax equal_fold requested_with = equal_fold requested_with (codes "XMLHttpRequest")

-- Match of each parser, for a content type
abbrev match_form : Bytes → Bool
match_form content_type =
    has_part (to_lower content_type) (codes "application/x-www-form-urlencoded")

abbrev match_json : Bytes → Bool
match_json content_type = has_part (to_lower content_type) (codes "application/json")

abbrev match_multipart : Bytes → Bool
match_multipart content_type = has_part (to_lower content_type) (codes "multipart/form-data")

abbrev match_xml : Bytes → Bool
match_xml content_type =
    let lower = to_lower content_type in
    has_part lower (codes "application/xml") || has_part lower (codes "text/xml")

unfoldable match_parser : Parser → Bytes → Bool
match_parser json_parser content_type = match_json content_type
match_parser form_parser content_type = match_form content_type
match_parser multipart_parser content_type = match_multipart content_type
match_parser xml_parser content_type = match_xml content_type
match_parser query_parser content_type = true

-- The parser that Parsers.Parse runs.
unfoldable pub choose_parser : List Parser → Bytes → Parser
unfolding match_parser
choose_parser [] content_type = query_parser
choose_parser (p ∷ ps) content_type =
    if match_parser p content_type then p else choose_parser ps content_type

-- of BluePrint.Default
abbrev pub default_parsers : List Parser
default_parsers = json_parser ∷ form_parser ∷ multipart_parser ∷ xml_parser ∷ []

-- Context.BluePrint: the blueprint of the handler that runs, from those of the chain
unfoldable pub current_blueprint : List ℕ → ℕ → Outcome ℕ
current_blueprint blueprints i = index blueprints (u8 (i + 255))

-- AbortHandler: of the chain, the index and the abort's index
unfoldable abort_handler {ℓ} : {A : Type ℓ} → List A → ℕ → Outcome (Option A)
abort_handler group zero = ok none
abort_handler group (suc i) = do h ← index group (suc i); ok (some h)

-- What Data returns: the error of a binder, or what Validate returns.
pub data Answer (E : Type 0) : Type 0 where
  not_bound : E → Answer E
  checked : Checked (Unit {0}) → Answer E

-- The parsers of a blueprint, which are nil if no ancestor has any.
abbrev pub parsers_or_nil : (ℕ → List Parser) → Option ℕ → List Parser
parsers_or_nil parsers_of none = []
parsers_or_nil parsers_of (some a) = parsers_of a

-- Parsers.Parse
unfoldable pub parse {ℓ} : {B : Type ℓ} → (Parser → B) → List Parser → Bytes → B
unfolding choose_parser
parse binders ps content_type = binders (choose_parser ps content_type)

module _ {H E : Type 0} {P : Platform} where
  -- the part of Data behind the parser
  unfoldable pub validate_bound :
      ℕ → Store H → ℕ → (ℕ → Library P) → Struct P × Option E → Outcome (Struct P × Answer E)
  validate_bound fuel w b rules_of (v, some e) = ok (v, not_bound e)
  validate_bound fuel w b rules_of (v, none) = do
    found ← find_service fuel w b validator
    a ← or_panic found nil_dereference
    ok (v, checked (validate (rules_of a) v))

  -- Data: `parsers_of` and `rules_of` are the services at their addresses
  unfoldable pub data_into :
      ℕ
      → Store H
      → List ℕ
      → ℕ
      → (ℕ → List Parser)
      → (ℕ → Library P)
      → (Parser → Struct P → Struct P × Option E)
      → Bytes
      → Struct P
      → Outcome (Struct P × Answer E)
  unfolding current_blueprint parse validate_bound
  data_into fuel w blueprints i parsers_of rules_of binders content_type v = do
    b ← current_blueprint blueprints i
    ps ← find_service fuel w b parsers
    validate_bound fuel w b rules_of (parse binders (parsers_or_nil parsers_of ps) content_type v)
