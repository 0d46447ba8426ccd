-- ===== src/Request/Bound.antt =====
-- The binders of core/context.go, BindQuery to BindURI, on the binders of core/bind. Parsing of the
-- request, and what a serializer decodes of its body, are parameters.
use gin_t.Common.{ℕ, Option, none, some, List}
use gin_t.Outcome.{Outcome, ok, or_panic, nil_dereference, ◌>>=◌}
use gin_t.Tree.Lookup.{Param}
use gin_t.Blueprint.Store.{Store, Service, json_serializer, xml_serializer, find_service}
use gin_t.Validators.Field.{Platform}
use gin_t.Bind.Slot.{Host, Status, Binding}
use gin_t.Bind.Form.{Target, bind_query, bind_form_body, bind_header, bind_uri}
use gin_t.Bind.Multipart.{MultipartForm, bind_multipart_body}
use gin_t.Request.{UrlValues, to_url_values}

-- What a binder of the context returns.
pub data BindAnswer (E : Type 0) : Type 0 where
  not_parsed : E → BindAnswer E
  bound : Status → BindAnswer E
  decoded : Option E → BindAnswer E

module _ {P : Platform} {E : Type 0} (h : Host P) where
  abbrev bound_by : Binding (Target P) → Target P × BindAnswer E
  bound_by (v, status) = (v, bound status)

  -- BindQuery and BindHeader
  unfoldable bind_query_into : UrlValues → Target P → Target P × BindAnswer E
  bind_query_into parsed v = bound_by (bind_query h parsed v)

  unfoldable bind_header_into : UrlValues → Target P → Target P × BindAnswer E
  bind_header_into headers v = bound_by (bind_header h headers v)

  -- BindForm and BindMultipartForm, with the error of the parsing and the form it leaves
  unfoldable bind_form_into : Option E → UrlValues → Target P → Target P × BindAnswer E
  bind_form_into none form v = bound_by (bind_form_body h form v)
  bind_form_into (some e) form v = (v, not_parsed e)

  unfoldable bind_multipart_into :
      Option E → Option (MultipartForm P) → Target P → Target P × BindAnswer E
  bind_multipart_into none form v = bound_by (bind_multipart_body h form v)
  bind_multipart_into (some e) form v = (v, not_parsed e)

  -- BindURI
  unfoldable pub bind_uri_into : List Param → Target P → Target P × BindAnswer E
  unfolding to_url_values
  bind_uri_into params v = bound_by (bind_uri h (to_url_values params) v)

module _ {H V E : Type 0} where
  -- Decode of a serializer that is looked up; a serializer that is nil panics
  unfoldable bind_with :
      ℕ → Store H → ℕ → Service → (ℕ → V → V × Option E) → V → Outcome (V × BindAnswer E)
  unfolding find_service
  bind_with fuel w b service decodes v = do
    found ← find_service fuel w b service
    a ← or_panic found nil_dereference
    let (v', e) = decodes a v
    ok (v', decoded e)

  -- BindJSON and BindXML
  abbrev bind_json_into : ℕ → Store H → ℕ → (ℕ → V → V × Option E) → V → Outcome (V × BindAnswer E)
  bind_json_into fuel w b decodes v = bind_with fuel w b json_serializer decodes v

  abbrev bind_xml_into : ℕ → Store H → ℕ → (ℕ → V → V × Option E) → V → Outcome (V × BindAnswer E)
  bind_xml_into fuel w b decodes v = bind_with fuel w b xml_serializer decodes v
