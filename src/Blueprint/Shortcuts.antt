-- ===== src/Blueprint/Shortcuts.antt =====
-- The functions of core/blue_print.go for one HTTP method or one service: each fixes the first
-- argument of Handle, of the search of a service or of its setter.
use gin_t.Common.{ℕ, Option, some, List}
use gin_t.Text.{Bytes, codes}
use gin_t.Outcome.{Outcome, ◌>>=◌}
use gin_t.Blueprint.Store.{
  Service, Store, file_storage, parsers, validator, logger, xml_serializer, json_serializer,
  find_service, set_service,
}
use gin_t.Blueprint.Register.{handle}

module _ {H : Type 0} where
  module _ (grow : ℕ → ℕ → ℕ) (w : Store H) (b : ℕ) (path : Bytes) (handlers : List H) where
    abbrev pub get : Outcome (Store H)
    get = handle grow w b (codes "GET") path handlers

    abbrev post : Outcome (Store H)
    post = handle grow w b (codes "POST") path handlers

    abbrev put : Outcome (Store H)
    put = handle grow w b (codes "PUT") path handlers

    abbrev patch : Outcome (Store H)
    patch = handle grow w b (codes "PATCH") path handlers

    abbrev delete : Outcome (Store H)
    delete = handle grow w b (codes "DELETE") path handlers

    abbrev pub head : Outcome (Store H)
    head = handle grow w b (codes "HEAD") path handlers

    abbrev options : Outcome (Store H)
    options = handle grow w b (codes "OPTIONS") path handlers

  module _ (fuel : ℕ) (w : Store H) (b : ℕ) where
    abbrev find_xml_serializer : Outcome (Option ℕ)
    find_xml_serializer = find_service fuel w b xml_serializer

    abbrev find_json_serializer : Outcome (Option ℕ)
    find_json_serializer = find_service fuel w b json_serializer

    abbrev find_file_storage : Outcome (Option ℕ)
    find_file_storage = find_service fuel w b file_storage

    abbrev find_parsers : Outcome (Option ℕ)
    find_parsers = find_service fuel w b parsers

    abbrev find_validator : Outcome (Option ℕ)
    find_validator = find_service fuel w b validator

    abbrev find_logger : Outcome (Option ℕ)
    find_logger = find_service fuel w b logger

  module _ (w : Store H) (b : ℕ) (v : Option ℕ) where
    abbrev set_xml_serializer : Outcome (Store H)
    set_xml_serializer = set_service w b xml_serializer v

    abbrev set_json_serializer : Outcome (Store H)
    set_json_serializer = set_service w b json_serializer v

    abbrev set_file_storage : Outcome (Store H)
    set_file_storage = set_service w b file_storage v

    abbrev set_parsers : Outcome (Store H)
    set_parsers = set_service w b parsers v

    abbrev set_validator : Outcome (Store H)
    set_validator = set_service w b validator v

    abbrev set_logger : Outcome (Store H)
    set_logger = set_service w b logger v

  -- Default: the six services, in their order
  unfoldable set_defaults : Store H → ℕ → (Service → ℕ) → Outcome (Store H)
  unfolding set_service
  set_defaults w b v = do
    w1 ← set_file_storage w b (some (v file_storage))
    w2 ← set_validator w1 b (some (v validator))
    w3 ← set_parsers w2 b (some (v parsers))
    w4 ← set_logger w3 b (some (v logger))
    w5 ← set_json_serializer w4 b (some (v json_serializer))
    set_xml_serializer w5 b (some (v xml_serializer))
