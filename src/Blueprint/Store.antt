-- ===== src/Blueprint/Store.antt =====
-- The blueprints of a program, at addresses, with the arrays of their handlers. The zero blueprint
-- has no services; a service is found in the nearest ancestor that has one.
use gin_t.Common.{
  ℕ, zero, suc, Bool, true, false, Option, none, some, List, [], get_elem?, if◌then◌else◌,
}
use gin_t.Text.{Bytes}
use gin_t.Outcome.{Outcome, ok, panic, out_of_fuel, nil_dereference, nil_service, ◌>>=◌, or_panic}
use gin_t.Blueprint.Slice.{Slice, nil_slice, set_at}

-- The fields of a BluePrint that hold a service; each has a getter and a setter.
pub data Service : Type 0 where
  file_storage parsers validator logger xml_serializer json_serializer : Service

abbrev same_service : Service → Service → Bool
same_service file_storage file_storage = true
same_service parsers parsers = true
same_service validator validator = true
same_service logger logger = true
same_service xml_serializer xml_serializer = true
same_service json_serializer json_serializer = true
same_service s s' = false

-- handleNode: a route, with its handlers and the address of its blueprint.
pub record HandleNode : Type 0 where
  pub path : Bytes
  pub handles : Slice
  pub blueprint : ℕ

pub record BluePrint : Type 0 where
  pub services : Service → Option ℕ
  pub parent : Option ℕ
  pub methods_tree : List (Bytes × List HandleNode)
  pub middleware : Slice
  pub prefix : Bytes

abbrev pub new_blue_print : BluePrint
new_blue_print = record {
  services = λ s. none;
  parent = none;
  methods_tree = [];
  middleware = nil_slice;
  prefix = [];
}

-- Handlers are of any type `H`; an element of an array that is not set yet is `none`.
pub record Store (H : Type 0) : Type 0 where
  pub blueprints : List BluePrint
  pub arrays : List (List (Option H))

module _ {H : Type 0} where
  -- the blueprint behind a pointer
  unfoldable pub load : Store H → ℕ → Outcome BluePrint
  load w b = or_panic (get_elem? w.blueprints b) nil_dereference

  abbrev pub store : Store H → ℕ → BluePrint → Store H
  store w b bp = record w { blueprints = set_at w.blueprints b bp }

  -- IsRoot
  unfoldable pub is_root : Store H → ℕ → Outcome Bool
  unfolding load
  is_root w b = do bp ← load w b; elim bp.parent [ none ↦ ok true | some p ↦ ok false ]

  -- XMLSerializer, JSONSerializer, FileStorage, Parsers, Validator and Logger, on fuel: the recursion
  -- through the parents does not end in a cycle of parents.
  unfoldable pub find_service : ℕ → Store H → ℕ → Service → Outcome (Option ℕ)
  find_service zero w b s = out_of_fuel
  find_service (suc fuel) w b s = do
    bp ← load w b
    elim (bp.services s) [
      | some v ↦ ok (some v)
      | none ↦ elim bp.parent [ none ↦ ok none | some p ↦ find_service fuel w p s ]
    ]

  -- SetXMLSerializer and so on; nil panics.
  unfoldable pub set_service : Store H → ℕ → Service → Option ℕ → Outcome (Store H)
  unfolding load
  set_service w b s none = panic nil_service
  set_service w b s (some v) = do
    bp ← load w b
    ok (
        store w b
          (record bp { services = λ s'. if same_service s s' then some v else bp.services s' }))
