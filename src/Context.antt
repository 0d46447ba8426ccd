-- ===== src/Context.antt =====
-- core/context.go: the state of a request, and the run of its handlers. A handler is a list of
-- actions on the context. Contexts are values: the lock on `items` guards single operations.
pub mod Straight
pub mod Chain
pub mod Serve
pub mod Interceptors
pub mod Onion
pub mod Items
mod Samples
use gin_t.Common.{
  ℕ, zero, suc, ◌+◌, ◌%◌, Bool, true, false, not, ◌&&◌, ◌||◌, Option, none, some, List, [], ◌∷◌,
  ◌++◌, leb, ◌==◌, length, list_eq, if◌then◌else◌,
}
use gin_t.Text.{Bytes}
use gin_t.Outcome.{
  Outcome, ok, panic, out_of_fuel, ◌>>=◌, index, or_panic, nil_dereference, nil_map,
}
use gin_t.Tree.Node.{u8}
use gin_t.Tree.Lookup.{Param}

-- What reaches the response writer: a status line, or a body.
pub data Event : Type 0 where
  header body : ℕ → Event

-- What a handler does: `work` stands for steps that leave the context alone, and `respond` for
-- Render with a body.
pub data Action : Type 0 where
  next abort : Action
  work set_status abort_with_status respond : ℕ → Action
  set_value : Bytes → ℕ → Action

pub record Context : Type 0 where
  pub matched : Bool
  pub escape : Bool
  pub index : ℕ  -- uint8
  pub abort_index : ℕ  -- uint8
  pub status : ℕ
  pub written : Bool
  pub items : Option (List (Bytes × ℕ))  -- `none` for the nil map
  pub params : Option (List Param)
  pub group : List (Option (List Action))  -- `none` for a nil node or a nil function
  pub full_path : Bytes
  pub events : List Event  -- of the response writer
  pub works : List ℕ  -- the `work` of the handlers so far

abbrev pub is_aborted : Context → Bool
is_aborted c = not (c.abort_index == 0)

-- bodyAllowedForStatus of core/http.go
unfoldable pub body_allowed : ℕ → Bool
body_allowed status =
    if leb 100 status && leb status 199 then false else not (status == 204) && not (status == 304)

-- `items[key] = val` and `items[key]` for a map that is there
unfoldable pub set_item : List (Bytes × ℕ) → Bytes → ℕ → List (Bytes × ℕ)
set_item [] key val = (key, val) ∷ []
set_item ((k, v) ∷ items) key val =
    let rest = set_item items key val in if list_eq k key then (k, val) ∷ items else (k, v) ∷ rest

unfoldable pub get_item : List (Bytes × ℕ) → Bytes → Option ℕ
get_item [] key = none
get_item ((k, v) ∷ items) key = if list_eq k key then some v else get_item items key

-- A nil map has no keys, and an assignment to it panics.
unfoldable pub assign_item : Option (List (Bytes × ℕ)) → Bytes → ℕ → Outcome (List (Bytes × ℕ))
unfolding set_item
assign_item none key val = panic nil_map
assign_item (some items) key val = ok (set_item items key val)

unfoldable pub get_value : Bytes → Context → Option ℕ
unfolding get_item
get_value key c = elim c.items [ none ↦ none | some items ↦ get_item items key ]

abbrev is_nil : Option (List (Bytes × ℕ)) → Bool
is_nil none = true
is_nil (some items) = false

unfoldable pub set_value_of : Bytes → ℕ → Context → Outcome Context
unfolding assign_item
set_value_of key val c = do
  let made = if is_nil c.items then record c { items = some [] } else c
  items ← assign_item made.items key val
  ok (record made { items = some items })

-- The body is allowed by the status that has just been set to 0.
unfoldable pub render : ℕ → Context → Context
unfolding body_allowed
render content c =
    let sent =
      if c.status == 0
      then c
      else record c { events = c.events ++ header c.status ∷ []; status = 0 } in
    if not (body_allowed sent.status)
    then sent
    else record sent { written = true; events = sent.events ++ body content ∷ [] }

abbrev items_of : Option (List (Bytes × ℕ)) → List (Bytes × ℕ)
items_of none = []
items_of (some items) = items

abbrev mark_aborted : Context → Context
mark_aborted c = record c { abort_index = c.index }

abbrev with_status : ℕ → Context → Context
with_status code c = record c { status = code }

abbrev mark_aborted_with_status : ℕ → Context → Context
mark_aborted_with_status code c = mark_aborted (with_status code c)

-- what `set_value_of` returns, as it always does
abbrev pub with_value : Bytes → ℕ → Context → Context
with_value key val c = record c { items = some (set_item (items_of c.items) key val) }

-- an action that is no call of Next
unfoldable pub perform : Action → Context → Context
unfolding render set_item
perform next c = c
perform abort c = mark_aborted c
perform (work n) c = record c { works = c.works ++ n ∷ [] }
perform (set_status code) c = with_status code c
perform (abort_with_status code) c = mark_aborted_with_status code c
perform (respond content) c = render content c
perform (set_value key val) c = with_value key val c

-- A handler; a call of Next goes on with `rest`.
unfoldable pub run_handler : (Context → Outcome Context) → List Action → Context → Outcome Context
unfolding perform
run_handler rest [] c = ok c
run_handler rest (next ∷ actions) c = do c' ← rest c; run_handler rest actions c'
run_handler rest (action ∷ actions) c = run_handler rest actions (perform action c)

-- c.index++
abbrev pub advance : Context → Context
advance c = record c { index = u8 (c.index + 1) }

-- `c.index <= uint8(len(c.group)) && !c.IsAborted()`
unfoldable pub going : Context → Bool
going c = leb c.index (u8 (length c.group)) && not (is_aborted c)

-- c.group[c.index-1], with the index computed in a uint8
unfoldable pub current : Context → Outcome (List Action)
unfolding index
current c = do handler ← index c.group (u8 (c.index + 255)); or_panic handler nil_dereference

-- The loop of Next.
unfoldable pub loop : ℕ → Context → Outcome Context
loop zero c = out_of_fuel
loop (suc fuel) c = elim (going c) [
  | false ↦ ok c
  | true ↦ do
    handler ← current c
    c' ← run_handler (λ d. loop fuel (advance d)) handler c
    loop fuel (advance c')
]

unfoldable pub next_from : ℕ → Context → Outcome Context
unfolding loop
next_from fuel c = loop fuel (advance c)

unfoldable pub finish : Context → Context
finish c =
    if not (c.status == 0) && not c.written
    then record c { events = c.events ++ header c.status ∷ [] }
    else c

-- A panic goes through `start` behind the deferred `finish`, whose write is not modelled then.
unfoldable pub start : ℕ → Context → Outcome Context
unfolding next_from finish
start fuel c = do c' ← next_from fuel c; ok (finish c')

unfoldable pub reset : Context → Context
reset c = record c { index = 0; matched = false; status = 0; written = false; abort_index = 0 }
