-- ===== src/Context/Samples.antt =====
-- Chains of handlers, and the theorems at work on them.
use gin_t.Common.{
  if◌then◌else◌, ℕ, zero, suc, ◌+◌, ◌≡◌, refl, true, Option, none, some, List, [], ◌∷◌, list_eq,
  length, map, arith,
}
use gin_t.Text.{Bytes, codes}
use gin_t.Outcome.{Outcome, ok, panic, nil_dereference, index_out_of_range}
use gin_t.Tree.Add.First.{single}
use gin_t.Router.{Matched, match}
use gin_t.Context.{
  get_value, set_value_of, Context, Action, next, work, abort_with_status, respond, start, finish,
  advance, loop, run_handler, going, current,
}
use gin_t.Context.Chain.{start-overflow}
use gin_t.Context.Interceptors.{add_interceptors, serve_http-add_interceptors}
use gin_t.Context.Onion.{view, onion}
use gin_t.Context.Onion.Correct.{start-onion}
use gin_t.Context.Items.{get_value-set_value_of}
use gin_t.Context.Serve.{
  Engine, zero_context, serve_http, ran, AllReady, chain_for, serve_http-run_through, prepare,
}

abbrev handlers : List (Option (List Action))
handlers =
    some (work 1 ∷ [])
    ∷ some (work 2 ∷ abort_with_status 403 ∷ work 3 ∷ [])
    ∷ some (respond 4 ∷ [])
    ∷ []

abbrev request : Context
request = record zero_context { group = handlers }

-- The third handler does not run.
abbrev works_of : Outcome Context → List ℕ
works_of (ok c) = c.works
works_of _ = []

aborted_works : works_of (start 4 request) ≡ 1 ∷ 2 ∷ 3 ∷ []
unfolding start loop going current run_handler
aborted_works = refl

-- A handler that calls Next runs around the ones behind it.
nested_works :
    works_of (
      start 9 (record zero_context {
        group = some (work 1 ∷ next ∷ work 3 ∷ []) ∷ some (work 2 ∷ []) ∷ [];
      }))
    ≡ 1 ∷ 2 ∷ 3 ∷ []
unfolding start loop going current run_handler
nested_works = refl

abbrev copies : ℕ → List (Option (List Action))
copies zero = []
copies (suc n) = some (work 1 ∷ []) ∷ copies n

abbrev crowded : Context
crowded = record zero_context { group = copies 256 }

start-overflow_example : start 1 crowded ≡ ok (finish (advance crowded))
start-overflow_example = start-overflow crowded 0 refl refl

abbrev site : Engine
site = record {
  trees = (codes "GET", single (codes "/ab") handlers) ∷ [];
  interceptors = some (work 0 ∷ []) ∷ [];
  not_found = respond 404 ∷ [];
  pool = [];
}

abbrev hit : Matched (List (Option (List Action)))
hit = record { full_path = codes "/ab"; params = none; group = some handlers }

site_matches :
    match site.trees
      (codes "GET")
      (codes "/ab")
      (record { full_path = []; params = none; group = none })
    ≡ ok (true, hit)
unfolding match gin_t.Router.find_tree gin_t.Tree.Lookup.get_value list_eq
site_matches = refl

serve_http-run_through_example :
    (e' : Engine) × (serve_http
        (length (chain_for site true hit) + 1)
        site
        (codes "GET")
        (codes "/ab")
      ≡ ok (e', (ran site true hit).events))
    × AllReady e'.pool
serve_http-run_through_example =
    serve_http-run_through site (codes "GET") (codes "/ab") true hit tt site_matches
      (tt, (tt, (tt, (tt, tt)))) (omega arith)

get_value-set_value_of_example :
    (c' : Context) × (set_value_of (codes "user") 7 zero_context ≡ ok c')
    × (c' ≡ record zero_context { items = c'.items })
    × ((k : Bytes)
        → get_value k c' ≡ (if list_eq (codes "user") k then some 7 else get_value k zero_context))
get_value-set_value_of_example = get_value-set_value_of zero_context (codes "user") 7

abbrev plain_site : Engine
plain_site = record site { interceptors = [] }

serve_http-add_interceptors_example :
    serve_http 1 (add_interceptors ((work 5 ∷ []) ∷ []) plain_site) (codes "GET") (codes "/ab")
    ≡ panic nil_dereference
unfolding prepare add_interceptors
serve_http-add_interceptors_example =
    serve_http-add_interceptors plain_site (work 5 ∷ []) [] (codes "GET") (codes "/ab") hit 0 refl
      tt site_matches (omega arith)

abbrev around : List (List Action)
around = (work 1 ∷ next ∷ work 3 ∷ []) ∷ (work 2 ∷ []) ∷ []

abbrev nested : Context
nested = record zero_context { group = map (λ h. some h) around }

start-onion_example :
    (c' : Context) × (start 3 nested ≡ ok c') × (view c' ≡ finish (onion around (view nested)))
start-onion_example = start-onion around nested refl refl (omega arith)

-- 128 handlers that call Next: the index wraps around to 0 on the way back.
abbrev callers : ℕ → List (Option (List Action))
callers zero = []
callers (suc n) = some (next ∷ []) ∷ callers n

deep : start 129 (record zero_context { group = callers 128 }) ≡ panic index_out_of_range
unfolding start loop going current run_handler
deep = refl
