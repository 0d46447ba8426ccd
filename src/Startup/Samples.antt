-- ===== src/Startup/Samples.antt =====
-- An engine with one middleware, and the theorems at work on it.
use gin_t.Common.{
  ℕ, ◌≡◌, refl, ◌&&◌, false, Option, none, some, List, [], ◌∷◌, ◌++◌, map, list_eq, Bool-cases, inl,
  inr, if◌then◌else◌, arith,
}
use gin_t.Text.{Bytes, codes}
use gin_t.Outcome.{Outcome, ok}
use gin_t.Router.{match, Matched, find_tree}
use gin_t.Router.Dispatch.{handlers_of}
use gin_t.Blueprint.Slice.{Slice, contents, append_slice}
use gin_t.Blueprint.Append.{IsSlice, Grows}
use gin_t.Blueprint.Store.{HandleNode, BluePrint, new_blue_print, Store, load}
use gin_t.Blueprint.Register.{find_nodes, handle}
use gin_t.Startup.{HandleFuncNode, Trees, wrap_all, init_methods, run_starters}
use gin_t.Startup.Plain.{trees_of, insert_methods, init_methods-plain}
use gin_t.Startup.Methods.{AllOnce, init_methods-order}
use gin_t.Startup.Pipeline.{handle-init_methods-match}

abbrev exact : ℕ → ℕ → ℕ
exact cap need = need

exact-Grows : Grows exact
exact-Grows cap need = omega arith

abbrev chain : Slice
chain = record { array = 0; len = 1; cap = 1 }

abbrev route : HandleNode
route = record { path = codes "/a"; handles = chain; blueprint = 0 }

abbrev engine : BluePrint
engine = record new_blue_print { middleware = chain }

abbrev busy : BluePrint
busy = record engine { methods_tree = (codes "GET", route ∷ []) ∷ [] }

abbrev arrays : List (List (Option ℕ))
arrays = (some 7 ∷ []) ∷ []

abbrev site : Store ℕ
site = record { blueprints = engine ∷ []; arrays = arrays }

abbrev busy_site : Store ℕ
busy_site = record { blueprints = busy ∷ []; arrays = arrays }

chain-IsSlice : IsSlice arrays chain
chain-IsSlice = record { within = omega arith; in_array = omega arith }

site-engine : load site 0 ≡ ok engine
unfolding load
site-engine = refl

busy_site-busy : load busy_site 0 ≡ ok busy
unfolding load
busy_site-busy = refl

init_methods-plain_example :
    trees_of (init_methods exact busy_site 0 busy.methods_tree [])
    ≡ insert_methods busy_site (contents arrays chain) busy.methods_tree []
init_methods-plain_example =
    init_methods-plain exact busy_site 0 busy [] exact-Grows busy_site-busy chain-IsSlice
      ((chain-IsSlice, tt), tt) refl

get-plain : list_eq (codes "GET") (codes "*") ≡ false
unfolding list_eq
get-plain = refl

handle-init_methods-match_example :
    (w' : Store ℕ) × (bp' : BluePrint) × (done : Store ℕ) × (trees : Trees ℕ) × (handle exact site 0
        (codes "GET")
        (codes "/x")
        (8 ∷ [])
      ≡ ok w')
    × (load w' 0 ≡ ok bp')
    × (init_methods exact w' 0 bp'.methods_tree [] ≡ ok (done, trees))
    × ((k q : Bytes) (ctx : Matched (List (HandleFuncNode ℕ)))
        → handlers_of (match trees k q ctx) ≡ (
            if list_eq (codes "GET") k && list_eq q (codes "/x")
            then some (
                wrap_all 0
                  (contents arrays chain ++ (contents arrays chain ++ map (λ h. some h) (8 ∷ []))))
            else none))
handle-init_methods-match_example =
    handle-init_methods-match exact site 0 engine (codes "GET") (codes "x") (8 ∷ []) exact-Grows
      site-engine refl refl chain-IsSlice refl get-plain refl refl

-- The middleware has room, and one node stands under two methods: init writes the middleware over the
-- handler, and the second method gets none.
abbrev roomy : Store ℕ
roomy = record {
  blueprints = record engine { middleware = record { array = 0; len = 1; cap = 3 } } ∷ [];
  arrays = (some 7 ∷ some 8 ∷ none ∷ []) ∷ [];
}

abbrev both : HandleNode
both = record { path = codes "/a"; handles = record { array = 0; len = 2; cap = 3 }; blueprint = 0 }

abbrev chain_of : Outcome (Store ℕ × Trees ℕ) → List (Option ℕ)
chain_of (ok (w, trees)) = contents w.arrays both.handles
chain_of _ = []

lost_handler :
    chain_of (init_methods exact roomy 0 ((codes "GET", both ∷ []) ∷ []) []) ≡ some 7 ∷ some 7 ∷ []
unfolding init_methods gin_t.Startup.init_nodes gin_t.Startup.init_node load append_slice contents
    gin_t.Router.insert gin_t.Router.find_tree gin_t.Tree.Walk.add_route
    gin_t.Tree.Insert.insert_child
lost_handler = refl

abbrev get_first : List (Bytes × List HandleNode)
get_first = (codes "GET", route ∷ []) ∷ (codes "POST", route ∷ []) ∷ []

abbrev post_first : List (Bytes × List HandleNode)
post_first = (codes "POST", route ∷ []) ∷ (codes "GET", route ∷ []) ∷ []

abbrev trees_or_none : Outcome (Trees ℕ) → Trees ℕ
trees_or_none (ok trees) = trees
trees_or_none _ = []

abbrev inserted : Trees ℕ
inserted = trees_or_none (trees_of (init_methods exact busy_site 0 get_first []))

get_first-inserted : trees_of (init_methods exact busy_site 0 get_first []) ≡ ok inserted
unfolding init_methods gin_t.Startup.init_nodes gin_t.Startup.init_node load append_slice contents
    gin_t.Router.insert gin_t.Router.find_tree gin_t.Router.set_tree gin_t.Tree.Walk.add_route
    gin_t.Tree.Insert.insert_child list_eq
get_first-inserted = refl

same_nodes : (k : Bytes) → find_nodes post_first k ≡ find_nodes get_first k
unfolding find_nodes
same_nodes k = elim (Bool-cases (list_eq (codes "GET") k)) [
  | inl b ↦ elim (Bool-cases (list_eq (codes "POST") k)) [ inl c ↦ rw (b, c) | inr c ↦ rw (b, c) ]
  | inr b ↦ elim (Bool-cases (list_eq (codes "POST") k)) [ inl c ↦ rw (b, c) | inr c ↦ rw (b, c) ]
]

get_first-AllOnce : AllOnce get_first
unfolding find_nodes list_eq
get_first-AllOnce = (refl, (refl, tt))

post_first-AllOnce : AllOnce post_first
unfolding find_nodes list_eq
post_first-AllOnce = (refl, (refl, tt))

init_methods-order_example :
    (a2 : Trees ℕ) × (trees_of (init_methods exact busy_site 0 post_first []) ≡ ok a2)
    × ((k : Bytes) → find_tree a2 k ≡ find_tree inserted k)
init_methods-order_example =
    init_methods-order exact busy_site 0 busy get_first post_first [] inserted exact-Grows
      busy_site-busy chain-IsSlice refl ((chain-IsSlice, tt), ((chain-IsSlice, tt), tt))
      ((chain-IsSlice, tt), ((chain-IsSlice, tt), tt)) get_first-AllOnce post_first-AllOnce
      same_nodes get_first-inserted
