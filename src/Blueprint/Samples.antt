-- ===== src/Blueprint/Samples.antt =====
-- Two blueprints, and the theorems at work on them.
use gin_t.Common.{ℕ, ◌+◌, ◌≡◌, ◌≢◌, refl, Option, none, some, List, [], ◌∷◌, map, list_eq, arith}
use gin_t.Text.{codes}
use gin_t.Outcome.{ok, out_of_fuel}
use gin_t.Blueprint.Slice.{Slice}
use gin_t.Blueprint.Append.{IsSlice, Grows}
use gin_t.Blueprint.Store.{
  parsers, BluePrint, new_blue_print, Store, HandleNode, load, store, find_service,
}
use gin_t.Blueprint.Services.{
  Lineage, top, below, first_of, find_service-Lineage, IsCycle, find_service-IsCycle,
}
use gin_t.Blueprint.Register.{find_nodes, handle, include, bind_struct}
use gin_t.Blueprint.Handle.{IsHandled, handle-IsHandled}
use gin_t.Blueprint.Include.{IsMerged, IsTree, under, include-IsMerged}
use gin_t.Blueprint.BindCalls.{all_calls, handle_all, bind_struct-handle_all}
use gin_t.Blueprint.Shares.{IsShared, handle-IsShared}

-- to the double of what is needed
abbrev double : ℕ → ℕ → ℕ
double cap need = need + need

double-Grows : Grows double
double-Grows cap need = omega arith

abbrev chain : Slice
chain = record { array = 0; len = 1; cap = 3 }

abbrev arrays : List (List (Option ℕ))
arrays = (some 7 ∷ none ∷ none ∷ []) ∷ []

chain-IsSlice : IsSlice arrays chain
chain-IsSlice = record { within = omega arith; in_array = omega arith }

abbrev route : HandleNode
route = record { path = codes "/a"; handles = chain; blueprint = 1 }

abbrev root : BluePrint
root = record new_blue_print { middleware = chain; prefix = codes "/v1"; services = λ s. some 5 }

abbrev branch : BluePrint
branch = record new_blue_print { parent = some 0; methods_tree = (codes "GET", route ∷ []) ∷ [] }

abbrev site : Store ℕ
site = record { blueprints = root ∷ branch ∷ []; arrays = arrays }

site-root : load site 0 ≡ ok root
unfolding load
site-root = refl

site-branch : load site 1 ≡ ok branch
unfolding load
site-branch = refl

site-Lineage : Lineage site 1 (branch ∷ root ∷ [])
site-Lineage = below branch 0 site-branch refl (top root site-root refl)

find_service-Lineage_example :
    find_service 2 site 1 parsers ≡ ok (first_of (branch ∷ root ∷ []) parsers)
find_service-Lineage_example = find_service-Lineage parsers site-Lineage

-- a blueprint that is its own parent, as after Include of itself
abbrev looped : Store ℕ
looped = record { blueprints = record new_blue_print { parent = some 0 } ∷ []; arrays = [] }

looped-IsCycle : IsCycle looped parsers (λ b. b ≡ 0)
unfolding load
looped-IsCycle = record {
  next = λ b e. rw e (record new_blue_print { parent = some 0 }, 0, refl, refl, refl, refl);
}

find_service-IsCycle_example : find_service 9 looped 0 parsers ≡ out_of_fuel
find_service-IsCycle_example =
    find_service-IsCycle looped parsers (λ b. b ≡ 0) 0 9 looped-IsCycle refl

handle-IsHandled_example :
    (w' : Store ℕ) × (handle double site 0 (codes "GET") (codes "/x") (8 ∷ []) ≡ ok w')
    × IsHandled site 0 root (codes "GET") (codes "/x") (8 ∷ []) w'
handle-IsHandled_example =
    handle-IsHandled double site 0 root (codes "GET") (codes "/x") (8 ∷ []) double-Grows
      chain-IsSlice site-root

branch-IsTree : IsTree branch.methods_tree
unfolding list_eq find_nodes
branch-IsTree = ((refl, refl, refl), tt)

include-IsMerged_example :
    (d : IsMerged
      (store site 1 (record branch { parent = some 0 }))
      0
      root
      (λ k. map (under (codes "/v1") 1) (find_nodes branch.methods_tree k))
      (include site 0 (codes "/v1") 1))
    × (load d.result 1 ≡ ok (record branch { parent = some 0 }))
    × ((j : ℕ) → j ≢ 0 → j ≢ 1 → load d.result j ≡ load site j)
include-IsMerged_example =
    include-IsMerged site 0 1 (codes "/v1") root branch site-root site-branch
      (λ e. omega (arith, e)) branch-IsTree

handle-IsShared_example :
    (w1 w2 : Store ℕ) × (handle double site 0 (codes "GET") (codes "/x") (8 ∷ []) ≡ ok w1)
    × (handle double w1 0 (codes "GET") (codes "/y") (9 ∷ []) ≡ ok w2)
    × IsShared site 0 root (codes "GET") (codes "/x") (codes "GET") (codes "/y") 8 9 w1 w2
handle-IsShared_example =
    handle-IsShared double site 0 root (codes "GET") (codes "/x") (codes "GET") (codes "/y") 8 9
      chain-IsSlice site-root (omega arith)

bind_struct-handle_all_example :
    (w' : Store ℕ) × (handle_all double site 1
        (codes "/x")
        (all_calls ((codes "Show", some 4) ∷ []) (((codes "Show", codes "get") ∷ []) ∷ []))
      ≡ ok w')
    × (bind_struct double site 1
          (codes "/x")
          (some ((codes "Show", some 4) ∷ []))
          (((codes "Show", codes "get") ∷ []) ∷ [])
        ≡ ok w')
unfolding list_eq
bind_struct-handle_all_example =
    bind_struct-handle_all double site 1 branch (codes "/x") (some ((codes "Show", some 4) ∷ []))
      (((codes "Show", codes "get") ∷ []) ∷ []) site-branch
