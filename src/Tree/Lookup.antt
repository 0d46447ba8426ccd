-- ===== src/Tree/Lookup.antt =====
-- getValue of core/tree.go, by recursion on the node at which a round of the loop stands.
pub mod Rounds
pub mod Correct
use gin_t.Common.{
  ℕ, zero, suc, ◌+◌, ◌-◌, Bool, true, false, ◌&&◌, ◌||◌, not, Option, none, some, List, [], ◌∷◌,
  ◌++◌, length, drop, take, get_elem?, ltb, leb, ◌==◌, list_eq, if◌then◌else◌,
}
use gin_t.Outcome.{
  Outcome, ok, panic, index_out_of_range, slice_bounds, invalid_node_type, ◌>>=◌, ◌>>◌, panic_if,
  or_panic, index, slice,
}
use gin_t.Tree.Node.{
  NodeType, static, root, param, catch_all, Info, RouterNode, node, Children, nil, cons, info_of,
  children_of, size, child_at,
}
use gin_t.Tree.Walk.{index_of, is_catch_all, slash_at}

-- A parameter of core/params.go.
pub record Param : Type 0 where
  pub key : List ℕ
  pub val : List ℕ

-- The three results of getValue. The parameters are nil until the first one is saved.
pub record Found (H : Type 0) : Type 0 where
  pub handle : Option H
  pub params : Option (List Param)
  pub tsr : Bool

abbrev pub is_some {ℓ} : {A : Type ℓ} → Option A → Bool
is_some none = false
is_some (some a) = true

-- The length of the text before the next '/'.
unfoldable pub param_end : List ℕ → ℕ
param_end [] = 0
param_end (c ∷ s) = if c == b'/' then 0 else suc (param_end s)

-- The parameters saved so far, with the capacity of their slice, which the first one allocates.
pub record Saved : Type 0 where
  pub capacity : ℕ
  pub params : List Param

abbrev pub params_of : Option Saved → Option (List Param)
params_of none = none
params_of (some s) = some s.params

-- `make(Params, 0, n.maxParams)` if there are none yet
abbrev allocated : Option Saved → ℕ → Saved
allocated none max_params = record { capacity = max_params; params = [] }
allocated (some s) max_params = s

-- "expand slice within preallocated capacity", and the two writes; the key is n.path[from:]
unfoldable pub save_param : Option Saved → ℕ → ℕ → List ℕ → List ℕ → Outcome Saved
unfolding slice
save_param saved max_params from path val = do
  let s = allocated saved max_params
  panic_if (not (leb (length s.params + 1) s.capacity)) slice_bounds
  key ← slice from (length path) path
  ok (record s { params = s.params ++ record { key = key; val = val } ∷ [] })

abbrev pub is_root : NodeType → Bool
is_root root = true
is_root _ = false

module _ {H : Type 0} where
  abbrev pub not_found : Option Saved → Bool → Found H
  not_found saved tsr = record { handle = none; params = params_of saved; tsr = tsr }

  -- a handle for this path and a trailing slash, below the child for '/'
  pub slash_child : RouterNode H → Outcome Bool
  slash_child (node n cs) =
      if length n.path == 1 && is_some n.handle
      then ok true
      else if is_catch_all n.n_type
      then (do c ← or_panic (child_at cs 0) index_out_of_range; ok (is_some (info_of c).handle))
      else ok false

  -- the branch for `path == n.path`
  unfoldable pub end_value : List ℕ → Option Saved → RouterNode H → Outcome (Found H)
  unfolding slash_child index_of
  end_value path saved (node n cs) = elim n.handle [
    | some h ↦ ok (record { handle = some h; params = params_of saved; tsr = false })
    | none ↦
        if list_eq path (b'/' ∷ []) && n.wild_child && not (is_root n.n_type)
        then ok (not_found saved true)
        else elim (index_of b'/' n.indices 0) [
          | none ↦ ok (not_found saved false)
          | some k ↦ do
            c ← or_panic (child_at cs k) index_out_of_range
            tsr ← slash_child c
            ok (not_found saved tsr)
        ]
  ]

  -- "Nothing found": the end of the loop's body
  unfoldable pub no_value : List ℕ → Option Saved → Info H → Found H
  no_value path saved n = not_found saved (
      list_eq path (b'/' ∷ [])
      || (length n.path == length path + 1
          && slash_at n.path (length path)
          && list_eq path (take (length n.path - 1) n.path)
          && is_some n.handle))

  -- `len(n.children) == 1`, and the child is "/" with a handle
  abbrev pub only_slash : Children H → Bool
  only_slash nil = false
  only_slash (cons c nil) = list_eq (info_of c).path (b'/' ∷ []) && is_some (info_of c).handle
  only_slash (cons c (cons d cs)) = false

  -- a parameter at the end of the path
  unfoldable pub param_value : Saved → RouterNode H → Found H
  param_value saved (node n cs) = elim n.handle [
    | some h ↦ record { handle = some h; params = some saved.params; tsr = false }
    | none ↦ not_found (some saved) (only_slash cs)
  ]

unfoldable mutual
  unfolding end_value no_value param_value save_param index index_of param_end

  pub get_value : {H : Type 0} → RouterNode H → List ℕ → Option Saved → Outcome (Found H)
  get_value (node n cs) path saved = elim (ltb (length n.path) (length path)) [
    | true ↦ elim (list_eq (take (length n.path) path) n.path) [
      | true ↦ elim n.wild_child [
        | true ↦ wild_value cs (drop (length n.path) path) saved
        | false ↦ do
          c ← index (drop (length n.path) path) 0
          elim (index_of c n.indices 0) [
            | some k ↦ child_value cs k (drop (length n.path) path) saved
            | none ↦ ok (
                not_found saved
                  (list_eq (drop (length n.path) path) (b'/' ∷ []) && is_some n.handle))
          ]
      ]
      | false ↦ ok (no_value path saved n)
    ]
    | false ↦ elim (list_eq path n.path) [
      | true ↦ end_value path saved (node n cs)
      | false ↦ ok (no_value path saved n)
    ]
  ]

  -- the loop goes on at children[k]
  pub child_value : {H : Type 0} → Children H → ℕ → List ℕ → Option Saved → Outcome (Found H)
  child_value nil k path saved = panic index_out_of_range
  child_value (cons c cs) zero path saved = get_value c path saved
  child_value (cons c cs) (suc k) path saved = child_value cs k path saved

  -- "handle wildcard child": the switch on the type of children[0]
  pub wild_value : {H : Type 0} → Children H → List ℕ → Option Saved → Outcome (Found H)
  wild_value nil path saved = panic index_out_of_range
  wild_value (cons (node n cs) others) path saved = elim n.n_type [
    | param ↦ do
      s ← save_param saved n.max_params 1 n.path (take (param_end path) path)
      elim (ltb (param_end path) (length path)) [
        | true ↦ elim (ltb 0 (size cs)) [
          | true ↦ child_value cs 0 (drop (param_end path) path) (some s)
          | false ↦ ok (not_found (some s) (length path == param_end path + 1))
        ]
        | false ↦ ok (param_value s (node n cs))
      ]
    | catch_all ↦ do
      s ← save_param saved n.max_params 2 n.path path
      ok (record { handle = n.handle; params = some s.params; tsr = false })
    | _ ↦ panic invalid_node_type
  ]
