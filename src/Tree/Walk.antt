-- ===== src/Tree/Walk.antt =====
-- addRoute of core/tree.go. One round of the loop `walk` is `walk_step`: it returns, or it goes on
-- at a child, with the rest of the path and the wildcards that are left.
pub mod Rounds
pub mod Descend
use gin_t.Common.{
  ℕ, zero, suc, ◌+◌, ◌-◌, ◌^◌, Bool, true, false, ◌&&◌, ◌||◌, not, Option, none, some, List, [],
  ◌∷◌, ◌++◌, length, drop, take, ltb, leb, ◌==◌, list_eq, if◌then◌else◌,
}
use Prim.Native.Nat.{max}
use gin_t.Outcome.{
  Panic, Outcome, ok, panic, out_of_fuel, index_out_of_range, slice_bounds,
  handle_already_registered, wildcard_conflict, ◌>>=◌, ◌>>◌, panic_if, or_panic, index, slice,
}
use gin_t.Tree.Node.{
  NodeType, static, root, param, catch_all, Info, RouterNode, node, Children, nil, cons, blank, u8,
  u32, info_of, children_of, bump, size, child_at, set_child, append_child,
}
use gin_t.Tree.Priority.{increment_child_prio}
use gin_t.Tree.Insert.{is_wildcard, wildcard_num, insert_child}

-- The length of the longest common prefix.
unfoldable pub common_prefix : List ℕ → List ℕ → ℕ
common_prefix [] s = 0
common_prefix (a ∷ p) [] = 0
common_prefix (a ∷ p) (b ∷ s) = if a == b then suc (common_prefix p s) else 0

-- strings.Index: the first place where the second text stands in the first.
starts_with : List ℕ → List ℕ → Bool
starts_with s [] = true
starts_with [] (t ∷ ts) = false
starts_with (c ∷ s) (t ∷ ts) = c == t && starts_with s ts

find : List ℕ → List ℕ → ℕ → Option ℕ
unfolding starts_with
find [] t k = if starts_with [] t then some k else none
find (c ∷ s) t k = if starts_with (c ∷ s) t then some k else find s t (suc k)

-- strings.SplitN(path, "/", 2)[0]
before_slash : List ℕ → List ℕ
before_slash [] = []
before_slash (c ∷ s) = if c == b'/' then [] else c ∷ before_slash s

abbrev pub is_param : NodeType → Bool
is_param param = true
is_param _ = false

abbrev pub is_catch_all : NodeType → Bool
is_catch_all catch_all = true
is_catch_all _ = false

-- `path[k] == '/'`, asked only of a place inside the path
abbrev pub slash_at : List ℕ → ℕ → Bool
slash_at [] k = false
slash_at (c ∷ s) zero = c == b'/'
slash_at (c ∷ s) (suc k) = slash_at s k

-- The place of a byte in `indices`.
unfoldable pub index_of : ℕ → List ℕ → ℕ → Option ℕ
index_of c [] k = none
index_of c (d ∷ s) k = if c == d then some k else index_of c s (suc k)

pub data Next (H : Type 0) : Type 0 where
  finished : RouterNode H → Next H
  down : RouterNode H → ℕ → List ℕ → ℕ → Next H

module _ {H : Type 0} where
  -- the maximum over the children
  unfoldable pub max_params_over : ℕ → Children H → ℕ
  max_params_over m nil = m
  max_params_over m (cons c cs) =
      max_params_over (if ltb m (info_of c).max_params then (info_of c).max_params else m) cs

  -- "Split edge": the node keeps the first `i` bytes, and a child takes over the rest.
  unfoldable split_edge : ℕ → RouterNode H → Outcome (RouterNode H)
  unfolding max_params_over index
  split_edge i (node n cs) = do
    c ← index n.path i
    let child = record blank {
      path = drop i n.path;
      wild_child = n.wild_child;
      max_params = max_params_over 0 cs;
      priority = u32 (n.priority + (2 ^ 32 - 1));
      indices = n.indices;
      handle = n.handle;
    }
    let short = record n {
      path = take i n.path;
      wild_child = false;
      indices = c ∷ [];
      handle = none;
    }
    ok (node short (cons (node child cs) nil))

  -- The panic of a wildcard conflict. Its message cuts the full path of the node, which is empty
  -- for all nodes but the root of the tree, at the place of the segment.
  conflict : Info H → List ℕ → Panic
  unfolding find before_slash
  conflict n path =
      let segment = if is_catch_all n.n_type then path else before_slash path in
      elim (find n.full_path segment 0) [ none ↦ slice_bounds | some k ↦ wildcard_conflict ]

  -- the branch for `n.wildChild`
  wild_step : List ℕ → ℕ → RouterNode H → Outcome (Next H)
  unfolding conflict
  wild_step path wildcard (node n cs) = do
    c ← or_panic (child_at cs 0) index_out_of_range
    let i = info_of (bump c)
    let i' = record i { max_params = if ltb i.max_params wildcard then wildcard else i.max_params }
    panic_if
        (not (
          leb (length i'.path) (length path)
          && list_eq i'.path (take (length i'.path) path)
          && not (is_catch_all i'.n_type)
          && (leb (length path) (length i'.path) || slash_at path (length i'.path))))
        (conflict i' path)
    ok (down (node n (set_child cs 0 (node i' (children_of c)))) 0 path (u8 (wildcard + 255)))

  -- "slash after param"
  slash_step : List ℕ → ℕ → RouterNode H → Outcome (Next H)
  slash_step path wildcard (node n cs) = do
    c ← or_panic (child_at cs 0) index_out_of_range
    ok (down (node n (set_child cs 0 (bump c))) 0 path wildcard)

  -- "Otherwise insert it", for a byte that is no wildcard: the new child is filled in behind its
  -- pointer, after it has found its place among its siblings.
  unfoldable pub insert_new : List ℕ → ℕ → Option H → ℕ → RouterNode H → Outcome (RouterNode H)
  insert_new path wildcard handle c (node n cs) = do
    let grown = record n { indices = n.indices ++ c ∷ [] }
    let raw = node (record blank { max_params = wildcard }) nil
    let idx = length grown.indices - 1
    moved ← increment_child_prio (node grown (append_child cs raw)) idx
    let place = if idx == size cs then moved.1 else size cs
    child ← or_panic (child_at (children_of moved.0) place) index_out_of_range
    filled ← insert_child wildcard path handle child
    ok (node (info_of moved.0) (set_child (children_of moved.0) place filled))

  -- from the test on `n.wildChild` to the end of the loop's body
  unfoldable pub descend : List ℕ → ℕ → Option H → RouterNode H → Outcome (Next H)
  unfolding wild_step slash_step index_of index
  descend path wildcard handle (node n cs) =
      if n.wild_child then wild_step path wildcard (node n cs) else do
        c ← index path 0
        elim (is_param n.n_type && c == b'/' && size cs == 1) [
          | true ↦ slash_step path wildcard (node n cs)
          | false ↦ elim (index_of c n.indices 0) [
            | some k ↦ do
              moved ← increment_child_prio (node n cs) k
              ok (down moved.0 moved.1 path wildcard)
            | none ↦ do
              whole ←
                  (if is_wildcard c
                    then insert_child wildcard path handle (node n cs)
                    else insert_new path wildcard handle c (node n cs))
              ok (finished whole)
          ]
        ]

  unfoldable register_here : Option H → RouterNode H → Outcome (RouterNode H)
  register_here handle (node n cs) = elim n.handle [
    | none ↦ ok (node (record n { handle = handle }) cs)
    | some h ↦ panic handle_already_registered
  ]

  -- One round of the loop. The test `i > len(path)` after the registration is never met.
  unfoldable pub walk_step : List ℕ → ℕ → Option H → RouterNode H → Outcome (Next H)
  unfolding common_prefix split_edge descend register_here
  walk_step path wildcard handle (node n cs) = do
    let n' =
        node
          (record n { max_params = if ltb n.max_params wildcard then wildcard else n.max_params })
          cs
    let i = common_prefix path n.path
    short ← if ltb i (length n.path) then split_edge i n' else ok n'
    leaf ← if i == length path then register_here handle short else ok short
    descend (drop i path) wildcard handle leaf

  unfoldable pub walk : ℕ → List ℕ → ℕ → Option H → RouterNode H → Outcome (RouterNode H)
  walk zero path wildcard handle n = out_of_fuel
  walk (suc fuel) path wildcard handle n = do
    next ← walk_step path wildcard handle n
    elim next [
      | finished whole ↦ ok whole
      | down above k rest left ↦ do
        child ← or_panic (child_at (children_of above) k) index_out_of_range
        filled ← walk fuel rest left handle child
        ok (node (info_of above) (set_child (children_of above) k filled))
    ]

unfoldable mutual
  pub height : {H : Type 0} → RouterNode H → ℕ
  height (node i cs) = suc (height_over cs)

  pub height_over : {H : Type 0} → Children H → ℕ
  height_over nil = 0
  height_over (cons c cs) = max (height c) (height_over cs)

abbrev pub is_empty_tree : {H : Type 0} → RouterNode H → Bool
is_empty_tree (node n nil) = length n.path == 0
is_empty_tree (node n (cons c cs)) = false

abbrev pub with_root_type : {H : Type 0} → RouterNode H → RouterNode H
with_root_type (node n cs) = node (record n { n_type = root }) cs

-- Every round but two goes on at a node that is further down: `height + 2` rounds are enough.
unfoldable pub add_route : {H : Type 0} → List ℕ → Option H → RouterNode H → Outcome (RouterNode H)
unfolding wildcard_num height
add_route path handle (node n cs) =
    let n' = record n { full_path = path; priority = u32 (n.priority + 1) } in
    let wildcard = wildcard_num path in
    if is_empty_tree (node n' cs)
    then (do whole ← insert_child wildcard path handle (node n' cs); ok (with_root_type whole))
    else walk (height (node n' cs) + 2) path wildcard handle (node n' cs)
