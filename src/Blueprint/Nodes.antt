-- ===== src/Blueprint/Nodes.antt =====
-- The nodes that a method tree holds for a method.
use gin_t.Common.{
  ◌≡◌, sym, ap, ◌∙◌, Bool-cases, inl, inr, List, [], ◌∷◌, ◌++◌, list_eq, same_key, other_key,
  if◌then◌else◌,
}
use mathlib.Core.List.{append_assoc, append-nil}
use gin_t.Text.{Bytes}
use gin_t.Blueprint.Store.{HandleNode}
use gin_t.Blueprint.Register.{add_node, find_nodes, add_to_all, to_upper}

-- A node, once for each of the methods that is the method asked for.
abbrev pub once_each : List Bytes → Bytes → HandleNode → List HandleNode
once_each [] k node = []
once_each (m ∷ methods) k node =
    if list_eq (to_upper m) k then node ∷ once_each methods k node else once_each methods k node

find_nodes-add_node :
    (tree : List (Bytes × List HandleNode)) (m k : Bytes) (node : HandleNode)
    → find_nodes (add_node tree m node) k
      ≡ find_nodes tree k ++ (if list_eq m k then node ∷ [] else [])
unfolding find_nodes add_node
find_nodes-add_node [] m k node = elim (Bool-cases (list_eq m k)) [ inl b ↦ rw b | inr b ↦ rw b ]
find_nodes-add_node ((j, nodes) ∷ tree) m k node = elim (Bool-cases (list_eq j m)) [
  | inl b ↦ elim (Bool-cases (list_eq j k)) [
    | inl c ↦ rw (b, c, same_key j m k b, c)
    | inr c ↦ rw (b, c, same_key j m k b, c) (sym (append-nil (find_nodes tree k)))
  ]
  | inr b ↦ elim (Bool-cases (list_eq j k)) [
    | inl c ↦ rw (b, c, other_key j m k b c) (sym (append-nil nodes))
    | inr c ↦ rw (b, c) (find_nodes-add_node tree m k node)
  ]
]

pub find_nodes-add_to_all :
    (methods : List Bytes) (node : HandleNode) (tree : List (Bytes × List HandleNode)) (k : Bytes)
    → find_nodes (add_to_all methods node tree) k ≡ find_nodes tree k ++ once_each methods k node
unfolding add_to_all
find_nodes-add_to_all [] node tree k = sym (append-nil (find_nodes tree k))
find_nodes-add_to_all (m ∷ methods) node tree k =
    find_nodes-add_to_all methods node (add_node tree (to_upper m) node) k
    ∙ ap (λ r. r ++ once_each methods k node) (find_nodes-add_node tree (to_upper m) k node)
    ∙ append_assoc (find_nodes tree k) (if list_eq (to_upper m) k then node ∷ [] else [])
        (once_each methods k node)
    ∙ ap (λ r. find_nodes tree k ++ r) (joined m methods)
  where
    joined :
        (m : Bytes) (methods : List Bytes)
        → (if list_eq (to_upper m) k then node ∷ [] else []) ++ once_each methods k node
          ≡ once_each (m ∷ methods) k node
    joined m methods = elim (Bool-cases (list_eq (to_upper m) k)) [ inl b ↦ rw b | inr b ↦ rw b ]
