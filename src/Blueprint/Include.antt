-- ===== src/Blueprint/Include.antt =====
-- Include: the routes of a branch under a prefix.
use gin_t.Common.{
  ℕ, ◌≡◌, ◌≢◌, refl, sym, ap, ◌∙◌, Bool-cases, false, inl, inr, some, List, [], ◌∷◌, ◌++◌, map,
  list_eq, list_eq_iff, if◌then◌else◌,
}
use mathlib.Core.List.{append_assoc, append-nil}
use gin_t.Text.{Bytes, codes}
use gin_t.Outcome.{Outcome, ok, ◌>>=◌}
use gin_t.Blueprint.Store.{HandleNode, BluePrint, Store, load, store}
use gin_t.Blueprint.Register.{
  find_nodes, add_to_all, methods_for, to_upper, register, include_nodes, include_tree, include,
}
use gin_t.Blueprint.Nodes.{once_each, find_nodes-add_to_all}
use gin_t.Blueprint.Handle.{load-store, load-store_other}

-- A call that returns, and adds nodes to those of one blueprint.
pub record IsMerged {H : Type 0} (w : Store H) (b : ℕ) (bp : BluePrint)
    (more : Bytes → List HandleNode) (r : Outcome (Store H)) : Type 0 where
  pub result : Store H
  pub run : r ≡ ok result
  pub bp' : BluePrint
  pub there : load result b ≡ ok bp'
  pub routes : (k : Bytes) → find_nodes bp'.methods_tree k ≡ find_nodes bp.methods_tree k ++ more k
  pub others : (j : ℕ) → j ≢ b → load result j ≡ load w j

-- The keys of a method tree: each once, in capital letters, and none of them "*".
abbrev pub IsTree : List (Bytes × List HandleNode) → Type 0
IsTree [] = Unit
IsTree ((m, nodes) ∷ tree) =
    ((list_eq m (codes "*") ≡ false) × (to_upper m ≡ m) × (find_nodes tree m ≡ [])) × IsTree tree

-- A node of a branch, in the parent.
abbrev pub under : Bytes → ℕ → HandleNode → HandleNode
under prefix branch n = record { path = prefix ++ n.path; handles = n.handles; blueprint = branch }

abbrev nodes_if : Bytes → Bytes → List HandleNode → List HandleNode
nodes_if m k nodes = if list_eq m k then nodes else []

once_each-key :
    (m k : Bytes) (n : HandleNode)
    → list_eq m (codes "*") ≡ false
    → to_upper m ≡ m
    → once_each (methods_for m) k n ≡ nodes_if m k (n ∷ [])
once_each-key m k n plain upper = rw (plain, upper) refl

nodes_if_none : (m k : Bytes) → [] ≡ nodes_if m k []
nodes_if_none m k = elim (Bool-cases (list_eq m k)) [ inl c ↦ rw c | inr c ↦ rw c ]

module _ {H : Type 0} where
  none-IsMerged :
      (w : Store H) (b : ℕ) (bp : BluePrint) (more : Bytes → List HandleNode)
      → load w b ≡ ok bp
      → ((k : Bytes) → [] ≡ more k)
      → IsMerged w b bp more (ok w)
  none-IsMerged w b bp more e nothing = record {
    result = w;
    run = refl;
    bp' = bp;
    there = e;
    routes = λ k.
        sym (append-nil (find_nodes bp.methods_tree k))
        ∙ ap (λ x. find_nodes bp.methods_tree k ++ x) (nothing k);
    others = λ j ne. refl;
  }

  then-IsMerged :
      (w : Store H) (b : ℕ) (bp : BluePrint) (more more' all : Bytes → List HandleNode)
      (r : Outcome (Store H)) (f : Store H → Outcome (Store H))
      → IsMerged w b bp more r
      → ((w' : Store H) (bp' : BluePrint) → load w' b ≡ ok bp' → IsMerged w' b bp' more' (f w'))
      → ((k : Bytes) → more k ++ more' k ≡ all k)
      → IsMerged w b bp all (r >>= f)
  then-IsMerged w b bp more more' all r f d next joined =
      let d' = next d.result d.bp' d.there in
      record {
        result = d'.result;
        run = rw d.run d'.run;
        bp' = d'.bp';
        there = d'.there;
        routes = λ k.
            d'.routes k
            ∙ ap (λ x. x ++ more' k) (d.routes k)
            ∙ append_assoc (find_nodes bp.methods_tree k) (more k) (more' k)
            ∙ ap (λ x. find_nodes bp.methods_tree k ++ x) (joined k);
        others = λ j ne. d'.others j ne ∙ d.others j ne;
      }

  register-IsMerged :
      (w : Store H) (b : ℕ) (bp : BluePrint) (m : Bytes) (n : HandleNode)
      → load w b ≡ ok bp
      → list_eq m (codes "*") ≡ false
      → to_upper m ≡ m
      → IsMerged w b bp (λ k. nodes_if m k (n ∷ [])) (register w b m n)
  unfolding register
  register-IsMerged w b bp m n e plain upper =
      let bp' : BluePrint = record bp {
        methods_tree = add_to_all (methods_for m) n bp.methods_tree;
      } in
      record {
        result = store w b bp';
        run = rw e refl;
        bp' = bp';
        there = load-store w b bp bp' e;
        routes = λ k.
            find_nodes-add_to_all (methods_for m) n bp.methods_tree k
            ∙ ap (λ x. find_nodes bp.methods_tree k ++ x) (once_each-key m k n plain upper);
        others = λ j ne. load-store_other w j b bp' ne;
      }

  include_nodes-IsMerged :
      (w : Store H) (b branch : ℕ) (prefix m : Bytes) (nodes : List HandleNode) (bp : BluePrint)
      → load w b ≡ ok bp
      → list_eq m (codes "*") ≡ false
      → to_upper m ≡ m
      → IsMerged w b bp
          (λ k. nodes_if m k (map (under prefix branch) nodes))
          (include_nodes w b branch prefix m nodes)
  unfolding include_nodes
  include_nodes-IsMerged w b branch prefix m [] bp e plain upper =
      none-IsMerged w b bp (λ k. nodes_if m k []) e (nodes_if_none m)
  include_nodes-IsMerged w b branch prefix m (n ∷ nodes) bp e plain upper =
      then-IsMerged w b bp (λ k. nodes_if m k (under prefix branch n ∷ []))
        (λ k. nodes_if m k (map (under prefix branch) nodes))
        (λ k. nodes_if m k (map (under prefix branch) (n ∷ nodes)))
        (register w b m (under prefix branch n)) (λ w'. include_nodes w' b branch prefix m nodes)
        (register-IsMerged w b bp m (under prefix branch n) e plain upper)
        (λ w' bp' e'. include_nodes-IsMerged w' b branch prefix m nodes bp' e' plain upper) joined
    where
      joined :
          (k : Bytes)
          → nodes_if m k (under prefix branch n ∷ [])
              ++ nodes_if m k (map (under prefix branch) nodes)
            ≡ nodes_if m k (map (under prefix branch) (n ∷ nodes))
      joined k = elim (Bool-cases (list_eq m k)) [ inl c ↦ rw c | inr c ↦ rw c ]

  include_tree-IsMerged :
      (w : Store H) (b branch : ℕ) (prefix : Bytes) (tree : List (Bytes × List HandleNode))
      (bp : BluePrint)
      → load w b ≡ ok bp
      → IsTree tree
      → IsMerged w b bp
          (λ k. map (under prefix branch) (find_nodes tree k))
          (include_tree w b branch prefix tree)
  unfolding include_tree find_nodes
  include_tree-IsMerged w b branch prefix [] bp e is = none-IsMerged w b bp (λ k. []) e (λ k. refl)
  include_tree-IsMerged w b branch prefix ((m, nodes) ∷ tree) bp e is =
      then-IsMerged w b bp (λ k. nodes_if m k (map (under prefix branch) nodes))
        (λ k. map (under prefix branch) (find_nodes tree k))
        (λ k. map (under prefix branch) (find_nodes ((m, nodes) ∷ tree) k))
        (include_nodes w b branch prefix m nodes) (λ w'. include_tree w' b branch prefix tree)
        (include_nodes-IsMerged w b branch prefix m nodes bp e is.0.0 is.0.1)
        (λ w' bp' e'. include_tree-IsMerged w' b branch prefix tree bp' e' is.1) joined
    where
      joined :
          (k : Bytes)
          → nodes_if m k (map (under prefix branch) nodes)
              ++ map (under prefix branch) (find_nodes tree k)
            ≡ map (under prefix branch) (if list_eq m k then nodes else find_nodes tree k)
      joined k = elim (Bool-cases (list_eq m k)) [
        | inl c ↦
            let gone : find_nodes tree k ≡ [] = rw (← (list_eq_iff m k).0 c) is.0.2 in
            rw (c, gone) (append-nil (map (under prefix branch) nodes))
        | inr c ↦ rw c
      ]

-- Include of a branch other than the blueprint itself returns. Under each method, the nodes of the
-- branch follow those of the blueprint in their order, with the prefix before their paths, with
-- their chains and with the branch as their blueprint; the blueprint becomes the parent of the
-- branch; no other blueprint changes. The method tree of the branch has each key once, in capital letters.
pub include-IsMerged :
    {H : Type 0} (w : Store H) (b branch : ℕ) (prefix : Bytes) (bp child : BluePrint)
    → load w b ≡ ok bp
    → load w branch ≡ ok child
    → b ≢ branch
    → IsTree child.methods_tree
    → (d : IsMerged
        (store w branch (record child { parent = some b }))
        b
        bp
        (λ k. map (under prefix branch) (find_nodes child.methods_tree k))
        (include w b prefix branch))
      × (load d.result branch ≡ ok (record child { parent = some b }))
      × ((j : ℕ) → j ≢ b → j ≢ branch → load d.result j ≡ load w j)
unfolding include
include-IsMerged {H} w b branch prefix bp child e e' ne is = (
  d0,
  d.others branch (λ x. ne (sym x)) ∙ load-store w branch child child' e',
  λ j nb nc. d.others j nb ∙ load-store_other w j branch child' nc,
)
  where
    child' : BluePrint
    child' = record child { parent = some b }

    d :
        IsMerged
          (store w branch child')
          b
          bp
          (λ k. map (under prefix branch) (find_nodes child.methods_tree k))
          (include_tree (store w branch child') b branch prefix child.methods_tree)
    d =
        include_tree-IsMerged (store w branch child') b branch prefix child.methods_tree bp
          (load-store_other w b branch child' ne ∙ e) is

    d0 :
        IsMerged
          (store w branch child')
          b
          bp
          (λ k. map (under prefix branch) (find_nodes child.methods_tree k))
          (load w branch >>= λ x.
            include_tree
              (store w branch (record x { parent = some b }))
              b
              branch
              prefix
              x.methods_tree)
    d0 = record {
      result = d.result;
      run = rw e' d.run;
      bp' = d.bp';
      there = d.there;
      routes = d.routes;
      others = d.others;
    }
