-- ===== src/Tree/Wild/Samples.antt =====
-- Routes with wildcards in core/tree.go: the theorems at work on three of them.
use gin_t.Common.{ℕ, true, ◌≡◌, ◌≢◌, refl, none, some, arith}
use gin_t.Text.{codes}
use gin_t.Outcome.{ok}
use gin_t.Tree.Node.{RouterNode, node, nil, cons, blank, root, param}
use gin_t.Tree.Insert.{insert_child, wildcard_num}
use gin_t.Tree.Walk.{add_route}
use gin_t.Tree.Lookup.{get_value}
use gin_t.Tree.Add.First.{handle_of}
use gin_t.Tree.Wild.Lost.{add_route-lost}
use gin_t.Tree.Wild.Answers.{IsCatchAll, add_route-IsCatchAll}

-- The tree of the route "/u/:id/x": its last node has neither a path nor the handle.
abbrev lost_tree : RouterNode ℕ
lost_tree =
    node
      (record blank {
        full_path = codes "/u/:id/x";
        path = codes "/u/";
        n_type = root;
        wild_child = true;
        priority = 1;
      })
      (cons
        (node (record blank { path = codes ":id"; n_type = param; max_params = 1; priority = 1 })
          (cons (node (record blank { priority = 1 }) nil) nil))
        nil)

lost_tree-taken : add_route (codes "/u/:id/x") (some 7) (node blank nil) ≡ ok lost_tree
unfolding add_route insert_child
lost_tree-taken = refl

has_wildcard : wildcard_num (codes "/u/:id/x") ≢ 0
unfolding wildcard_num
has_wildcard e = cc

add_route-lost_example : handle_of (get_value lost_tree (codes "/u/5/x") none) ≡ none
add_route-lost_example =
    add_route-lost (codes "/u/:id/x") 7 lost_tree
      (refl, (refl, (refl, (refl, (refl, (refl, (refl, (refl, tt)))))))) has_wildcard
      lost_tree-taken (codes "/u/5/x")

add_route-IsCatchAll_example :
    (t : RouterNode ℕ) × (add_route (codes "/static/*file") (some 7) (node blank nil) ≡ ok t)
    × IsCatchAll t (codes "/static") (codes "file") 7
add_route-IsCatchAll_example =
    add_route-IsCatchAll (codes "/static") (codes "file") 7 refl
      (refl, refl, (refl, refl, (refl, refl, (refl, refl, tt)))) (omega arith)
