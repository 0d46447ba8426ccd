-- ===== src/Startup/Plain.antt =====
-- The routes that init registers, read off the store before it.
use gin_t.Common.{ℕ, ◌≡◌, refl, ap, ◌∙◌, Option, none, some, List, [], ◌∷◌, ◌++◌}
use gin_t.Text.{Bytes}
use gin_t.Outcome.{Outcome, ok, panic, out_of_fuel, ◌>>=◌}
use gin_t.Router.{insert}
use gin_t.Blueprint.Slice.{Slice, append_slice, contents}
use gin_t.Blueprint.Append.{IsSlice, Grows, append_slice-IsAppended, append_slice-full}
use gin_t.Blueprint.Store.{HandleNode, BluePrint, Store, load}
use gin_t.Blueprint.Handle.{load_arrays}
use gin_t.Blueprint.Sound.{AllSlices, AllNodes}
use gin_t.Startup.{Trees, wrap_all, init_node, init_nodes, init_methods}

module _ {H : Type 0} (w : Store H) (middleware : List (Option H)) where
  -- The router with the nodes of a method, each with the middleware and then its own chain.
  unfoldable pub insert_nodes : Bytes → List HandleNode → Trees H → Outcome (Trees H)
  insert_nodes method [] trees = ok trees
  insert_nodes method (node ∷ nodes) trees = do
    trees' ←
        insert method node.path
          (some (wrap_all node.blueprint (middleware ++ contents w.arrays node.handles))) trees
    insert_nodes method nodes trees'

  unfoldable pub insert_methods : List (Bytes × List HandleNode) → Trees H → Outcome (Trees H)
  unfolding insert_nodes
  insert_methods [] trees = ok trees
  insert_methods ((method, nodes) ∷ tree) trees = do
    trees' ← insert_nodes method nodes trees
    insert_methods tree trees'

module _ {H : Type 0} where
  -- The router behind a call.
  abbrev pub trees_of : Outcome (Store H × Trees H) → Outcome (Trees H)
  trees_of (ok (w, trees)) = ok trees
  trees_of (panic e) = panic e
  trees_of out_of_fuel = out_of_fuel

  -- a store in which the slices of another one hold the same
  record Agrees (w : Store H) (engine : ℕ) (bp : BluePrint) (w' : Store H) : Type 0 where
    loaded : load w' engine ≡ ok bp
    slices : (t : Slice) → IsSlice w.arrays t → IsSlice w'.arrays t
    same_contents : (t : Slice) → IsSlice w.arrays t → contents w'.arrays t ≡ contents w.arrays t

  with_store : Store H → Outcome (Trees H) → Outcome (Store H × Trees H)
  with_store w (ok trees) = ok (w, trees)
  with_store w (panic e) = panic e
  with_store w out_of_fuel = out_of_fuel

  with_store_lem :
      (w : Store H) (x : Outcome (Trees H)) → (x >>= λ trees. ok (w, trees)) ≡ with_store w x
  unfolding with_store
  with_store_lem w (ok trees) = refl
  with_store_lem w (panic e) = refl
  with_store_lem w out_of_fuel = refl

  trees_of-with_store : (w : Store H) (x : Outcome (Trees H)) → trees_of (with_store w x) ≡ x
  unfolding with_store
  trees_of-with_store w (ok trees) = refl
  trees_of-with_store w (panic e) = refl
  trees_of-with_store w out_of_fuel = refl

  chained :
      (w1 w2 : Store H) (x : Outcome (Trees H))
      (f : Store H → Trees H → Outcome (Store H × Trees H)) (g : Trees H → Outcome (Trees H))
      → ((trees : Trees H) → f w1 trees ≡ with_store w2 (g trees))
      → (with_store w1 x >>= λ p. f p.0 p.1) ≡ with_store w2 (x >>= g)
  unfolding with_store
  chained w1 w2 (ok trees) f g e = e trees
  chained w1 w2 (panic c) f g e = refl
  chained w1 w2 out_of_fuel f g e = refl

  -- a call whose store does not depend on the router
  record IsPlain (w : Store H) (engine : ℕ) (bp : BluePrint)
      (f : Trees H → Outcome (Store H × Trees H)) (g : Trees H → Outcome (Trees H)) : Type 0 where
    left : Store H
    agrees : Agrees w engine bp left
    plainly : (trees : Trees H) → f trees ≡ with_store left (g trees)

  module _ (grow : ℕ → ℕ → ℕ) (grows : Grows grow) (w : Store H) (engine : ℕ) (bp : BluePrint)
      (full : bp.middleware.len ≡ bp.middleware.cap) (is : IsSlice w.arrays bp.middleware) where
    init_node-IsPlain :
        (w' : Store H) (method : Bytes) (node : HandleNode)
        → Agrees w engine bp w'
        → IsSlice w.arrays node.handles
        → IsPlain w engine bp (init_node grow w' engine method node) (
            insert method node.path (
              some (
                wrap_all node.blueprint
                  (contents w.arrays bp.middleware ++ contents w.arrays node.handles))))
    unfolding init_node with_store
    init_node-IsPlain w' method node a it =
        let done =
          append_slice-IsAppended grow none w'.arrays bp.middleware
            (contents w'.arrays node.handles) grows (a.slices bp.middleware is) in
        let (arrays, handles) =
          append_slice grow none w'.arrays bp.middleware (contents w'.arrays node.handles) in
        let chain : contents arrays handles
            ≡ contents w.arrays bp.middleware ++ contents w.arrays node.handles =
          done.holds
          ∙ ap (λ r. r ++ contents w'.arrays node.handles) (a.same_contents bp.middleware is)
          ∙ ap (λ r. contents w.arrays bp.middleware ++ r) (a.same_contents node.handles it) in
        record {
          left = record w' { arrays = arrays };
          agrees = record {
            loaded = load_arrays w' arrays engine ∙ a.loaded;
            slices = λ t at. done.slices t (a.slices t at);
            same_contents = λ t at.
                append_slice-full grow none w'.arrays bp.middleware
                  (contents w'.arrays node.handles) t full (a.slices t at)
                ∙ a.same_contents t at;
          };
          plainly = λ trees.
              rw (a.loaded, chain)
                (with_store_lem (record w' { arrays = arrays })
                  (insert method node.path
                    (some (
                      wrap_all node.blueprint
                        (contents w.arrays bp.middleware ++ contents w.arrays node.handles)))
                    trees));
        }

    init_nodes-IsPlain :
        (w' : Store H) (method : Bytes) (nodes : List HandleNode)
        → Agrees w engine bp w'
        → AllSlices w.arrays nodes
        → IsPlain w engine bp
            (init_nodes grow w' engine method nodes)
            (insert_nodes w (contents w.arrays bp.middleware) method nodes)
    unfolding init_nodes insert_nodes with_store
    init_nodes-IsPlain w' method [] a it = record { left = w'; agrees = a; plainly = λ trees. refl }
    init_nodes-IsPlain w' method (node ∷ nodes) a it =
        let first = init_node-IsPlain w' method node a it.0 in
        let rest = init_nodes-IsPlain first.left method nodes first.agrees it.1 in
        record {
          left = rest.left;
          agrees = rest.agrees;
          plainly = λ trees. rw (first.plainly trees) (
              chained first.left rest.left
                (insert method node.path
                  (some (
                    wrap_all node.blueprint
                      (contents w.arrays bp.middleware ++ contents w.arrays node.handles)))
                  trees)
                (λ w1 t. init_nodes grow w1 engine method nodes t)
                (insert_nodes w (contents w.arrays bp.middleware) method nodes) rest.plainly);
        }

    init_methods-IsPlain :
        (w' : Store H) (tree : List (Bytes × List HandleNode))
        → Agrees w engine bp w'
        → AllNodes w.arrays tree
        → IsPlain w engine bp
            (init_methods grow w' engine tree)
            (insert_methods w (contents w.arrays bp.middleware) tree)
    unfolding init_methods insert_methods with_store
    init_methods-IsPlain w' [] a it = record { left = w'; agrees = a; plainly = λ trees. refl }
    init_methods-IsPlain w' ((method, nodes) ∷ tree) a it =
        let first = init_nodes-IsPlain w' method nodes a it.0 in
        let rest = init_methods-IsPlain first.left tree first.agrees it.1 in
        record {
          left = rest.left;
          agrees = rest.agrees;
          plainly = λ trees. rw (first.plainly trees) (
              chained first.left rest.left
                (insert_nodes w (contents w.arrays bp.middleware) method nodes trees)
                (λ w1 t. init_methods grow w1 engine tree t)
                (insert_methods w (contents w.arrays bp.middleware) tree) rest.plainly);
        }

pub init_tree-plain :
    {H : Type 0} (grow : ℕ → ℕ → ℕ) (w : Store H) (engine : ℕ) (bp : BluePrint)
    (tree : List (Bytes × List HandleNode)) (trees : Trees H)
    → Grows grow
    → load w engine ≡ ok bp
    → IsSlice w.arrays bp.middleware
    → AllNodes w.arrays tree
    → bp.middleware.len ≡ bp.middleware.cap
    → trees_of (init_methods grow w engine tree trees)
      ≡ insert_methods w (contents w.arrays bp.middleware) tree trees
init_tree-plain grow w engine bp tree trees grows e is it full =
    let plain =
      init_methods-IsPlain grow grows w engine bp full is w tree
        (record { loaded = e; slices = λ t at. at; same_contents = λ t at. refl }) it in
    rw (plain.plainly trees) (
      trees_of-with_store plain.left
        (insert_methods w (contents w.arrays bp.middleware) tree trees))

-- If the slices of the engine's blueprint lie in their arrays, and its middleware fills its own, init
-- registers each node of the engine's method tree with the middleware and then the node's chain, as
-- they were before init, in the order of the tree, and panics where the router does.
pub init_methods-plain :
    {H : Type 0} (grow : ℕ → ℕ → ℕ) (w : Store H) (engine : ℕ) (bp : BluePrint) (trees : Trees H)
    → Grows grow
    → load w engine ≡ ok bp
    → IsSlice w.arrays bp.middleware
    → AllNodes w.arrays bp.methods_tree
    → bp.middleware.len ≡ bp.middleware.cap
    → trees_of (init_methods grow w engine bp.methods_tree trees)
      ≡ insert_methods w (contents w.arrays bp.middleware) bp.methods_tree trees
init_methods-plain grow w engine bp trees = init_tree-plain grow w engine bp bp.methods_tree trees
