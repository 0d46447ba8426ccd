-- ===== src/Startup/Pipeline.antt =====
-- From Handle through init to Match.
use gin_t.Common.{
  ℕ, ◌≡◌, refl, sym, ap, ◌∙◌, ◌&&◌, false, Option, none, some, List, [], ◌∷◌, ◌++◌, map, list_eq,
  if◌then◌else◌,
}
use gin_t.Text.{Bytes, codes}
use gin_t.Outcome.{Outcome, ok, panic, out_of_fuel}
use gin_t.Tree.Insert.{count_wildcards}
use gin_t.Router.{insert, match, Matched, find_tree}
use gin_t.Router.Dispatch.{handlers_of, insert-match_new}
use gin_t.Blueprint.Slice.{contents}
use gin_t.Blueprint.Append.{IsSlice, Grows}
use gin_t.Blueprint.Store.{HandleNode, BluePrint, Store, load}
use gin_t.Blueprint.Register.{handle, to_upper, add_to_all, methods_for}
use gin_t.Blueprint.Handle.{handle-IsHandled}
use gin_t.Startup.{HandleFuncNode, Trees, wrap_all, init_methods}
use gin_t.Startup.Plain.{insert_nodes, insert_methods, init_methods-plain, trees_of}

one_node :
    (method : Bytes) (node : HandleNode)
    → list_eq method (codes "*") ≡ false
    → to_upper method ≡ method
    → add_to_all (methods_for method) node [] ≡ (method, node ∷ []) ∷ []
unfolding add_to_all
one_node method node plain upper = rw (plain, upper) refl

module _ {H : Type 0} where
  with_trees :
      (x : Outcome (Store H × Trees H)) (trees : Trees H)
      → trees_of x ≡ ok trees
      → (w : Store H) × (x ≡ ok (w, trees))
  with_trees (ok (w, trees')) trees e =
      let same : trees' ≡ trees = cc e in (w, ap (λ t. ok (w, t)) same)
  with_trees (panic c) trees e = absurd (cc e)
  with_trees out_of_fuel trees e = absurd (cc e)

  one_route :
      (w : Store H) (middleware : List (Option H)) (method : Bytes) (node : HandleNode)
      (trees : Trees H)
      → insert method node.path
          (some (wrap_all node.blueprint (middleware ++ contents w.arrays node.handles)))
          []
        ≡ ok trees
      → insert_methods w middleware ((method, node ∷ []) ∷ []) [] ≡ ok trees
  unfolding insert_methods insert_nodes
  one_route w middleware method node trees e = rw e refl

-- Handle of a path without wildcards on the engine's blueprint, which has no route and no prefix yet
-- and whose middleware fills its array, returns, and init then fills an empty router, such that a
-- request of the method for the path is matched with the middleware twice and then the handlers, and
-- no other request has handlers.
pub handle-init_methods-match :
    {H : Type 0} (grow : ℕ → ℕ → ℕ) (w : Store H) (engine : ℕ) (bp : BluePrint) (method s : Bytes)
    (handlers : List H)
    → Grows grow
    → load w engine ≡ ok bp
    → bp.methods_tree ≡ []
    → bp.prefix ≡ []
    → IsSlice w.arrays bp.middleware
    → bp.middleware.len ≡ bp.middleware.cap
    → list_eq method (codes "*") ≡ false
    → to_upper method ≡ method
    → count_wildcards (b'/' ∷ s) ≡ 0
    → (w' : Store H) × (bp' : BluePrint) × (done : Store H) × (trees : Trees H) × (handle grow w
          engine method
          (b'/' ∷ s)
          handlers
        ≡ ok w')
      × (load w' engine ≡ ok bp')
      × (init_methods grow w' engine bp'.methods_tree [] ≡ ok (done, trees))
      × ((k q : Bytes) (ctx : Matched (List (HandleFuncNode H)))
          → handlers_of (match trees k q ctx) ≡ (
              if list_eq method k && list_eq q (b'/' ∷ s)
              then some (
                  wrap_all engine (
                    contents w.arrays bp.middleware
                    ++ (contents w.arrays bp.middleware ++ map (λ h. some h) handlers)))
              else none))
unfolding insert match find_tree
handle-init_methods-match {H} grow w engine bp method s handlers grows e no_route no_prefix is full
      plain upper tame =
    let (w', run, h) = handle-IsHandled grow w engine bp method (b'/' ∷ s) handlers grows is e in
    let one : h.bp'.methods_tree ≡ (method, h.node ∷ []) ∷ [] =
      h.registered
      ∙ ap (add_to_all (methods_for method) h.node) no_route
      ∙ one_node method h.node plain upper in
    let at_path : h.node.path ≡ b'/' ∷ s = h.full_path ∙ ap (λ p. p ++ b'/' ∷ s) no_prefix in
    let chain : contents w'.arrays h.bp'.middleware ++ contents w'.arrays h.node.handles
        ≡ contents w.arrays bp.middleware
          ++ (contents w.arrays bp.middleware ++ map (λ x. some x) handlers) =
      ap (λ r. r ++ contents w'.arrays h.node.handles) h.middleware_kept
      ∙ ap (λ r. contents w.arrays bp.middleware ++ r) h.chain in
    let whole = wrap_all engine (
      contents w.arrays bp.middleware
      ++ (contents w.arrays bp.middleware ++ map (λ x. some x) handlers)) in
    let (trees, inserted, law) =
      insert-match_new {H = List (HandleFuncNode H)} [] method s whole refl tame in
    let plainly =
      init_methods-plain grow w' engine h.bp' [] grows h.there h.middleware_slice
        (rw one ((h.chain_slice, tt), tt))
        (ap (λ m. m.len) h.same_middleware ∙ full ∙ sym (ap (λ m. m.cap) h.same_middleware)) in
    let routed : trees_of (init_methods grow w' engine h.bp'.methods_tree []) ≡ ok trees =
      plainly
      ∙ ap (λ tree. insert_methods w' (contents w'.arrays h.bp'.middleware) tree []) one
      ∙ one_route w' (contents w'.arrays h.bp'.middleware) method h.node trees
          (rw (at_path, chain, h.owner) inserted) in
    let (done, ran) = with_trees (init_methods grow w' engine h.bp'.methods_tree []) trees routed in
    (w', h.bp', done, trees, run, h.there, ran, law)
