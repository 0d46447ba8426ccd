-- ===== src/Startup.antt =====
-- Engine.init of core/engine.go: the routes of the blueprints go into the router, and the starters run.
pub mod Plain
pub mod Pipeline
pub mod Methods
mod Samples
use gin_t.Common.{ℕ, Bool, true, false, Option, none, some, List, [], ◌∷◌, map}
use gin_t.Text.{Bytes}
use gin_t.Outcome.{Outcome, ok, ◌>>=◌}
use gin_t.Tree.Node.{RouterNode}
use gin_t.Router.{insert}
use gin_t.Blueprint.Slice.{append_slice, contents}
use gin_t.Blueprint.Store.{HandleNode, Store, load}

-- A handler with the address of its blueprint.
pub record HandleFuncNode (H : Type 0) : Type 0 where
  pub handle_func : Option H
  pub blueprint : ℕ

-- The router: one tree for each method.
abbrev pub Trees : Type 0 → Type 0
Trees H = List (Bytes × RouterNode (List (HandleFuncNode H)))

-- The starters run in their order; a starter is what it answers, an error or none.
unfoldable pub run_starters : List (Option ℕ) → Option ℕ
run_starters [] = none
run_starters (none ∷ starters) = run_starters starters
run_starters (some e ∷ starters) = some e

module _ {H : Type 0} where
  -- the loop over the handlers
  abbrev pub wrap_all : ℕ → List (Option H) → List (HandleFuncNode H)
  wrap_all b handles = map (λ h. record { handle_func = h; blueprint = b }) handles

  module _ (grow : ℕ → ℕ → ℕ) where
    -- one round: the handlers are appended to the middleware of the engine's blueprint
    unfoldable pub init_node :
        Store H → ℕ → Bytes → HandleNode → Trees H → Outcome (Store H × Trees H)
    init_node w engine method node trees = do
      bp ← load w engine
      let (arrays, handles) =
          append_slice grow none w.arrays bp.middleware (contents w.arrays node.handles)
      trees' ←
          insert method node.path (some (wrap_all node.blueprint (contents arrays handles))) trees
      ok (record w { arrays = arrays }, trees')

    unfoldable pub init_nodes :
        Store H → ℕ → Bytes → List HandleNode → Trees H → Outcome (Store H × Trees H)
    unfolding init_node
    init_nodes w engine method [] trees = ok (w, trees)
    init_nodes w engine method (node ∷ nodes) trees = do
      (w', trees') ← init_node w engine method node trees
      init_nodes w' engine method nodes trees'

    -- Go visits the methods in any order, here that of the list.
    unfoldable pub init_methods :
        Store H → ℕ → List (Bytes × List HandleNode) → Trees H → Outcome (Store H × Trees H)
    unfolding init_nodes
    init_methods w engine [] trees = ok (w, trees)
    init_methods w engine ((method, nodes) ∷ tree) trees = do
      (w', trees') ← init_nodes w engine method nodes trees
      init_methods w' engine tree trees'

    -- init: the error of a starter, the store and the router
    unfoldable pub init :
        Store H → ℕ → Trees H → List (Option ℕ) → Outcome (Option ℕ × (Store H × Trees H))
    unfolding init_methods run_starters
    init w engine trees starters = do
      bp ← load w engine
      done ← init_methods w engine bp.methods_tree trees
      ok (run_starters starters, done)

    -- setup: whether there is a server, the error, the store and the router
    unfoldable setup :
        Store H → ℕ → Trees H → List (Option ℕ) → Outcome (Bool × (Option ℕ × (Store H × Trees H)))
    unfolding init
    setup w engine trees starters = do
      (failed, done) ← init w engine trees starters
      ok (elim failed [ none ↦ true | some e ↦ false ], (failed, done))
