-- ===== src/Blueprint/Handle.antt =====
-- Handle of core/blue_print.go: what one call leaves.
use gin_t.Common.{
  ℕ, zero, suc, ◌≤◌, ◌⊎◌, ◌≡◌, ◌≢◌, refl, ap, ◌∙◌, Option-cases, inl, inr, Option, none, some, List,
  [], ◌∷◌, ◌++◌, map, get_elem?, arith,
}
use gin_t.Text.{Bytes}
use gin_t.Outcome.{ok, panic, nil_dereference, or_panic}
use gin_t.Blueprint.Slice.{Slice, set_at, contents, append_slice}
use gin_t.Blueprint.Append.{IsSlice, Grows, IsAppended, append_slice-IsAppended}
use gin_t.Blueprint.Store.{HandleNode, BluePrint, Store, load, store}
use gin_t.Blueprint.Register.{find_nodes, add_to_all, methods_for, register, handle}
use gin_t.Blueprint.Nodes.{once_each, find_nodes-add_to_all}

module _ {H : Type 0} (grow : ℕ → ℕ → ℕ) (grows : Grows grow) where
  appended :
      (w : Store H) (s : Slice) (handlers : List H)
      → IsSlice w.arrays s
      → IsAppended w.arrays s
          (map (λ x. some x) handlers)
          (append_slice grow none w.arrays s (map (λ x. some x) handlers)).0
          (append_slice grow none w.arrays s (map (λ x. some x) handlers)).1
  appended w s handlers is =
      append_slice-IsAppended grow none w.arrays s (map (λ x. some x) handlers) grows is

-- The route that Handle leaves, and what it keeps.
pub record IsHandled {H : Type 0} (w : Store H) (b : ℕ) (bp : BluePrint) (method path : Bytes)
    (handlers : List H) (w' : Store H) : Type 0 where
  pub node : HandleNode
  pub bp' : BluePrint
  pub there : load w' b ≡ ok bp'
  pub full_path : node.path ≡ bp.prefix ++ path
  pub owner : node.blueprint ≡ b
  pub chain :
      contents w'.arrays node.handles
      ≡ contents w.arrays bp.middleware ++ map (λ x. some x) handlers
  pub routes :
      (k : Bytes)
      → find_nodes bp'.methods_tree k
        ≡ find_nodes bp.methods_tree k ++ once_each (methods_for method) k node
  pub registered : bp'.methods_tree ≡ add_to_all (methods_for method) node bp.methods_tree
  pub chain_slice : IsSlice w'.arrays node.handles
  pub middleware_slice : IsSlice w'.arrays bp'.middleware
  pub same_middleware : bp'.middleware ≡ bp.middleware
  pub middleware_kept : contents w'.arrays bp'.middleware ≡ contents w.arrays bp.middleware
  pub changed : bp' ≡ record bp { methods_tree = bp'.methods_tree }
  pub kept :
      (t : Slice)
      → IsSlice w.arrays t
      → (t.array ≢ bp.middleware.array) ⊎ (t.len ≤ bp.middleware.len)
      → contents w'.arrays t ≡ contents w.arrays t
  pub others : (j : ℕ) → j ≢ b → load w' j ≡ load w j

at-set_at :
    {A : Type 0} (xs : List A) (b : ℕ) (old a : A)
    → get_elem? xs b ≡ some old
    → get_elem? (set_at xs b a) b ≡ some a
at-set_at [] b old a e = cc e
at-set_at (x ∷ xs) zero old a e = refl
at-set_at (x ∷ xs) (suc b) old a e = at-set_at xs b old a e

at-set_at_other :
    {A : Type 0} (xs : List A) (j b : ℕ) (a : A)
    → j ≢ b
    → get_elem? (set_at xs b a) j ≡ get_elem? xs j
at-set_at_other [] j b a ne = refl
at-set_at_other (x ∷ xs) zero zero a ne = absurd (ne refl)
at-set_at_other (x ∷ xs) zero (suc b) a ne = refl
at-set_at_other (x ∷ xs) (suc j) zero a ne = refl
at-set_at_other (x ∷ xs) (suc j) (suc b) a ne = at-set_at_other xs j b a (λ e. ne (ap suc e))

module _ {H : Type 0} where
  pub load_arrays :
      (w : Store H) (arrays : List (List (Option H))) (b : ℕ)
      → load (record w { arrays = arrays }) b ≡ load w b
  unfolding load
  load_arrays w arrays b = refl

  pub load-store :
      (w : Store H) (b : ℕ) (old bp : BluePrint) → load w b ≡ ok old → load (store w b bp) b ≡ ok bp
  unfolding load
  load-store w b old bp e = elim (Option-cases (get_elem? w.blueprints b)) [
    | inl nowhere ↦
        let lost : or_panic (get_elem? w.blueprints b) nil_dereference ≡ panic nil_dereference =
          rw nowhere refl in
        cc (e, lost)
    | inr (x, at) ↦ rw (at-set_at w.blueprints b x bp at) refl
  ]

  pub load-store_other :
      (w : Store H) (j b : ℕ) (bp : BluePrint) → j ≢ b → load (store w b bp) j ≡ load w j
  unfolding load
  load-store_other w j b bp ne = rw (at-set_at_other w.blueprints j b bp ne) refl

-- For a blueprint of the store, Handle returns. It registers one new node, behind those that are
-- there, under the method, or under each method for "*": its path is the prefix and the path, its
-- chain is the middleware and then the handlers. Nothing else of the blueprint changes, the middleware
-- holds what it held, and the records of the other blueprints are as they were. So is what a slice
-- holds that lies in another array than the middleware, or ends no later; a longer slice of that
-- array can be overwritten.
pub handle-IsHandled :
    {H : Type 0} (grow : ℕ → ℕ → ℕ) (w : Store H) (b : ℕ) (bp : BluePrint) (method path : Bytes)
    (handlers : List H)
    → Grows grow
    → IsSlice w.arrays bp.middleware
    → load w b ≡ ok bp
    → (w' : Store H) × (handle grow w b method path handlers ≡ ok w')
      × IsHandled w b bp method path handlers w'
unfolding handle register
handle-IsHandled {H} grow w b bp method path handlers grows is e = (
  w',
  rw e refl,
  record {
    node = new;
    bp' = bp';
    there = load-store grown b bp bp' again;
    full_path = refl;
    owner = refl;
    chain = done.holds;
    routes = λ k. find_nodes-add_to_all (methods_for method) new bp.methods_tree k;
    registered = refl;
    chain_slice = done.slice;
    middleware_slice = done.slices bp.middleware is;
    same_middleware = refl;
    middleware_kept = done.kept bp.middleware is (inr (omega arith));
    changed = refl;
    kept = done.kept;
    others = λ j ne. load-store_other grown j b bp' ne ∙ elsewhere j;
  },
)
  where
    run : List (List (Option H)) × Slice
    run = append_slice grow none w.arrays bp.middleware (map (λ x. some x) handlers)

    done : IsAppended w.arrays bp.middleware (map (λ x. some x) handlers) run.0 run.1
    done = appended grow grows w bp.middleware handlers is

    grown : Store H
    grown = record w { arrays = run.0 }

    elsewhere : (j : ℕ) → load grown j ≡ load w j
    elsewhere j = refl

    again : load grown b ≡ ok bp
    again = e

    new : HandleNode
    new = record { path = bp.prefix ++ path; handles = run.1; blueprint = b }

    bp' : BluePrint
    bp' = record bp { methods_tree = add_to_all (methods_for method) new bp.methods_tree }

    w' : Store H
    w' = store grown b bp'
