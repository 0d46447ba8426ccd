-- ===== src/Blueprint/Shares.antt =====
-- Two calls of Handle of core/blue_print.go on a blueprint whose middleware has room: the chains of
-- the two routes share an array.
use gin_t.Common.{◌<◌, ◌≡◌, refl, ◌∙◌, ap, none, some, [], ◌∷◌, ◌++◌, map, ℕ, List}
use gin_t.Text.{Bytes}
use gin_t.Outcome.{ok}
use gin_t.Blueprint.Slice.{contents, append_slice}
use gin_t.Blueprint.Append.{IsSlice, append_slice-first, append_slice-shares}
use gin_t.Blueprint.Store.{HandleNode, BluePrint, Store, load, store}
use gin_t.Blueprint.Register.{find_nodes, add_to_all, methods_for, register, handle}
use gin_t.Blueprint.Nodes.{once_each, find_nodes-add_to_all}
use gin_t.Blueprint.Handle.{load-store}

abbrev pub with_node : Bytes → HandleNode → BluePrint → BluePrint
with_node method new bp = record bp {
  methods_tree = add_to_all (methods_for method) new bp.methods_tree;
}

module _ {H : Type 0} (grow : ℕ → ℕ → ℕ) where
  -- the node that Handle registers
  abbrev pub new_node : Store H → ℕ → BluePrint → Bytes → List H → HandleNode
  new_node w b bp path handlers = record {
    path = bp.prefix ++ path;
    handles = (append_slice grow none w.arrays bp.middleware (map (λ x. some x) handlers)).1;
    blueprint = b;
  }

  -- the store behind it
  abbrev pub handled : Store H → ℕ → BluePrint → Bytes → Bytes → List H → Store H
  handled w b bp method path handlers =
      store
        (record w {
          arrays = (append_slice grow none w.arrays bp.middleware (map (λ x. some x) handlers)).0;
        })
        b (with_node method (new_node w b bp path handlers) bp)

  pub handle-handled :
      (w : Store H) (b : ℕ) (bp : BluePrint) (method path : Bytes) (handlers : List H)
      → load w b ≡ ok bp
      → (handle grow w b method path handlers ≡ ok (handled w b bp method path handlers))
        × (load (handled w b bp method path handlers) b
            ≡ ok (with_node method (new_node w b bp path handlers) bp))
  unfolding handle register load
  handle-handled w b bp method path handlers e = (
    rw e refl,
    load-store
        (record w {
          arrays = (append_slice grow none w.arrays bp.middleware (map (λ x. some x) handlers)).0;
        })
        b bp (with_node method (new_node w b bp path handlers) bp) e,
  )

-- What two calls of Handle, with one handler each, leave in the store.
pub record IsShared {H : Type 0} (w : Store H) (b : ℕ) (bp : BluePrint) (m1 p1 m2 p2 : Bytes)
    (h1 h2 : H) (w1 w2 : Store H) : Type 0 where
  pub first : HandleNode
  pub second : HandleNode
  pub bp' : BluePrint
  pub there : load w2 b ≡ ok bp'
  pub first_path : first.path ≡ bp.prefix ++ p1
  pub second_path : second.path ≡ bp.prefix ++ p2
  pub routes :
      (k : Bytes)
      → find_nodes bp'.methods_tree k
        ≡ (find_nodes bp.methods_tree k ++ once_each (methods_for m1) k first)
          ++ once_each (methods_for m2) k second
  pub at_first : contents w1.arrays first.handles ≡ contents w.arrays bp.middleware ++ some h1 ∷ []
  pub then_lost : contents w2.arrays first.handles ≡ contents w.arrays bp.middleware ++ some h2 ∷ []

-- For a blueprint whose middleware is a slice with room behind it: two calls of Handle, with one
-- handler each, both return, and both routes are registered. But the node of the first route, whose
-- chain was the middleware and the first handler, then has the middleware and the second handler.
pub handle-IsShared :
    {H : Type 0} (grow : ℕ → ℕ → ℕ) (w : Store H) (b : ℕ) (bp : BluePrint) (m1 p1 m2 p2 : Bytes)
    (h1 h2 : H)
    → IsSlice w.arrays bp.middleware
    → load w b ≡ ok bp
    → bp.middleware.len < bp.middleware.cap
    → (w1 w2 : Store H) × (handle grow w b m1 p1 (h1 ∷ []) ≡ ok w1)
      × (handle grow w1 b m2 p2 (h2 ∷ []) ≡ ok w2)
      × IsShared w b bp m1 p1 m2 p2 h1 h2 w1 w2
handle-IsShared {H} grow w b bp m1 p1 m2 p2 h1 h2 is e room =
    let (run, here) = handle-handled grow w b bp m1 p1 (h1 ∷ []) e in
    let (run', here') = handle-handled grow w1 b bp1 m2 p2 (h2 ∷ []) here in
    (
      w1,
      handled grow w1 b bp1 m2 p2 (h2 ∷ []),
      run,
      run',
      record {
        first = first;
        second = second;
        bp' = with_node m2 second bp1;
        there = here';
        first_path = refl;
        second_path = refl;
        routes = λ k.
            find_nodes-add_to_all (methods_for m2) second bp1.methods_tree k
            ∙ ap (λ r. r ++ once_each (methods_for m2) k second)
                (find_nodes-add_to_all (methods_for m1) first bp.methods_tree k);
        at_first = append_slice-first grow none w.arrays bp.middleware (some h1) is room;
        then_lost =
            append_slice-shares grow none w.arrays bp.middleware (some h1) (some h2) is room;
      },
    )
  where
    first : HandleNode
    first = new_node grow w b bp p1 (h1 ∷ [])

    bp1 : BluePrint
    bp1 = with_node m1 first bp

    w1 : Store H
    w1 = handled grow w b bp m1 p1 (h1 ∷ [])

    second : HandleNode
    second = new_node grow w1 b bp1 p2 (h2 ∷ [])
