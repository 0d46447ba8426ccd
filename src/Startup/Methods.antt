-- ===== src/Startup/Methods.antt =====
-- Go visits the methods of a map in any order: the router of each method is the same.
use gin_t.Common.{
  ℕ, ◌≡◌, refl, sym, ap, ◌∙◌, Bool-cases, true, false, inl, inr, Option, some, List, [], ◌∷◌, ◌++◌,
  list_eq, list_eq_iff, if◌then◌else◌,
}
use gin_t.Text.{Bytes}
use gin_t.Outcome.{Outcome, ok, panic, out_of_fuel, ◌>>=◌, ◌>>◌, panic_if}
use gin_t.Tree.Node.{RouterNode}
use gin_t.Tree.Walk.{add_route}
use gin_t.Router.{insert, find_tree, set_tree, no_slash, or_new}
use gin_t.Router.Dispatch.{find_tree-set_tree}
use gin_t.Blueprint.Slice.{contents}
use gin_t.Blueprint.Store.{BluePrint, load, HandleNode, Store}
use gin_t.Blueprint.Register.{find_nodes}
use gin_t.Startup.{init_methods, HandleFuncNode, Trees, wrap_all}
use gin_t.Blueprint.Append.{IsSlice, Grows}
use gin_t.Blueprint.Sound.{AllNodes}
use gin_t.Startup.Plain.{trees_of, init_tree-plain, insert_nodes, insert_methods}

list_eq_refl : (m : Bytes) → list_eq m m ≡ true
list_eq_refl m = (list_eq_iff m m).1 refl

-- Each method once.
abbrev pub AllOnce : List (Bytes × List HandleNode) → Type 0
AllOnce [] = Unit
AllOnce ((m, nodes) ∷ tree) = (find_nodes tree m ≡ []) × AllOnce tree

module _ {X : Type 0} where
  -- What an insertion does, by the tree of its method.
  grown : Bytes → Bytes → Option X → Option (RouterNode X) → Outcome (RouterNode X)
  grown m path h t =
      panic_if (no_slash path) gin_t.Outcome.path_must_begin_with_slash
      >> add_route path h (or_new t)

  set_in :
      List (Bytes × RouterNode X)
      → Bytes
      → Outcome (RouterNode X)
      → Outcome (List (Bytes × RouterNode X))
  set_in trees m (ok t) = ok (set_tree trees m t)
  set_in trees m (panic e) = panic e
  set_in trees m out_of_fuel = out_of_fuel

  insert-set_in :
      (m path : Bytes) (h : Option X) (trees : List (Bytes × RouterNode X))
      → insert m path h trees ≡ set_in trees m (grown m path h (find_tree trees m))
  unfolding insert grown set_in
  insert-set_in m path h trees = elim (Bool-cases (no_slash path)) [
    | inl b ↦ rw b refl
    | inr b ↦ rw b (on (add_route path h (or_new (find_tree trees m))))
  ]
    where
      on : (x : Outcome (RouterNode X)) → (x >>= λ t. ok (set_tree trees m t)) ≡ set_in trees m x
      on (ok t) = refl
      on (panic e) = refl
      on out_of_fuel = refl

  -- A call that returns a router with the tree of another one for a method.
  record IsLocal (m : Bytes) (after : List (Bytes × RouterNode X))
      (r : Outcome (List (Bytes × RouterNode X))) : Type 0 where
    result : List (Bytes × RouterNode X)
    run : r ≡ ok result
    same_tree : find_tree result m ≡ find_tree after m

  set_in-IsLocal :
      (m : Bytes) (a a' b : List (Bytes × RouterNode X)) (x : Outcome (RouterNode X))
      → set_in a m x ≡ ok a'
      → IsLocal m a' (set_in b m x)
  unfolding set_in
  set_in-IsLocal m a a' b (panic e) run = absurd (cc run)
  set_in-IsLocal m a a' b out_of_fuel run = absurd (cc run)
  set_in-IsLocal m a a' b (ok t) run =
      let left : set_tree a m t ≡ a' = cc run in
      record {
        result = set_tree b m t;
        run = refl;
        same_tree =
            rw (← left, find_tree-set_tree b m m t, find_tree-set_tree a m m t, list_eq_refl m)
              refl;
      }

  set_in-others :
      (m k : Bytes) (a a' : List (Bytes × RouterNode X)) (x : Outcome (RouterNode X))
      → set_in a m x ≡ ok a'
      → list_eq m k ≡ false
      → find_tree a' k ≡ find_tree a k
  unfolding set_in
  set_in-others m k a a' (panic e) run ne = absurd (cc run)
  set_in-others m k a a' out_of_fuel run ne = absurd (cc run)
  set_in-others m k a a' (ok t) run ne =
      let left : set_tree a m t ≡ a' = cc run in rw (← left, find_tree-set_tree a m k t, ne) refl

module _ {H : Type 0} (w : Store H) (middleware : List (Option H)) where
  abbrev chain : HandleNode → Option (List (HandleFuncNode H))
  chain node = some (wrap_all node.blueprint (middleware ++ contents w.arrays node.handles))

  then_ok :
      {S T : Type 0} (x : Outcome S) (f : S → Outcome T) (t : T)
      → (x >>= f) ≡ ok t
      → (s : S) × (x ≡ ok s) × (f s ≡ ok t)
  then_ok (ok s) f t e = (s, refl, e)
  then_ok (panic c) f t e = absurd (cc e)
  then_ok out_of_fuel f t e = absurd (cc e)

  insert_nodes-IsLocal :
      (m : Bytes) (nodes : List HandleNode) (a a' b : Trees H)
      → find_tree b m ≡ find_tree a m
      → insert_nodes w middleware m nodes a ≡ ok a'
      → IsLocal m a' (insert_nodes w middleware m nodes b)
  unfolding insert_nodes
  insert_nodes-IsLocal m [] a a' b alike run =
      let left : a ≡ a' = cc run in record { result = b; run = refl; same_tree = rw (← left) alike }
  insert_nodes-IsLocal m (n ∷ nodes) a a' b alike run =
      let (a1, first, rest) =
        then_ok (insert m n.path (chain n) a) (insert_nodes w middleware m nodes) a' run in
      let here =
        set_in-IsLocal m a a1 b (grown m n.path (chain n) (find_tree a m))
          (sym (insert-set_in m n.path (chain n) a) ∙ first) in
      let inserted : insert m n.path (chain n) b ≡ ok here.result =
        insert-set_in m n.path (chain n) b
        ∙ ap (λ t. set_in b m (grown m n.path (chain n) t)) alike
        ∙ here.run in
      let behind = insert_nodes-IsLocal m nodes a1 a' here.result here.same_tree rest in
      record { result = behind.result; run = rw inserted behind.run; same_tree = behind.same_tree }

  insert_nodes-others :
      (m k : Bytes) (nodes : List HandleNode) (a a' : Trees H)
      → insert_nodes w middleware m nodes a ≡ ok a'
      → list_eq m k ≡ false
      → find_tree a' k ≡ find_tree a k
  unfolding insert_nodes
  insert_nodes-others m k [] a a' run ne = let left : a ≡ a' = cc run in rw (← left) refl
  insert_nodes-others m k (n ∷ nodes) a a' run ne =
      let (a1, first, rest) =
        then_ok (insert m n.path (chain n) a) (insert_nodes w middleware m nodes) a' run in
      insert_nodes-others m k nodes a1 a' rest ne
      ∙ set_in-others m k a a1 (grown m n.path (chain n) (find_tree a m))
          (sym (insert-set_in m n.path (chain n) a) ∙ first) ne

  -- The router holds for each method what its own nodes give.
  EachAlone : List (Bytes × List HandleNode) → Trees H → Trees H → Type 0
  EachAlone tree a a' =
      (k : Bytes) → IsLocal k a' (insert_nodes w middleware k (find_nodes tree k) a)

  none_there :
      (k : Bytes) (nodes : List HandleNode) (a a' : Trees H)
      → nodes ≡ []
      → find_tree a k ≡ find_tree a' k
      → IsLocal k a' (insert_nodes w middleware k nodes a)
  unfolding insert_nodes
  none_there k nodes a a' e alike = rw e (record { result = a; run = refl; same_tree = alike })

  nothing_more :
      (k : Bytes) (nodes : List HandleNode) (a a' : Trees H)
      → nodes ≡ []
      → IsLocal k a' (insert_nodes w middleware k nodes a)
      → find_tree a k ≡ find_tree a' k
  unfolding insert_nodes
  nothing_more k [] a a' e l =
      let left : a ≡ l.result = cc l.run in ap (λ t. find_tree t k) left ∙ l.same_tree
  nothing_more k (n ∷ nodes) a a' e l = absurd (cc e)

  moved_to :
      (k : Bytes) (nodes : List HandleNode) (a b a' : Trees H)
      → find_tree b k ≡ find_tree a k
      → IsLocal k a' (insert_nodes w middleware k nodes a)
      → IsLocal k a' (insert_nodes w middleware k nodes b)
  moved_to k nodes a b a' alike l =
      let there = insert_nodes-IsLocal k nodes a l.result b alike l.run in
      record { result = there.result; run = there.run; same_tree = there.same_tree ∙ l.same_tree }

  own_nodes :
      (m : Bytes) (nodes more : List HandleNode) (a a' : Trees H)
      → IsLocal m a' (insert_nodes w middleware m (if list_eq m m then nodes else more) a)
      → IsLocal m a' (insert_nodes w middleware m nodes a)
  own_nodes m nodes more a a' l = rw (list_eq_refl m) at l

  other_nodes :
      (m k : Bytes) (nodes more : List HandleNode) (a a' : Trees H)
      → list_eq m k ≡ false
      → IsLocal k a' (insert_nodes w middleware k (if list_eq m k then nodes else more) a)
      → IsLocal k a' (insert_nodes w middleware k more a)
  other_nodes m k nodes more a a' b l = rw b at l

  insert_methods-EachAlone :
      (tree : List (Bytes × List HandleNode)) (a a' : Trees H)
      → AllOnce tree
      → insert_methods w middleware tree a ≡ ok a'
      → EachAlone tree a a'
  unfolding insert_methods find_nodes EachAlone
  insert_methods-EachAlone [] a a' once run k =
      let left : a ≡ a' = cc run in none_there k [] a a' refl (ap (λ t. find_tree t k) left)
  insert_methods-EachAlone ((m, nodes) ∷ tree) a a' once run k =
      let (a1, first, rest) =
        then_ok (insert_nodes w middleware m nodes a) (insert_methods w middleware tree) a' run in
      let behind = insert_methods-EachAlone tree a1 a' once.1 rest k in
      elim (Bool-cases (list_eq m k)) [
        | inl b ↦
            let same_method : m ≡ k = (list_eq_iff m k).0 b in
            rw (b, ← same_method)
              (record {
                result = a1;
                run = first;
                same_tree =
                    nothing_more m (find_nodes tree m) a1 a' once.0
                      (insert_methods-EachAlone tree a1 a' once.1 rest m);
              })
        | inr b ↦
            let alike : find_tree a k ≡ find_tree a1 k =
              sym (insert_nodes-others m k nodes a a1 first b) in
            rw b (moved_to k (find_nodes tree k) a1 a a' alike behind)
      ]

  -- A router in which each method can have its own nodes can have them all.
  EachAlone-insert_methods :
      (tree : List (Bytes × List HandleNode)) (a a' : Trees H)
      → AllOnce tree
      → EachAlone tree a a'
      → (a2 : Trees H) × (insert_methods w middleware tree a ≡ ok a2)
        × ((k : Bytes) → find_tree a2 k ≡ find_tree a' k)
  unfolding insert_methods find_nodes EachAlone
  EachAlone-insert_methods [] a a' once each = (a, refl, λ k. nothing_more k [] a a' refl (each k))
  EachAlone-insert_methods ((m, nodes) ∷ tree) a a' once each =
      let own = own_nodes m nodes (find_nodes tree m) a a' (each m) in
      let (a2, run, all) = EachAlone-insert_methods tree own.result a' once.1 (λ k.
        elim (Bool-cases (list_eq m k)) [
          | inl b ↦
              let same_method : m ≡ k = (list_eq_iff m k).0 b in
              rw (← same_method)
                (none_there m (find_nodes tree m) own.result a' once.0 own.same_tree)
          | inr b ↦
              moved_to k (find_nodes tree k) a own.result a'
                (insert_nodes-others m k nodes a own.result own.run b)
                (other_nodes m k nodes (find_nodes tree k) a a' b (each k))
        ]) in
      (a2, rw own.run run, all)

insert_methods-order :
    {H : Type 0} (w : Store H) (middleware : List (Option H))
    (tree tree' : List (Bytes × List HandleNode)) (a a1 : Trees H)
    → AllOnce tree
    → AllOnce tree'
    → ((k : Bytes) → find_nodes tree' k ≡ find_nodes tree k)
    → insert_methods w middleware tree a ≡ ok a1
    → (a2 : Trees H) × (insert_methods w middleware tree' a ≡ ok a2)
      × ((k : Bytes) → find_tree a2 k ≡ find_tree a1 k)
unfolding EachAlone
insert_methods-order w middleware tree tree' a a1 once once' alike run =
    EachAlone-insert_methods w middleware tree' a a1 once'
      (λ k. rw (alike k) (insert_methods-EachAlone w middleware tree a a1 once run k))

-- Go visits the methods in any order: of two lists of the same nodes, each method once, if init fills
-- the router from the one, it does so from the other, and each method has the same tree. The
-- middleware of the engine's blueprint fills its array.
pub init_methods-order :
    {H : Type 0} (grow : ℕ → ℕ → ℕ) (w : Store H) (engine : ℕ) (bp : BluePrint)
    (tree tree' : List (Bytes × List HandleNode)) (a a1 : Trees H)
    → Grows grow
    → load w engine ≡ ok bp
    → IsSlice w.arrays bp.middleware
    → bp.middleware.len ≡ bp.middleware.cap
    → AllNodes w.arrays tree
    → AllNodes w.arrays tree'
    → AllOnce tree
    → AllOnce tree'
    → ((k : Bytes) → find_nodes tree' k ≡ find_nodes tree k)
    → trees_of (init_methods grow w engine tree a) ≡ ok a1
    → (a2 : Trees H) × (trees_of (init_methods grow w engine tree' a) ≡ ok a2)
      × ((k : Bytes) → find_tree a2 k ≡ find_tree a1 k)
init_methods-order grow w engine bp tree tree' a a1 grows e is full it it' once once' alike run =
    let (a2, run', law) =
      insert_methods-order w (contents w.arrays bp.middleware) tree tree' a a1 once once' alike
        (sym (init_tree-plain grow w engine bp tree a grows e is it full) ∙ run) in
    (a2, init_tree-plain grow w engine bp tree' a grows e is it' full ∙ run', law)
