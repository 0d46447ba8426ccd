-- ===== src/Tree/Wild/NoHandle.antt =====
-- getValue on a tree in which no node has a handle.
use gin_t.Common.{
  prefix_cases, same, longer, apart, ℕ, zero, suc, ◌+◌, ◌≡◌, refl, Bool, true, false, not, ◌&&◌,
  inl, inr, Bool-cases, Option-cases, Option, none, some, List, [], ◌∷◌, length, take, drop, ltb,
  ◌==◌, list_eq, arith,
}
use gin_t.Outcome.{Outcome, ok, panic, out_of_fuel, ◌>>=◌, or_panic, index_out_of_range}
use gin_t.Tree.Node.{
  NodeType, Info, RouterNode, node, Children, nil, cons, child_at, size, static, root, param,
  catch_all,
}
use gin_t.Tree.Walk.{index_of}
use gin_t.Tree.Lookup.Rounds.{
  get_value_same, get_value_longer, get_value_wild, get_value_apart, below,
}
use gin_t.Tree.Lookup.{
  slash_child, not_found, param_end, Saved, Found, is_root, save_param, param_value, get_value,
  child_value, wild_value, end_value,
}
use gin_t.Tree.Add.First.{handle_of}

unfoldable mutual
  -- No node has a handle.
  pub NoHandle : {H : Type 0} → RouterNode H → Type 0
  NoHandle (node n cs) = n.handle ≡ none × NoHandles cs

  pub NoHandles : {H : Type 0} → Children H → Type 0
  NoHandles nil = Unit
  NoHandles (cons c cs) = NoHandle c × NoHandles cs

module _ {H : Type 0} where
  handle_of-bind :
      {A : Type 0} (x : Outcome A) (f : A → Outcome (Found H))
      → ((a : A) → handle_of (f a) ≡ none)
      → handle_of (x >>= f) ≡ none
  handle_of-bind (ok a) f h = h a
  handle_of-bind (panic e) f h = refl
  handle_of-bind out_of_fuel f h = refl

  -- the answer of end_value below the child for '/'
  child-none :
      (saved : Option Saved) (o : Outcome (RouterNode H))
      → handle_of {H = H} (o >>= λ c. slash_child c >>= λ t. ok (not_found saved t)) ≡ none
  child-none saved o =
      handle_of-bind o _
        (λ c. handle_of-bind (slash_child c) (λ t. ok (not_found saved t)) (λ t. refl))

  end_value-none :
      (q : List ℕ) (saved : Option Saved) (n : Info H) (cs : Children H)
      → n.handle ≡ none
      → handle_of (end_value q saved (node n cs)) ≡ none
  unfolding end_value
  end_value-none q saved n cs e =
      rw e (elim (Bool-cases (list_eq q (b'/' ∷ []) && n.wild_child && not (is_root n.n_type))) [
        | inl b ↦ rw b refl
        | inr b ↦ rw b (elim (Option-cases (index_of b'/' n.indices 0)) [
          | inl c ↦ rw c refl
          | inr c ↦ rw c.1 (child-none saved (or_panic (child_at cs c.0) index_out_of_range))
        ])
      ])

  below-none :
      (n : Info H) (cs : Children H) (o : Option ℕ) (q : List ℕ) (saved : Option Saved)
      → ((k : ℕ) → handle_of (child_value cs k q saved) ≡ none)
      → handle_of (below n cs saved o q) ≡ none
  below-none n cs none q saved h = refl
  below-none n cs (some k) q saved h = h k

  param_value-none :
      (s : Saved) (n : Info H) (cs : Children H)
      → n.handle ≡ none
      → handle_of (ok (param_value s (node n cs))) ≡ none
  unfolding param_value
  param_value-none s n cs e = ground arith

  -- the branch for a parameter, given the answer below it
  param-none :
      (b : Bool) (q : List ℕ) (s : Saved) (n : Info H) (cs : Children H)
      → n.handle ≡ none
      → handle_of (child_value cs 0 (drop (param_end q) q) (some s)) ≡ none
      → handle_of (elim b [
        | true ↦ elim (ltb 0 (size cs)) [
          | true ↦ child_value cs 0 (drop (param_end q) q) (some s)
          | false ↦ ok (not_found (some s) (length q == param_end q + 1))
        ]
        | false ↦ ok (param_value s (node n cs))
      ])
        ≡ none
  param-none false q s n cs e below = param_value-none s n cs e
  param-none true q s n cs e below = ground arith

data KindOf (k : NodeType) : Type 0 where
  at_param : k ≡ param → KindOf k
  at_catch_all : k ≡ catch_all → KindOf k
  at_static : k ≡ static → KindOf k
  at_root : k ≡ root → KindOf k

NodeType-cases : (k : NodeType) → KindOf k
NodeType-cases param = at_param refl
NodeType-cases catch_all = at_catch_all refl
NodeType-cases static = at_static refl
NodeType-cases root = at_root refl

mutual
  unfolding NoHandle NoHandles child_value wild_value

  pub get_value-NoHandle :
      {H : Type 0} (t : RouterNode H) (q : List ℕ) (saved : Option Saved)
      → NoHandle t
      → handle_of (get_value t q saved) ≡ none
  get_value-NoHandle (node n cs) q saved h = elim (prefix_cases n.path q) [
    | same e ↦ rw (e, get_value_same n cs saved) (end_value-none n.path saved n cs h.0)
    | longer c r e ↦ elim (Bool-cases n.wild_child) [
      | inl d ↦ rw (e, get_value_wild n cs saved c r d) (wild_value-NoHandle cs (c ∷ r) saved h.1)
      | inr d ↦
          rw (e, get_value_longer n cs saved c r d)
            (below-none n cs (index_of c n.indices 0) (c ∷ r) saved
              (λ k. child_value-NoHandle cs k (c ∷ r) saved h.1))
    ]
    | apart out ↦ rw (get_value_apart n cs saved q out) refl
  ]

  child_value-NoHandle :
      {H : Type 0} (cs : Children H) (k : ℕ) (q : List ℕ) (saved : Option Saved)
      → NoHandles cs
      → handle_of (child_value cs k q saved) ≡ none
  child_value-NoHandle nil k q saved h = refl
  child_value-NoHandle (cons c cs) zero q saved h = get_value-NoHandle c q saved h.0
  child_value-NoHandle (cons c cs) (suc k) q saved h = child_value-NoHandle cs k q saved h.1

  wild_value-NoHandle :
      {H : Type 0} (cs : Children H) (q : List ℕ) (saved : Option Saved)
      → NoHandles cs
      → handle_of (wild_value cs q saved) ≡ none
  wild_value-NoHandle nil q saved h = refl
  wild_value-NoHandle (cons (node n cs) more) q saved h = elim (NodeType-cases n.n_type) [
    | at_param e ↦ rw e (
        handle_of-bind (save_param saved n.max_params 1 n.path (take (param_end q) q)) _ (λ s.
          param-none (ltb (param_end q) (length q)) q s n cs h.0.0
            (child_value-NoHandle cs 0 (drop (param_end q) q) (some s) h.0.1)))
    | at_catch_all e ↦
        rw e (handle_of-bind (save_param saved n.max_params 2 n.path q) _ (λ s. h.0.0))
    | at_static e ↦ rw e refl
    | at_root e ↦ rw e refl
  ]
