-- ===== src/Tree/Add/Order.antt =====
-- The order of siblings by priority along the path of a new route.
use gin_t.Common.{ℕ, zero, suc, ◌≤◌, ◌≡◌, Option, none, some, List, [], ◌∷◌, ◌++◌, arith, false}
use gin_t.Tree.Node.{RouterNode, node, Children, nil, cons, info_of, child_at}
use gin_t.Tree.Priority.{overtakes}
use gin_t.Tree.Priority.Stay.{Stays}
use gin_t.Tree.Static.{StartsWith}

abbrev Meets : {H : Type 0} → RouterNode H → List ℕ → Type 0
Meets c [] = ⊥
Meets c (b ∷ q) = StartsWith b c

abbrev NotAbove : Option ℕ → ℕ → Type 0
NotAbove none prio = Unit
NotAbove (some above) prio = prio ≤ above

-- Each child on the way of the path `p` has, once it has grown by one, at most the priority of the
-- sibling in front of it, so that no sibling is overtaken.
unfoldable mutual
  pub KeepsOrder : {H : Type 0} → RouterNode H → List ℕ → Type 0
  KeepsOrder (node n cs) p = (q : List ℕ) → p ≡ n.path ++ q → KeepsOrderIn none cs q

  pub KeepsOrderIn : {H : Type 0} → Option ℕ → Children H → List ℕ → Type 0
  KeepsOrderIn above nil q = Unit
  KeepsOrderIn above (cons c cs) q =
      (Meets c q → NotAbove above (suc (info_of c).priority) × KeepsOrder c q)
      × KeepsOrderIn (some (info_of c).priority) cs q

module _ {H : Type 0} where
  abbrev StaysBelow : Option ℕ → Children H → ℕ → ℕ → Type 0
  StaysBelow above cs zero prio = NotAbove above prio
  StaysBelow above cs (suc j) prio = overtakes (child_at cs j) prio ≡ false

  at_child :
      (above : Option ℕ) (cs : Children H) (k : ℕ) (d : RouterNode H) (q : List ℕ)
      → child_at cs k ≡ some d
      → Meets d q
      → KeepsOrderIn above cs q
      → StaysBelow above cs k (suc (info_of d).priority) × KeepsOrder d q
  unfolding KeepsOrder overtakes
  at_child above nil k d q at meets keeps = cc
  at_child above (cons c cs) zero d q at meets keeps =
      let e : d ≡ c = ground arith in rw e (keeps.0 (rw e at meets))
  at_child above (cons c cs) (suc zero) d q at meets keeps =
      let (stays, below) = at_child (some (info_of c).priority) cs zero d q at meets keeps.1 in
      (ground arith, below)
  at_child above (cons c cs) (suc (suc k)) d q at meets keeps =
      at_child (some (info_of c).priority) cs (suc k) d q at meets keeps.1

  -- The child at place `k`, which the path meets, keeps its place.
  pub KeepsOrder-child :
      (cs : Children H) (k : ℕ) (d : RouterNode H) (q : List ℕ)
      → child_at cs k ≡ some d
      → Meets d q
      → KeepsOrderIn none cs q
      → Stays cs k (suc (info_of d).priority) × KeepsOrder d q
  KeepsOrder-child cs zero d q at meets keeps = (tt, (at_child none cs zero d q at meets keeps).1)
  KeepsOrder-child cs (suc k) d q at meets keeps = at_child none cs (suc k) d q at meets keeps
