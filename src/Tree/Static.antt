-- ===== src/Tree/Static.antt =====
-- Trees without wildcards: their shape, and the routes that they hold.
pub mod Routes
pub mod Grow
use gin_t.Common.{
  ℕ, ◌≤◌, zero, suc, ◌+◌, ◌≡◌, ◌≢◌, refl, ◌⊎◌, inl, inr, Bool, true, false, Option, none, some,
  List, [], ◌∷◌, ◌++◌, arith, Bool-cases, ◌==◌,
}
use gin_t.Tree.Node.{Info, RouterNode, node, Children, nil, cons, child_at}
use gin_t.Tree.Walk.{is_param, is_catch_all, index_of}

abbrev pub HeadIs : ℕ → List ℕ → Type 0
HeadIs c [] = ⊥
HeadIs c (d ∷ s) = c ≡ d

abbrev pub Absent : ℕ → List ℕ → Type 0
Absent c [] = Unit
Absent c (d ∷ s) = (c ≢ d) × Absent c s

abbrev pub IsLive : {H : Type 0} → Option H → Children H → Type 0
IsLive (some h) cs = Unit
IsLive none nil = ⊥
IsLive none (cons c cs) = Unit

-- No wildcard, no leaf without a handle, and a priority from 1 to `m`.
pub record IsPlain {H : Type 0} (m : ℕ) (n : Info H) (cs : Children H) : Type 0 where
  pub tame : n.wild_child ≡ false
  pub no_param : is_param n.n_type ≡ false
  pub no_catch_all : is_catch_all n.n_type ≡ false
  pub live : IsLive n.handle cs
  pub ranked : 1 ≤ n.priority
  pub bounded : n.priority ≤ m

-- Every node is plain, and `indices` holds the first bytes of the children, each once. `m` bounds
-- the number of routes that were added.
unfoldable mutual
  pub IsStatic : {H : Type 0} → ℕ → RouterNode H → Type 0
  IsStatic m (node n cs) = IsPlain m n cs × Fits m n.indices cs

  pub Fits : {H : Type 0} → ℕ → List ℕ → Children H → Type 0
  Fits m [] nil = Unit
  Fits m [] (cons c cs) = ⊥
  Fits m (b ∷ s) nil = ⊥
  Fits m (b ∷ s) (cons c cs) = StartsWith b c × Absent b s × IsStatic m c × Fits m s cs

  pub StartsWith : {H : Type 0} → ℕ → RouterNode H → Type 0
  StartsWith b (node n cs) = HeadIs b n.path

-- The path `p`, read from the root, ends at a node with the handle `h`.
unfoldable mutual
  pub HasRoute : {H : Type 0} → RouterNode H → List ℕ → H → Type 0
  HasRoute (node n cs) p h =
      ((p ≡ n.path) × (n.handle ≡ some h)) ⊎ ((q : List ℕ) × (p ≡ n.path ++ q) × HasRouteIn cs q h)

  pub HasRouteIn : {H : Type 0} → Children H → List ℕ → H → Type 0
  HasRouteIn nil q h = ⊥
  HasRouteIn (cons c cs) q h = HasRoute c q h ⊎ HasRouteIn cs q h
