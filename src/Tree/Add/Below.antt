-- ===== src/Tree/Add/Below.antt =====
-- Children of a tree without wildcards: their height, their routes, and their priorities.
use gin_t.Common.{
  ℕ, zero, suc, ◌+◌, ◌^◌, ◌≤◌, ◌<◌, ◌≡◌, refl, ap, inl, inr, none, some, List, [], ◌∷◌, ◌++◌, arith,
  Option-cases,
}
use mathlib.Core.List.{append-nil}
use gin_t.Tree.Node.{Info, RouterNode, node, Children, nil, cons, info_of, u32, child_at, set_child}
use gin_t.Tree.Walk.{height, height_over}
use gin_t.Tree.Static.{IsLive, IsStatic, Fits, HasRoute, HasRouteIn}
use gin_t.Tree.Static.Grow.{Fits-suc}
use gin_t.Tree.Add.Grown.{IsOpen}

module _ {H : Type 0} where
  pub height-child_at :
      (cs : Children H) (k : ℕ) (d : RouterNode H)
      → child_at cs k ≡ some d
      → height d ≤ height_over cs
  unfolding height
  height-child_at nil k d at = cc
  height-child_at (cons c cs) zero d at = let e : c ≡ d = ground arith in rw (← e) (omega arith)
  height-child_at (cons c cs) (suc k) d at = omega (arith, height-child_at cs k d at)

  pub child_at-set_child :
      (cs : Children H) (k : ℕ) (c d : RouterNode H)
      → child_at cs k ≡ some c
      → child_at (set_child cs k d) k ≡ some d
  child_at-set_child nil k c d at = cc
  child_at-set_child (cons e cs) zero c d at = refl
  child_at-set_child (cons e cs) (suc k) c d at = child_at-set_child cs k c d at

  pub set_child-set_child :
      (cs : Children H) (k : ℕ) (c d : RouterNode H)
      → set_child (set_child cs k c) k d ≡ set_child cs k d
  set_child-set_child nil k c d = refl
  set_child-set_child (cons e cs) zero c d = refl
  set_child-set_child (cons e cs) (suc k) c d = ap (cons e) (set_child-set_child cs k c d)

  pub HasRouteIn-child_at :
      (cs : Children H) (k : ℕ) (d : RouterNode H) (q : List ℕ) (h : H)
      → child_at cs k ≡ some d
      → HasRoute d q h
      → HasRouteIn cs q h
  unfolding HasRouteIn
  HasRouteIn-child_at nil k d q h at r = cc
  HasRouteIn-child_at (cons c cs) zero d q h at r = let e : d ≡ c = ground arith in inl (rw e at r)
  HasRouteIn-child_at (cons c cs) (suc k) d q h at r = inr (HasRouteIn-child_at cs k d q h at r)

mutual
  unfolding IsStatic Fits HasRoute

  -- Every node leads to a route.
  pub live_route :
      {H : Type 0} (m : ℕ) (t : RouterNode H)
      → IsStatic m t
      → (q : List ℕ) × (h : H) × HasRoute t ((info_of t).path ++ q) h
  live_route m (node n cs) (plain, f) = elim (Option-cases n.handle) [
    | inl e ↦
        let (q, h, r) = live_below m n.indices cs f (rw e at plain.live) in (q, h, inr (q, refl, r))
    | inr (h, e) ↦ ([], h, inl (append-nil n.path, e))
  ]

  live_below :
      {H : Type 0} (m : ℕ) (s : List ℕ) (cs : Children H)
      → Fits m s cs
      → IsLive none cs
      → (q : List ℕ) × (h : H) × HasRouteIn cs q h
  live_below m s nil f l = elim l [ ]
  live_below m [] (cons c cs) f l = elim f [ ]
  live_below m (b ∷ s) (cons c cs) f l =
      let (q, h, r) = live_route m c f.2 in ((info_of c).path ++ q, h, inl r)

module _ {H : Type 0} (m : ℕ) where
  pub IsOpen-child :
      (n : Info H) (cs : Children H) (full : List ℕ)
      → suc m < 2 ^ 32
      → IsStatic m (node n cs)
      → IsOpen m (record n { full_path = full; priority = u32 (n.priority + 1) }) cs
  unfolding IsStatic
  IsOpen-child n cs full small (plain, f) = record {
    plain = record {
      tame = plain.tame;
      no_param = plain.no_param;
      no_catch_all = plain.no_catch_all;
      live = plain.live;
      ranked = omega (arith, plain.ranked, plain.bounded);
      bounded = omega (arith, plain.ranked, plain.bounded);
    };
    twice = omega (arith, plain.ranked, plain.bounded);
    fits = f;
  }

  pub IsOpen-IsStatic :
      (n : Info H) (cs : Children H) → IsOpen m n cs → IsStatic (suc m) (node n cs)
  unfolding IsStatic
  IsOpen-IsStatic n cs o = (o.plain, Fits-suc m cs n.indices o.fits)
