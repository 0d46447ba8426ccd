-- ===== src/Tree/Static/Routes.antt =====
-- Where the routes of a tree without wildcards begin.
use gin_t.Common.{
  ℕ, suc, ◌≡◌, refl, ap, ◌∙◌, inl, inr, Option, none, some, List, [], ◌∷◌, ◌++◌, arith,
  Option-cases,
}
use native.Mathlib.Decide.{ℕ_discrete}
use gin_t.Tree.Node.{RouterNode, node, Children, nil, cons, child_at}
use gin_t.Tree.Walk.{index_of}
use gin_t.Tree.Static.{HeadIs, Absent, IsStatic, Fits, StartsWith, HasRoute, HasRouteIn}

pub HeadIs-cons : (b : ℕ) (s : List ℕ) → HeadIs b s → (t : List ℕ) × (s ≡ b ∷ t)
HeadIs-cons b [] h = elim h [ ]
HeadIs-cons b (d ∷ s) h = (s, cc)

module _ {H : Type 0} where
  -- A route below a child begins with the first byte of the child's path.
  pub route_head :
      (b : ℕ) (c : RouterNode H) (q : List ℕ) (h : H)
      → StartsWith b c
      → HasRoute c q h
      → (t : List ℕ) × (q ≡ b ∷ t)
  unfolding StartsWith HasRoute
  route_head b (node n cs) q h st (inl (e, _)) =
      let (t, e') = HeadIs-cons b n.path st in (t, e ∙ e')
  route_head b (node n cs) q h st (inr (q', e, _)) =
      let (t, e') = HeadIs-cons b n.path st in (t ++ q', e ∙ ap (λ s. s ++ q') e')

  pub not-route_nil :
      (m : ℕ) (s : List ℕ) (cs : Children H) (h : H) → Fits m s cs → HasRouteIn cs [] h → ⊥
  unfolding Fits HasRouteIn
  not-route_nil m s nil h f r = elim r [ ]
  not-route_nil m [] (cons c cs) h f r = elim f [ ]
  not-route_nil m (b ∷ s) (cons c cs) h f (inl r) = cc (route_head b c [] h f.0 r).1
  not-route_nil m (b ∷ s) (cons c cs) h f (inr r) = not-route_nil m s cs h f.3 r

  pub not-route-Absent :
      (m : ℕ) (s : List ℕ) (cs : Children H) (c : ℕ) (q : List ℕ) (h : H)
      → Fits m s cs
      → Absent c s
      → HasRouteIn cs (c ∷ q) h
      → ⊥
  unfolding Fits HasRouteIn
  not-route-Absent m s nil c q h f a r = elim r [ ]
  not-route-Absent m [] (cons d cs) c q h f a r = elim f [ ]
  not-route-Absent m (b ∷ s) (cons d cs) c q h f a (inl r) =
      let (t, e) = route_head b d (c ∷ q) h f.0 r in a.0 (cc e)
  not-route-Absent m (b ∷ s) (cons d cs) c q h f a (inr r) = not-route-Absent m s cs c q h f.3 a.1 r

abbrev pub next_index : Option ℕ → Option ℕ
next_index none = none
next_index (some k) = some (suc k)

pub index_of_shift :
    (c : ℕ) (s : List ℕ) (k : ℕ) → index_of c s (suc k) ≡ next_index (index_of c s k)
unfolding index_of
index_of_shift c [] k = refl
index_of_shift c (d ∷ s) k = ground (arith, index_of_shift c s (suc k))

pub index_of-Absent : (c : ℕ) (s : List ℕ) (k : ℕ) → index_of c s k ≡ none → Absent c s
unfolding index_of
index_of-Absent c [] k h = tt
index_of-Absent c (d ∷ s) k h = (ground arith, index_of-Absent c s (suc k) (ground arith))

-- A byte of `indices` leads to a child without wildcards, which starts with it.
pub Fits-child_at :
    {H : Type 0} (m : ℕ) (s : List ℕ) (cs : Children H) (b k : ℕ)
    → Fits m s cs
    → index_of b s 0 ≡ some k
    → (d : RouterNode H) × (child_at cs k ≡ some d) × IsStatic m d × StartsWith b d
unfolding Fits index_of
Fits-child_at m [] cs b k f e = cc
Fits-child_at m (c ∷ s) nil b k f e = elim f [ ]
Fits-child_at m (c ∷ s) (cons d cs) b k f e = elim (ℕ_discrete b c) [
  | yes p ↦ (d, ground arith, f.2, rw p f.0)
  | no ne ↦ elim (Option-cases (index_of b s 0)) [
    | inl e' ↦ absurd (ground (arith, index_of_shift b s 0))
    | inr (j, e') ↦
        let (d', at, st, starts) = Fits-child_at m s cs b j f.3 e' in
        (d', ground (arith, index_of_shift b s 0), st, starts)
  ]
]
