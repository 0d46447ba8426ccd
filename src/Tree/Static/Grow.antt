-- ===== src/Tree/Static/Grow.antt =====
-- Children that are replaced or appended: the shape of the tree and its routes.
use gin_t.Common.{
  ℕ, zero, suc, ◌≤◌, ◌≡◌, ◌≢◌, refl, sym, ap, ◌⊎◌, ◌↔◌, false, some, List, [], ◌∷◌, ◌++◌, arith,
  length,
}
use gin_t.Tree.Node.{
  RouterNode, node, Children, nil, cons, info_of, size, child_at, set_child, append_child,
}
use gin_t.Tree.Priority.{overtakes}
use gin_t.Tree.Priority.Stay.{Stays}
use gin_t.Tree.Static.{Absent, IsStatic, Fits, StartsWith, HasRoute, HasRouteIn}

abbrev pub Routes : Type 0 → Type 1
Routes H = List ℕ → H → Type 0

-- `R'` holds the routes of `R`, and `p` with the handle `h`.
abbrev pub Adds : {H : Type 0} → Routes H → List ℕ → H → Routes H → Type 0
Adds {H} R p h R' = (q : List ℕ) (k : H) → R' q k ↔ (R q k ⊎ ((q ≡ p) × (k ≡ h)))

mutual
  unfolding IsStatic Fits

  IsStatic-suc : {H : Type 0} (m : ℕ) (t : RouterNode H) → IsStatic m t → IsStatic (suc m) t
  IsStatic-suc m (node n cs) (plain, f) = (
    record {
      tame = plain.tame;
      no_param = plain.no_param;
      no_catch_all = plain.no_catch_all;
      live = plain.live;
      ranked = plain.ranked;
      bounded = omega (arith, plain.bounded);
    },
    Fits-suc m cs n.indices f,
  )

  pub Fits-suc :
      {H : Type 0} (m : ℕ) (cs : Children H) (s : List ℕ) → Fits m s cs → Fits (suc m) s cs
  Fits-suc m nil [] f = tt
  Fits-suc m nil (b ∷ s) f = elim f [ ]
  Fits-suc m (cons c cs) [] f = elim f [ ]
  Fits-suc m (cons c cs) (b ∷ s) f = (f.0, f.1, IsStatic-suc m c f.2, Fits-suc m cs s f.3)

Absent-append : (b c : ℕ) (s : List ℕ) → Absent b s → b ≢ c → Absent b (s ++ c ∷ [])
Absent-append b c [] a ne = (ne, tt)
Absent-append b c (d ∷ s) (x, a) ne = (x, Absent-append b c s a ne)

module _ {H : Type 0} (m : ℕ) where
  pub size-Fits : (s : List ℕ) (cs : Children H) → Fits m s cs → size cs ≡ length s
  unfolding Fits
  size-Fits [] nil f = refl
  size-Fits [] (cons c cs) f = elim f [ ]
  size-Fits (b ∷ s) nil f = elim f [ ]
  size-Fits (b ∷ s) (cons c cs) f = ap suc (size-Fits s cs f.3)

  ranked_of : (c : RouterNode H) → IsStatic m c → 1 ≤ (info_of c).priority
  unfolding IsStatic
  ranked_of (node n cs) st = st.0.ranked

  no_overtaking :
      (s : List ℕ) (cs : Children H) (j : ℕ) → Fits m s cs → overtakes (child_at cs j) 1 ≡ false
  unfolding Fits overtakes
  no_overtaking s nil j f = refl
  no_overtaking [] (cons c cs) j f = elim f [ ]
  no_overtaking (b ∷ s) (cons c cs) zero f = ground (arith, ranked_of c f.2)
  no_overtaking (b ∷ s) (cons c cs) (suc j) f = no_overtaking s cs j f.3

  -- A new child, with the priority 1, overtakes no sibling.
  pub Stays-Fits : (s : List ℕ) (cs : Children H) → Fits m s cs → Stays cs (size cs) 1
  Stays-Fits s nil f = tt
  Stays-Fits s (cons c cs) f = no_overtaking s (cons c cs) (size cs) f

  pub Fits-append :
      (s : List ℕ) (cs : Children H) (c : ℕ) (d : RouterNode H)
      → Fits m s cs
      → Absent c s
      → StartsWith c d
      → IsStatic m d
      → Fits m (s ++ c ∷ []) (append_child cs d)
  unfolding Fits
  Fits-append [] nil c d f a st fine = (st, tt, fine, tt)
  Fits-append [] (cons e cs) c d f a st fine = elim f [ ]
  Fits-append (b ∷ s) nil c d f a st fine = elim f [ ]
  Fits-append (b ∷ s) (cons e cs) c d f a st fine =
      (f.0, Absent-append b c s f.1 (λ p. a.0 (sym p)), f.2, Fits-append s cs c d f.3 a.1 st fine)

  pub Fits-set_child :
      (s : List ℕ) (cs : Children H) (k : ℕ) (c d : RouterNode H)
      → Fits m s cs
      → child_at cs k ≡ some c
      → ((b : ℕ) → StartsWith b c → StartsWith b d)
      → IsStatic m d
      → Fits m s (set_child cs k d)
  unfolding Fits
  Fits-set_child s nil k c d f at st fine = f
  Fits-set_child [] (cons e cs) k c d f at st fine = elim f [ ]
  Fits-set_child (b ∷ s) (cons e cs) zero c d f at st fine =
      let same : e ≡ c = ground arith in (st b (rw same at f.0), f.1, fine, f.3)
  Fits-set_child (b ∷ s) (cons e cs) (suc k) c d f at st fine =
      (f.0, f.1, f.2, Fits-set_child s cs k c d f.3 at st fine)

module _ {H : Type 0} where
  pub HasRouteIn-append :
      (cs : Children H) (d : RouterNode H) (q : List ℕ) (h : H)
      → HasRouteIn (append_child cs d) q h ↔ (HasRouteIn cs q h ⊎ HasRoute d q h)
  unfolding HasRouteIn
  HasRouteIn-append nil d q h = ground arith
  HasRouteIn-append (cons c cs) d q h = ground (arith, HasRouteIn-append cs d q h)

  pub HasRouteIn-set_child :
      (cs : Children H) (j : ℕ) (c d : RouterNode H) (p : List ℕ) (h : H)
      → child_at cs j ≡ some c
      → Adds (HasRoute c) p h (HasRoute d)
      → Adds (HasRouteIn cs) p h (HasRouteIn (set_child cs j d))
  unfolding HasRouteIn
  HasRouteIn-set_child nil j c d p h at adds q k = cc
  HasRouteIn-set_child (cons e cs) zero c d p h at adds q k =
      let same : e ≡ c = ground arith in rw same (ground (arith, adds q k))
  HasRouteIn-set_child (cons e cs) (suc j) c d p h at adds q k =
      ground (arith, HasRouteIn-set_child cs j c d p h at adds q k)
