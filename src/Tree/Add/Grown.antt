-- ===== src/Tree/Add/Grown.antt =====
-- The two ways in which a new leaf comes into a tree without wildcards.
use gin_t.Common.{
  ℕ, suc, ◌^◌, ◌≤◌, ◌<◌, ◌≡◌, ◌≢◌, refl, sym, ap, ◌∙◌, ◌⊎◌, inl, inr, ◌↔◌, false, Option, none,
  some, List, [], ◌∷◌, ◌++◌, arith,
}
use mathlib.Core.List.{append_assoc}
use gin_t.Outcome.{ok}
use gin_t.Tree.Node.{Info, RouterNode, node, Children, nil, cons, append_child}
use gin_t.Tree.Walk.{finished, walk_step, index_of}
use gin_t.Tree.Walk.Rounds.{raised, upper_half, lower_half, walk_step_beyond, walk_step_forked}
use gin_t.Tree.Walk.Descend.{leaf, descend_new}
use gin_t.Tree.Insert.{is_wildcard}
use gin_t.Tree.Static.{HeadIs, IsPlain, IsLive, IsStatic, Fits, StartsWith, HasRoute, HasRouteIn}
use gin_t.Tree.Static.Routes.{index_of-Absent}
use gin_t.Tree.Static.Grow.{Adds, Fits-suc, size-Fits, Stays-Fits, Fits-append, HasRouteIn-append}

-- `t'` is `t` with the route `p` to `h`, and begins as `t` does.
pub record IsGrown {H : Type 0} (m : ℕ) (t : RouterNode H) (p : List ℕ) (h : H) (t' : RouterNode H)
    : Type 0 where
  pub fine : IsStatic (suc m) t'
  pub adds : Adds (HasRoute t) p h (HasRoute t')
  pub starts : (b : ℕ) → StartsWith b t → HeadIs b p → StartsWith b t'

-- A node on the way of a new route, its own priority already grown.
pub record IsOpen {H : Type 0} (m : ℕ) (n : Info H) (cs : Children H) : Type 0 where
  pub plain : IsPlain (suc m) n cs
  pub twice : 2 ≤ n.priority
  pub fits : Fits m n.indices cs

module _ {H : Type 0} where
  IsLive-append : (o : Option H) (cs : Children H) (c : RouterNode H) → IsLive o (append_child cs c)
  IsLive-append none nil c = tt
  IsLive-append none (cons d cs) c = tt
  IsLive-append (some h) cs c = tt

  -- A route that is added below a node is added to the node, behind its path.
  pub Adds-below :
      (n n' : Info H) (cs cs' : Children H) (s : List ℕ) (h : H)
      → n'.path ≡ n.path
      → n'.handle ≡ n.handle
      → Adds (HasRouteIn cs) s h (HasRouteIn cs')
      → Adds (HasRoute (node n cs)) (n.path ++ s) h (HasRoute (node n' cs'))
  unfolding HasRoute
  Adds-below n n' cs cs' s h ep eh adds q k = (to, from)
    where
      to : HasRoute (node n' cs') q k → HasRoute (node n cs) q k ⊎ ((q ≡ n.path ++ s) × (k ≡ h))
      to (inl (e, e')) = inl (inl (e ∙ ep, sym eh ∙ e'))
      to (inr (r, e, below)) = elim ((adds r k).0 below) [
        | inl old ↦ inl (inr (r, e ∙ ap (λ x. x ++ r) ep, old))
        | inr (e', same) ↦ inr (e ∙ ap (λ x. x ++ r) ep ∙ ap (λ x. n.path ++ x) e', same)
      ]

      from : HasRoute (node n cs) q k ⊎ ((q ≡ n.path ++ s) × (k ≡ h)) → HasRoute (node n' cs') q k
      from (inl (inl (e, e'))) = inl (e ∙ sym ep, eh ∙ e')
      from (inl (inr (r, e, below))) =
          inr (r, e ∙ ap (λ x. x ++ r) (sym ep), (adds r k).1 (inl below))
      from (inr (e, same)) = inr (s, e ∙ ap (λ x. x ++ s) (sym ep), (adds s k).1 (inr (refl, same)))

  HasRoute-leaf :
      (p : List ℕ) (h : H) (q : List ℕ) (k : H)
      → HasRoute (leaf p (some h)) q k ↔ ((q ≡ p) × (k ≡ h))
  unfolding HasRoute
  HasRoute-leaf p h q k = (
    elim [ inl (e, e') ↦ (e, cc) | inr (r, e, below) ↦ elim below [ ] ],
    λ (e, same). inl (e, ap some (sym same)),
  )

  Adds-append :
      (cs : Children H) (p : List ℕ) (h : H)
      → Adds (HasRouteIn cs) p h (HasRouteIn (append_child cs (leaf p (some h))))
  Adds-append cs p h q k =
      ground (arith, HasRouteIn-append cs (leaf p (some h)) q k, HasRoute-leaf p h q k)

-- A first byte of two texts that part at different bytes stands before the fork.
HeadIs-common :
    (b : ℕ) (q : List ℕ) (a c : ℕ) (u r : List ℕ)
    → c ≢ a
    → HeadIs b (q ++ a ∷ u)
    → HeadIs b (q ++ c ∷ r)
    → HeadIs b q
HeadIs-common b [] a c u r ne h k = absurd (ne (sym k ∙ h))
HeadIs-common b (d ∷ q) a c u r ne h k = h

module _ {H : Type 0} (n : Info H) (cs : Children H) (q : List ℕ) (a : ℕ) (u : List ℕ) where
  abbrev lower : RouterNode H
  lower = node (lower_half n cs (a ∷ u)) cs

  abbrev split : RouterNode H
  split = node (upper_half 0 n q a) (cons lower nil)

  -- Splitting an edge changes no route.
  HasRoute-split :
      (p : List ℕ) (k : H) → n.path ≡ q ++ a ∷ u → HasRoute split p k ↔ HasRoute (node n cs) p k
  unfolding HasRoute
  HasRoute-split p k e = (to, from)
    where
      to : HasRoute split p k → HasRoute (node n cs) p k
      to (inl (_, e')) = cc
      to (inr (r, e', inl (inl (e'', held)))) = inl (e' ∙ ap (λ x. q ++ x) e'' ∙ sym e, held)
      to (inr (r, e', inl (inr (r', e'', below)))) = inr (
        r',
        e' ∙ ap (λ x. q ++ x) e'' ∙ sym (append_assoc q (a ∷ u) r') ∙ ap (λ x. x ++ r') (sym e),
        below,
      )
      to (inr (r, e', inr none_left)) = elim none_left [ ]

      from : HasRoute (node n cs) p k → HasRoute split p k
      from (inl (e', held)) = inr (a ∷ u, e' ∙ e, inl (inl (refl, held)))
      from (inr (r', e', below)) = inr (
        (a ∷ u) ++ r',
        e' ∙ ap (λ x. x ++ r') e ∙ append_assoc q (a ∷ u) r',
        inl (inr (r', refl, below)),
      )

  lower-IsStatic : (m : ℕ) → suc m < 2 ^ 32 → IsOpen m n cs → IsStatic (suc m) lower
  unfolding IsStatic
  lower-IsStatic m small o = (
    record {
      tame = o.plain.tame;
      no_param = refl;
      no_catch_all = refl;
      live = o.plain.live;
      ranked = omega (arith, o.twice, o.plain.bounded);
      bounded = omega (arith, o.twice, o.plain.bounded);
    },
    Fits-suc m cs n.indices o.fits,
  )

module _ {H : Type 0} (m : ℕ) (h : H) (c : ℕ) (r : List ℕ) where
  leaf-IsStatic : IsStatic (suc m) (leaf (c ∷ r) (some h))
  unfolding IsStatic
  leaf-IsStatic = (
    record {
      tame = refl;
      no_param = refl;
      no_catch_all = refl;
      live = tt;
      ranked = omega arith;
      bounded = omega arith;
    },
    tt,
  )

  -- The path goes on behind the node with a byte that no child has: a new child is appended.
  pub IsGrown-beyond :
      (n : Info H) (cs : Children H)
      → IsOpen m n cs
      → index_of c n.indices 0 ≡ none
      → is_wildcard c ≡ false
      → (t' : RouterNode H) × (walk_step (n.path ++ c ∷ r) 0 (some h) (node n cs)
          ≡ ok (finished t'))
        × IsGrown m (node n cs) (n.path ++ c ∷ r) h t'
  unfolding IsStatic StartsWith
  IsGrown-beyond n cs o absent byte = (
    node (record (raised 0 n) { indices = n.indices ++ c ∷ [] })
        (append_child cs (leaf (c ∷ r) (some h))),
    walk_step_beyond 0 (some h) n cs c r
        ∙ descend_new (raised 0 n) cs c r (some h) o.plain.tame o.plain.no_param absent byte
            (size-Fits m n.indices cs o.fits) (Stays-Fits m n.indices cs o.fits),
    record {
      fine = (
        record {
          tame = o.plain.tame;
          no_param = o.plain.no_param;
          no_catch_all = o.plain.no_catch_all;
          live = IsLive-append n.handle cs (leaf (c ∷ r) (some h));
          ranked = o.plain.ranked;
          bounded = o.plain.bounded;
        },
        Fits-append (suc m) n.indices cs c (leaf (c ∷ r) (some h)) (Fits-suc m cs n.indices o.fits)
            (index_of-Absent c n.indices 0 absent) refl leaf-IsStatic,
      );
      adds =
          Adds-below n (record (raised 0 n) { indices = n.indices ++ c ∷ [] }) cs _ (c ∷ r) h refl
            refl (Adds-append cs (c ∷ r) h);
      starts = λ b st hd. st;
    },
  )

  -- The path leaves that of the node: the edge is split, and the new leaf stands beside the rest.
  pub IsGrown-forked :
      (n : Info H) (cs : Children H) (q : List ℕ) (a : ℕ) (u : List ℕ)
      → suc m < 2 ^ 32
      → IsOpen m n cs
      → n.path ≡ q ++ a ∷ u
      → c ≢ a
      → is_wildcard c ≡ false
      → (t' : RouterNode H) × (walk_step (q ++ c ∷ r) 0 (some h) (node n cs) ≡ ok (finished t'))
        × IsGrown m (node n cs) (q ++ c ∷ r) h t'
  unfolding IsStatic StartsWith
  IsGrown-forked n cs q a u small o e ne byte = (
    node (record (upper_half 0 n q a) { indices = a ∷ c ∷ [] })
        (cons (lower n cs q a u) (cons (leaf (c ∷ r) (some h)) nil)),
    walk_step_forked 0 (some h) n cs q a u c r e ne
        ∙ descend_new (upper_half 0 n q a) (cons (lower n cs q a u) nil) c r (some h) refl
            o.plain.no_param (unfold index_of in ground arith) byte refl
            (Stays-Fits (suc m) (a ∷ []) (cons (lower n cs q a u) nil)
              (refl, tt, lower-IsStatic n cs q a u m small o, tt)),
    record {
      fine = (
        record {
          tame = refl;
          no_param = o.plain.no_param;
          no_catch_all = o.plain.no_catch_all;
          live = tt;
          ranked = o.plain.ranked;
          bounded = o.plain.bounded;
        },
        (
          refl,
          ((λ p. ne (sym p)), tt),
          lower-IsStatic n cs q a u m small o,
          (refl, tt, leaf-IsStatic, tt),
        ),
      );
      adds = λ p k.
          let whole = record (upper_half 0 n q a) { indices = a ∷ c ∷ [] } in
          let half = cons (lower n cs q a u) nil in
          ground (
            arith,
            Adds-below (upper_half 0 n q a) whole half (append_child half (leaf (c ∷ r) (some h)))
                (c ∷ r) h refl refl (Adds-append half (c ∷ r) h) p k,
            HasRoute-split n cs q a u p k e,
          );
      starts = λ b st hd. HeadIs-common b q a c u r ne (rw e at st) hd;
    },
  )
