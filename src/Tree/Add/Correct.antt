-- ===== src/Tree/Add/Correct.antt =====
-- addRoute on a tree without wildcards, where no sibling is overtaken.
use gin_t.Common.{
  ℕ, zero, suc, ◌+◌, ◌^◌, ◌≤◌, ◌<◌, ◌≡◌, refl, sym, ◌∙◌, inl, inr, false, Option, none, some, List,
  [], ◌∷◌, ◌++◌, arith, Option-cases, split_cases, whole, beyond, within, forked,
}
use mathlib.Core.Path.{subst}
use mathlib.Core.List.{append_assoc}
use gin_t.Outcome.{ok}
use gin_t.Tree.Node.{Info, RouterNode, node, Children, nil, cons, bump, u32, child_at, set_child}
use gin_t.Tree.Priority.Stay.{Stays, increment-Stays}
use gin_t.Tree.Insert.{is_wildcard, count_wildcards, wildcard_num}
use gin_t.Tree.Walk.{
  finished, down, walk_step, walk, index_of, height, height_over, add_route, is_empty_tree,
}
use gin_t.Tree.Walk.Rounds.{raised, walk_step_beyond}
use gin_t.Tree.Walk.Descend.{descend_child}
use gin_t.Tree.Static.{HeadIs, IsLive, IsStatic, StartsWith, HasRoute}
use gin_t.Tree.Static.Routes.{HeadIs-cons, Fits-child_at}
use gin_t.Tree.Static.Grow.{Fits-suc, Fits-set_child, HasRouteIn-set_child}
use gin_t.Tree.Add.Order.{KeepsOrder, KeepsOrder-child}
use gin_t.Tree.Add.Below.{
  height-child_at, child_at-set_child, set_child-set_child, HasRouteIn-child_at, live_route,
  IsOpen-child, IsOpen-IsStatic,
}
use gin_t.Tree.Add.Grown.{IsGrown, IsOpen, Adds-below, IsGrown-beyond, IsGrown-forked}

-- No route is `p`, or goes on behind it.
abbrev pub IsFresh : {H : Type 0} → RouterNode H → List ℕ → Type 0
IsFresh {H} t p = (q : List ℕ) (k : H) → HasRoute t (p ++ q) k → ⊥

count_wildcards-append :
    (s r : List ℕ) → count_wildcards (s ++ r) ≡ count_wildcards s + count_wildcards r
count_wildcards-append [] r = omega arith
count_wildcards-append (c ∷ s) r = ground (arith, count_wildcards-append s r)

-- The rest of a path without wildcards has none.
tame_rest :
    (s : List ℕ) (c : ℕ) (r : List ℕ)
    → count_wildcards (s ++ c ∷ r) ≡ 0
    → (is_wildcard c ≡ false) × (count_wildcards (c ∷ r) ≡ 0)
tame_rest s c r e =
    let e' : count_wildcards (c ∷ r) ≡ 0 = omega (arith, count_wildcards-append s (c ∷ r)) in
    (ground arith, e')

module _ {H : Type 0} (fuel : ℕ) (n : Info H) (cs : Children H) (p : List ℕ) (w : ℕ)
    (handle : Option H) where
  walk_finished :
      (t : RouterNode H)
      → walk_step p w handle (node n cs) ≡ ok (finished t)
      → walk (suc fuel) p w handle (node n cs) ≡ ok t
  unfolding walk
  walk_finished t e = ground arith

  walk_down :
      (n' : Info H) (cs' : Children H) (k : ℕ) (r : List ℕ) (left : ℕ) (d d' : RouterNode H)
      → walk_step p w handle (node n cs) ≡ ok (down (node n' cs') k r left)
      → child_at cs' k ≡ some d
      → walk fuel r left handle d ≡ ok d'
      → walk (suc fuel) p w handle (node n cs) ≡ ok (node n' (set_child cs' k d'))
  unfolding walk
  walk_down n' cs' k r left d d' e at e' = rw (e, at, e')

IsLive-set_child :
    {H : Type 0} (o : Option H) (cs : Children H) (k : ℕ) (d : RouterNode H)
    → IsLive o cs
    → IsLive o (set_child cs k d)
IsLive-set_child (some h) cs k d l = tt
IsLive-set_child none nil k d l = l
IsLive-set_child none (cons c cs) zero d l = tt
IsLive-set_child none (cons c cs) (suc k) d l = tt

HeadIs-unique : (b c : ℕ) (s : List ℕ) → HeadIs b s → HeadIs c s → b ≡ c
HeadIs-unique b c [] h k = elim h [ ]
HeadIs-unique b c (d ∷ s) h k = h ∙ sym k

module _ {H : Type 0} (m : ℕ) (small : suc m < 2 ^ 32) (h : H) where
  abbrev WalkAdds : ℕ → Info H → Children H → List ℕ → Type 0
  WalkAdds fuel n cs p =
      (t' : RouterNode H) × (walk fuel p 0 (some h) (node n cs) ≡ ok t')
      × IsGrown m (node n cs) p h t'

  -- The path goes on at a child, which the rest of the loop turns into `d'`.
  grown_child :
      (fuel : ℕ) (n : Info H) (cs : Children H) (c : ℕ) (r : List ℕ) (k : ℕ) (i : Info H)
      (ds : Children H) (d' : RouterNode H)
      → IsOpen m n cs
      → index_of c n.indices 0 ≡ some k
      → child_at cs k ≡ some (node i ds)
      → IsStatic m (node i ds)
      → StartsWith c (node i ds)
      → Stays cs k (suc i.priority)
      → walk fuel (c ∷ r) 0 (some h) (bump (node i ds)) ≡ ok d'
      → IsGrown m (bump (node i ds)) (c ∷ r) h d'
      → WalkAdds (suc fuel) n cs (n.path ++ c ∷ r)
  unfolding IsStatic HasRoute
  grown_child fuel n cs c r k i ds d' o at_byte at st starts stays run g = (
    node (raised 0 n) (set_child (set_child cs k (bump (node i ds))) k d'),
    walk_down fuel n cs (n.path ++ c ∷ r) 0 (some h) (raised 0 n)
        (set_child cs k (bump (node i ds))) k (c ∷ r) 0 (bump (node i ds)) d' round
        (child_at-set_child cs k _ _ at) run,
    rw (set_child-set_child cs k (bump (node i ds)) d') (record {
      fine = (
        record {
          tame = o.plain.tame;
          no_param = o.plain.no_param;
          no_catch_all = o.plain.no_catch_all;
          live = IsLive-set_child n.handle cs k d' o.plain.live;
          ranked = o.plain.ranked;
          bounded = o.plain.bounded;
        },
        Fits-set_child (suc m) n.indices cs k (node i ds) d' (Fits-suc m cs n.indices o.fits) at
            (λ b sb. g.starts b sb (HeadIs-unique b c i.path sb starts)) g.fine,
      );
      adds =
          Adds-below n (raised 0 n) cs (set_child cs k d') (c ∷ r) h refl refl
            (HasRouteIn-set_child cs k (node i ds) d' (c ∷ r) h at g.adds);
      starts = λ b s hd. s;
    }),
  )
    where
      prio : u32 (i.priority + 1) ≡ suc i.priority
      prio = omega (arith, st.0.bounded)

      round :
          walk_step (n.path ++ c ∷ r) 0 (some h) (node n cs)
          ≡ ok (down (node (raised 0 n) (set_child cs k (bump (node i ds)))) k (c ∷ r) 0)
      round =
          walk_step_beyond 0 (some h) n cs c r
          ∙ descend_child (raised 0 n) cs c r 0 k (some h) o.plain.tame o.plain.no_param at_byte
          ∙ rw (increment-Stays (raised 0 n) cs k (node i ds) at (rw prio stays)) refl

  run_child :
      (fuel : ℕ) (n : Info H) (cs : Children H) (c : ℕ) (r : List ℕ) (k : ℕ) (d : RouterNode H)
      → ((i : Info H) (ds : Children H)
          → height_over ds < fuel
          → IsOpen m i ds
          → KeepsOrder (node i ds) (c ∷ r)
          → IsFresh (node i ds) (c ∷ r)
          → WalkAdds fuel i ds (c ∷ r))
      → height_over cs ≤ fuel
      → IsOpen m n cs
      → KeepsOrder (node n cs) (n.path ++ c ∷ r)
      → IsFresh (node n cs) (n.path ++ c ∷ r)
      → index_of c n.indices 0 ≡ some k
      → child_at cs k ≡ some d
      → IsStatic m d
      → StartsWith c d
      → WalkAdds (suc fuel) n cs (n.path ++ c ∷ r)
  unfolding HasRoute KeepsOrder height
  run_child fuel n cs c r k (node i ds) ih low o keeps fresh at_byte at st starts =
      let (stays, below) =
        KeepsOrder-child cs k (node i ds) (c ∷ r) at starts (keeps (c ∷ r) refl) in
      let (d', run, g) =
        ih (record i { priority = u32 (i.priority + 1) }) ds
          (omega (arith, height-child_at cs k (node i ds) at))
          (IsOpen-child m i ds i.full_path small st) below
          (λ q v route. fresh q v (
            inr (
              (c ∷ r) ++ q,
              append_assoc n.path (c ∷ r) q,
              HasRouteIn-child_at cs k (node i ds) ((c ∷ r) ++ q) v at route,
            ))) in
      grown_child fuel n cs c r k i ds d' o at_byte at st starts stays run g

  finish :
      (fuel : ℕ) (n : Info H) (cs : Children H) (p : List ℕ)
      → (t' : RouterNode H) × (walk_step p 0 (some h) (node n cs) ≡ ok (finished t'))
        × IsGrown m (node n cs) p h t'
      → WalkAdds (suc fuel) n cs p
  finish fuel n cs p (t', step, g) = (t', walk_finished fuel n cs p 0 (some h) t' step, g)

  add_walk :
      (fuel : ℕ) (n : Info H) (cs : Children H) (p : List ℕ)
      → height_over cs < fuel
      → IsOpen m n cs
      → count_wildcards p ≡ 0
      → KeepsOrder (node n cs) p
      → IsFresh (node n cs) p
      → WalkAdds fuel n cs p
  add_walk zero n cs p low o tame keeps fresh = elim low [ ]
  add_walk (suc fuel) n cs p low o tame keeps fresh = elim (split_cases n.path p) [
    | whole e ↦
        let (q, k, route) = live_route (suc m) (node n cs) (IsOpen-IsStatic m n cs o) in
        absurd (fresh q k (rw e route))
    | within c r e ↦
        let (q, k, route) = live_route (suc m) (node n cs) (IsOpen-IsStatic m n cs o) in
        absurd (fresh ((c ∷ r) ++ q) k (rw (← append_assoc p (c ∷ r) q, ← e) route))
    | beyond c r e ↦
        let at_e = λ (P : List ℕ → Type 0) (x : P p). subst P e x in
        let bytes = tame_rest n.path c r (at_e (λ x. count_wildcards x ≡ 0) tame) in
        subst (WalkAdds (suc fuel) n cs) (sym e) (elim (Option-cases (index_of c n.indices 0)) [
          | inl absent ↦
              finish fuel n cs (n.path ++ c ∷ r) (IsGrown-beyond m h c r n cs o absent bytes.0)
          | inr (k, at_byte) ↦
              let (d, at, st, starts) = Fits-child_at m n.indices cs c k o.fits at_byte in
              run_child fuel n cs c r k d
                (λ i ds low' o' keeps' fresh'.
                  add_walk fuel i ds (c ∷ r) low' o' bytes.1 keeps' fresh')
                (omega arith) o (at_e (KeepsOrder (node n cs)) keeps)
                (at_e (IsFresh (node n cs)) fresh) at_byte at st starts
        ])
    | forked q a u b v e e' ne ↦
        let bytes = tame_rest q b v (subst (λ x. count_wildcards x ≡ 0) e' tame) in
        subst (WalkAdds (suc fuel) n cs) (sym e')
          (finish fuel n cs (q ++ b ∷ v) (IsGrown-forked m h b v n cs q a u small o e ne bytes.0))
  ]

pub not_empty :
    {H : Type 0} (n : Info H) (cs : Children H) {b : ℕ}
    → (s : List ℕ) × (n.path ≡ b ∷ s)
    → is_empty_tree (node n cs) ≡ false
not_empty n nil (s, e) = rw e (ground arith)
not_empty n (cons c cs) (s, e) = refl

pub wildcard_num_tame : (p : List ℕ) → count_wildcards p ≡ 0 → wildcard_num p ≡ 0
unfolding wildcard_num
wildcard_num_tame p e = ground arith

-- On a tree without wildcards that has at least one route, addRoute of a path without wildcards
-- returns a tree without wildcards, with exactly the routes of the old tree and the new one: if no
-- route is the path or goes on behind it, and if no sibling on its way is overtaken in priority.
pub add_route-IsGrown :
    {H : Type 0} (m : ℕ) (t : RouterNode H) (p : List ℕ) (h : H)
    → suc m < 2 ^ 32
    → IsStatic m t
    → StartsWith b'/' t
    → count_wildcards p ≡ 0
    → KeepsOrder t p
    → IsFresh t p
    → (t' : RouterNode H) × (add_route p (some h) t ≡ ok t') × IsGrown m t p h t'
unfolding add_route HasRoute KeepsOrder StartsWith
add_route-IsGrown m (node n cs) p h small st starts tame keeps fresh =
    let n' = record n { full_path = p; priority = u32 (n.priority + 1) } in
    let (t', run, g) =
      add_walk m small h (height (node n' cs) + 2) n' cs p (omega arith)
        (IsOpen-child m n cs p small st) tame keeps fresh in
    (
      t',
      rw (not_empty n' cs (HeadIs-cons b'/' n.path starts), wildcard_num_tame p tame) run,
      record { fine = g.fine; adds = g.adds; starts = g.starts },
    )
