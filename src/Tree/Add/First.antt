-- ===== src/Tree/Add/First.antt =====
-- The first route of a tree, and what lookups answer after addRoute.
use gin_t.Common.{
  ℕ, suc, ◌^◌, ◌<◌, ◌≡◌, refl, sym, ap, inl, inr, ◌↔◌, Bool-cases, Option, none, some, List, [],
  ◌∷◌, arith, list_eq, list_eq_iff, if◌then◌else◌,
}
use mathlib.Core.List.{append-nil}
use gin_t.Outcome.{Outcome, ok, panic, out_of_fuel}
use gin_t.Tree.Node.{RouterNode, node, nil, blank, root}
use gin_t.Tree.Insert.{count_wildcards, insert_child}
use gin_t.Tree.Walk.{add_route}
use gin_t.Tree.Lookup.{Found, get_value}
use gin_t.Tree.Lookup.Correct.{get_value-IsExact}
use gin_t.Tree.Static.{IsStatic, StartsWith, HasRoute}
use gin_t.Tree.Add.Order.{KeepsOrder}
use gin_t.Tree.Add.Grown.{IsGrown}
use gin_t.Tree.Add.Correct.{IsFresh, wildcard_num_tame, add_route-IsGrown}

-- The tree of the first route.
abbrev pub single : {H : Type 0} → List ℕ → H → RouterNode H
single p h =
    node (record blank { full_path = p; path = p; n_type = root; priority = 1; handle = some h })
      nil

-- The first route without wildcards becomes a tree of one node, which holds it and no other route.
pub add_route-first :
    {H : Type 0} (s : List ℕ) (h : H)
    → count_wildcards (b'/' ∷ s) ≡ 0
    → (add_route (b'/' ∷ s) (some h) (node blank nil) ≡ ok (single (b'/' ∷ s) h))
      × IsStatic 1 (single (b'/' ∷ s) h)
      × StartsWith b'/' (single (b'/' ∷ s) h)
      × ((q : List ℕ) (k : H) → HasRoute (single (b'/' ∷ s) h) q k ↔ ((q ≡ b'/' ∷ s) × (k ≡ h)))
unfolding add_route insert_child IsStatic HasRoute
add_route-first s h tame = (
  rw (wildcard_num_tame (b'/' ∷ s) tame),
  (
    record {
      tame = refl;
      no_param = refl;
      no_catch_all = refl;
      live = tt;
      ranked = omega arith;
      bounded = omega arith;
    },
    tt,
  ),
  refl,
  λ q k. (
    elim [ inl (e, e') ↦ (e, cc) | inr (r, e, below) ↦ elim below [ ] ],
    λ (e, e'). inl (e, ap some (sym e')),
  ),
)

-- The handle that a lookup returns.
abbrev pub handle_of : {H : Type 0} → Outcome (Found H) → Option H
handle_of (ok f) = f.handle
handle_of (panic e) = none
handle_of out_of_fuel = none

same_answers : {H : Type 0} (o o' : Option H) → ((k : H) → (o ≡ some k) ↔ (o' ≡ some k)) → o ≡ o'
same_answers none none f = refl
same_answers none (some k) f = (f k).1 refl
same_answers (some k) o' f = sym ((f k).0 refl)

answers :
    {H : Type 0} (m : ℕ) (t : RouterNode H) (q : List ℕ)
    → IsStatic m t
    → (k : H) → (handle_of (get_value t q none) ≡ some k) ↔ HasRoute t q k
answers m t q st k =
    let x = get_value-IsExact m t q none st in
    (λ e. x.sound k (rw x.returned at e), λ r. rw x.returned (x.complete k r))

-- In the tree of the first route, getValue finds its handle for its path, and none for another.
pub get_value-single :
    {H : Type 0} (s : List ℕ) (h : H) (q : List ℕ)
    → count_wildcards (b'/' ∷ s) ≡ 0
    → handle_of (get_value (single (b'/' ∷ s) h) q none)
      ≡ (if list_eq q (b'/' ∷ s) then some h else none)
get_value-single {H} s h q tame =
    let (run, st, starts, routes) = add_route-first s h tame in
    same_answers _ _ (λ k. law k (answers 1 (single (b'/' ∷ s) h) q st k) (routes q k))
  where
    law :
        (k : H)
        → (handle_of (get_value (single (b'/' ∷ s) h) q none) ≡ some k)
          ↔ HasRoute (single (b'/' ∷ s) h) q k
        → HasRoute (single (b'/' ∷ s) h) q k ↔ ((q ≡ b'/' ∷ s) × (k ≡ h))
        → (handle_of (get_value (single (b'/' ∷ s) h) q none) ≡ some k)
          ↔ ((if list_eq q (b'/' ∷ s) then some h else none) ≡ some k)
    law k found route = elim (Bool-cases (list_eq q (b'/' ∷ s))) [
      | inl b ↦ rw b (
        λ a. ap some (sym (route.0 (found.0 a)).1),
        λ a. found.1 (route.1 ((list_eq_iff q (b'/' ∷ s)).0 b, cc)),
      )
      | inr b ↦
          rw b (
            λ a. let e = (route.0 (found.0 a)).0 in cc (b, (list_eq_iff q (b'/' ∷ s)).1 e),
            λ a. cc,
          )
    ]

-- The handle that a lookup returns in the tree with the new route.
grown_handle :
    {H : Type 0} (m : ℕ) (t t' : RouterNode H) (p : List ℕ) (h : H)
    → IsStatic m t
    → IsFresh t p
    → IsGrown m t p h t'
    → (q : List ℕ)
    → handle_of (get_value t' q none)
      ≡ (if list_eq q p then some h else handle_of (get_value t q none))
grown_handle {H} m t t' p h st fresh g q = same_answers _ _ law
  where
    law :
        (k : H)
        → (handle_of (get_value t' q none) ≡ some k)
          ↔ ((if list_eq q p then some h else handle_of (get_value t q none)) ≡ some k)
    law k =
        let new = answers (suc m) t' q g.fine k in
        let old = answers m t q st k in
        let adds = g.adds q k in
        elim (Bool-cases (list_eq q p)) [
          | inl b ↦
              let e = (list_eq_iff q p).0 b in
              rw b (
                λ a. elim (adds.0 (new.0 a)) [
                  | inl r ↦ absurd (not_old e r)
                  | inr (_, same) ↦ ap some (sym same)
                ],
                λ a. new.1 (adds.1 (inr (e, cc))),
              )
          | inr b ↦ rw b (
            λ a. elim (adds.0 (new.0 a)) [
              | inl r ↦ old.1 r
              | inr (e, _) ↦ cc (b, (list_eq_iff q p).1 e)
            ],
            λ a. new.1 (adds.1 (inl (old.0 a))),
          )
        ]
      where
        not_old : q ≡ p → HasRoute t q k → ⊥
        not_old e r = fresh [] k (rw (append-nil p, ← e) r)

-- The handles alone.
pub handle_of-add_route :
    {H : Type 0} (m : ℕ) (t : RouterNode H) (p : List ℕ) (h : H)
    → suc m < 2 ^ 32
    → IsStatic m t
    → StartsWith b'/' t
    → count_wildcards p ≡ 0
    → KeepsOrder t p
    → IsFresh t p
    → (t' : RouterNode H) × (add_route p (some h) t ≡ ok t')
      × ((q : List ℕ)
          → handle_of (get_value t' q none)
            ≡ (if list_eq q p then some h else handle_of (get_value t q none)))
handle_of-add_route {H} m t p h small st starts tame keeps fresh =
    let (t', run, g) = add_route-IsGrown m t p h small st starts tame keeps fresh in
    (t', run, grown_handle m t t' p h st fresh g)

-- After addRoute of a path without wildcards, under the conditions of `add_route-IsGrown`, getValue
-- returns for every path, before and after, and saves no parameter. For the new path its handle is
-- the new one, and for any other path the one that it was before. Whether it recommends a redirect is
-- not said: the new route can change that for other paths.
pub get_value-add_route :
    {H : Type 0} (m : ℕ) (t : RouterNode H) (p : List ℕ) (h : H)
    → suc m < 2 ^ 32
    → IsStatic m t
    → StartsWith b'/' t
    → count_wildcards p ≡ 0
    → KeepsOrder t p
    → IsFresh t p
    → (t' : RouterNode H) × (add_route p (some h) t ≡ ok t')
      × ((q : List ℕ)
          → (old new : Found H) × (get_value t q none ≡ ok old)
            × (get_value t' q none ≡ ok new)
            × (new.handle ≡ (if list_eq q p then some h else old.handle))
            × (old.params ≡ none)
            × (new.params ≡ none))
get_value-add_route {H} m t p h small st starts tame keeps fresh =
    let (t', run, g) = add_route-IsGrown m t p h small st starts tame keeps fresh in
    (
      t',
      run,
      λ q.
          let x = get_value-IsExact m t q none st in
          let y = get_value-IsExact (suc m) t' q none g.fine in
          let found = grown_handle m t t' p h st fresh g q in
          (
            x.found,
            y.found,
            x.returned,
            y.returned,
            rw (x.returned, y.returned) at found,
            x.unsaved,
            y.unsaved,
          ),
    )
