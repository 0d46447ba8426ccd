-- ===== src/Tree/Lookup/Correct.antt =====
-- getValue on a tree without wildcards finds exactly the routes of the tree.
use gin_t.Common.{
  ℕ, ◌≡◌, refl, sym, ◌∙◌, inl, inr, Bool, false, ◌&&◌, length, Option, none, some, List, [], ◌∷◌,
  ◌++◌, arith, Option-cases, ◌==◌, prefix_cases, same, longer, apart, append-cancel,
}
use mathlib.Core.Path.{subst}
use mathlib.Core.List.{append-nil}
use native.Mathlib.Decide.{ℕ_discrete}
use gin_t.Outcome.{Outcome, ok}
use gin_t.Tree.Node.{Info, RouterNode, node, Children, nil, cons}
use gin_t.Tree.Walk.{index_of}
use gin_t.Tree.Lookup.{
  Saved, params_of, Found, not_found, get_value, child_value, end_value, is_some, slash_child,
}
use gin_t.Tree.Lookup.Rounds.{get_value_same, get_value_longer, get_value_apart, below}
use gin_t.Tree.Static.{IsPlain, IsStatic, Fits, HasRoute, HasRouteIn}
use gin_t.Tree.Static.Routes.{
  route_head, not-route_nil, not-route-Absent, index_of_shift, next_index, Fits-child_at,
}

-- `o` returns, saves no parameter, and has exactly the handles that `R` holds of.
pub record IsExact {H : Type 0} (o : Outcome (Found H)) (saved : Option Saved) (R : H → Type 0)
    : Type 0 where
  pub found : Found H
  pub returned : o ≡ ok found
  pub unsaved : found.params ≡ params_of saved
  pub sound : (h : H) → found.handle ≡ some h → R h
  pub complete : (h : H) → R h → found.handle ≡ some h

module _ {H : Type 0} where
  IsExact-map :
      {o o' : Outcome (Found H)} {saved : Option Saved} {R R' : H → Type 0}
      → o' ≡ o
      → ((h : H) → R h → R' h)
      → ((h : H) → R' h → R h)
      → IsExact o saved R
      → IsExact o' saved R'
  IsExact-map e to from x = record {
    found = x.found;
    returned = e ∙ x.returned;
    unsaved = x.unsaved;
    sound = λ h p. to h (x.sound h p);
    complete = λ h p. x.complete h (from h p);
  }

  -- no handle, and none wanted
  IsExact-none :
      {saved : Option Saved} {R : H → Type 0} (tsr : Bool)
      → ((h : H) → R h → ⊥)
      → IsExact (ok (not_found saved tsr)) saved R
  IsExact-none {saved} tsr empty = record {
    found = not_found saved tsr;
    returned = refl;
    unsaved = refl;
    sound = λ h p. cc;
    complete = λ h p. absurd (empty h p);
  }

  only_here :
      (m : ℕ) (n : Info H) (cs : Children H) (h : H)
      → Fits m n.indices cs
      → HasRoute (node n cs) n.path h
      → n.handle ≡ some h
  unfolding HasRoute
  only_here m n cs h f (inl (_, e)) = e
  only_here m n cs h f (inr (q, e, r)) =
      let e' : q ≡ [] = append-cancel n.path q [] (sym e ∙ sym (append-nil n.path)) in
      absurd (not-route_nil m n.indices cs h f (rw e' at r))

  slash_child_ok : (m : ℕ) (d : RouterNode H) → IsStatic m d → (t : Bool) × (slash_child d ≡ ok t)
  unfolding slash_child IsStatic
  slash_child_ok m (node n cs) st = (length n.path == 1 && is_some n.handle, ground arith)

  end_none :
      (m : ℕ) (n : Info H) (cs : Children H) (saved : Option Saved)
      → IsPlain m n cs
      → Fits m n.indices cs
      → n.handle ≡ none
      → (t : Bool) × (end_value n.path saved (node n cs) ≡ ok (not_found saved t))
  unfolding end_value
  end_none m n cs saved plain f e = elim (Option-cases (index_of b'/' n.indices 0)) [
    | inl i ↦ (false, ground arith)
    | inr (k, i) ↦
        let (d, at, st, _) = Fits-child_at m n.indices cs b'/' k f i in
        let (t, e') = slash_child_ok m d st in (t, ground arith)
  ]

  end_value-IsExact :
      (m : ℕ) (n : Info H) (cs : Children H) (saved : Option Saved)
      → IsPlain m n cs
      → Fits m n.indices cs
      → IsExact (end_value n.path saved (node n cs)) saved (HasRoute (node n cs) n.path)
  unfolding HasRoute
  end_value-IsExact m n cs saved plain f = elim (Option-cases n.handle) [
    | inl e ↦
        let (t, e') = end_none m n cs saved plain f e in
        IsExact-map e' (λ h r. r) (λ h r. r) (IsExact-none t (λ h r. cc (only_here m n cs h f r)))
    | inr (k, e) ↦ record {
      found = record { handle = some k; params = params_of saved; tsr = false };
      returned = unfold end_value in ground arith;
      unsaved = refl;
      sound = λ h p. inl (refl, ground arith);
      complete = λ h r. sym e ∙ only_here m n cs h f r;
    }
  ]

  abbrev ChildCases : Option ℕ → Children H → List ℕ → Option Saved → Type 0
  ChildCases none cs q saved = (h : H) → HasRouteIn cs q h → ⊥
  ChildCases (some k) cs q saved = IsExact (child_value cs k q saved) saved (HasRouteIn cs q)

  later_child :
      (o : Option ℕ) (d : RouterNode H) (cs : Children H) (q : List ℕ) (saved : Option Saved)
      → ((h : H) → HasRoute d q h → ⊥)
      → ChildCases o cs q saved
      → ChildCases (next_index o) (cons d cs) q saved
  unfolding HasRouteIn child_value
  later_child none d cs q saved out x = λ h. elim [ inl r ↦ out h r | inr r ↦ x h r ]
  later_child (some k) d cs q saved out x =
      IsExact-map refl (λ h r. inr r) (λ h. elim [ inl r ↦ absurd (out h r) | inr r ↦ r ]) x

  below-IsExact :
      (n : Info H) (cs : Children H) (c : ℕ) (r : List ℕ) (saved : Option Saved) (o : Option ℕ)
      → ChildCases o cs (c ∷ r) saved
      → IsExact (below n cs saved o (c ∷ r)) saved (HasRoute (node n cs) (n.path ++ c ∷ r))
  unfolding HasRoute
  below-IsExact n cs c r saved o x = go o x
    where
      beyond : (h : H) → HasRoute (node n cs) (n.path ++ c ∷ r) h → HasRouteIn cs (c ∷ r) h
      beyond h = elim [
        | inl (e, _) ↦ cc (append-cancel n.path (c ∷ r) [] (e ∙ sym (append-nil n.path)))
        | inr (q, e, hr) ↦ rw (sym (append-cancel n.path (c ∷ r) q e)) at hr
      ]

      go :
          (o : Option ℕ)
          → ChildCases o cs (c ∷ r) saved
          → IsExact (below n cs saved o (c ∷ r)) saved (HasRoute (node n cs) (n.path ++ c ∷ r))
      go none x = IsExact-none _ (λ h hr. x h (beyond h hr))
      go (some k) x = IsExact-map refl (λ h hr. inr (c ∷ r, refl, hr)) beyond x

no_route :
    {H : Type 0} (n : Info H) (cs : Children H) (p : List ℕ) (h : H)
    → ((q : List ℕ) → p ≡ n.path ++ q → ⊥)
    → HasRoute (node n cs) p h
    → ⊥
unfolding HasRoute
no_route n cs p h out (inl (e, _)) = out [] (e ∙ sym (append-nil n.path))
no_route n cs p h out (inr (q, e, _)) = out q e

join :
    {H : Type 0} (m b : ℕ) (s : List ℕ) (d : RouterNode H) (cs : Children H) (c : ℕ) (r : List ℕ)
    (saved : Option Saved)
    → Fits m (b ∷ s) (cons d cs)
    → IsExact (get_value d (c ∷ r) saved) saved (HasRoute d (c ∷ r))
    → ChildCases (index_of c s 0) cs (c ∷ r) saved
    → ChildCases (index_of c (b ∷ s) 0) (cons d cs) (c ∷ r) saved
unfolding Fits HasRouteIn child_value
join m b s d cs c r saved f x rest = elim (ℕ_discrete c b) [
  | yes e ↦
      let i : index_of c (b ∷ s) 0 ≡ some 0 = unfold index_of in ground arith in
      rw i (
        IsExact-map refl (λ h q. inl q)
          (λ h. elim [
            | inl q ↦ q
            | inr q ↦ absurd (not-route-Absent m s cs c r h f.3 (rw (← e) at f.1) q)
          ])
          x)
  | no ne ↦
      let i : index_of c (b ∷ s) 0 ≡ next_index (index_of c s 0) =
        unfold index_of in ground (arith, index_of_shift c s 0) in
      rw i (
        later_child (index_of c s 0) d cs (c ∷ r) saved
          (λ h q. let (t, e) = route_head b d (c ∷ r) h f.0 q in ne (cc e)) rest)
]

mutual
  unfolding IsStatic Fits child_value HasRouteIn

  exact :
      {H : Type 0} (m : ℕ) (t : RouterNode H) (p : List ℕ) (saved : Option Saved)
      → IsStatic m t
      → IsExact (get_value t p saved) saved (HasRoute t p)
  exact {H} m (node n cs) p saved (plain, f) = elim (prefix_cases n.path p) [
    | same e ↦
        subst (λ x. IsExact (get_value (node n cs) x saved) saved (HasRoute (node n cs) x)) (sym e)
          (IsExact-map (get_value_same n cs saved) (λ h r. r) (λ h r. r)
            (end_value-IsExact m n cs saved plain f))
    | longer c r e ↦
        subst (λ x. IsExact (get_value (node n cs) x saved) saved (HasRoute (node n cs) x)) (sym e)
          (IsExact-map (get_value_longer n cs saved c r plain.tame) (λ h r. r) (λ h r. r)
            (below-IsExact n cs c r saved (index_of c n.indices 0)
              (exact_child m cs n.indices c r saved f)))
    | apart out ↦
        IsExact-map (get_value_apart n cs saved p out) (λ h r. r) (λ h r. r)
          (IsExact-none _ (λ h r. no_route n cs p h out r))
  ]

  exact_child :
      {H : Type 0} (m : ℕ) (cs : Children H) (s : List ℕ) (c : ℕ) (r : List ℕ)
      (saved : Option Saved)
      → Fits m s cs
      → ChildCases (index_of c s 0) cs (c ∷ r) saved
  exact_child m nil [] c r saved f = λ h x. elim x [ ]
  exact_child m nil (b ∷ s) c r saved f = elim f [ ]
  exact_child m (cons d cs) [] c r saved f = elim f [ ]
  exact_child m (cons d cs) (b ∷ s) c r saved f =
      join m b s d cs c r saved f (exact m d (c ∷ r) saved f.2) (exact_child m cs s c r saved f.3)

-- On a tree without wildcards getValue returns for every path, saves no parameter, and the handle
-- is exactly that of the route registered for the path; there is none exactly if there is no route.
pub get_value-IsExact :
    {H : Type 0} (m : ℕ) (t : RouterNode H) (p : List ℕ) (saved : Option Saved)
    → IsStatic m t
    → IsExact (get_value t p saved) saved (HasRoute t p)
get_value-IsExact m t p saved st = exact m t p saved st
