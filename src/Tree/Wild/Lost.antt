-- ===== src/Tree/Wild/Lost.antt =====
-- Routes with parameters as the first route: insertChild sets the handle only of a path without
-- wildcards, or of a catch-all.
use gin_t.Common.{
  ℕ, zero, suc, ◌+◌, ◌-◌, ◌≡◌, ◌≢◌, refl, Bool, true, false, inl, inr, Bool-cases, Option, none,
  some, List, [], ◌∷◌, length, drop, ltb, ◌==◌, if◌then◌else◌, arith,
}
use mathlib.Core.Path.{subst}
use gin_t.Outcome.{
  existing_children, unnamed_wildcard, Panic, Outcome, ok, panic, out_of_fuel, ◌>>=◌, ◌>>◌,
  panic_if, index, slice,
}
use gin_t.Tree.Node.{Info, RouterNode, node, Children, nil, blank, param}
use gin_t.Tree.Insert.{has_children, find_end, is_wildcard, wildcard_num, insert_from, insert_child}
use gin_t.Tree.Walk.{with_root_type, add_route}
use gin_t.Tree.Lookup.{get_value}
use gin_t.Tree.Add.First.{handle_of}
use gin_t.Tree.Wild.NoHandle.{NoHandle, NoHandles, get_value-NoHandle}

abbrev HasNoStar : List ℕ → Type 0
HasNoStar [] = Unit
HasNoStar (c ∷ s) = ((c == b'*') ≡ false) × HasNoStar s

index-HasNoStar : (s : List ℕ) (i c : ℕ) → HasNoStar s → index s i ≡ ok c → (c == b'*') ≡ false
unfolding index
index-HasNoStar [] i c h e = cc
index-HasNoStar (a ∷ s) zero c h e = ground (arith, h.0)
index-HasNoStar (a ∷ s) (suc i) c h e = index-HasNoStar s i c h.1 e

module _ {H : Type 0} where
  -- No node has a handle in the tree that `o` returns, if it returns.
  abbrev NoneIn : Outcome (RouterNode H) → Type 0
  NoneIn (ok t) = NoHandle t
  NoneIn (panic e) = Unit
  NoneIn out_of_fuel = Unit

  NoneIn-bind :
      {A : Type 0} (o : Outcome A) (f : A → Outcome (RouterNode H))
      → ((a : A) → o ≡ ok a → NoneIn (f a))
      → NoneIn (o >>= f)
  NoneIn-bind (ok a) f h = h a refl
  NoneIn-bind (panic e) f h = tt
  NoneIn-bind out_of_fuel f h = tt

  NoneIn-check :
      (b : Bool) (e : Panic) (o : Outcome (RouterNode H)) → NoneIn o → NoneIn (panic_if b e >> o)
  NoneIn-check true e o h = tt
  NoneIn-check false e o h = h

  NoneIn-next :
      (o : Outcome (RouterNode H)) (f : RouterNode H → Outcome (RouterNode H))
      → NoneIn o
      → ((t : RouterNode H) → NoHandle t → NoneIn (f t))
      → NoneIn (o >>= f)
  NoneIn-next (ok t) f h next = next t h
  NoneIn-next (panic e) f h next = tt
  NoneIn-next out_of_fuel f h next = tt

  insert_from-NoneIn :
      (fuel : ℕ) (path : List ℕ) (handle : Option H) (i offset w : ℕ) (n : Info H) (cs : Children H)
      → HasNoStar path
      → n.handle ≡ none
      → NoHandles cs
      → NoneIn (insert_from fuel path handle i offset w (node n cs))
  unfolding insert_from NoHandle
  insert_from-NoneIn fuel path handle i offset zero n cs free e ecs = (e, ecs)
  insert_from-NoneIn zero path handle i offset (suc w) n cs free e ecs = tt
  insert_from-NoneIn (suc fuel) path handle i offset (suc w) n cs free e ecs =
      NoneIn-bind (index path i) _ (λ c at. elim (Bool-cases (is_wildcard c)) [
        | inr plain ↦
            rw plain (insert_from-NoneIn fuel path handle (i + 1) offset (suc w) n cs free e ecs)
        | inl wild ↦ rw wild (
            NoneIn-bind (find_end (drop (i + 1) path) (i + 1)) _ (λ end _.
              NoneIn-check (has_children cs) existing_children _ (
                NoneIn-check (ltb (end - i) 2) unnamed_wildcard _ (
                  rw (colon c wild (index-HasNoStar path i c free at)) (
                    NoneIn-bind (if ltb 0 i then slice offset i path else ok n.path) _ (λ before _.
                      elim (Bool-cases (ltb end (length path))) [
                        | inl more ↦ rw more (
                            NoneIn-bind (slice (if ltb 0 i then i else offset) end path) _
                              (λ name _.
                                NoneIn-next _ _
                                  (insert_from-NoneIn fuel path handle (i + 1) end w
                                    (record blank { max_params = w; priority = 1 }) nil free refl
                                    tt)
                                  (λ t h. (e, ((refl, (h, tt)), tt)))))
                        | inr last ↦ rw last (
                            NoneIn-next _ _
                              (insert_from-NoneIn fuel path handle (i + 1)
                                (if ltb 0 i then i else offset) w
                                (record blank { n_type = param; max_params = suc w; priority = 1 })
                                nil free refl tt)
                              (λ t h. (e, (h, tt))))
                      ]))))))
      ])
    where
      colon : (c : ℕ) → is_wildcard c ≡ true → (c == b'*') ≡ false → (c == b':') ≡ true
      colon c h h' = ground arith

root_type-NoHandle : {H : Type 0} (t : RouterNode H) → NoHandle t → NoHandle (with_root_type t)
unfolding NoHandle
root_type-NoHandle (node n cs) h = h

insert_child-NoneIn :
    {H : Type 0} (w : ℕ) (p : List ℕ) (handle : Option H) (n : Info H)
    → HasNoStar p
    → w ≢ 0
    → n.handle ≡ none
    → NoneIn (insert_child w p handle (node n nil))
unfolding insert_child NoHandles
insert_child-NoneIn zero p handle n free wild e = absurd (wild refl)
insert_child-NoneIn (suc w) p handle n free wild e =
    insert_from-NoneIn (length p + 1) p handle 0 0 (suc w) n nil free e tt

add_route-NoneIn :
    {H : Type 0} (p : List ℕ) (h : H)
    → HasNoStar p
    → wildcard_num p ≢ 0
    → NoneIn (add_route p (some h) (node blank nil))
unfolding add_route
add_route-NoneIn p h free wild =
    NoneIn-next _ _
      (insert_child-NoneIn (wildcard_num p) p (some h)
        (record blank { full_path = p; priority = 1 }) free wild refl)
      (λ t none. root_type-NoHandle t none)

-- The first route of a tree, if its path has a wildcard but no '*' and addRoute takes it, is lost:
-- getValue then finds no handle, whatever path it looks up.
pub add_route-lost :
    {H : Type 0} (p : List ℕ) (h : H) (t : RouterNode H)
    → HasNoStar p
    → wildcard_num p ≢ 0
    → add_route p (some h) (node blank nil) ≡ ok t
    → (q : List ℕ) → handle_of (get_value t q none) ≡ none
add_route-lost p h t free wild run q =
    get_value-NoHandle t q none (subst NoneIn run (add_route-NoneIn p h free wild))
