-- ===== src/Tree/Walk/Descend.antt =====
-- Where a round of addRoute goes on below a node without a wildcard child.
use gin_t.Common.{
  ℕ, zero, suc, ◌-◌, ◌≤◌, ◌<◌, ◌≡◌, refl, ap, true, false, Option, none, some, List, [], ◌∷◌, ◌++◌,
  arith, length, ◌==◌, length-append,
}
use gin_t.Outcome.{ok, ◌>>=◌}
use gin_t.Tree.Node.{
  Info, RouterNode, node, Children, nil, cons, blank, bump, size, child_at, set_child, append_child,
}
use gin_t.Tree.Priority.{increment_child_prio}
use gin_t.Tree.Priority.Stay.{Stays, increment-Stays}
use gin_t.Tree.Insert.{is_wildcard, insert_child}
use gin_t.Tree.Walk.{is_param, index_of, insert_new, descend, finished, down}

==_refl : (n : ℕ) → (n == n) ≡ true
==_refl n = ground arith

module _ {H : Type 0} where
  child_at-append :
      (cs : Children H) (c : RouterNode H) → child_at (append_child cs c) (size cs) ≡ some c
  child_at-append nil c = refl
  child_at-append (cons d cs) c = child_at-append cs c

  child_at-append_lt :
      (cs : Children H) (c : RouterNode H) (j : ℕ)
      → j < size cs
      → child_at (append_child cs c) j ≡ child_at cs j
  child_at-append_lt nil c j h = elim h [ ]
  child_at-append_lt (cons d cs) c zero h = refl
  child_at-append_lt (cons d cs) c (suc j) h = child_at-append_lt cs c j (omega arith)

  set_child-append :
      (cs : Children H) (c d : RouterNode H)
      → set_child (append_child cs c) (size cs) d ≡ append_child cs d
  set_child-append nil c d = refl
  set_child-append (cons e cs) c d = ap (cons e) (set_child-append cs c d)

  Stays-append :
      (cs : Children H) (c : RouterNode H) (k prio : ℕ)
      → k ≤ size cs
      → Stays cs k prio
      → Stays (append_child cs c) k prio
  Stays-append cs c zero prio le h = tt
  Stays-append cs c (suc j) prio le h = rw (child_at-append_lt cs c j le) h

  -- The child that a plain path is inserted as.
  abbrev pub leaf : List ℕ → Option H → RouterNode H
  leaf path handle = node (record blank { path = path; handle = handle; priority = 1 }) nil

  abbrev raw : RouterNode H
  raw = node blank nil

  insert_new_lem :
      (n : Info H) (cs : Children H) (path : List ℕ) (c : ℕ) (handle : Option H)
      → size cs ≡ length n.indices
      → Stays cs (size cs) 1
      → insert_new path 0 handle c (node n cs)
        ≡ ok
            (node (record n { indices = n.indices ++ c ∷ [] }) (append_child cs (leaf path handle)))
  unfolding insert_new
  insert_new_lem n cs path c handle fits stays =
      let idx : length (n.indices ++ c ∷ []) - 1 ≡ size cs =
        omega (arith, length-append n.indices (c ∷ [])) in
      let grown = record n { indices = n.indices ++ c ∷ [] } in
      rw
        (
          idx,
          increment-Stays grown (append_child cs raw) (size cs) raw (child_at-append cs raw)
              (Stays-append cs raw (size cs) 1 (omega arith) stays),
          set_child-append cs raw (bump raw),
          ==_refl (size cs),
          child_at-append cs (bump raw),
        )
        (unfold insert_child in rw (set_child-append cs (bump raw) (leaf path handle)))

  pub descend_new :
      (n : Info H) (cs : Children H) (c : ℕ) (r : List ℕ) (handle : Option H)
      → n.wild_child ≡ false
      → is_param n.n_type ≡ false
      → index_of c n.indices 0 ≡ none
      → is_wildcard c ≡ false
      → size cs ≡ length n.indices
      → Stays cs (size cs) 1
      → descend (c ∷ r) 0 handle (node n cs)
        ≡ ok (
            finished (
              node
                (record n { indices = n.indices ++ c ∷ [] })
                (append_child cs (leaf (c ∷ r) handle))))
  unfolding descend
  descend_new n cs c r handle tame plain i byte fits stays =
      ground (arith, insert_new_lem n cs (c ∷ r) c handle fits stays)

  pub descend_child :
      (n : Info H) (cs : Children H) (c : ℕ) (r : List ℕ) (w k : ℕ) (handle : Option H)
      → n.wild_child ≡ false
      → is_param n.n_type ≡ false
      → index_of c n.indices 0 ≡ some k
      → descend (c ∷ r) w handle (node n cs)
        ≡ (increment_child_prio (node n cs) k >>= λ moved. ok (down moved.0 moved.1 (c ∷ r) w))
  unfolding descend
  descend_child n cs c r w k handle tame plain i = ground arith
