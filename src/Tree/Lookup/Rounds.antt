-- ===== src/Tree/Lookup/Rounds.antt =====
-- One round of getValue at a node without a wildcard child, by how the path compares with the path
-- of the node.
use gin_t.Common.{
  ℕ, ◌≡◌, sym, ◌∙◌, inl, inr, true, false, ◌&&◌, Option, none, some, List, [], ◌∷◌, ◌++◌, arith,
  Bool-cases, Option-cases, ltb, length, take, drop, list_eq, list_eq_refl, list_eq_iff,
  take-length_append, drop-length_append, ltb-length_append, take-append-drop,
}
use mathlib.Core.List.{append-nil}
use gin_t.Outcome.{Outcome, ok}
use gin_t.Tree.Node.{Info, node, Children}
use gin_t.Tree.Walk.{index_of}
use gin_t.Tree.Lookup.{
  Saved, Found, not_found, get_value, child_value, wild_value, end_value, no_value, is_some,
}

module _ {H : Type 0} (n : Info H) (cs : Children H) (saved : Option Saved) where
  pub get_value_same : get_value (node n cs) n.path saved ≡ end_value n.path saved (node n cs)
  unfolding get_value
  get_value_same = ground (arith, list_eq_refl n.path)

  abbrev pub below : Option ℕ → List ℕ → Outcome (Found H)
  below none q = ok (not_found saved (list_eq q (b'/' ∷ []) && is_some n.handle))
  below (some k) q = child_value cs k q saved

  pub get_value_longer :
      (c : ℕ) (r : List ℕ)
      → n.wild_child ≡ false
      → get_value (node n cs) (n.path ++ c ∷ r) saved ≡ below (index_of c n.indices 0) (c ∷ r)
  unfolding get_value
  get_value_longer c r plain = elim (Option-cases (index_of c n.indices 0)) [
    | inl e ↦ ground (
      arith,
      ltb-length_append n.path c r,
      take-length_append n.path (c ∷ r),
      list_eq_refl n.path,
      drop-length_append n.path (c ∷ r),
    )
    | inr (k, e) ↦ ground (
      arith,
      ltb-length_append n.path c r,
      take-length_append n.path (c ∷ r),
      list_eq_refl n.path,
      drop-length_append n.path (c ∷ r),
    )
  ]

  pub get_value_wild :
      (c : ℕ) (r : List ℕ)
      → n.wild_child ≡ true
      → get_value (node n cs) (n.path ++ c ∷ r) saved ≡ wild_value cs (c ∷ r) saved
  unfolding get_value
  get_value_wild c r wild = ground (
    arith,
    ltb-length_append n.path c r,
    take-length_append n.path (c ∷ r),
    list_eq_refl n.path,
    drop-length_append n.path (c ∷ r),
  )

  pub get_value_apart :
      (p : List ℕ)
      → ((q : List ℕ) → p ≡ n.path ++ q → ⊥)
      → get_value (node n cs) p saved ≡ ok (no_value p saved n)
  unfolding get_value
  get_value_apart p h = elim (Bool-cases (ltb (length n.path) (length p))) [
    | inl long ↦ elim (Bool-cases (list_eq (take (length n.path) p) n.path)) [
      | inl e ↦ absurd (
          h (drop (length n.path) p)
            (cc (take-append-drop (length n.path) p, (list_eq_iff _ _).0 e)))
      | inr ne ↦ ground arith
    ]
    | inr short ↦ elim (Bool-cases (list_eq p n.path)) [
      | inl e ↦ absurd (h [] ((list_eq_iff _ _).0 e ∙ sym (append-nil n.path)))
      | inr ne ↦ ground arith
    ]
  ]
