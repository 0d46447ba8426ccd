-- ===== src/Tree/Priority/Move.antt =====
-- incrementChildPrio in general: the child that grew, its new place, and the length of `indices`.
use gin_t.Common.{
  ℕ, zero, suc, ◌+◌, ◌-◌, ◌≤◌, ◌<◌, ◌≡◌, refl, inl, inr, some, List, ◌++◌, arith, ◌==◌, length,
  take, drop, length-append, length-take, length-drop, Bool-cases,
}
use gin_t.Outcome.{ok, slice}
use gin_t.Tree.Node.{
  Info, RouterNode, node, Children, nil, cons, info_of, bump, child_at, set_child,
}
use gin_t.Tree.Priority.{swap_next, overtakes, bubble, reindex, increment_child_prio}

-- The same children in another order.
pub data IsReordered {H : Type 0} : Children H → Children H → Type 0 where
  none_left : IsReordered nil nil
  keep :
      (c : RouterNode H) (cs ds : Children H)
      → IsReordered cs ds
      → IsReordered (cons c cs) (cons c ds)
  exchange :
      (c d : RouterNode H) (cs : Children H) → IsReordered (cons c (cons d cs)) (cons d (cons c cs))
  by_way : (cs ds es : Children H) → IsReordered cs ds → IsReordered ds es → IsReordered cs es

module _ {H : Type 0} where
  IsReordered-refl : (cs : Children H) → IsReordered cs cs
  IsReordered-refl nil = none_left
  IsReordered-refl (cons c cs) = keep c cs cs (IsReordered-refl cs)

  swap_next-IsReordered : (cs : Children H) (k : ℕ) → IsReordered cs (swap_next cs k)
  unfolding swap_next
  swap_next-IsReordered nil k = none_left
  swap_next-IsReordered (cons c nil) zero = IsReordered-refl (cons c nil)
  swap_next-IsReordered (cons c (cons d cs)) zero = exchange c d cs
  swap_next-IsReordered (cons c cs) (suc k) =
      keep c cs (swap_next cs k) (swap_next-IsReordered cs k)

  child_at-swap_next :
      (cs : Children H) (k : ℕ) (d : RouterNode H)
      → child_at cs (suc k) ≡ some d
      → child_at (swap_next cs k) k ≡ some d
  unfolding swap_next
  child_at-swap_next nil k d e = cc
  child_at-swap_next (cons c nil) zero d e = cc
  child_at-swap_next (cons c (cons d' cs)) zero d e = e
  child_at-swap_next (cons c cs) (suc k) d e = child_at-swap_next cs k d e

  -- The child is at the place that the loop returns, which is not behind the first one.
  bubble_place :
      (k prio : ℕ) (cs : Children H) (d : RouterNode H)
      → child_at cs k ≡ some d
      → (child_at (bubble k prio cs).0 (bubble k prio cs).1 ≡ some d)
        × ((bubble k prio cs).1 ≤ k)
        × IsReordered cs (bubble k prio cs).0
  unfolding bubble
  bubble_place zero prio cs d e = (e, omega arith, IsReordered-refl cs)
  bubble_place (suc k) prio cs d e =
      let (at, le, same) = bubble_place k prio (swap_next cs k) d (child_at-swap_next cs k d e) in
      elim (Bool-cases (overtakes (child_at cs k) prio)) [
        | inl b ↦ rw b (
          at,
          omega arith,
          by_way cs (swap_next cs k) (bubble k prio (swap_next cs k)).0 (swap_next-IsReordered cs k)
              same,
        )
        | inr b ↦ rw b (e, omega arith, IsReordered-refl cs)
      ]

  child_at-set_child_self :
      (cs : Children H) (k : ℕ) (c d : RouterNode H)
      → child_at cs k ≡ some c
      → child_at (set_child cs k d) k ≡ some d
  child_at-set_child_self nil k c d e = cc
  child_at-set_child_self (cons x cs) zero c d e = refl
  child_at-set_child_self (cons x cs) (suc k) c d e = child_at-set_child_self cs k c d e

slice-length :
    (from to : ℕ) (s : List ℕ)
    → from ≤ to
    → to ≤ length s
    → (r : List ℕ) × (slice from to s ≡ ok r) × (length r ≡ to - from)
unfolding slice
slice-length from to s h k = (
  take (to - from) (drop from s),
  ground arith,
  length-take (to - from) (drop from s) (omega (arith, length-drop from s)),
)

length_parts :
    (j k n : ℕ) (a b c d : List ℕ)
    → j ≤ k
    → k < n
    → length a ≡ j - 0
    → length b ≡ k + 1 - j
    → length c ≡ k - j
    → length d ≡ n - (k + 1)
    → length (a ++ b ++ c ++ d) ≡ n + (k - j)
length_parts j k n a b c d le lt la lb lc ld =
    omega (arith, length-append (a ++ b ++ c) d, length-append (a ++ b) c, length-append a b)

reindex-length :
    (j k : ℕ) (s : List ℕ)
    → j ≤ k
    → k < length s
    → (r : List ℕ) × (reindex j k s ≡ ok r) × (length r ≡ length s + (k - j))
unfolding reindex
reindex-length j k s le lt = elim (Bool-cases (j == k)) [
  | inl same ↦ (s, ground arith, ground arith)
  | inr moved ↦
      let (a, ea, la) = slice-length 0 j s (omega arith) (omega arith) in
      let (b, eb, lb) = slice-length j (k + 1) s (omega arith) (omega arith) in
      let (c, ec, lc) = slice-length j k s (omega arith) (omega arith) in
      let (d, ed, ld) = slice-length (k + 1) (length s) s (omega arith) (omega arith) in
      (
        a ++ b ++ c ++ d,
        rw (moved, ea, eb, ec, ed),
        length_parts j k (length s) a b c d le lt la lb lc ld,
      )
]

-- What incrementChildPrio returns for the child `d` at place `k`: the node and the new place.
pub record IsMoved {H : Type 0} (n : Info H) (cs : Children H) (k : ℕ) (d : RouterNode H)
    (n' : Info H) (cs' : Children H) (j : ℕ) : Type 0 where
  pub at_place : child_at cs' j ≡ some (bump d)
  pub not_behind : j ≤ k
  pub reordered : IsReordered (set_child cs k (bump d)) cs'
  pub longer : length n'.indices ≡ length n.indices + (k - j)
  pub same_path : n'.path ≡ n.path

-- For a place within `children` and `indices`, incrementChildPrio does not panic. The child whose
-- priority grew stands at the place that is returned, which is not behind the old one, and the children
-- are the old ones, this one raised, in another order. `indices` has grown by the number of places that
-- the child has moved: it fits the children only if the child did not move.
pub increment_child_prio-IsMoved :
    {H : Type 0} (n : Info H) (cs : Children H) (k : ℕ) (d : RouterNode H)
    → child_at cs k ≡ some d
    → k < length n.indices
    → (n' : Info H) × (cs' : Children H) × (j : ℕ) × (increment_child_prio (node n cs) k
        ≡ ok (node n' cs', j))
      × IsMoved n cs k d n' cs' j
unfolding increment_child_prio
increment_child_prio-IsMoved n cs k d at lt =
    let raised = set_child cs k (bump d) in
    let prio = (info_of (bump d)).priority in
    let (place, le, same) =
      bubble_place k prio raised (bump d) (child_at-set_child_self cs k d (bump d) at) in
    let (s, es, ls) = reindex-length (bubble k prio raised).1 k n.indices le lt in
    (
      record n { indices = s },
      (bubble k prio raised).0,
      (bubble k prio raised).1,
      rw (at, es),
      record { at_place = place; not_behind = le; reordered = same; longer = ls; same_path = refl },
    )
