-- ===== src/Tree/Priority.antt =====
-- incrementChildPrio of core/tree.go: the priority of a child grows by one, and the child moves in
-- front of the siblings that it overtakes.
pub mod Stay
pub mod Move
use gin_t.Common.{
  ℕ, zero, suc, ◌+◌, Bool, false, Option, none, some, List, ◌++◌, length, ltb, ◌==◌, if◌then◌else◌,
}
use gin_t.Outcome.{Outcome, ok, index_out_of_range, ◌>>=◌, or_panic, slice}
use gin_t.Tree.Node.{
  Info, RouterNode, node, Children, nil, cons, info_of, bump, child_at, set_child,
}

module _ {H : Type 0} where
  -- the exchange of children[k] and children[k + 1]
  pub swap_next : Children H → ℕ → Children H
  swap_next nil k = nil
  swap_next (cons c nil) zero = cons c nil
  swap_next (cons c (cons d cs)) zero = cons d (cons c cs)
  swap_next (cons c cs) (suc k) = cons c (swap_next cs k)

  unfoldable pub overtakes : Option (RouterNode H) → ℕ → Bool
  overtakes none prio = false
  overtakes (some c) prio = ltb (info_of c).priority prio

  -- the loop on `newIdx`
  unfoldable pub bubble : ℕ → ℕ → Children H → Children H × ℕ
  unfolding swap_next overtakes
  bubble zero prio cs = (cs, 0)
  bubble (suc j) prio cs =
      if overtakes (child_at cs j) prio then bubble j prio (swap_next cs j) else (cs, suc j)

-- The new `indices`: the four slices as the source writes them.
unfoldable move_index : ℕ → ℕ → List ℕ → Outcome (List ℕ)
unfolding slice
move_index new_idx idx s = do
  before ← slice 0 new_idx s
  moved ← slice new_idx (idx + 1) s
  shifted ← slice new_idx idx s
  after ← slice (idx + 1) (length s) s
  ok (before ++ moved ++ shifted ++ after)

pub reindex : ℕ → ℕ → List ℕ → Outcome (List ℕ)
unfolding move_index
reindex new_idx idx s = if new_idx == idx then ok s else move_index new_idx idx s

unfoldable pub increment_child_prio : {H : Type 0} → RouterNode H → ℕ → Outcome (RouterNode H × ℕ)
unfolding reindex
increment_child_prio (node i cs) idx = do
  c ← or_panic (child_at cs idx) index_out_of_range
  let raised = bump c
  let (cs', new_idx) = bubble idx (info_of raised).priority (set_child cs idx raised)
  indices ← reindex new_idx idx i.indices
  ok (node (record i { indices = indices }) cs', new_idx)
