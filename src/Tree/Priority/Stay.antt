-- ===== src/Tree/Priority/Stay.antt =====
-- incrementChildPrio where no sibling is overtaken, and what it never changes.
use gin_t.Common.{ℕ, zero, suc, ◌<◌, ◌≡◌, refl, false, some, List, arith}
use gin_t.Outcome.{ok}
use gin_t.Tree.Node.{
  Info, RouterNode, node, Children, nil, cons, info_of, bump, child_at, set_child,
}
use gin_t.Tree.Priority.{overtakes, bubble, increment_child_prio, reindex}

reindex_same : (k : ℕ) (s : List ℕ) → reindex k k s ≡ ok s
unfolding reindex
reindex_same k s = ground arith

module _ {H : Type 0} where
  -- The sibling in front of place `k`, if any, has at least the priority `prio`.
  abbrev pub Stays : Children H → ℕ → ℕ → Type 0
  Stays cs zero prio = Unit
  Stays cs (suc j) prio = overtakes (child_at cs j) prio ≡ false

  child_at-set_child_lt :
      (cs : Children H) (j k : ℕ) (c : RouterNode H)
      → j < k
      → child_at (set_child cs k c) j ≡ child_at cs j
  child_at-set_child_lt nil j k c h = refl
  child_at-set_child_lt (cons d cs) j zero c h = absurd (omega arith)
  child_at-set_child_lt (cons d cs) zero (suc k) c h = refl
  child_at-set_child_lt (cons d cs) (suc j) (suc k) c h =
      child_at-set_child_lt cs j k c (omega arith)

  bubble-Stays : (cs : Children H) (k prio : ℕ) → Stays cs k prio → bubble k prio cs ≡ (cs, k)
  unfolding bubble
  bubble-Stays cs zero prio h = refl
  bubble-Stays cs (suc j) prio h = rw h

  Stays-set_child :
      (cs : Children H) (k prio : ℕ) (c : RouterNode H)
      → Stays cs k prio
      → Stays (set_child cs k c) k prio
  Stays-set_child cs zero prio c h = tt
  Stays-set_child cs (suc j) prio c h = rw (child_at-set_child_lt cs j (suc j) c (omega arith)) h

  -- A child that overtakes no sibling keeps its place, and `indices` stays as it is.
  pub increment-Stays :
      (n : Info H) (cs : Children H) (k : ℕ) (c : RouterNode H)
      → child_at cs k ≡ some c
      → Stays cs k (info_of (bump c)).priority
      → increment_child_prio (node n cs) k ≡ ok (node n (set_child cs k (bump c)), k)
  unfolding increment_child_prio
  increment-Stays n cs k c at stays = rw (
    at,
    bubble-Stays (set_child cs k (bump c)) k _ (Stays-set_child cs k _ (bump c) stays),
    reindex_same k n.indices,
  )
