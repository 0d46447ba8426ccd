-- ===== src/Tree/Walk/Rounds.antt =====
-- One round of the loop of addRoute at a node without a wildcard child, by how the path compares
-- with the path of the node.
use gin_t.Common.{
  ℕ, ◌+◌, ◌-◌, ◌^◌, if◌then◌else◌, ◌≡◌, ◌≢◌, refl, false, Option, Option-cases, inl, inr, get_elem?,
  none, some, List, [], ◌∷◌, ◌++◌, arith, ltb, length, drop, length-append, take-length_append,
  drop-length_append,
}
use gin_t.Outcome.{panic, Panic, index_out_of_range, handle_already_registered}
use gin_t.Tree.Node.{Info, node, Children, nil, cons, blank, u32}
use gin_t.Tree.Walk.{common_prefix, descend, walk_step, max_params_over}

common_prefix_whole : (s : List ℕ) → common_prefix s s ≡ length s
unfolding common_prefix
common_prefix_whole [] = refl
common_prefix_whole (a ∷ s) = ground (arith, common_prefix_whole s)

common_prefix_beyond : (s : List ℕ) (c : ℕ) (r : List ℕ) → common_prefix (s ++ c ∷ r) s ≡ length s
unfolding common_prefix
common_prefix_beyond [] c r = refl
common_prefix_beyond (a ∷ s) c r = ground (arith, common_prefix_beyond s c r)

common_prefix_within : (p : List ℕ) (c : ℕ) (r : List ℕ) → common_prefix p (p ++ c ∷ r) ≡ length p
unfolding common_prefix
common_prefix_within [] c r = refl
common_prefix_within (a ∷ p) c r = ground (arith, common_prefix_within p c r)

common_prefix_forked :
    (q : List ℕ) (a : ℕ) (u : List ℕ) (b : ℕ) (v : List ℕ)
    → b ≢ a
    → common_prefix (q ++ b ∷ v) (q ++ a ∷ u) ≡ length q
unfolding common_prefix
common_prefix_forked [] a u b v ne = ground arith
common_prefix_forked (c ∷ q) a u b v ne = ground (arith, common_prefix_forked q a u b v ne)

drop_all : (s : List ℕ) → drop (length s) s ≡ []
drop_all [] = refl
drop_all (a ∷ s) = drop_all s

index-length_append : (q : List ℕ) (a : ℕ) (u : List ℕ) → get_elem? (q ++ a ∷ u) (length q) ≡ some a
index-length_append [] a u = refl
index-length_append (b ∷ q) a u = index-length_append q a u

module _ {H : Type 0} where
  -- `n.maxParams` is raised to the wildcards of the path
  abbrev pub raised : ℕ → Info H → Info H
  raised w n = record n { max_params = if ltb n.max_params w then w else n.max_params }

  -- the two halves of a split edge
  abbrev pub lower_half : Info H → Children H → List ℕ → Info H
  lower_half n cs u = record blank {
    path = u;
    wild_child = n.wild_child;
    max_params = max_params_over 0 cs;
    priority = u32 (n.priority + (2 ^ 32 - 1));
    indices = n.indices;
    handle = n.handle;
  }

  abbrev pub upper_half : ℕ → Info H → List ℕ → ℕ → Info H
  upper_half w n q a = record (raised w n) {
    path = q;
    wild_child = false;
    indices = a ∷ [];
    handle = none;
  }

module _ {H : Type 0} (w : ℕ) (handle : Option H) where
  pub walk_step_beyond :
      (n : Info H) (cs : Children H) (c : ℕ) (r : List ℕ)
      → walk_step (n.path ++ c ∷ r) w handle (node n cs)
        ≡ descend (c ∷ r) w handle (node (raised w n) cs)
  unfolding walk_step
  walk_step_beyond n cs c r = ground (
    arith,
    common_prefix_beyond n.path c r,
    length-append n.path (c ∷ r),
    drop-length_append n.path (c ∷ r),
  )

  pub walk_step_forked :
      (n : Info H) (cs : Children H) (q : List ℕ) (a : ℕ) (u : List ℕ) (b : ℕ) (v : List ℕ)
      → n.path ≡ q ++ a ∷ u
      → b ≢ a
      → walk_step (q ++ b ∷ v) w handle (node n cs)
        ≡ descend
            (b ∷ v)
            w
            handle
            (node (upper_half w n q a) (cons (node (lower_half n cs (a ∷ u)) cs) nil))
  unfolding walk_step
  walk_step_forked n cs q a u b v e ne = ground (
    arith,
    common_prefix_forked q a u b v ne,
    length-append q (a ∷ u),
    length-append q (b ∷ v),
    drop-length_append q (b ∷ v),
    drop-length_append q (a ∷ u),
    take-length_append q (a ∷ u),
    index-length_append q a u,
  )

  pub walk_step_whole :
      (n : Info H) (cs : Children H)
      → n.wild_child ≡ false
      → (e : Panic) × (walk_step n.path w handle (node n cs) ≡ panic e)
  unfolding walk_step
  walk_step_whole n cs tame = elim (Option-cases n.handle) [
    | inl e ↦ (index_out_of_range, ground (arith, common_prefix_whole n.path, drop_all n.path))
    | inr (h, e) ↦ (handle_already_registered, ground (arith, common_prefix_whole n.path))
  ]

  pub walk_step_within :
      (n : Info H) (cs : Children H) (p : List ℕ) (c : ℕ) (r : List ℕ)
      → n.path ≡ p ++ c ∷ r
      → (e : Panic) × (walk_step p w handle (node n cs) ≡ panic e)
  unfolding walk_step
  walk_step_within n cs p c r e = (
    index_out_of_range,
    ground (
      arith,
      common_prefix_within p c r,
      length-append p (c ∷ r),
      drop_all p,
      index-length_append p c r,
    ),
  )
