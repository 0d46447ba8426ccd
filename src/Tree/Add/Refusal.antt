-- ===== src/Tree/Add/Refusal.antt =====
-- addRoute on a tree without wildcards, where the path ends inside the tree.
use gin_t.Common.{
  ℕ, zero, suc, ◌+◌, ◌≤◌, ◌<◌, ◌≡◌, ◌≢◌, refl, sym, ap, ◌∙◌, inl, inr, false, Option, some, List,
  [], ◌∷◌, ◌++◌, arith, length, split_cases, whole, beyond, within, forked, append-cancel,
}
use mathlib.Core.Path.{subst}
use mathlib.Core.List.{append_assoc, append-nil}
use gin_t.Outcome.{Panic, Outcome, ok, panic}
use gin_t.Tree.Node.{Info, RouterNode, node, Children, nil, cons, bump, u32, child_at}
use gin_t.Tree.Priority.Move.{increment_child_prio-IsMoved}
use gin_t.Tree.Insert.{wildcard_num}
use gin_t.Tree.Walk.{down, walk_step, walk, index_of, height, height_over, add_route, is_param}
use gin_t.Tree.Walk.Rounds.{raised, walk_step_beyond, walk_step_whole, walk_step_within}
use gin_t.Tree.Walk.Descend.{descend_child}
use gin_t.Tree.Static.{IsStatic, Fits, StartsWith, HasRoute, HasRouteIn}
use gin_t.Tree.Static.Routes.{not-route-Absent, index_of_shift, HeadIs-cons, route_head}
use gin_t.Tree.Add.Below.{height-child_at}
use gin_t.Tree.Add.Correct.{not_empty}

-- The call panics.
abbrev pub Panics {ℓ} : {A : Type ℓ} → Outcome A → Type ℓ
Panics o = (e : Panic) × (o ≡ panic e)

module _ {H : Type 0} (m : ℕ) where
  -- The route with a given first byte lies below the child that `indices` names for the byte.
  route_below :
      (s : List ℕ) (cs : Children H) (c : ℕ) (q : List ℕ) (h : H)
      → Fits m s cs
      → HasRouteIn cs (c ∷ q) h
      → (k : ℕ) × (d : RouterNode H) × (index_of c s 0 ≡ some k)
        × (child_at cs k ≡ some d)
        × IsStatic m d
        × HasRoute d (c ∷ q) h
        × (k < length s)
  unfolding Fits HasRouteIn index_of
  route_below s nil c q h f r = elim r [ ]
  route_below [] (cons d cs) c q h f r = elim f [ ]
  route_below (b ∷ s) (cons d cs) c q h f (inl r) =
      let (t, e) = route_head b d (c ∷ q) h f.0 r in (0, d, ground arith, refl, f.2, r, omega arith)
  route_below (b ∷ s) (cons d cs) c q h f (inr r) =
      let (k, d', at_byte, at, st, r', lt) = route_below s cs c q h f.3 r in
      let ne : b ≢ c = λ e. not-route-Absent m s cs c q h f.3 (rw e at f.1) r in
      (suc k, d', ground (arith, index_of_shift c s 0), at, st, r', omega arith)

module _ {H : Type 0} (fuel w : ℕ) (handle : Option H) (n : Info H) (cs : Children H)
    (p : List ℕ) where
  walk-Panics :
      Panics (walk_step p w handle (node n cs)) → Panics (walk (suc fuel) p w handle (node n cs))
  unfolding walk
  walk-Panics (e, run) = (e, rw run)

  walk_down-Panics :
      (n' : Info H) (cs' : Children H) (j : ℕ) (r : List ℕ) (d : RouterNode H)
      → walk_step p w handle (node n cs) ≡ ok (down (node n' cs') j r w)
      → child_at cs' j ≡ some d
      → Panics (walk fuel r w handle d)
      → Panics (walk (suc fuel) p w handle (node n cs))
  unfolding walk
  walk_down-Panics n' cs' j r d step at (e, run) = (e, rw (step, at, run))

module _ {H : Type 0} (m w : ℕ) (handle : Option H) where
  abbrev RefusesAt : ℕ → List ℕ → Type 0
  RefusesAt fuel p =
      (n : Info H) (cs : Children H) (q : List ℕ) (h : H)
      → height_over cs < fuel
      → n.wild_child ≡ false
      → is_param n.n_type ≡ false
      → Fits m n.indices cs
      → HasRoute (node n cs) (p ++ q) h
      → Panics (walk fuel p w handle (node n cs))

  -- a round that goes on at a child, which refuses the rest of the path
  refuse_child :
      (fuel : ℕ) (c : ℕ) (r : List ℕ)
      → RefusesAt fuel (c ∷ r)
      → (n : Info H) (cs : Children H) (k : ℕ) (d : RouterNode H) (q : List ℕ) (h : H)
      → height_over cs ≤ fuel
      → n.wild_child ≡ false
      → is_param n.n_type ≡ false
      → index_of c n.indices 0 ≡ some k
      → k < length n.indices
      → child_at cs k ≡ some d
      → IsStatic m d
      → HasRoute d ((c ∷ r) ++ q) h
      → Panics (walk (suc fuel) (n.path ++ c ∷ r) w handle (node n cs))
  unfolding IsStatic HasRoute height
  refuse_child fuel c r ih n cs k (node i ds) q h low tame plain at_byte lt at st route =
      let (n', cs', j, run, moved) =
        increment_child_prio-IsMoved (raised w n) cs k (node i ds) at lt in
      walk_down-Panics fuel w handle n cs (n.path ++ c ∷ r) n' cs' j (c ∷ r) (bump (node i ds))
        (walk_step_beyond w handle n cs c r
          ∙ descend_child (raised w n) cs c r w k handle tame plain at_byte
          ∙ rw run refl)
        moved.at_place
        (ih (record i { priority = u32 (i.priority + 1) }) ds q h
          (omega (arith, height-child_at cs k (node i ds) at)) st.0.tame st.0.no_param st.1 route)

  beyond_route :
      (n : Info H) (cs : Children H) (c : ℕ) (r : List ℕ) (h : H)
      → HasRoute (node n cs) (n.path ++ c ∷ r) h
      → HasRouteIn cs (c ∷ r) h
  unfolding HasRoute
  beyond_route n cs c r h (inl (e, _)) =
      cc (append-cancel n.path (c ∷ r) [] (e ∙ sym (append-nil n.path)))
  beyond_route n cs c r h (inr (q, e, below)) = rw (sym (append-cancel n.path (c ∷ r) q e)) at below

  not_forked :
      (n : Info H) (cs : Children H) (q : List ℕ) (a : ℕ) (u : List ℕ) (b : ℕ) (v : List ℕ) (h : H)
      → n.path ≡ q ++ a ∷ u
      → b ≢ a
      → HasRoute (node n cs) (q ++ b ∷ v) h
      → ⊥
  unfolding HasRoute
  not_forked n cs q a u b v h e ne (inl (e', _)) =
      ne (cc (append-cancel q (b ∷ v) (a ∷ u) (e' ∙ e)))
  not_forked n cs q a u b v h e ne (inr (s, e', _)) = ne (
      cc (
        append-cancel q (b ∷ v) ((a ∷ u) ++ s)
          (e' ∙ ap (λ x. x ++ s) e ∙ append_assoc q (a ∷ u) s)))

  refuse : (fuel : ℕ) (p : List ℕ) → RefusesAt fuel p
  refuse zero p n cs q h low tame plain f route = elim low [ ]
  refuse (suc fuel) p n cs q h low tame plain f route = elim (split_cases n.path p) [
    | whole e ↦ walk-Panics fuel w handle n cs p (
        subst (λ x. Panics (walk_step x w handle (node n cs))) (sym e)
          (walk_step_whole w handle n cs tame))
    | within c r e ↦ walk-Panics fuel w handle n cs p (walk_step_within w handle n cs p c r e)
    | beyond c r e ↦
        let below = beyond_route n cs c (r ++ q) h (
          subst (λ x. HasRoute (node n cs) x h) (append_assoc n.path (c ∷ r) q)
            (subst (λ x. HasRoute (node n cs) (x ++ q) h) e route)) in
        let (k, d, at_byte, at, st, route', lt) = route_below m n.indices cs c (r ++ q) h f below in
        subst (λ x. Panics (walk (suc fuel) x w handle (node n cs))) (sym e)
          (refuse_child fuel c r (refuse fuel (c ∷ r)) n cs k d q h (omega arith) tame plain at_byte
            lt at st route')
    | forked s a u b v e e' ne ↦ absurd (
        not_forked n cs s a u b (v ++ q) h e ne (
          subst (λ x. HasRoute (node n cs) x h) (append_assoc s (b ∷ v) q)
            (subst (λ x. HasRoute (node n cs) (x ++ q) h) e' route)))
  ]

pub add_route-prefix_Panics :
    {H : Type 0} (m : ℕ) (t : RouterNode H) (p q : List ℕ) (h : H) (handle : Option H)
    → IsStatic m t
    → StartsWith b'/' t
    → HasRoute t (p ++ q) h
    → Panics (add_route p handle t)
unfolding add_route IsStatic HasRoute StartsWith
add_route-prefix_Panics m (node n cs) p q h handle st starts route =
    let n' = record n { full_path = p; priority = u32 (n.priority + 1) } in
    rw (not_empty n' cs (HeadIs-cons b'/' n.path starts)) (
      refuse m (wildcard_num p) handle (height (node n' cs) + 2) p n' cs q h (omega arith) st.0.tame
        st.0.no_param st.1 route)
