-- ===== src/Tree/Fold/Finds.antt =====
-- What findCaseInsensitivePath finds on a tree without wildcards, for paths of ASCII bytes.
use gin_t.Common.{
  ℕ, suc, ◌<◌, ◌≡◌, ◌≢◌, refl, sym, ap, ◌∙◌, inl, inr, Bool, true, false, Option-cases, none, some,
  List, [], ◌∷◌, ◌++◌, length, drop, ltb, arith, drop-length_append, ltb-length_append,
}
use mathlib.Core.Path.{subst}
use mathlib.Core.List.{append-nil}
use native.Mathlib.Decide.{ℕ_discrete}
use gin_t.Outcome.{Outcome, panic, out_of_fuel, ok}
use gin_t.Tree.Node.{Info, RouterNode, node, Children, nil, cons}
use gin_t.Tree.Walk.{index_of}
use gin_t.Tree.Lookup.{get_value}
use gin_t.Tree.Static.{Absent, IsStatic, Fits, StartsWith, HasRoute, HasRouteIn}
use gin_t.Tree.Static.Routes.{
  Fits-child_at, index_of_shift, index_of-Absent, not-route-Absent, not-route_nil, HeadIs-cons,
  route_head,
}
use gin_t.Tree.Add.First.{handle_of}
use gin_t.Tree.Fold.Sound.{
  find_case_insensitive_path-get_value, fold_round_end, fold_round_below, fold_child-IsFolded,
}
use gin_t.Tree.Fold.{
  LetterCase, RuneBytes, Folded, goes_on, fold, fold_child, fold_end, find_case_insensitive_path,
}
use gin_t.Tree.Fold.Variant.{
  IsForm, IsVariant, IsCase, IsVariant-length, IsVariant-split, goes_on-IsVariant,
}
use gin_t.Tree.Fold.Ascii.{IsSpent, no_rune, one_byte, Finds, fold_below-Finds, shift_long}

not_empty :
    {H : Type 0} (b : ℕ) (n : Info H) (cs : Children H)
    → StartsWith b (node n cs)
    → 0 < length n.path
unfolding StartsWith
not_empty b n cs h = let (t, e) = HeadIs-cons b n.path h in rw e (omega arith)

module _ {H : Type 0} (u : LetterCase) (cased : IsCase u) (n : Info H) (cs : Children H) where
  fold_here :
      (path ci : List ℕ) (rb : RuneBytes) (h : H)
      → IsVariant u path n.path
      → n.handle ≡ some h
      → Finds (fold u false (node n cs) path ci rb)
  unfolding fold_end
  fold_here path ci rb h v at =
      let prefix : goes_on u path n.path ≡ true =
        subst (λ x. goes_on u x n.path ≡ true) (append-nil path)
          (goes_on-IsVariant u n.path path [] cased v) in
      let size = IsVariant-length u path n.path v in
      let short : ltb (length n.path) (length path) ≡ false = ground arith in
      rw (fold_round_end u n cs path ci rb prefix short, at) (ci ++ n.path, refl)

  -- the route is below the child `k`
  fold_there :
      (m : ℕ) (s ci : List ℕ) (rb : RuneBytes) (c d : ℕ) (r : List ℕ) (k : ℕ)
      → IsStatic m (node n cs)
      → 0 < length n.path
      → IsSpent rb
      → IsForm u c d
      → IsVariant u s n.path
      → index_of d n.indices 0 ≡ some k
      → Finds (fold_child u false cs k (c ∷ r) (ci ++ n.path) (one_byte d))
      → Finds (fold u false (node n cs) (s ++ c ∷ r) ci rb)
  unfolding IsStatic
  fold_there m s ci rb c d r k (plain, f) long spent form v at found =
      let path : List ℕ = s ++ c ∷ r in
      let size = IsVariant-length u s n.path v in
      let prefix = goes_on-IsVariant u n.path s (c ∷ r) cased v in
      let longer : ltb (length n.path) (length path) ≡ true =
        rw (← size) (ltb-length_append s c r) in
      let rest : drop (length n.path) path ≡ c ∷ r = rw (← size) (drop-length_append s (c ∷ r)) in
      rw
        (
          fold_round_below u n cs path ci rb prefix longer plain.tame,
          shift_long (length n.path) rb long spent,
          rest,
        )
        (fold_below-Finds u cased n c d form path (c ∷ r) (ci ++ n.path) r
          (λ j rb'. fold_child u false cs j (c ∷ r) (ci ++ n.path) rb') k long rest
          (λ b j at'.
            let (d', there, _, _) = Fits-child_at m n.indices cs b j f at' in
            let (x, run, _) =
              fold_child-IsFolded u m n.indices cs j d' (c ∷ r) (ci ++ n.path) (one_byte b) f
                there in
            (x, run))
          at found)

route_index :
    {H : Type 0} (m : ℕ) (s : List ℕ) (cs : Children H) (c : ℕ) (r : List ℕ) (h : H)
    → Fits m s cs
    → HasRouteIn cs (c ∷ r) h
    → (k : ℕ) × (index_of c s 0 ≡ some k)
route_index m s cs c r h f route = elim (Option-cases (index_of c s 0)) [
  | inl e ↦ absurd (not-route-Absent m s cs c r h f (index_of-Absent c s 0 e) route)
  | inr at ↦ at
]

-- the same for a route and the rest of the path, given the lookup in the children
fold_rest :
    {H : Type 0} (u : LetterCase) (cased : IsCase u) (n : Info H) (cs : Children H) (m b : ℕ)
    (s rest q ci : List ℕ) (rb : RuneBytes) (h : H)
    → IsStatic m (node n cs)
    → StartsWith b (node n cs)
    → IsSpent rb
    → IsVariant u s n.path
    → IsVariant u rest q
    → HasRouteIn cs q h
    → ((k c d : ℕ) (r q' : List ℕ)
        → IsVariant u (c ∷ r) (d ∷ q')
        → index_of d n.indices 0 ≡ some k
        → HasRouteIn cs (d ∷ q') h
        → Finds (fold_child u false cs k (c ∷ r) (ci ++ n.path) (one_byte d)))
    → Finds (fold u false (node n cs) (s ++ rest) ci rb)
unfolding IsStatic
fold_rest u cased n cs m b s rest [] ci rb h st starts spent vs vr below children =
    absurd (not-route_nil m n.indices cs h st.1 below)
fold_rest u cased n cs m b s [] (d ∷ q) ci rb h st starts spent vs vr below children = elim vr [ ]
fold_rest u cased n cs m b s (c ∷ r) (d ∷ q) ci rb h st starts spent vs vr below children =
    let (k, at) = route_index m n.indices cs d q h st.1 below in
    fold_there u cased n cs m s ci rb c d r k st (not_empty b n cs starts) spent vr.0 vs at
      (children k c d r q vr at below)

index_here : (c b k : ℕ) (s : List ℕ) → c ≡ b → index_of c (b ∷ s) 0 ≡ some k → k ≡ 0
unfolding index_of
index_here c b k s e at = ground arith

index_there :
    (c b k j : ℕ) (s : List ℕ)
    → c ≢ b
    → index_of c s 0 ≡ some j
    → index_of c (b ∷ s) 0 ≡ some k
    → k ≡ suc j
unfolding index_of
index_there c b k j s ne at' at = ground (arith, index_of_shift c s 0)

mutual
  unfolding IsStatic Fits HasRoute HasRouteIn fold_child index_of

  fold-Finds :
      {H : Type 0} (u : LetterCase) (cased : IsCase u) (m b : ℕ) (t : RouterNode H)
      (path route ci : List ℕ) (rb : RuneBytes) (h : H)
      → IsStatic m t
      → StartsWith b t
      → IsSpent rb
      → IsVariant u path route
      → HasRoute t route h
      → Finds (fold u false t path ci rb)
  fold-Finds u cased m b (node n cs) path route ci rb h st starts spent v found = elim found [
    | inl (e, at) ↦ fold_here u cased n cs path ci rb h (subst (IsVariant u path) e v) at
    | inr (q, e, below) ↦
        let (s, rest, split, vs, vr) =
          IsVariant-split u path n.path q (subst (IsVariant u path) e v) in
        subst (λ x. Finds (fold u false (node n cs) x ci rb)) (sym split)
          (fold_rest u cased n cs m b s rest q ci rb h st starts spent vs vr below (λ k c d r q'.
            fold_child-Finds u cased m n.indices cs k c d r q' (ci ++ n.path) h st.1))
  ]

  fold_child-Finds :
      {H : Type 0} (u : LetterCase) (cased : IsCase u) (m : ℕ) (s : List ℕ) (cs : Children H)
      (k c d : ℕ) (r q ci : List ℕ) (h : H)
      → Fits m s cs
      → IsVariant u (c ∷ r) (d ∷ q)
      → index_of d s 0 ≡ some k
      → HasRouteIn cs (d ∷ q) h
      → Finds (fold_child u false cs k (c ∷ r) ci (one_byte d))
  fold_child-Finds u cased m s nil k c d r q ci h f v at route = elim route [ ]
  fold_child-Finds u cased m [] (cons t cs) k c d r q ci h f v at route = elim f [ ]
  fold_child-Finds u cased m (b ∷ s) (cons t cs) k c d r q ci h f v at route = elim route [
    | inl here ↦
        let (_, e) = route_head b t (d ∷ q) h f.0 here in
        rw (index_here d b k s (cc e) at) (
          fold-Finds u cased m b t (c ∷ r) (d ∷ q) ci (one_byte d) h f.2 f.0 (refl, refl, refl) v
            here)
    | inr there ↦ elim (ℕ_discrete d b) [
      | yes e ↦
          absurd (not-route-Absent m s cs d q h f.3 (subst (λ a. Absent a s) (sym e) f.1) there)
      | no ne ↦
          let (j, at') = route_index m s cs d q h f.3 there in
          rw (index_there d b k j s ne at' at)
            (fold_child-Finds u cased m s cs j c d r q ci h f.3 v at' there)
    ]
  ]

find_case_insensitive_path-Finds :
    {H : Type 0} (u : LetterCase) (m b : ℕ) (t : RouterNode H) (path route : List ℕ) (h : H)
    → IsCase u
    → IsStatic m t
    → StartsWith b t
    → IsVariant u path route
    → HasRoute t route h
    → Finds (find_case_insensitive_path u false t path)
unfolding find_case_insensitive_path
find_case_insensitive_path-Finds u m b t path route h cased st starts v has =
    fold-Finds u cased m b t path route [] no_rune h st starts (refl, refl, refl) v has

abbrev found_of : Outcome Folded → Bool
found_of (ok x) = x.1
found_of (panic e) = false
found_of out_of_fuel = false

pub find_case_insensitive_path-IsVariant :
    {H : Type 0} (u : LetterCase) (m b : ℕ) (t : RouterNode H) (path route : List ℕ) (h : H)
    → IsCase u
    → IsStatic m t
    → StartsWith b t
    → IsVariant u path route
    → HasRoute t route h
    → (out : List ℕ) × (k : H) × (find_case_insensitive_path u false t path ≡ ok (out, true))
      × (length out ≡ length path)
      × (handle_of (get_value t out none) ≡ some k)
find_case_insensitive_path-IsVariant u m b t path route h cased st starts v has =
    let (out, found, run, sound) = find_case_insensitive_path-get_value u m t path st in
    let (out', run') =
      find_case_insensitive_path-Finds u m b t path route h cased st starts v has in
    let same : found ≡ true = ap found_of (sym run ∙ run') in
    let (size, k, at) = sound same in (out, k, rw (← same) run, size, at)
