-- ===== src/Tree/Fold/Sound.antt =====
-- What findCaseInsensitivePath returns on a tree without wildcards, with no slash to fix.
use gin_t.Common.{
  ℕ, zero, suc, ◌-◌, ◌≤◌, ◌<◌, ◌≡◌, refl, ◌∙◌, inl, inr, Bool, true, false, Bool-cases,
  Option-cases, Option, none, some, List, [], ◌∷◌, ◌++◌, length, drop, ltb, ◌==◌, arith,
  length-append, length-drop,
}
use mathlib.Core.Path.{subst}
use mathlib.Core.List.{append_assoc}
use gin_t.Text.Runes.{encode_rune, rune_start, decode_rune}
use gin_t.Outcome.{Outcome, ok, index, ◌>>=◌}
use gin_t.Tree.Node.{Info, RouterNode, node, Children, nil, cons, child_at}
use gin_t.Tree.Walk.{index_of}
use gin_t.Tree.Lookup.{get_value}
use gin_t.Tree.Lookup.Correct.{get_value-IsExact}
use gin_t.Tree.Static.{IsStatic, Fits, HasRoute, HasRouteIn}
use gin_t.Tree.Static.Routes.{Fits-child_at}
use gin_t.Tree.Add.First.{handle_of}
use gin_t.Tree.Fold.{
  shift_rune_bytes, put_rune, LetterCase, RuneBytes, Folded, goes_on, find_rune, fold, fold_at,
  fold_upper, fold_below, fold_child, fold_apart, fold_end, min3, find_case_insensitive_path,
}

index_within : (s : List ℕ) (i : ℕ) → i < length s → (c : ℕ) × (index s i ≡ ok c)
unfolding index
index_within [] i h = absurd (omega arith)
index_within (c ∷ s) zero h = (c, refl)
index_within (c ∷ s) (suc i) h = index_within s i (omega arith)

find_rune-within :
    (rounds off from : ℕ) (s : List ℕ)
    → from < length s
    → (x : ℕ × ℕ) × (find_rune rounds off from s ≡ ok x)
unfolding find_rune
find_rune-within zero off from s h = ((0, off), refl)
find_rune-within (suc rounds) off from s h =
    let (c, e) = index_within s (from - off) (omega arith) in
    elim (Bool-cases (rune_start c)) [
      | inl b ↦ ((decode_rune (drop (from - off) s), off), rw (e, b) refl)
      | inr b ↦ rw (e, b) (find_rune-within rounds (suc off) from s h)
    ]

module _ {H : Type 0} where
  -- If `x` is a path that was found, it is `ci` and a route of `R`, of `len` bytes.
  abbrev Leads : (List ℕ → H → Type 0) → List ℕ → ℕ → Folded → Type 0
  Leads R ci len x =
      x.1 ≡ true → (r : List ℕ) × (h : H) × (x.0 ≡ ci ++ r) × (length r ≡ len) × R r h

  abbrev IsFolded : (List ℕ → H → Type 0) → List ℕ → ℕ → Outcome Folded → Type 0
  IsFolded R ci len o = (x : Folded) × (o ≡ ok x) × Leads R ci len x

  module _ (u : LetterCase) (R : List ℕ → H → Type 0) (ci : List ℕ) (len : ℕ) where
    fold_at-IsFolded :
        (o : Option ℕ) (child : ℕ → RuneBytes → Outcome Folded) (rb : RuneBytes)
        → ((k : ℕ) → o ≡ some k → IsFolded R ci len (child k rb))
        → IsFolded R ci len (fold_at o child rb (ci, false))
    unfolding fold_at
    fold_at-IsFolded none child rb h = ((ci, false), refl, λ e. cc)
    fold_at-IsFolded (some k) child rb h = h k refl

    fold_upper-IsFolded :
        (n : Info H) (rv off : ℕ) (path : List ℕ) (lower : RuneBytes)
        (child : ℕ → RuneBytes → Outcome Folded) (x : Folded)
        → Leads R ci len x
        → ((b k : ℕ) (rb : RuneBytes)
            → index_of b n.indices 0 ≡ some k
            → IsFolded R ci len (child k rb))
        → IsFolded R ci len (fold_upper u false n rv off path ci lower child x)
    unfolding fold_upper
    fold_upper-IsFolded n rv off path lower child (out, true) l h = ((out, true), refl, l)
    fold_upper-IsFolded n rv off path lower child (out, false) l h =
        elim (Bool-cases (u.to_upper rv == u.to_lower rv)) [
          | inl b ↦ rw b ((ci, false), refl, λ e. cc)
          | inr b ↦ rw b (fold_at-IsFolded _ child _ (λ k e. h _ k _ e))
        ]

    IsFolded-bind :
        (o : Outcome Folded) (f : Folded → Outcome Folded)
        → IsFolded R ci len o
        → ((x : Folded) → Leads R ci len x → IsFolded R ci len (f x))
        → IsFolded R ci len (o >>= f)
    IsFolded-bind o f (x, e, l) h = rw e (h x l)

    fold_below-IsFolded :
        (n : Info H) (old path : List ℕ) (rb : RuneBytes) (child : ℕ → RuneBytes → Outcome Folded)
        → length n.path < length old
        → ((b k : ℕ) (rb : RuneBytes)
            → index_of b n.indices 0 ≡ some k
            → IsFolded R ci len (child k rb))
        → IsFolded R ci len (fold_below u false n old path ci rb child)
    unfolding fold_below
    fold_below-IsFolded n old path rb child within h = elim (Bool-cases (rb.b0 == 0)) [
      | inr b ↦ rw b (fold_at-IsFolded (index_of rb.b0 n.indices 0) child rb (λ k e. h _ k _ e))
      | inl b ↦
          let (x, e) = find_rune-within (min3 (length n.path)) 0 (length n.path) old within in
          let lower = shift_rune_bytes (put_rune (encode_rune (u.to_lower x.0)) rb) x.1 in
          rw (b, e)
            (IsFolded-bind (fold_at (index_of lower.b0 n.indices 0) child lower (ci, false))
              (fold_upper u false n x.0 x.1 path ci lower child)
              (fold_at-IsFolded (index_of lower.b0 n.indices 0) child lower
                (λ k e'. h lower.b0 k lower e'))
              (λ y l. fold_upper-IsFolded n x.0 x.1 path lower child y l h))
    ]

  -- from the children to the node
  Leads-below :
      (n : Info H) (cs : Children H) (ci : List ℕ) (len : ℕ) (x : Folded)
      → length n.path ≤ len
      → Leads (HasRouteIn cs) (ci ++ n.path) (len - length n.path) x
      → Leads (HasRoute (node n cs)) ci len x
  unfolding HasRoute
  Leads-below n cs ci len x within l found =
      let (r, h, e, size, route) = l found in
      (
        n.path ++ r,
        h,
        e ∙ append_assoc ci n.path r,
        ground (arith, length-append n.path r),
        inr (r, refl, route),
      )

  fold_end-IsFolded :
      (u : LetterCase) (n : Info H) (cs : Children H) (ci : List ℕ) (len : ℕ)
      → length n.path ≡ len
      → IsFolded (HasRoute (node n cs)) ci len (fold_end u false (ci ++ n.path) n cs)
  unfolding fold_end HasRoute
  fold_end-IsFolded u n cs ci len size = elim (Option-cases n.handle) [
    | inl e ↦ rw e ((ci ++ n.path, false), refl, λ e'. cc)
    | inr (h, e) ↦ rw e ((ci ++ n.path, true), refl, λ _. (n.path, h, refl, size, inl (refl, refl)))
  ]

goes_on-fits :
    (u : LetterCase) (path node_path : List ℕ)
    → goes_on u path node_path ≡ true
    → length node_path ≤ length path
unfolding goes_on
goes_on-fits u path node_path b = ground arith

module _ {H : Type 0} (u : LetterCase) (n : Info H) (cs : Children H) (path ci : List ℕ)
    (rb : RuneBytes) where
  fold_round_apart :
      goes_on u path n.path ≡ false → fold u false (node n cs) path ci rb ≡ ok (ci, false)
  unfolding fold fold_apart
  fold_round_apart b = ground arith

  pub fold_round_end :
      goes_on u path n.path ≡ true
      → ltb (length n.path) (length path) ≡ false
      → fold u false (node n cs) path ci rb ≡ fold_end u false (ci ++ n.path) n cs
  unfolding fold
  fold_round_end b short = ground arith

  pub fold_round_below :
      goes_on u path n.path ≡ true
      → ltb (length n.path) (length path) ≡ true
      → n.wild_child ≡ false
      → fold u false (node n cs) path ci rb
        ≡ fold_below u false n path
            (drop (length n.path) path)
            (ci ++ n.path)
            (shift_rune_bytes rb (length n.path))
            (λ k rb'. fold_child u false cs k (drop (length n.path) path) (ci ++ n.path) rb')
  unfolding fold
  fold_round_below b long tame = ground arith

mutual
  unfolding IsStatic Fits fold_child HasRouteIn

  fold-IsFolded :
      {H : Type 0} (u : LetterCase) (m : ℕ) (t : RouterNode H) (path ci : List ℕ) (rb : RuneBytes)
      → IsStatic m t
      → IsFolded (HasRoute t) ci (length path) (fold u false t path ci rb)
  fold-IsFolded u m (node n cs) path ci rb (plain, f) = elim (Bool-cases (goes_on u path n.path)) [
    | inr b ↦ ((ci, false), fold_round_apart u n cs path ci rb b, λ e. cc)
    | inl b ↦ elim (Bool-cases (ltb (length n.path) (length path))) [
      | inr short ↦
          rw (fold_round_end u n cs path ci rb b short) (
            fold_end-IsFolded u n cs ci (length path)
              (ground (arith, goes_on-fits u path n.path b)))
      | inl long ↦
          let (x, e, l) =
            fold_below-IsFolded u (HasRouteIn cs) (ci ++ n.path)
              (length (drop (length n.path) path)) n path (drop (length n.path) path)
              (shift_rune_bytes rb (length n.path))
              (λ k rb'. fold_child u false cs k (drop (length n.path) path) (ci ++ n.path) rb')
              (ground arith)
              (λ b k rb' at.
                let (d, there, _, _) = Fits-child_at m n.indices cs b k f at in
                fold_child-IsFolded u m n.indices cs k d (drop (length n.path) path) (ci ++ n.path)
                  rb' f there) in
          (
            x,
            fold_round_below u n cs path ci rb b long plain.tame ∙ e,
            Leads-below n cs ci (length path) x (goes_on-fits u path n.path b) (
                subst (λ j. Leads (HasRouteIn cs) (ci ++ n.path) j x)
                  (length-drop (length n.path) path) l),
          )
    ]
  ]

  pub fold_child-IsFolded :
      {H : Type 0} (u : LetterCase) (m : ℕ) (s : List ℕ) (cs : Children H) (k : ℕ)
      (d : RouterNode H) (path ci : List ℕ) (rb : RuneBytes)
      → Fits m s cs
      → child_at cs k ≡ some d
      → IsFolded (HasRouteIn cs) ci (length path) (fold_child u false cs k path ci rb)
  fold_child-IsFolded u m s nil k d path ci rb f at = cc
  fold_child-IsFolded u m [] (cons c cs) k d path ci rb f at = elim f [ ]
  fold_child-IsFolded u m (b ∷ s) (cons c cs) zero d path ci rb f at =
      let (x, e, l) = fold-IsFolded u m c path ci rb f.2 in
      (x, e, λ found. let (r, h, eq, size, route) = l found in (r, h, eq, size, inl route))
  fold_child-IsFolded u m (b ∷ s) (cons c cs) (suc k) d path ci rb f at =
      let (x, e, l) = fold_child-IsFolded u m s cs k d path ci rb f.3 at in
      (x, e, λ found. let (r, h, eq, size, route) = l found in (r, h, eq, size, inr route))

pub find_case_insensitive_path-get_value :
    {H : Type 0} (u : LetterCase) (m : ℕ) (t : RouterNode H) (path : List ℕ)
    → IsStatic m t
    → (out : List ℕ) × (found : Bool) × (find_case_insensitive_path u false t path
        ≡ ok (out, found))
      × (found ≡ true
          → (length out ≡ length path) × (h : H) × (handle_of (get_value t out none) ≡ some h))
unfolding find_case_insensitive_path
find_case_insensitive_path-get_value u m t path st =
    let (x, e, l) = fold-IsFolded u m t path [] (record { b0 = 0; b1 = 0; b2 = 0; b3 = 0 }) st in
    (
      x.0,
      x.1,
      e,
      λ found.
          let (r, h, same, size, route) = l found in
          let y = get_value-IsExact m t r none st in
          (rw same size, h, rw (same, y.returned) (y.complete h route)),
    )
