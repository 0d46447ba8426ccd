-- ===== src/Tree/Fold.antt =====
-- findCaseInsensitivePath, fpRec and shiftNRuneBytes of core/tree.go. Letter case is a parameter. Two
-- appends to `ciPath` may share its array, but each reads what it wrote itself: it is a value here.
pub mod Sound
pub mod Variant
pub mod Ascii
pub mod Finds
mod Samples
use gin_t.Common.{
  ℕ, zero, suc, ◌+◌, ◌-◌, Bool, true, false, not, ◌&&◌, ◌||◌, Option, none, some, List, [], ◌∷◌,
  ◌++◌, length, take, drop, leb, ltb, ◌==◌, list_eq, if◌then◌else◌,
}
use gin_t.Text.Runes.{rune_start, decode_rune, encode_rune}
use gin_t.Outcome.{
  Outcome, ok, panic, index_out_of_range, invalid_node_type, ◌>>=◌, ◌>>◌, or_panic, index, slice,
}
use gin_t.Tree.Node.{
  NodeType, static, root, param, catch_all, Info, RouterNode, node, Children, nil, cons, size,
  child_at,
}
use gin_t.Tree.Walk.{index_of, slash_at}
use gin_t.Tree.Lookup.{is_some, param_end, slash_child, only_slash}

-- strings.EqualFold, unicode.ToLower and unicode.ToUpper.
pub record LetterCase : Type 0 where
  pub equal_fold : List ℕ → List ℕ → Bool
  pub to_lower : ℕ → ℕ
  pub to_upper : ℕ → ℕ

-- [4]byte
pub record RuneBytes : Type 0 where
  pub b0 : ℕ
  pub b1 : ℕ
  pub b2 : ℕ
  pub b3 : ℕ

unfoldable shift_rune_bytes : RuneBytes → ℕ → RuneBytes
shift_rune_bytes rb zero = rb
shift_rune_bytes rb (suc zero) = record { b0 = rb.b1; b1 = rb.b2; b2 = rb.b3; b3 = 0 }
shift_rune_bytes rb (suc (suc zero)) = record { b0 = rb.b2; b1 = rb.b3; b2 = 0; b3 = 0 }
shift_rune_bytes rb (suc (suc (suc zero))) = record { b0 = rb.b3; b1 = 0; b2 = 0; b3 = 0 }
shift_rune_bytes rb _ = record { b0 = 0; b1 = 0; b2 = 0; b3 = 0 }

-- the bytes that EncodeRune writes; those behind stay
unfoldable put_rune : List ℕ → RuneBytes → RuneBytes
put_rune [] rb = rb
put_rune (a ∷ []) rb = record rb { b0 = a }
put_rune (a ∷ b ∷ []) rb = record rb { b0 = a; b1 = b }
put_rune (a ∷ b ∷ c ∷ []) rb = record rb { b0 = a; b1 = b; b2 = c }
put_rune (a ∷ b ∷ c ∷ d ∷ s) rb = record { b0 = a; b1 = b; b2 = c; b3 = d }

-- "find rune start": the rune, or 0, and the number of its bytes before `from`
unfoldable find_rune : ℕ → ℕ → ℕ → List ℕ → Outcome (ℕ × ℕ)
find_rune zero off from path = ok (0, off)
find_rune (suc rounds) off from path = do
  c ← index path (from - off)
  if rune_start c
      then ok (decode_rune (drop (from - off) path), off)
      else find_rune rounds (suc off) from path

abbrev min3 : ℕ → ℕ
min3 n = if leb n 3 then n else 3

abbrev Folded : Type 0
Folded = List ℕ × Bool

-- the condition of the loop; the first byte of a node is not compared
unfoldable goes_on : LetterCase → List ℕ → List ℕ → Bool
goes_on u path node_path =
    leb (length node_path) (length path)
    && (length node_path == 0
        || u.equal_fold (drop 1 (take (length node_path) path)) (drop 1 node_path))

-- children[k], or the answer `none_there` if the byte is not in `indices`
unfoldable fold_at :
    Option ℕ → (ℕ → RuneBytes → Outcome Folded) → RuneBytes → Folded → Outcome Folded
fold_at none child rb none_there = ok none_there
fold_at (some k) child rb none_there = child k rb

module _ {H : Type 0} (u : LetterCase) (fix : Bool) where
  -- behind the loop
  unfoldable fold_apart : List ℕ → List ℕ → Info H → Outcome Folded
  unfolding slice
  fold_apart path ci n =
      if not fix
      then ok (ci, false)
      else if list_eq path (b'/' ∷ [])
      then ok (ci, true)
      else if length path + 1 == length n.path && slash_at n.path (length path)
      then (do
        tail ← slice 1 (length path) path
        node_tail ← slice 1 (length path) n.path
        ok (
            if u.equal_fold tail node_tail && is_some n.handle
            then (ci ++ n.path, true)
            else (ci, false)))
      else ok (ci, false)

  -- the path ends at this node
  unfoldable fold_end : List ℕ → Info H → Children H → Outcome Folded
  unfolding index_of
  fold_end ci n cs =
      if is_some n.handle
      then ok (ci, true)
      else if not fix
      then ok (ci, false)
      else elim (index_of b'/' n.indices 0) [
        | none ↦ ok (ci, false)
        | some k ↦ do
          c ← or_panic (child_at cs k) index_out_of_range
          slashed ← slash_child c
          ok (if slashed then (ci ++ b'/' ∷ [], true) else (ci, false))
      ]

  abbrev fold_param : List ℕ → Info H → Children H → Folded
  fold_param ci n cs =
      if is_some n.handle
      then (ci, true)
      else if fix && only_slash cs
      then (ci ++ b'/' ∷ [], true)
      else (ci, false)

  -- "Nothing found": no child goes on with the path
  abbrev missing : List ℕ → List ℕ → Info H → Folded
  missing path ci n = (ci, fix && list_eq path (b'/' ∷ []) && is_some n.handle)

  -- "if we found no match, the same for the uppercase rune"
  unfoldable fold_upper :
      Info H
      → ℕ
      → ℕ
      → List ℕ
      → List ℕ
      → RuneBytes
      → (ℕ → RuneBytes → Outcome Folded)
      → Folded
      → Outcome Folded
  unfolding fold_at index_of put_rune shift_rune_bytes encode_rune
  fold_upper n rv off path ci lower child (out, true) = ok (out, true)
  fold_upper n rv off path ci lower child (out, false) =
      let upper = shift_rune_bytes (put_rune (encode_rune (u.to_upper rv)) lower) off in
      if u.to_upper rv == u.to_lower rv
      then ok (missing path ci n)
      else fold_at (index_of upper.b0 n.indices 0) child upper (missing path ci n)

  -- the rest `path` of `old_path` goes on in the children, which `child` runs
  unfoldable fold_below :
      Info H
      → List ℕ
      → List ℕ
      → List ℕ
      → RuneBytes
      → (ℕ → RuneBytes → Outcome Folded)
      → Outcome Folded
  unfolding fold_at fold_upper find_rune index_of put_rune shift_rune_bytes encode_rune
  fold_below n old_path path ci rb child =
      if not (rb.b0 == 0)
      then fold_at (index_of rb.b0 n.indices 0) child rb (missing path ci n)
      else (do
        (rv, off) ← find_rune (min3 (length n.path)) 0 (length n.path) old_path
        let lower = shift_rune_bytes (put_rune (encode_rune (u.to_lower rv)) rb) off
        answer ← fold_at (index_of lower.b0 n.indices 0) child lower (ci, false)
        fold_upper n rv off path ci lower child answer)

  unfoldable mutual
    unfolding fold_apart fold_end goes_on fold_below shift_rune_bytes param_end

    pub fold : RouterNode H → List ℕ → List ℕ → RuneBytes → Outcome Folded
    fold (node n cs) path ci rb = elim (goes_on u path n.path) [
      | false ↦ fold_apart path ci n
      | true ↦ elim (ltb (length n.path) (length path)) [
        | false ↦ fold_end (ci ++ n.path) n cs
        | true ↦ elim n.wild_child [
          | true ↦ fold_wild cs (drop (length n.path) path) (ci ++ n.path) rb
          | false ↦
              fold_below n path (drop (length n.path) path) (ci ++ n.path)
                (shift_rune_bytes rb (length n.path))
                (λ k rb'. fold_child cs k (drop (length n.path) path) (ci ++ n.path) rb')
        ]
      ]
    ]

    pub fold_child : Children H → ℕ → List ℕ → List ℕ → RuneBytes → Outcome Folded
    fold_child nil k path ci rb = panic index_out_of_range
    fold_child (cons c cs) zero path ci rb = fold c path ci rb
    fold_child (cons c cs) (suc k) path ci rb = fold_child cs k path ci rb

    fold_wild : Children H → List ℕ → List ℕ → RuneBytes → Outcome Folded
    fold_wild nil path ci rb = panic index_out_of_range
    fold_wild (cons (node n cs) others) path ci rb = elim n.n_type [
      | param ↦ elim (ltb (param_end path) (length path)) [
        | true ↦ elim (ltb 0 (size cs)) [
          | true ↦
              fold_child cs 0 (drop (param_end path) path) (ci ++ take (param_end path) path) rb
          | false ↦ ok (ci ++ take (param_end path) path, fix && length path == param_end path + 1)
        ]
        | false ↦ ok (fold_param (ci ++ take (param_end path) path) n cs)
      ]
      | catch_all ↦ ok (ci ++ path, true)
      | _ ↦ panic invalid_node_type
    ]

  unfoldable pub find_case_insensitive_path : RouterNode H → List ℕ → Outcome Folded
  unfolding fold
  find_case_insensitive_path t path = fold t path [] (record { b0 = 0; b1 = 0; b2 = 0; b3 = 0 })
