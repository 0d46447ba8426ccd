-- ===== src/Tree/Insert.antt =====
-- wildcardNum and insertChild of core/tree.go. The full path stands only in the messages of panics,
-- which are told apart by their kind, so `insert_child` does not take it.
use gin_t.Common.{
  ℕ, zero, suc, ◌+◌, ◌-◌, Bool, true, false, ◌||◌, not, Option, List, [], ◌∷◌, length, drop, ltb,
  leb, ◌==◌, if◌then◌else◌,
}
use gin_t.Outcome.{
  Outcome, ok, panic, index_out_of_range, one_wildcard_per_segment, existing_children,
  unnamed_wildcard, catch_all_not_at_end, catch_all_conflict, no_slash_before_catch_all, ◌>>=◌,
  ◌>>◌, panic_if, index, slice, out_of_fuel,
}
use gin_t.Tree.Node.{param, catch_all, RouterNode, node, Children, nil, cons, blank}

-- ':' or '*'
abbrev pub is_wildcard : ℕ → Bool
is_wildcard c = c == b':' || c == b'*'

-- The runes ':' and '*' of a text are its bytes ':' and '*': no other rune has such a byte.
abbrev pub count_wildcards : List ℕ → ℕ
count_wildcards [] = 0
count_wildcards (c ∷ s) = if is_wildcard c then suc (count_wildcards s) else count_wildcards s

abbrev max_param_count : ℕ
max_param_count = 255

unfoldable pub wildcard_num : List ℕ → ℕ
wildcard_num path =
    let n = count_wildcards path in if leb max_param_count n then max_param_count else n

-- The loop on `end`, over the rest of the path from `end` on: the next '/' or the end of the path.
unfoldable pub find_end : List ℕ → ℕ → Outcome ℕ
find_end [] end = ok end
find_end (c ∷ s) end =
    if c == b'/'
    then ok end
    else if is_wildcard c
    then panic one_wildcard_per_segment
    else find_end s (suc end)

-- `len(n.path) > 0 && n.path[len(n.path)-1] == '/'`
abbrev ends_in_slash : List ℕ → Bool
ends_in_slash [] = false
ends_in_slash (c ∷ []) = c == b'/'
ends_in_slash (c ∷ d ∷ s) = ends_in_slash (d ∷ s)

module _ {H : Type 0} where
  abbrev pub has_children : Children H → Bool
  has_children nil = false
  has_children (cons c cs) = true

  -- The branch for '*', at the byte `i` of the path. The first child has an empty path, and its
  -- child holds the variable.
  unfoldable pub catch_all_child :
      List ℕ → Option H → ℕ → ℕ → ℕ → ℕ → RouterNode H → Outcome (RouterNode H)
  catch_all_child path handle i offset end wildcard (node n cs) = do
    panic_if (not (end == length path) || ltb 1 wildcard) catch_all_not_at_end
    panic_if (ends_in_slash n.path) catch_all_conflict
    panic_if (i == 0) index_out_of_range
    slash ← index path (i - 1)
    panic_if (not (slash == b'/')) no_slash_before_catch_all
    before ← slice offset (i - 1) path
    variable ← slice (i - 1) (length path) path
    let first = record blank { wild_child = true; n_type = catch_all; max_params = 1; priority = 1 }
    let second = record blank {
      path = variable;
      n_type = catch_all;
      max_params = 1;
      handle = handle;
      priority = 1;
    }
    let parent = record n {
      path = before;
      max_params = if ltb n.max_params 1 then 1 else n.max_params;
      indices = slash ∷ [];
    }
    ok (node parent (cons (node first (cons (node second nil) nil)) nil))

  -- The loop on `i`, over the node that is filled in; nothing is done once no wildcard is left.
  -- A round reads path[i], so that `length path + 1` rounds are enough.
  unfoldable pub insert_from :
      ℕ → List ℕ → Option H → ℕ → ℕ → ℕ → RouterNode H → Outcome (RouterNode H)
  unfolding find_end catch_all_child index slice
  insert_from fuel path handle i offset zero n = ok n
  insert_from zero path handle i offset (suc w) n = out_of_fuel
  insert_from (suc fuel) path handle i offset (suc w) (node n cs) = do
    c ← index path i
    elim (is_wildcard c) [
      | false ↦ insert_from fuel path handle (i + 1) offset (suc w) (node n cs)
      | true ↦ do
        end ← find_end (drop (i + 1) path) (i + 1)
        panic_if (has_children cs) existing_children
        panic_if (ltb (end - i) 2) unnamed_wildcard
        elim (c == b':') [
          | false ↦ catch_all_child path handle i offset end (suc w) (node n cs)
          | true ↦ do
            before ← if ltb 0 i then slice offset i path else ok n.path
            let start = if ltb 0 i then i else offset
            let parent = record n { path = before; wild_child = true }
            let child = record blank { n_type = param; max_params = suc w; priority = 1 }
            elim (ltb end (length path)) [
              | true ↦ do
                name ← slice start end path
                let next = record blank { max_params = w; priority = 1 }
                rest ← insert_from fuel path handle (i + 1) end w (node next nil)
                let named = record child { path = name }
                ok (node parent (cons (node named (cons rest nil)) nil))
              | false ↦ do
                rest ← insert_from fuel path handle (i + 1) start w (node child nil)
                ok (node parent (cons rest nil))
            ]
        ]
    ]

  unfoldable pub insert_child : ℕ → List ℕ → Option H → RouterNode H → Outcome (RouterNode H)
  unfolding insert_from
  insert_child zero path handle (node n cs) =
      ok (node (record n { path = path; handle = handle }) cs)
  insert_child (suc w) path handle n = insert_from (length path + 1) path handle 0 0 (suc w) n
