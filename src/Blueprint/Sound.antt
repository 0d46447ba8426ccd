-- ===== src/Blueprint/Sound.antt =====
-- When the slices of a blueprint's map of routes lie in their arrays.
use gin_t.Common.{List, [], ◌∷◌}
use gin_t.Text.{Bytes}
use gin_t.Blueprint.Append.{IsSlice}
use gin_t.Blueprint.Store.{HandleNode}

module _ {A : Type 0} where
  abbrev pub AllSlices : List (List A) → List HandleNode → Type 0
  AllSlices arrays [] = Unit
  AllSlices arrays (node ∷ nodes) = IsSlice arrays node.handles × AllSlices arrays nodes

  abbrev pub AllNodes : List (List A) → List (Bytes × List HandleNode) → Type 0
  AllNodes arrays [] = Unit
  AllNodes arrays ((m, nodes) ∷ tree) = AllSlices arrays nodes × AllNodes arrays tree
