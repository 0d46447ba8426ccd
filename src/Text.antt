-- ===== src/Text.antt =====
-- The text functions of Go's standard library that the program uses, on byte strings.
pub mod Runes
pub mod Numbers
pub mod Decimal
use Prim.Native.Char.{code}
use Prim.Native.String.{String}
use gin_t.Common.{ℕ, Bool, List, [], ◌∷◌, ◌==◌, if◌then◌else◌}

abbrev pub Bytes : Type 0
Bytes = List ℕ

-- what `split_on` does with the pieces of the rest, for a byte that does not separate
abbrev onto_first : ℕ → List Bytes → List Bytes
onto_first c [] = (c ∷ []) ∷ []
onto_first c (piece ∷ pieces) = (c ∷ piece) ∷ pieces

-- strings.Split with a separator of one byte.
unfoldable pub split_on : ℕ → Bytes → List Bytes
split_on sep [] = [] ∷ []
split_on sep (c ∷ s) =
    let rest = split_on sep s in if c == sep then [] ∷ rest else onto_first c rest

-- strings.ReplaceAll(s, " ", "")
unfoldable pub without_spaces : Bytes → Bytes
without_spaces [] = []
without_spaces (c ∷ s) = let rest = without_spaces s in if c == b' ' then rest else c ∷ rest

-- strings.TrimPrefix(s, " "), under strings.HasPrefix
abbrev pub trim_space : Bytes → Bytes
trim_space [] = []
trim_space (c ∷ s) = if c == b' ' then s else c ∷ s

-- The bytes of an ASCII text.
abbrev pub codes : String → Bytes
codes String.[] = []
codes (String.◌∷◌ c s) = code c ∷ codes s
