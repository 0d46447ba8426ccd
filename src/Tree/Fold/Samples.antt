-- ===== src/Tree/Fold/Samples.antt =====
-- The case-insensitive lookup of core/tree.go on small trees.
use Prim.Native.String.{String}
use gin_t.Common.{
  inl, inr, ◌==◌, arith, ℕ, ◌≡◌, refl, Bool, true, false, none, some, List, [], ◌∷◌, length,
  list_eq, ◌+◌, ◌-◌, ◌&&◌, leb, if◌then◌else◌,
}
use gin_t.Text.{codes}
use gin_t.Text.Runes.{decode_rune}
use gin_t.Tree.Static.{IsStatic, HasRoute, StartsWith}
use gin_t.Tree.Fold.Finds.{find_case_insensitive_path-IsVariant}
use gin_t.Tree.Fold.Variant.{IsForm, IsVariant, IsCase}
use gin_t.Tree.Lookup.{get_value}
use gin_t.Tree.Add.First.{handle_of}
use gin_t.Tree.Fold.Sound.{find_case_insensitive_path-get_value}
use gin_t.Outcome.{index, ok, panic, slice_bounds}
use gin_t.Tree.Node.{RouterNode, node, nil, cons, blank, root}
use gin_t.Tree.Fold.{LetterCase, find_case_insensitive_path}

-- ASCII letters
abbrev lower : ℕ → ℕ
lower c = if leb 65 c && leb c 90 then c + 32 else c

abbrev upper : ℕ → ℕ
upper c = if leb 97 c && leb c 122 then c - 32 else c

abbrev lower_all : List ℕ → List ℕ
lower_all [] = []
lower_all (c ∷ s) = lower c ∷ lower_all s

abbrev ascii : LetterCase
ascii = record {
  equal_fold = λ s r. list_eq (lower_all s) (lower_all r);
  to_lower = lower;
  to_upper = upper;
}

-- The tree of the routes "/ab" and "/Cd".
abbrev leaf_of : String → ℕ → RouterNode ℕ
leaf_of s h = node (record blank { path = codes s; priority = 1; handle = some h }) nil

abbrev two_routes : RouterNode ℕ
two_routes =
    node (record blank { path = codes "/"; n_type = root; priority = 2; indices = codes "aC" })
      (cons (leaf_of "ab" 1) (cons (leaf_of "Cd" 2) nil))

found_upper :
    find_case_insensitive_path ascii false two_routes (codes "/cD") ≡ ok (codes "/Cd", true)
unfolding find_case_insensitive_path list_eq index decode_rune
found_upper = refl

-- A route that goes on with a slash makes the lookup report its beginning, which is no route.
abbrev slash_route : RouterNode ℕ
slash_route =
    node (record blank { path = codes "/ab"; n_type = root; priority = 2; indices = codes "/x" })
      (cons (leaf_of "/cd" 1) (cons (leaf_of "x" 2) nil))

no_route_found :
    find_case_insensitive_path ascii true slash_route (codes "/ab/") ≡ ok (codes "/ab", true)
unfolding find_case_insensitive_path list_eq index decode_rune
no_route_found = refl

empty_path_panics : find_case_insensitive_path ascii true (leaf_of "/" 1) [] ≡ panic slice_bounds
unfolding find_case_insensitive_path list_eq
empty_path_panics = refl

leaf_of-IsStatic : (s : String) (h : ℕ) → IsStatic 2 (leaf_of s h)
unfolding IsStatic
leaf_of-IsStatic s h = (
  record {
    tame = refl;
    no_param = refl;
    no_catch_all = refl;
    live = tt;
    ranked = omega arith;
    bounded = omega arith;
  },
  tt,
)

two_routes-IsStatic : IsStatic 2 two_routes
unfolding IsStatic
two_routes-IsStatic = (
  record {
    tame = refl;
    no_param = refl;
    no_catch_all = refl;
    live = tt;
    ranked = omega arith;
    bounded = omega arith;
  },
  (
    refl,
    (λ e. absurd (omega arith), tt),
    leaf_of-IsStatic "ab" 1,
    (refl, tt, leaf_of-IsStatic "Cd" 2, tt),
  ),
)

find_case_insensitive_path-get_value_example :
    (out : List ℕ) × (found : Bool) × (find_case_insensitive_path ascii false two_routes
        (codes "/cD")
      ≡ ok (out, found))
    × (found ≡ true
        → (length out ≡ length (codes "/cD"))
          × (h : ℕ) × (handle_of (get_value two_routes out none) ≡ some h))
find_case_insensitive_path-get_value_example =
    find_case_insensitive_path-get_value ascii 2 two_routes (codes "/cD") two_routes-IsStatic

lower-IsForm : (c d : ℕ) → IsForm ascii c d → (lower c == lower d) ≡ true
lower-IsForm c d (small, inl e) = ground arith
lower-IsForm c d (small, inr e) = ground arith

ascii-folds : (s r : List ℕ) → IsVariant ascii s r → list_eq (lower_all s) (lower_all r) ≡ true
unfolding list_eq
ascii-folds [] [] h = refl
ascii-folds [] (d ∷ r) h = elim h [ ]
ascii-folds (c ∷ s) [] h = elim h [ ]
ascii-folds (c ∷ s) (d ∷ r) h = rw (lower-IsForm c d h.0) (ascii-folds s r h.1)

ascii-IsCase : IsCase ascii
ascii-IsCase = record {
  folds = ascii-folds;
  lower_ascii = λ c h. ground arith;
  upper_ascii = λ c h. ground arith;
}

two_routes-HasRoute : HasRoute two_routes (codes "/Cd") 2
unfolding HasRoute
two_routes-HasRoute = inr (codes "Cd", refl, inr (inl (inl (refl, refl))))

two_routes-StartsWith : StartsWith b'/' two_routes
unfolding StartsWith
two_routes-StartsWith = refl

find_case_insensitive_path-IsVariant_example :
    (out : List ℕ) × (k : ℕ) × (find_case_insensitive_path ascii false two_routes (codes "/cD")
      ≡ ok (out, true))
    × (length out ≡ length (codes "/cD"))
    × (handle_of (get_value two_routes out none) ≡ some k)
find_case_insensitive_path-IsVariant_example =
    find_case_insensitive_path-IsVariant ascii 2 b'/' two_routes (codes "/cD") (codes "/Cd") 2
      ascii-IsCase two_routes-IsStatic two_routes-StartsWith
      ((omega arith, inl refl), ((omega arith, inr refl), ((omega arith, inl refl), tt)))
      two_routes-HasRoute
