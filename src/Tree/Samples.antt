-- ===== src/Tree/Samples.antt =====
-- Small trees, what core/tree.go does with them, and the theorems at work on them.
use Prim.Native.String.{String}
use gin_t.Common.{
  ℕ, ◌≡◌, refl, sym, ap, inl, inr, false, none, some, List, [], ◌∷◌, ◌++◌, arith, if◌then◌else◌,
  list_eq, append-cancel, head_or, rest_of,
}
use mathlib.Core.Path.{subst}
use gin_t.Text.{codes}
use gin_t.Outcome.{Outcome, ok, panic, index_out_of_range, slice_bounds, ◌>>=◌}
use gin_t.Tree.Node.{Info, RouterNode, node, Children, nil, cons, blank, root}
use gin_t.Tree.Priority.{bubble, increment_child_prio}
use gin_t.Tree.Priority.Move.{IsMoved, increment_child_prio-IsMoved}
use gin_t.Tree.Insert.{insert_child}
use gin_t.Tree.Walk.{add_route, walk, walk_step, insert_new}
use gin_t.Tree.Lookup.{Found, get_value}
use gin_t.Tree.Lookup.Correct.{IsExact, get_value-IsExact}
use gin_t.Tree.Static.{IsStatic, HasRoute, HasRouteIn, StartsWith}
use gin_t.Tree.Add.Order.{KeepsOrder, KeepsOrderIn}
use gin_t.Tree.Add.Grown.{IsGrown}
use gin_t.Tree.Add.Correct.{IsFresh, add_route-IsGrown}
use gin_t.Tree.Add.Refusal.{Panics, add_route-prefix_Panics}
use gin_t.Tree.Add.First.{handle_of, get_value-add_route}

abbrev add_all : List (String × ℕ) → RouterNode ℕ → Outcome (RouterNode ℕ)
add_all [] t = ok t
add_all ((p, h) ∷ rest) t = do t' ← add_route (codes p) (some h) t; add_all rest t'

abbrev get_route : List (String × ℕ) → String → Outcome (Found ℕ)
get_route routes p = do t ← add_all routes (node blank nil); get_value t (codes p) none

found_a : handle_of (get_route (("/a", 1) ∷ ("/b", 2) ∷ []) "/a") ≡ some 1
unfolding add_route insert_child walk walk_step insert_new increment_child_prio bubble get_value
    list_eq
found_a = refl

-- The third route moves the child "b" to the front, and `indices` becomes "baab".
lost_a : handle_of (get_route (("/a", 1) ∷ ("/b", 2) ∷ ("/bc", 3) ∷ []) "/a") ≡ none
unfolding add_route insert_child walk walk_step insert_new increment_child_prio bubble get_value
    list_eq
lost_a = refl

refused_prefix : get_route (("/ab", 1) ∷ ("/a", 2) ∷ []) "/a" ≡ panic index_out_of_range
unfolding add_route insert_child walk walk_step insert_new increment_child_prio bubble get_value
    list_eq
refused_prefix = refl

-- The node of the parameter has an empty path, from which the lookup cuts the first byte.
param_panics : get_route (("/user/:id", 1) ∷ []) "/user/42" ≡ panic slice_bounds
unfolding add_route insert_child walk walk_step insert_new increment_child_prio bubble get_value
    list_eq
param_panics = refl

catch_all_found :
    get_route (("/static/*file", 1) ∷ []) "/static/x/y"
    ≡ ok record {
      handle = some 1;
      params = some (record { key = codes "file"; val = codes "/x/y" } ∷ []);
      tsr = false;
    }
unfolding add_route insert_child walk walk_step insert_new increment_child_prio bubble get_value
    list_eq
catch_all_found = refl

-- The tree of the routes "/ab" and "/c".
abbrev leaf_of : String → ℕ → ℕ → RouterNode ℕ
leaf_of s prio h = node (record blank { path = codes s; priority = prio; handle = some h }) nil

abbrev two_routes_info : Info ℕ
two_routes_info = record blank {
  path = codes "/";
  n_type = root;
  priority = 2;
  indices = codes "ac";
}

abbrev two_children : Children ℕ
two_children = cons (leaf_of "ab" 1 1) (cons (leaf_of "c" 1 2) nil)

abbrev two_routes : RouterNode ℕ
two_routes = node two_routes_info two_children

leaf_of-IsStatic : (s : String) (h : ℕ) → IsStatic 2 (leaf_of s 1 h)
unfolding IsStatic
leaf_of-IsStatic s h = (
  record {
    tame = refl;
    no_param = refl;
    no_catch_all = refl;
    live = tt;
    ranked = omega arith;
    bounded = omega arith;
  },
  tt,
)

two_routes-IsStatic : IsStatic 2 two_routes
unfolding IsStatic
two_routes-IsStatic = (
  record {
    tame = refl;
    no_param = refl;
    no_catch_all = refl;
    live = tt;
    ranked = omega arith;
    bounded = omega arith;
  },
  (
    refl,
    (λ e. absurd (omega arith), tt),
    leaf_of-IsStatic "ab" 1,
    (refl, tt, leaf_of-IsStatic "c" 2, tt),
  ),
)

two_routes-StartsWith : StartsWith b'/' two_routes
unfolding StartsWith
two_routes-StartsWith = refl

two_routes-KeepsOrder : KeepsOrder two_routes (codes "/ax")
unfolding KeepsOrder StartsWith
two_routes-KeepsOrder q e =
    subst (λ x. KeepsOrderIn none two_children x) (append-cancel (codes "/") (codes "ax") q e)
      (λ _. (tt, λ q' e'. tt), (λ m. absurd (omega arith), tt))

-- The byte behind the first one of a text.
abbrev second : List ℕ → ℕ
second s = head_or (rest_of s)

second_byte : {s : List ℕ} → codes "ax" ++ s ≡ codes "ab" → ⊥
second_byte e = omega (arith, ap second e)

first_byte : {s : List ℕ} → codes "ax" ++ s ≡ codes "c" → ⊥
first_byte e = omega (arith, ap head_or e)

two_routes-IsFresh : IsFresh two_routes (codes "/ax")
unfolding HasRoute
two_routes-IsFresh q h (inl (e, e')) = cc
two_routes-IsFresh q h (inr (r, e, below)) =
    elim (subst (λ x. HasRouteIn two_children x h)
      (sym (append-cancel (codes "/") (codes "ax" ++ q) r e)) below) [
        | inl (inl (e', _)) ↦ absurd (second_byte e')
        | inl (inr (s, e', deep)) ↦ elim deep [ ]
        | inr (inl (inl (e', _))) ↦ absurd (first_byte e')
        | inr (inl (inr (s, e', deep))) ↦ elim deep [ ]
        | inr (inr none_left) ↦ elim none_left [ ]
      ]

add_route-IsGrown_example :
    (t' : RouterNode ℕ) × (add_route (codes "/ax") (some 3) two_routes ≡ ok t')
    × IsGrown 2 two_routes (codes "/ax") 3 t'
add_route-IsGrown_example =
    add_route-IsGrown 2 two_routes (codes "/ax") 3 (omega arith) two_routes-IsStatic
      two_routes-StartsWith refl two_routes-KeepsOrder two_routes-IsFresh

get_value-add_route_example :
    (t' : RouterNode ℕ) × (add_route (codes "/ax") (some 3) two_routes ≡ ok t')
    × ((q : List ℕ)
        → (old new : Found ℕ) × (get_value two_routes q none ≡ ok old)
          × (get_value t' q none ≡ ok new)
          × (new.handle ≡ (if list_eq q (codes "/ax") then some 3 else old.handle))
          × (old.params ≡ none)
          × (new.params ≡ none))
get_value-add_route_example =
    get_value-add_route 2 two_routes (codes "/ax") 3 (omega arith) two_routes-IsStatic
      two_routes-StartsWith refl two_routes-KeepsOrder two_routes-IsFresh

get_value-IsExact_example :
    IsExact (get_value two_routes (codes "/ab") none) none (HasRoute two_routes (codes "/ab"))
get_value-IsExact_example = get_value-IsExact 2 two_routes (codes "/ab") none two_routes-IsStatic

two_routes-HasRoute : HasRoute two_routes (codes "/ab") 1
unfolding HasRoute
two_routes-HasRoute = inr (codes "ab", refl, inl (inl (refl, refl)))

add_route-prefix_Panics_example : Panics (add_route (codes "/a") (some 3) two_routes)
add_route-prefix_Panics_example =
    add_route-prefix_Panics 2 two_routes (codes "/a") (codes "b") 1 (some 3) two_routes-IsStatic
      two_routes-StartsWith two_routes-HasRoute

increment_child_prio-IsMoved_example :
    (n' : Info ℕ) × (cs' : Children ℕ) × (j : ℕ) × (increment_child_prio two_routes 1
      ≡ ok (node n' cs', j))
    × IsMoved two_routes_info two_children 1 (leaf_of "c" 1 2) n' cs' j
increment_child_prio-IsMoved_example =
    increment_child_prio-IsMoved two_routes_info two_children 1 (leaf_of "c" 1 2) refl (omega arith)
