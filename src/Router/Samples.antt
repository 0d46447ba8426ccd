-- ===== src/Router/Samples.antt =====
-- A router of two methods, and the theorems at work on it.
use gin_t.Common.{
  ℕ, ◌≡◌, ap, ◌++◌, head_or, rest_of, refl, ◌&&◌, some, List, [], ◌∷◌, list_eq, if◌then◌else◌,
  arith,
}
use gin_t.Text.{Bytes, codes}
use gin_t.Outcome.{ok}
use gin_t.Tree.Node.{RouterNode}
use gin_t.Tree.Add.Order.{KeepsOrder}
use gin_t.Tree.Add.Correct.{IsFresh}
use gin_t.Tree.Add.First.{single, add_route-first}
use gin_t.Router.{insert, match, Matched, find_tree}
use gin_t.Router.Dispatch.{handlers_of, insert-match}

abbrev trees : List (Bytes × RouterNode ℕ)
trees = (codes "GET", single (codes "/ab") 1) ∷ []

get_tree : find_tree trees (codes "GET") ≡ some (single (codes "/ab") 1)
unfolding find_tree list_eq
get_tree = refl

single-KeepsOrder : KeepsOrder (single {H = ℕ} (codes "/ab") 1) (codes "/x")
unfolding KeepsOrder
single-KeepsOrder q e = tt

single-IsFresh : IsFresh (single {H = ℕ} (codes "/ab") 1) (codes "/x")
single-IsFresh q k route =
    let here : (codes "/x" ++ q) ≡ codes "/ab" =
      (((add_route-first (codes "ab") 1 refl).3 (codes "/x" ++ q) k).0 route).0 in
    omega (arith, ap (λ s. head_or (rest_of s)) here)

insert-match_example :
    (trees' : List (Bytes × RouterNode ℕ)) × (insert (codes "GET") (codes "/x") (some 2) trees
      ≡ ok trees')
    × ((k q : Bytes) (ctx : Matched ℕ)
        → handlers_of (match trees' k q ctx) ≡ (
            if list_eq (codes "GET") k && list_eq q (codes "/x")
            then some 2
            else handlers_of (match trees k q ctx)))
insert-match_example =
    insert-match 1 trees (single (codes "/ab") 1) (codes "GET") (codes "x") 2 get_tree (omega arith)
      (add_route-first (codes "ab") 1 refl).1 (add_route-first (codes "ab") 1 refl).2 refl
      single-KeepsOrder single-IsFresh
