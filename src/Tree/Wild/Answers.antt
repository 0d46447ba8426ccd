-- ===== src/Tree/Wild/Answers.antt =====
-- What getValue answers in the tree of a first route that ends in a catch-all.
use gin_t.Common.{
  ℕ, suc, ◌-◌, ◌<◌, ◌≡◌, refl, ◌∙◌, true, false, none, some, List, [], ◌∷◌, ◌++◌, arith, length,
  ◌==◌, take-length, ==_iff, Bool-cases, inl, inr, prefix_cases, same, longer, apart,
}
use gin_t.Outcome.{ok, slice}
use gin_t.Tree.Node.{RouterNode, node, Children, nil, cons, blank}
use gin_t.Tree.Insert.{count_wildcards}
use gin_t.Tree.Walk.{add_route, index_of}
use gin_t.Tree.Lookup.{
  not_found, get_value, wild_value, child_value, save_param, end_value, no_value,
}
use gin_t.Tree.Lookup.Rounds.{
  get_value_same, get_value_longer, get_value_wild, get_value_apart, below,
}
use gin_t.Tree.Add.First.{handle_of}
use gin_t.Tree.Wild.Skip.{IsName}
use gin_t.Tree.Wild.CatchAll.{first_of, second_of, top_of, catch_all_tree, add_route-catch_all}

-- A lookup finds `h` behind `pre` and a '/', with the rest of the path from that '/' on as the
-- parameter `name`; `pre` itself has no handle, but is redirected; no other path has a handle.
pub record IsCatchAll {H : Type 0} (t : RouterNode H) (pre name : List ℕ) (h : H) : Type 0 where
  pub behind :
      (r : List ℕ)
      → get_value t (pre ++ b'/' ∷ r) none
        ≡ ok record {
          handle = some h;
          params = some (record { key = name; val = b'/' ∷ r } ∷ []);
          tsr = false;
        }
  pub alone : get_value t pre none ≡ ok (not_found none true)
  pub others :
      (q : List ℕ)
      → ((r : List ℕ) → q ≡ pre ++ b'/' ∷ r → ⊥)
      → handle_of (get_value t q none) ≡ none

module _ {H : Type 0} (pre name : List ℕ) (h : H) where
  second_value :
      (r : List ℕ)
      → wild_value (cons (node (second_of name h) nil) nil) (b'/' ∷ r) none
        ≡ ok record {
          handle = some h;
          params = some (record { key = name; val = b'/' ∷ r } ∷ []);
          tsr = false;
        }
  unfolding wild_value save_param slice
  second_value r =
      let less : suc (suc (length name)) - 2 ≡ length name = omega arith in
      rw (less, take-length name) ground arith

  first_value :
      (r : List ℕ)
      → get_value (node first_of (cons (node (second_of name h) nil) nil)) (b'/' ∷ r) none
        ≡ wild_value (cons (node (second_of name h) nil) nil) (b'/' ∷ r) none
  first_value r = get_value_wild first_of (cons (node (second_of name h) nil) nil) none b'/' r refl

  abbrev top_children : Children H
  top_children = cons (node first_of (cons (node (second_of name h) nil) nil)) nil

  catch_all-behind :
      (c : ℕ) (r : List ℕ)
      → get_value (catch_all_tree pre name h) (pre ++ c ∷ r) none
        ≡ below (top_of pre name) top_children none (index_of c (b'/' ∷ []) 0) (c ∷ r)
  catch_all-behind c r = get_value_longer (top_of pre name) top_children none c r refl

  catch_all-found :
      (r : List ℕ)
      → get_value (catch_all_tree pre name h) (pre ++ b'/' ∷ r) none
        ≡ ok record {
          handle = some h;
          params = some (record { key = name; val = b'/' ∷ r } ∷ []);
          tsr = false;
        }
  unfolding child_value index_of
  catch_all-found r = catch_all-behind b'/' r ∙ first_value r ∙ second_value r

  catch_all-alone : get_value (catch_all_tree pre name h) pre none ≡ ok (not_found none true)
  unfolding end_value index_of
  catch_all-alone = get_value_same (top_of pre name) top_children none ∙ ground arith

  catch_all-others :
      (q : List ℕ)
      → ((r : List ℕ) → q ≡ pre ++ b'/' ∷ r → ⊥)
      → handle_of (get_value (catch_all_tree pre name h) q none) ≡ none
  unfolding index_of no_value
  catch_all-others q other = elim (prefix_cases pre q) [
    | same e ↦ rw (e, catch_all-alone) refl
    | longer c r e ↦ elim (Bool-cases (c == b'/')) [
      | inl slash ↦ absurd (other r (rw (← (==_iff c b'/').0 slash) e))
      | inr b ↦ rw (e, catch_all-behind c r, b) refl
    ]
    | apart out ↦ rw (get_value_apart (top_of pre name) top_children none q out) refl
  ]

-- The first route of a tree, if it ends in "/*" and a name, and has no other wildcard, is taken by
-- addRoute, and getValue answers by it as `IsCatchAll` says.
pub add_route-IsCatchAll :
    {H : Type 0} (pre name : List ℕ) (h : H)
    → count_wildcards pre ≡ 0
    → IsName name
    → 0 < length name
    → (t : RouterNode H) × (add_route (pre ++ b'/' ∷ b'*' ∷ name) (some h) (node blank nil) ≡ ok t)
      × IsCatchAll t pre name h
add_route-IsCatchAll pre name h tame is_name named = (
  catch_all_tree pre name h,
  add_route-catch_all pre name h tame is_name named,
  record {
    behind = catch_all-found pre name h;
    alone = catch_all-alone pre name h;
    others = catch_all-others pre name h;
  },
)
