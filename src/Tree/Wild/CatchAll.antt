-- ===== src/Tree/Wild/CatchAll.antt =====
-- A route that ends in a catch-all, as the first route of a tree.
use gin_t.Common.{
  ℕ, suc, ◌+◌, ◌-◌, ◌<◌, ◌≡◌, refl, sym, ap, ◌∙◌, true, some, List, [], ◌∷◌, ◌++◌, arith, length,
  drop, take, length-append, drop-length_append, take-length_append, take-length,
}
use mathlib.Core.List.{append_assoc}
use gin_t.Outcome.{ok, index, slice}
use gin_t.Tree.Node.{Info, RouterNode, node, nil, cons, blank, static, root, catch_all}
use gin_t.Tree.Insert.{
  count_wildcards, wildcard_num, find_end, insert_from, insert_child, catch_all_child,
}
use gin_t.Tree.Walk.{add_route}
use gin_t.Tree.Wild.Skip.{IsName, find_end-IsName, drop_head, count-tame, insert_from-skip}

-- What the first route with a catch-all becomes.
abbrev pub first_of : {H : Type 0} → Info H
first_of = record blank { wild_child = true; n_type = catch_all; max_params = 1; priority = 1 }

abbrev pub second_of : {H : Type 0} → List ℕ → H → Info H
second_of name h = record blank {
  path = b'/' ∷ b'*' ∷ name;
  n_type = catch_all;
  max_params = 1;
  handle = some h;
  priority = 1;
}

abbrev catch_all_path : List ℕ → List ℕ → List ℕ
catch_all_path pre name = pre ++ b'/' ∷ b'*' ∷ name

abbrev pub top_of : {H : Type 0} → List ℕ → List ℕ → Info H
top_of pre name = record blank {
  full_path = catch_all_path pre name;
  path = pre;
  n_type = root;
  max_params = 1;
  priority = 1;
  indices = b'/' ∷ [];
}

abbrev pub catch_all_tree : {H : Type 0} → List ℕ → List ℕ → H → RouterNode H
catch_all_tree pre name h =
    node (top_of pre name) (cons (node first_of (cons (node (second_of name h) nil) nil)) nil)

module _ {H : Type 0} (pre name : List ℕ) (h : H) (ok_name : IsName name)
    (named : 0 < length name) where
  abbrev start : Info H
  start = record blank { full_path = catch_all_path pre name; priority = 1 }

  insert_at :
      (fuel : ℕ)
      → insert_from
          (suc fuel)
          (catch_all_path pre name)
          (some h)
          (length pre + 1)
          0
          1
          (node start nil)
        ≡ ok (
            node
              (record (top_of pre name) { n_type = static })
              (cons (node first_of (cons (node (second_of name h) nil) nil)) nil))
  unfolding insert_from catch_all_child slice
  insert_at fuel =
      rw star (rw (end, total, e1, e2, slash) (rw (behind, e3, variable, e0, before) ground arith))
    where
      behind : drop (length pre) (catch_all_path pre name) ≡ b'/' ∷ b'*' ∷ name
      behind = drop-length_append pre (b'/' ∷ b'*' ∷ name)

      next : length pre + 1 ≡ suc (length pre)
      next = omega arith

      slash : index (catch_all_path pre name) (length pre) ≡ ok b'/'
      slash = (drop_head (catch_all_path pre name) (length pre) b'/' (b'*' ∷ name) behind).0

      behind' : drop (suc (length pre)) (catch_all_path pre name) ≡ b'*' ∷ name
      behind' = (drop_head (catch_all_path pre name) (length pre) b'/' (b'*' ∷ name) behind).1

      star : index (catch_all_path pre name) (length pre + 1) ≡ ok b'*'
      star = rw next ((drop_head (catch_all_path pre name) (suc (length pre)) b'*' name behind').0)

      rest : drop (length pre + 1 + 1) (catch_all_path pre name) ≡ name
      rest =
          let e : length pre + 1 + 1 ≡ suc (suc (length pre)) = omega arith in
          rw e ((drop_head (catch_all_path pre name) (suc (length pre)) b'*' name behind').1)

      total : length (catch_all_path pre name) ≡ length pre + 2 + length name
      total = ground (arith, length-append pre (b'/' ∷ b'*' ∷ name))

      e0 : length pre - 0 ≡ length pre
      e0 = omega arith

      e1 : length pre + 1 - 1 ≡ length pre
      e1 = omega arith

      e2 : length pre + 2 + length name - (length pre + 1) ≡ length name + 1
      e2 = omega arith

      e3 : length pre + 2 + length name - length pre ≡ length (b'/' ∷ b'*' ∷ name)
      e3 = ground arith

      before : take (length pre) (catch_all_path pre name) ≡ pre
      before = take-length_append pre (b'/' ∷ b'*' ∷ name)

      variable : take (length (b'/' ∷ b'*' ∷ name)) (b'/' ∷ b'*' ∷ name) ≡ b'/' ∷ b'*' ∷ name
      variable = take-length (b'/' ∷ b'*' ∷ name)

      end :
          find_end (drop (length pre + 1 + 1) (catch_all_path pre name)) (length pre + 1 + 1)
          ≡ ok (length pre + 2 + length name)
      end = rw rest (find_end-IsName name (length pre + 1 + 1) ok_name ∙ ap ok (omega arith))

count-append : (s r : List ℕ) → count_wildcards s ≡ 0 → count_wildcards (s ++ r) ≡ count_wildcards r
count-append [] r e = refl
count-append (c ∷ s) r e = let (plain, tame) = count-tame c s e in rw plain (count-append s r tame)

count-IsName : (s : List ℕ) → IsName s → count_wildcards s ≡ 0
count-IsName [] h = refl
count-IsName (c ∷ s) h = rw h.1 (count-IsName s h.2)

wildcard_num-catch_all :
    (pre name : List ℕ)
    → count_wildcards pre ≡ 0
    → IsName name
    → wildcard_num (catch_all_path pre name) ≡ 1
unfolding wildcard_num
wildcard_num-catch_all pre name tame named =
    let e = count-append pre (b'/' ∷ b'*' ∷ name) tame in
    let e' = count-IsName name named in ground (arith, e, e')

pub add_route-catch_all :
    {H : Type 0} (pre name : List ℕ) (h : H)
    → count_wildcards pre ≡ 0
    → IsName name
    → 0 < length name
    → add_route (catch_all_path pre name) (some h) (node blank nil) ≡ ok (catch_all_tree pre name h)
unfolding add_route insert_child
add_route-catch_all {H} pre name h tame is_name named =
    rw
      (
        wildcard_num-catch_all pre name tame is_name,
        skip,
        insert_at pre name h is_name named (length name + 1),
      )
      refl
  where
    path : List ℕ
    path = catch_all_path pre name

    split : path ≡ (pre ++ b'/' ∷ []) ++ b'*' ∷ name
    split = sym (append_assoc pre (b'/' ∷ []) (b'*' ∷ name))

    size : length path + 1 ≡ length (pre ++ b'/' ∷ []) + suc (length name + 1)
    size = ground (arith, length-append pre (b'/' ∷ []), length-append pre (b'/' ∷ b'*' ∷ name))

    skip :
        insert_from
          (length path + 1)
          path
          (some h)
          0
          0
          1
          (node (record blank { full_path = path; priority = 1 }) nil)
        ≡ insert_from
            (suc (length name + 1))
            path
            (some h)
            (length pre + 1)
            0
            1
            (node (record blank { full_path = path; priority = 1 }) nil)
    skip =
        insert_from-skip path (some h) 0 0 (record blank { full_path = path; priority = 1 })
          (pre ++ b'/' ∷ []) (b'*' ∷ name) (suc (length name + 1)) 0 (length path + 1)
          (length pre + 1) split (count-append pre (b'/' ∷ []) tame) size
          (ground (arith, length-append pre (b'/' ∷ [])))
