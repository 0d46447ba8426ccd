-- ===== src/Router/Dispatch.antt =====
-- What Match answers after Insert.
use gin_t.Common.{
  ℕ, suc, ◌^◌, ◌<◌, ◌≡◌, refl, Bool, Bool-cases, true, false, ◌&&◌, inl, inr, Option, none, some,
  List, [], ◌∷◌, list_eq, list_eq_iff, same_key, other_key, if◌then◌else◌,
}
use gin_t.Text.{Bytes}
use gin_t.Outcome.{Outcome, ok, panic, out_of_fuel, ◌>>=◌}
use gin_t.Tree.Node.{RouterNode, info_of}
use gin_t.Tree.Insert.{count_wildcards}
use gin_t.Tree.Lookup.{Found, get_value, is_some}
use gin_t.Tree.Static.{IsStatic, StartsWith}
use gin_t.Tree.Add.Order.{KeepsOrder}
use gin_t.Tree.Add.Correct.{IsFresh}
use gin_t.Tree.Add.First.{single, handle_of, add_route-first, get_value-single, handle_of-add_route}
use gin_t.Router.{find_tree, set_tree, insert, match, Matched}

module _ {H : Type 0} where
  -- The handlers that a request runs; none if it is not matched.
  abbrev pub handlers_of : Outcome (Bool × Matched H) → Option H
  handlers_of (ok (true, ctx)) = ctx.group
  handlers_of (ok (false, ctx)) = none
  handlers_of (panic e) = none
  handlers_of out_of_fuel = none

  pub find_tree-set_tree :
      (trees : List (Bytes × RouterNode H)) (method m : Bytes) (t : RouterNode H)
      → find_tree (set_tree trees method t) m
        ≡ (if list_eq method m then some t else find_tree trees m)
  unfolding find_tree set_tree
  find_tree-set_tree [] method m t = refl
  find_tree-set_tree ((k, old) ∷ trees) method m t = elim (Bool-cases (list_eq k method)) [
    | inl b ↦ elim (Bool-cases (list_eq k m)) [
      | inl c ↦ rw (b, c, same_key k method m b, c)
      | inr c ↦ rw (b, c, same_key k method m b, c)
    ]
    | inr b ↦ elim (Bool-cases (list_eq k m)) [
      | inl c ↦ rw (b, c, other_key k method m b c)
      | inr c ↦ rw (b, c, find_tree-set_tree trees method m t)
    ]
  ]

  -- A request's handlers are those that getValue finds in the tree of its method.
  handlers_of-match :
      (trees : List (Bytes × RouterNode H)) (m q : Bytes) (ctx : Matched H)
      → handlers_of (match trees m q ctx)
        ≡ elim (find_tree trees m) [ none ↦ none | some t ↦ handle_of (get_value t q none) ]
  unfolding match
  handlers_of-match trees m q ctx = on (find_tree trees m)
    where
      in_tree :
          (t : RouterNode H) (x : Outcome (Found H))
          → handlers_of (
              x >>= λ found. ok (
                is_some found.handle,
                record {
                  full_path = (info_of t).full_path;
                  params = found.params;
                  group = found.handle;
                },
              ))
            ≡ handle_of x
      in_tree t (panic e) = refl
      in_tree t out_of_fuel = refl
      in_tree t (ok found) = at (found.handle)
        where
          at :
              (h : Option H)
              → handlers_of (
                  ok (
                    is_some h,
                    record { full_path = (info_of t).full_path; params = found.params; group = h },
                  ))
                ≡ h
          at none = refl
          at (some h) = refl

      on :
          (o : Option (RouterNode H))
          → handlers_of (elim o [
            | none ↦ ok (false, ctx)
            | some t ↦
                (get_value t q none >>= λ found. ok (
                  is_some found.handle,
                  record {
                    full_path = (info_of t).full_path;
                    params = found.params;
                    group = found.handle;
                  },
                ))
          ])
            ≡ elim o [ none ↦ none | some t ↦ handle_of (get_value t q none) ]
      on none = refl
      on (some t) = in_tree t (get_value t q none)

-- After Insert of a path without wildcards for a method that has a tree, under the conditions of
-- `add_route-IsGrown`, a request of the method for the path gets the new handlers, and every request
-- of another path or another method gets those that it got before.
pub insert-match :
    {H : Type 0} (m : ℕ) (trees : List (Bytes × RouterNode H)) (t : RouterNode H) (method s : Bytes)
    (h : H)
    → find_tree trees method ≡ some t
    → suc m < 2 ^ 32
    → IsStatic m t
    → StartsWith b'/' t
    → count_wildcards (b'/' ∷ s) ≡ 0
    → KeepsOrder t (b'/' ∷ s)
    → IsFresh t (b'/' ∷ s)
    → (trees' : List (Bytes × RouterNode H)) × (insert method (b'/' ∷ s) (some h) trees ≡ ok trees')
      × ((k q : Bytes) (ctx : Matched H)
          → handlers_of (match trees' k q ctx) ≡ (
              if list_eq method k && list_eq q (b'/' ∷ s)
              then some h
              else handlers_of (match trees k q ctx)))
unfolding insert
insert-match {H} m trees t method s h at small st starts tame keeps fresh =
    let (t', run, law) = handle_of-add_route m t (b'/' ∷ s) h small st starts tame keeps fresh in
    (set_tree trees method t', rw (at, run), answers t' law)
  where
    answers :
        (t' : RouterNode H)
        → ((q : Bytes)
            → handle_of (get_value t' q none)
              ≡ (if list_eq q (b'/' ∷ s) then some h else handle_of (get_value t q none)))
        → (k q : Bytes) (ctx : Matched H)
        → handlers_of (match (set_tree trees method t') k q ctx) ≡ (
            if list_eq method k && list_eq q (b'/' ∷ s)
            then some h
            else handlers_of (match trees k q ctx))
    answers t' law k q ctx = elim (Bool-cases (list_eq method k)) [
      | inl b ↦
          let here : find_tree trees k ≡ some t = rw (← (list_eq_iff method k).0 b) at in
          rw
            (
              handlers_of-match (set_tree trees method t') k q ctx,
              handlers_of-match trees k q ctx,
              find_tree-set_tree trees method k t',
              b,
              here,
            )
            (law q)
      | inr b ↦ rw (
        handlers_of-match (set_tree trees method t') k q ctx,
        handlers_of-match trees k q ctx,
        find_tree-set_tree trees method k t',
        b,
      )
    ]

-- After Insert of a path without wildcards for a method that has no tree yet, a request of the method
-- for the path gets the new handlers, and every other request gets those that it got before.
pub insert-match_new :
    {H : Type 0} (trees : List (Bytes × RouterNode H)) (method s : Bytes) (h : H)
    → find_tree trees method ≡ none
    → count_wildcards (b'/' ∷ s) ≡ 0
    → (trees' : List (Bytes × RouterNode H)) × (insert method (b'/' ∷ s) (some h) trees ≡ ok trees')
      × ((k q : Bytes) (ctx : Matched H)
          → handlers_of (match trees' k q ctx) ≡ (
              if list_eq method k && list_eq q (b'/' ∷ s)
              then some h
              else handlers_of (match trees k q ctx)))
unfolding insert
insert-match_new {H} trees method s h at tame =
    (set_tree trees method t', rw (at, (add_route-first s h tame).0), answers)
  where
    t' : RouterNode H
    t' = single (b'/' ∷ s) h

    answers :
        (k q : Bytes) (ctx : Matched H)
        → handlers_of (match (set_tree trees method t') k q ctx) ≡ (
            if list_eq method k && list_eq q (b'/' ∷ s)
            then some h
            else handlers_of (match trees k q ctx))
    answers k q ctx = elim (Bool-cases (list_eq method k)) [
      | inl b ↦
          let here : find_tree trees k ≡ none = rw (← (list_eq_iff method k).0 b) at in
          rw
            (
              handlers_of-match (set_tree trees method t') k q ctx,
              handlers_of-match trees k q ctx,
              find_tree-set_tree trees method k t',
              b,
              here,
            )
            (get_value-single s h q tame)
      | inr b ↦ rw (
        handlers_of-match (set_tree trees method t') k q ctx,
        handlers_of-match trees k q ctx,
        find_tree-set_tree trees method k t',
        b,
      )
    ]
