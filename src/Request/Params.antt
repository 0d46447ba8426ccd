-- ===== src/Request/Params.antt =====
-- The parameters of a path, by name and as url.Values.
use gin_t.Common.{
  ◌≡◌, refl, sym, ap, ◌∙◌, Bool-cases, inl, inr, List, [], ◌∷◌, ◌++◌, list_eq, same_key, other_key,
  if◌then◌else◌,
}
use mathlib.Core.List.{append_assoc, append-nil}
use gin_t.Text.{Bytes}
use gin_t.Tree.Lookup.{Param}
use gin_t.Request.{UrlValues, by_name, values_at, add_value, add_params, to_url_values, first_value}

-- The values of the parameters with a key.
abbrev pub vals_of : List Param → Bytes → List Bytes
vals_of [] key = []
vals_of (p ∷ params) key =
    if list_eq p.key key then p.val ∷ vals_of params key else vals_of params key

values_at-add_value :
    (values : UrlValues) (j k v : Bytes)
    → values_at (add_value values j v) k
      ≡ values_at values k ++ (if list_eq j k then v ∷ [] else [])
unfolding values_at add_value
values_at-add_value [] j k v = elim (Bool-cases (list_eq j k)) [ inl b ↦ rw b | inr b ↦ rw b ]
values_at-add_value ((i, vs) ∷ values) j k v = elim (Bool-cases (list_eq i j)) [
  | inl b ↦ elim (Bool-cases (list_eq i k)) [
    | inl c ↦ rw (b, c, same_key i j k b, c)
    | inr c ↦ rw (b, c, same_key i j k b, c) (sym (append-nil (values_at values k)))
  ]
  | inr b ↦ elim (Bool-cases (list_eq i k)) [
    | inl c ↦ rw (b, c, other_key i j k b c) (sym (append-nil vs))
    | inr c ↦ rw (b, c) (values_at-add_value values j k v)
  ]
]

values_at-add_params :
    (params : List Param) (values : UrlValues) (k : Bytes)
    → values_at (add_params params values) k ≡ values_at values k ++ vals_of params k
unfolding add_params
values_at-add_params [] values k = sym (append-nil (values_at values k))
values_at-add_params (p ∷ params) values k =
    values_at-add_params params (add_value values p.key p.val) k
    ∙ ap (λ r. r ++ vals_of params k) (values_at-add_value values p.key k p.val)
    ∙ append_assoc (values_at values k) (if list_eq p.key k then p.val ∷ [] else [])
        (vals_of params k)
    ∙ ap (λ r. values_at values k ++ r) joined
  where
    joined :
        (if list_eq p.key k then p.val ∷ [] else []) ++ vals_of params k ≡ vals_of (p ∷ params) k
    joined = elim (Bool-cases (list_eq p.key k)) [ inl b ↦ rw b | inr b ↦ rw b ]

by_name-vals_of :
    (params : List Param) (k : Bytes) → by_name params k ≡ first_value (vals_of params k)
unfolding by_name
by_name-vals_of [] k = refl
by_name-vals_of (p ∷ params) k = elim (Bool-cases (list_eq p.key k)) [
  | inl b ↦ rw b
  | inr b ↦ rw b (by_name-vals_of params k)
]

-- ToURLValues has under each key the values of the parameters with that key, in their order, and the
-- first of them, or the empty text, is what Params.Get returns.
to_url_values-by_name :
    (params : List Param) (k : Bytes)
    → (values_at (to_url_values params) k ≡ vals_of params k)
      × (by_name params k ≡ first_value (values_at (to_url_values params) k))
unfolding to_url_values values_at
to_url_values-by_name params k =
    let all : values_at (to_url_values params) k ≡ vals_of params k =
      values_at-add_params params [] k in
    (all, by_name-vals_of params k ∙ ap first_value (sym all))
