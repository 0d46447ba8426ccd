-- ===== src/Context/Items.antt =====
-- SetValue and GetValue of core/context.go: what handlers leave in a context for one another.
use gin_t.Common.{
  ℕ, ◌≡◌, refl, Bool-cases, Option-cases, inl, inr, some, List, [], ◌∷◌, list_eq, same_key,
  other_key, if◌then◌else◌,
}
use gin_t.Text.{Bytes}
use gin_t.Outcome.{ok}
use gin_t.Context.{
  Context, set_value, perform, set_item, get_item, assign_item, get_value, set_value_of, with_value,
}

get_item-set_item :
    (items : List (Bytes × ℕ)) (key k : Bytes) (val : ℕ)
    → get_item (set_item items key val) k ≡ (if list_eq key k then some val else get_item items k)
unfolding get_item set_item
get_item-set_item [] key k val = refl
get_item-set_item ((j, old) ∷ items) key k val = elim (Bool-cases (list_eq j key)) [
  | inl b ↦ elim (Bool-cases (list_eq j k)) [
    | inl c ↦ rw (b, c, same_key j key k b, c)
    | inr c ↦ rw (b, c, same_key j key k b, c)
  ]
  | inr b ↦ elim (Bool-cases (list_eq j k)) [
    | inl c ↦ rw (b, c, other_key j key k b c)
    | inr c ↦ rw (b, c, get_item-set_item items key k val)
  ]
]

-- The action of a handler is SetValue.
set_value_of-perform :
    (key : Bytes) (val : ℕ) (c : Context)
    → set_value_of key val c ≡ ok (perform (set_value key val) c)
unfolding set_value_of assign_item perform
set_value_of-perform key val c = elim (Option-cases c.items) [
  | inl e ↦ rw e
  | inr (items, e) ↦ rw e
]

-- SetValue returns, also where the map is still nil, and changes nothing but the map. Then GetValue
-- of the key returns the value, and GetValue of another key what it returned before.
pub get_value-set_value_of :
    (c : Context) (key : Bytes) (val : ℕ)
    → (c' : Context) × (set_value_of key val c ≡ ok c')
      × (c' ≡ record c { items = c'.items })
      × ((k : Bytes) → get_value k c' ≡ (if list_eq key k then some val else get_value k c))
unfolding get_value perform
get_value-set_value_of c key val = (
  with_value key val c,
  set_value_of-perform key val c,
  refl,
  λ k. elim (Option-cases c.items) [
    | inl e ↦ rw (e, get_item-set_item [] key k val) refl
    | inr (items, e) ↦ rw (e, get_item-set_item items key k val) refl
  ],
)
