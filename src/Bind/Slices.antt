-- ===== src/Bind/Slices.antt =====
-- A slice is bound whole, or not at all.
use gin_t.Common.{◌≡◌, refl, ◌⊎◌, inl, inr, Bool-cases, List, [], ◌∷◌}
use gin_t.Text.{Bytes}
use gin_t.Text.Numbers.{Parsed, parsed, unparsed}
use gin_t.Validators.Field.{Platform, Value, text, signed, unsigned, floating, boolean, other}
use gin_t.Bind.Slot.{Host, BindError, done, failed, Binding, number, json, unknown_type}
use gin_t.Bind.Single.{bind_single, bind_array, bind_slice, zeros, set_parsed}

module _ {P : Platform} (h : Host P) where
  -- Each value is what the text at its place makes of an empty element.
  abbrev pub AllBound : Value P → List Bytes → List (Value P) → Type 0
  AllBound empty [] [] = Unit
  AllBound empty (s ∷ texts) (v ∷ values) =
      (bind_single h empty s ≡ (v, done)) × AllBound empty texts values
  AllBound empty texts values = ⊥

  -- No single value makes binding panic.
  Settles : {A : Type 0} → Binding A → Type 0
  Settles {A} b = ((a : A) × (b ≡ (a, done))) ⊎ ((a : A) × (e : BindError) × (b ≡ (a, failed e)))

  set_parsed-Settles :
      {A B : Type 0} (x : Parsed A) (set : A → B) (old : B) → Settles (set_parsed x set old)
  unfolding Settles
  set_parsed-Settles (parsed a) set old = inl (set a, refl)
  set_parsed-Settles (unparsed e) set old = inr (old, number e, refl)

  bind_single-Settles : (v : Value P) (s : Bytes) → Settles (bind_single h v s)
  unfolding bind_single Settles
  bind_single-Settles (text old) s = inl (text s, refl)
  bind_single-Settles (signed w old) s = set_parsed-Settles _ (signed w) (signed w old)
  bind_single-Settles (unsigned w old) s = set_parsed-Settles _ (unsigned w) (unsigned w old)
  bind_single-Settles (floating w old) s = set_parsed-Settles _ (floating w) (floating w old)
  bind_single-Settles (boolean old) s = set_parsed-Settles _ boolean (boolean old)
  bind_single-Settles (other o) s = elim (Bool-cases (h.takes_json o)) [
    | inr b ↦ rw b (inr (other o, unknown_type, refl))
    | inl b ↦ elim (Bool-cases (h.unmarshal s o).1) [
      | inl c ↦ rw (b, c) (inl (other (h.unmarshal s o).0, refl))
      | inr c ↦ rw (b, c) (inr (other (h.unmarshal s o).0, json, refl))
    ]
  ]

  AllOrError : Value P → List Bytes → Binding (List (Value P)) → Type 0
  AllOrError empty texts b =
      ((values : List (Value P)) × (b ≡ (values, done)) × AllBound empty texts values)
      ⊎ ((values : List (Value P)) × (e : BindError) × (b ≡ (values, failed e)))

  bind_array-AllOrError :
      (empty : Value P) (texts : List Bytes)
      → AllOrError empty texts (bind_array h (zeros h empty texts) texts)
  unfolding bind_array AllOrError Settles
  bind_array-AllOrError empty [] = inl ([], refl, tt)
  bind_array-AllOrError empty (s ∷ texts) = elim (bind_single-Settles empty s) [
    | inr (v, e, stopped) ↦ inr (v ∷ zeros h empty texts, e, rw stopped)
    | inl (v, fine) ↦ elim (bind_array-AllOrError empty texts) [
      | inl (values, rest, all) ↦ inl (v ∷ values, rw (fine, rest), (fine, all))
      | inr (values, e, rest) ↦ inr (v ∷ values, e, rw (fine, rest))
    ]
  ]

  -- bindSlice never panics. Either each text fits the type of the elements, and the slice becomes
  -- the values of the texts, in their order; or there is an error, and the slice is left as it was.
  pub bind_slice-AllBound :
      (empty : Value P) (old : List (Value P)) (texts : List Bytes)
      → ((values : List (Value P)) × (bind_slice h empty old texts ≡ (values, done))
          × AllBound empty texts values)
        ⊎ ((e : BindError) × (bind_slice h empty old texts ≡ (old, failed e)))
  unfolding bind_slice AllOrError
  bind_slice-AllBound empty old texts = elim (bind_array-AllOrError empty texts) [
    | inl (values, e, all) ↦ inl (values, rw e, all)
    | inr (values, c, e) ↦ inr (c, rw e)
  ]
