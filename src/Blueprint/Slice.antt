-- ===== src/Blueprint/Slice.antt =====
-- Go slices of handlers. Slices share arrays: an append that fits the capacity writes into the array
-- of the slice, and another slice of that array sees it. How far the runtime grows an array that is
-- full is a parameter, `grow`, from the old capacity and the length that is needed.
use gin_t.Common.{
  ℕ, zero, suc, ◌+◌, ◌-◌, Option, none, some, List, [], ◌∷◌, ◌++◌, length, take, drop, leb,
  get_elem?, if◌then◌else◌,
}

pub record Slice : Type 0 where
  pub array : ℕ
  pub len : ℕ
  pub cap : ℕ

-- The zero value.
abbrev pub nil_slice : Slice
nil_slice = record { array = 0; len = 0; cap = 0 }

abbrev pub set_at {ℓ} : {A : Type ℓ} → List A → ℕ → A → List A
set_at [] k a = []
set_at (x ∷ xs) zero a = a ∷ xs
set_at (x ∷ xs) (suc k) a = x ∷ set_at xs k a

module _ {A : Type 0} where
  abbrev or_empty : Option (List A) → List A
  or_empty none = []
  or_empty (some xs) = xs

  -- the writes of an append, from a place on
  abbrev pub overwrite : ℕ → List A → List A → List A
  overwrite at new xs = take at xs ++ (new ++ drop (at + length new) xs)

  abbrev pub padding : ℕ → A → List A
  padding zero a = []
  padding (suc n) a = a ∷ padding n a

  abbrev pub array_at : List (List A) → ℕ → List A
  array_at arrays k = or_empty (get_elem? arrays k)

  unfoldable pub contents : List (List A) → Slice → List A
  contents arrays s = take s.len (array_at arrays s.array)

  -- append(s, new...); the elements behind the length are `empty` in a new array
  unfoldable pub append_slice :
      (ℕ → ℕ → ℕ) → A → List (List A) → Slice → List A → List (List A) × Slice
  append_slice grow empty arrays s [] = (arrays, s)
  append_slice grow empty arrays s (a ∷ new) =
      let need = s.len + length (a ∷ new) in
      if leb need s.cap
      then (
        set_at arrays s.array (overwrite s.len (a ∷ new) (array_at arrays s.array)),
        record s { len = need },
      )
      else (
        arrays
            ++ (take s.len (array_at arrays s.array)
                ++ ((a ∷ new) ++ padding (grow s.cap need - need) empty))
              ∷ [],
        record { array = length arrays; len = need; cap = grow s.cap need },
      )
