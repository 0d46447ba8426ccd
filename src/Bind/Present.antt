-- ===== src/Bind/Present.antt =====
-- bindFile for files that are all there.
use gin_t.Common.{
  ℕ, zero, suc, ◌≡◌, refl, ap, ◌∙◌, true, Option, none, some, List, [], ◌∷◌, map, get_elem?, take,
  length,
}
use gin_t.Validators.Field.{Platform, Value, other}
use gin_t.Bind.Slot.{Host, Slot, scalar, slice, no_file, done, failed, Binding}
use gin_t.Bind.File.{drop_nil, file_values, bind_file}

get_elem?-some :
    {A : Type 0} (xs : List A) (i : ℕ) → get_elem? (map (λ x. some x) xs) i ≡ some none → ⊥
get_elem?-some [] i e = cc
get_elem?-some (x ∷ xs) zero e = cc
get_elem?-some (x ∷ xs) (suc i) e = get_elem?-some xs i e

-- a round at a place that holds no nil pointer
passes_over :
    {A : Type 0} (o : Option (Option A)) (a b : Option (List (Option A)))
    → (o ≡ some none → ⊥)
    → (elim o as (λ x. Option (List (Option A))) [ some none ↦ a | _ ↦ b ]) ≡ b
passes_over none a b h = refl
passes_over (some none) a b h = absurd (h refl)
passes_over (some (some x)) a b h = refl

drop_nil-some :
    {A : Type 0} (rounds i len : ℕ) (xs : List A)
    → drop_nil rounds i len (map (λ x. some x) xs) ≡ some (take len (map (λ x. some x) xs))
unfolding drop_nil
drop_nil-some zero i len xs = refl
drop_nil-some (suc rounds) i len xs =
    passes_over (get_elem? (map (λ x. some x) xs) i) _ _ (get_elem?-some xs i)
    ∙ drop_nil-some rounds (suc i) len xs

take-length : {A : Type 0} (xs : List A) → take (length xs) xs ≡ xs
take-length [] = refl
take-length (x ∷ xs) = ap (λ r. x ∷ r) (take-length xs)

kept :
    {A : Type 0} (files : List A)
    → drop_nil
        (length (map (λ f. some f) files))
        0
        (length (map (λ f. some f) files))
        (map (λ f. some f) files)
      ≡ some (map (λ f. some f) files)
kept files =
    drop_nil-some (length (map (λ f. some f) files)) 0 (length (map (λ f. some f) files)) files
    ∙ ap (λ r. some r) (take-length (map (λ f. some f) files))

module _ {P : Platform} where
  file_values-some :
      (files : List (Platform.Opaque P))
      → file_values {P = P} (map (λ f. some f) files) ≡ some (map other files)
  unfolding file_values
  file_values-some [] = refl
  file_values-some (f ∷ files) = rw (file_values-some files)

  -- What a field for one file holds, and with which error if there is none.
  abbrev first_file : Slot P → List (Platform.Opaque P) → Binding (Slot P)
  first_file slot [] = (slot, failed no_file)
  first_file slot (f ∷ files) = (scalar (other f), done)

  -- If no file of a form is a nil pointer, bindFile never panics: a field for one file takes the
  -- first file, or reports that there is none; a field for many takes all, in their order.
  bind_file-some :
      (h : Host P) (o : Platform.Opaque P) (old : List (Value P)) (files : List (Platform.Opaque P))
      → h.is_file o ≡ true
      → (bind_file h (scalar (other o)) (map (λ f. some f) files)
          ≡ first_file (scalar (other o)) files)
        × (bind_file h (slice (other o) old) (map (λ f. some f) files)
            ≡ (slice (other o) (map other files), done))
  unfolding bind_file
  bind_file-some h o old [] is = (rw (is), rw (is))
  bind_file-some h o old (f ∷ files) is =
      (rw (kept (f ∷ files), is), rw (kept (f ∷ files), is, file_values-some (f ∷ files)))
