-- ===== src/Blueprint/Arrays.antt =====
-- Lists that are cut, and the arrays of slices.
use gin_t.Common.{
  ℕ, zero, suc, ◌+◌, ◌≤◌, ◌≡◌, ◌≢◌, refl, ap, ◌∙◌, List, [], ◌∷◌, ◌++◌, length, take, arith,
  length-take, take-length_append,
}
use mathlib.Core.Path.{subst}
use gin_t.Blueprint.Slice.{set_at, array_at, padding}

module _ {A : Type 0} where
  take_more : (xs ys : List A) (n : ℕ) → take (length xs + n) (xs ++ ys) ≡ xs ++ take n ys
  take_more [] ys n = ap (λ k. take k ys) (omega arith)
  take_more (x ∷ xs) ys n =
      let e : length (x ∷ xs) + n ≡ suc (length xs + n) = omega arith in
      rw e (ap (λ r. x ∷ r) (take_more xs ys n))

  take_within : (k : ℕ) (xs ys : List A) → k ≤ length xs → take k (xs ++ ys) ≡ take k xs
  take_within zero xs ys le = refl
  take_within (suc k) [] ys le = elim le [ ]
  take_within (suc k) (x ∷ xs) ys le = ap (λ r. x ∷ r) (take_within k xs ys (omega arith))

  take-take : (j k : ℕ) (xs : List A) → j ≤ k → take j (take k xs) ≡ take j xs
  take-take zero k xs le = refl
  take-take (suc j) zero xs le = elim le [ ]
  take-take (suc j) (suc k) [] le = refl
  take-take (suc j) (suc k) (x ∷ xs) le = ap (λ r. x ∷ r) (take-take j k xs (omega arith))

  -- a list that begins with `at` old elements and the new ones
  pub begins :
      (at : ℕ) (xs new rest : List A)
      → at ≤ length xs
      → take (at + length new) (take at xs ++ (new ++ rest)) ≡ take at xs ++ new
  begins at xs new rest le =
      let e : length (take at xs) ≡ at = length-take at xs le in
      subst (λ n. take (n + length new) (take at xs ++ (new ++ rest)) ≡ take at xs ++ new) e
        (take_more (take at xs) (new ++ rest) (length new)
          ∙ ap (λ r. take at xs ++ r) (take-length_append new rest))

  pub keeps_begin :
      (j at : ℕ) (xs rest : List A)
      → j ≤ at
      → at ≤ length xs
      → take j (take at xs ++ rest) ≡ take j xs
  keeps_begin j at xs rest le within =
      take_within j (take at xs) rest (omega (arith, length-take at xs within))
      ∙ take-take j at xs le

  pub array_at-set_at :
      (arrays : List (List A)) (k : ℕ) (a : List A)
      → 1 ≤ length (array_at arrays k)
      → array_at (set_at arrays k a) k ≡ a
  array_at-set_at [] k a h = elim h [ ]
  array_at-set_at (x ∷ arrays) zero a h = refl
  array_at-set_at (x ∷ arrays) (suc k) a h = array_at-set_at arrays k a h

  pub array_at-set_at_other :
      (arrays : List (List A)) (j k : ℕ) (a : List A)
      → j ≢ k
      → array_at (set_at arrays k a) j ≡ array_at arrays j
  array_at-set_at_other [] j k a ne = refl
  array_at-set_at_other (x ∷ arrays) zero zero a ne = absurd (ne refl)
  array_at-set_at_other (x ∷ arrays) zero (suc k) a ne = refl
  array_at-set_at_other (x ∷ arrays) (suc j) zero a ne = refl
  array_at-set_at_other (x ∷ arrays) (suc j) (suc k) a ne =
      array_at-set_at_other arrays j k a (λ e. ne (ap suc e))

  pub array_at-append :
      (arrays : List (List A)) (a : List A) → array_at (arrays ++ a ∷ []) (length arrays) ≡ a
  array_at-append [] a = refl
  array_at-append (x ∷ arrays) a = array_at-append arrays a

  pub array_at-append_old :
      (arrays : List (List A)) (j : ℕ) (a : List A)
      → 1 ≤ length (array_at arrays j)
      → array_at (arrays ++ a ∷ []) j ≡ array_at arrays j
  array_at-append_old [] j a h = elim h [ ]
  array_at-append_old (x ∷ arrays) zero a h = refl
  array_at-append_old (x ∷ arrays) (suc j) a h = array_at-append_old arrays j a h

  pub length-padding : (n : ℕ) (a : A) → length (padding n a) ≡ n
  length-padding zero a = refl
  length-padding (suc n) a = ap suc (length-padding n a)
