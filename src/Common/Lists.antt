-- ===== src/Common/Lists.antt =====
-- Lists measured, indexed and compared by native numbers, under the library's names.
use Prim.Native.Nat.{ℕ, zero, suc, ◌+◌, ◌-◌, ◌≤◌, compare, Ordering}
use mathlib.Core.Path.{◌≡◌, refl, ap, sym, ◌∙◌}
use mathlib.Core.Logic.{◌↔◌, ◌≢◌, inl, inr}
use mathlib.Core.List.{List, [], ◌∷◌, ◌++◌}
use mathlib.Core.Option.{Option, none, some}
use mathlib.Core.Bool.{Bool, true, false, ◌&&◌}
use native.Mathlib.Omega.{arith}
use native.Mathlib.Decide.{ℕ_discrete}
use gin_t.Common.Tests.{ltb, Bool-cases}

module _ {ℓ} {A : Type ℓ} where
  abbrev pub length : List A → ℕ
  length [] = 0
  length (x ∷ xs) = suc (length xs)

  abbrev pub get_elem? : List A → ℕ → Option A
  get_elem? [] i = none
  get_elem? (x ∷ xs) zero = some x
  get_elem? (x ∷ xs) (suc i) = get_elem? xs i

  abbrev pub take : ℕ → List A → List A
  take zero xs = []
  take (suc n) [] = []
  take (suc n) (x ∷ xs) = x ∷ take n xs

  abbrev pub drop : ℕ → List A → List A
  drop zero xs = xs
  drop (suc n) [] = []
  drop (suc n) (x ∷ xs) = drop n xs

  pub length-append : (xs ys : List A) → length (xs ++ ys) ≡ length xs + length ys
  length-append [] ys = omega arith
  length-append (x ∷ xs) ys = omega (arith, length-append xs ys)

  pub length-take : (n : ℕ) (xs : List A) → n ≤ length xs → length (take n xs) ≡ n
  length-take zero xs h = refl
  length-take (suc n) [] h = elim h [ ]
  length-take (suc n) (x ∷ xs) h = omega (arith, length-take n xs)

  pub length-drop : (n : ℕ) (xs : List A) → length (drop n xs) ≡ length xs - n
  length-drop zero xs = omega arith
  length-drop (suc n) [] = omega arith
  length-drop (suc n) (x ∷ xs) = omega (arith, length-drop n xs)

  pub take-append-drop : (n : ℕ) (xs : List A) → take n xs ++ drop n xs ≡ xs
  take-append-drop zero xs = refl
  take-append-drop (suc n) [] = refl
  take-append-drop (suc n) (x ∷ xs) = ap (◌∷◌ x) (take-append-drop n xs)

  pub take-length_append : (xs ys : List A) → take (length xs) (xs ++ ys) ≡ xs
  take-length_append [] ys = refl
  take-length_append (x ∷ xs) ys = ap (◌∷◌ x) (take-length_append xs ys)

  pub take-length : (xs : List A) → take (length xs) xs ≡ xs
  take-length [] = refl
  take-length (x ∷ xs) = ap (◌∷◌ x) (take-length xs)

  pub drop-length_append : (xs ys : List A) → drop (length xs) (xs ++ ys) ≡ ys
  drop-length_append [] ys = refl
  drop-length_append (x ∷ xs) ys = drop-length_append xs ys

-- Equality of byte strings.
unfoldable pub list_eq : List ℕ → List ℕ → Bool
list_eq [] [] = true
list_eq [] (y ∷ ys) = false
list_eq (x ∷ xs) [] = false
list_eq (x ∷ xs) (y ∷ ys) = elim (compare x y) [ Ordering.eq ↦ true | _ ↦ false ] && list_eq xs ys

pub list_eq_iff : (xs ys : List ℕ) → (list_eq xs ys ≡ true) ↔ (xs ≡ ys)
unfolding list_eq
list_eq_iff [] [] = ground arith
list_eq_iff [] (y ∷ ys) = ground arith
list_eq_iff (x ∷ xs) [] = ground arith
list_eq_iff (x ∷ xs) (y ∷ ys) = ground (arith, list_eq_iff xs ys)

-- How a text compares with a prefix: it is equal, it goes on behind it, or it does not start with it.
pub data PrefixCases (s p : List ℕ) : Type 0 where
  same : p ≡ s → PrefixCases s p
  longer : (c : ℕ) (r : List ℕ) → p ≡ s ++ c ∷ r → PrefixCases s p
  apart : ((q : List ℕ) → p ≡ s ++ q → ⊥) → PrefixCases s p

abbrev pub head_or : List ℕ → ℕ
head_or [] = 0
head_or (c ∷ s) = c

abbrev pub rest_of : List ℕ → List ℕ
rest_of [] = []
rest_of (c ∷ s) = s

pub prefix_cases : (s p : List ℕ) → PrefixCases s p
prefix_cases [] [] = same refl
prefix_cases [] (c ∷ p) = longer c p refl
prefix_cases (a ∷ s) [] = apart (λ q e. cc)
prefix_cases (a ∷ s) (b ∷ p) = elim (ℕ_discrete b a) [
  | no ne ↦ apart (λ q e. ne (ap head_or e))
  | yes eq ↦ elim (prefix_cases s p) [
    | same e ↦ same (rw (eq, e) refl)
    | longer c r e ↦ longer c r (rw (eq, e) refl)
    | apart f ↦ apart (λ q e. f q (ap rest_of e))
  ]
]

pub list_eq_refl : (s : List ℕ) → list_eq s s ≡ true
list_eq_refl s = (list_eq_iff s s).1 refl

pub append-cancel : (s p q : List ℕ) → s ++ p ≡ s ++ q → p ≡ q
append-cancel [] p q e = e
append-cancel (a ∷ s) p q e = append-cancel s p q (ap rest_of e)

pub ltb-length_append :
    {A : Type 0} (s : List A) (c : A) (r : List A) → ltb (length s) (length (s ++ c ∷ r)) ≡ true
ltb-length_append s c r = ground (arith, length-append s (c ∷ r))

pub ltb_irrefl : (n : ℕ) → ltb n n ≡ false
ltb_irrefl n = ground arith

-- How two texts compare from their first bytes on.
pub data SplitCases (s p : List ℕ) : Type 0 where
  whole : p ≡ s → SplitCases s p
  beyond : (c : ℕ) (r : List ℕ) → p ≡ s ++ c ∷ r → SplitCases s p
  within : (c : ℕ) (r : List ℕ) → s ≡ p ++ c ∷ r → SplitCases s p
  forked :
      (q : List ℕ) (a : ℕ) (u : List ℕ) (b : ℕ) (v : List ℕ)
      → s ≡ q ++ a ∷ u
      → p ≡ q ++ b ∷ v
      → b ≢ a
      → SplitCases s p

pub split_cases : (s p : List ℕ) → SplitCases s p
split_cases [] [] = whole refl
split_cases [] (c ∷ p) = beyond c p refl
split_cases (a ∷ s) [] = within a s refl
split_cases (a ∷ s) (b ∷ p) = elim (ℕ_discrete b a) [
  | no ne ↦ forked [] a s b p refl refl ne
  | yes eq ↦ elim (split_cases s p) [
    | whole e ↦ whole (rw (eq, e) refl)
    | beyond c r e ↦ beyond c r (rw (eq, e) refl)
    | within c r e ↦ within c r (rw (eq, e) refl)
    | forked q c u d v e e' ne ↦ forked (a ∷ q) c u d v (ap (◌∷◌ a) e) (rw (eq, e') refl) ne
  ]
]

-- Keys that a map compares.
pub same_key : (j key k : List ℕ) → list_eq j key ≡ true → list_eq key k ≡ list_eq j k
same_key j key k b = rw (← (list_eq_iff j key).0 b) refl

pub other_key :
    (j key k : List ℕ) → list_eq j key ≡ false → list_eq j k ≡ true → list_eq key k ≡ false
other_key j key k b c = elim (Bool-cases (list_eq key k)) [
  | inl d ↦ cc (b, (list_eq_iff j key).1 ((list_eq_iff j k).0 c ∙ sym ((list_eq_iff key k).0 d)))
  | inr d ↦ d
]
