-- ===== src/Blueprint/Append.antt =====
-- What an append does to its slice, and to the other slices of the array.
use gin_t.Common.{
  ℕ, ◌+◌, ◌-◌, ◌≤◌, ◌<◌, ◌≡◌, ◌≢◌, refl, sym, ap, ◌∙◌, ◌⊎◌, Bool-cases, true, false, inl, inr, List,
  [], ◌∷◌, ◌++◌, length, take, drop, leb, arith, length-append, length-take, length-drop,
}
use native.Mathlib.Decide.{ℕ_discrete}
use mathlib.Core.List.{append-nil}
use gin_t.Blueprint.Arrays.{
  begins, keeps_begin, array_at-set_at, array_at-set_at_other, array_at-append, array_at-append_old,
  length-padding,
}
use gin_t.Blueprint.Slice.{Slice, set_at, array_at, overwrite, padding, contents, append_slice}

-- A slice lies in its array.
pub record IsSlice {A : Type 0} (arrays : List (List A)) (s : Slice) : Type 0 where
  pub within : s.len ≤ s.cap
  pub in_array : s.cap ≤ length (array_at arrays s.array)

-- The runtime makes room for what is needed.
abbrev pub Grows : (ℕ → ℕ → ℕ) → Type 0
Grows grow = (cap need : ℕ) → need ≤ grow cap need

-- The new slice, and every slice of the old arrays.
pub record IsAppended {A : Type 0} (arrays : List (List A)) (s : Slice) (new : List A)
    (arrays' : List (List A)) (s' : Slice) : Type 0 where
  pub holds : contents arrays' s' ≡ contents arrays s ++ new
  pub slice : IsSlice arrays' s'
  pub longer : s'.len ≡ s.len + length new
  pub slices : (t : Slice) → IsSlice arrays t → IsSlice arrays' t
  pub kept :
      (t : Slice)
      → IsSlice arrays t
      → (t.array ≢ s.array) ⊎ (t.len ≤ s.len)
      → contents arrays' t ≡ contents arrays t

module _ {A : Type 0} where
  in_place :
      (arrays : List (List A)) (s : Slice) (a : A) (new : List A)
      → IsSlice arrays s
      → s.len + length (a ∷ new) ≤ s.cap
      → IsAppended arrays s
          (a ∷ new)
          (set_at arrays s.array (overwrite s.len (a ∷ new) (array_at arrays s.array)))
          (record s { len = s.len + length (a ∷ new) })
  unfolding contents
  in_place arrays s a new is fits = record {
    holds = rw self (begins s.len old (a ∷ new) (drop (s.len + length (a ∷ new)) old) short);
    slice = record { within = fits; in_array = rw (self, size) is.in_array };
    longer = refl;
    slices = λ t it. record { within = it.within; in_array = same_size t it };
    kept = λ t it apart. keep t it apart;
  }
    where
      old : List A
      old = array_at arrays s.array

      written : List A
      written = overwrite s.len (a ∷ new) old

      there : 1 ≤ length old
      there = omega (arith, is.in_array)

      short : s.len ≤ length old
      short = omega (arith, is.within, is.in_array)

      self : array_at (set_at arrays s.array written) s.array ≡ written
      self = array_at-set_at arrays s.array written there

      size : length written ≡ length old
      size = omega (
        arith,
        length-append (take s.len old) ((a ∷ new) ++ drop (s.len + length (a ∷ new)) old),
        length-append (a ∷ new) (drop (s.len + length (a ∷ new)) old),
        length-take s.len old short,
        length-drop (s.len + length (a ∷ new)) old,
        is.in_array,
      )

      same_size :
          (t : Slice)
          → IsSlice arrays t
          → t.cap ≤ length (array_at (set_at arrays s.array written) t.array)
      same_size t it = elim (ℕ_discrete t.array s.array) [
        | yes e ↦ rw (e, self, size) (rw e at it.in_array)
        | no ne ↦ rw (array_at-set_at_other arrays t.array s.array written ne) it.in_array
      ]

      keep :
          (t : Slice)
          → IsSlice arrays t
          → (t.array ≢ s.array) ⊎ (t.len ≤ s.len)
          → take t.len (array_at (set_at arrays s.array written) t.array)
            ≡ take t.len (array_at arrays t.array)
      keep t it apart = elim (ℕ_discrete t.array s.array) [
        | no ne ↦ ap (take t.len) (array_at-set_at_other arrays t.array s.array written ne)
        | yes e ↦ elim apart [
          | inl ne ↦ absurd (ne e)
          | inr le ↦
              rw (e, self)
                (keeps_begin t.len s.len old ((a ∷ new) ++ drop (s.len + length (a ∷ new)) old) le
                  short)
        ]
      ]

  in_new_array :
      (arrays : List (List A)) (s : Slice) (new rest : List A) (cap : ℕ)
      → IsSlice arrays s
      → s.len + length new ≤ cap
      → cap ≤ s.len + length new + length rest
      → IsAppended arrays s new
          (arrays ++ (take s.len (array_at arrays s.array) ++ (new ++ rest)) ∷ [])
          (record { array = length arrays; len = s.len + length new; cap = cap })
  unfolding contents
  in_new_array arrays s new rest cap is need room = record {
    holds = rw self (begins s.len old new rest short);
    slice = record { within = need; in_array = rw self (omega (arith, size)) };
    longer = refl;
    slices = λ t it. record { within = it.within; in_array = roomy t it (ℕ_discrete t.cap 0) };
    kept = λ t it apart. keep t it (ℕ_discrete t.cap 0);
  }
    where
      old : List A
      old = array_at arrays s.array

      fresh : List A
      fresh = take s.len old ++ (new ++ rest)

      short : s.len ≤ length old
      short = omega (arith, is.within, is.in_array)

      self : array_at (arrays ++ fresh ∷ []) (length arrays) ≡ fresh
      self = array_at-append arrays fresh

      size : length fresh ≡ s.len + length new + length rest
      size = omega (
        arith,
        length-append (take s.len old) (new ++ rest),
        length-append new rest,
        length-take s.len old short,
      )

      there :
          (t : Slice)
          → IsSlice arrays t
          → (t.cap ≡ 0 → ⊥)
          → array_at (arrays ++ fresh ∷ []) t.array ≡ array_at arrays t.array
      there t it ne = array_at-append_old arrays t.array fresh (omega (arith, it.in_array, ne))

      roomy :
          (t : Slice)
          → IsSlice arrays t
          → Dec (t.cap ≡ 0)
          → t.cap ≤ length (array_at (arrays ++ fresh ∷ []) t.array)
      roomy t it (yes e) = omega (arith, e)
      roomy t it (no ne) = rw (there t it ne) it.in_array

      keep :
          (t : Slice)
          → IsSlice arrays t
          → Dec (t.cap ≡ 0)
          → take t.len (array_at (arrays ++ fresh ∷ []) t.array)
            ≡ take t.len (array_at arrays t.array)
      keep t it (yes e) = let none_there : t.len ≡ 0 = omega (arith, e, it.within) in rw none_there
      keep t it (no ne) = ap (take t.len) (there t it ne)

  -- For a slice that lies in its array, append yields a slice of the old elements and the new ones.
  -- Every other slice still lies in its array, and it holds what it held if it is in another array,
  -- or ends no later than the slice that was appended to.
  pub append_slice-IsAppended :
      (grow : ℕ → ℕ → ℕ) (empty : A) (arrays : List (List A)) (s : Slice) (new : List A)
      → Grows grow
      → IsSlice arrays s
      → IsAppended arrays s new
          (append_slice grow empty arrays s new).0
          (append_slice grow empty arrays s new).1
  unfolding append_slice contents
  append_slice-IsAppended grow empty arrays s [] grows is = record {
    holds = sym (append-nil (take s.len (array_at arrays s.array)));
    slice = is;
    longer = omega arith;
    slices = λ t it. it;
    kept = λ t it apart. refl;
  }
  append_slice-IsAppended grow empty arrays s (a ∷ new) grows is =
      let need = s.len + length (a ∷ new) in
      elim (Bool-cases (leb need s.cap)) [
        | inl b ↦ rw b (in_place arrays s a new is (ground arith))
        | inr b ↦ rw b (
            in_new_array arrays s (a ∷ new) (padding (grow s.cap need - need) empty)
              (grow s.cap need) is (grows s.cap need)
              (omega (arith, grows s.cap need, length-padding (grow s.cap need - need) empty)))
      ]

  -- An append of one element to a slice with room.
  pub append_slice-first :
      (grow : ℕ → ℕ → ℕ) (empty : A) (arrays : List (List A)) (s : Slice) (a : A)
      → IsSlice arrays s
      → s.len < s.cap
      → let (arrays1, first) = append_slice grow empty arrays s (a ∷ []) in
        contents arrays1 first ≡ contents arrays s ++ a ∷ []
  unfolding append_slice
  append_slice-first grow empty arrays s a is room =
      let fits : leb (s.len + 1) s.cap ≡ true = ground arith in
      rw fits (in_place arrays s a [] is (omega arith)).holds

  -- Two appends to a slice with room for one more element write to the same place: behind the
  -- second one, the slice that the first one returned holds the second element.
  pub append_slice-shares :
      (grow : ℕ → ℕ → ℕ) (empty : A) (arrays : List (List A)) (s : Slice) (a b : A)
      → IsSlice arrays s
      → s.len < s.cap
      → let (arrays1, first) = append_slice grow empty arrays s (a ∷ []) in
        contents (append_slice grow empty arrays1 s (b ∷ [])).0 first ≡ contents arrays s ++ b ∷ []
  unfolding append_slice
  append_slice-shares grow empty arrays s a b is room =
      let fits : leb (s.len + 1) s.cap ≡ true = ground arith in
      let first = in_place arrays s a [] is (omega arith) in
      let again : IsSlice
          (set_at arrays s.array (overwrite s.len (a ∷ []) (array_at arrays s.array))) s =
        first.slices s is in
      let second =
        in_place (set_at arrays s.array (overwrite s.len (a ∷ []) (array_at arrays s.array))) s b []
          again (omega arith) in
      rw fits (second.holds ∙ ap (λ r. r ++ b ∷ []) (first.kept s is (inr (omega arith))))

module _ {A : Type 0} where
  contents-grown :
      (arrays : List (List A)) (t : Slice) (a : List A)
      → IsSlice arrays t
      → contents (arrays ++ a ∷ []) t ≡ contents arrays t
  unfolding contents
  contents-grown arrays t a it = elim (ℕ_discrete t.cap 0) [
    | yes e ↦ let nothing : t.len ≡ 0 = omega (arith, e, it.within) in rw nothing
    | no ne ↦
        ap (take t.len) (array_at-append_old arrays t.array a (omega (arith, it.in_array, ne)))
  ]

  -- An append to a slice without room leaves every slice as it was.
  pub append_slice-full :
      (grow : ℕ → ℕ → ℕ) (empty : A) (arrays : List (List A)) (s : Slice) (new : List A) (t : Slice)
      → s.len ≡ s.cap
      → IsSlice arrays t
      → contents (append_slice grow empty arrays s new).0 t ≡ contents arrays t
  unfolding append_slice
  append_slice-full grow empty arrays s [] t full it = refl
  append_slice-full grow empty arrays s (a ∷ new) t full it =
      let no_room : leb (s.len + length (a ∷ new)) s.cap ≡ false = ground (arith, full) in
      rw no_room (contents-grown arrays t _ it)
