-- ===== src/Tree/Fold/Variant.antt =====
-- Paths that are the same but for the case of ASCII letters.
use gin_t.Common.{
  ℕ, suc, ◌<◌, ◌≡◌, refl, ap, ◌⊎◌, true, List, [], ◌∷◌, ◌++◌, length, drop, arith, length-append,
  take-length_append,
}
use gin_t.Tree.Fold.{LetterCase, goes_on}

-- The byte `d` is a letter case of the ASCII byte `c`.
abbrev pub IsForm : LetterCase → ℕ → ℕ → Type 0
IsForm u c d = (c < 128) × ((u.to_lower c ≡ d) ⊎ (u.to_upper c ≡ d))

-- Each byte of the second text is a letter case of the byte of the first.
abbrev pub IsVariant : LetterCase → List ℕ → List ℕ → Type 0
IsVariant u [] [] = Unit
IsVariant u [] (d ∷ r) = ⊥
IsVariant u (c ∷ s) [] = ⊥
IsVariant u (c ∷ s) (d ∷ r) = IsForm u c d × IsVariant u s r

-- What the lookup relies on: a text equals its variants, and ASCII letters have ASCII forms.
pub record IsCase (u : LetterCase) : Type 0 where
  pub folds : (s r : List ℕ) → IsVariant u s r → u.equal_fold s r ≡ true
  pub lower_ascii : (c : ℕ) → c < 128 → u.to_lower c < 128
  pub upper_ascii : (c : ℕ) → c < 128 → u.to_upper c < 128

IsVariant-drop :
    (u : LetterCase) (s r : List ℕ) → IsVariant u s r → IsVariant u (drop 1 s) (drop 1 r)
IsVariant-drop u [] [] h = h
IsVariant-drop u [] (d ∷ r) h = elim h [ ]
IsVariant-drop u (c ∷ s) [] h = elim h [ ]
IsVariant-drop u (c ∷ s) (d ∷ r) h = h.1

pub IsVariant-length : (u : LetterCase) (s r : List ℕ) → IsVariant u s r → length s ≡ length r
IsVariant-length u [] [] h = refl
IsVariant-length u [] (d ∷ r) h = elim h [ ]
IsVariant-length u (c ∷ s) [] h = elim h [ ]
IsVariant-length u (c ∷ s) (d ∷ r) h = ap suc (IsVariant-length u s r h.1)

-- A variant of two texts is a variant of the one and then of the other.
pub IsVariant-split :
    (u : LetterCase) (path s r : List ℕ)
    → IsVariant u path (s ++ r)
    → (s' : List ℕ) × (r' : List ℕ) × (path ≡ s' ++ r') × IsVariant u s' s × IsVariant u r' r
IsVariant-split u path [] r h = ([], path, refl, tt, h)
IsVariant-split u [] (d ∷ s) r h = elim h [ ]
IsVariant-split u (c ∷ path) (d ∷ s) r h =
    let (s', r', e, hs, hr) = IsVariant-split u path s r h.1 in
    (c ∷ s', r', ap (◌∷◌ c) e, (h.0, hs), hr)

pub goes_on-IsVariant :
    (u : LetterCase) (s s' r : List ℕ) → IsCase u → IsVariant u s' s → goes_on u (s' ++ r) s ≡ true
unfolding goes_on
goes_on-IsVariant u s s' r cased h =
    let folds = cased.folds (drop 1 s') (drop 1 s) (IsVariant-drop u s' s h) in
    rw (← IsVariant-length u s' s h, take-length_append s' r, folds)
      (ground (arith, length-append s' r))
