-- ===== src/Storage/Stuck.antt =====
-- What Save does: it never stores a file.
use gin_t.Common.{
  ℕ, zero, suc, ◌≡◌, refl, ◌⊎◌, inl, inr, Bool-cases, Option-cases, false, none, some, [], ◌∷◌,
  ◌++◌,
}
use gin_t.Text.{Bytes}
use gin_t.Outcome.{ok, panic, out_of_fuel, unlock_of_unlocked}
use gin_t.Storage.{
  found, not_exist, FileSystem, FileHeader, file_exists, Lock, unlock, find_name,
  get_alternative_name, make_root, save,
}

module _ {E : Type 0} (fs : FileSystem E) where
  find_name_cases :
      (fuel k : ℕ) (root filename : Bytes)
      → (find_name fs fuel k root filename ≡ out_of_fuel)
        ⊎ ((dst : Bytes) × (find_name fs fuel k root filename ≡ ok dst))
  unfolding find_name
  find_name_cases zero k root filename = inl refl
  find_name_cases (suc fuel) k root filename =
      elim (Bool-cases (file_exists (fs.stat (fs.join root filename)))) [
        | inl b ↦ rw b (find_name_cases fuel (suc k) root (fs.random_string k ++ filename))
        | inr b ↦ rw b (inr (fs.join root filename, refl))
      ]

  name_lost :
      (fuel : ℕ) (root filename : Bytes) (l : Lock)
      → l.writing ≡ false
      → (get_alternative_name fs fuel root filename l ≡ out_of_fuel)
        ⊎ (get_alternative_name fs fuel root filename l ≡ panic unlock_of_unlocked)
  unfolding get_alternative_name unlock
  name_lost fuel root filename l free = elim (find_name_cases fuel 0 root filename) [
    | inl e ↦ rw e (inl refl)
    | inr (dst, e) ↦ rw (e, free) (inr refl)
  ]

  -- From a lock that is not held for writing, Save returns an error and no path, or it ends the program
  -- at the Unlock of a lock that is held for reading, or it has not ended after `fuel` rounds.
  pub save_lem :
      (fuel : ℕ) (root : Bytes) (file : FileHeader E) (l : Lock)
      → l.writing ≡ false
      → ((e : E) × (save fs fuel root file l ≡ ok (([], some e), l)))
        ⊎ ((save fs fuel root file l ≡ panic unlock_of_unlocked)
            ⊎ (save fs fuel root file l ≡ out_of_fuel))
  unfolding save
  save_lem fuel root file l free = elim (Option-cases (file.open_error)) [
    | inr (e, at) ↦ inl (e, rw at refl)
    | inl opened ↦ elim (Option-cases (make_root fs root)) [
      | inr (e, at) ↦ inl (e, rw (opened, at) refl)
      | inl made ↦ elim (name_lost fuel root file.filename l free) [
        | inl e ↦ inr (inr (rw (opened, made, e) refl))
        | inr e ↦ inr (inl (rw (opened, made, e) refl))
      ]
    ]
  ]

  find_name-endless :
      ((path : Bytes) → (fs.stat path ≡ found) ⊎ (fs.stat path ≡ not_exist))
      → (fuel k : ℕ) (root filename : Bytes) → find_name fs fuel k root filename ≡ out_of_fuel
  unfolding find_name file_exists
  find_name-endless known zero k root filename = refl
  find_name-endless known (suc fuel) k root filename = elim (known (fs.join root filename)) [
    | inl e ↦ rw e (find_name-endless known fuel (suc k) root (fs.random_string k ++ filename))
    | inr e ↦ rw e (find_name-endless known fuel (suc k) root (fs.random_string k ++ filename))
  ]

  -- If Stat finds each path or reports that it does not exist, Save of a file that can be opened never
  -- ends: it takes each name for taken, the free ones too.
  pub save-endless :
      (fuel : ℕ) (root : Bytes) (file : FileHeader E) (l : Lock)
      → ((path : Bytes) → (fs.stat path ≡ found) ⊎ (fs.stat path ≡ not_exist))
      → file.open_error ≡ none
      → save fs fuel root file l ≡ out_of_fuel
  unfolding save make_root get_alternative_name
  save-endless fuel root file l known opened =
      rw (opened, made root, find_name-endless known fuel 0 root file.filename) refl
    where
      made : (root : Bytes) → make_root fs root ≡ none
      made [] = refl
      made (c ∷ root) = elim (known (c ∷ root)) [ inl e ↦ rw e refl | inr e ↦ rw e refl ]
