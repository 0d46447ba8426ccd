-- ===== src/Storage/Samples.antt =====
-- An empty file system, and the theorems at work on it.
use gin_t.Common.{ℕ, ◌≡◌, refl, ◌⊎◌, inr, false, none, some, [], ◌++◌}
use gin_t.Text.{codes}
use gin_t.Outcome.{ok, panic, out_of_fuel, unlock_of_unlocked}
use gin_t.Storage.{not_exist, other_error, FileSystem, FileHeader, Lock, save}
use gin_t.Storage.Stuck.{save_lem, save-endless}

abbrev empty_disk : FileSystem ℕ
empty_disk = record {
  stat = λ path. not_exist;
  mkdir_all = λ path. none;
  create = λ path. none;
  copy = λ path. none;
  join = λ root name. root ++ (codes "/" ++ name);
  random_string = λ k. codes "abcdefg";
}

-- Stat fails for another reason, and the name is taken for free.
abbrev locked_disk : FileSystem ℕ
locked_disk = record empty_disk { stat = λ path. other_error }

abbrev upload : FileHeader ℕ
upload = record { open_error = none; filename = codes "a.txt" }

abbrev free : Lock
free = record { readers = 0; writing = false }

save_lem_example :
    ((e : ℕ) × (save locked_disk 5 (codes "media") upload free ≡ ok (([], some e), free)))
    ⊎ ((save locked_disk 5 (codes "media") upload free ≡ panic unlock_of_unlocked)
        ⊎ (save locked_disk 5 (codes "media") upload free ≡ out_of_fuel))
save_lem_example = save_lem locked_disk 5 (codes "media") upload free refl

save-endless_example : save empty_disk 100 (codes "media") upload free ≡ out_of_fuel
save-endless_example =
    save-endless empty_disk 100 (codes "media") upload free (λ path. inr refl) refl
