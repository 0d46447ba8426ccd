-- ===== src/Bind/File.antt =====
-- bindFile of core/bind/bind_value.go.
use gin_t.Common.{
  ℕ, zero, suc, ◌-◌, true, false, Option, none, some, List, [], ◌∷◌, ◌++◌, leb, take, drop,
  get_elem?, length, if◌then◌else◌,
}
use gin_t.Validators.Field.{Platform, Value, other}
use gin_t.Bind.Slot.{
  Host, Slot, scalar, slice, no_file, unknown_type, done, crashed, failed, Binding,
}

-- The files of a form; a nil pointer is `none`.
abbrev pub Files : Platform → Type 0
Files P = List (Option (Platform.Opaque P))

-- `files = append(files[:i], files[i+1:]...)` in the array that all the slices share: the elements
-- behind place `i` move forward, up to the length `len`, and what lies behind stays.
abbrev remove_at : {A : Type 0} → ℕ → ℕ → List A → List A
remove_at i len files =
    take i files ++ take (len - suc i) (drop (suc i) files) ++ drop (len - 1) files

-- The loop runs over the places of the slice as it was, and reads the shared array. The slice that
-- is left has the length `len`; to remove behind its end panics.
unfoldable pub drop_nil : {A : Type 0} → ℕ → ℕ → ℕ → List (Option A) → Option (List (Option A))
drop_nil zero i len files = some (take len files)
drop_nil (suc rounds) i len files = elim (get_elem? files i) [
  | some none ↦ elim (leb (suc i) len) [
    | true ↦ drop_nil rounds (suc i) (len - 1) (remove_at i len files)
    | false ↦ none
  ]
  | _ ↦ drop_nil rounds (suc i) len files
]

module _ {P : Platform} where
  -- reflect.ValueOf(file).Elem().Addr() for each file; a nil pointer panics
  unfoldable pub file_values : Files P → Option (List (Value P))
  file_values [] = some []
  file_values (none ∷ files) = none
  file_values (some f ∷ files) = elim (file_values files) [
    | none ↦ none
    | some values ↦ some (other f ∷ values)
  ]

  unfoldable pub bind_file : Host P → Slot P → Files P → Binding (Slot P)
  unfolding drop_nil file_values
  bind_file h field files = elim (drop_nil (length files) 0 (length files) files) [
    | none ↦ (field, crashed)
    | some kept ↦ elim field [
      | scalar (other o) ↦
          if h.is_file o
          then elim kept [
            | [] ↦ (scalar (other o), failed no_file)
            | none ∷ rest ↦ (scalar (other o), crashed)
            | some f ∷ rest ↦ (scalar (other f), done)
          ]
          else (scalar (other o), failed unknown_type)
      | slice (other o) old ↦
          if h.is_file o
          then elim (file_values kept) [
            | none ↦ (slice (other o) old, crashed)
            | some values ↦ (slice (other o) values, done)
          ]
          else (slice (other o) old, failed unknown_type)
      | unknown ↦ (unknown, failed unknown_type)
    ]
  ]
