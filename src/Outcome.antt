-- ===== src/Outcome.antt =====
-- What a Go call does: it returns a value, or it panics. `out_of_fuel` marks a loop that has not ended
-- after the rounds it was given: a loop that ends returns with enough of them, and one that does not
-- end has this result for every number of rounds.
use gin_t.Common.{
  ℕ, Bool, true, false, Option, none, some, List, length, leb, ◌&&◌, if◌then◌else◌, take, drop, ◌-◌,
  get_elem?,
}

-- The panics of the runtime, and those that core/tree.go, core/router.go and core/blue_print.go raise themselves.
pub data Panic : Type 0 where
  index_out_of_range slice_bounds nil_dereference invalid_node_type : Panic
  path_must_begin_with_slash handle_already_registered wildcard_conflict : Panic
  one_wildcard_per_segment existing_children unnamed_wildcard : Panic
  catch_all_not_at_end catch_all_conflict no_slash_before_catch_all : Panic
  nil_service wildcard_in_static invalid_method not_a_struct : Panic
  invalid_status unlock_of_unlocked nil_map : Panic

pub data Outcome {ℓ} (A : Type ℓ) : Type ℓ where
  ok : A → Outcome A
  panic : Panic → Outcome A
  out_of_fuel : Outcome A

infixl 5 ◌>>=◌ ◌>>◌
abbrev pub ◌>>=◌ {ℓ ℓ'} : {S : Type ℓ} {T : Type ℓ'} → Outcome S → (S → Outcome T) → Outcome T
out_of_fuel >>= next = out_of_fuel
panic cause >>= next = panic cause
ok result >>= next = next result

abbrev pub ◌>>◌ {ℓ} : {S : Type ℓ} → Outcome (Unit {0}) → Outcome S → Outcome S
check >> next = check >>= λ _. next

-- A check that panics.
abbrev pub panic_if : Bool → Panic → Outcome (Unit {0})
panic_if true e = panic e
panic_if false e = ok tt

-- A value that must be there.
abbrev pub or_panic {ℓ} : {A : Type ℓ} → Option A → Panic → Outcome A
or_panic none e = panic e
or_panic (some a) e = ok a

-- The index expression s[i].
unfoldable pub index {ℓ} : {A : Type ℓ} → List A → ℕ → Outcome A
index s i = or_panic (get_elem? s i) index_out_of_range

-- The slice expression s[from:to].
unfoldable pub slice {ℓ} : {A : Type ℓ} → ℕ → ℕ → List A → Outcome (List A)
slice from to s =
    if leb from to && leb to (length s)
    then ok (take (to - from) (drop from s))
    else panic slice_bounds
