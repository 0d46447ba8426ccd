-- ===== src/Bind/Defaults.antt =====
-- The default values in the tag of a field.
use gin_t.Common.{◌≡◌, ap, List, []}
use gin_t.Text.{Bytes}
use gin_t.Validators.Field.{Platform, Value}
use gin_t.Bind.Slot.{Host, Slot, slice, done}
use gin_t.Bind.Single.{bind, bind_slice, bind_array}
use gin_t.Bind.Form.{go_on, try_default, bind_or_default, bind_missing}

module _ {P : Platform} (h : Host P) where
  -- A slice that the form has no value for takes the defaults of its tag, and loses them to the
  -- missing value at once: it ends up empty, without an error.
  bind_missing-slice :
      (empty : Value P) (old : List (Value P)) (defaults : List Bytes) (bound : Slot P)
      → bind h (slice empty old) defaults ≡ (bound, done)
      → bind_missing h (slice empty old) defaults ≡ (slice empty [], go_on)
  unfolding bind_missing bind_or_default try_default bind bind_slice bind_array
  bind_missing-slice empty old defaults bound e =
      let bound_well : (bind h (slice empty old) defaults).1 ≡ done = ap (λ b. b.1) e in
      rw bound_well
