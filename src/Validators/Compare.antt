-- ===== src/Validators/Compare.antt =====
-- isGt, isLt, isGe, isLe, isEqual, isBetween and isContains of core/validators/validate.go.
-- No signed kind but `int16` is left out; `isLt` leaves out `uint16` too.
use gin_t.Common.{
  Bool, true, false, not, ◌&&◌, List, [], ◌∷◌, ltz, lez, eqz, ltb, leb, ◌==◌, list_eq,
  if◌then◌else◌,
}
use gin_t.Text.{Bytes, split_on, without_spaces}
use gin_t.Text.Numbers.{Parsed, parse_int, parse_uint, parse_bool}
use gin_t.Validators.Field.{
  Width, width_code, Platform, Value, text, signed, unsigned, floating, boolean, other, Checked,
  fine, err, ◌>>=◌, unsupported, number_of,
}

-- Int, Int8, Int32, Int64
abbrev pub listed : Width → Bool
listed w = not (width_code w == 16)

module _ {P : Platform} where
  unfoldable pub is_gt : Value P → Bytes → Checked Bool
  is_gt (signed w n) v =
      if listed w then (do k ← number_of (parse_int 64 v); fine (ltz k n)) else err unsupported
  is_gt (unsigned w n) v = do k ← number_of (parse_uint 64 v); fine (ltb k n)
  is_gt (floating w x) v = do y ← number_of (Platform.parse_float P v); fine (Platform.less P y x)
  is_gt field v = err unsupported

  unfoldable pub is_lt : Value P → Bytes → Checked Bool
  is_lt (signed w n) v =
      if listed w then (do k ← number_of (parse_int 64 v); fine (ltz n k)) else err unsupported
  is_lt (unsigned w n) v =
      if listed w then (do k ← number_of (parse_uint 64 v); fine (ltb n k)) else err unsupported
  is_lt (floating w x) v = do y ← number_of (Platform.parse_float P v); fine (Platform.less P x y)
  is_lt field v = err unsupported

  unfoldable pub is_ge : Value P → Bytes → Checked Bool
  is_ge (signed w n) v =
      if listed w then (do k ← number_of (parse_int 64 v); fine (lez k n)) else err unsupported
  is_ge (unsigned w n) v = do k ← number_of (parse_uint 64 v); fine (leb k n)
  is_ge (floating w x) v = do
    y ← number_of (Platform.parse_float P v)
    fine (Platform.less_equal P y x)
  is_ge field v = err unsupported

  unfoldable pub is_le : Value P → Bytes → Checked Bool
  is_le (signed w n) v =
      if listed w then (do k ← number_of (parse_int 64 v); fine (lez n k)) else err unsupported
  is_le (unsigned w n) v = do k ← number_of (parse_uint 64 v); fine (leb n k)
  is_le (floating w x) v = do
    y ← number_of (Platform.parse_float P v)
    fine (Platform.less_equal P x y)
  is_le field v = err unsupported

  unfoldable pub is_equal : Value P → Bytes → Checked Bool
  is_equal (text s) v = fine (list_eq s v)
  is_equal (signed w n) v =
      if listed w then (do k ← number_of (parse_int 64 v); fine (eqz n k)) else err unsupported
  is_equal (unsigned w n) v = do k ← number_of (parse_uint 64 v); fine (n == k)
  is_equal (floating w x) v = do
    y ← number_of (Platform.parse_float P v)
    fine (Platform.equal P x y)
  is_equal (boolean b) v = do c ← number_of (parse_bool v); fine (if b then c else not c)
  is_equal (other o) v = err unsupported

  -- A field of another kind is not in the range, without an error.
  unfoldable pub is_between : Value P → Bytes → Bytes → Checked Bool
  is_between (signed w n) low high =
      if listed w
      then (do
        mi ← number_of (parse_int 64 low)
        ma ← number_of (parse_int 64 high)
        fine (lez mi n && lez n ma))
      else fine false
  is_between (unsigned w n) low high = do
    mi ← number_of (parse_uint 64 low)
    ma ← number_of (parse_uint 64 high)
    fine (leb mi n && leb n ma)
  is_between (floating w x) low high = do
    mi ← number_of (Platform.parse_float P low)
    ma ← number_of (Platform.parse_float P high)
    fine (Platform.less_equal P mi x && Platform.less_equal P x ma)
  is_between field low high = fine false

-- The loop over the items of a list, up to the first one that the test accepts; `absent` is what the
-- source returns behind the loop.
unfoldable pub any_item :
    {A : Type 0} → (Bytes → Parsed A) → (A → Bool) → Checked Bool → List Bytes → Checked Bool
any_item parse is absent [] = absent
any_item parse is absent (item ∷ items) =
    let rest = any_item parse is absent items in
    do k ← number_of (parse (without_spaces item)); if is k then fine true else rest

unfoldable text_among : Bytes → List Bytes → Bool
text_among s [] = false
text_among s (item ∷ items) = let rest = text_among s items in if list_eq item s then true else rest

-- Behind the loop over unsigned numbers there is no return, so that an absent one is unsupported.
unfoldable pub is_contains : {P : Platform} → Value P → Bytes → Checked Bool
unfolding any_item text_among
is_contains (text s) v = fine (text_among s (split_on b',' v))
is_contains (signed w n) v =
    if listed w
    then any_item (parse_int 64) (eqz n) (fine false) (split_on b',' v)
    else err unsupported
is_contains (unsigned w n) v =
    any_item (parse_uint 64) (λ k. n == k) (err unsupported) (split_on b',' v)
is_contains {P} (floating w x) v =
    any_item (Platform.parse_float P) (λ y. Platform.equal P y x) (fine false) (split_on b',' v)
is_contains (boolean b) v = err unsupported
is_contains (other o) v = err unsupported
