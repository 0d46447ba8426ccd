-- ===== src/Values/Samples.antt =====
-- Conversions of form values, and the theorem at work on them.
use gin_t.Common.{◌≡◌, pos, refl, none, some, negsuc, arith}
use gin_t.Text.{codes}
use gin_t.Text.Numbers.{out_of_range, parse_int}
use gin_t.Values.{int_of, uint_of, wrap_int}
use gin_t.Values.Numerals.{int_of-decimal}

clamped : int_of 8 (codes "-200") none ≡ (negsuc 127, some out_of_range)
unfolding int_of parse_int
clamped = refl

-- int8(200)
wrapped : wrap_int 8 (pos 200) ≡ negsuc 55
unfolding wrap_int
wrapped = refl

int_of-decimal_example :
    (int_of 8 (codes "128") none ≡ (pos 127, some out_of_range))
    × (int_of 8 (codes "+128") none ≡ (pos 127, some out_of_range))
    × (int_of 8 (codes "-128") none ≡ (negsuc 127, none))
    × (uint_of 8 (codes "128") (some 7) ≡ (128, none))
int_of-decimal_example = int_of-decimal 8 b'1' (codes "28") none (some 7) (omega arith) refl
