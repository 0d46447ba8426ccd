-- ===== src/Text/Runes.antt =====
-- The functions of package utf8 that the program calls: RuneCountInString, RuneStart, DecodeRune and
-- EncodeRune. A byte that begins no valid encoding counts as one rune, and is decoded to 65533.
use gin_t.Common.{
  ◌+◌, ◌*◌, ◌/◌, ◌%◌, ◌||◌, not, ltb, ℕ, zero, suc, Bool, true, false, ◌&&◌, List, [], ◌∷◌, leb,
  ◌==◌, if◌then◌else◌,
}

abbrev in_bounds : ℕ → ℕ → ℕ → Bool
in_bounds low c high = leb low c && leb c high

-- the second byte that may follow a first byte of three or four
abbrev second_ok : ℕ → ℕ → Bool
second_ok first c =
    in_bounds (if first == 224 then 160 else if first == 240 then 144 else 128) c
      (if first == 237 then 159 else if first == 244 then 143 else 191)

-- `count` bytes that continue an encoding
abbrev continues : ℕ → List ℕ → Bool
continues zero s = true
continues (suc count) [] = false
continues (suc count) (c ∷ s) = in_bounds 128 c 191 && continues count s

abbrev encoded : ℕ → ℕ → List ℕ → Bool
encoded first more [] = false
encoded first more (c ∷ s) = second_ok first c && continues more s

-- the bytes of the first rune behind its first byte
unfoldable pub rune_tail : ℕ → List ℕ → ℕ
rune_tail first s =
    if in_bounds 194 first 223 && encoded first 0 s
    then 1
    else if in_bounds 224 first 239 && encoded first 1 s
    then 2
    else if in_bounds 240 first 244 && encoded first 2 s
    then 3
    else 0

-- `skip` bytes of the rune that was counted last are left
unfoldable pub count_from : ℕ → List ℕ → ℕ
unfolding rune_tail
count_from skip [] = 0
count_from zero (c ∷ s) = suc (count_from (rune_tail c s) s)
count_from (suc skip) (c ∷ s) = count_from skip s

abbrev pub rune_count : List ℕ → ℕ
rune_count s = count_from 0 s

abbrev pub rune_start : ℕ → Bool
rune_start c = not (in_bounds 128 c 191)

abbrev rune_error : ℕ
rune_error = 65533

-- the value of the bytes that continue an encoding, behind the bits `n` of those before
abbrev add_tail : ℕ → ℕ → List ℕ → ℕ
add_tail n zero s = n
add_tail n (suc count) [] = n
add_tail n (suc count) (c ∷ s) = add_tail (n * 64 + c % 64) count s

unfoldable decode_from : ℕ → ℕ → List ℕ → ℕ
decode_from zero first s = if ltb first 128 then first else rune_error
decode_from (suc zero) first s = add_tail (first % 32) 1 s
decode_from (suc (suc zero)) first s = add_tail (first % 16) 2 s
decode_from more first s = add_tail (first % 8) more s

-- the first rune of a text
unfoldable pub decode_rune : List ℕ → ℕ
unfolding decode_from rune_tail
decode_rune [] = rune_error
decode_rune (c ∷ s) = decode_from (rune_tail c s) c s

abbrev is_encodable : ℕ → Bool
is_encodable r = ltb r 55296 || in_bounds 57344 r 1114111

abbrev tail_byte : ℕ → ℕ
tail_byte n = 128 + n % 64

-- EncodeRune, of a rune that has an encoding
abbrev encode_valid : ℕ → List ℕ
encode_valid r =
    if ltb r 128
    then r ∷ []
    else if ltb r 2048
    then (192 + r / 64) ∷ tail_byte r ∷ []
    else if ltb r 65536
    then (224 + r / 4096) ∷ tail_byte (r / 64) ∷ tail_byte r ∷ []
    else (240 + r / 262144) ∷ tail_byte (r / 4096) ∷ tail_byte (r / 64) ∷ tail_byte r ∷ []

unfoldable pub encode_rune : ℕ → List ℕ
encode_rune r = encode_valid (if is_encodable r then r else rune_error)
