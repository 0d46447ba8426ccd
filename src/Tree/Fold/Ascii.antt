-- ===== src/Tree/Fold/Ascii.antt =====
-- One round of fpRec at a node whose path ends before an ASCII byte of the path that is looked up.
use gin_t.Common.{
  ℕ, zero, suc, ◌-◌, ◌<◌, ◌≡◌, ◌≢◌, refl, inl, inr, true, false, Bool-cases, Option, none, some,
  List, [], ◌∷◌, length, drop, leb, ◌==◌, arith,
}
use native.Mathlib.Decide.{ℕ_discrete}
use gin_t.Text.Runes.{rune_start, decode_rune, encode_rune, rune_tail}
use gin_t.Outcome.{Outcome, ok}
use gin_t.Tree.Node.{Info}
use gin_t.Tree.Walk.{index_of}
use gin_t.Tree.Wild.Skip.{drop_head}
use gin_t.Tree.Fold.{
  shift_rune_bytes, put_rune, LetterCase, RuneBytes, Folded, find_rune, fold_at, fold_upper,
  fold_below, min3,
}
use gin_t.Tree.Fold.Variant.{IsForm, IsCase}

decode_rune-ascii : (c : ℕ) (s : List ℕ) → c < 128 → decode_rune (c ∷ s) ≡ c
unfolding decode_rune rune_tail
decode_rune-ascii c s h = ground arith

encode_rune-ascii : (c : ℕ) → c < 128 → encode_rune c ≡ c ∷ []
unfolding encode_rune
encode_rune-ascii c h = ground arith

find_rune-ascii :
    (rounds from c : ℕ) (path r : List ℕ)
    → drop from path ≡ c ∷ r
    → c < 128
    → find_rune (suc rounds) 0 from path ≡ ok (c, 0)
unfolding find_rune
find_rune-ascii rounds from c path r e h =
    let (at, _) = drop_head path from c r e in
    let from' : from - 0 ≡ from = omega arith in
    let start : rune_start c ≡ true = ground arith in
    rw (from', at, start, e, decode_rune-ascii c r h) refl

-- No byte of a rune is left.
abbrev pub IsSpent : RuneBytes → Type 0
IsSpent rb = (rb.b1 ≡ 0) × (rb.b2 ≡ 0) × (rb.b3 ≡ 0)

abbrev pub no_rune : RuneBytes
no_rune = record { b0 = 0; b1 = 0; b2 = 0; b3 = 0 }

shift_rune_bytes-IsSpent :
    (rb : RuneBytes) (n : ℕ) → IsSpent rb → shift_rune_bytes rb (suc n) ≡ no_rune
unfolding shift_rune_bytes
shift_rune_bytes-IsSpent rb zero (e1, e2, e3) = rw (e1, e2, e3) refl
shift_rune_bytes-IsSpent rb (suc zero) (e1, e2, e3) = rw (e2, e3) refl
shift_rune_bytes-IsSpent rb (suc (suc zero)) (e1, e2, e3) = rw e3 refl
shift_rune_bytes-IsSpent rb (suc (suc (suc n))) h = refl

abbrev pub one_byte : ℕ → RuneBytes
one_byte c = record { b0 = c; b1 = 0; b2 = 0; b3 = 0 }

put_ascii :
    (c d : ℕ) → c < 128 → shift_rune_bytes (put_rune (encode_rune c) (one_byte d)) 0 ≡ one_byte c
unfolding shift_rune_bytes put_rune
put_ascii c d h = rw (encode_rune-ascii c h) refl

abbrev Returns : Outcome Folded → Type 0
Returns o = (x : Folded) × (o ≡ ok x)

abbrev pub Finds : Outcome Folded → Type 0
Finds o = (out : List ℕ) × (o ≡ ok (out, true))

fold_at-Returns :
    (o : Option ℕ) (child : ℕ → RuneBytes → Outcome Folded) (rb : RuneBytes) (x : Folded)
    → ((k : ℕ) → o ≡ some k → Returns (child k rb))
    → Returns (fold_at o child rb x)
unfolding fold_at
fold_at-Returns none child rb x h = (x, refl)
fold_at-Returns (some k) child rb x h = h k refl

fold_at-Finds :
    (o : Option ℕ) (child : ℕ → RuneBytes → Outcome Folded) (rb : RuneBytes) (x : Folded) (k : ℕ)
    → o ≡ some k
    → Finds (child k rb)
    → Finds (fold_at o child rb x)
unfolding fold_at
fold_at-Finds o child rb x k e h = rw e h

min3-suc : (n : ℕ) → 0 < n → (j : ℕ) × (min3 n ≡ suc j)
min3-suc n h = elim (Bool-cases (leb n 3)) [
  | inl b ↦ (n - 1, rw b (omega arith))
  | inr b ↦ (2, rw b refl)
]

module _ {H : Type 0} (u : LetterCase) (cased : IsCase u) (n : Info H) (c d : ℕ)
    (form : IsForm u c d) where
  -- the answer for the upper case
  fold_upper-Finds :
      (path ci : List ℕ) (child : ℕ → RuneBytes → Outcome Folded) (x : Folded) (k : ℕ)
      → u.to_lower c ≢ d
      → index_of d n.indices 0 ≡ some k
      → Finds (child k (one_byte d))
      → Finds (fold_upper u false n c 0 path ci (one_byte (u.to_lower c)) child x)
  unfolding fold_upper
  fold_upper-Finds path ci child (out, true) k ne at h = (out, refl)
  fold_upper-Finds path ci child (out, false) k ne at h =
      let up : u.to_upper c ≡ d = elim form.1 [ inl e ↦ absurd (ne e) | inr e ↦ e ] in
      let apart : (u.to_upper c == u.to_lower c) ≡ false = ground arith in
      let upper = put_ascii (u.to_upper c) (u.to_lower c) (cased.upper_ascii c form.0) in
      rw (apart, upper, up) (fold_at-Finds _ child (one_byte d) (ci, false) k at h)

  pub fold_below-Finds :
      (old path ci r : List ℕ) (child : ℕ → RuneBytes → Outcome Folded) (k : ℕ)
      → 0 < length n.path
      → drop (length n.path) old ≡ c ∷ r
      → ((b j : ℕ) → index_of b n.indices 0 ≡ some j → Returns (child j (one_byte b)))
      → index_of d n.indices 0 ≡ some k
      → Finds (child k (one_byte d))
      → Finds (fold_below u false n old path ci no_rune child)
  unfolding fold_below fold_upper
  fold_below-Finds old path ci r child k long e returns at h =
      let lo : ℕ = u.to_lower c in
      let (j, rounds) = min3-suc (length n.path) long in
      let start = find_rune-ascii j (length n.path) c old r e form.0 in
      let lower = put_ascii lo 0 (cased.lower_ascii c form.0) in
      rw (rounds, start, lower)
        (elim (ℕ_discrete lo d) [
          | yes same ↦
              let (out, run) =
                fold_at-Finds (index_of lo n.indices 0) child (one_byte lo) (ci, false) k
                  (rw same at) (rw same h) in
              rw run (out, refl)
          | no ne ↦
              let (x, run) =
                fold_at-Returns (index_of lo n.indices 0) child (one_byte lo) (ci, false)
                  (returns lo) in
              rw run (fold_upper-Finds path ci child x k ne at h)
        ])

pub shift_long : (n : ℕ) (rb : RuneBytes) → 0 < n → IsSpent rb → shift_rune_bytes rb n ≡ no_rune
shift_long zero rb long h = absurd (omega arith)
shift_long (suc n) rb long h = shift_rune_bytes-IsSpent rb n h
