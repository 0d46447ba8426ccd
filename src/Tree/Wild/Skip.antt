-- ===== src/Tree/Wild/Skip.antt =====
-- The loops of insertChild on bytes that are no wildcards.
use gin_t.Common.{
  ℕ, zero, suc, ◌+◌, ◌≡◌, refl, ap, ◌∙◌, false, Option, List, [], ◌∷◌, ◌++◌, arith, length, drop,
  ◌==◌,
}
use gin_t.Outcome.{ok, index}
use gin_t.Tree.Node.{Info, node, nil}
use gin_t.Tree.Insert.{is_wildcard, count_wildcards, find_end, insert_from}

-- No byte of a wildcard's name ends it.
abbrev pub IsName : List ℕ → Type 0
IsName [] = Unit
IsName (c ∷ s) = ((c == b'/') ≡ false) × (is_wildcard c ≡ false) × IsName s

pub find_end-IsName : (s : List ℕ) (end : ℕ) → IsName s → find_end s end ≡ ok (end + length s)
unfolding find_end
find_end-IsName [] end h = ap ok (omega arith)
find_end-IsName (c ∷ s) end h = ground (arith, find_end-IsName s (suc end) h.2)

pub drop_head :
    (s : List ℕ) (i c : ℕ) (r : List ℕ)
    → drop i s ≡ c ∷ r
    → (index s i ≡ ok c) × (drop (suc i) s ≡ r)
unfolding index
drop_head [] zero c r e = cc
drop_head [] (suc i) c r e = cc
drop_head (a ∷ s) zero c r e = ground (arith, e)
drop_head (a ∷ s) (suc i) c r e = drop_head s i c r e

pub count-tame :
    (c : ℕ) (s : List ℕ)
    → count_wildcards (c ∷ s) ≡ 0
    → (is_wildcard c ≡ false) × (count_wildcards s ≡ 0)
count-tame c s e = ground arith

module _ {H : Type 0} (path : List ℕ) (handle : Option H) (offset w : ℕ) (n : Info H) where
  skip_one :
      (fuel i c : ℕ)
      → index path i ≡ ok c
      → is_wildcard c ≡ false
      → insert_from (suc fuel) path handle i offset (suc w) (node n nil)
        ≡ insert_from fuel path handle (i + 1) offset (suc w) (node n nil)
  unfolding insert_from
  skip_one fuel i c at plain = ground (arith, at, plain)

  -- The loop passes over bytes that are no wildcards.
  pub insert_from-skip :
      (s after : List ℕ) (fuel i total j : ℕ)
      → drop i path ≡ s ++ after
      → count_wildcards s ≡ 0
      → total ≡ length s + fuel
      → j ≡ i + length s
      → insert_from total path handle i offset (suc w) (node n nil)
        ≡ insert_from fuel path handle j offset (suc w) (node n nil)
  insert_from-skip [] after fuel i total j e tame et ej =
      let et' : total ≡ fuel = omega arith in let ej' : j ≡ i = omega arith in rw (et', ej') refl
  insert_from-skip (c ∷ s) after fuel i zero j e tame et ej = absurd (omega arith)
  insert_from-skip (c ∷ s) after fuel i (suc total) j e tame et ej =
      let (at, rest) = drop_head path i c (s ++ after) e in
      let (plain, tame') = count-tame c s tame in
      let next : i + 1 ≡ suc i = omega arith in
      skip_one total i c at plain
      ∙ insert_from-skip s after fuel (i + 1) total j (rw next rest) tame' (omega arith)
          (omega arith)
