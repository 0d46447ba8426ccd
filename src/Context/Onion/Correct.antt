-- ===== src/Context/Onion/Correct.antt =====
-- The loop of Next against the onion of the handlers.
use gin_t.Common.{
  ℕ, zero, suc, ◌+◌, ◌<◌, ◌≤◌, ◌≡◌, refl, sym, ap, ◌∙◌, Bool, Bool-cases, true, false, not, ◌==◌,
  inl, inr, Option, some, List, [], ◌∷◌, ◌++◌, map, length, length-append, arith, if◌then◌else◌,
}
use mathlib.Core.List.{append_assoc}
use gin_t.Outcome.{ok, ◌>>=◌}
use gin_t.Tree.Node.{u8}
use gin_t.Context.{
  Context, Action, run_handler, loop, going, current, next_from, finish, start, is_aborted, advance,
}
use gin_t.Context.Chain.{going_within, going_behind, going_aborted, current_at, loop_end}
use gin_t.Context.Onion.{view, wrap, onion, nexts, cost, finish-view}
use gin_t.Context.Onion.Behind.{Runs, moved, runs_handler}

loop_open :
    (h : List Action) (c : Context) (fuel : ℕ)
    → going c ≡ true
    → current c ≡ ok h
    → loop (suc fuel) c
      ≡ (run_handler (λ d. loop fuel (advance d)) h c >>= λ c'. loop fuel (advance c'))
unfolding loop
loop_open h c fuel on at = ground (arith, on, at)

length-cost : (hs : List (List Action)) → length hs ≤ cost hs
length-cost [] = omega arith
length-cost (h ∷ hs) = omega (arith, length-cost hs)

length-some : (hs : List (List Action)) → length (map (λ h. some h) hs) ≡ length hs
length-some [] = refl
length-some (h ∷ hs) = ap suc (length-some hs)

is_aborted-view : (c : Context) → is_aborted (view c) ≡ is_aborted c
is_aborted-view c = on (is_aborted c)
  where
    on : (b : Bool) → not ((if b then 1 else 0) == 0) ≡ b
    on true = refl
    on false = refl

onion-stopped :
    (h : List Action) (hs : List (List Action)) (d : Context)
    → is_aborted d ≡ true
    → d ≡ onion (h ∷ hs) d
onion-stopped h hs d e = rw e refl

onion-on :
    (h : List Action) (hs : List (List Action)) (d : Context)
    → is_aborted d ≡ false
    → wrap (onion hs) h d ≡ onion (h ∷ hs) d
onion-on h hs d e = rw e refl

runs_loop :
    (pre : List (Option (List Action))) (hs : List (List Action)) (c : Context) (fuel : ℕ)
    → c.group ≡ pre ++ map (λ h. some h) hs
    → c.index ≡ suc (length pre)
    → length hs ≤ fuel
    → c.index + cost hs < 255
    → Runs (loop (suc fuel) c) c (onion hs (view c)) (cost hs)
runs_loop pre [] c fuel eg ei low bound =
    let size : length c.group ≡ length pre =
      ap (λ g. length g) eg ∙ length-append pre [] ∙ omega arith in
    record {
      result = c;
      run = loop_end c fuel (going_behind c (omega (arith, size)) (omega (arith, size)));
      seen = refl;
      low = omega arith;
      high = omega arith;
      group = refl;
      over = inr (omega (arith, size));
    }
runs_loop pre (h ∷ hs) c zero eg ei low bound = absurd (omega arith)
runs_loop pre (h ∷ hs) c (suc fuel) eg ei low bound = elim (Bool-cases (is_aborted c)) [
  | inl stopped ↦ record {
    result = c;
    run = loop_end c (suc fuel) (going_aborted c stopped);
    seen = onion-stopped h hs (view c) (is_aborted-view c ∙ stopped);
    low = omega arith;
    high = omega arith;
    group = refl;
    over = inl stopped;
  }
  | inr on ↦
      let size : length c.group ≡ length pre + suc (length hs) =
        ap (λ g. length g) eg
        ∙ length-append pre (map (λ x. some x) (h ∷ hs))
        ∙ ap (λ n. length pre + n) (length-some (h ∷ hs)) in
      let split : pre ++ map (λ x. some x) (h ∷ hs) ≡ (pre ++ some h ∷ []) ++ map (λ x. some x) hs =
        sym (append_assoc pre (some h ∷ []) (map (λ x. some x) hs)) in
      let grown : length (pre ++ some h ∷ []) ≡ suc (length pre) =
        length-append pre (some h ∷ []) ∙ omega arith in
      let many = length-cost hs in
      moved c c _ _ _ _ (suc (cost hs) + nexts h) (cost (h ∷ hs))
        (loop_open h c (suc fuel)
          (going_within c (omega (arith, size)) (omega (arith, size, many)) on)
          (current_at pre h (map (λ x. some x) hs) c eg ei (omega (arith, many))))
        (onion-on h hs (view c) (is_aborted-view c ∙ on)) (omega arith) (omega arith) refl
        (runs_handler h hs c fuel (omega (arith, size, many)) (omega arith) (omega arith)
          (λ d ei' eg'.
            runs_loop (pre ++ some h ∷ []) hs d fuel (eg' ∙ eg ∙ split)
              (ei' ∙ ap suc (ei ∙ sym grown)) (omega arith) (omega (arith, ei'))))
]

-- A chain of handlers that may call Next, in which the handlers and the calls of Next are at most
-- 253: for a fresh context, Next and finish return, with enough rounds, and leave what the onion of
-- the handlers leaves, but for the index. A handler runs around the ones behind it at its first call
-- of Next, and before them if it does not call Next; none starts on a context that is aborted.
pub start-onion :
    (hs : List (List Action)) (c : Context)
    → c.group ≡ map (λ h. some h) hs
    → c.index ≡ 0
    → cost hs < 254
    → (c' : Context) × (start (suc (length hs)) c ≡ ok c') × (view c' ≡ finish (onion hs (view c)))
unfolding start next_from
start-onion hs c eg ei small =
    let at : (advance c).index ≡ 1 = ap (λ i. u8 (i + 1)) ei in
    let runs = runs_loop [] hs (advance c) (length hs) eg at (omega arith) (omega (arith, at)) in
    (finish runs.result, rw runs.run refl, finish-view runs.result ∙ ap finish runs.seen)
