-- ===== src/Context/Chain.antt =====
-- The run of a chain of handlers, against recursion over the list of handlers.
use gin_t.Common.{
  ℕ, zero, suc, ◌+◌, ◌<◌, ◌≤◌, ◌≡◌, refl, sym, ap, ◌∙◌, Bool, Bool-cases, true, false, ◌&&◌, inl,
  inr, List, [], ◌∷◌, ◌++◌, leb, length, get_elem?, Option, none, some, length-append, arith,
  if◌then◌else◌,
}
use mathlib.Core.Path.{subst}
use mathlib.Core.List.{append_assoc}
use gin_t.Outcome.{ok, index}
use gin_t.Tree.Node.{u8}
use gin_t.Context.{
  Context, Action, loop, going, current, next_from, finish, start, is_aborted, advance,
}
use gin_t.Context.Straight.{
  IsStraight, AllStraight, perform_all, run_handler-IsStraight, perform_all-Keeps,
}

-- Handler number `i` and the ones behind it, up to the first one that leaves the context aborted, or
-- that is not there.
pub run_through : ℕ → List (Option (List Action)) → Context → Context
run_through i [] c = record c { index = i }
run_through i (none ∷ hs) c = record c { index = i }
run_through i (some h ∷ hs) c =
    let c' = perform_all h (record c { index = i }) in
    let rest = run_through (suc i) hs c' in
    if is_aborted c' then record c' { index = suc i } else rest

get_elem?-length_append :
    {A : Type 0} (pre : List A) (x : A) (rest : List A)
    → get_elem? (pre ++ x ∷ rest) (length pre) ≡ some x
get_elem?-length_append [] x rest = refl
get_elem?-length_append (y ∷ pre) x rest = get_elem?-length_append pre x rest

run_through_index :
    (i j : ℕ) (hs : List (Option (List Action))) (c : Context)
    → run_through i hs (record c { index = j }) ≡ run_through i hs c
unfolding run_through
run_through_index i j [] c = refl
run_through_index i j (none ∷ hs) c = refl
run_through_index i j (some h ∷ hs) c = refl

pub going_within :
    (c : Context)
    → c.index ≤ length c.group
    → length c.group < 256
    → is_aborted c ≡ false
    → going c ≡ true
unfolding going
going_within c le small running =
    let fits : u8 (length c.group) ≡ length c.group = omega arith in
    let low : leb c.index (length c.group) ≡ true = ground arith in rw (fits, low, running)

pub going_behind : (c : Context) → length c.group < c.index → length c.group < 256 → going c ≡ false
unfolding going
going_behind c lt small =
    let fits : u8 (length c.group) ≡ length c.group = omega arith in
    let high : leb c.index (length c.group) ≡ false = ground arith in rw (fits, high)

pub going_aborted : (c : Context) → is_aborted c ≡ true → going c ≡ false
unfolding going
going_aborted c e = rw e (and_false (leb c.index (u8 (length c.group))))
  where
    and_false : (b : Bool) → (b && false) ≡ false
    and_false true = refl
    and_false false = refl

pub current_at :
    (pre : List (Option (List Action))) (h : List Action) (hs : List (Option (List Action)))
    (c : Context)
    → c.group ≡ pre ++ some h ∷ hs
    → c.index ≡ suc (length pre)
    → length pre < 255
    → current c ≡ ok h
unfolding current index
current_at pre h hs c eg ei small =
    let place : u8 (c.index + 255) ≡ length pre = omega arith in
    rw (place, eg, get_elem?-length_append pre (some h) hs)

pub loop_end : (c : Context) (fuel : ℕ) → going c ≡ false → loop (suc fuel) c ≡ ok c
unfolding loop
loop_end c fuel e = ground (arith, e)

loop_round :
    (h : List Action) (c : Context) (fuel : ℕ)
    → going c ≡ true
    → current c ≡ ok h
    → IsStraight h
    → loop (suc fuel) c ≡ loop fuel (advance (perform_all h c))
unfolding loop
loop_round h c fuel on at straight =
    ground (arith, on, at, run_handler-IsStraight (λ d. loop fuel (advance d)) h c straight)

run_aborted :
    (i : ℕ) (h : List Action) (hs : List (Option (List Action))) (c : Context)
    → c.index ≡ i
    → is_aborted (perform_all h c) ≡ true
    → run_through i (some h ∷ hs) c ≡ record (perform_all h c) { index = suc i }
unfolding run_through
run_aborted i h hs c ei stopped =
    subst (λ j. run_through j (some h ∷ hs) c ≡ record (perform_all h c) { index = suc j }) ei
      (rw stopped)

run_on :
    (i : ℕ) (h : List Action) (hs : List (Option (List Action))) (c : Context)
    → c.index ≡ i
    → is_aborted (perform_all h c) ≡ false
    → run_through i (some h ∷ hs) c ≡ run_through (suc i) hs (perform_all h c)
unfolding run_through
run_on i h hs c ei on =
    subst (λ j. run_through j (some h ∷ hs) c ≡ run_through (suc j) hs (perform_all h c)) ei (rw on)

loop-run_through :
    (pre rest : List (Option (List Action))) (c : Context) (fuel : ℕ)
    → c.group ≡ pre ++ rest
    → c.index ≡ suc (length pre)
    → length (pre ++ rest) < 255
    → is_aborted c ≡ false
    → AllStraight rest
    → length rest < fuel
    → loop fuel c ≡ ok (run_through (suc (length pre)) rest c)
unfolding run_through
loop-run_through pre rest c zero eg ei small running straight low = elim low [ ]
loop-run_through pre [] c (suc fuel) eg ei small running straight low =
    let size : length c.group ≡ length pre = rw eg (omega (arith, length-append pre [])) in
    let few : length pre < 255 = omega (arith, length-append pre []) in
    loop_end c fuel (going_behind c (omega arith) (omega arith))
    ∙ ap (λ i. ok (record c { index = i })) ei
loop-run_through pre (none ∷ hs) c (suc fuel) eg ei small running straight low = elim straight [ ]
loop-run_through pre (some h ∷ hs) c (suc zero) eg ei small running straight low =
    absurd (omega arith)
loop-run_through pre (some h ∷ hs) c (suc (suc fuel)) eg ei small running straight low =
    let size : length c.group ≡ length pre + suc (length hs) =
      rw eg (length-append pre (some h ∷ hs)) in
    let few : length pre + suc (length hs) < 255 = omega (arith, length-append pre (some h ∷ hs)) in
    let c1 = perform_all h c in
    let kept = perform_all-Keeps h c in
    let stepped : (advance c1).index ≡ suc (suc (length pre)) = omega (arith, kept.same_index) in
    let grown : length (pre ++ some h ∷ []) ≡ suc (length pre) =
      omega (arith, length-append pre (some h ∷ [])) in
    let split : pre ++ some h ∷ [] ++ hs ≡ pre ++ some h ∷ hs = append_assoc pre (some h ∷ []) hs in
    let round =
      loop_round h c (suc fuel) (going_within c (omega arith) (omega arith) running)
        (current_at pre h hs c eg ei (omega arith)) straight.0 in
    round ∙ elim (Bool-cases (is_aborted c1)) [
      | inl stopped ↦
          loop_end (advance c1) fuel (going_aborted (advance c1) stopped)
          ∙ ap (λ i. ok (record c1 { index = i })) stepped
          ∙ ap ok (sym (run_aborted (suc (length pre)) h hs c ei stopped))
      | inr on ↦
          loop-run_through (pre ++ some h ∷ []) hs (advance c1) (suc fuel)
            (kept.same_group ∙ eg ∙ sym split) (stepped ∙ ap suc (sym grown)) (rw split small) on
            straight.1 (omega arith)
          ∙ ap (λ n. ok (run_through (suc n) hs (advance c1))) grown
          ∙ ap ok (run_through_index (suc (suc (length pre))) ((advance c1).index) hs c1)
          ∙ ap ok (sym (run_on (suc (length pre)) h hs c ei on))
    ]

-- A chain of at most 254 handlers that do not call Next: for a fresh context, Next runs them in
-- their order, each once, up to the first one that leaves the context aborted, and then finish
-- sends the status that no body has sent; no round is missing for want of fuel.
pub start-run_through :
    (c : Context)
    → c.index ≡ 0
    → is_aborted c ≡ false
    → AllStraight c.group
    → length c.group < 255
    → start (length c.group + 1) c ≡ ok (finish (run_through 1 c.group c))
unfolding start next_from
start-run_through c ei running straight small =
    let run =
      loop-run_through [] c.group (advance c) (length c.group + 1) refl (ap (λ i. u8 (i + 1)) ei)
        small running straight (omega arith) in
    rw (run ∙ ap ok (run_through_index 1 (advance c).index c.group c))

going_full : (d : Context) → d.index ≡ 1 → u8 (length d.group) ≡ 0 → going d ≡ false
unfolding going
going_full d e e' = rw (e, e')

-- If the number of handlers is a multiple of 256, Next runs none of them: the number is compared as
-- a uint8.
pub start-overflow :
    (c : Context) (fuel : ℕ)
    → c.index ≡ 0
    → u8 (length c.group) ≡ 0
    → start (suc fuel) c ≡ ok (finish (advance c))
unfolding start next_from
start-overflow c fuel ei full =
    rw (loop_end (advance c) fuel (going_full (advance c) (ap (λ i. u8 (i + 1)) ei) full))
