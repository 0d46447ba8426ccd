-- ===== src/Context/Onion/Behind.antt =====
-- A handler, with what the handlers behind it do.
use gin_t.Common.{
  ℕ, suc, ◌+◌, ◌<◌, ◌≤◌, ◌≡◌, refl, sym, ap, ◌∙◌, Bool-cases, true, false, ◌==◌, inl, inr, Option,
  List, [], ◌∷◌, length, arith,
}
use gin_t.Outcome.{Outcome, ok, ◌>>=◌}
use gin_t.Context.{
  Context, Action, next, abort, work, set_status, abort_with_status, respond, set_value, perform,
  run_handler, render, body_allowed, loop, going, is_aborted, advance,
}
use gin_t.Context.Straight.{perform_all, perform-Keeps}
use gin_t.Context.Chain.{going_behind, going_aborted, loop_end}
use gin_t.Context.Onion.{
  view, wrap, onion, nexts, cost, IsOver, next_or_IsStraight, step, started, perform-view,
}

render-aborted : (n : ℕ) (c : Context) → is_aborted (render n c) ≡ is_aborted c
unfolding render
render-aborted n c = elim (Bool-cases (c.status == 0)) [
  | inl b ↦ elim (Bool-cases (body_allowed c.status)) [ inl d ↦ rw (b, d) | inr d ↦ rw (b, d) ]
  | inr b ↦ rw b
]

perform-aborted :
    (a : Action) (c : Context) → 1 ≤ c.index → is_aborted c ≡ true → is_aborted (perform a c) ≡ true
unfolding perform
perform-aborted next c i e = e
perform-aborted abort c i e = started c.index i
perform-aborted (work n) c i e = e
perform-aborted (set_status n) c i e = e
perform-aborted (abort_with_status n) c i e = started c.index i
perform-aborted (respond n) c i e = render-aborted n c ∙ e
perform-aborted (set_value k n) c i e = e

perform-IsOver : (a : Action) (c : Context) → 1 ≤ c.index → IsOver c → IsOver (perform a c)
perform-IsOver a c i (inl e) = inl (perform-aborted a c i e)
perform-IsOver a c i (inr lt) =
    let kept = perform-Keeps a c in
    inr (omega (arith, kept.same_index, ap (λ g. length g) kept.same_group))

-- A run that returns with the view `d`, with no handler left, and with the index moved by at most `k`.
pub record Runs (r : Outcome Context) (c d : Context) (k : ℕ) : Type 0 where
  pub result : Context
  pub run : r ≡ ok result
  pub seen : view result ≡ d
  pub low : c.index ≤ result.index
  pub high : result.index ≤ c.index + k
  pub group : result.group ≡ c.group
  pub over : IsOver result

going_over : (c : Context) → IsOver c → length c.group < 255 → going c ≡ false
going_over c (inl e) small = going_aborted c e
going_over c (inr lt) small = going_behind c lt (omega arith)

IsOver-advance : (c : Context) → IsOver c → c.index < 255 → IsOver (advance c)
IsOver-advance c (inl e) lt = inl e
IsOver-advance c (inr l) lt = inr (omega arith)

pub moved :
    (c c' : Context) (r r' : Outcome Context) (d d' : Context) (k k' : ℕ)
    → r' ≡ r
    → d ≡ d'
    → c.index ≤ c'.index
    → c'.index + k ≤ c.index + k'
    → c'.group ≡ c.group
    → Runs r c' d k
    → Runs r' c d' k'
moved c c' r r' d d' k k' er ed le le' eg runs = record {
  result = runs.result;
  run = er ∙ runs.run;
  seen = runs.seen ∙ ed;
  low = omega (arith, runs.low);
  high = omega (arith, runs.high);
  group = runs.group ∙ eg;
  over = runs.over;
}

-- The part of a handler behind its first call of Next.
runs_behind :
    (actions : List Action) (c : Context) (fuel : ℕ)
    → IsOver c
    → 1 ≤ c.index
    → c.index + nexts actions < 255
    → length c.group < 255
    → Runs
        (run_handler (λ d. loop (suc fuel) (advance d)) actions c)
        c
        (perform_all actions (view c))
        (nexts actions)
unfolding run_handler
runs_behind [] c fuel over i bound small = record {
  result = c;
  run = refl;
  seen = refl;
  low = omega arith;
  high = omega arith;
  group = refl;
  over = over;
}
runs_behind (a ∷ actions) c fuel over i bound small = elim (next_or_IsStraight a) [
  | inl e ↦ rw e (
      let size : nexts (next ∷ actions) ≡ suc (nexts actions) = refl in
      let count : nexts (a ∷ actions) ≡ suc (nexts actions) = ap (λ x. nexts (x ∷ actions)) e in
      let at : (advance c).index ≡ suc c.index = omega arith in
      let stopped : loop (suc fuel) (advance c) ≡ ok (advance c) =
        loop_end (advance c) fuel
          (going_over (advance c) (IsOver-advance c over (omega arith)) small) in
      moved c (advance c) (run_handler (λ d. loop (suc fuel) (advance d)) actions (advance c)) _ _ _
        (nexts actions) (suc (nexts actions)) (rw stopped refl) refl (omega (arith, at))
        (omega (arith, at)) refl
        (runs_behind actions (advance c) fuel (IsOver-advance c over (omega arith))
          (omega (arith, at)) (omega (arith, at)) small))
  | inr s ↦
      let one = step a s in
      let kept = perform-Keeps a c in
      let fewer : nexts (a ∷ actions) ≡ nexts actions = one.counted actions in
      let few : length (perform a c).group < 255 = rw kept.same_group small in
      moved c (perform a c) (run_handler (λ d. loop (suc fuel) (advance d)) actions (perform a c)) _
        (perform_all actions (view (perform a c))) _ (nexts actions) (nexts (a ∷ actions))
        (one.handled (λ d. loop (suc fuel) (advance d)) actions c)
        (ap (perform_all actions) (perform-view a c i)) (omega (arith, kept.same_index))
        (omega (arith, kept.same_index)) kept.same_group
        (runs_behind actions (perform a c) fuel (perform-IsOver a c i over)
          (omega (arith, kept.same_index)) (omega (arith, kept.same_index)) few)
]

-- What the handlers behind do, at the index `i` and in a context with the handlers `g`.
abbrev RunsBehind : List (List Action) → List (Option (List Action)) → ℕ → ℕ → Type 0
RunsBehind hs g i fuel =
    (d : Context)
    → d.index ≡ i
    → d.group ≡ g
    → Runs (loop (suc fuel) d) d (onion hs (view d)) (cost hs)

after_behind :
    (actions : List Action) (hs : List (List Action)) (c : Context) (fuel : ℕ)
    → length c.group < 255
    → 1 ≤ c.index
    → suc (c.index + cost hs + suc (nexts actions)) < 255
    → (first : Runs (loop (suc fuel) (advance c)) (advance c) (onion hs (view c)) (cost hs))
    → Runs
        (run_handler (λ d. loop (suc fuel) (advance d)) (next ∷ actions) c >>= λ c'.
          loop (suc fuel) (advance c'))
        c
        (perform_all actions (onion hs (view c)))
        (suc (cost hs) + suc (nexts actions))
unfolding run_handler
after_behind actions hs c fuel small i bound first =
    let at : (advance c).index ≡ suc c.index = omega arith in
    let few : length first.result.group < 255 = rw first.group small in
    let second =
      runs_behind actions first.result fuel first.over (omega (arith, first.low, at))
        (omega (arith, first.high, at)) few in
    let last : (advance second.result).index ≡ suc second.result.index =
      omega (arith, first.high, second.high, at) in
    let fewer : length second.result.group < 255 = rw second.group few in
    let over =
      IsOver-advance second.result second.over (omega (arith, last, first.high, second.high, at)) in
    record {
      result = advance second.result;
      run =
          rw (first.run, second.run)
            (loop_end (advance second.result) fuel (going_over (advance second.result) over fewer));
      seen = second.seen ∙ ap (perform_all actions) first.seen;
      low = omega (arith, last, first.low, second.low, at);
      high = omega (arith, last, first.high, second.high, at);
      group = second.group ∙ first.group;
      over = over;
    }

pub runs_handler :
    (actions : List Action) (hs : List (List Action)) (c : Context) (fuel : ℕ)
    → length c.group < 255
    → 1 ≤ c.index
    → suc (c.index + cost hs + nexts actions) < 255
    → RunsBehind hs c.group (suc c.index) fuel
    → Runs
        (run_handler (λ d. loop (suc fuel) (advance d)) actions c >>= λ c'.
          loop (suc fuel) (advance c'))
        c
        (wrap (onion hs) actions (view c))
        (suc (cost hs) + nexts actions)
unfolding run_handler
runs_handler [] hs c fuel small i bound behind =
    let at : (advance c).index ≡ suc c.index = omega arith in
    moved c (advance c) _ _ _ _ (cost hs) (suc (cost hs) + 0) refl refl (omega (arith, at))
      (omega (arith, at)) refl (behind (advance c) at refl)
runs_handler (a ∷ actions) hs c fuel small i bound behind = elim (next_or_IsStraight a) [
  | inl e ↦
      let count : nexts (a ∷ actions) ≡ suc (nexts actions) = ap (λ x. nexts (x ∷ actions)) e in
      let at : (advance c).index ≡ suc c.index = omega arith in
      rw e
        (after_behind actions hs c fuel small i (omega (arith, count)) (behind (advance c) at refl))
  | inr s ↦
      let one = step a s in
      let kept = perform-Keeps a c in
      let fewer : nexts (a ∷ actions) ≡ nexts actions = one.counted actions in
      moved c (perform a c) _ _ _ _ (suc (cost hs) + nexts actions)
        (suc (cost hs) + nexts (a ∷ actions))
        (ap (λ r. r >>= λ c'. loop (suc fuel) (advance c'))
          (one.handled (λ d. loop (suc fuel) (advance d)) actions c))
        (ap (wrap (onion hs) actions) (perform-view a c i)
          ∙ sym (one.wrapped (onion hs) actions (view c)))
        (omega (arith, kept.same_index)) (omega (arith, kept.same_index)) kept.same_group
        (runs_handler actions hs (perform a c) fuel (rw kept.same_group small)
          (omega (arith, kept.same_index)) (omega (arith, kept.same_index))
          (λ d ei eg. behind d (ei ∙ ap suc kept.same_index) (eg ∙ kept.same_group)))
]
