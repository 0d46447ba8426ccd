-- ===== src/Context/Onion.antt =====
-- Chains whose handlers call Next: a handler that does runs around the ones behind it.
pub mod Behind
pub mod Correct
use gin_t.Common.{
  ℕ, zero, suc, ◌+◌, ◌<◌, ◌≤◌, ◌≡◌, refl, sym, ap, ◌∙◌, ◌⊎◌, Bool, Bool-cases, true, false, not,
  ◌&&◌, ◌==◌, inl, inr, Option, some, List, [], ◌∷◌, ◌++◌, map, length, length-append, arith,
  if◌then◌else◌,
}
use mathlib.Core.List.{append_assoc}
use gin_t.Outcome.{Outcome, ok, ◌>>=◌}
use gin_t.Tree.Node.{u8}
use gin_t.Context.{
  Context, Action, next, abort, work, set_status, abort_with_status, respond, set_value, perform,
  run_handler, render, body_allowed, loop, going, current, next_from, finish, start, is_aborted,
  advance,
}
use gin_t.Context.Straight.{IsStraight, perform_all, perform-Keeps}
use gin_t.Context.Chain.{going_within, going_behind, going_aborted, current_at, loop_end}

-- A context without its index: 1 stands for any index, and for that of any abort.
abbrev pub view : Context → Context
view c = record c { index = 1; abort_index = if is_aborted c then 1 else 0 }

-- A handler, with the ones behind it as `rest`: they run at its first call of Next, or behind it if
-- it calls Next nowhere; further calls of Next do nothing.
abbrev pub wrap : (Context → Context) → List Action → Context → Context
wrap rest [] c = rest c
wrap rest (next ∷ actions) c = perform_all actions (rest c)
wrap rest (action ∷ actions) c = wrap rest actions (perform action c)

-- The chain, up to the first handler that finds the context aborted.
abbrev pub onion : List (List Action) → Context → Context
onion [] c = c
onion (h ∷ hs) c = let around = wrap (onion hs) h c in if is_aborted c then c else around

abbrev pub nexts : List Action → ℕ
nexts [] = 0
nexts (next ∷ actions) = suc (nexts actions)
nexts (action ∷ actions) = nexts actions

-- What a chain adds to the index: one for each handler and each call of Next.
abbrev pub cost : List (List Action) → ℕ
cost [] = 0
cost (h ∷ hs) = suc (nexts h) + cost hs

-- Next has no handler left to run.
abbrev pub IsOver : Context → Type 0
IsOver c = (is_aborted c ≡ true) ⊎ (length c.group < c.index)

pub next_or_IsStraight : (a : Action) → (a ≡ next) ⊎ (IsStraight (a ∷ []))
next_or_IsStraight next = inl refl
next_or_IsStraight abort = inr tt
next_or_IsStraight (work n) = inr tt
next_or_IsStraight (set_status n) = inr tt
next_or_IsStraight (abort_with_status n) = inr tt
next_or_IsStraight (respond n) = inr tt
next_or_IsStraight (set_value k n) = inr tt

-- An action that is no call of Next, in the code and in the two readings of a handler.
pub record IsStep (a : Action) : Type 0 where
  pub handled :
      (rest : Context → Outcome Context) (h : List Action) (c : Context)
      → run_handler rest (a ∷ h) c ≡ run_handler rest h (perform a c)
  pub wrapped :
      (rest : Context → Context) (h : List Action) (c : Context)
      → wrap rest (a ∷ h) c ≡ wrap rest h (perform a c)
  pub counted : (h : List Action) → nexts (a ∷ h) ≡ nexts h

pub step : (a : Action) → IsStraight (a ∷ []) → IsStep a
unfolding run_handler
step next s = elim s [ ]
step abort s = record {
  handled = λ rest h c. refl;
  wrapped = λ rest h c. refl;
  counted = λ h. refl;
}
step (work n) s = record {
  handled = λ rest h c. refl;
  wrapped = λ rest h c. refl;
  counted = λ h. refl;
}
step (set_status n) s = record {
  handled = λ rest h c. refl;
  wrapped = λ rest h c. refl;
  counted = λ h. refl;
}
step (abort_with_status n) s = record {
  handled = λ rest h c. refl;
  wrapped = λ rest h c. refl;
  counted = λ h. refl;
}
step (respond n) s = record {
  handled = λ rest h c. refl;
  wrapped = λ rest h c. refl;
  counted = λ h. refl;
}
step (set_value k n) s = record {
  handled = λ rest h c. refl;
  wrapped = λ rest h c. refl;
  counted = λ h. refl;
}

pub started : (i : ℕ) → 1 ≤ i → not (i == 0) ≡ true
started i h = ground arith

render-view : (n : ℕ) (c : Context) → view (render n c) ≡ render n (view c)
unfolding render
render-view n c = elim (Bool-cases (c.status == 0)) [
  | inl b ↦ elim (Bool-cases (body_allowed c.status)) [ inl d ↦ rw (b, d) | inr d ↦ rw (b, d) ]
  | inr b ↦ rw b
]

-- An action does to the view what it does to the context.
pub perform-view :
    (a : Action) (c : Context) → 1 ≤ c.index → view (perform a c) ≡ perform a (view c)
unfolding perform
perform-view next c i = refl
perform-view abort c i = rw (started c.index i)
perform-view (work n) c i = refl
perform-view (set_status n) c i = refl
perform-view (abort_with_status n) c i = rw (started c.index i)
perform-view (respond n) c i = render-view n c
perform-view (set_value k n) c i = refl

pub finish-view : (c : Context) → view (finish c) ≡ finish (view c)
unfolding finish
finish-view c = elim (Bool-cases (not (c.status == 0) && not c.written)) [
  | inl b ↦ rw b
  | inr b ↦ rw b
]
