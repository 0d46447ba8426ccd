-- ===== src/Context/Straight.antt =====
-- Handlers that do not call Next: what they do to the context, and what they leave alone.
use gin_t.Common.{ℕ, ◌≡◌, refl, ◌∙◌, Bool-cases, inl, inr, Option, none, some, List, [], ◌∷◌, ◌==◌}
use gin_t.Outcome.{Outcome, ok}
use gin_t.Context.{
  Context, Action, next, abort, work, set_status, abort_with_status, respond, set_value, perform,
  run_handler, render, body_allowed,
}

-- A handler that does not call Next.
abbrev pub IsStraight : List Action → Type 0
IsStraight [] = Unit
IsStraight (next ∷ actions) = ⊥
IsStraight (action ∷ actions) = IsStraight actions

-- Handlers that are there, and do not call Next.
abbrev pub AllStraight : List (Option (List Action)) → Type 0
AllStraight [] = Unit
AllStraight (none ∷ hs) = ⊥
AllStraight (some h ∷ hs) = IsStraight h × AllStraight hs

abbrev pub perform_all : List Action → Context → Context
perform_all [] c = c
perform_all (action ∷ actions) c = perform_all actions (perform action c)

pub run_handler-IsStraight :
    (rest : Context → Outcome Context) (h : List Action) (c : Context)
    → IsStraight h
    → run_handler rest h c ≡ ok (perform_all h c)
unfolding run_handler
run_handler-IsStraight rest [] c s = refl
run_handler-IsStraight rest (next ∷ actions) c s = elim s [ ]
run_handler-IsStraight rest (abort ∷ actions) c s = run_handler-IsStraight rest actions _ s
run_handler-IsStraight rest (work n ∷ actions) c s = run_handler-IsStraight rest actions _ s
run_handler-IsStraight rest (set_status n ∷ actions) c s = run_handler-IsStraight rest actions _ s
run_handler-IsStraight rest (abort_with_status n ∷ actions) c s =
    run_handler-IsStraight rest actions _ s
run_handler-IsStraight rest (respond n ∷ actions) c s = run_handler-IsStraight rest actions _ s
run_handler-IsStraight rest (set_value k n ∷ actions) c s = run_handler-IsStraight rest actions _ s

-- No action but Next moves the index or changes the handlers.
pub record Keeps (c c' : Context) : Type 0 where
  pub same_index : c'.index ≡ c.index
  pub same_group : c'.group ≡ c.group

render-Keeps : (n : ℕ) (c : Context) → Keeps c (render n c)
unfolding render
render-Keeps n c = elim (Bool-cases (c.status == 0)) [
  | inl b ↦ elim (Bool-cases (body_allowed c.status)) [
    | inl d ↦ rw (b, d) (record { same_index = refl; same_group = refl })
    | inr d ↦ rw (b, d) (record { same_index = refl; same_group = refl })
  ]
  | inr b ↦ rw b (record { same_index = refl; same_group = refl })
]

pub perform-Keeps : (a : Action) (c : Context) → Keeps c (perform a c)
unfolding perform
perform-Keeps next c = record { same_index = refl; same_group = refl }
perform-Keeps abort c = record { same_index = refl; same_group = refl }
perform-Keeps (work n) c = record { same_index = refl; same_group = refl }
perform-Keeps (set_status n) c = record { same_index = refl; same_group = refl }
perform-Keeps (abort_with_status n) c = record { same_index = refl; same_group = refl }
perform-Keeps (respond n) c = render-Keeps n c
perform-Keeps (set_value k n) c = record { same_index = refl; same_group = refl }

pub perform_all-Keeps : (h : List Action) (c : Context) → Keeps c (perform_all h c)
perform_all-Keeps [] c = record { same_index = refl; same_group = refl }
perform_all-Keeps (a ∷ h) c =
    let first = perform-Keeps a c in
    let rest = perform_all-Keeps h (perform a c) in
    record {
      same_index = rest.same_index ∙ first.same_index;
      same_group = rest.same_group ∙ first.same_group;
    }
