-- ===== src/Blueprint/BindStruct.antt =====
-- Bind of a struct, and Static.
use gin_t.Common.{
  ℕ, ◌≡◌, refl, sym, ap, ◌∙◌, Bool, Bool-cases, true, false, ◌&&◌, inl, inr, List, [], ◌∷◌, ◌++◌,
  length, drop, leb, leb→le, zero, suc, ◌+◌, ◌-◌, ◌≤◌, list_eq, list_eq_iff, if◌then◌else◌, arith,
}
use gin_t.Text.{Bytes, codes}
use gin_t.Outcome.{ok, panic, invalid_method, wildcard_in_static, ◌>>=◌}
use gin_t.Blueprint.Store.{Store}
use gin_t.Blueprint.Register.{
  to_upper, http_methods, among, has_star, ends_in, detect_illegal_method, handle, static,
}

-- Every method of a mapping is one of HTTP.
abbrev pub all_legal : List (Bytes × Bytes) → Bool
all_legal [] = true
all_legal ((name, method) ∷ mapping) = among (to_upper method) http_methods && all_legal mapping

pub detect_illegal_method_lem :
    (mapping : List (Bytes × Bytes))
    → detect_illegal_method mapping
      ≡ (if all_legal mapping then ok mapping else panic invalid_method)
unfolding detect_illegal_method
detect_illegal_method_lem [] = refl
detect_illegal_method_lem ((name, method) ∷ mapping) =
    elim (Bool-cases (among (to_upper method) http_methods)) [
      | inr b ↦ rw b refl
      | inl b ↦ rw (b, detect_illegal_method_lem mapping) (on (all_legal mapping))
    ]
  where
    on :
        (b : Bool)
        → ((if b then ok mapping else panic invalid_method) >>= λ cleaned.
            ok ((name, method) ∷ cleaned))
          ≡ (if b then ok ((name, method) ∷ mapping) else panic invalid_method)
    on true = refl
    on false = refl

drop_none : (n : ℕ) → drop {A = ℕ} n [] ≡ []
drop_none zero = refl
drop_none (suc n) = refl

drop-drop : (j k : ℕ) (s : Bytes) → drop j (drop k s) ≡ drop (k + j) s
drop-drop j zero s = ap (λ n. drop n s) (omega arith)
drop-drop j (suc k) [] = drop_none j ∙ sym (drop_none (suc k + j))
drop-drop j (suc k) (c ∷ s) =
    let place : suc k + j ≡ suc (k + j) = omega arith in rw place (drop-drop j k s)

ends_in-static : (url : Bytes) → (ends_in url (codes "static") && ends_in url (codes "/")) ≡ false
unfolding list_eq
ends_in-static url = elim (Bool-cases (leb 6 (length url))) [
  | inr b ↦ rw b refl
  | inl b ↦ elim (Bool-cases (list_eq (drop (length url - 6) url) (codes "static"))) [
    | inr c ↦ rw (b, c) refl
    | inl c ↦
        rw (b, c, last c (omega (arith, leb→le 6 (length url) b))) (and_false (leb 1 (length url)))
  ]
]
  where
    and_false : (b : Bool) → (b && false) ≡ false
    and_false true = refl
    and_false false = refl

    last :
        list_eq (drop (length url - 6) url) (codes "static") ≡ true
        → 6 ≤ length url
        → list_eq (drop (length url - 1) url) (codes "/") ≡ false
    last c le =
        let place : length url - 1 ≡ (length url - 6) + 5 = omega arith in
        rw
          (
            place,
            ← drop-drop 5 (length url - 6) url,
            (list_eq_iff (drop (length url - 6) url) (codes "static")).0 c,
          )
          refl

-- Static panics for a path with a star; otherwise it is Handle of GET for the path and "*static", with
-- the handlers and then the one that serves the files. The slash that the code adds under a condition
-- is added to no path.
static-handle :
    {H : Type 0} (grow : ℕ → ℕ → ℕ) (w : Store H) (b : ℕ) (url : Bytes) (handlers : List H)
    (file_handle : H)
    → static grow w b url handlers file_handle ≡ (
        if has_star url
        then panic wildcard_in_static
        else handle grow w b (codes "GET") (url ++ codes "*static") (handlers ++ file_handle ∷ []))
unfolding static
static-handle grow w b url handlers file_handle = rw (ends_in-static url) refl
