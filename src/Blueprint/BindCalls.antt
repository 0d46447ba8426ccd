-- ===== src/Blueprint/BindCalls.antt =====
-- Bind of core/blue_print.go, of a struct, as the calls of Handle that it comes down to.
use gin_t.Common.{
  ℕ, ◌≡◌, refl, sym, ◌∙◌, Bool, Bool-cases, Option-cases, true, ◌&&◌, inl, inr, Option, none, some,
  List, [], ◌∷◌, ◌++◌, if◌then◌else◌,
}
use gin_t.Text.{Bytes}
use gin_t.Outcome.{Outcome, ok, panic, out_of_fuel, invalid_method, not_a_struct, ◌>>=◌}
use gin_t.Blueprint.Store.{Store, BluePrint, load}
use gin_t.Blueprint.Register.{find_method, handle, bind_mapping, bind_mappings, bind_struct}
use gin_t.Blueprint.Shares.{with_node, new_node, handled, handle-handled}
use gin_t.Blueprint.BindStruct.{all_legal, detect_illegal_method_lem}

-- No mapping names a method that HTTP lacks.
abbrev pub mappings_legal : List (List (Bytes × Bytes)) → Bool
mappings_legal [] = true
mappings_legal (mapping ∷ mappings) = all_legal mapping && mappings_legal mappings

module _ {H : Type 0} where
  -- The call for a name that is bound to an HTTP method: there is one if the struct has a method of
  -- the name, which is a handler.
  abbrev call_for : Option (Option H) → Bytes → List (Bytes × H)
  call_for (some (some h)) method = (method, h) ∷ []
  call_for _ method = []

  abbrev calls_for : List (Bytes × Option H) → List (Bytes × Bytes) → List (Bytes × H)
  calls_for methods [] = []
  calls_for methods ((name, method) ∷ mapping) =
      call_for (find_method methods name) method ++ calls_for methods mapping

  -- The calls of all mappings, in their order.
  abbrev pub all_calls : List (Bytes × Option H) → List (List (Bytes × Bytes)) → List (Bytes × H)
  all_calls methods [] = []
  all_calls methods (mapping ∷ mappings) = calls_for methods mapping ++ all_calls methods mappings

  -- What Bind comes down to, from the calls and the result of them.
  abbrev pub bind_of :
      Option (List (Bytes × Option H))
      → List (List (Bytes × Bytes))
      → Outcome (Store H)
      → Outcome (Store H)
  bind_of none mappings done = panic not_a_struct
  bind_of (some methods) mappings done =
      if mappings_legal mappings then done else panic invalid_method

  abbrev pub methods_of : Option (List (Bytes × Option H)) → List (Bytes × Option H)
  methods_of none = []
  methods_of (some methods) = methods

module _ {H : Type 0} (grow : ℕ → ℕ → ℕ) where
  -- Handle for each of these methods and handlers.
  abbrev pub handle_all : Store H → ℕ → Bytes → List (Bytes × H) → Outcome (Store H)
  handle_all w b path [] = ok w
  handle_all w b path ((method, h) ∷ calls) = do
    w' ← handle grow w b method path (h ∷ [])
    handle_all w' b path calls

  same_next :
      (o : Outcome (Store H)) (f g : Store H → Outcome (Store H))
      → ((w : Store H) → f w ≡ g w)
      → (o >>= f) ≡ (o >>= g)
  same_next (ok w) f g e = e w
  same_next (panic x) f g e = refl
  same_next out_of_fuel f g e = refl

  assoc :
      (o : Outcome (Store H)) (f g : Store H → Outcome (Store H))
      → ((o >>= f) >>= g) ≡ (o >>= λ w. f w >>= g)
  assoc (ok w) f g = refl
  assoc (panic x) f g = refl
  assoc out_of_fuel f g = refl

  handle_all-append :
      (w : Store H) (b : ℕ) (path : Bytes) (xs ys : List (Bytes × H))
      → handle_all w b path (xs ++ ys) ≡ (handle_all w b path xs >>= λ w'. handle_all w' b path ys)
  handle_all-append w b path [] ys = refl
  handle_all-append w b path ((method, h) ∷ xs) ys =
      same_next (handle grow w b method path (h ∷ [])) (λ w'. handle_all w' b path (xs ++ ys))
        (λ w'. handle_all w' b path xs >>= λ w''. handle_all w'' b path ys)
        (λ w'. handle_all-append w' b path xs ys)
      ∙ sym (
          assoc (handle grow w b method path (h ∷ [])) (λ w'. handle_all w' b path xs)
            (λ w'. handle_all w' b path ys))

  bind_mapping-handle_all :
      (w : Store H) (b : ℕ) (path : Bytes) (methods : List (Bytes × Option H))
      (mapping : List (Bytes × Bytes))
      → bind_mapping grow w b path methods mapping ≡ handle_all w b path (calls_for methods mapping)
  unfolding bind_mapping
  bind_mapping-handle_all w b path methods [] = refl
  bind_mapping-handle_all w b path methods ((name, method) ∷ mapping) =
      elim (Option-cases (find_method methods name)) [
        | inl e ↦ rw (bind_mapping, e) (bind_mapping-handle_all w b path methods mapping)
        | inr (none, e) ↦ rw (bind_mapping, e) (bind_mapping-handle_all w b path methods mapping)
        | inr (some h, e) ↦
            rw (bind_mapping, e)
              (same_next (handle grow w b method path (h ∷ []))
                (λ w'. bind_mapping grow w' b path methods mapping)
                (λ w'. handle_all w' b path (calls_for methods mapping))
                (λ w'. bind_mapping-handle_all w' b path methods mapping))
      ]

  -- For a blueprint of the store, all these calls return.
  handle_all-ok :
      (w : Store H) (b : ℕ) (bp : BluePrint) (path : Bytes) (calls : List (Bytes × H))
      → load w b ≡ ok bp
      → (w' : Store H) × (bp' : BluePrint) × (handle_all w b path calls ≡ ok w')
        × (load w' b ≡ ok bp')
  handle_all-ok w b bp path [] here = (w, bp, refl, here)
  handle_all-ok w b bp path ((method, h) ∷ calls) here =
      let (run, there) = handle-handled grow w b bp method path (h ∷ []) here in
      let (w', bp', rest, at) =
        handle_all-ok (handled grow w b bp method path (h ∷ [])) b
          (with_node method (new_node grow w b bp path (h ∷ [])) bp) path calls there in
      (w', bp', rw run rest, at)

  bind_mappings-handle_all :
      (w : Store H) (b : ℕ) (bp : BluePrint) (path : Bytes) (methods : List (Bytes × Option H))
      (mappings : List (List (Bytes × Bytes)))
      → load w b ≡ ok bp
      → bind_mappings grow w b path methods mappings ≡ (
          if mappings_legal mappings
          then handle_all w b path (all_calls methods mappings)
          else panic invalid_method)
  unfolding bind_mappings
  bind_mappings-handle_all w b bp path methods [] here = refl
  bind_mappings-handle_all w b bp path methods (mapping ∷ mappings) here =
      elim (Bool-cases (all_legal mapping)) [
        | inr bad ↦ rw (detect_illegal_method_lem mapping, bad) refl
        | inl good ↦
            let (w', bp', run, there) =
              handle_all-ok w b bp path (calls_for methods mapping) here in
            rw
              (
                detect_illegal_method_lem mapping,
                good,
                bind_mapping-handle_all w b path methods mapping,
                handle_all-append w b path (calls_for methods mapping) (all_calls methods mappings),
                run,
              )
              (bind_mappings-handle_all w' b bp' path methods mappings there)
      ]

pub bind_struct-handle_all :
    {H : Type 0} (grow : ℕ → ℕ → ℕ) (w : Store H) (b : ℕ) (bp : BluePrint) (path : Bytes)
    (value : Option (List (Bytes × Option H))) (mappings : List (List (Bytes × Bytes)))
    → load w b ≡ ok bp
    → (w' : Store H) × (handle_all grow w b path (all_calls (methods_of value) mappings) ≡ ok w')
      × (bind_struct grow w b path value mappings ≡ bind_of value mappings (ok w'))
unfolding bind_struct
bind_struct-handle_all grow w b bp path none mappings here =
    let (w', bp', run, there) = handle_all-ok grow w b bp path (all_calls [] mappings) here in
    (w', run, refl)
bind_struct-handle_all grow w b bp path (some methods) mappings here =
    let (w', bp', run, there) = handle_all-ok grow w b bp path (all_calls methods mappings) here in
    (w', run, rw (bind_mappings-handle_all grow w b bp path methods mappings here, run) refl)
