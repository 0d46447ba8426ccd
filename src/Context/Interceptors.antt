-- ===== src/Context/Interceptors.antt =====
-- AddInterceptors of core/engine.go.
use gin_t.Common.{
  ℕ, suc, ◌+◌, ◌<◌, ◌≡◌, refl, ap, true, false, not, ◌==◌, Option, none, some, List, [], ◌∷◌, ◌++◌,
  map, length, arith,
}
use gin_t.Text.{Bytes}
use gin_t.Outcome.{ok, panic, nil_dereference, index}
use gin_t.Tree.Node.{u8}
use gin_t.Router.{Matched, match}
use gin_t.Context.{Context, Action, advance, loop, going, current, start, next_from, is_aborted}
use gin_t.Context.Chain.{going_within}
use gin_t.Context.Serve.{
  Engine, serve_http, prepare, take_context, group_of, AllReady, take_context-IsReady,
}

-- make([]*handleFuncNode, n)
abbrev nil_nodes {ℓ} : {A : Type ℓ} → List A → List (Option A)
nil_nodes [] = []
nil_nodes (m ∷ middlewares) = none ∷ nil_nodes middlewares

-- The nodes are appended behind as many nil pointers.
unfoldable pub add_interceptors : List (List Action) → Engine → Engine
add_interceptors middlewares e = record e {
  interceptors = e.interceptors ++ (nil_nodes middlewares ++ map (λ m. some m) middlewares);
}

stops :
    (d : Context) (fuel : ℕ)
    → going d ≡ true
    → current d ≡ panic nil_dereference
    → loop (suc fuel) d ≡ panic nil_dereference
unfolding loop
stops d fuel on at = ground (arith, on, at)

first_nil :
    (d : Context) (rest : List (Option (List Action)))
    → d.index ≡ 1
    → d.group ≡ none ∷ rest
    → current d ≡ panic nil_dereference
unfolding current index
first_nil d rest ei eg = rw (ei, eg) refl

start-nil :
    (c : Context) (rest : List (Option (List Action))) (fuel : ℕ)
    → c.index ≡ 0
    → is_aborted c ≡ false
    → c.group ≡ none ∷ rest
    → length c.group < 256
    → start (suc fuel) c ≡ panic nil_dereference
unfolding start next_from
start-nil c rest fuel ei running eg small =
    let one : (advance c).index ≡ 1 = ap (λ i. u8 (i + 1)) ei in
    let size : length c.group ≡ suc (length rest) = ap (λ g. length g) eg in
    rw
      (stops (advance c) fuel (going_within (advance c) (omega (arith, one, size)) small running)
        (first_nil (advance c) rest one eg))
      refl

-- After AddInterceptors of at least one handler, to an engine that has none, each request that is
-- matched panics at the first nil pointer, if the interceptors and the handlers are at most 255.
pub serve_http-add_interceptors :
    (e : Engine) (first : List Action) (more : List (List Action)) (method path : Bytes)
    (m : Matched (List (Option (List Action)))) (fuel : ℕ)
    → e.interceptors ≡ []
    → AllReady e.pool
    → match e.trees method path (record {
      full_path = (take_context e.pool).full_path;
      params = (take_context e.pool).params;
      group = none;
    })
      ≡ ok (true, m)
    → length (prepare (add_interceptors (first ∷ more) e) true m (take_context e.pool)).group < 256
    → serve_http (suc fuel) (add_interceptors (first ∷ more) e) method path ≡ panic nil_dereference
unfolding serve_http prepare add_interceptors
serve_http-add_interceptors e first more method path m fuel empty ready matched small =
    let c = prepare (add_interceptors (first ∷ more) e) true m (take_context e.pool) in
    let fit = take_context-IsReady e.pool ready in
    let begins : c.group
        ≡ none ∷ ((nil_nodes more ++ map (λ h. some h) (first ∷ more)) ++ group_of m.group) =
      ap
        (λ i.
          (i ++ (nil_nodes (first ∷ more) ++ map (λ h. some h) (first ∷ more))) ++ group_of m.group)
        empty in
    rw
      (
        matched,
        start-nil c _ fuel fit.at_start (ap (λ i. not (i == 0)) fit.not_aborted) begins small,
      )
      refl
