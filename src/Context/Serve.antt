-- ===== src/Context/Serve.antt =====
-- ServeHTTP of core/engine.go: the context from the pool, the match, the chain and the reset.
use gin_t.Common.{
  ℕ, ◌+◌, ◌<◌, ◌≡◌, refl, ap, Bool, true, false, not, ◌==◌, Option, none, some, List, [], ◌∷◌, ◌++◌,
  length, if◌then◌else◌,
}
use gin_t.Text.{Bytes}
use gin_t.Outcome.{Outcome, ok, ◌>>=◌}
use gin_t.Tree.Node.{RouterNode}
use gin_t.Router.{Matched, match}
use gin_t.Context.{Context, Action, Event, start, finish, reset}
use gin_t.Context.Straight.{AllStraight}
use gin_t.Context.Chain.{run_through, start-run_through}

pub record Engine : Type 0 where
  pub trees : List (Bytes × RouterNode (List (Option (List Action))))
  pub interceptors : List (Option (List Action))
  pub not_found : List Action
  pub pool : List Context

-- dispatchContext: the zero value, but for what ServeHTTP sets
abbrev pub zero_context : Context
zero_context = record {
  matched = false;
  escape = false;
  index = 0;
  abort_index = 0;
  status = 0;
  written = false;
  items = none;
  params = none;
  group = [];
  full_path = [];
  events = [];
  works = [];
}

-- e.pool.Get(), with the writer of the new request
abbrev pub take_context : List Context → Context
take_context [] = zero_context
take_context (c ∷ pool) = record c { events = []; works = [] }

abbrev left_in_pool : List Context → List Context
left_in_pool [] = []
left_in_pool (c ∷ pool) = pool

abbrev pub group_of : Option (List (Option (List Action))) → List (Option (List Action))
group_of none = []
group_of (some group) = group

-- The context behind the match: the handlers to run.
unfoldable pub prepare : Engine → Bool → Matched (List (Option (List Action))) → Context → Context
prepare e found m c = record c {
  matched = found;
  params = m.params;
  full_path = m.full_path;
  group = if found then e.interceptors ++ group_of m.group else some e.not_found ∷ [];
}

-- The engine behind the request, and what the writer got. `fuel` bounds the rounds of the chain.
unfoldable pub serve_http : ℕ → Engine → Bytes → Bytes → Outcome (Engine × List Event)
unfolding prepare
serve_http fuel e method path = do
  let c = take_context e.pool
  (found, m) ←
      match e.trees method path
        (record { full_path = c.full_path; params = c.params; group = none })
  done ← start fuel (prepare e found m c)
  let pool = left_in_pool e.pool
  ok (record e { pool = if not done.escape then reset done ∷ pool else pool }, done.events)

-- A context that a request can take.
pub record IsReady (c : Context) : Type 0 where
  pub at_start : c.index ≡ 0
  pub not_aborted : c.abort_index ≡ 0
  pub no_status : c.status ≡ 0
  pub not_written : c.written ≡ false
  pub unmatched : c.matched ≡ false
  pub not_escaped : c.escape ≡ false

abbrev pub AllReady : List Context → Type 0
AllReady [] = Unit
AllReady (c ∷ pool) = IsReady c × AllReady pool

reset-IsReady : (c : Context) → c.escape ≡ false → IsReady (reset c)
unfolding reset
reset-IsReady c kept = record {
  at_start = refl;
  not_aborted = refl;
  no_status = refl;
  not_written = refl;
  unmatched = refl;
  not_escaped = kept;
}

pub take_context-IsReady : (pool : List Context) → AllReady pool → IsReady (take_context pool)
take_context-IsReady [] r = record {
  at_start = refl;
  not_aborted = refl;
  no_status = refl;
  not_written = refl;
  unmatched = refl;
  not_escaped = refl;
}
take_context-IsReady (c ∷ pool) r = record {
  at_start = r.0.at_start;
  not_aborted = r.0.not_aborted;
  no_status = r.0.no_status;
  not_written = r.0.not_written;
  unmatched = r.0.unmatched;
  not_escaped = r.0.not_escaped;
}

left_in_pool-AllReady : (pool : List Context) → AllReady pool → AllReady (left_in_pool pool)
left_in_pool-AllReady [] r = tt
left_in_pool-AllReady (c ∷ pool) r = r.1

put_back :
    (escape : Bool) (c : Context) (pool : List Context)
    → (escape ≡ false → IsReady c)
    → AllReady pool
    → AllReady (if not escape then c ∷ pool else pool)
put_back true c pool ready r = r
put_back false c pool ready r = (ready refl, r)

-- The chain that a request has to run: the interceptors and then the handlers of its route, or the
-- handler for an unmatched request alone.
abbrev pub chain_for :
    Engine → Bool → Matched (List (Option (List Action))) → List (Option (List Action))
chain_for e true m = e.interceptors ++ group_of m.group
chain_for e false m = some e.not_found ∷ []

-- The context that it runs on.
abbrev pub context_for : Engine → Bool → Matched (List (Option (List Action))) → Context
context_for e found m = record (take_context e.pool) {
  matched = found;
  params = m.params;
  full_path = m.full_path;
  group = chain_for e found m;
}

-- The context behind the chain.
abbrev pub ran : Engine → Bool → Matched (List (Option (List Action))) → Context
ran e found m = finish (run_through 1 (chain_for e found m) (context_for e found m))

prepare-context_for :
    (e : Engine) (found : Bool) (m : Matched (List (Option (List Action))))
    → prepare e found m (take_context e.pool) ≡ context_for e found m
unfolding prepare
prepare-context_for e true m = refl
prepare-context_for e false m = refl

-- A request that getValue decides, whose handlers do not call Next, and which has at most 254 of them
-- to run: ServeHTTP returns. The writer gets what the chain sends, one handler after the other: the
-- interceptors and then the handlers of the route that matched, or the handler for an unmatched
-- request alone. Every context of the pool is ready again: its index, its abort index, its status and
-- its marks are those of a new one. Items, parameters and caches are not reset, as in the code.
pub serve_http-run_through :
    (e : Engine) (method path : Bytes) (found : Bool) (m : Matched (List (Option (List Action))))
    → AllReady e.pool
    → match e.trees method path (record {
      full_path = (take_context e.pool).full_path;
      params = (take_context e.pool).params;
      group = none;
    })
      ≡ ok (found, m)
    → AllStraight (chain_for e found m)
    → length (chain_for e found m) < 255
    → (e' : Engine) × (serve_http (length (chain_for e found m) + 1) e method path
        ≡ ok (e', (ran e found m).events))
      × AllReady e'.pool
unfolding serve_http
serve_http-run_through e method path found m ready matched straight small =
    let fit = take_context-IsReady e.pool ready in
    let run =
      start-run_through (context_for e found m) fit.at_start
        (ap (λ i. not (i == 0)) fit.not_aborted) straight small in
    let done = ran e found m in
    let pool = left_in_pool e.pool in
    (
      record e { pool = if not done.escape then reset done ∷ pool else pool },
      rw (matched, prepare-context_for e found m, run) refl,
      put_back done.escape (reset done) pool (reset-IsReady done)
          (left_in_pool-AllReady e.pool ready),
    )
