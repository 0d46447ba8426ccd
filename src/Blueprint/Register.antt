-- ===== src/Blueprint/Register.antt =====
-- The registration of routes: Use, SetPrefix, Handle, register, Include, ANY, Static and Bind.
use gin_t.Common.{
  ℕ, ◌-◌, Bool, false, not, ◌&&◌, ◌||◌, Option, none, some, List, [], ◌∷◌, ◌++◌, map, length, drop,
  leb, ◌==◌, list_eq, if◌then◌else◌,
}
use gin_t.Text.{Bytes, codes}
use gin_t.Outcome.{
  Outcome, ok, panic, wildcard_in_static, invalid_method, not_a_struct, ◌>>=◌, ◌>>◌, panic_if,
}
use gin_t.Blueprint.Slice.{append_slice}
use gin_t.Blueprint.Store.{HandleNode, Store, load, store}

-- httpMethods of core/http.go
abbrev pub http_methods : List Bytes
http_methods =
    codes "GET"
    ∷ codes "POST"
    ∷ codes "PUT"
    ∷ codes "PATCH"
    ∷ codes "DELETE"
    ∷ codes "OPTIONS"
    ∷ codes "HEAD"
    ∷ codes "TRACE"
    ∷ []

-- strings.ToUpper, on ASCII letters: the name of a method has no others.
abbrev pub to_upper : Bytes → Bytes
to_upper s = map (λ c. if leb b'a' c && leb c b'z' then c - 32 else c) s

-- b.methodsTree[m] = append(b.methodsTree[m], node)
unfoldable pub add_node :
    List (Bytes × List HandleNode) → Bytes → HandleNode → List (Bytes × List HandleNode)
add_node [] method node = (method, node ∷ []) ∷ []
add_node ((m, nodes) ∷ tree) method node =
    let rest = add_node tree method node in
    if list_eq m method then (m, nodes ++ node ∷ []) ∷ tree else (m, nodes) ∷ rest

unfoldable pub find_nodes : List (Bytes × List HandleNode) → Bytes → List HandleNode
find_nodes [] method = []
find_nodes ((m, nodes) ∷ tree) method = if list_eq m method then nodes else find_nodes tree method

-- The methods that a registration is for: "*" is all of them.
abbrev pub methods_for : Bytes → List Bytes
methods_for method = if list_eq method (codes "*") then http_methods else method ∷ []

-- the loop over the methods
unfoldable pub add_to_all :
    List Bytes → HandleNode → List (Bytes × List HandleNode) → List (Bytes × List HandleNode)
unfolding add_node
add_to_all [] node tree = tree
add_to_all (m ∷ methods) node tree = add_to_all methods node (add_node tree (to_upper m) node)

-- strings.HasSuffix and strings.Contains(url, "*")
abbrev pub ends_in : Bytes → Bytes → Bool
ends_in s t = leb (length t) (length s) && list_eq (drop (length s - length t) s) t

abbrev pub has_star : Bytes → Bool
has_star [] = false
has_star (c ∷ s) = c == b'*' || has_star s

abbrev pub among : Bytes → List Bytes → Bool
among m [] = false
among m (k ∷ methods) = list_eq k m || among m methods

-- A mapping from the names of methods of a struct to HTTP methods.
unfoldable pub detect_illegal_method : List (Bytes × Bytes) → Outcome (List (Bytes × Bytes))
detect_illegal_method [] = ok []
detect_illegal_method ((name, method) ∷ mapping) = do
  panic_if (not (among (to_upper method) http_methods)) invalid_method
  cleaned ← detect_illegal_method mapping
  ok ((name, method) ∷ cleaned)

-- value.MethodByName
unfoldable pub find_method {ℓ} : {A : Type ℓ} → List (Bytes × A) → Bytes → Option A
find_method [] name = none
find_method ((k, a) ∷ methods) name = if list_eq k name then some a else find_method methods name

module _ {H : Type 0} where
  unfoldable pub register : Store H → ℕ → Bytes → HandleNode → Outcome (Store H)
  unfolding load add_to_all
  register w b method node = do
    bp ← load w b
    ok (
        store w b
          (record bp { methods_tree = add_to_all (methods_for method) node bp.methods_tree }))

  unfoldable pub set_prefix : Store H → ℕ → Bytes → Outcome (Store H)
  unfolding load
  set_prefix w b path = do bp ← load w b; ok (store w b (record bp { prefix = path }))

  -- `grow` is how the runtime grows an array.
  module _ (grow : ℕ → ℕ → ℕ) where
    unfoldable pub use_middleware : Store H → ℕ → List H → Outcome (Store H)
    unfolding load append_slice
    use_middleware w b handlers = do
      bp ← load w b
      let (arrays, slice) =
          append_slice grow none w.arrays bp.middleware (map (λ x. some x) handlers)
      ok (store (record w { arrays = arrays }) b (record bp { middleware = slice }))

    -- Handle: the handlers are appended to the slice of the middleware.
    unfoldable pub handle : Store H → ℕ → Bytes → Bytes → List H → Outcome (Store H)
    unfolding register append_slice
    handle w b method path handlers = do
      bp ← load w b
      let (arrays, slice) =
          append_slice grow none w.arrays bp.middleware (map (λ x. some x) handlers)
      register (record w { arrays = arrays }) b method
          (record { path = bp.prefix ++ path; handles = slice; blueprint = b })

    -- ANY
    unfoldable pub handle_each : Store H → ℕ → List Bytes → Bytes → List H → Outcome (Store H)
    unfolding handle
    handle_each w b [] path handlers = ok w
    handle_each w b (m ∷ methods) path handlers = do
      w' ← handle w b m path handlers
      handle_each w' b methods path handlers

    unfoldable pub any : Store H → ℕ → Bytes → List H → Outcome (Store H)
    unfolding handle_each
    any w b path handlers = handle_each w b http_methods path handlers

    -- Static: `file_handle` is the handler that serves the directory. No text ends both in "static"
    -- and in "/", so that the slash is never added.
    unfoldable pub static : Store H → ℕ → Bytes → List H → H → Outcome (Store H)
    unfolding handle
    static w b url handlers file_handle =
        if has_star url
        then panic wildcard_in_static
        else handle w b (codes "GET")
            ((if ends_in url (codes "static") && ends_in url (codes "/")
                then url ++ codes "/"
                else url)
              ++ codes "*static")
            (handlers ++ file_handle ∷ [])

    -- the loop of Bind over one mapping; the methods of the struct are what reflection shows, `none`
    -- for one that is no HandleFunc
    unfoldable pub bind_mapping :
        Store H → ℕ → Bytes → List (Bytes × Option H) → List (Bytes × Bytes) → Outcome (Store H)
    unfolding handle find_method
    bind_mapping w b path methods [] = ok w
    bind_mapping w b path methods ((name, method) ∷ mapping) = elim (find_method methods name) [
      | some (some h) ↦ do
        w' ← handle w b method path (h ∷ [])
        bind_mapping w' b path methods mapping
      | _ ↦ bind_mapping w b path methods mapping
    ]

    unfoldable pub bind_mappings :
        Store H
        → ℕ
        → Bytes
        → List (Bytes × Option H)
        → List (List (Bytes × Bytes))
        → Outcome (Store H)
    unfolding bind_mapping detect_illegal_method
    bind_mappings w b path methods [] = ok w
    bind_mappings w b path methods (mapping ∷ mappings) = do
      cleaned ← detect_illegal_method mapping
      w' ← bind_mapping w b path methods cleaned
      bind_mappings w' b path methods mappings

    -- Bind, of a struct with these methods, or of a value that is no struct
    unfoldable pub bind_struct :
        Store H
        → ℕ
        → Bytes
        → Option (List (Bytes × Option H))
        → List (List (Bytes × Bytes))
        → Outcome (Store H)
    unfolding bind_mappings
    bind_struct w b path none mappings = panic not_a_struct
    bind_struct w b path (some methods) mappings = bind_mappings w b path methods mappings

    unfoldable bind_method :
        Store H
        → ℕ
        → Bytes
        → Option (List (Bytes × Option H))
        → List (List (Bytes × Bytes))
        → Outcome (Store H)
    unfolding bind_struct
    bind_method w b path value mappings =
        bind_struct w b path value (mappings ++ map (λ m. (m, m)) http_methods ∷ [])

  -- Include: the nodes of the branch, in a copy with the prefix. The branch may be the blueprint itself.
  unfoldable pub include_nodes :
      Store H → ℕ → ℕ → Bytes → Bytes → List HandleNode → Outcome (Store H)
  unfolding register
  include_nodes w b branch prefix method [] = ok w
  include_nodes w b branch prefix method (node ∷ nodes) = do
    w' ←
        register w b method
          (record { path = prefix ++ node.path; handles = node.handles; blueprint = branch })
    include_nodes w' b branch prefix method nodes

  unfoldable pub include_tree :
      Store H → ℕ → ℕ → Bytes → List (Bytes × List HandleNode) → Outcome (Store H)
  unfolding include_nodes
  include_tree w b branch prefix [] = ok w
  include_tree w b branch prefix ((method, nodes) ∷ tree) = do
    w' ← include_nodes w b branch prefix method nodes
    include_tree w' b branch prefix tree

  unfoldable pub include : Store H → ℕ → Bytes → ℕ → Outcome (Store H)
  unfolding include_tree
  include w b prefix branch = do
    bp ← load w branch
    include_tree (store w branch (record bp { parent = some b })) b branch prefix bp.methods_tree
