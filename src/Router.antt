-- ===== src/Router.antt =====
-- HttpRouter of core/router.go: one tree for each method.
pub mod Dispatch
mod Samples
use gin_t.Common.{
  ℕ, Bool, true, false, not, Option, none, some, List, [], ◌∷◌, list_eq, ◌==◌, if◌then◌else◌,
}
use gin_t.Text.{Bytes}
use gin_t.Outcome.{Outcome, ok, panic, path_must_begin_with_slash, ◌>>=◌, ◌>>◌, panic_if}
use gin_t.Tree.Node.{Info, RouterNode, node, nil, blank, info_of}
use gin_t.Tree.Walk.{add_route}
use gin_t.Tree.Lookup.{Param, Found, get_value, is_some}

-- "len(path) < 1 || path[0] != '/'"
abbrev pub no_slash : Bytes → Bool
no_slash [] = true
no_slash (c ∷ s) = not (c == b'/')

-- What Match writes into the context; the fields keep their values if there is no tree.
pub record Matched (H : Type 0) : Type 0 where
  pub full_path : Bytes
  pub params : Option (List Param)
  pub group : Option H

module _ {H : Type 0} where
  -- the map, and r[method]
  unfoldable pub find_tree : List (Bytes × RouterNode H) → Bytes → Option (RouterNode H)
  find_tree [] method = none
  find_tree ((m, t) ∷ trees) method = if list_eq m method then some t else find_tree trees method

  -- r[method] = t
  unfoldable pub set_tree :
      List (Bytes × RouterNode H) → Bytes → RouterNode H → List (Bytes × RouterNode H)
  set_tree [] method t = (method, t) ∷ []
  set_tree ((m, old) ∷ trees) method t =
      let rest = set_tree trees method t in
      if list_eq m method then (m, t) ∷ trees else (m, old) ∷ rest

  abbrev pub or_new : Option (RouterNode H) → RouterNode H
  or_new none = node blank nil
  or_new (some t) = t

  unfoldable pub insert :
      Bytes → Bytes → Option H → List (Bytes × RouterNode H) → Outcome (List (Bytes × RouterNode H))
  insert method path handle trees = do
    panic_if (no_slash path) path_must_begin_with_slash
    grown ← add_route path handle (or_new (find_tree trees method))
    ok (set_tree trees method grown)

  -- The Boolean result, and the context's fields.
  unfoldable pub match :
      List (Bytes × RouterNode H) → Bytes → Bytes → Matched H → Outcome (Bool × Matched H)
  match trees method path ctx = elim (find_tree trees method) [
    | none ↦ ok (false, ctx)
    | some t ↦ do
      found ← get_value t path none
      ok (
        is_some found.handle,
        record { full_path = (info_of t).full_path; params = found.params; group = found.handle },
      )
  ]
