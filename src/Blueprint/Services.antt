-- ===== src/Blueprint/Services.antt =====
-- The services of a blueprint, found through its parents.
use gin_t.Common.{
  ℕ, zero, suc, ◌≡◌, refl, Option, Option-cases, inl, inr, none, some, List, [], ◌∷◌, length,
}
use gin_t.Outcome.{ok, out_of_fuel}
use gin_t.Blueprint.Store.{Service, BluePrint, Store, load, find_service}

module _ {H : Type 0} where
  -- A blueprint and its ancestors, up to a root.
  pub data Lineage (w : Store H) : ℕ → List BluePrint → Type 0 where
    top : {b : ℕ} (bp : BluePrint) → load w b ≡ ok bp → bp.parent ≡ none → Lineage w b (bp ∷ [])
    below :
        {b : ℕ} {bps : List BluePrint} (bp : BluePrint) (p : ℕ)
        → load w b ≡ ok bp
        → bp.parent ≡ some p
        → Lineage w p bps
        → Lineage w b (bp ∷ bps)

abbrev pub first_of : List BluePrint → Service → Option ℕ
first_of [] s = none
first_of (bp ∷ bps) s = elim (bp.services s) [ some v ↦ some v | none ↦ first_of bps s ]

module _ {H : Type 0} where
  -- A blueprint whose parents lead to a root has the service of its nearest ancestor, itself first,
  -- that has one, and none if no ancestor has it; as many calls as there are ancestors are enough.
  pub find_service-Lineage :
      {w : Store H} {b : ℕ} {bps : List BluePrint} (s : Service)
      → Lineage w b bps
      → find_service (length bps) w b s ≡ ok (first_of bps s)
  unfolding find_service
  find_service-Lineage s (top bp e root) = elim (Option-cases (bp.services s)) [
    | inl unset ↦ rw (e, unset, root)
    | inr (v, set) ↦ rw (e, set)
  ]
  find_service-Lineage s (below bp p e child rest) = elim (Option-cases (bp.services s)) [
    | inl unset ↦ rw (e, unset, child) (find_service-Lineage s rest)
    | inr (v, set) ↦ rw (e, set)
  ]

  -- A set of blueprints in which each has a parent in the set, and none has the service.
  pub record IsCycle (w : Store H) (s : Service) (Member : ℕ → Type 0) : Type 0 where
    pub next :
        (b : ℕ)
        → Member b
        → (bp : BluePrint) × (p : ℕ) × (load w b ≡ ok bp)
          × (bp.services s ≡ none)
          × (bp.parent ≡ some p)
          × Member p

  -- From a cycle of parents without the service, the recursion ends after no number of calls.
  pub find_service-IsCycle :
      (w : Store H) (s : Service) (Member : ℕ → Type 0) (b : ℕ) (fuel : ℕ)
      → IsCycle w s Member
      → Member b
      → find_service fuel w b s ≡ out_of_fuel
  unfolding find_service
  find_service-IsCycle w s Member b zero c mem = refl
  find_service-IsCycle w s Member b (suc fuel) c mem =
      let (bp, p, e, unset, child, mem') = c.next b mem in
      rw (e, unset, child) (find_service-IsCycle w s Member p fuel c mem')
