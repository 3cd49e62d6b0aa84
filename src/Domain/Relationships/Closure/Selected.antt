-- ===== src/Domain/Relationships/Closure/Selected.antt =====
-- The selected resolution of `derive_runtime_closure`, src/netauto/domain/relationships.py, and the
-- reciprocal one.
use netauto.Prelude.{
  ◌≡◌, refl, subst, inl, inr, Bool, true, false, Option, some, List, [], ◌∷◌, arith, Bool-cases,
  Option-cases, Uuid, ◌==◌, ℕ_eq, same_refl, list_eq, option_eq, find, All, contains, distinct,
  Result, ok, err, ◌>>=◌, bind_ok,
}
use netauto.Domain.Errors.{DomainError}
use netauto.Domain.Lineage.{ParentById, lineage_is_ancestor}
use netauto.Domain.Relationships.{
  RelationshipDefinition, validate_definition, RelationshipResolution, resolution_ids,
  check_non_symmetric,
}
use netauto.Domain.Relationships.Closure.{
  Triple, Endpoint, check_selected, exact_closure, symmetric_closure, admits, non_symmetric_closure,
  is_reciprocal_of,
}
use netauto.Domain.Relationships.Closure.Assignments.{Admits}

-- the ids of the rows after the first differ from its id
all_differ :
    (x : RelationshipResolution) (rest : List RelationshipResolution)
    → contains (resolution_ids rest) x.id ≡ false
    → All (λ r. (x.id == r.id) ≡ false) rest
unfolding contains
all_differ x [] h = tt
all_differ x (r ∷ rest) h =
    (ground (arith, ℕ_eq.same_iff x.id r.id), all_differ x rest (ground arith))

abbrev pub by_id : List RelationshipResolution → Uuid → Option RelationshipResolution
by_id rs id = find (λ item. item.id == id) rs

by_id-cons :
    (x : RelationshipResolution) (rs : List RelationshipResolution)
    (ss : List RelationshipResolution)
    → All (λ r. (x.id == r.id) ≡ false) ss
    → All (λ r. by_id rs r.id ≡ some r) ss
    → All (λ r. by_id (x ∷ rs) r.id ≡ some r) ss
unfolding find
by_id-cons x rs [] d h = tt
by_id-cons x rs (r ∷ rest) d h = (rw d.0 h.0, by_id-cons x rs rest d.1 h.1)

-- Where no id stands twice, each resolution is found by its id.
pub by_id-found :
    (rs : List RelationshipResolution)
    → distinct (resolution_ids rs) ≡ true
    → All (λ r. by_id rs r.id ≡ some r) rs
unfolding distinct find
by_id-found [] h = tt
by_id-found (x ∷ rest) h = (
  rw (same_refl x.id) refl,
  by_id-cons x rest rest (all_differ x rest (ground arith)) (by_id-found rest (ground arith)),
)

-- both answers raise
no_answer :
    (m : Result DomainError Bool) (e₁ e₂ : DomainError)
    → (m >>= λ below. elim below as (λ x. Result DomainError (Unit {0})) [
      | true ↦ err e₁
      | false ↦ err e₂
    ])
      ≡ ok tt
    → ⊥
no_answer (ok true) e₁ e₂ h = cc h
no_answer (ok false) e₁ e₂ h = cc h
no_answer (err e) e₁ e₂ h = cc h

module _ (parents : ParentById) where
  pub check_selected-Admits :
      (r : RelationshipResolution) (source target : Endpoint)
      → check_selected parents r source target ≡ ok tt
      → Admits parents r source target true
  unfolding check_selected
  check_selected-Admits r source target h =
      let (b, a, k) = bind_ok (admits parents r source.template_id target.template_id) _ h in
      elim (Bool-cases b) [
        | inl t ↦ subst (Admits parents r source target) t a
        | inr f ↦ absurd (
            no_answer (lineage_is_ancestor parents r.from_template_id source.template_id) _ _
              (rw f at k))
      ]

  pub Admits-check_selected :
      (r : RelationshipResolution) (source target : Endpoint)
      → Admits parents r source target true
      → check_selected parents r source target ≡ ok tt
  unfolding check_selected
  Admits-check_selected r source target h = rw h refl

  -- The loops of one selector.
  unfoldable pub closure_of :
      RelationshipDefinition
      → RelationshipResolution
      → Endpoint
      → Endpoint
      → Result DomainError (List Triple)
  closure_of definition selected source target = elim definition.symmetric [
    | true ↦ symmetric_closure parents definition.resolutions source target []
    | false ↦
        non_symmetric_closure definition.resolutions selected source.object_id target.object_id
  ]

  pub closure_from :
      (definition : RelationshipDefinition) (selected : RelationshipResolution)
      (source target : Endpoint) {exact : List Triple}
      → validate_definition definition ≡ ok tt
      → by_id definition.resolutions selected.id ≡ some selected
      → Admits parents selected source target true
      → closure_of definition selected source target ≡ ok exact
      → exact_closure definition selected.id source target parents ≡ ok exact
  unfolding exact_closure closure_of
  closure_from definition selected source target v f a h =
      rw (v, f, Admits-check_selected selected source target a) h

  pub closure_parts :
      (definition : RelationshipDefinition) (id : Uuid) (source target : Endpoint)
      {exact : List Triple}
      → exact_closure definition id source target parents ≡ ok exact
      → (validate_definition definition ≡ ok tt)
        × ((selected : RelationshipResolution) × (by_id definition.resolutions id ≡ some selected)
            × Admits parents selected source target true
            × (closure_of definition selected source target ≡ ok exact))
  unfolding exact_closure closure_of
  closure_parts definition id source target h =
      let (u, v, k) = bind_ok (validate_definition definition) _ h in
      elim (Option-cases (by_id definition.resolutions id)) [
        | inl n ↦ absurd (cc (rw n at k))
        | inr (selected, f) ↦
            let (w, c, m) = bind_ok (check_selected parents selected source target) _ (rw f at k) in
            (v, (selected, f, check_selected-Admits selected source target c, m))
      ]

-- The other resolution of a reciprocal pair.
pub reciprocal_of_reciprocal :
    (rs : List RelationshipResolution) (r q : RelationshipResolution)
    → check_non_symmetric rs ≡ ok tt
    → by_id rs r.id ≡ some r
    → find (is_reciprocal_of r) rs ≡ some q
    → find (is_reciprocal_of q) rs ≡ some r
unfolding check_non_symmetric find
reciprocal_of_reciprocal [] r q v f g = absurd (cc g)
reciprocal_of_reciprocal (a ∷ []) r q v f g = absurd (cc v)
reciprocal_of_reciprocal (a ∷ b ∷ []) r q v f g =
    ground (arith, ℕ_eq.same_iff a.id r.id, ℕ_eq.same_iff b.id r.id, ℕ_eq.same_iff a.id b.id)
reciprocal_of_reciprocal (a ∷ b ∷ c ∷ rs) r q v f g = absurd (cc v)
