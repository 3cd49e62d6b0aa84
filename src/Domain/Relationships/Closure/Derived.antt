-- ===== src/Domain/Relationships/Closure/Derived.antt =====
-- Each row that `derive_runtime_closure` of src/netauto/domain/relationships.py derives, as the
-- selector of a second run.
use netauto.Prelude.{
  ◌≡◌, refl, sym, ap, subst, ◌∙◌, ◌⊎◌, inl, inr, true, false, not, some, List, [], Bool-cases,
  Option-cases, Uuid, ◌==◌, ℕ_eq, list_eq, option_eq, is_empty, find, find_holds, All, All-find, ok,
  bind_ok, ok_unique, and_left, and_right, All-weaken,
}
use netauto.Prelude.SortedSet.{add, All-add, add_comm, IsStrict, add-IsStrict}
use netauto.Domain.Lineage.{ParentById, lineage_is_ancestor}
use netauto.Domain.Relationships.{
  RelationshipDefinition, validate_definition, RelationshipResolution,
}
use netauto.Domain.Relationships.Accepted.{validated_parts}
use netauto.Domain.Relationships.Closure.{
  Triple, Endpoint, exact_closure, symmetric_closure, admits, non_symmetric_closure,
  is_reciprocal_of, triple_key,
}
use netauto.Domain.Relationships.Closure.Assignments.{
  Admits, symmetric_closure-nonempty, All-symmetric_closure, add-nonempty, triple_key_injective,
  symmetric_closure_swap, symmetric_closure-IsStrict,
}
use netauto.Domain.Relationships.Closure.Selected.{
  by_id, by_id-found, closure_of, closure_from, closure_parts, reciprocal_of_reciprocal,
}

module _ (parents : ParentById) (definition : RelationshipDefinition) where
  -- The triple, as a selector from one of the two ends, gives the set again.
  abbrev pub Reselects : List Triple → Endpoint → Endpoint → Triple → Type 0
  Reselects exact source target t =
      ((t.1 ≡ (source.object_id, target.object_id))
        × (exact_closure definition t.0 source target parents ≡ ok exact))
      ⊎ ((t.1 ≡ (target.object_id, source.object_id))
          × (exact_closure definition t.0 target source parents ≡ ok exact))

  Admits-parts :
      (r : RelationshipResolution) (source target : Endpoint)
      → Admits parents r source target true
      → (lineage_is_ancestor parents r.from_template_id source.template_id ≡ ok true)
        × (lineage_is_ancestor parents r.to_template_id target.template_id ≡ ok true)
  unfolding admits
  Admits-parts r source target h =
      let (b, e, k) =
        bind_ok (lineage_is_ancestor parents r.from_template_id source.template_id) _ h in
      elim (Bool-cases b) [ inl t ↦ (cc (e, t), rw t at k) | inr f ↦ absurd (cc (rw f at k)) ]

  reciprocal_ends :
      (r q : RelationshipResolution)
      → is_reciprocal_of r q ≡ true
      → (q.from_template_id ≡ r.to_template_id) × (q.to_template_id ≡ r.from_template_id)
  reciprocal_ends r q h =
      let ends = and_right (not (q.id == r.id)) _ h in
      let from_test = q.from_template_id == r.to_template_id in
      (
        (ℕ_eq.same_iff q.from_template_id r.to_template_id).0 (and_left from_test _ ends),
        (ℕ_eq.same_iff q.to_template_id r.from_template_id).0 (and_right from_test _ ends),
      )

  closure_of-true :
      (r : RelationshipResolution) (source target : Endpoint)
      → definition.symmetric ≡ true
      → closure_of parents definition r source target
        ≡ symmetric_closure parents definition.resolutions source target []
  unfolding closure_of
  closure_of-true r source target h = rw h refl

  closure_of-false :
      (r : RelationshipResolution) (source target : Endpoint)
      → definition.symmetric ≡ false
      → closure_of parents definition r source target
        ≡ non_symmetric_closure definition.resolutions r source.object_id target.object_id
  unfolding closure_of
  closure_of-false r source target h = rw h refl

  Admits-reciprocal :
      (rs : List RelationshipResolution) (r q : RelationshipResolution) (source target : Endpoint)
      → find (is_reciprocal_of r) rs ≡ some q
      → Admits parents r source target true
      → Admits parents q target source true
  unfolding admits
  Admits-reciprocal rs r q source target g a =
      let ends = reciprocal_ends r q (find_holds (is_reciprocal_of r) rs g) in
      let (below, above) = Admits-parts r source target a in simp (ends.0, ends.1, above, below)

  non_symmetric_parts :
      (rs : List RelationshipResolution) (r : RelationshipResolution) (a b : Uuid)
      {exact : List Triple}
      → non_symmetric_closure rs r a b ≡ ok exact
      → (q : RelationshipResolution) × (find (is_reciprocal_of r) rs ≡ some q)
        × (add triple_key (q.id, (b, a)) (add triple_key (r.id, (a, b)) []) ≡ exact)
  unfolding non_symmetric_closure
  non_symmetric_parts rs r a b h = elim (Option-cases (find (is_reciprocal_of r) rs)) [
    | inl n ↦ absurd (cc (rw (non_symmetric_closure, n) at h))
    | inr (q, g) ↦ (q, g, ok_unique _ refl (rw (non_symmetric_closure, g) at h))
  ]

  non_symmetric_again :
      (rs : List RelationshipResolution) (r q : RelationshipResolution) (a b : Uuid)
      → find (is_reciprocal_of q) rs ≡ some r
      → non_symmetric_closure rs q b a
        ≡ ok (add triple_key (q.id, (b, a)) (add triple_key (r.id, (a, b)) []))
  unfolding non_symmetric_closure
  non_symmetric_again rs r q a b g =
      rw (non_symmetric_closure, g)
        (ap ok (add_comm triple_key triple_key_injective (r.id, (a, b)) (q.id, (b, a)) []))

  symmetric-Reselects :
      (source target : Endpoint) {exact : List Triple}
      → validate_definition definition ≡ ok tt
      → definition.symmetric ≡ true
      → symmetric_closure parents definition.resolutions source target [] ≡ ok exact
      → All (Reselects exact source target) exact
  symmetric-Reselects source target {exact} v s h =
      All-symmetric_closure parents (Reselects exact source target) definition.resolutions source
        target [] h tt
        (All-weaken _ _ definition.resolutions
          (λ r f. (
            λ a. inl (
              refl,
              closure_from parents definition r source target v f a
                  (closure_of-true r source target s ∙ h),
            ),
            λ a. inr (
              refl,
              closure_from parents definition r target source v f a (
                  closure_of-true r target source s
                  ∙ symmetric_closure_swap parents definition.resolutions source target [] h),
            ),
          ))
          (by_id-found definition.resolutions (validated_parts definition v).0))

  non_symmetric-Reselects :
      (r : RelationshipResolution) (source target : Endpoint) {exact : List Triple}
      → validate_definition definition ≡ ok tt
      → definition.symmetric ≡ false
      → by_id definition.resolutions r.id ≡ some r
      → Admits parents r source target true
      → non_symmetric_closure definition.resolutions r source.object_id target.object_id ≡ ok exact
      → All (Reselects exact source target) exact
  non_symmetric-Reselects r source target {exact} v s f a h =
      let rs = definition.resolutions in
      let (q, g, e) = non_symmetric_parts rs r source.object_id target.object_id h in
      let (d, m, n, both, shape) = validated_parts definition v in
      let q_found =
        All-find (λ x. by_id rs x.id ≡ some x) (is_reciprocal_of r) rs (by_id-found rs d) g in
      let back = reciprocal_of_reciprocal rs r q (shape s) f g in
      let again = non_symmetric_again rs r q source.object_id target.object_id back in
      subst (All (Reselects exact source target)) e (
        All-add triple_key (Reselects exact source target)
          (q.id, (target.object_id, source.object_id)) _
          (inr (
            refl,
            closure_from parents definition q target source v q_found
                (Admits-reciprocal rs r q source target g a)
                (closure_of-false q target source s ∙ (again ∙ ap ok e)),
          ))
          (All-add triple_key (Reselects exact source target)
            (r.id, (source.object_id, target.object_id)) []
            (inl (
              refl,
              closure_from parents definition r source target v f a
                  (closure_of-false r source target s ∙ h),
            ))
            tt))

  -- Each triple of the set gives the set again.
  pub exact_closure-Reselects :
      (id : Uuid) (source target : Endpoint) {exact : List Triple}
      → exact_closure definition id source target parents ≡ ok exact
      → All (Reselects exact source target) exact
  exact_closure-Reselects id source target h =
      let (v, (r, f, a, m)) = closure_parts parents definition id source target h in
      let same : r.id ≡ id = (ℕ_eq.same_iff r.id id).0 (find_holds _ definition.resolutions f) in
      elim (Bool-cases definition.symmetric) [
        | inl t ↦
            symmetric-Reselects source target v t (sym (closure_of-true r source target t) ∙ m)
        | inr g ↦
            non_symmetric-Reselects r source target v g
              (subst (λ i. by_id definition.resolutions i ≡ some r) (sym same) f) a
              (sym (closure_of-false r source target g) ∙ m)
      ]

  -- The set is not empty.
  pub exact_closure-nonempty :
      (id : Uuid) (source target : Endpoint) {exact : List Triple}
      → exact_closure definition id source target parents ≡ ok exact
      → is_empty exact ≡ false
  exact_closure-nonempty id source target h =
      let (v, (r, f, a, m)) = closure_parts parents definition id source target h in
      elim (Bool-cases definition.symmetric) [
        | inl t ↦
            symmetric_closure-nonempty parents definition.resolutions _ source target []
              (sym (closure_of-true r source target t) ∙ m) f a
        | inr g ↦
            let (q, k, e) =
              non_symmetric_parts definition.resolutions r _ _
                (sym (closure_of-false r source target g) ∙ m) in
            subst (λ x. is_empty x ≡ false) e (add-nonempty parents _ _)
      ]

  -- The set is ascending.
  pub exact_closure-IsStrict :
      (id : Uuid) (source target : Endpoint) {exact : List Triple}
      → exact_closure definition id source target parents ≡ ok exact
      → IsStrict triple_key exact
  exact_closure-IsStrict id source target h =
      let (v, (r, f, a, m)) = closure_parts parents definition id source target h in
      elim (Bool-cases definition.symmetric) [
        | inl t ↦
            symmetric_closure-IsStrict parents definition.resolutions source target []
              (sym (closure_of-true r source target t) ∙ m) tt
        | inr g ↦
            let (q, k, e) =
              non_symmetric_parts definition.resolutions r _ _
                (sym (closure_of-false r source target g) ∙ m) in
            subst (IsStrict triple_key) e
              (add-IsStrict triple_key _ _ (add-IsStrict triple_key _ [] tt))
      ]
