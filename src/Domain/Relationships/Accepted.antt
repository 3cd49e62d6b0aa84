-- ===== src/Domain/Relationships/Accepted.antt =====
-- What `validate_definition` of src/netauto/domain/relationships.py asks, part by part.
use netauto.Prelude.{
  ◌≡◌, true, false, List, Uuid, ◌==◌, ℕ_eq, list_eq, option_eq, all, distinct, ok, bind_ok,
  guard_then,
}
use netauto.Domain.Relationships.{
  RelationshipDefinition, validate_definition, check_resolution_names, check_symmetric,
  check_non_symmetric, resolution_ids, RelationshipResolution,
}

abbrev pub AreMembers : Uuid → List RelationshipResolution → Type 0
AreMembers id rs = all (λ item. item.relationship_definition_id == id) rs ≡ true

pub validated_parts :
    (definition : RelationshipDefinition)
    → validate_definition definition ≡ ok tt
    → (distinct (resolution_ids definition.resolutions) ≡ true)
      × AreMembers definition.id definition.resolutions
      × (check_resolution_names definition.resolutions ≡ ok tt)
      × (definition.symmetric ≡ true → check_symmetric definition.resolutions ≡ ok tt)
      × (definition.symmetric ≡ false → check_non_symmetric definition.resolutions ≡ ok tt)
unfolding validate_definition
validated_parts definition h =
    let (d, h₁) = guard_then _ _ _ h in
    let (m, h₂) = guard_then _ _ _ h₁ in
    let (u, n, h₃) = bind_ok (check_resolution_names definition.resolutions) _ h₂ in
    (d, m, n, λ s. rw s at h₃, λ s. rw s at h₃)
