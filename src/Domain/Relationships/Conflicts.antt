-- ===== src/Domain/Relationships/Conflicts.antt =====
-- `semantic_signature` and `first_conflict` of src/netauto/domain/relationships.py.
pub mod Symmetric
use netauto.Prelude.{
  ℕ, Bool, true, false, Option, none, some, List, [], ◌∷◌, map, Text, Uuid, ◌==◌, ℕ_eq, list_beq,
  list_eq, option_eq, Result, ok, ◌>>=◌, ◌>>◌,
}
use netauto.Prelude.SortedSet.{set_of}
use netauto.Domain.Errors.{DomainError}
use netauto.Domain.Lineage.{ParentById, lineage_spaces_overlap}
use netauto.Domain.Relationships.{
  RelationshipDefinition, validate_definition, RelationshipResolution,
}

-- a member of `DefinitionSemanticSignature`; the frozenset is the ascending list of its members
abbrev pub ResolutionSemanticKey : Type 0
ResolutionSemanticKey = Uuid × (Uuid × Text)

abbrev pub signature_key : ResolutionSemanticKey → List ℕ
signature_key (source, (target, name)) = source ∷ target ∷ name

unfoldable pub semantic_signature :
    RelationshipDefinition → Result DomainError (Bool × List ResolutionSemanticKey)
unfolding validate_definition set_of
semantic_signature value = do
  validate_definition value
  ok (
    value.symmetric,
    set_of signature_key
        (map (λ item. (item.from_template_id, (item.to_template_id, item.name))) value.resolutions),
  )

-- the body of the inner loop: `ok false` is a `continue`
unfoldable pub resolutions_conflict :
    ParentById → RelationshipResolution → RelationshipResolution → Result DomainError Bool
unfolding list_beq lineage_spaces_overlap
resolutions_conflict parents candidate existing = elim (candidate.name == existing.name) [
  | false ↦ ok false
  | true ↦ do
    from_overlap ←
        lineage_spaces_overlap parents candidate.from_template_id existing.from_template_id
    elim from_overlap [
      | false ↦ ok false
      | true ↦ lineage_spaces_overlap parents candidate.to_template_id existing.to_template_id
    ]
]

unfoldable pub conflict_with :
    ParentById
    → RelationshipResolution
    → List RelationshipResolution
    → Result DomainError (Option (RelationshipResolution × RelationshipResolution))
unfolding resolutions_conflict
conflict_with parents candidate [] = ok none
conflict_with parents candidate (existing ∷ rest) = do
  found ← resolutions_conflict parents candidate existing
  elim found [
    | true ↦ ok (some (candidate, existing))
    | false ↦ conflict_with parents candidate rest
  ]

unfoldable pub conflict_among :
    ParentById
    → List RelationshipResolution
    → List RelationshipResolution
    → Result DomainError (Option (RelationshipResolution × RelationshipResolution))
unfolding conflict_with
conflict_among parents [] existing = ok none
conflict_among parents (candidate ∷ rest) existing = do
  found ← conflict_with parents candidate existing
  elim found [ some pair ↦ ok (some pair) | none ↦ conflict_among parents rest existing ]

unfoldable pub first_conflict :
    RelationshipDefinition
    → RelationshipDefinition
    → ParentById
    → Result DomainError (Option (RelationshipResolution × RelationshipResolution))
unfolding validate_definition conflict_among
first_conflict candidate existing parents = do
  validate_definition candidate
  validate_definition existing
  elim (candidate.id == existing.id) [
    | true ↦ ok none
    | false ↦ conflict_among parents candidate.resolutions existing.resolutions
  ]
