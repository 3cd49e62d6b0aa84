-- ===== src/Domain/Relationships/Closure.antt =====
-- The factual Relationships of src/netauto/domain/relationships.py: the runtime rows that a definition
-- gives two objects. The set `exact` is the ascending list of its triples.
pub mod Assignments
pub mod Selected
pub mod Derived
pub mod Validated
use netauto.Prelude.{
  ℕ, Bool, true, false, not, ◌&&◌, none, some, List, [], ◌∷◌, map, leb, if◌then◌else◌, Text, Uuid,
  codes, ◌==◌, ℕ_eq, list_eq, option_eq, length, find, all, Result, ok, err, ◌>>=◌, ◌>>◌, guard,
  all,
}
use netauto.Prelude.Dict.{Dict, dict_get}
use netauto.Prelude.Sort.{sort_by}
use netauto.Prelude.SortedSet.{add, set_of, min_by}
use netauto.Domain.Value.{Value}
use netauto.Domain.Errors.{
  relationship, word, DomainError, Rule, missing_endpoint_object, incompatible_template_lineage,
  invalid, incomplete_closure, positive_required, resolution_not_in_definition,
  non_symmetric_resolutions_must_be_reciprocal, aggregate_mismatch,
}
use netauto.Domain.Lineage.{ParentById, lineage_is_ancestor}
use netauto.Domain.Relationships.{
  RelationshipDefinition, RelationshipResolution, validate_definition, resolutions_error,
}

pub record RuntimeRelationshipResolution : Type 0 where
  pub relationship_id : Uuid
  pub relationship_definition_id : Uuid
  pub resolution_id : Uuid
  pub from_object_id : Uuid
  pub to_object_id : Uuid

pub record Relationship : Type 0 where
  pub id : Uuid
  pub relationship_definition_id : Uuid
  pub resolutions : List RuntimeRelationshipResolution
  pub relationship_definition_version : ℕ
  pub properties : Dict Text Value

abbrev pub relationship_error : Text → Rule → DomainError
relationship_error path rule = invalid relationship (word path ∷ []) rule

-- an object and its template
pub record Endpoint : Type 0 where
  pub object_id : Uuid
  pub template_id : Uuid

-- a member of `exact`: resolution, source and target
abbrev pub Triple : Type 0
Triple = Uuid × (Uuid × Uuid)

abbrev pub triple_key : Triple → List ℕ
triple_key (resolution, (first, second)) = resolution ∷ first ∷ second ∷ []

unfoldable pub admits : ParentById → RelationshipResolution → Uuid → Uuid → Result DomainError Bool
unfolding lineage_is_ancestor
admits parents resolution first second = do
  below ← lineage_is_ancestor parents resolution.from_template_id first
  elim below [
    | true ↦ lineage_is_ancestor parents resolution.to_template_id second
    | false ↦ ok false
  ]

unfoldable pub check_selected :
    ParentById → RelationshipResolution → Endpoint → Endpoint → Result DomainError (Unit {0})
unfolding admits lineage_is_ancestor
check_selected parents selected source target = do
  admitted ← admits parents selected source.template_id target.template_id
  elim admitted [
    | true ↦ ok tt
    | false ↦ do
      below ← lineage_is_ancestor parents selected.from_template_id source.template_id
      elim below [
        | true ↦ err (relationship_error (codes "to_object_id") incompatible_template_lineage)
        | false ↦ err (relationship_error (codes "from_object_id") incompatible_template_lineage)
      ]
  ]

abbrev pub is_reciprocal_of : RelationshipResolution → RelationshipResolution → Bool
is_reciprocal_of selected item =
    not (item.id == selected.id)
    && (item.from_template_id == selected.to_template_id
        && item.to_template_id == selected.from_template_id)

unfoldable pub non_symmetric_closure :
    List RelationshipResolution
    → RelationshipResolution
    → Uuid
    → Uuid
    → Result DomainError (List Triple)
unfolding find add
non_symmetric_closure resolutions selected source target =
    elim (find (is_reciprocal_of selected) resolutions) [
      | none ↦ err (resolutions_error non_symmetric_resolutions_must_be_reciprocal)
      | some reciprocal ↦ ok (
          add triple_key (reciprocal.id, (target, source))
            (add triple_key (selected.id, (source, target)) []))
    ]

-- the body of the loop on `assignments`
unfoldable pub add_assignment :
    ParentById
    → RelationshipResolution
    → Endpoint
    → Endpoint
    → List Triple
    → Result DomainError (List Triple)
unfolding admits add
add_assignment parents resolution source target exact = do
  admitted ← admits parents resolution source.template_id target.template_id
  ok (
      if admitted
      then add triple_key (resolution.id, (source.object_id, target.object_id)) exact
      else exact)

unfoldable pub symmetric_closure :
    ParentById
    → List RelationshipResolution
    → Endpoint
    → Endpoint
    → List Triple
    → Result DomainError (List Triple)
unfolding add_assignment
symmetric_closure parents [] source target exact = ok exact
symmetric_closure parents (resolution ∷ rest) source target exact = do
  one ← add_assignment parents resolution source target exact
  both ← add_assignment parents resolution target source one
  symmetric_closure parents rest source target both

abbrev pub runtime_row : Uuid → Uuid → Triple → RuntimeRelationshipResolution
runtime_row relationship_id definition_id (resolution, (first, second)) = record {
  relationship_id = relationship_id;
  relationship_definition_id = definition_id;
  resolution_id = resolution;
  from_object_id = first;
  to_object_id = second;
}

-- The ids of a validated definition are distinct, so `by_id` finds the one resolution with the id.
unfoldable pub exact_closure :
    RelationshipDefinition
    → Uuid
    → Endpoint
    → Endpoint
    → ParentById
    → Result DomainError (List Triple)
unfolding validate_definition find check_selected non_symmetric_closure symmetric_closure
exact_closure definition selected_id source target parents = do
  validate_definition definition
  elim (find (λ item. item.id == selected_id) definition.resolutions) [
    | none ↦ err (relationship_error (codes "resolution_id") resolution_not_in_definition)
    | some selected ↦ do
      check_selected parents selected source target
      elim definition.symmetric [
        | true ↦ symmetric_closure parents definition.resolutions source target []
        | false ↦
            non_symmetric_closure definition.resolutions selected source.object_id target.object_id
      ]
  ]

-- `relationship_id or uuid4()` is an argument
unfoldable pub derive_runtime_closure :
    RelationshipDefinition
    → Uuid
    → Endpoint
    → Endpoint
    → ParentById
    → Uuid
    → Result DomainError (List RuntimeRelationshipResolution)
unfolding exact_closure sort_by
derive_runtime_closure definition selected_id source target parents factual_id = do
  exact ← exact_closure definition selected_id source target parents
  ok (map (runtime_row factual_id definition.id) (sort_by triple_key exact))

abbrev pub row_triple : RuntimeRelationshipResolution → Triple
row_triple row = (row.resolution_id, (row.from_object_id, row.to_object_id))

abbrev pub row_key : RuntimeRelationshipResolution → List ℕ
row_key row = triple_key (row_triple row)

unfoldable pub endpoint : Dict Uuid Uuid → Uuid → Result DomainError Endpoint
unfolding dict_get
endpoint template_by_object_id object = elim (dict_get object template_by_object_id) [
  | none ↦ err (relationship_error (codes "relationship") missing_endpoint_object)
  | some template ↦ ok (record { object_id = object; template_id = template })
]

unfoldable pub triple_beq : Triple → Triple → Bool
triple_beq (a, (b, c)) (x, (y, z)) = a == x && (b == y && c == z)

unfoldable pub triples_beq : List Triple → List Triple → Bool
unfolding triple_beq
triples_beq [] [] = true
triples_beq [] (y ∷ ys) = false
triples_beq (x ∷ xs) [] = false
triples_beq (x ∷ xs) (y ∷ ys) = triple_beq x y && triples_beq xs ys

-- The rows are those that their first row, `selector`, selects.
unfoldable pub check_selector :
    Relationship
    → RelationshipDefinition
    → ParentById
    → Dict Uuid Uuid
    → RuntimeRelationshipResolution
    → Result DomainError (Unit {0})
unfolding endpoint derive_runtime_closure set_of triples_beq
check_selector value definition parents template_by_object_id selector = do
  source ← endpoint template_by_object_id selector.from_object_id
  target ← endpoint template_by_object_id selector.to_object_id
  expected ← derive_runtime_closure definition selector.resolution_id source target parents value.id
  let actual_keys : List Triple = set_of triple_key (map row_triple value.resolutions)
  let expected_keys : List Triple = set_of triple_key (map row_triple expected)
  guard (triples_beq actual_keys expected_keys && length actual_keys == length value.resolutions)
      (relationship_error (codes "relationship") incomplete_closure)

-- `not value.resolutions` refuses the empty case
unfoldable pub check_rows :
    Relationship
    → RelationshipDefinition
    → ParentById
    → Dict Uuid Uuid
    → List RuntimeRelationshipResolution
    → Result DomainError (Unit {0})
unfolding all min_by check_selector
check_rows value definition parents template_by_object_id [] =
    err (relationship_error (codes "relationship") incomplete_closure)
check_rows value definition parents template_by_object_id (first ∷ rest) = do
  guard
      (all
        (λ item.
          item.relationship_id == value.id
          && item.relationship_definition_id == value.relationship_definition_id)
        (first ∷ rest))
      (relationship_error (codes "relationship") aggregate_mismatch)
  check_selector value definition parents template_by_object_id (min_by row_key first rest)

unfoldable pub validate_relationship :
    Relationship
    → RelationshipDefinition
    → ParentById
    → Dict Uuid Uuid
    → Result DomainError (Unit {0})
unfolding check_rows
validate_relationship value definition parents template_by_object_id = do
  guard (not (leb value.relationship_definition_version 0))
      (relationship_error (codes "relationship_definition_version") positive_required)
  guard (value.relationship_definition_id == definition.id)
      (relationship_error (codes "relationship") incomplete_closure)
  check_rows value definition parents template_by_object_id value.resolutions
