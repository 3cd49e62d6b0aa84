-- ===== src/Domain/Relationships/Views.antt =====
-- The read views of src/netauto/domain/relationships.py. The set of views is the ascending list of its
-- members.
use netauto.Prelude.{
  ℕ, Option, none, some, List, [], ◌∷◌, Text, Uuid, codes, ◌==◌, ℕ_eq, list_eq, option_eq, find,
  Result, ok, err, ◌>>=◌,
}
use mathlib.Core.List.{reverse}
use netauto.Prelude.Dict.{Dict}
use netauto.Prelude.SortedSet.{set_of}
use netauto.Prelude.Sort.{sort_by}
use netauto.Domain.Value.{Value}
use netauto.Domain.Errors.{DomainError, resolution_not_in_definition}
use netauto.Domain.Relationships.{RelationshipDefinition, RelationshipResolution}
use netauto.Domain.Relationships.Closure.{
  Relationship, RuntimeRelationshipResolution, relationship_error,
}

pub record RelationshipCapability : Type 0 where
  pub resolution_id : Uuid
  pub relationship_definition_id : Uuid
  pub name : Text
  pub from_template_id : Uuid
  pub to_template_id : Uuid
  pub default_version : Option ℕ

pub record RelationshipView : Type 0 where
  pub object_id : Uuid
  pub destination_object_id : Uuid
  pub name : Text

pub record ObjectRelationshipView : Type 0 where
  pub relationship_id : Uuid
  pub relationship_definition_id : Uuid
  pub object_id : Uuid
  pub destination_object_id : Uuid
  pub name : Text
  pub relationship_definition_version : ℕ
  pub properties : Dict Text Value

pub record RelationshipLifecycleView : Type 0 where
  pub object_id : Uuid
  pub canonical_name : Text
  pub destination_object_id : Uuid
  pub destination_canonical_name : Text
  pub relationship_name : Text

-- `(item.object_id.int, item.destination_object_id.int, item.name)`
abbrev pub view_key : RelationshipView → List ℕ
view_key view = view.object_id ∷ view.destination_object_id ∷ view.name

-- `names[item.resolution_id]` of each row; of two resolutions with one id the later names it
unfoldable pub name_rows :
    List RelationshipResolution
    → List RuntimeRelationshipResolution
    → Result DomainError (List RelationshipView)
unfolding find
name_rows resolutions [] = ok []
name_rows resolutions (row ∷ rest) =
    elim (find (λ item. item.id == row.resolution_id) (reverse resolutions)) [
      | none ↦ err (relationship_error (codes "relationship") resolution_not_in_definition)
      | some resolution ↦ do
        views ← name_rows resolutions rest
        ok (
            record {
              object_id = row.from_object_id;
              destination_object_id = row.to_object_id;
              name = resolution.name;
            }
            ∷ views)
    ]

unfoldable pub relationship_views :
    Relationship → RelationshipDefinition → Result DomainError (List RelationshipView)
unfolding name_rows set_of sort_by
relationship_views value definition = do
  views ← name_rows definition.resolutions value.resolutions
  ok (sort_by view_key (set_of view_key views))
