-- ===== src/Domain/Relationships/Changes.antt =====
-- The constructors and renames of src/netauto/domain/relationships.py. The UUIDs that `uuid4` makes are
-- arguments.
use netauto.Prelude.{
  ℕ, Bool, true, false, not, ◌&&◌, ◌||◌, none, List, [], ◌∷◌, map, ltb, if◌then◌else◌, Text, Uuid,
  codes, ◌==◌, ℕ_eq, list_beq, list_eq, option_eq, all, contains, Result, ok, ◌>>◌, guard,
}
use netauto.Prelude.Sort.{lex_lt}
use netauto.Domain.Errors.{
  position, non_symmetric_names_must_be_distinct, rename_shape_does_not_match_symmetric_definition,
  rename_shape_does_not_match_non_symmetric_definition, word, Part, DomainError,
  rename_shape_does_not_match_non_symmetric_definition,
  rename_shape_does_not_match_symmetric_definition, non_symmetric_names_must_be_distinct,
  rename_must_cover_complete_resolution_set,
}
use netauto.Domain.Relationships.{
  RelationshipDefinition, validate_relationship_name, RelationshipResolution, validate_definition,
  ResolutionRename, RelationshipPerspective, resolutions_error, definition_error, resolution_ids,
}

-- `sorted(perspectives, key=lambda item: (item.template_id.int, item.name))` of a pair
unfoldable pub sort_perspectives :
    RelationshipPerspective
    → RelationshipPerspective
    → RelationshipPerspective × RelationshipPerspective
unfolding lex_lt
sort_perspectives first second =
    if lex_lt (second.template_id ∷ second.name) (first.template_id ∷ first.name)
    then (second, first)
    else (first, second)

-- The path of a name's error, `f"perspectives.{index}.name"`.
abbrev pub perspective_path : ℕ → List Part
perspective_path index = word (codes "perspectives") ∷ position index ∷ word (codes "name") ∷ []

abbrev pub non_symmetric_definition :
    Uuid → Uuid → Uuid → RelationshipPerspective → RelationshipPerspective → RelationshipDefinition
non_symmetric_definition definition_id first_id second_id first second = record {
  id = definition_id;
  symmetric = false;
  resolutions =
      record {
        id = first_id;
        relationship_definition_id = definition_id;
        from_template_id = first.template_id;
        to_template_id = second.template_id;
        name = first.name;
      }
      ∷ record {
        id = second_id;
        relationship_definition_id = definition_id;
        from_template_id = second.template_id;
        to_template_id = first.template_id;
        name = second.name;
      }
      ∷ [];
  default_version = none;
}

unfoldable pub new_non_symmetric_definition :
    Uuid
    → Uuid
    → Uuid
    → RelationshipPerspective
    → RelationshipPerspective
    → Result DomainError RelationshipDefinition
unfolding validate_relationship_name list_beq sort_perspectives validate_definition
new_non_symmetric_definition definition_id first_id second_id left right = do
  validate_relationship_name left.name (perspective_path 0)
  validate_relationship_name right.name (perspective_path 1)
  guard (not (left.name == right.name))
      (definition_error (word (codes "perspectives") ∷ []) non_symmetric_names_must_be_distinct)
  let (first, second) = sort_perspectives left right
  let value : RelationshipDefinition =
      non_symmetric_definition definition_id first_id second_id first second
  validate_definition value
  ok value

abbrev pub symmetric_definition : Uuid → Uuid → Uuid → Uuid → Uuid → Text → RelationshipDefinition
symmetric_definition definition_id first_id second_id first second name = record {
  id = definition_id;
  symmetric = true;
  resolutions =
      record {
        id = first_id;
        relationship_definition_id = definition_id;
        from_template_id = first;
        to_template_id = second;
        name = name;
      }
      ∷ (if first == second
          then []
          else record {
            id = second_id;
            relationship_definition_id = definition_id;
            from_template_id = second;
            to_template_id = first;
            name = name;
          }
            ∷ []);
  default_version = none;
}

-- the endpoints are sorted by `.int`
unfoldable pub new_symmetric_definition :
    Uuid → Uuid → Uuid → Uuid → Uuid → Text → Result DomainError RelationshipDefinition
unfolding validate_relationship_name validate_definition
new_symmetric_definition definition_id first_id second_id left right name = do
  validate_relationship_name name (word (codes "name") ∷ [])
  let (first, second) : Uuid × Uuid = if ltb right left then (right, left) else (left, right)
  let value : RelationshipDefinition =
      symmetric_definition definition_id first_id second_id first second name
  validate_definition value
  ok value

-- the resolution under its new name
abbrev pub renamed : RelationshipResolution → Text → RelationshipResolution
renamed item name = record {
  id = item.id;
  relationship_definition_id = item.relationship_definition_id;
  from_template_id = item.from_template_id;
  to_template_id = item.to_template_id;
  name = name;
}

-- `names[item.id]`, of the dict made of the two updates: the later one wins
abbrev pub new_name : ResolutionRename → ResolutionRename → Uuid → Text
new_name first second id = if second.resolution_id == id then second.name else first.name

abbrev pub with_resolutions :
    RelationshipDefinition → List RelationshipResolution → RelationshipDefinition
with_resolutions value resolutions = record {
  id = value.id;
  symmetric = value.symmetric;
  resolutions = resolutions;
  default_version = value.default_version;
}

-- The sets `{first, second}` and `current` are equal, and hold two ids.
unfoldable pub covers : Uuid → Uuid → List Uuid → Bool
unfolding contains all
covers first second current =
    not (first == second)
    && (contains current first
        && (contains current second && all (λ id. first == id || second == id) current))

unfoldable pub rename_non_symmetric :
    RelationshipDefinition
    → ResolutionRename
    → ResolutionRename
    → Result DomainError RelationshipDefinition
unfolding validate_definition covers
rename_non_symmetric value first second = do
  validate_definition value
  guard (not value.symmetric) (resolutions_error rename_shape_does_not_match_symmetric_definition)
  guard (covers first.resolution_id second.resolution_id (resolution_ids value.resolutions))
      (resolutions_error rename_must_cover_complete_resolution_set)
  let changed : RelationshipDefinition =
      with_resolutions value
        (map (λ item. renamed item (new_name first second item.id)) value.resolutions)
  validate_definition changed
  ok changed

unfoldable pub rename_symmetric :
    RelationshipDefinition → Text → Result DomainError RelationshipDefinition
unfolding validate_definition
rename_symmetric value name = do
  validate_definition value
  guard value.symmetric (
      definition_error (word (codes "name") ∷ [])
        rename_shape_does_not_match_non_symmetric_definition)
  let changed : RelationshipDefinition =
      with_resolutions value (map (λ item. renamed item name) value.resolutions)
  validate_definition changed
  ok changed
