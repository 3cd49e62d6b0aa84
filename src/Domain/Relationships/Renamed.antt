-- ===== src/Domain/Relationships/Renamed.antt =====
-- Renaming a symmetric definition, `rename_symmetric` of src/netauto/domain/relationships.py.
use netauto.Prelude.{
  ◌≡◌, refl, ap, ap₂, ◌∙◌, true, not, ◌&&◌, List, [], ◌∷◌, map, arith, Text, Uuid, ◌==◌, ℕ_eq,
  same_refl, list_eq, option_eq, all, All, ok, guard_then,
}
use netauto.Domain.Relationships.{
  RelationshipDefinition, validate_definition, check_resolution_names, check_symmetric,
  validate_relationship_name, RelationshipResolution, resolution_ids, are_reciprocal,
}
use netauto.Domain.Relationships.Accepted.{validated_parts}
use netauto.Domain.Relationships.Changes.{renamed, with_resolutions, rename_symmetric}
use netauto.Domain.Identifiers.{is_identifier}

abbrev pub all_renamed : Text → List RelationshipResolution → List RelationshipResolution
all_renamed name rs = map (λ item. renamed item name) rs

resolution_ids-renamed :
    (name : Text) (rs : List RelationshipResolution)
    → resolution_ids (all_renamed name rs) ≡ resolution_ids rs
resolution_ids-renamed name [] = refl
resolution_ids-renamed name (r ∷ rs) = ap (λ ids. r.id ∷ ids) (resolution_ids-renamed name rs)

members-renamed :
    (name : Text) (id : Uuid) (rs : List RelationshipResolution)
    → all (λ item. item.relationship_definition_id == id) (all_renamed name rs)
      ≡ all (λ item. item.relationship_definition_id == id) rs
unfolding all
members-renamed name id [] = refl
members-renamed name id (r ∷ rs) = ground (arith, members-renamed name id rs)

names-renamed :
    (name : Text) (rs : List RelationshipResolution)
    → is_identifier name ≡ true
    → check_resolution_names (all_renamed name rs) ≡ ok tt
unfolding check_resolution_names validate_relationship_name
names-renamed name [] h = refl
names-renamed name (r ∷ rs) h = rw h (names-renamed name rs h)

shape-renamed :
    (name : Text) (rs : List RelationshipResolution)
    → check_symmetric rs ≡ ok tt
    → check_symmetric (all_renamed name rs) ≡ ok tt
unfolding check_symmetric
shape-renamed name [] h = cc
shape-renamed name (a ∷ []) h = h
shape-renamed name (a ∷ b ∷ []) h =
    let (shape, names) =
      guard_then (not (a.from_template_id == a.to_template_id) && are_reciprocal a b) _ _ h in
    rw (shape, same_refl name) refl
shape-renamed name (a ∷ b ∷ c ∷ rs) h = cc

renamed-validated :
    (value : RelationshipDefinition) (name : Text)
    → validate_definition value ≡ ok tt
    → value.symmetric ≡ true
    → is_identifier name ≡ true
    → validate_definition (with_resolutions value (all_renamed name value.resolutions)) ≡ ok tt
unfolding validate_definition
renamed-validated value name v s i =
    let (d, m, n, shape, other) = validated_parts value v in
    rw
      (
        resolution_ids-renamed name value.resolutions,
        members-renamed name value.id value.resolutions,
        names-renamed name value.resolutions i,
        d,
        m,
        s,
        shape-renamed name value.resolutions (shape s),
      )
      refl

-- every resolution bears the name
abbrev pub AllNamed : Text → List RelationshipResolution → Type 0
AllNamed name rs = All (λ r. r.name ≡ name) rs

renamed_back :
    (old name : Text) (rs : List RelationshipResolution)
    → AllNamed old rs
    → all_renamed old (all_renamed name rs) ≡ rs
renamed_back old name [] h = refl
renamed_back old name (r ∷ rs) h =
    let first : renamed r old ≡ r = rw⁻¹ h.0 refl in
    ap₂ (λ x xs. x ∷ xs) first (renamed_back old name rs h.1)

rename_symmetric-ok :
    (value : RelationshipDefinition) (name : Text)
    → validate_definition value ≡ ok tt
    → value.symmetric ≡ true
    → is_identifier name ≡ true
    → rename_symmetric value name ≡ ok (with_resolutions value (all_renamed name value.resolutions))
unfolding rename_symmetric
rename_symmetric-ok value name v s i = rw v rw (renamed-validated value name v s i) rw s refl

-- A symmetric definition whose resolutions bear the identifier `old` takes any identifier as its name,
-- and renaming the result to `old` gives the definition back.
pub rename_symmetric_back :
    (value : RelationshipDefinition) (old name : Text)
    → validate_definition value ≡ ok tt
    → value.symmetric ≡ true
    → AllNamed old value.resolutions
    → is_identifier old ≡ true
    → is_identifier name ≡ true
    → (changed : RelationshipDefinition) × (rename_symmetric value name ≡ ok changed)
      × AllNamed name changed.resolutions
      × (rename_symmetric changed old ≡ ok value)
rename_symmetric_back value old name v s named o i =
    let changed = with_resolutions value (all_renamed name value.resolutions) in
    (
      changed,
      rename_symmetric-ok value name v s i,
      all_named name value.resolutions,
      rename_symmetric-ok changed old (renamed-validated value name v s i) s o
          ∙ ap (λ rs. ok (with_resolutions value rs))
              (renamed_back old name value.resolutions named),
    )
  where
    all_named : (n : Text) (rs : List RelationshipResolution) → AllNamed n (all_renamed n rs)
    all_named n [] = tt
    all_named n (r ∷ rs) = (refl, all_named n rs)
