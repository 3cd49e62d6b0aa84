-- ===== src/Domain/ObjectTemplates/Declarations.antt =====
-- What `validate_local_declarations` of src/netauto/domain/objecttemplates.py accepts.
use netauto.Prelude.{
  ℕ, ◌≡◌, refl, sym, ◌↔◌, Bool, true, not, ◌&&◌, List, [], ◌∷◌, ◌++◌, map, arith, leb, Text, ℕ_eq,
  list_eq, option_eq, all, distinct, contains-append, ok, accepts, accepts_iff, accepts-guard,
  accepts-then,
}
use netauto.Prelude.Apart.{apart, apart-nil, apart-cons, apart_sym, distinct-append}
use netauto.Domain.ObjectTemplates.{
  LocalProperty, LocalComponent, check_properties, property_names, validate_member_name,
  component_names, validate_local_declarations, check_components,
}
use netauto.Domain.Identifiers.{is_identifier}

abbrev pub property_positions : List LocalProperty → List ℕ
property_positions items = map (λ item. item.position) items

abbrev pub component_positions : List LocalComponent → List ℕ
component_positions items = map (λ item. item.position) items

-- Names that are identifiers, and positions that are positive and stand once.
unfoldable pub is_declared : List Text → List ℕ → Bool
unfolding all distinct is_identifier
is_declared names positions =
    all is_identifier names && (all (λ p. not (leb p 0)) positions && distinct positions)

-- Both families of members are declared so, and no name stands twice among all members.
unfoldable pub is_well_declared : List LocalProperty → List LocalComponent → Bool
unfolding is_declared distinct
is_well_declared properties components =
    is_declared (property_names properties) (property_positions properties)
    && (is_declared (component_names components) (component_positions components)
        && distinct (property_names properties ++ component_names components))

accepts-check_properties :
    (names : List Text) (positions : List ℕ) (items : List LocalProperty)
    → accepts (check_properties names positions items) ≡ (
        is_declared (property_names items) (property_positions items)
        && (apart (property_positions items) positions
            && (distinct (property_names items) && apart (property_names items) names)))
unfolding check_properties validate_member_name is_declared all distinct apart
accepts-check_properties names positions [] = refl
accepts-check_properties names positions (item ∷ rest) =
    rw accepts-guard rw accepts-guard rw accepts-guard (
      ground (
        arith,
        accepts-check_properties (item.name ∷ names) (item.position ∷ positions) rest,
        apart-cons (property_names rest) names item.name,
        apart-cons (property_positions rest) positions item.position,
      ))

accepts-check_components :
    (taken names : List Text) (positions : List ℕ) (items : List LocalComponent)
    → accepts (check_components taken names positions items) ≡ (
        is_declared (component_names items) (component_positions items)
        && (apart (component_positions items) positions
            && (distinct (component_names items)
                && apart (component_names items) (names ++ taken))))
unfolding check_components validate_member_name is_declared all distinct apart
accepts-check_components taken names positions [] = refl
accepts-check_components taken names positions (item ∷ rest) =
    rw accepts-guard rw accepts-guard rw accepts-guard rw
      (sym (contains-append names taken item.name))
      (ground (
        arith,
        accepts-check_components taken (item.name ∷ names) (item.position ∷ positions) rest,
        apart-cons (component_names rest) (names ++ taken) item.name,
        apart-cons (component_positions rest) positions item.position,
      ))

accepts-validate_local_declarations :
    (properties : List LocalProperty) (components : List LocalComponent)
    → accepts (validate_local_declarations properties components)
      ≡ is_well_declared properties components
unfolding validate_local_declarations is_well_declared
accepts-validate_local_declarations ps cs = rw accepts-then (
    ground (
      arith,
      accepts-check_properties [] [] ps,
      accepts-check_components (property_names ps) [] [] cs,
      apart-nil (property_names ps),
      apart-nil (property_positions ps),
      apart-nil (component_positions cs),
      apart_sym (property_names ps) (component_names cs),
      distinct-append (property_names ps) (component_names cs),
    ))

-- The declarations of a version are accepted exactly when every name is an identifier, every position
-- is positive, no position stands twice within a family and no name twice among all members.
pub validate_local_declarations_lem :
    (properties : List LocalProperty) (components : List LocalComponent)
    → (validate_local_declarations properties components ≡ ok tt)
      ↔ (is_well_declared properties components ≡ true)
validate_local_declarations_lem ps cs =
    let e = accepts-validate_local_declarations ps cs in
    let i = accepts_iff (validate_local_declarations ps cs) in
    (λ h. cc (e, i.1 h), λ h. i.0 (cc (e, h)))
