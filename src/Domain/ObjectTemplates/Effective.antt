-- ===== src/Domain/ObjectTemplates/Effective.antt =====
-- The schema that `resolve_effective_schema` of src/netauto/domain/objecttemplates.py makes of an
-- inheritance chain.
use netauto.Prelude.{
  ℕ, ◌≡◌, refl, ap, Bool, true, not, ◌&&◌, List, [], ◌∷◌, ◌++◌, map, arith, Text, Uuid, ℕ_eq,
  list_eq, option_eq, all, contains, distinct, ok, bind_ok, Decides, Decides-bind, Decides-guard,
  Decides-unit, Decides-same, Bool_ext,
}
use netauto.Prelude.Apart.{apart, apart-nil, apart-cons, distinct-append, apart-append, apart_sym}
use netauto.Domain.ObjectTemplates.{
  LocalProperty, add_properties, LocalComponent, EffectiveProperty, Resolving, EffectiveComponent,
  component_names, property_names, add_components, ObjectTemplateVersion, add_snapshots,
  sorted_components, sorted_properties, resolve_effective_schema, EffectiveSchema,
}
use netauto.Domain.ObjectTemplates.Declarations.{is_well_declared, validate_local_declarations_lem}
use mathlib.Core.List.{append-nil, append_assoc}

-- what `set.add` makes of a set, element by element
rev_onto : List Text → List Text → List Text
rev_onto [] seen = seen
rev_onto (x ∷ xs) seen = rev_onto xs (x ∷ seen)

apart-rev_onto :
    (xs ys seen : List Text) → apart xs (rev_onto ys seen) ≡ (apart xs ys && apart xs seen)
unfolding rev_onto
apart-rev_onto xs [] seen = ground (arith, apart-nil xs)
apart-rev_onto xs (y ∷ ys) seen =
    ground (arith, apart-rev_onto xs ys (y ∷ seen), apart-cons xs seen y, apart-cons xs ys y)

abbrev pub tag_properties : Uuid → List LocalProperty → List EffectiveProperty
tag_properties template items =
    map (λ item. record { declaring_template_id = template; declaration = item }) items

abbrev pub tag_components : Uuid → List LocalComponent → List EffectiveComponent
tag_components template items =
    map (λ item. record { declaring_template_id = template; declaration = item }) items

-- the loops without their tests
with_properties : Uuid → List LocalProperty → Resolving → Resolving
with_properties template items r = record {
  seen_members = rev_onto (property_names items) r.seen_members;
  properties = r.properties ++ tag_properties template items;
  components = r.components;
}

with_components : Uuid → List LocalComponent → Resolving → Resolving
with_components template items r = record {
  seen_members = rev_onto (component_names items) r.seen_members;
  properties = r.properties;
  components = r.components ++ tag_components template items;
}

add_properties-Decides :
    (template : Uuid) (items : List LocalProperty) (r : Resolving)
    → Decides
        (distinct (property_names items) && apart (property_names items) r.seen_members)
        (add_properties template items r)
        (with_properties template items r)
unfolding add_properties with_properties rev_onto distinct apart
add_properties-Decides template [] r = (λ e. simp append-nil, λ w e. refl)
add_properties-Decides template (item ∷ rest) r =
    Decides-same _ (ground (arith, apart-cons (property_names rest) r.seen_members item.name))
      (ap
        (λ ps. record {
          seen_members = rev_onto (property_names rest) (item.name ∷ r.seen_members);
          properties = ps;
          components = r.components;
        })
        (append_assoc r.properties (tag_properties template (item ∷ []))
          (tag_properties template rest)))
      (Decides-guard (not (contains r.seen_members item.name)) _ _ _
        (add_properties-Decides template rest _))

add_components-Decides :
    (template : Uuid) (items : List LocalComponent) (r : Resolving)
    → Decides
        (distinct (component_names items) && apart (component_names items) r.seen_members)
        (add_components template items r)
        (with_components template items r)
unfolding add_components with_components rev_onto distinct apart
add_components-Decides template [] r = (λ e. simp append-nil, λ w e. refl)
add_components-Decides template (item ∷ rest) r =
    Decides-same _ (ground (arith, apart-cons (component_names rest) r.seen_members item.name))
      (ap
        (λ cs. record {
          seen_members = rev_onto (component_names rest) (item.name ∷ r.seen_members);
          properties = r.properties;
          components = cs;
        })
        (append_assoc r.components (tag_components template (item ∷ []))
          (tag_components template rest)))
      (Decides-guard (not (contains r.seen_members item.name)) _ _ _
        (add_components-Decides template rest _))

abbrev pub template_ids : List ObjectTemplateVersion → List Uuid
template_ids chain = map (λ snapshot. snapshot.template_id) chain

-- the names of a snapshot's members, properties first, each family by position
abbrev pub local_names : ObjectTemplateVersion → List Text
local_names snapshot =
    property_names (sorted_properties snapshot.properties)
    ++ component_names (sorted_components snapshot.components)

abbrev pub member_names : List ObjectTemplateVersion → List Text
member_names [] = []
member_names (snapshot ∷ rest) = local_names snapshot ++ member_names rest

abbrev pub effective_properties : List ObjectTemplateVersion → List EffectiveProperty
effective_properties [] = []
effective_properties (snapshot ∷ rest) =
    tag_properties snapshot.template_id (sorted_properties snapshot.properties)
    ++ effective_properties rest

abbrev pub effective_components : List ObjectTemplateVersion → List EffectiveComponent
effective_components [] = []
effective_components (snapshot ∷ rest) =
    tag_components snapshot.template_id (sorted_components snapshot.components)
    ++ effective_components rest

-- No template stands twice in the chain, each snapshot's own declarations are in order, and no member
-- name stands twice along the chain.
unfoldable pub is_resolvable : List ObjectTemplateVersion → Bool
unfolding all distinct is_well_declared
is_resolvable chain =
    distinct (template_ids chain)
    && (all (λ snapshot. is_well_declared snapshot.properties snapshot.components) chain
        && distinct (member_names chain))

resolved : List ObjectTemplateVersion → Resolving → Resolving
unfolding with_properties
resolved chain r = record {
  seen_members = rev_onto (member_names chain) r.seen_members;
  properties = r.properties ++ effective_properties chain;
  components = r.components ++ effective_components chain;
}

rev_onto-append :
    (xs ys seen : List Text) → rev_onto (xs ++ ys) seen ≡ rev_onto ys (rev_onto xs seen)
unfolding rev_onto
rev_onto-append [] ys seen = refl
rev_onto-append (x ∷ xs) ys seen = rev_onto-append xs ys (x ∷ seen)

-- the tests of one snapshot among those of the chain
snapshot_tests :
    (seen : List Uuid) (snapshot : ObjectTemplateVersion) (rest : List ObjectTemplateVersion)
    (names : List Text)
    → let ps = property_names (sorted_properties snapshot.properties) in
      let cs = component_names (sorted_components snapshot.components) in
      (not (contains seen snapshot.template_id)
        && (is_well_declared snapshot.properties snapshot.components
            && ((distinct ps && apart ps names)
                && ((distinct cs && apart cs (rev_onto ps names))
                    && (is_resolvable rest
                        && (apart (template_ids rest) (snapshot.template_id ∷ seen)
                            && apart (member_names rest) (rev_onto cs (rev_onto ps names))))))))
      ≡ (is_resolvable (snapshot ∷ rest)
          && (apart (template_ids (snapshot ∷ rest)) seen
              && apart (member_names (snapshot ∷ rest)) names))
unfolding is_resolvable all distinct apart
snapshot_tests seen snapshot rest names =
    let ps = property_names (sorted_properties snapshot.properties) in
    let cs = component_names (sorted_components snapshot.components) in
    let ms = member_names rest in
    rw
      (
        apart-rev_onto cs ps names,
        apart-rev_onto ms cs (rev_onto ps names),
        apart-rev_onto ms ps names,
        apart-cons (template_ids rest) seen snapshot.template_id,
        distinct-append (ps ++ cs) ms,
        distinct-append ps cs,
        apart-append (ps ++ cs) ms names,
        apart-append ps cs names,
        apart-append ps cs ms,
        apart_sym cs ps,
        apart_sym ms cs,
        apart_sym ms ps,
      )
      (Bool_ext _ _ (λ h. ground arith) (λ h. ground arith))

no_snapshots : (is_resolvable [] && true) ≡ true
unfolding is_resolvable all distinct
no_snapshots = refl

add_snapshots-Decides :
    (seen : List Uuid) (chain : List ObjectTemplateVersion) (r : Resolving)
    → Decides
        (is_resolvable chain
          && (apart (template_ids chain) seen && apart (member_names chain) r.seen_members))
        (add_snapshots seen chain r)
        (resolved chain r)
unfolding add_snapshots resolved rev_onto with_properties with_components apart
add_snapshots-Decides seen [] r = (λ e. simp append-nil, λ w e. no_snapshots)
add_snapshots-Decides seen (snapshot ∷ rest) r =
    let ps = sorted_properties snapshot.properties in
    let cs = sorted_components snapshot.components in
    let r₁ = with_properties snapshot.template_id ps r in
    let r₂ = with_components snapshot.template_id cs r₁ in
    Decides-same _ (snapshot_tests seen snapshot rest r.seen_members)
      (simp (append_assoc, rev_onto-append))
      (Decides-guard (not (contains seen snapshot.template_id)) _ _ _ (
        Decides-bind (is_well_declared snapshot.properties snapshot.components) _ _ _
          (Decides-unit _ _
            (validate_local_declarations_lem snapshot.properties snapshot.components))
          (Decides-bind (distinct (property_names ps) && apart (property_names ps) r.seen_members) _
            _ _ (add_properties-Decides snapshot.template_id ps r)
            (Decides-bind
              (distinct (component_names cs) && apart (component_names cs) r₁.seen_members) _ _ _
              (add_components-Decides snapshot.template_id cs r₁)
              (add_snapshots-Decides (snapshot.template_id ∷ seen) rest r₂)))))

abbrev pub effective_schema : Uuid → ℕ → List ObjectTemplateVersion → EffectiveSchema
effective_schema template_id version chain = record {
  template_id = template_id;
  version = version;
  properties = effective_properties chain;
  components = effective_components chain;
}

-- The schema of a chain resolves exactly when no template stands twice in it, every snapshot's own
-- declarations are in order and no member name stands twice along the chain; its members are then
-- those of the snapshots from root to leaf, each tagged with its template and, within a snapshot, by
-- position.
pub resolve_effective_schema_lem :
    (template_id : Uuid) (version : ℕ) (chain : List ObjectTemplateVersion)
    → (is_resolvable chain ≡ true
        → resolve_effective_schema template_id version chain
          ≡ ok (effective_schema template_id version chain))
      × ((schema : EffectiveSchema)
          → resolve_effective_schema template_id version chain ≡ ok schema
          → is_resolvable chain ≡ true)
unfolding resolve_effective_schema resolved apart
resolve_effective_schema_lem template_id version chain =
    let start : Resolving = record { seen_members = []; properties = []; components = [] } in
    let tests : (is_resolvable chain
          && (apart (template_ids chain) [] && apart (member_names chain) []))
        ≡ is_resolvable chain =
      rw (apart-nil (template_ids chain), apart-nil (member_names chain)) (ground arith) in
    let h = Decides-same _ tests refl (add_snapshots-Decides [] chain start) in
    (λ e. rw (h.0 e) refl, λ schema e. h.1 _ (bind_ok (add_snapshots [] chain start) _ e).1)
