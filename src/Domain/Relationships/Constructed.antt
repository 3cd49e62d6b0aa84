-- ===== src/Domain/Relationships/Constructed.antt =====
-- What the constructors and renames of src/netauto/domain/relationships.py return.
use netauto.Prelude.{
  ℕ, ◌≡◌, refl, sym, ◌≢◌, inl, inr, true, false, List, ◌∷◌, Bool-cases, Text, Uuid, ◌==◌, ℕ_eq,
  same_refl, list_beq_iff, list_eq, option_eq, all, contains, distinct, ok,
}
use netauto.Prelude.Sort.{lex_lt_asymm}
use netauto.Domain.Relationships.{
  validate_relationship_name, check_resolution_names, check_non_symmetric, RelationshipDefinition,
  validate_definition, check_resolution_names, RelationshipPerspective, check_non_symmetric,
  validate_relationship_name,
}
use netauto.Domain.Relationships.Changes.{
  new_non_symmetric_definition, sort_perspectives, non_symmetric_definition,
}
use netauto.Prelude.Sort.{lex_lt, lex_lt_asymm}
use netauto.Domain.Identifiers.{is_identifier}
use netauto.Prelude.SortedSet.{lex_lt_total}

differ-false : (a b : ℕ) → a ≢ b → (a == b) ≡ false
differ-false a b h = elim (Bool-cases (a == b)) [
  | inl t ↦ absurd (h ((ℕ_eq.same_iff a b).0 t))
  | inr f ↦ f
]

-- The perspectives come in one order, where their names differ.
sort_perspectives_comm :
    (left right : RelationshipPerspective)
    → (left.name == right.name) ≡ false
    → sort_perspectives left right ≡ sort_perspectives right left
unfolding sort_perspectives lex_lt
sort_perspectives_comm left right d = elim (Bool-cases (lex_lt (key right) (key left))) [
  | inl t ↦ rw (t, lex_lt_asymm (key right) (key left) t) refl
  | inr f ↦ elim (Bool-cases (lex_lt (key left) (key right))) [
    | inl t ↦ rw (f, t) refl
    | inr g ↦ absurd (keys_differ (lex_lt_total (key right) (key left) f g))
  ]
]
  where
    key : RelationshipPerspective → List ℕ
    key p = p.template_id ∷ p.name

    keys_differ : key right ≡ key left → ⊥
    keys_differ e =
        let names_equal : left.name ≡ right.name = cc e in
        cc ((list_beq_iff left.name right.name).1 names_equal, d)

non_symmetric_definition-validated :
    (definition_id first_id second_id : Uuid) (first second : RelationshipPerspective)
    → first_id ≢ second_id
    → is_identifier first.name ≡ true
    → is_identifier second.name ≡ true
    → (first.name == second.name) ≡ false
    → validate_definition (non_symmetric_definition definition_id first_id second_id first second)
      ≡ ok tt
unfolding validate_definition distinct contains all check_resolution_names check_non_symmetric
    validate_relationship_name
non_symmetric_definition-validated d a b first second i v w n =
    rw
      (
        differ-false b a (λ e. i (sym e)),
        same_refl d,
        v,
        w,
        same_refl first.template_id,
        same_refl second.template_id,
        n,
      )
      refl

names_differ : (s t : Text) → (s == t) ≡ false → (t == s) ≡ false
names_differ s t h = elim (Bool-cases (t == s)) [
  | inl e ↦ let back : s ≡ t = sym ((list_beq_iff t s).0 e) in cc (back, h)
  | inr f ↦ f
]

sorted_validated :
    (definition_id first_id second_id : Uuid) (left right : RelationshipPerspective)
    → first_id ≢ second_id
    → is_identifier left.name ≡ true
    → is_identifier right.name ≡ true
    → (left.name == right.name) ≡ false
    → let (first, second) = sort_perspectives left right in
      validate_definition (non_symmetric_definition definition_id first_id second_id first second)
      ≡ ok tt
unfolding sort_perspectives
sorted_validated d a b left right i v w n =
    elim (Bool-cases (lex_lt (right.template_id ∷ right.name) (left.template_id ∷ left.name))) [
      | inl t ↦ rw t (
          non_symmetric_definition-validated d a b right left i w v
            (names_differ left.name right.name n))
      | inr f ↦ rw f (non_symmetric_definition-validated d a b left right i v w n)
    ]

-- Two perspectives with different identifiers as names, and different ids for their resolutions, make a
-- definition; it is not symmetric, and the order of the perspectives does not matter.
pub new_non_symmetric_definition_lem :
    (definition_id first_id second_id : Uuid) (left right : RelationshipPerspective)
    → first_id ≢ second_id
    → is_identifier left.name ≡ true
    → is_identifier right.name ≡ true
    → (left.name == right.name) ≡ false
    → (definition : RelationshipDefinition) × (new_non_symmetric_definition definition_id first_id
          second_id left right
        ≡ ok definition)
      × (new_non_symmetric_definition definition_id first_id second_id right left ≡ ok definition)
      × (definition.symmetric ≡ false)
unfolding new_non_symmetric_definition validate_relationship_name
new_non_symmetric_definition_lem d a b left right i v w n =
    let made = sort_perspectives left right in
    let swapped : (right.name == left.name) ≡ false = names_differ left.name right.name n in
    let good = sorted_validated d a b left right i v w n in
    (
      non_symmetric_definition d a b made.0 made.1,
      rw (v, w, n, good) refl,
      rw (w, v, swapped, sort_perspectives_comm right left swapped, good) refl,
      refl,
    )
