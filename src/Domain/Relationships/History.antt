-- ===== src/Domain/Relationships/History.antt =====
-- The published history of a relationship's properties, `validate_relationship_property_history` of
-- src/netauto/domain/relationships.py.
use netauto.Prelude.{
  ℕ, ◌≡◌, refl, sym, subst, Bool, true, false, not, ◌&&◌, List, [], ◌∷◌, ◌++◌, arith, Uuid, ◌==◌,
  ℕ_eq, list_eq, option_eq, any, keep, All, ok, bind_ok, guard_then, ok_unique, All-weaken,
}
use netauto.Domain.Relationships.{
  RelationshipDefinitionVersion, RelationshipDefinitionProperty, check_history, gather_history,
  validate_relationship_property_history, validate_relationship_definition_version, is_list,
}

-- A published property and one of the candidate: of one name they have one lineage of DataTypes, and
-- a list has not become a scalar.
abbrev pub Continues : RelationshipDefinitionProperty → RelationshipDefinitionProperty → Type 0
Continues old item =
    (old.name == item.name) ≡ true
    → (old.datatype_id ≡ item.datatype_id)
      × (is_list old.value_mode ≡ true → is_list item.value_mode ≡ true)

kept_none :
    (p q : RelationshipDefinitionProperty → Bool) (xs : List RelationshipDefinitionProperty)
    → any p (keep q xs) ≡ false
    → All (λ x. q x ≡ true → p x ≡ false) xs
unfolding any keep
kept_none p q [] h = tt
kept_none p q (x ∷ xs) h = (λ e. ground arith, kept_none p q xs (ground arith))

not-true : (b : Bool) → not b ≡ true → b ≡ false
not-true true h = cc
not-true false h = refl

both_tests :
    (item : RelationshipDefinitionProperty) (history : List RelationshipDefinitionProperty)
    → All
        (λ old. (old.name == item.name) ≡ true → not (old.datatype_id == item.datatype_id) ≡ false)
        history
    → All
        (λ old.
          (old.name == item.name) ≡ true
          → (is_list old.value_mode && not (is_list item.value_mode)) ≡ false)
        history
    → All (λ old. Continues old item) history
both_tests item [] h k = tt
both_tests item (old ∷ history) h k = (
  λ e. (
    same_lineage old.datatype_id item.datatype_id (h.0 e),
    λ l. still_list (is_list old.value_mode) (is_list item.value_mode) (k.0 e) l,
  ),
  both_tests item history h.1 k.1,
)
  where
    same_lineage : (x y : ℕ) → not (x == y) ≡ false → x ≡ y
    same_lineage x y e = ground arith

    still_list : (a b : Bool) → (a && not b) ≡ false → a ≡ true → b ≡ true
    still_list true true e l = refl
    still_list true false e l = cc
    still_list false b e l = cc

history-Continues :
    (history items : List RelationshipDefinitionProperty)
    → check_history history items ≡ ok tt
    → All (λ item. All (λ old. Continues old item) history) items
unfolding check_history
history-Continues history [] h = tt
history-Continues history (item ∷ rest) h =
    let same : RelationshipDefinitionProperty → Bool = λ old. old.name == item.name in
    let moved : RelationshipDefinitionProperty → Bool =
      λ old. not (old.datatype_id == item.datatype_id) in
    let narrowed : RelationshipDefinitionProperty → Bool =
      λ old. is_list old.value_mode && not (is_list item.value_mode) in
    let (a, h₁) = guard_then (not (any moved (keep same history))) _ _ h in
    let (b, h₂) = guard_then (not (any narrowed (keep same history))) _ _ h₁ in
    (
      both_tests item history (kept_none moved same history (not-true _ a))
          (kept_none narrowed same history (not-true _ b)),
      history-Continues history rest h₂,
    )

All-split :
    (P : RelationshipDefinitionProperty → Type 0) (xs ys : List RelationshipDefinitionProperty)
    → All P (xs ++ ys)
    → All P xs × All P ys
All-split P [] ys h = (tt, h)
All-split P (x ∷ xs) ys h = let (a, b) = All-split P xs ys h.1 in ((h.0, a), b)

-- What holds of the gathered properties holds of those of each version, which is of the definition.
by_version :
    (P : RelationshipDefinitionProperty → Type 0) (id : Uuid)
    (versions : List RelationshipDefinitionVersion) {history : List RelationshipDefinitionProperty}
    → gather_history id versions ≡ ok history
    → All P history
    → All (λ v. (v.relationship_definition_id ≡ id) × All P v.properties) versions
unfolding gather_history
by_version P id [] h all_hold = tt
by_version P id (v ∷ versions) h all_hold =
    let (same, h₁) = guard_then (v.relationship_definition_id == id) _ _ h in
    let (later, e, h₂) = bind_ok (gather_history id versions) _ h₁ in
    let (here, rest) =
      All-split P v.properties later (subst (All P) (sym (ok_unique _ refl h₂)) all_hold) in
    (
      ((ℕ_eq.same_iff v.relationship_definition_id id).0 same, here),
      by_version P id versions e rest,
    )

all_unit : (history : List RelationshipDefinitionProperty) → All (λ old. Unit {0}) history
all_unit [] = tt
all_unit (old ∷ history) = (tt, all_unit history)

-- A candidate that is accepted against the published versions continues each of them: each is of the
-- candidate's definition, and every property that it shares with the candidate by name keeps its
-- lineage of DataTypes, and stays a list if it is one.
pub validate_relationship_property_history-Continues :
    (candidate : RelationshipDefinitionVersion) (published : List RelationshipDefinitionVersion)
    → validate_relationship_property_history candidate published ≡ ok tt
    → All (λ v. v.relationship_definition_id ≡ candidate.relationship_definition_id) published
      × All
          (λ item. All (λ v. All (λ old. Continues old item) v.properties) published)
          candidate.properties
unfolding validate_relationship_property_history
validate_relationship_property_history-Continues candidate published h =
    let (u, v, h₁) = bind_ok (validate_relationship_definition_version candidate) _ h in
    let (history, e, h₂) =
      bind_ok (gather_history candidate.relationship_definition_id published) _ h₁ in
    let id : Uuid = candidate.relationship_definition_id in
    (
      All-weaken _ _ published (λ v k. k.0)
          (by_version (λ old. Unit {0}) id published e (all_unit history)),
      All-weaken _ _ candidate.properties
          (λ item k.
            All-weaken _ _ published (λ v w. w.1)
              (by_version (λ old. Continues old item) id published e k))
          (history-Continues history candidate.properties h₂),
    )
