-- ===== src/Application/DataTypes/Names.antt =====
-- The names of the DataType lineages under the statements of `DataTypeStore`.
pub mod Requests
use netauto.Prelude.{
  ℕ, ◌≤◌, ◌≡◌, refl, ap, ◌∙◌, inl, inr, Bool, true, false, not, ◌&&◌, ◌||◌, Option, none, List, [],
  ◌∷◌, ◌++◌, arith, ltb, Bool-cases, Option-cases, Text, codes, ◌==◌, ℕ_eq, same_refl, list_beq_iff,
  list_eq, option_eq, length, any, keep, All, Result, ok, ◌>>=◌, ◌>>◌, guard,
}
use netauto.Domain.Value.{Value}
use netauto.Domain.DataTypes.{
  DataType, DataTypeVersion, VersionStatus, validate_qualified_name, NameError,
  invalid_qualified_name, reserved_namespace,
}
use netauto.Failures.{Failure}
use netauto.Persistence.Database.{Database}
use netauto.Persistence.DataTypes as Store
use netauto.Persistence.DataTypes.{has_id, update_where}
use netauto.Application.DataTypes.Effects.Leaves.{Leaves, Leaves-bind, Leaves-ok}
use netauto.Domain.Identifiers.{starts_with, is_namespace, is_identifier}

-- A qualified name of the form that the public may give: a namespace of at most 255 characters, an
-- identifier, and the namespace is neither `core` nor under it.
abbrev pub IsPublicName : Text → Text → Type 0
IsPublicName namespace name =
    (length namespace ≤ 255)
    × (is_namespace namespace ≡ true)
    × (is_identifier name ≡ true)
    × ¬ (namespace ≡ codes "core")
    × ((rest : Text) → ¬ (namespace ≡ codes "core." ++ rest))

starts_with-append : (prefix rest : Text) → starts_with (prefix ++ rest) prefix ≡ true
unfolding starts_with
starts_with-append [] rest = refl
starts_with-append (p ∷ prefix) rest = rw (same_refl p, starts_with-append prefix rest) refl

both_guards :
    (x y : NameError) (long space word core under : Bool)
    → (do guard (not (long || (not space || not word))) x; guard (not (true && (core || under))) y)
      ≡ ok tt
    → (long ≡ false) × (space ≡ true) × (word ≡ true) × (core ≡ false) × (under ≡ false)
both_guards x y false true true false false h = (refl, refl, refl, refl, refl)
both_guards x y false true true true under h = cc
both_guards x y false true true false true h = cc
both_guards x y false true false core under h = cc
both_guards x y false false word core under h = cc
both_guards x y true space word core under h = cc

-- what validation accepts from the public
pub accepted-IsPublicName :
    (namespace name : Text)
    → validate_qualified_name namespace name true ≡ ok tt
    → IsPublicName namespace name
unfolding validate_qualified_name
accepted-IsPublicName namespace name h =
    let (long, space, word, core, under) =
      both_guards invalid_qualified_name reserved_namespace _ _ _ _ _ h in
    (
      within (length namespace) long,
      space,
      word,
      λ e. differ core ((list_beq_iff namespace (codes "core")).1 e),
      λ rest e.
          differ under
            (ap (λ n. starts_with n (codes "core.")) e ∙ starts_with-append (codes "core.") rest),
    )
  where
    within : (n : ℕ) → ltb 255 n ≡ false → n ≤ 255
    within n h = ground arith

    differ : {b : Bool} → b ≡ false → b ≡ true → ⊥
    differ h k = cc

abbrev pub HasName : DataType → Type 0
HasName l = IsPublicName l.namespace l.name

abbrev pub IsNamed : Database → Type 0
IsNamed db = All HasName db.datatypes

All-update_where :
    (p : DataType → Bool) (f : DataType → DataType) (ls : List DataType)
    → ((l : DataType) → HasName l → HasName (f l))
    → All HasName ls
    → All HasName (update_where p f ls)
unfolding update_where
All-update_where p f [] k h = tt
All-update_where p f (l ∷ ls) k h = elim (Bool-cases (p l)) [
  | inl t ↦ rw t (k l h.0, All-update_where p f ls k h.1)
  | inr t ↦ rw t (h.0, All-update_where p f ls k h.1)
]

All-keep : (p : DataType → Bool) (ls : List DataType) → All HasName ls → All HasName (keep p ls)
unfolding keep
All-keep p [] h = tt
All-keep p (l ∷ ls) h = elim (Bool-cases (p l)) [
  | inl t ↦ rw t (h.0, All-keep p ls h.1)
  | inr t ↦ rw t (All-keep p ls h.1)
]

All-last :
    (l : DataType) (ls : List DataType) → All HasName ls → HasName l → All HasName (ls ++ l ∷ [])
All-last l [] h k = (k, tt)
All-last l (x ∷ ls) h k = (h.0, All-last l ls h.1 k)

module _ (db : Database) (named : IsNamed db) where
  pub update_version-IsNamed :
      (f : DataTypeVersion → DataTypeVersion) (id v : ℕ)
      → Leaves IsNamed (Store.update_version id v f db)
  unfolding Store.update_version
  update_version-IsNamed f id v = elim (Option-cases (Store.get_version id v db)) [
    | inl e ↦ rw (e, Store.update_version) tt
    | inr (x, e) ↦ rw (e, Store.update_version) named
  ]

  pub set_default-IsNamed : (id : ℕ) (v : Option ℕ) → Leaves IsNamed (Store.set_default id v db)
  unfolding Store.set_default
  set_default-IsNamed id v = elim (Option-cases (Store.get_lineage id db)) [
    | inl e ↦ rw (e, Store.set_default) tt
    | inr (l, e) ↦
        rw (e, Store.set_default)
          (elim (Bool-cases (Store.default_exists id v db)) [
            | inl o ↦ rw o (
                All-update_where (has_id id) (λ x. record x { default_version = v }) db.datatypes
                  (λ x h. h) named)
            | inr o ↦ rw o tt
          ])
  ]

  pub set_description-IsNamed :
      (id : ℕ) (d : Option Text) → Leaves IsNamed (Store.set_description id d db)
  unfolding Store.set_description
  set_description-IsNamed id d = elim (Option-cases (Store.get_lineage id db)) [
    | inl e ↦ rw (e, Store.set_description) named
    | inr (l, e) ↦
        rw (e, Store.set_description)
          (All-update_where (has_id id) (λ x. record x { description = d }) db.datatypes (λ x h. h)
            named)
  ]

  insert_row-IsNamed : (y : DataTypeVersion) → Leaves IsNamed (Store.insert_row y db)
  unfolding Store.insert_row
  insert_row-IsNamed y = ground arith

  pub insert_version-IsNamed : (y : DataTypeVersion) → Leaves IsNamed (Store.insert_version y db)
  unfolding Store.insert_version
  insert_version-IsNamed y =
      Leaves-bind IsNamed (Store.check_version y) _ (λ _ _. insert_row-IsNamed y)

  pub delete_draft-IsNamed : (id v : ℕ) → Leaves IsNamed (Store.delete_draft id v db)
  unfolding Store.delete_draft
  delete_draft-IsNamed id v = ground arith

  pub delete_lineage-IsNamed : (id : ℕ) → Leaves IsNamed (Store.delete_lineage id db)
  unfolding Store.delete_lineage
  delete_lineage-IsNamed id =
      let cleared =
        update_where (has_id id) (λ l. record l { default_version = none }) db.datatypes in
      let kept : All HasName (keep (λ l. not (has_id id l)) cleared) =
        All-keep (λ l. not (has_id id l)) cleared
          (All-update_where (has_id id) (λ l. record l { default_version = none }) db.datatypes
            (λ x h. h) named) in
      elim (Bool-cases (any (λ p. p.datatype_id == id) db.object_template_properties)) [
        | inl t ↦ rw t tt
        | inr t ↦
            rw t
              (elim (Bool-cases
                (any (λ p. p.datatype_id == id) db.relationship_definition_properties)) [
                  | inl u ↦ rw u tt
                  | inr u ↦ rw u kept
                ])
      ]

  insert_header-IsNamed : (l : DataType) → HasName l → Leaves IsNamed (Store.insert_header l db)
  unfolding Store.insert_header
  insert_header-IsNamed l h =
      let kept = All-last (record l { default_version = none }) db.datatypes named h in
      elim (Bool-cases (any (has_id l.id) db.datatypes)) [
        | inl t ↦ rw t tt
        | inr t ↦ rw t (elim (Bool-cases (any (Store.has_name l.namespace l.name) db.datatypes)) [
          | inl u ↦ rw u tt
          | inr u ↦ rw u kept
        ])
      ]

  pub insert_lineage-IsNamed :
      (l : DataType) → HasName l → Leaves IsNamed (Store.insert_lineage l db)
  unfolding Store.insert_lineage
  insert_lineage-IsNamed l h =
      Leaves-bind IsNamed (Store.check_lineage l) _ (λ _ _. insert_header-IsNamed l h)

classify_create-IsNamed :
    (r : Result Failure (Unit {0} × Database))
    → Leaves IsNamed r
    → Leaves IsNamed (Store.classify_create r)
unfolding Store.classify_create
classify_create-IsNamed r k = ground arith

pub create-IsNamed :
    (l : DataType) (y : DataTypeVersion) (db : Database)
    → IsNamed db
    → HasName l
    → Leaves IsNamed (Store.create l y db)
unfolding Store.create
create-IsNamed l y db named h = classify_create-IsNamed _ (
    Leaves-bind IsNamed (Store.insert_lineage l db) _ (λ (a, d) e.
      insert_version-IsNamed d (Leaves-ok IsNamed _ (insert_lineage-IsNamed db named l h) e) y))
