-- ===== src/Application/DataTypes/Invariant/Kept.antt =====
-- The invariant under the methods of `DataTypeStore`.
use netauto.Prelude.{
  ℕ, ◌<◌, ◌≡◌, refl, inl, inr, true, false, Option, none, some, arith, Bool-cases, Option-cases,
  is_some, Text, Uuid, ◌==◌, ℕ_eq, list_eq, option_eq, find, any, find-any, Result,
}
use netauto.Domain.Value.{Value}
use netauto.Domain.DataTypes.{DataType, DataTypeVersion, VersionStatus}
use netauto.Failures.{Failure}
use netauto.Persistence.Database.{Database}
use netauto.Persistence.DataTypes as Store
use netauto.Persistence.DataTypes.{has_id, has_key, has_name, update_where}
use netauto.Application.DataTypes.Effects.Leaves.{Leaves, Leaves-bind, Leaves-ok}
use netauto.Application.DataTypes.Invariant.{IsSound, published_at, with_lineages}
use netauto.Application.DataTypes.Invariant.Versions.{
  update_version-IsSound, insert_version-IsSound, delete_version-IsSound,
}
use netauto.Application.DataTypes.Invariant.Lineages.{
  update_lineage-IsSound, insert_lineage-IsSound, delete_lineage-IsSound,
}

-- an outcome whose rows, if it has some, satisfy the invariant
abbrev pub Keeps {ℓ} : {A : Type ℓ} → Result Failure (A × Database) → Type 0
Keeps r = Leaves IsSound r

pub set_status-Keeps :
    (id v : ℕ) (status : VersionStatus) (db : Database)
    → ((l : DataType)
        → Store.get_lineage id db ≡ some l
        → l.default_version ≡ some v
        → Store.is_published status ≡ true)
    → IsSound db
    → Keeps (Store.set_status id v status db)
unfolding Store.set_status
set_status-Keeps id v status db h s = elim (Option-cases (Store.get_version id v db)) [
  | inl e ↦ rw (e, Store.update_version) tt
  | inr (x, e) ↦
      rw (e, Store.update_version)
        (update_version-IsSound (λ y. record y { status = status }) id v db (λ y. (refl, refl))
          (λ y r. r) (λ l y hl hy d p. h l hl d) s)
]

lineage_there :
    (id : Uuid) (db : Database)
    → any (has_id id) db.datatypes ≡ true
    → is_some (Store.get_lineage id db) ≡ true
unfolding Store.get_lineage
lineage_there id db h = elim (Option-cases (find (has_id id) db.datatypes)) [
  | inl e ↦ absurd (cc (h, find-any (has_id id) db.datatypes e))
  | inr (l, e) ↦ rw e refl
]

insert_row-Keeps :
    (y : DataTypeVersion) (db : Database)
    → 0 < y.version
    → 0 < y.revision
    → IsSound db
    → Keeps (Store.insert_row y db)
unfolding Store.insert_row
insert_row-Keeps y db n r s =
    elim (Bool-cases (any (has_key y.datatype_id y.version) db.datatype_versions)) [
      | inl t ↦ rw (t, Store.insert_row) tt
      | inr f ↦
          rw (f, Store.insert_row)
            (elim (Bool-cases (any (has_id y.datatype_id) db.datatypes)) [
              | inl o ↦
                  rw o (insert_version-IsSound y db f (lineage_there y.datatype_id db o) n r s)
              | inr o ↦ rw o tt
            ])
    ]

pub insert_version-Keeps :
    (y : DataTypeVersion) (db : Database)
    → 0 < y.version
    → 0 < y.revision
    → IsSound db
    → Keeps (Store.insert_version y db)
unfolding Store.insert_version
insert_version-Keeps y db n r s =
    Leaves-bind IsSound (Store.check_version y) _ (λ _ _. insert_row-Keeps y db n r s)

pub set_default-Keeps :
    (id : Uuid) (v : Option ℕ) (db : Database)
    → ((w : ℕ) → v ≡ some w → published_at id w db ≡ true)
    → IsSound db
    → Keeps (Store.set_default id v db)
unfolding Store.set_default
set_default-Keeps id v db h s = elim (Option-cases (Store.get_lineage id db)) [
  | inl e ↦ rw (e, Store.set_default) tt
  | inr (l, e) ↦
      rw (e, Store.set_default)
        (elim (Bool-cases (Store.default_exists id v db)) [
          | inl o ↦ rw o (
              update_lineage-IsSound (λ x. record x { default_version = v }) id db (λ x. refl)
                (λ x. (refl, refl)) (λ x w p. inr (h w p)) s)
          | inr o ↦ rw o tt
        ])
]

pub set_description-Keeps :
    (id : Uuid) (d : Option Text) (db : Database)
    → IsSound db
    → Keeps (Store.set_description id d db)
unfolding Store.set_description
set_description-Keeps id d db s = elim (Option-cases (Store.get_lineage id db)) [
  | inl e ↦ rw (e, Store.set_description) s
  | inr (l, e) ↦
      rw (e, Store.set_description)
        (update_lineage-IsSound (λ x. record x { description = d }) id db (λ x. refl)
          (λ x. (refl, refl)) (λ x w p. inl p) s)
]

pub revise-Keeps :
    (id v : ℕ) (c : Value) (db : Database) → IsSound db → Keeps (Store.revise id v c db)
unfolding Store.revise
revise-Keeps id v c db s = Leaves-bind IsSound (Store.check_revised id v c db) _ (λ _ _.
    elim (Option-cases (Store.get_version id v db)) [
      | inl e ↦ rw (e, Store.update_version) tt
      | inr (x, e) ↦
          rw (e, Store.update_version)
            (update_version-IsSound (Store.revised c) id v db (λ y. (refl, refl))
              (λ y r. omega arith) (λ l y hl hy d p. p) s)
    ])

pub delete_draft-Keeps :
    (id v : ℕ) (db : Database)
    → published_at id v db ≡ false
    → IsSound db
    → Keeps (Store.delete_draft id v db)
unfolding Store.delete_draft
delete_draft-Keeps id v db h s = ground (arith, delete_version-IsSound id v db h s)

pub delete_lineage-Keeps :
    (id : Uuid) (db : Database) → IsSound db → Keeps (Store.delete_lineage id db)
unfolding Store.delete_lineage
delete_lineage-Keeps id db s =
    let cleared : Database =
      with_lineages db
        (update_where (has_id id) (λ l. record l { default_version = none }) db.datatypes) in
    let kept : IsSound cleared =
      update_lineage-IsSound (λ l. record l { default_version = none }) id db (λ x. refl)
        (λ x. (refl, refl)) (λ x w p. absurd (cc p)) s in
    let gone = delete_lineage-IsSound id cleared kept in
    elim (Bool-cases (any (λ p. p.datatype_id == id) db.object_template_properties)) [
      | inl t ↦ rw t tt
      | inr t ↦
          rw t
            (elim (Bool-cases
              (any (λ p. p.datatype_id == id) db.relationship_definition_properties)) [
                | inl u ↦ rw u tt
                | inr u ↦ rw u gone
              ])
    ]

insert_header-Keeps : (l : DataType) (db : Database) → IsSound db → Keeps (Store.insert_header l db)
unfolding Store.insert_header
insert_header-Keeps l db s = elim (Bool-cases (any (has_id l.id) db.datatypes)) [
  | inl t ↦ rw t tt
  | inr t ↦ rw t (elim (Bool-cases (any (has_name l.namespace l.name) db.datatypes)) [
    | inl u ↦ rw u tt
    | inr u ↦ rw u (insert_lineage-IsSound (record l { default_version = none }) db t u refl s)
  ])
]

insert_lineage-Keeps :
    (l : DataType) (db : Database) → IsSound db → Keeps (Store.insert_lineage l db)
unfolding Store.insert_lineage
insert_lineage-Keeps l db s =
    Leaves-bind IsSound (Store.check_lineage l) _ (λ _ _. insert_header-Keeps l db s)

classify_create-Keeps :
    (r : Result Failure (Unit {0} × Database)) → Keeps r → Keeps (Store.classify_create r)
unfolding Store.classify_create
classify_create-Keeps r k = ground arith

pub create-Keeps :
    (l : DataType) (y : DataTypeVersion) (db : Database)
    → 0 < y.version
    → 0 < y.revision
    → IsSound db
    → Keeps (Store.create l y db)
unfolding Store.create
create-Keeps l y db n r s = classify_create-Keeps _ (
    Leaves-bind IsSound (Store.insert_lineage l db) _ (λ (a, d) h.
      insert_version-Keeps y d n r (Leaves-ok IsSound _ (insert_lineage-Keeps l db s) h)))
