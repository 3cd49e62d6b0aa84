-- ===== src/Application/DataTypes/History/Statements.antt =====
-- What each statement of `DataTypeStore` does to the history of the versions.
use netauto.Prelude.{
  ℕ, ◌≡◌, refl, ◌∙◌, inl, inr, true, false, ◌&&◌, Option, none, some, List, [], ◌∷◌, ◌++◌, arith,
  Bool-cases, Option-cases, Text, ◌==◌, ℕ_eq, option_beq, list_eq, option_eq, any, any-find, Result,
  ok, err,
}
use netauto.Domain.DataTypes.{DataType, DataTypeVersion}
use netauto.Failures.{Failure}
use netauto.Persistence.Database.{Database}
use netauto.Persistence.DataTypes as Store
use netauto.Persistence.DataTypes.{has_id, has_key, update_where}
use netauto.Persistence.DataTypes.Rows.{KeepsKey}
use netauto.Application.DataTypes.{is_draft}
use netauto.Application.DataTypes.Effects.Leaves.{Leaves, Leaves-bind, Leaves-ok}
use netauto.Application.DataTypes.Invariant.{with_lineages, same_version}
use netauto.Application.DataTypes.Invariant.Versions.{
  get_version-updated, get_version-extended, get_version-without, without_version,
}
use netauto.Application.DataTypes.Invariant.Lineages.{
  without_lineage, get_lineage-removed, get_version-removed,
}
use netauto.Application.DataTypes.History.{IsSuccessor, Follows, Evolves}

IsSuccessor-refl : (x : DataTypeVersion) → IsSuccessor x x
IsSuccessor-refl x = (refl, omega arith, omega arith, λ d. (refl, refl))

pub Follows-refl : (db : Database) → Follows db db
Follows-refl db id v x h = (x, h, IsSuccessor-refl x)

pub Follows-Evolves : (before after : Database) → Follows before after → Evolves before after
Follows-Evolves before after f id v x h = inl (f id v x h)

pub Evolves-Leaves {ℓ} :
    {A : Type ℓ} (db : Database) (r : Result Failure (A × Database))
    → Leaves (Follows db) r
    → Leaves (Evolves db) r
Evolves-Leaves db (ok (a, d)) k = Follows-Evolves db d k
Evolves-Leaves db (err e) k = tt

pub update_version-Follows :
    (f : DataTypeVersion → DataTypeVersion) (id v : ℕ) (db : Database)
    → KeepsKey f
    → ((x : DataTypeVersion) → Store.get_version id v db ≡ some x → IsSuccessor x (f x))
    → Leaves (Follows db) (Store.update_version id v f db)
unfolding Store.update_version
update_version-Follows f id v db k s = elim (Option-cases (Store.get_version id v db)) [
  | inl e ↦ rw (e, Store.update_version) tt
  | inr (x, e) ↦
      rw (e, Store.update_version)
        (λ j w y h. elim (Bool-cases (id == j && v == w)) [
          | inl t ↦ (f y, ground (arith, get_version-updated f id v db j w k), s y (ground arith))
          | inr t ↦ (y, ground (arith, get_version-updated f id v db j w k), IsSuccessor-refl y)
        ])
]

-- rows with other lineages have the same versions
Follows-with_lineages :
    (before db : Database) (ls : List DataType)
    → Follows before db
    → Follows before (with_lineages db ls)
Follows-with_lineages before db ls f id v x h =
    let (y, g, s) = f id v x h in (y, same_version id v db ls ∙ g, s)

pub set_default-Follows :
    (id : ℕ) (v : Option ℕ) (before db : Database)
    → Follows before db
    → Leaves (Follows before) (Store.set_default id v db)
unfolding Store.set_default
set_default-Follows id v before db f = elim (Option-cases (Store.get_lineage id db)) [
  | inl e ↦ rw (e, Store.set_default) tt
  | inr (l, e) ↦
      rw (e, Store.set_default)
        (elim (Bool-cases (Store.default_exists id v db)) [
          | inl o ↦ rw o (
              Follows-with_lineages before db
                (update_where (has_id id) (λ x. record x { default_version = v }) db.datatypes) f)
          | inr o ↦ rw o tt
        ])
]

pub set_description-Follows :
    (id : ℕ) (d : Option Text) (db : Database) → Leaves (Follows db) (Store.set_description id d db)
unfolding Store.set_description
set_description-Follows id d db = elim (Option-cases (Store.get_lineage id db)) [
  | inl e ↦ rw (e, Store.set_description) (Follows-refl db)
  | inr (l, e) ↦
      rw (e, Store.set_description)
        (Follows-with_lineages db db
          (update_where (has_id id) (λ x. record x { description = d }) db.datatypes)
          (Follows-refl db))
]

insert_header-Follows :
    (l : DataType) (db : Database) → Leaves (Follows db) (Store.insert_header l db)
unfolding Store.insert_header
insert_header-Follows l db = elim (Bool-cases (any (has_id l.id) db.datatypes)) [
  | inl t ↦ rw t tt
  | inr t ↦ rw t (elim (Bool-cases (any (Store.has_name l.namespace l.name) db.datatypes)) [
    | inl u ↦ rw u tt
    | inr u ↦ rw u (
        Follows-with_lineages db db (db.datatypes ++ record l { default_version = none } ∷ [])
          (Follows-refl db))
  ])
]

insert_lineage-Follows :
    (l : DataType) (db : Database) → Leaves (Follows db) (Store.insert_lineage l db)
unfolding Store.insert_lineage
insert_lineage-Follows l db =
    Leaves-bind (Follows db) (Store.check_lineage l) _ (λ _ _. insert_header-Follows l db)

fresh_key :
    (y x : DataTypeVersion) (db : Database) (j w : ℕ)
    → any (has_key y.datatype_id y.version) db.datatype_versions ≡ false
    → Store.get_version j w db ≡ some x
    → (y.datatype_id == j && y.version == w) ≡ false
unfolding Store.get_version
fresh_key y x db j w h g =
    ground (arith, any-find (has_key y.datatype_id y.version) db.datatype_versions h)

insert_row-Follows :
    (y : DataTypeVersion) (before db : Database)
    → Follows before db
    → Leaves (Follows before) (Store.insert_row y db)
unfolding Store.insert_row
insert_row-Follows y before db f =
    elim (Bool-cases (any (has_key y.datatype_id y.version) db.datatype_versions)) [
      | inl t ↦ rw (t, Store.insert_row) tt
      | inr n ↦
          rw (n, Store.insert_row)
            (elim (Bool-cases (any (has_id y.datatype_id) db.datatypes)) [
              | inl o ↦ rw o (λ j w x h.
                  let (z, g, s) = f j w x h in
                  (z, ground (arith, get_version-extended y db j w n, fresh_key y z db j w n g), s))
              | inr o ↦ rw o tt
            ])
    ]

pub insert_version-Follows :
    (y : DataTypeVersion) (before db : Database)
    → Follows before db
    → Leaves (Follows before) (Store.insert_version y db)
unfolding Store.insert_version
insert_version-Follows y before db f =
    Leaves-bind (Follows before) (Store.check_version y) _ (λ _ _. insert_row-Follows y before db f)

classify_create-Follows :
    (before : Database) (r : Result Failure (Unit {0} × Database))
    → Leaves (Follows before) r
    → Leaves (Follows before) (Store.classify_create r)
unfolding Store.classify_create
classify_create-Follows before r k = ground arith

pub create-Follows :
    (l : DataType) (y : DataTypeVersion) (db : Database) → Leaves (Follows db) (Store.create l y db)
unfolding Store.create
create-Follows l y db = classify_create-Follows db _ (
    Leaves-bind (Follows db) (Store.insert_lineage l db) _ (λ (a, d) h.
      insert_version-Follows y db d (Leaves-ok (Follows db) _ (insert_lineage-Follows l db) h)))

without_version-Evolves :
    (id v : ℕ) (db : Database)
    → ((x : DataTypeVersion) → Store.get_version id v db ≡ some x → is_draft x.status ≡ true)
    → Evolves db (without_version id v db)
without_version-Evolves id v db s j w x h = elim (Bool-cases (id == j && v == w)) [
  | inl t ↦ inr (inl (s x (ground arith), ground (arith, get_version-without id v db j w)))
  | inr t ↦ inl (x, ground (arith, get_version-without id v db j w), IsSuccessor-refl x)
]

pub delete_draft-Evolves :
    (id v : ℕ) (db : Database)
    → ((x : DataTypeVersion) → Store.get_version id v db ≡ some x → is_draft x.status ≡ true)
    → Leaves (Evolves db) (Store.delete_draft id v db)
unfolding Store.delete_draft
delete_draft-Evolves id v db s =
    let gone = without_version-Evolves id v db s in
    elim (Bool-cases
      (any (λ l. l.id == id && option_beq l.default_version (some v)) db.datatypes)) [
        | inl t ↦ rw t tt
        | inr t ↦
            rw t (elim (Bool-cases (any (Store.names_version id v) db.object_template_properties)) [
              | inl u ↦ rw u tt
              | inr u ↦
                  rw u
                    (elim (Bool-cases
                      (any (Store.names_version id v) db.relationship_definition_properties)) [
                        | inl w ↦ rw w tt
                        | inr w ↦ rw w gone
                      ])
            ])
      ]

without_lineage-Evolves : (id : ℕ) (db : Database) → Evolves db (without_lineage id db)
without_lineage-Evolves id db j w x h = elim (Bool-cases (id == j)) [
  | inl t ↦ inr (inr (ground (arith, get_lineage-removed id db j)))
  | inr t ↦ inl (x, ground (arith, get_version-removed id db j w), IsSuccessor-refl x)
]

pub delete_lineage-Evolves :
    (id : ℕ) (db : Database) → Leaves (Evolves db) (Store.delete_lineage id db)
unfolding Store.delete_lineage
delete_lineage-Evolves id db =
    let cleared : Database =
      with_lineages db
        (update_where (has_id id) (λ l. record l { default_version = none }) db.datatypes) in
    let gone : Evolves db (without_lineage id cleared) = λ j w x h.
      without_lineage-Evolves id cleared j w x (same_version j w db cleared.datatypes ∙ h) in
    elim (Bool-cases (any (λ p. p.datatype_id == id) db.object_template_properties)) [
      | inl t ↦ rw t tt
      | inr t ↦
          rw t
            (elim (Bool-cases
              (any (λ p. p.datatype_id == id) db.relationship_definition_properties)) [
                | inl u ↦ rw u tt
                | inr u ↦ rw u gone
              ])
    ]
