-- ===== src/Application/DataTypes/Effects/Refines.antt =====
-- The operations of `DataTypeService`, with their locks and their unit of work, against `Effects`.
use netauto.Prelude.{
  ℕ, zero, suc, ◌≡◌, refl, inl, inr, not, Option, ◌++◌, arith, Option-cases, is_some, Text, ℕ_eq,
  option_beq, list_eq, option_eq, contains, Result,
}
use netauto.Domain.DataTypes.{DataType, DataTypeVersion}
use netauto.Persistence.Locking.Keys.{key_beq, key_eq, class_beq}
use netauto.Persistence.Database.{Database}
use netauto.Persistence.DataTypes as Store
use netauto.Persistence.UnitOfWork.{
  Tx, Session, enter, in_unit_of_work, pure, raise, execute, query, commit, require,
}
use netauto.Persistence.UnitOfWork as Uow
use netauto.Application.DataTypes.{
  begin_dml, require_draft, or_raise, header_key, version_key, or_semantic,
}
use netauto.Application.DataTypes.Acquire.{
  acquire_pair, acquire_zero, acquire-header, acquire_nothing, if_absent,
}
use netauto.Application.DataTypes.Operations.{
  create_tx, publish, create_next, set_default, deprecate, delete_draft, clear_default,
  delete_lineage, set_description, revise,
}
use netauto.Application.DataTypes.Effects.{
  settle, create_effect, draft_at, delete_lineage_effect, delete_draft_effect, set_default_effect,
  create_next_effect, deprecate_effect, publish_effect, set_description_effect,
  clear_default_effect, revise_effect,
}
use netauto.Domain.Primitives.{PrimitiveType, PrimitiveValidationError}
use netauto.Domain.Value.{Value}

-- the missing keys of a header and a version, tested as the operations do
missing_header :
    (id v : ℕ) (l : Option DataType) (x : Option DataTypeVersion)
    → contains (if_absent l (header_key id) ++ if_absent x (version_key id v)) (header_key id)
      ≡ not (is_some l)
unfolding contains key_beq class_beq option_beq
missing_header id v l x = ground arith

missing_version :
    (id v : ℕ) (l : Option DataType) (x : Option DataTypeVersion)
    → contains (if_absent l (header_key id) ++ if_absent x (version_key id v)) (version_key id v)
      ≡ not (is_some x)
unfolding contains key_beq class_beq option_beq
missing_version id v l x = ground arith

pub create_refines :
    (l : DataType) (x : DataTypeVersion) (db : Database)
    → in_unit_of_work (create_tx l x) db ≡ settle db (create_effect l x db)
unfolding create_tx create_effect in_unit_of_work Uow.◌>>=◌ pure raise query execute commit
    begin_dml
create_refines l x db = rw acquire_nothing (ground arith)

pub publish_refines :
    (id v n : ℕ) (db : Database)
    → in_unit_of_work (publish id v n) db ≡ settle db (publish_effect id v n db)
unfolding publish publish_effect in_unit_of_work Uow.◌>>=◌ pure raise query execute commit
    require_draft or_raise draft_at begin_dml
publish_refines id zero n db = rw acquire_zero refl
publish_refines id (suc v) n db = rw acquire_pair (
    rw (missing_header, missing_version)
      (elim (Option-cases (Store.get_lineage id db)) [
        | inl p ↦ rw p refl
        | inr (l, p) ↦ rw p (elim (Option-cases (Store.get_version id (suc v) db)) [
          | inl q ↦ rw q refl
          | inr (x, q) ↦ rw q (ground arith)
        ])
      ]))

pub create_next_refines :
    (id v : ℕ) (db : Database)
    → in_unit_of_work (create_next id v) db ≡ settle db (create_next_effect id v db)
unfolding create_next create_next_effect in_unit_of_work Uow.◌>>=◌ pure raise query execute commit
    require_draft or_raise draft_at begin_dml
create_next_refines id zero db = rw acquire_zero refl
create_next_refines id (suc v) db = rw acquire_pair (
    rw missing_header (elim (Option-cases (Store.get_lineage id db)) [
      | inl p ↦ rw p refl
      | inr (l, p) ↦ rw p (elim (Option-cases (Store.get_version id (suc v) db)) [
        | inl q ↦ rw q refl
        | inr (x, q) ↦ rw q (ground arith)
      ])
    ]))

pub set_default_refines :
    (id v : ℕ) (db : Database)
    → in_unit_of_work (set_default id v) db ≡ settle db (set_default_effect id v db)
unfolding set_default set_default_effect in_unit_of_work Uow.◌>>=◌ pure raise query execute commit
    require_draft or_raise draft_at begin_dml
set_default_refines id zero db = rw acquire_zero refl
set_default_refines id (suc v) db = rw acquire_pair (
    rw missing_header (elim (Option-cases (Store.get_lineage id db)) [
      | inl p ↦ rw p refl
      | inr (l, p) ↦ rw p (elim (Option-cases (Store.get_version id (suc v) db)) [
        | inl q ↦ rw q refl
        | inr (x, q) ↦ rw q (ground arith)
      ])
    ]))

pub deprecate_refines :
    (id v : ℕ) (db : Database)
    → in_unit_of_work (deprecate id v) db ≡ settle db (deprecate_effect id v db)
unfolding deprecate deprecate_effect in_unit_of_work Uow.◌>>=◌ pure raise query execute commit
    require_draft or_raise draft_at begin_dml
deprecate_refines id zero db = rw acquire_zero refl
deprecate_refines id (suc v) db = rw acquire_pair (
    rw (missing_header, missing_version)
      (elim (Option-cases (Store.get_lineage id db)) [
        | inl p ↦ rw p refl
        | inr (l, p) ↦ rw p (elim (Option-cases (Store.get_version id (suc v) db)) [
          | inl q ↦ rw q refl
          | inr (x, q) ↦ rw q (ground arith)
        ])
      ]))

pub delete_draft_refines :
    (id v n : ℕ) (db : Database)
    → in_unit_of_work (delete_draft id v n) db ≡ settle db (delete_draft_effect id v n db)
unfolding delete_draft delete_draft_effect in_unit_of_work Uow.◌>>=◌ pure raise query execute commit
    require_draft or_raise draft_at begin_dml
delete_draft_refines id zero n db = rw acquire_zero refl
delete_draft_refines id (suc v) n db = rw acquire_pair (
    rw (missing_header, missing_version)
      (elim (Option-cases (Store.get_lineage id db)) [
        | inl p ↦ rw p refl
        | inr (l, p) ↦ rw p (elim (Option-cases (Store.get_version id (suc v) db)) [
          | inl q ↦ rw q refl
          | inr (x, q) ↦ rw q (ground arith)
        ])
      ]))

pub clear_default_refines :
    (id : ℕ) (db : Database)
    → in_unit_of_work (clear_default id) db ≡ settle db (clear_default_effect id db)
unfolding clear_default clear_default_effect in_unit_of_work Uow.◌>>=◌ pure raise query execute
    commit require_draft or_raise draft_at begin_dml
clear_default_refines id db = rw acquire-header (elim (Option-cases (Store.get_lineage id db)) [
  | inl p ↦ rw p refl
  | inr (l, p) ↦ rw p (ground arith)
])

pub delete_lineage_refines :
    (id : ℕ) (db : Database)
    → in_unit_of_work (delete_lineage id) db ≡ settle db (delete_lineage_effect id db)
unfolding delete_lineage delete_lineage_effect in_unit_of_work Uow.◌>>=◌ pure raise query execute
    commit require_draft or_raise draft_at begin_dml
delete_lineage_refines id db = rw acquire-header (elim (Option-cases (Store.get_lineage id db)) [
  | inl p ↦ rw p refl
  | inr (l, p) ↦ rw p (ground arith)
])

pub set_description_refines :
    (id : ℕ) (d : Option Text) (db : Database)
    → in_unit_of_work (set_description id d) db ≡ settle db (set_description_effect id d db)
unfolding set_description set_description_effect in_unit_of_work Uow.◌>>=◌ pure raise query execute
    commit require_draft or_raise draft_at begin_dml
set_description_refines id d db = rw acquire-header (elim (Option-cases (Store.get_lineage id db)) [
  | inl p ↦ rw p refl
  | inr (l, p) ↦ rw p (ground arith)
])

module _ (canonicalize : PrimitiveType → Value → Result PrimitiveValidationError Value) where
  pub revise_refines :
      (id v n : ℕ) (c : Value) (db : Database)
      → in_unit_of_work (revise canonicalize id v n c) db
        ≡ settle db (revise_effect canonicalize id v n c db)
  unfolding revise revise_effect or_semantic in_unit_of_work Uow.◌>>=◌ pure raise query execute
      commit require_draft or_raise draft_at begin_dml
  revise_refines id zero n c db = rw acquire_zero refl
  revise_refines id (suc v) n c db = rw acquire_pair (
      rw (missing_header, missing_version)
        (elim (Option-cases (Store.get_lineage id db)) [
          | inl p ↦ rw p refl
          | inr (l, p) ↦ rw p (elim (Option-cases (Store.get_version id (suc v) db)) [
            | inl q ↦ rw q refl
            | inr (x, q) ↦ rw q (ground arith)
          ])
        ]))
