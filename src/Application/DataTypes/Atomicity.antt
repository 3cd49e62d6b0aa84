-- ===== src/Application/DataTypes/Atomicity.antt =====
-- The operations of `DataTypeService` when they raise.
use netauto.Prelude.{
  ℕ, ◌≡◌, refl, inl, inr, Option, none, some, List, arith, Option-cases, Text, Uuid, Result, ok,
  err, Result-cases,
}
use netauto.Domain.Value.{Value}
use netauto.Domain.Primitives.{PrimitiveType, PrimitiveValidationError}
use netauto.Domain.DataTypes.{DataType, DataTypeVersion}
use netauto.Failures.{Failure}
use netauto.Persistence.Locking.Keys.{RowLockIntent, AdvisoryGate}
use netauto.Persistence.Locking.Plan.{LockPlan}
use netauto.Persistence.Database.{Database}
use netauto.Persistence.UnitOfWork.{Tx, in_unit_of_work}
use netauto.Persistence.UnitOfWork.Atomic.{IsQuiet, IsAtomic, atomic_rules, unit_of_work_raises}
use netauto.Application.DataTypes.{acquire, begin_dml, require_draft, or_raise, or_semantic}
use netauto.Application.DataTypes.Operations.{
  done, create_request, create_next_request, revise_request, publish_request, set_default_request,
  clear_default_request, deprecate_request, delete_draft_request, delete_lineage_request,
  set_description_request, create, create_tx, create_next, revise, publish, set_default,
  clear_default, deprecate, delete_draft, delete_lineage, set_description, default_if_none,
  validate_candidate, Reply, serve, replying, Request, create_validated, new_lineage, first_version,
  created, version_reply, lineage_reply, done,
}

IsQuiet-acquire : (is : List RowLockIntent) (g : Option AdvisoryGate) → IsQuiet (acquire is g)
unfolding acquire
IsQuiet-acquire is g = record { at = λ s. (ground arith, ground arith) }

IsQuiet-begin_dml : (plan : LockPlan) → IsQuiet (begin_dml plan)
unfolding begin_dml
IsQuiet-begin_dml plan = record { at = λ s. (ground arith, ground arith) }

IsQuiet-require_draft : (v : DataTypeVersion) (n : ℕ) → IsQuiet (require_draft v n)
unfolding require_draft
IsQuiet-require_draft v n = search atomic_rules

IsQuiet-or_raise {ℓ} : {A : Type ℓ} (o : Option A) (e : Failure) → IsQuiet (or_raise o e)
unfolding or_raise
IsQuiet-or_raise none e = search atomic_rules
IsQuiet-or_raise (some a) e = search atomic_rules

IsQuiet-or_semantic {ℓ} :
    {A : Type ℓ} (r : Result PrimitiveValidationError A) → IsQuiet (or_semantic r)
unfolding or_semantic
IsQuiet-or_semantic (ok a) = search atomic_rules
IsQuiet-or_semantic (err e) = search atomic_rules

ruleset operation_rules = (
  atomic_rules, IsQuiet-acquire, IsQuiet-begin_dml, IsQuiet-require_draft, IsQuiet-or_raise,
  IsQuiet-or_semantic,
)

IsQuiet-default_if_none : (id : Uuid) (l : DataType) (v : ℕ) → IsQuiet (default_if_none id l v)
unfolding default_if_none
IsQuiet-default_if_none id l v = elim (Option-cases l.default_version) [
  | inl n ↦ rw (n, default_if_none) (search operation_rules)
  | inr (w, e) ↦ rw (e, default_if_none) (search operation_rules)
]

create_tx-IsAtomic : (l : DataType) (v : DataTypeVersion) → IsAtomic (create_tx l v)
unfolding create_tx
create_tx-IsAtomic l v = search operation_rules

revise-IsAtomic :
    (canonicalize : PrimitiveType → Value → Result PrimitiveValidationError Value) (id : Uuid)
    (v n : ℕ) (c : Value)
    → IsAtomic (revise canonicalize id v n c)
unfolding revise
revise-IsAtomic canonicalize id v n c = search operation_rules depth 60

publish-IsAtomic : (id : Uuid) (v n : ℕ) → IsAtomic (publish id v n)
unfolding publish
publish-IsAtomic id v n = search (operation_rules, IsQuiet-default_if_none) depth 60

create_next-IsAtomic : (id : Uuid) (v : ℕ) → IsAtomic (create_next id v)
unfolding create_next
create_next-IsAtomic id v = search operation_rules depth 60

set_default-IsAtomic : (id : Uuid) (v : ℕ) → IsAtomic (set_default id v)
unfolding set_default
set_default-IsAtomic id v = search operation_rules depth 60

clear_default-IsAtomic : (id : Uuid) → IsAtomic (clear_default id)
unfolding clear_default
clear_default-IsAtomic id = search operation_rules depth 60

deprecate-IsAtomic : (id : Uuid) (v : ℕ) → IsAtomic (deprecate id v)
unfolding deprecate
deprecate-IsAtomic id v = search operation_rules depth 60

delete_draft-IsAtomic : (id : Uuid) (v n : ℕ) → IsAtomic (delete_draft id v n)
unfolding delete_draft
delete_draft-IsAtomic id v n = search operation_rules depth 60

delete_lineage-IsAtomic : (id : Uuid) → IsAtomic (delete_lineage id)
unfolding delete_lineage
delete_lineage-IsAtomic id = search operation_rules depth 60

set_description-IsAtomic : (id : Uuid) (d : Option Text) → IsAtomic (set_description id d)
unfolding set_description
set_description-IsAtomic id d = search operation_rules depth 60

replying_keeps {ℓ} :
    {A : Type ℓ} (f : A → Reply) (p : Result Failure A × Database) (db : Database) (e : Failure)
    → ((x : Failure) → p.0 ≡ err x → p.1 ≡ db)
    → (replying f p).0 ≡ err e
    → (replying f p).1 ≡ db
unfolding replying
replying_keeps f (ok a, db') db e k h = cc
replying_keeps f (err x, db') db e k h = k x refl

replying_raises {ℓ} :
    {A : Type ℓ} (f : A → Reply) (m : Tx A) (db : Database) (e : Failure)
    → IsAtomic m
    → (replying f (in_unit_of_work m db)).0 ≡ err e
    → (replying f (in_unit_of_work m db)).1 ≡ db
replying_raises f m db e am h =
    replying_keeps f (in_unit_of_work m db) db e (λ x p. unit_of_work_raises m db x am p) h

create_validated_raises :
    (l : DataType) (v : DataTypeVersion) (db : Database) (e : Failure)
    → (create_validated l v db).0 ≡ err e
    → (create_validated l v db).1 ≡ db
unfolding create_validated
create_validated_raises l v db e h = elim (Result-cases (in_unit_of_work (create_tx l v) db).0) [
  | inl (a, p) ↦ absurd (cc (rw p at h))
  | inr (x, p) ↦ unit_of_work_raises (create_tx l v) db x (create_tx-IsAtomic l v) p
]

module _ (canonicalize : PrimitiveType → Value → Result PrimitiveValidationError Value) where
  create_raises :
      (id : Uuid) (ns name base_type : Text) (d : Option Text) (c : Value) (db : Database)
      (e : Failure)
      → (create canonicalize id ns name base_type d c db).0 ≡ err e
      → (create canonicalize id ns name base_type d c db).1 ≡ db
  unfolding create
  create_raises id ns name base_type d c db e h =
      elim (Result-cases (validate_candidate canonicalize ns name base_type c)) [
        | inl ((primitive, canonical), p) ↦
            rw (p, create)
              (create_validated_raises (new_lineage id ns name d)
                (first_version id primitive canonical) db e (rw (p, create) at h))
        | inr (x, p) ↦ rw (p, create) refl
      ]

  -- A request that raises, for whatever reason and on whatever rows, leaves the committed rows as
  -- they were.
  pub serve_raises :
      (r : Request) (db : Database) (e : Failure)
      → (serve canonicalize r db).0 ≡ err e
      → (serve canonicalize r db).1 ≡ db
  unfolding serve
  serve_raises (create_request id ns name b d c) db e h =
      replying_keeps created (create canonicalize id ns name b d c db) db e
        (λ x p. create_raises id ns name b d c db x p) h
  serve_raises (create_next_request id v) db e h =
      replying_raises version_reply (create_next id v) db e (create_next-IsAtomic id v) h
  serve_raises (revise_request id v n c) db e h =
      replying_raises version_reply (revise canonicalize id v n c) db e
        (revise-IsAtomic canonicalize id v n c) h
  serve_raises (publish_request id v n) db e h =
      replying_raises version_reply (publish id v n) db e (publish-IsAtomic id v n) h
  serve_raises (set_default_request id v) db e h =
      replying_raises lineage_reply (set_default id v) db e (set_default-IsAtomic id v) h
  serve_raises (clear_default_request id) db e h =
      replying_raises lineage_reply (clear_default id) db e (clear_default-IsAtomic id) h
  serve_raises (deprecate_request id v) db e h =
      replying_raises version_reply (deprecate id v) db e (deprecate-IsAtomic id v) h
  serve_raises (delete_draft_request id v n) db e h =
      replying_raises (λ _. done) (delete_draft id v n) db e (delete_draft-IsAtomic id v n) h
  serve_raises (delete_lineage_request id) db e h =
      replying_raises (λ _. done) (delete_lineage id) db e (delete_lineage-IsAtomic id) h
  serve_raises (set_description_request id d) db e h =
      replying_raises lineage_reply (set_description id d) db e (set_description-IsAtomic id d) h
