-- ===== src/Application/DataTypes/Effects/Serve.antt =====
-- What a request does to the committed rows, against `DataTypeService` as it serves it.
use netauto.Prelude.{
  ◌≡◌, refl, inl, inr, Option, arith, Text, Uuid, Result, ok, err, ◌>>=◌, Result-cases,
}
use netauto.Domain.Value.{Value}
use netauto.Domain.Primitives.{PrimitiveType, PrimitiveValidationError}
use netauto.Domain.DataTypes.{DataType, DataTypeVersion, CreateDataTypeResult}
use netauto.Failures.{Failure, Code, Details, qualified_name_arbitration}
use netauto.Persistence.Database.{Database}
use netauto.Application.DataTypes.{state}
use netauto.Application.DataTypes.Effects.{
  settle, create_effect, create_next_effect, revise_effect, publish_effect, set_default_effect,
  clear_default_effect, deprecate_effect, delete_draft_effect, delete_lineage_effect,
  set_description_effect,
}
use netauto.Application.DataTypes.Effects.Refines.{
  create_refines, publish_refines, create_next_refines, revise_refines, set_default_refines,
  clear_default_refines, deprecate_refines, delete_draft_refines, delete_lineage_refines,
  set_description_refines,
}
use netauto.Application.DataTypes.Effects.Leaves.{Leaves, settle-Leaves}
use netauto.Application.DataTypes.Operations.{
  Request, Reply, serve, replying, create, create_validated, validate_candidate, classify_create,
  new_lineage, first_version, create_request, create_next_request, revise_request, publish_request,
  set_default_request, clear_default_request, deprecate_request, delete_draft_request,
  delete_lineage_request, set_description_request, created, version_reply, lineage_reply, done,
}

-- the reply that goes with an outcome
abbrev pub answering {ℓ} :
    {A : Type ℓ} → (A → Reply) → Result Failure (A × Database) → Result Failure (Reply × Database)
answering f (ok (a, db)) = ok (f a, db)
answering f (err e) = err e

-- `create` on a candidate that is validated
unfoldable pub create_outcome :
    DataType → DataTypeVersion → Database → Result Failure (CreateDataTypeResult × Database)
unfolding create_effect
create_outcome l x db = elim (create_effect l x db) [
  | ok (_, db') ↦ ok (record { datatype = l; version = x }, db')
  | err qualified_name_arbitration ↦
      err (state Code.qualified_name_conflict (Details.qualified_name l.namespace l.name))
  | err e ↦ err e
]

module _ (canonicalize : PrimitiveType → Value → Result PrimitiveValidationError Value) where
  unfoldable pub request_effect : Request → Database → Result Failure (Reply × Database)
  unfolding create_outcome
  request_effect (create_request id ns name b d c) db = do
    (primitive, canonical) ← validate_candidate canonicalize ns name b c
    answering created
        (create_outcome (new_lineage id ns name d) (first_version id primitive canonical) db)
  request_effect (create_next_request id v) db =
      answering version_reply (create_next_effect id v db)
  request_effect (revise_request id v n c) db =
      answering version_reply (revise_effect canonicalize id v n c db)
  request_effect (publish_request id v n) db = answering version_reply (publish_effect id v n db)
  request_effect (set_default_request id v) db =
      answering lineage_reply (set_default_effect id v db)
  request_effect (clear_default_request id) db =
      answering lineage_reply (clear_default_effect id db)
  request_effect (deprecate_request id v) db = answering version_reply (deprecate_effect id v db)
  request_effect (delete_draft_request id v n) db =
      answering (λ _. done) (delete_draft_effect id v n db)
  request_effect (delete_lineage_request id) db =
      answering (λ _. done) (delete_lineage_effect id db)
  request_effect (set_description_request id d) db =
      answering lineage_reply (set_description_effect id d db)

replied {ℓ} :
    {A : Type ℓ} (f : A → Reply) (p : Result Failure A × Database) (db : Database)
    (r : Result Failure (A × Database))
    → p ≡ settle db r
    → replying f p ≡ settle db (answering f r)
unfolding replying
replied f p db r e = rw e (ground arith)

create_validated_lem :
    (l : DataType) (x : DataTypeVersion) (db : Database)
    → create_validated l x db ≡ settle db (create_outcome l x db)
unfolding create_validated create_outcome classify_create
create_validated_lem l x db = rw create_refines (ground arith)

module _ (canonicalize : PrimitiveType → Value → Result PrimitiveValidationError Value) where
  create_lem :
      (id : Uuid) (ns name b : Text) (d : Option Text) (c : Value) (db : Database)
      → replying created (create canonicalize id ns name b d c db)
        ≡ settle db (request_effect canonicalize (create_request id ns name b d c) db)
  unfolding create request_effect replying
  create_lem id ns name b d c db =
      elim (Result-cases (validate_candidate canonicalize ns name b c)) [
        | inl ((primitive, canonical), p) ↦
            rw (p, create)
              (replied created _ db _ (
                create_validated_lem (new_lineage id ns name d)
                  (first_version id primitive canonical) db))
        | inr (x, p) ↦ rw (p, create) refl
      ]

  -- A request, served with its validation, its locks and its unit of work, comes to exactly what
  -- `request_effect` says: the same reply or the same failure, and the same committed rows, which a
  -- failure leaves alone.
  pub serve_refines :
      (r : Request) (db : Database)
      → serve canonicalize r db ≡ settle db (request_effect canonicalize r db)
  unfolding serve request_effect
  serve_refines (create_request id ns name b d c) db = create_lem id ns name b d c db
  serve_refines (create_next_request id v) db =
      replied version_reply _ db _ (create_next_refines id v db)
  serve_refines (revise_request id v n c) db =
      replied version_reply _ db _ (revise_refines canonicalize id v n c db)
  serve_refines (publish_request id v n) db =
      replied version_reply _ db _ (publish_refines id v n db)
  serve_refines (set_default_request id v) db =
      replied lineage_reply _ db _ (set_default_refines id v db)
  serve_refines (clear_default_request id) db =
      replied lineage_reply _ db _ (clear_default_refines id db)
  serve_refines (deprecate_request id v) db =
      replied version_reply _ db _ (deprecate_refines id v db)
  serve_refines (delete_draft_request id v n) db =
      replied (λ _. done) _ db _ (delete_draft_refines id v n db)
  serve_refines (delete_lineage_request id) db =
      replied (λ _. done) _ db _ (delete_lineage_refines id db)
  serve_refines (set_description_request id d) db =
      replied lineage_reply _ db _ (set_description_refines id d db)

module _ (P : Database → Type 0) where
  pub answering-Leaves {ℓ} :
      {A : Type ℓ} (f : A → Reply) (r : Result Failure (A × Database))
      → Leaves P r
      → Leaves P (answering f r)
  answering-Leaves f (ok (a, db)) k = k
  answering-Leaves f (err e) k = tt

  pub create_outcome-Leaves :
      (l : DataType) (x : DataTypeVersion) (db : Database)
      → Leaves P (create_effect l x db)
      → Leaves P (create_outcome l x db)
  unfolding create_outcome
  create_outcome-Leaves l x db k = ground arith

  pub serve_leaves :
      (canonicalize : PrimitiveType → Value → Result PrimitiveValidationError Value) (r : Request)
      (db : Database)
      → P db
      → Leaves P (request_effect canonicalize r db)
      → P (serve canonicalize r db).1
  serve_leaves canonicalize r db p k = rw serve_refines (settle-Leaves P db _ p k)
