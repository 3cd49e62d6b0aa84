-- ===== src/Application/DataTypes/Invariant/Requests.antt =====
-- The invariant under the requests of `DataTypeService`.
use netauto.Prelude.{arith, Result}
use netauto.Domain.Value.{Value}
use netauto.Domain.Primitives.{PrimitiveType, PrimitiveValidationError}
use netauto.Persistence.Database.{Database}
use netauto.Application.DataTypes.Invariant.{IsSound}
use netauto.Application.DataTypes.Invariant.Kept.{Keeps, create-Keeps}
use netauto.Application.DataTypes.Invariant.Served.{
  publish_effect-Keeps, create_next_effect-Keeps, revise_effect-Keeps, set_default_effect-Keeps,
  clear_default_effect-Keeps, deprecate_effect-Keeps, delete_draft_effect-Keeps,
  delete_lineage_effect-Keeps, set_description_effect-Keeps,
}
use netauto.Application.DataTypes.Effects.{create_effect}
use netauto.Application.DataTypes.Effects.Leaves.{Leaves-bind}
use netauto.Application.DataTypes.Effects.Serve.{
  request_effect, create_outcome, answering-Leaves, create_outcome-Leaves, serve_leaves,
}
use netauto.Application.DataTypes.Operations.{
  Request, serve, validate_candidate, new_lineage, first_version, create_request,
  create_next_request, revise_request, publish_request, set_default_request, clear_default_request,
  deprecate_request, delete_draft_request, delete_lineage_request, set_description_request, created,
}

module _ (canonicalize : PrimitiveType → Value → Result PrimitiveValidationError Value) where
  request_effect-Keeps :
      (r : Request) (db : Database) → IsSound db → Keeps (request_effect canonicalize r db)
  unfolding request_effect create_effect
  request_effect-Keeps (create_request id ns name b d c) db s =
      Leaves-bind IsSound (validate_candidate canonicalize ns name b c) _ (λ (p, k) h.
        let l = new_lineage id ns name d in
        let x = first_version id p k in
        answering-Leaves IsSound created (create_outcome l x db) (
          create_outcome-Leaves IsSound l x db (create-Keeps l x db (omega arith) (omega arith) s)))
  request_effect-Keeps (create_next_request id v) db s =
      answering-Leaves IsSound _ _ (create_next_effect-Keeps id v db s)
  request_effect-Keeps (revise_request id v n c) db s =
      answering-Leaves IsSound _ _ (revise_effect-Keeps canonicalize id v n c db s)
  request_effect-Keeps (publish_request id v n) db s =
      answering-Leaves IsSound _ _ (publish_effect-Keeps id v n db s)
  request_effect-Keeps (set_default_request id v) db s =
      answering-Leaves IsSound _ _ (set_default_effect-Keeps id v db s)
  request_effect-Keeps (clear_default_request id) db s =
      answering-Leaves IsSound _ _ (clear_default_effect-Keeps id db s)
  request_effect-Keeps (deprecate_request id v) db s =
      answering-Leaves IsSound _ _ (deprecate_effect-Keeps id v db s)
  request_effect-Keeps (delete_draft_request id v n) db s =
      answering-Leaves IsSound _ _ (delete_draft_effect-Keeps id v n db s)
  request_effect-Keeps (delete_lineage_request id) db s =
      answering-Leaves IsSound _ _ (delete_lineage_effect-Keeps id db s)
  request_effect-Keeps (set_description_request id d) db s =
      answering-Leaves IsSound _ _ (set_description_effect-Keeps id d db s)

  -- A request, whatever it is and whatever comes of it, leaves rows that satisfy the invariant, if
  -- they satisfied it: qualified names are unique, a default names a PUBLISHED version of its
  -- lineage, and a version belongs to a lineage and has a positive number and revision.
  pub serve-IsSound :
      (r : Request) (db : Database) → IsSound db → IsSound (serve canonicalize r db).1
  serve-IsSound r db s = serve_leaves IsSound canonicalize r db s (request_effect-Keeps r db s)
