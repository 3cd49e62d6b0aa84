-- ===== src/Application/DataTypes/Names/Requests.antt =====
-- The names of the DataType lineages under the requests of `DataTypeService`.
use netauto.Prelude.{
  ℕ, ◌≡◌, inl, inr, true, not, Option, none, some, arith, Option-cases, Text, ℕ_eq, option_beq,
  list_eq, option_eq, Result, ok, err, guard, Result-cases,
}
use netauto.Domain.Value.{Value}
use netauto.Domain.Primitives.{PrimitiveType, PrimitiveValidationError}
use netauto.Domain.DataTypes.{published, validate_qualified_name}
use netauto.Failures.{Failure}
use netauto.Persistence.Database.{Database}
use netauto.Persistence.DataTypes as Store
use netauto.Application.DataTypes.{is_source}
use netauto.Application.DataTypes.Effects.{
  some_or, semantically, positive, draft_at, create_effect, publish_effect, create_next_effect,
  revise_effect, set_default_effect, clear_default_effect, deprecate_effect, delete_draft_effect,
  delete_lineage_effect, set_description_effect,
}
use netauto.Application.DataTypes.Effects.Leaves.{Leaves, Leaves-bind, Leaves-ok}
use netauto.Application.DataTypes.Effects.Serve.{
  request_effect, create_outcome, answering-Leaves, create_outcome-Leaves, serve_leaves,
}
use netauto.Application.DataTypes.Operations.{
  next_draft, classify_delete, Request, serve, validate_candidate, new_lineage, first_version,
  create_request, create_next_request, revise_request, publish_request, set_default_request,
  clear_default_request, deprecate_request, delete_draft_request, delete_lineage_request,
  set_description_request, created,
}
use netauto.Application.DataTypes.Names.{
  IsNamed, update_version-IsNamed, set_default-IsNamed, set_description-IsNamed,
  insert_version-IsNamed, delete_draft-IsNamed, delete_lineage-IsNamed, create-IsNamed,
  IsPublicName, accepted-IsPublicName,
}

validated :
    (canonicalize : PrimitiveType → Value → Result PrimitiveValidationError Value)
    (ns name b : Text) (c : Value) {r : PrimitiveType × Value}
    → validate_candidate canonicalize ns name b c ≡ ok r
    → IsPublicName ns name
unfolding validate_candidate
validated canonicalize ns name b c h = elim (Result-cases (validate_qualified_name ns name true)) [
  | inl (u, e) ↦ accepted-IsPublicName ns name e
  | inr (x, e) ↦ absurd (cc (rw (e, validate_candidate) at h))
]

module _ (db : Database) (named : IsNamed db) where
  set_default_effect-IsNamed : (id v : ℕ) → Leaves IsNamed (set_default_effect id v db)
  unfolding set_default_effect
  set_default_effect-IsNamed id v = Leaves-bind IsNamed (positive v) _ (λ _ _.
      Leaves-bind IsNamed (some_or (Store.get_lineage id db) _) _ (λ l _.
        Leaves-bind IsNamed (some_or (Store.get_version id v db) _) _ (λ x _.
          Leaves-bind IsNamed (guard (Store.is_published x.status) _) _
            (λ _ _. set_default-IsNamed db named id (some v)))))

  clear_default_effect-IsNamed : (id : ℕ) → Leaves IsNamed (clear_default_effect id db)
  unfolding clear_default_effect
  clear_default_effect-IsNamed id =
      Leaves-bind IsNamed (some_or (Store.get_lineage id db) _) _
        (λ _ _. set_default-IsNamed db named id none)

  set_description_effect-IsNamed :
      (id : ℕ) (d : Option Text) → Leaves IsNamed (set_description_effect id d db)
  unfolding set_description_effect
  set_description_effect-IsNamed id d =
      Leaves-bind IsNamed (some_or (Store.get_lineage id db) _) _ (λ _ _.
        Leaves-bind IsNamed (Store.set_description id d db) _ (λ (m, db₁) h.
          Leaves-bind IsNamed (some_or m _) _
            (λ _ _. Leaves-ok IsNamed _ (set_description-IsNamed db named id d) h)))

  create_next_effect-IsNamed : (id v : ℕ) → Leaves IsNamed (create_next_effect id v db)
  unfolding create_next_effect
  create_next_effect-IsNamed id v = Leaves-bind IsNamed (positive v) _ (λ _ _.
      Leaves-bind IsNamed (some_or (Store.get_lineage id db) _) _ (λ l _.
        Leaves-bind IsNamed (some_or (Store.get_version id v db) _) _ (λ x _.
          Leaves-bind IsNamed (guard (is_source x.status) _) _ (λ _ _.
            Leaves-bind IsNamed
              (Store.insert_version (next_draft x id (Store.next_version id db)) db) _
              (λ (a, d) h.
                Leaves-ok IsNamed _
                  (insert_version-IsNamed db named (next_draft x id (Store.next_version id db)))
                  h)))))

  revise_effect-IsNamed :
      (canonicalize : PrimitiveType → Value → Result PrimitiveValidationError Value) (id v n : ℕ)
      (c : Value)
      → Leaves IsNamed (revise_effect canonicalize id v n c db)
  unfolding revise_effect Store.revise
  revise_effect-IsNamed canonicalize id v n c = Leaves-bind IsNamed (positive v) _ (λ _ _.
      Leaves-bind IsNamed (some_or (Store.get_lineage id db) _) _ (λ _ _.
        Leaves-bind IsNamed (some_or (Store.get_version id v db) _) _ (λ x _.
          Leaves-bind IsNamed (draft_at x n) _ (λ _ _.
            Leaves-bind IsNamed (semantically (canonicalize x.base_type c)) _ (λ c' _.
              Leaves-bind IsNamed (Store.check_revised id v c' db) _
                (λ _ _. update_version-IsNamed db named _ id v))))))

  publish_effect-IsNamed : (id v n : ℕ) → Leaves IsNamed (publish_effect id v n db)
  unfolding publish_effect Store.set_status
  publish_effect-IsNamed id v n = Leaves-bind IsNamed (positive v) _ (λ _ _.
      Leaves-bind IsNamed (some_or (Store.get_lineage id db) _) _ (λ l _.
        Leaves-bind IsNamed (some_or (Store.get_version id v db) _) _ (λ x _.
          Leaves-bind IsNamed (draft_at x n) _ (λ _ _.
            Leaves-bind IsNamed (Store.set_status id v published db) _ (λ (x', db₁) h.
              let named₁ : IsNamed db₁ =
                Leaves-ok IsNamed _ (update_version-IsNamed db named _ id v) h in
              elim (Option-cases l.default_version) [
                | inl e ↦ rw e (
                    Leaves-bind IsNamed (Store.set_default id (some v) db₁) _ (λ (a, db₂) h'.
                      Leaves-ok IsNamed _ (set_default-IsNamed db₁ named₁ id (some v)) h'))
                | inr (m, e) ↦ rw e named₁
              ])))))

  deprecate_effect-IsNamed : (id v : ℕ) → Leaves IsNamed (deprecate_effect id v db)
  unfolding deprecate_effect Store.set_status
  deprecate_effect-IsNamed id v = Leaves-bind IsNamed (positive v) _ (λ _ _.
      Leaves-bind IsNamed (some_or (Store.get_lineage id db) _) _ (λ l _.
        Leaves-bind IsNamed (some_or (Store.get_version id v db) _) _ (λ x _.
          Leaves-bind IsNamed (guard (Store.is_published x.status) _) _ (λ _ _.
            Leaves-bind IsNamed (guard (not (option_beq l.default_version (some v))) _) _ (λ _ _.
              Leaves-bind IsNamed (guard (not (Store.has_active_consumer id v db)) _) _
                (λ _ _. update_version-IsNamed db named _ id v))))))

  delete_draft_effect-IsNamed : (id v n : ℕ) → Leaves IsNamed (delete_draft_effect id v n db)
  unfolding delete_draft_effect
  delete_draft_effect-IsNamed id v n = Leaves-bind IsNamed (positive v) _ (λ _ _.
      Leaves-bind IsNamed (some_or (Store.get_lineage id db) _) _ (λ l _.
        Leaves-bind IsNamed (some_or (Store.get_version id v db) _) _ (λ x _.
          Leaves-bind IsNamed (draft_at x n) _ (λ _ _. delete_draft-IsNamed db named id v))))

  classify_delete-IsNamed :
      (id : ℕ) (r : Result Failure (Unit {0} × Database))
      → Leaves IsNamed r
      → Leaves IsNamed (classify_delete id r)
  unfolding classify_delete
  classify_delete-IsNamed id (ok a) k = k
  classify_delete-IsNamed id (err e) k = ground arith

  delete_lineage_effect-IsNamed : (id : ℕ) → Leaves IsNamed (delete_lineage_effect id db)
  unfolding delete_lineage_effect
  delete_lineage_effect-IsNamed id =
      Leaves-bind IsNamed (some_or (Store.get_lineage id db) _) _ (λ _ _.
        Leaves-bind IsNamed (guard _ _) _
          (λ _ _. classify_delete-IsNamed id _ (delete_lineage-IsNamed db named id)))

  module _ (canonicalize : PrimitiveType → Value → Result PrimitiveValidationError Value) where
    request_effect-IsNamed : (r : Request) → Leaves IsNamed (request_effect canonicalize r db)
    unfolding request_effect create_effect
    request_effect-IsNamed (create_request id ns name b d c) =
        Leaves-bind IsNamed (validate_candidate canonicalize ns name b c) _ (λ (p, k) h.
          let l = new_lineage id ns name d in
          let x = first_version id p k in
          answering-Leaves IsNamed created (create_outcome l x db) (
            create_outcome-Leaves IsNamed l x db
              (create-IsNamed l x db named (validated canonicalize ns name b c h))))
    request_effect-IsNamed (create_next_request id v) =
        answering-Leaves IsNamed _ _ (create_next_effect-IsNamed id v)
    request_effect-IsNamed (publish_request id v n) =
        answering-Leaves IsNamed _ _ (publish_effect-IsNamed id v n)
    request_effect-IsNamed (set_default_request id v) =
        answering-Leaves IsNamed _ _ (set_default_effect-IsNamed id v)
    request_effect-IsNamed (clear_default_request id) =
        answering-Leaves IsNamed _ _ (clear_default_effect-IsNamed id)
    request_effect-IsNamed (deprecate_request id v) =
        answering-Leaves IsNamed _ _ (deprecate_effect-IsNamed id v)
    request_effect-IsNamed (delete_draft_request id v n) =
        answering-Leaves IsNamed _ _ (delete_draft_effect-IsNamed id v n)
    request_effect-IsNamed (delete_lineage_request id) =
        answering-Leaves IsNamed _ _ (delete_lineage_effect-IsNamed id)
    request_effect-IsNamed (set_description_request id d) =
        answering-Leaves IsNamed _ _ (set_description_effect-IsNamed id d)
    request_effect-IsNamed (revise_request id v n c) =
        answering-Leaves IsNamed _ _ (revise_effect-IsNamed canonicalize id v n c)

    -- If every lineage has an identifier as its name, and a namespace of the form of at most 255
    -- characters that is not the reserved `core` nor under it, so it is after any request.
    pub serve-IsNamed : (r : Request) → IsNamed (serve canonicalize r db).1
    serve-IsNamed r = serve_leaves IsNamed canonicalize r db named (request_effect-IsNamed r)
