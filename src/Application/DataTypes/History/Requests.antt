-- ===== src/Application/DataTypes/History/Requests.antt =====
-- The history of the DataType versions under the requests of `DataTypeService`.
use netauto.Prelude.{
  ℕ, ◌≤◌, ◌≡◌, refl, inl, inr, true, false, not, Option, none, some, arith, Option-cases, Text,
  ℕ_eq, option_beq, list_eq, option_eq, Result, ok, err, guard,
}
use netauto.Domain.Value.{Value}
use netauto.Domain.Primitives.{PrimitiveType, PrimitiveValidationError}
use netauto.Domain.DataTypes.{DataTypeVersion, VersionStatus, published, deprecated}
use netauto.Failures.{Failure}
use netauto.Persistence.Database.{Database}
use netauto.Persistence.DataTypes as Store
use netauto.Application.DataTypes.{is_draft, is_source}
use netauto.Application.DataTypes.Effects.{
  some_or, semantically, positive, draft_at, create_effect, publish_effect, create_next_effect,
  revise_effect, set_default_effect, clear_default_effect, deprecate_effect, delete_draft_effect,
  delete_lineage_effect, set_description_effect,
}
use netauto.Application.DataTypes.Effects.Leaves.{
  Leaves, Leaves-bind, Leaves-ok, some_or_lem, guard_lem,
}
use netauto.Application.DataTypes.Effects.Serve.{
  request_effect, create_outcome, answering-Leaves, create_outcome-Leaves, serve_leaves,
}
use netauto.Application.DataTypes.Operations.{
  next_draft, classify_delete, Request, serve, validate_candidate, new_lineage, first_version,
  create_request, create_next_request, revise_request, publish_request, set_default_request,
  clear_default_request, deprecate_request, delete_draft_request, delete_lineage_request,
  set_description_request, created,
}
use netauto.Application.DataTypes.History.{Follows, Evolves, status_rank}
use netauto.Application.DataTypes.History.Statements.{
  Follows-refl, Follows-Evolves, Evolves-Leaves, update_version-Follows, set_default-Follows,
  set_description-Follows, insert_version-Follows, create-Follows, delete_draft-Evolves,
  delete_lineage-Evolves,
}

-- what `draft_at` lets through
draft_at_lem :
    (x : DataTypeVersion) (n : ℕ) {u : Unit {0}} → draft_at x n ≡ ok u → is_draft x.status ≡ true
unfolding draft_at
draft_at_lem x n h = ground arith

draft_found :
    (o : Option DataTypeVersion) (e : Failure) (n : ℕ) (x y : DataTypeVersion) {u : Unit {0}}
    → some_or o e ≡ ok x
    → draft_at x n ≡ ok u
    → o ≡ some y
    → is_draft y.status ≡ true
draft_found o e n x y hx g hy = cc (draft_at_lem x n g, some_or_lem o e hx, hy)

draft_rank : (s t : VersionStatus) → is_draft s ≡ true → status_rank s ≤ status_rank t
unfolding is_draft
draft_rank s t h = ground arith

not_draft : (s : VersionStatus) → is_draft s ≡ true → is_draft s ≡ false → ⊥
not_draft s h k = cc

published_rank :
    (s : VersionStatus) → Store.is_published s ≡ true → status_rank s ≤ status_rank deprecated
unfolding Store.is_published
published_rank s h = ground arith

rank_found :
    (o : Option DataTypeVersion) (e : Failure) (x y : DataTypeVersion)
    → some_or o e ≡ ok x
    → Store.is_published x.status ≡ true
    → o ≡ some y
    → status_rank y.status ≤ status_rank deprecated
rank_found o e x y hx g hy = published_rank y.status (cc (g, some_or_lem o e hx, hy))

module _ (db : Database) where
  set_default_effect-Follows : (id v : ℕ) → Leaves (Follows db) (set_default_effect id v db)
  unfolding set_default_effect
  set_default_effect-Follows id v = Leaves-bind (Follows db) (positive v) _ (λ _ _.
      Leaves-bind (Follows db) (some_or (Store.get_lineage id db) _) _ (λ l hl.
        Leaves-bind (Follows db) (some_or (Store.get_version id v db) _) _ (λ x hx.
          Leaves-bind (Follows db) (guard (Store.is_published x.status) _) _
            (λ _ g. set_default-Follows id (some v) db db (Follows-refl db)))))

  clear_default_effect-Follows : (id : ℕ) → Leaves (Follows db) (clear_default_effect id db)
  unfolding clear_default_effect
  clear_default_effect-Follows id =
      Leaves-bind (Follows db) (some_or (Store.get_lineage id db) _) _
        (λ l h. set_default-Follows id none db db (Follows-refl db))

  set_description_effect-Follows :
      (id : ℕ) (d : Option Text) → Leaves (Follows db) (set_description_effect id d db)
  unfolding set_description_effect
  set_description_effect-Follows id d =
      Leaves-bind (Follows db) (some_or (Store.get_lineage id db) _) _ (λ l hl.
        Leaves-bind (Follows db) (Store.set_description id d db) _ (λ (m, db₁) h.
          Leaves-bind (Follows db) (some_or m _) _
            (λ l' _. Leaves-ok (Follows db) _ (set_description-Follows id d db) h)))

  create_next_effect-Follows : (id v : ℕ) → Leaves (Follows db) (create_next_effect id v db)
  unfolding create_next_effect
  create_next_effect-Follows id v = Leaves-bind (Follows db) (positive v) _ (λ _ _.
      Leaves-bind (Follows db) (some_or (Store.get_lineage id db) _) _ (λ l hl.
        Leaves-bind (Follows db) (some_or (Store.get_version id v db) _) _ (λ x hx.
          Leaves-bind (Follows db) (guard (is_source x.status) _) _ (λ _ g.
            Leaves-bind (Follows db)
              (Store.insert_version (next_draft x id (Store.next_version id db)) db) _
              (λ (a, d) h.
                Leaves-ok (Follows db) _
                  (insert_version-Follows (next_draft x id (Store.next_version id db)) db db
                    (Follows-refl db))
                  h)))))

  revise_effect-Follows :
      (canonicalize : PrimitiveType → Value → Result PrimitiveValidationError Value) (id v n : ℕ)
      (c : Value)
      → Leaves (Follows db) (revise_effect canonicalize id v n c db)
  unfolding revise_effect Store.revise
  revise_effect-Follows canonicalize id v n c = Leaves-bind (Follows db) (positive v) _ (λ _ _.
      Leaves-bind (Follows db) (some_or (Store.get_lineage id db) _) _ (λ l hl.
        Leaves-bind (Follows db) (some_or (Store.get_version id v db) _) _ (λ x hx.
          Leaves-bind (Follows db) (draft_at x n) _ (λ _ g.
            Leaves-bind (Follows db) (semantically (canonicalize x.base_type c)) _ (λ c' _.
              Leaves-bind (Follows db) (Store.check_revised id v c' db) _ (λ _ _.
                update_version-Follows _ id v db (λ y. (refl, refl))
                  (λ y hy. (
                    refl,
                    omega arith,
                    omega arith,
                    λ d. absurd (not_draft y.status (draft_found _ _ n x y hx g hy) d),
                  ))))))))

  publish_effect-Follows : (id v n : ℕ) → Leaves (Follows db) (publish_effect id v n db)
  unfolding publish_effect Store.set_status
  publish_effect-Follows id v n = Leaves-bind (Follows db) (positive v) _ (λ _ _.
      Leaves-bind (Follows db) (some_or (Store.get_lineage id db) _) _ (λ l hl.
        Leaves-bind (Follows db) (some_or (Store.get_version id v db) _) _ (λ x hx.
          Leaves-bind (Follows db) (draft_at x n) _ (λ _ g.
            Leaves-bind (Follows db) (Store.set_status id v published db) _ (λ (x', db₁) h.
              let f₁ : Follows db db₁ =
                Leaves-ok (Follows db) _
                  (update_version-Follows _ id v db (λ y. (refl, refl))
                    (λ y hy. (
                      refl,
                      draft_rank y.status published (draft_found _ _ n x y hx g hy),
                      omega arith,
                      λ d. (refl, refl),
                    )))
                  h in
              elim (Option-cases l.default_version) [
                | inl e ↦ rw e (
                    Leaves-bind (Follows db) (Store.set_default id (some v) db₁) _ (λ (a, db₂) h'.
                      Leaves-ok (Follows db) _ (set_default-Follows id (some v) db db₁ f₁) h'))
                | inr (m, e) ↦ rw e f₁
              ])))))

  deprecate_effect-Follows : (id v : ℕ) → Leaves (Follows db) (deprecate_effect id v db)
  unfolding deprecate_effect Store.set_status
  deprecate_effect-Follows id v = Leaves-bind (Follows db) (positive v) _ (λ _ _.
      Leaves-bind (Follows db) (some_or (Store.get_lineage id db) _) _ (λ l hl.
        Leaves-bind (Follows db) (some_or (Store.get_version id v db) _) _ (λ x hx.
          Leaves-bind (Follows db) (guard (Store.is_published x.status) _) _ (λ _ g.
            Leaves-bind (Follows db) (guard (not (option_beq l.default_version (some v))) _) _
              (λ _ d.
                Leaves-bind (Follows db) (guard (not (Store.has_active_consumer id v db)) _) _
                  (λ _ u.
                    update_version-Follows _ id v db (λ y. (refl, refl))
                      (λ y hy. (
                        refl,
                        rank_found _ _ x y hx (guard_lem _ _ g) hy,
                        omega arith,
                        λ d. (refl, refl),
                      ))))))))

  delete_draft_effect-Evolves : (id v n : ℕ) → Leaves (Evolves db) (delete_draft_effect id v n db)
  unfolding delete_draft_effect
  delete_draft_effect-Evolves id v n = Leaves-bind (Evolves db) (positive v) _ (λ _ _.
      Leaves-bind (Evolves db) (some_or (Store.get_lineage id db) _) _ (λ l hl.
        Leaves-bind (Evolves db) (some_or (Store.get_version id v db) _) _ (λ x hx.
          Leaves-bind (Evolves db) (draft_at x n) _
            (λ _ g. delete_draft-Evolves id v db (λ y hy. draft_found _ _ n x y hx g hy)))))

  classify_delete-Evolves :
      (id : ℕ) (r : Result Failure (Unit {0} × Database))
      → Leaves (Evolves db) r
      → Leaves (Evolves db) (classify_delete id r)
  unfolding classify_delete
  classify_delete-Evolves id (ok a) k = k
  classify_delete-Evolves id (err e) k = ground arith

  delete_lineage_effect-Evolves : (id : ℕ) → Leaves (Evolves db) (delete_lineage_effect id db)
  unfolding delete_lineage_effect
  delete_lineage_effect-Evolves id =
      Leaves-bind (Evolves db) (some_or (Store.get_lineage id db) _) _ (λ l hl.
        Leaves-bind (Evolves db) (guard _ _) _
          (λ _ _. classify_delete-Evolves id _ (delete_lineage-Evolves id db)))

  module _ (canonicalize : PrimitiveType → Value → Result PrimitiveValidationError Value) where
    request_effect-Evolves : (r : Request) → Leaves (Evolves db) (request_effect canonicalize r db)
    unfolding request_effect create_effect
    request_effect-Evolves (create_request id ns name b d c) =
        Leaves-bind (Evolves db) (validate_candidate canonicalize ns name b c) _ (λ (p, k) h.
          let l = new_lineage id ns name d in
          let x = first_version id p k in
          answering-Leaves (Evolves db) created (create_outcome l x db) (
            create_outcome-Leaves (Evolves db) l x db
              (Evolves-Leaves db _ (create-Follows l x db))))
    request_effect-Evolves (create_next_request id v) =
        answering-Leaves (Evolves db) _ _ (Evolves-Leaves db _ (create_next_effect-Follows id v))
    request_effect-Evolves (revise_request id v n c) =
        answering-Leaves (Evolves db) _ _
          (Evolves-Leaves db _ (revise_effect-Follows canonicalize id v n c))
    request_effect-Evolves (publish_request id v n) =
        answering-Leaves (Evolves db) _ _ (Evolves-Leaves db _ (publish_effect-Follows id v n))
    request_effect-Evolves (set_default_request id v) =
        answering-Leaves (Evolves db) _ _ (Evolves-Leaves db _ (set_default_effect-Follows id v))
    request_effect-Evolves (clear_default_request id) =
        answering-Leaves (Evolves db) _ _ (Evolves-Leaves db _ (clear_default_effect-Follows id))
    request_effect-Evolves (deprecate_request id v) =
        answering-Leaves (Evolves db) _ _ (Evolves-Leaves db _ (deprecate_effect-Follows id v))
    request_effect-Evolves (delete_draft_request id v n) =
        answering-Leaves (Evolves db) _ _ (delete_draft_effect-Evolves id v n)
    request_effect-Evolves (delete_lineage_request id) =
        answering-Leaves (Evolves db) _ _ (delete_lineage_effect-Evolves id)
    request_effect-Evolves (set_description_request id d) =
        answering-Leaves (Evolves db) _ _
          (Evolves-Leaves db _ (set_description_effect-Follows id d))

    -- Over any request, whatever comes of it, a version that is there before is there after it, with
    -- the same base type, a status no earlier and a revision no lower, and with the very same
    -- constraints and revision if it had been published; or it was a
    -- DRAFT and is gone; or its lineage is gone.
    pub serve-Evolves : (r : Request) → Evolves db (serve canonicalize r db).1
    serve-Evolves r =
        serve_leaves (Evolves db) canonicalize r db (Follows-Evolves db db (Follows-refl db))
          (request_effect-Evolves r)
