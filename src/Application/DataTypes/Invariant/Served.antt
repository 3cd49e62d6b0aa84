-- ===== src/Application/DataTypes/Invariant/Served.antt =====
-- The invariant under the effects of the operations of `DataTypeService`.
use netauto.Prelude.{
  ℕ, ◌<◌, ◌≡◌, refl, inl, inr, true, false, not, Option, none, some, arith, Option-cases, is_some,
  Text, Uuid, ℕ_eq, option_beq, option_beq_iff, list_eq, option_eq, Result, ok, guard,
}
use netauto.Domain.Value.{Value}
use netauto.Domain.Primitives.{PrimitiveType, PrimitiveValidationError}
use netauto.Domain.DataTypes.{DataTypeVersion, published, deprecated}
use netauto.Failures.{Failure}
use netauto.Persistence.Database.{Database}
use netauto.Persistence.DataTypes as Store
use netauto.Application.DataTypes.{is_draft, is_source}
use netauto.Application.DataTypes.Effects.Leaves.{Leaves-bind, Leaves-ok, some_or_lem, guard_lem}
use netauto.Application.DataTypes.Invariant.{IsSound, published_at}
use netauto.Application.DataTypes.Invariant.Versions.{updated, get_version-updated}
use netauto.Application.DataTypes.Invariant.Kept.{
  Keeps, set_status-Keeps, insert_version-Keeps, set_default-Keeps, set_description-Keeps,
  revise-Keeps, delete_draft-Keeps, delete_lineage-Keeps,
}
use netauto.Application.DataTypes.Effects.{
  some_or, semantically, positive, draft_at, publish_effect, create_next_effect, revise_effect,
  set_default_effect, clear_default_effect, deprecate_effect, delete_draft_effect,
  delete_lineage_effect, set_description_effect,
}
use netauto.Application.DataTypes.Operations.{next_draft, classify_delete}

draft_not_published :
    (x : DataTypeVersion) (n : ℕ) {u : Unit {0}}
    → draft_at x n ≡ ok u
    → Store.is_published x.status ≡ false
unfolding draft_at is_draft Store.is_published
draft_not_published x n h = ground arith

next_version_positive : (id : ℕ) (db : Database) → 0 < Store.next_version id db
unfolding Store.next_version
next_version_positive id db = ground arith

pub clear_default_effect-Keeps :
    (id : Uuid) (db : Database) → IsSound db → Keeps (clear_default_effect id db)
unfolding clear_default_effect
clear_default_effect-Keeps id db s =
    Leaves-bind IsSound (some_or (Store.get_lineage id db) _) _
      (λ l h. set_default-Keeps id none db (λ w p. absurd (cc p)) s)

pub revise_effect-Keeps :
    (canonicalize : PrimitiveType → Value → Result PrimitiveValidationError Value) (id v n : ℕ)
    (c : Value) (db : Database)
    → IsSound db
    → Keeps (revise_effect canonicalize id v n c db)
unfolding revise_effect
revise_effect-Keeps canonicalize id v n c db s = Leaves-bind IsSound (positive v) _ (λ _ _.
    Leaves-bind IsSound (some_or (Store.get_lineage id db) _) _ (λ l hl.
      Leaves-bind IsSound (some_or (Store.get_version id v db) _) _ (λ x hx.
        Leaves-bind IsSound (draft_at x n) _ (λ _ _.
          Leaves-bind IsSound (semantically (canonicalize x.base_type c)) _
            (λ c' _. revise-Keeps id v c' db s)))))

pub set_default_effect-Keeps :
    (id v : ℕ) (db : Database) → IsSound db → Keeps (set_default_effect id v db)
unfolding set_default_effect
set_default_effect-Keeps id v db s = Leaves-bind IsSound (positive v) _ (λ _ _.
    Leaves-bind IsSound (some_or (Store.get_lineage id db) _) _ (λ l hl.
      Leaves-bind IsSound (some_or (Store.get_version id v db) _) _ (λ x hx.
        Leaves-bind IsSound (guard (Store.is_published x.status) _) _ (λ _ g.
          set_default-Keeps id (some v) db
            (λ w p. ground (arith, some_or_lem _ _ hx, guard_lem _ _ g)) s))))

pub deprecate_effect-Keeps :
    (id v : ℕ) (db : Database) → IsSound db → Keeps (deprecate_effect id v db)
unfolding deprecate_effect
deprecate_effect-Keeps id v db s = Leaves-bind IsSound (positive v) _ (λ _ _.
    Leaves-bind IsSound (some_or (Store.get_lineage id db) _) _ (λ l hl.
      Leaves-bind IsSound (some_or (Store.get_version id v db) _) _ (λ x hx.
        Leaves-bind IsSound (guard (Store.is_published x.status) _) _ (λ _ g.
          Leaves-bind IsSound (guard (not (option_beq l.default_version (some v))) _) _ (λ _ d.
            Leaves-bind IsSound (guard (not (Store.has_active_consumer id v db)) _) _ (λ _ u.
              set_status-Keeps id v deprecated db
                (λ m hm dm. ground (
                  arith,
                  some_or_lem _ _ hl,
                  guard_lem _ _ d,
                  option_beq_iff l.default_version (some v),
                ))
                s))))))

pub create_next_effect-Keeps :
    (id v : ℕ) (db : Database) → IsSound db → Keeps (create_next_effect id v db)
unfolding create_next_effect
create_next_effect-Keeps id v db s = Leaves-bind IsSound (positive v) _ (λ _ _.
    Leaves-bind IsSound (some_or (Store.get_lineage id db) _) _ (λ l hl.
      Leaves-bind IsSound (some_or (Store.get_version id v db) _) _ (λ x hx.
        Leaves-bind IsSound (guard (is_source x.status) _) _ (λ _ g.
          Leaves-bind IsSound (Store.insert_version (next_draft x id (Store.next_version id db)) db)
            _
            (λ (a, d) h.
              Leaves-ok IsSound _
                (insert_version-Keeps (next_draft x id (Store.next_version id db)) db
                  (next_version_positive id db) (omega arith) s)
                h)))))

pub delete_draft_effect-Keeps :
    (id v n : ℕ) (db : Database) → IsSound db → Keeps (delete_draft_effect id v n db)
unfolding delete_draft_effect
delete_draft_effect-Keeps id v n db s = Leaves-bind IsSound (positive v) _ (λ _ _.
    Leaves-bind IsSound (some_or (Store.get_lineage id db) _) _ (λ l hl.
      Leaves-bind IsSound (some_or (Store.get_version id v db) _) _ (λ x hx.
        Leaves-bind IsSound (draft_at x n) _ (λ _ g.
          delete_draft-Keeps id v db (ground (arith, some_or_lem _ _ hx, draft_not_published x n g))
            s))))

pub set_description_effect-Keeps :
    (id : ℕ) (d : Option Text) (db : Database) → IsSound db → Keeps (set_description_effect id d db)
unfolding set_description_effect
set_description_effect-Keeps id d db s =
    Leaves-bind IsSound (some_or (Store.get_lineage id db) _) _ (λ l hl.
      Leaves-bind IsSound (Store.set_description id d db) _ (λ (m, db₁) h.
        Leaves-bind IsSound (some_or m _) _
          (λ l' _. Leaves-ok IsSound _ (set_description-Keeps id d db s) h)))

classify_delete-Keeps :
    (id : ℕ) (r : Result Failure (Unit {0} × Database)) → Keeps r → Keeps (classify_delete id r)
unfolding classify_delete
classify_delete-Keeps id r k = ground arith

pub delete_lineage_effect-Keeps :
    (id : ℕ) (db : Database) → IsSound db → Keeps (delete_lineage_effect id db)
unfolding delete_lineage_effect
delete_lineage_effect-Keeps id db s =
    Leaves-bind IsSound (some_or (Store.get_lineage id db) _) _ (λ l hl.
      Leaves-bind IsSound (guard _ _) _
        (λ _ _. classify_delete-Keeps id _ (delete_lineage-Keeps id db s)))

update_version_lem :
    (f : DataTypeVersion → DataTypeVersion) (id v : ℕ) (db db₁ : Database) (x : DataTypeVersion)
    → Store.update_version id v f db ≡ ok (x, db₁)
    → is_some (Store.get_version id v db) ≡ true × (db₁ ≡ updated f id v db)
unfolding Store.update_version
update_version_lem f id v db db₁ x h = ground arith

set_status-published :
    (id v : ℕ) (db db₁ : Database) (x : DataTypeVersion)
    → Store.set_status id v published db ≡ ok (x, db₁)
    → published_at id v db₁ ≡ true
unfolding Store.set_status Store.is_published
set_status-published id v db db₁ x h =
    let f : DataTypeVersion → DataTypeVersion = λ y. record y { status = published } in
    let done = update_version_lem f id v db db₁ x h in
    rw done.1 (ground (arith, get_version-updated f id v db id v (λ y. (refl, refl)), done.0))

pub publish_effect-Keeps :
    (id v n : ℕ) (db : Database) → IsSound db → Keeps (publish_effect id v n db)
unfolding publish_effect Store.is_published
publish_effect-Keeps id v n db s = Leaves-bind IsSound (positive v) _ (λ _ _.
    Leaves-bind IsSound (some_or (Store.get_lineage id db) _) _ (λ l hl.
      Leaves-bind IsSound (some_or (Store.get_version id v db) _) _ (λ x hx.
        Leaves-bind IsSound (draft_at x n) _ (λ _ g.
          Leaves-bind IsSound (Store.set_status id v published db) _ (λ (x', db₁) h.
            let s₁ : IsSound db₁ =
              Leaves-ok IsSound _ (set_status-Keeps id v published db (λ m hm dm. refl) s) h in
            elim (Option-cases l.default_version) [
              | inl e ↦ rw e (
                  Leaves-bind IsSound (Store.set_default id (some v) db₁) _ (λ (a, db₂) h'.
                    Leaves-ok IsSound _
                      (set_default-Keeps id (some v) db₁
                        (λ w p. ground (arith, set_status-published id v db db₁ x' h)) s₁)
                      h'))
              | inr (m, e) ↦ rw e s₁
            ])))))
