-- ===== src/Application/DataTypes/Invariant/Versions.antt =====
-- The invariant under the statements on versions.
use netauto.Prelude.{
  ℕ, ◌<◌, ◌≡◌, sym, ◌∙◌, inl, inr, true, false, not, ◌&&◌, none, some, [], ◌∷◌, ◌++◌, arith,
  if◌then◌else◌, Option-cases, is_some, ◌==◌, ℕ_eq, list_eq, option_eq, any, keep, any-find,
}
use netauto.Domain.DataTypes.{DataType, DataTypeVersion}
use netauto.Persistence.Database.{Database}
use netauto.Persistence.DataTypes as Store
use netauto.Persistence.DataTypes.{has_id, has_key, has_name, update_where}
use netauto.Persistence.DataTypes.Rows.{
  KeepsKey, map_option, find-update_version, find-append_version, find-drop_version,
}
use netauto.Application.DataTypes.Invariant.{IsSound, published_at, with_versions, same_lineage}

module _ (f : DataTypeVersion → DataTypeVersion) (id v : ℕ) (db : Database) where
  abbrev pub updated : Database
  updated = with_versions db (update_where (has_key id v) f db.datatype_versions)

  pub get_version-updated :
      (j w : ℕ)
      → KeepsKey f
      → Store.get_version j w updated ≡ (
          if id == j && v == w
          then map_option f (Store.get_version j w db)
          else Store.get_version j w db)
  unfolding Store.get_version
  get_version-updated j w k = find-update_version f id v j w db.datatype_versions k

  -- An update of a version that keeps its key and a positive revision, and that leaves a PUBLISHED
  -- default PUBLISHED, keeps the invariant.
  pub update_version-IsSound :
      KeepsKey f
      → ((x : DataTypeVersion) → 0 < x.revision → 0 < (f x).revision)
      → ((l : DataType) (x : DataTypeVersion)
          → Store.get_lineage id db ≡ some l
          → Store.get_version id v db ≡ some x
          → l.default_version ≡ some v
          → Store.is_published x.status ≡ true
          → Store.is_published (f x).status ≡ true)
      → IsSound db
      → IsSound updated
  update_version-IsSound k r p s = record {
    names = s.names;
    default_published = λ j l w hl hw.
        let hl' : Store.get_lineage j db ≡ some l = sym (same_lineage j db _) ∙ hl in
        elim (Option-cases (Store.get_version j w db)) [
          | inl n ↦ ground (arith, s.default_published j l w hl' hw)
          | inr (y, e) ↦
              ground (arith, get_version-updated j w k, s.default_published j l w hl' hw, p l y)
        ];
    owned = λ j w x hx. rw (same_lineage j db) (elim (Option-cases (Store.get_version j w db)) [
      | inl n ↦ ground (arith, get_version-updated j w k)
      | inr (y, e) ↦ ground (arith, s.owned j w y)
    ]);
    positive = λ j w x hx. elim (Option-cases (Store.get_version j w db)) [
      | inl n ↦ ground (arith, get_version-updated j w k)
      | inr (y, e) ↦ ground (arith, get_version-updated j w k, s.positive j w y, r y)
    ];
  }

module _ (y : DataTypeVersion) (db : Database) where
  abbrev extended : Database
  extended = with_versions db (db.datatype_versions ++ y ∷ [])

  pub get_version-extended :
      (j w : ℕ)
      → any (has_key y.datatype_id y.version) db.datatype_versions ≡ false
      → Store.get_version j w extended
        ≡ (if y.datatype_id == j && y.version == w then some y else Store.get_version j w db)
  unfolding Store.get_version
  get_version-extended j w h = find-append_version y j w db.datatype_versions h

  fresh_version :
      any (has_key y.datatype_id y.version) db.datatype_versions ≡ false
      → Store.get_version y.datatype_id y.version db ≡ none
  unfolding Store.get_version
  fresh_version h = any-find (has_key y.datatype_id y.version) db.datatype_versions h

  -- A new version of a lineage that is there, with a positive number and revision, keeps the
  -- invariant.
  pub insert_version-IsSound :
      any (has_key y.datatype_id y.version) db.datatype_versions ≡ false
      → is_some (Store.get_lineage y.datatype_id db) ≡ true
      → 0 < y.version
      → 0 < y.revision
      → IsSound db
      → IsSound extended
  insert_version-IsSound h o n r s = record {
    names = s.names;
    default_published = λ j l w hl hw.
        let hl' : Store.get_lineage j db ≡ some l = sym (same_lineage j db _) ∙ hl in
        ground
          (arith, get_version-extended j w h, fresh_version h, s.default_published j l w hl' hw);
    owned = λ j w x hx.
        rw (same_lineage j db) (ground (arith, get_version-extended j w h, s.owned j w x));
    positive = λ j w x hx. ground (arith, get_version-extended j w h, s.positive j w x);
  }

module _ (id v : ℕ) (db : Database) where
  abbrev pub without_version : Database
  without_version = with_versions db (keep (λ x. not (has_key id v x)) db.datatype_versions)

  pub get_version-without :
      (j w : ℕ)
      → Store.get_version j w without_version
        ≡ (if id == j && v == w then none else Store.get_version j w db)
  unfolding Store.get_version
  get_version-without j w = find-drop_version id v j w db.datatype_versions

  -- Dropping a version that is not PUBLISHED keeps the invariant.
  pub delete_version-IsSound : published_at id v db ≡ false → IsSound db → IsSound without_version
  delete_version-IsSound h s = record {
    names = s.names;
    default_published = λ j l w hl hw.
        let hl' : Store.get_lineage j db ≡ some l = sym (same_lineage j db _) ∙ hl in
        ground (arith, get_version-without j w, s.default_published j l w hl' hw);
    owned =
        λ j w x hx. rw (same_lineage j db) (ground (arith, get_version-without j w, s.owned j w x));
    positive = λ j w x hx. ground (arith, get_version-without j w, s.positive j w x);
  }
