-- ===== src/Application/DataTypes/Invariant/Admitted.antt =====
-- What the invariant gives to those who admit a DataType by its default.
use netauto.Prelude.{ℕ, ◌≡◌, refl, ◌⊎◌, inl, inr, true, none, some, arith, Option-cases, Uuid, ok}
use netauto.Domain.DataTypes.{DataType, DataTypeVersion}
use netauto.Persistence.Database.{Database}
use netauto.Persistence.DataTypes as Store
use netauto.Persistence.DataTypes.Admission.{
  admit_default, admit_default_of, admit_exact_lem, row_there,
}
use netauto.Persistence.Locking.Keys.{row_lock_key}
use netauto.Application.DataTypes.Invariant.{IsSound}

default_found :
    (id v : ℕ) (l : DataType) (db : Database)
    → IsSound db
    → Store.get_lineage id db ≡ some l
    → l.default_version ≡ some v
    → (x : DataTypeVersion) × (Store.get_version id v db ≡ some x)
      × (Store.is_published x.status ≡ true)
default_found id v l db s hl hv = elim (Option-cases (Store.get_version id v db)) [
  | inl n ↦ absurd (ground (arith, s.default_published id l v hl hv))
  | inr (x, e) ↦ (x, e, ground (arith, s.default_published id l v hl hv))
]

admit_default_step :
    (id : ℕ) (db : Database)
    → admit_default id db
      ≡ elim (Store.get_lineage id db) [ none ↦ ok none | some l ↦ admit_default_of id l db ]
unfolding admit_default row_lock_key row_there
admit_default_step id db = ground arith

-- On rows that satisfy the invariant, admission by default has three outcomes and no failure: there
-- is no such lineage, and nothing is admitted; the lineage has no default, and it is admitted
-- without a version; or it has one, and it is admitted with that version, which is PUBLISHED.
pub admit_default_lem :
    (id : Uuid) (db : Database)
    → IsSound db
    → ((Store.get_lineage id db ≡ none) × (admit_default id db ≡ ok none))
      ⊎ ((l : DataType) × (Store.get_lineage id db ≡ some l)
          × (((l.default_version ≡ none) × (admit_default id db ≡ ok (some (l, none))))
              ⊎ ((v : ℕ) × (x : DataTypeVersion) × (l.default_version ≡ some v)
                  × (Store.get_version id v db ≡ some x)
                  × (Store.is_published x.status ≡ true)
                  × (admit_default id db ≡ ok (some (l, some x))))))
unfolding admit_default_of
admit_default_lem id db s = elim (Option-cases (Store.get_lineage id db)) [
  | inl n ↦ inl (n, rw (admit_default_step id db, n) refl)
  | inr (l, e) ↦ inr (
    l,
    e,
    elim (Option-cases l.default_version) [
      | inl d ↦ inl (d, ground (arith, admit_default_step id db))
      | inr (v, d) ↦
          let (x, g, p) = default_found id v l db s e d in
          inr (
            v,
            x,
            d,
            g,
            p,
            ground
                (arith, admit_default_step id db, admit_exact_lem id v db (s.positive id v x g).0),
          )
    ],
  )
]
