-- ===== src/Persistence/DataTypes/Pages.antt =====
-- `list_versions` of `DataTypeStore`, src/netauto/persistence/datatypes.py: one statement with an outer
-- join, so that a lineage with no version in the page still has one row.
use netauto.Prelude.{
  ℕ, zero, suc, ◌≡◌, refl, ap, inl, inr, Bool, true, false, ◌&&◌, Option, none, some, List, [], ◌∷◌,
  map, arith, ltb, Option-cases, Uuid, ◌==◌, ℕ_eq, list_eq, option_eq, length, keep,
}
use netauto.Prelude.Sort.{sort_by}
use netauto.Domain.DataTypes.{
  DataTypeVersion, DataTypeVersionSummary, VersionStatus, draft, published, deprecated,
}
use netauto.Persistence.Database.{Database}
use netauto.Persistence.DataTypes.{get_lineage}

-- `_summary`
unfoldable pub summary : DataTypeVersion → DataTypeVersionSummary
summary v = record {
  datatype_id = v.datatype_id;
  version = v.version;
  revision = v.revision;
  status = v.status;
  base_type = v.base_type;
}

unfoldable pub has_status : Option VersionStatus → VersionStatus → Bool
has_status none s = true
has_status (some draft) draft = true
has_status (some published) published = true
has_status (some deprecated) deprecated = true
has_status (some t) s = false

unfoldable pub comes_after : Option ℕ → ℕ → Bool
comes_after none version = true
comes_after (some after) version = ltb after version

-- the rows of the join, in the order of the statement, without the limit
unfoldable pub member_rows :
    Uuid → Option VersionStatus → Option ℕ → Database → List DataTypeVersion
unfolding keep has_status comes_after sort_by
member_rows id status after db =
    sort_by (λ v. v.version ∷ [])
      (keep
        (λ v. v.datatype_id == id && (has_status status v.status && comes_after after v.version))
        db.datatype_versions)

unfoldable pub outer_join : List DataTypeVersion → List (Option DataTypeVersion)
outer_join [] = none ∷ []
outer_join (v ∷ vs) = map some (v ∷ vs)

unfoldable pub take {ℓ} : {A : Type ℓ} → ℕ → List A → List A
take zero xs = []
take (suc n) [] = []
take (suc n) (x ∷ xs) = x ∷ take n xs

-- the rows whose version is not NULL
unfoldable pub present : List (Option DataTypeVersion) → List DataTypeVersionSummary
unfolding summary
present [] = []
present (none ∷ rows) = present rows
present (some v ∷ rows) = summary v ∷ present rows

present-take-map :
    (n : ℕ) (vs : List DataTypeVersion) → present (take n (map some vs)) ≡ take n (map summary vs)
unfolding present take
present-take-map zero vs = refl
present-take-map (suc n) [] = refl
present-take-map (suc n) (v ∷ vs) = ap (λ rest. summary v ∷ rest) (present-take-map n vs)

-- `DataTypeVersionPageProjection` of the joined rows
unfoldable pub projection : List (Option DataTypeVersion) → Bool × List DataTypeVersionSummary
unfolding present
projection [] = (false, [])
projection (row ∷ rows) = (true, present (row ∷ rows))

unfoldable pub list_versions :
    Uuid → Option VersionStatus → Option ℕ → ℕ → Database → Bool × List DataTypeVersionSummary
unfolding get_lineage member_rows outer_join take projection
list_versions id status after limit db = elim (get_lineage id db) [
  | none ↦ (false, [])
  | some _ ↦ projection (take limit (outer_join (member_rows id status after db)))
]

projection-take :
    (n : ℕ) (vs : List DataTypeVersion)
    → projection (take (suc n) (outer_join vs)) ≡ (true, take (suc n) (map summary vs))
unfolding projection take outer_join
projection-take zero [] = refl
projection-take (suc n) [] = refl
projection-take n (v ∷ vs) = ap (λ rest. (true, summary v ∷ rest)) (present-take-map n vs)

-- a page of at least one row of a lineage that is there
pub list_versions_lem :
    (id : Uuid) (status : Option VersionStatus) (after : Option ℕ) (limit : ℕ) (db : Database)
    → list_versions id status after (suc limit) db ≡ elim (get_lineage id db) [
      | none ↦ (false, [])
      | some _ ↦ (true, take (suc limit) (map summary (member_rows id status after db)))
    ]
unfolding list_versions
list_versions_lem id status after limit db = elim (Option-cases (get_lineage id db)) [
  | inl e ↦ rw (e, list_versions) refl
  | inr (l, e) ↦ rw (e, list_versions) (projection-take limit (member_rows id status after db))
]

pub take-take {ℓ} : {A : Type ℓ} (n : ℕ) (xs : List A) → take n (take (suc n) xs) ≡ take n xs
unfolding take
take-take zero xs = refl
take-take (suc n) [] = refl
take-take (suc n) (x ∷ xs) = ap (λ rest. x ∷ rest) (take-take n xs)

-- one row more than the page is there exactly when the rows are more than the page
pub more_rows {ℓ} :
    {A : Type ℓ} (n : ℕ) (xs : List A) → ltb n (length (take (suc n) xs)) ≡ ltb n (length xs)
unfolding take
more_rows zero [] = refl
more_rows zero (x ∷ xs) = ground arith
more_rows (suc n) [] = refl
more_rows (suc n) (x ∷ xs) = ground (arith, more_rows n xs)
