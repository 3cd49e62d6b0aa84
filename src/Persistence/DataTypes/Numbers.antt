-- ===== src/Persistence/DataTypes/Numbers.antt =====
-- Version numbers: `next_version` and the insert that takes its answer.
use netauto.Prelude.{
  ℕ, ◌+◌, ◌≤◌, ◌<◌, ◌≡◌, refl, sym, subst, true, false, none, some, List, [], ◌∷◌, ◌++◌, arith,
  Uuid, find, any, ok, err,
}
use netauto.Domain.DataTypes.{DataTypeVersion}
use netauto.Persistence.Database.{Database}
use netauto.Persistence.DataTypes.{
  has_id, has_key, max_version, next_version, get_version, insert_version, insert_row,
  check_version, integer_max,
}
use netauto.Domain.Value.{Fields, dict}
use netauto.Failures.{out_of_range}

-- the number that `next_version` gives for a list of rows
abbrev next_after : Uuid → List DataTypeVersion → ℕ
next_after id vs = elim (max_version id vs) [ none ↦ 1 | some m ↦ m + 1 ]

below_next :
    (id v : ℕ) (vs : List DataTypeVersion) (x : DataTypeVersion)
    → find (has_key id v) vs ≡ some x
    → v < next_after id vs
unfolding find max_version
below_next id v [] x h = absurd (cc h)
below_next id v (y ∷ vs) x h = ground (arith, below_next id v vs x)

none_above :
    (id n : ℕ) (vs : List DataTypeVersion) → next_after id vs ≤ n → any (has_key id n) vs ≡ false
unfolding any max_version
none_above id n [] h = refl
none_above id n (y ∷ vs) h = ground (arith, none_above id n vs)

-- a row that the columns and the CHECK constraints admit
abbrev pub Fits : DataTypeVersion → Type 0
Fits y =
    (y.version ≤ integer_max)
    × (0 < y.revision)
    × (y.revision ≤ integer_max)
    × ((fields : Fields) × (y.constraints ≡ dict fields))

check_version-Fits : (y : DataTypeVersion) → 0 < y.version → Fits y → check_version y ≡ ok tt
unfolding check_version
check_version-Fits y p (n, q, r, c) = let (fields, e) = c in rw e (ground arith)

check_version-over :
    (y : DataTypeVersion) → integer_max < y.version → check_version y ≡ err out_of_range
unfolding check_version
check_version-over y h = ground arith

next_version_positive : (id : Uuid) (db : Database) → 0 < next_version id db
unfolding next_version
next_version_positive id db = ground arith

insert_row-next :
    (id : Uuid) (db : Database) (y : DataTypeVersion)
    → y.datatype_id ≡ id
    → y.version ≡ next_version id db
    → any (has_id id) db.datatypes ≡ true
    → insert_row y db ≡ ok (tt, record db { datatype_versions = db.datatype_versions ++ y ∷ [] })
unfolding next_version insert_row
insert_row-next id db y own num there =
    ground (arith, own, num, none_above id (next_version id db) db.datatype_versions)

-- The next number of a lineage is above the number of every version that it has. A row with it in a
-- lineage that is there is inserted, if the number is at most 2147483647, the revision is positive and
-- at most that, and the constraints are an object: the insert of `create_next` never meets a version of
-- the same number. A row with a number past 2147483647 is out of the column's range.
pub next_version_fresh :
    (id : Uuid) (db : Database)
    → ((v : ℕ) (x : DataTypeVersion) → get_version id v db ≡ some x → v < next_version id db)
      × ((y : DataTypeVersion)
          → y.datatype_id ≡ id
          → y.version ≡ next_version id db
          → any (has_id id) db.datatypes ≡ true
          → (Fits y
              → insert_version y db
                ≡ ok (tt, record db { datatype_versions = db.datatype_versions ++ y ∷ [] }))
            × (integer_max < next_version id db → insert_version y db ≡ err out_of_range))
unfolding get_version next_version insert_version
next_version_fresh id db = (
  λ v x h. below_next id v db.datatype_versions x h,
  λ y own num there.
      let positive : 0 < y.version = subst (λ n. 0 < n) (sym num) (next_version_positive id db) in
      (
        λ fits. rw (check_version-Fits y positive fits) (insert_row-next id db y own num there),
        λ over. rw (check_version-over y (subst (λ n. integer_max < n) (sym num) over)) refl,
      ),
)
