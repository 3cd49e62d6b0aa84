-- ===== src/Application/DataTypes/Pages.antt =====
-- `list_versions` of `DataTypeService`, src/netauto/application/datatypes.py. A cursor is the key that
-- it carries, the number of a version: its codec stands in src/netauto/application/cursors.py.
use netauto.Prelude.{
  ℕ, zero, suc, ◌+◌, ◌≡◌, refl, ap, ◌∙◌, inl, inr, Bool, true, false, ◌&&◌, Option, none, some,
  List, [], ◌∷◌, map, arith, ltb, if◌then◌else◌, Option-cases, Uuid, ◌==◌, ℕ_eq, list_eq, option_eq,
  length, any, keep, Result, ok, err,
}
use netauto.Domain.DataTypes.{DataTypeVersionSummary, VersionStatus, DataTypeVersion}
use netauto.Persistence.Database.{Database}
use netauto.Persistence.DataTypes as Store
use netauto.Persistence.DataTypes.Pages.{
  summary, comes_after, has_status, member_rows, take, take-take, more_rows, list_versions_lem,
  has_status, comes_after,
}
use netauto.Persistence.DataTypes.Pages as Rows
use netauto.Persistence.UnitOfWork.{Tx, in_unit_of_work, pure, raise, query, require, ◌>>=◌, ◌>>◌}
use netauto.Application.DataTypes.{not_found}
use netauto.Failures.{Failure}
use netauto.Prelude.Sort.{sort_by-IsSorted, IsSorted, any-sort_by, length-sort_by}

pub record Page : Type 0 where
  pub items : List DataTypeVersionSummary
  pub next_cursor : Option ℕ

-- what a caller of `list_versions` may meet: a failure, or the `IndexError` of an empty `items`
pub data PageFailure : Type 0 where
  failed : Failure → PageFailure
  index_error : PageFailure

-- `items[-1].version`
unfoldable pub last_version : List DataTypeVersionSummary → Result PageFailure ℕ
last_version [] = err index_error
last_version (x ∷ []) = ok x.version
last_version (x ∷ y ∷ ys) = last_version (y ∷ ys)

-- the page with the items, with a cursor if there are more
unfoldable pub with_cursor : Bool → List DataTypeVersionSummary → Result PageFailure Page
unfolding last_version
with_cursor false items = ok (record { items = items; next_cursor = none })
with_cursor true items = elim (last_version items) [
  | ok last ↦ ok (record { items = items; next_cursor = some last })
  | err e ↦ err e
]

-- the page that is built from the rows, behind the unit of work
unfoldable pub page_of : ℕ → List DataTypeVersionSummary → Result PageFailure Page
unfolding with_cursor take
page_of limit rows = with_cursor (ltb limit (length rows)) (take limit rows)

unfoldable pub page_rows :
    Uuid → Option VersionStatus → Option ℕ → ℕ → Tx (List DataTypeVersionSummary)
unfolding ◌>>=◌ query pure raise
page_rows id status after limit = do
  (parent_exists, rows) ← query (Rows.list_versions id status after (limit + 1))
  require parent_exists (not_found id)
  pure rows

unfoldable pub paged : ℕ → Result Failure (List DataTypeVersionSummary) → Result PageFailure Page
unfolding page_of
paged limit (ok rows) = page_of limit rows
paged limit (err e) = err (failed e)

unfoldable pub list_versions :
    Uuid → Option VersionStatus → Option ℕ → ℕ → Database → Result PageFailure Page × Database
unfolding in_unit_of_work page_rows paged
list_versions id status after limit db =
    let (r, db') = in_unit_of_work (page_rows id status after limit) db in (paged limit r, db')

-- the number of the version at the place, from 0 on
abbrev pub version_at : ℕ → List DataTypeVersionSummary → ℕ
version_at n [] = 0
version_at zero (x ∷ xs) = x.version
version_at (suc n) (x ∷ xs) = version_at n xs

last-take :
    (n : ℕ) (xs : List DataTypeVersionSummary)
    → ltb (suc n) (length xs) ≡ true
    → last_version (take (suc n) xs) ≡ ok (version_at n xs)
unfolding last_version take
last-take n [] h = absurd (ground arith)
last-take zero (x ∷ xs) h = refl
last-take (suc n) (x ∷ []) h = absurd (ground arith)
last-take (suc n) (x ∷ y ∷ ys) h = last-take n (y ∷ ys) (ground arith)

-- The page of a list: the first `limit` of it, with the number of the last of them as the cursor if
-- there are more. A page of none has no last.
abbrev pub page_from : ℕ → List DataTypeVersionSummary → Result PageFailure Page
page_from zero [] = ok (record { items = []; next_cursor = none })
page_from zero (x ∷ xs) = err index_error
page_from (suc n) xs = ok (record {
  items = take (suc n) xs;
  next_cursor = if ltb (suc n) (length xs) then some (version_at n xs) else none;
})

page_of-take :
    (limit : ℕ) (xs : List DataTypeVersionSummary)
    → page_of limit (take (suc limit) xs) ≡ page_of limit xs
unfolding page_of
page_of-take limit xs = rw (take-take limit xs, more_rows limit xs) refl

with_cursor_lem :
    (more : Bool) (items : List DataTypeVersionSummary) (last : ℕ)
    → (more ≡ true → last_version items ≡ ok last)
    → with_cursor more items
      ≡ ok (record { items = items; next_cursor = if more then some last else none })
unfolding with_cursor
with_cursor_lem false items last h = refl
with_cursor_lem true items last h = rw (with_cursor, h refl) refl

page_of_lem : (limit : ℕ) (xs : List DataTypeVersionSummary) → page_of limit xs ≡ page_from limit xs
unfolding page_of with_cursor last_version take
page_of_lem zero [] = refl
page_of_lem zero (x ∷ xs) = ap (λ more. with_cursor more []) (some_more (length xs))
  where
    some_more : (n : ℕ) → ltb 0 (suc n) ≡ true
    some_more n = ground arith
page_of_lem (suc n) xs =
    with_cursor_lem (ltb (suc n) (length xs)) (take (suc n) xs) (version_at n xs) (last-take n xs)

abbrev pub is_wanted : Uuid → Option VersionStatus → Option ℕ → DataTypeVersion → Bool
is_wanted id status after v =
    v.datatype_id == id && (has_status status v.status && comes_after after v.version)

-- The rows are in the order of their numbers, and are those that have the lineage, the status if one
-- is asked for, and a number after the cursor, as many as there are.
abbrev pub AreMembers :
    Uuid → Option VersionStatus → Option ℕ → Database → List DataTypeVersion → Type 0
AreMembers id status after db rows =
    IsSorted (λ v. v.version ∷ []) rows
    × ((p : DataTypeVersion → Bool)
        → any p rows ≡ any (λ v. p v && is_wanted id status after v) db.datatype_versions)
    × (length rows ≡ length (keep (is_wanted id status after) db.datatype_versions))

any-kept :
    (p q : DataTypeVersion → Bool) (xs : List DataTypeVersion)
    → any p (keep q xs) ≡ any (λ v. p v && q v) xs
unfolding any keep
any-kept p q [] = refl
any-kept p q (x ∷ xs) = ground (arith, any-kept p q xs)

member_rows-AreMembers :
    (id : Uuid) (status : Option VersionStatus) (after : Option ℕ) (db : Database)
    → AreMembers id status after db (member_rows id status after db)
unfolding member_rows
member_rows-AreMembers id status after db = (
  sort_by-IsSorted _ (keep _ db.datatype_versions),
  λ p. any-sort_by _ p (keep _ db.datatype_versions) ∙ any-kept p _ db.datatype_versions,
  length-sort_by _ (keep (is_wanted id status after) db.datatype_versions),
)

-- There is a list of rows in the order of their numbers, exactly those of the lineage that have the
-- status and come after the cursor, and a page of a lineage that is there is the first `limit` of them,
-- with a cursor at the last of these exactly when there are more; for a limit of 0 it raises if there
-- are any. A lineage that is not there is reported; and no row changes.
pub list_versions_page :
    (id : Uuid) (status : Option VersionStatus) (after : Option ℕ) (limit : ℕ) (db : Database)
    → (rows : List DataTypeVersion) × AreMembers id status after db rows
      × (list_versions id status after limit db ≡ elim (Store.get_lineage id db) [
        | none ↦ (err (failed (not_found id)), db)
        | some _ ↦ (page_from limit (map summary rows), db)
      ])
unfolding list_versions in_unit_of_work page_rows paged ◌>>=◌ query pure raise
list_versions_page id status after limit db =
    let all_rows = map summary (member_rows id status after db) in
    let rows = list_versions_lem id status after limit db in
    let step : limit + 1 ≡ suc limit = omega arith in
    (
      member_rows id status after db,
      member_rows-AreMembers id status after db,
      elim (Option-cases (Store.get_lineage id db)) [
        | inl e ↦ rw step (rw rows (rw e refl))
        | inr (l, e) ↦ rw step (
            rw rows
              (rw e (ap (λ r. (r, db)) (page_of-take limit all_rows ∙ page_of_lem limit all_rows))))
      ],
    )
