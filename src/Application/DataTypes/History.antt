-- ===== src/Application/DataTypes/History.antt =====
-- How the DataType versions of `DataTypeService` change over time.
pub mod Statements
pub mod Requests
use netauto.Prelude.{ℕ, ◌≤◌, ◌≡◌, ◌⊎◌, true, false, none, some}
use netauto.Domain.DataTypes.{DataTypeVersion, VersionStatus, draft, published, deprecated}
use netauto.Persistence.Database.{Database}
use netauto.Persistence.DataTypes as Store
use netauto.Application.DataTypes.{is_draft}

-- DRAFT, then PUBLISHED, then DEPRECATED
abbrev pub status_rank : VersionStatus → ℕ
status_rank draft = 0
status_rank published = 1
status_rank deprecated = 2

-- What a version may become: its status never goes back, its base type never changes, its revision
-- never falls, and from PUBLISHED on neither constraints nor revision change.
abbrev pub IsSuccessor : DataTypeVersion → DataTypeVersion → Type 0
IsSuccessor x y =
    (y.base_type ≡ x.base_type)
    × (status_rank x.status ≤ status_rank y.status)
    × (x.revision ≤ y.revision)
    × (is_draft x.status ≡ false → (y.constraints ≡ x.constraints) × (y.revision ≡ x.revision))

-- Every version is still there, as a successor of what it was.
abbrev pub Follows : Database → Database → Type 0
Follows before after =
    (id v : ℕ) (x : DataTypeVersion)
    → Store.get_version id v before ≡ some x
    → (y : DataTypeVersion) × (Store.get_version id v after ≡ some y) × IsSuccessor x y

-- Every version is still there, as a successor of what it was, or it was a DRAFT and is gone, or its
-- lineage is gone.
abbrev pub Evolves : Database → Database → Type 0
Evolves before after =
    (id v : ℕ) (x : DataTypeVersion)
    → Store.get_version id v before ≡ some x
    → ((y : DataTypeVersion) × (Store.get_version id v after ≡ some y) × IsSuccessor x y)
      ⊎ ((is_draft x.status ≡ true) × (Store.get_version id v after ≡ none))
      ⊎ (Store.get_lineage id after ≡ none)
