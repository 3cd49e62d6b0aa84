-- ===== src/Persistence/DataTypes/Rows.antt =====
-- What the statements of `DataTypeStore` leave to be found: lineages by id, versions by key.
use netauto.Prelude.{
  ℕ, ◌≡◌, refl, Bool, false, not, ◌&&◌, Option, none, some, List, [], ◌∷◌, ◌++◌, arith,
  if◌then◌else◌, ◌==◌, ℕ_eq, list_eq, option_eq, find, any, keep,
}
use netauto.Domain.DataTypes.{DataType, DataTypeVersion}
use netauto.Persistence.DataTypes.{has_id, has_key, update_where}

-- a row update that leaves the key alone
abbrev pub KeepsKey : (DataTypeVersion → DataTypeVersion) → Type 0
KeepsKey f =
    (x : DataTypeVersion) → ((f x).datatype_id ≡ x.datatype_id) × ((f x).version ≡ x.version)

abbrev pub KeepsId : (DataType → DataType) → Type 0
KeepsId f = (x : DataType) → (f x).id ≡ x.id

abbrev pub map_option {ℓ κ} : {A : Type ℓ} {B : Type κ} → (A → B) → Option A → Option B
map_option f none = none
map_option f (some a) = some (f a)

pub find-update_version :
    (f : DataTypeVersion → DataTypeVersion) (id v j w : ℕ) (xs : List DataTypeVersion)
    → KeepsKey f
    → find (has_key j w) (update_where (has_key id v) f xs)
      ≡ (if id == j && v == w then map_option f (find (has_key j w) xs) else find (has_key j w) xs)
unfolding find update_where
find-update_version f id v j w [] k = ground arith
find-update_version f id v j w (x ∷ xs) k = ground (arith, find-update_version f id v j w xs k, k x)

pub find-update_lineage :
    (f : DataType → DataType) (id j : ℕ) (xs : List DataType)
    → KeepsId f
    → find (has_id j) (update_where (has_id id) f xs)
      ≡ (if id == j then map_option f (find (has_id j) xs) else find (has_id j) xs)
unfolding find update_where
find-update_lineage f id j [] k = ground arith
find-update_lineage f id j (x ∷ xs) k = ground (arith, find-update_lineage f id j xs k, k x)

pub find-append_version :
    (y : DataTypeVersion) (j w : ℕ) (xs : List DataTypeVersion)
    → any (has_key y.datatype_id y.version) xs ≡ false
    → find (has_key j w) (xs ++ y ∷ [])
      ≡ (if y.datatype_id == j && y.version == w then some y else find (has_key j w) xs)
unfolding find any
find-append_version y j w [] h = ground arith
find-append_version y j w (x ∷ xs) h = ground (arith, find-append_version y j w xs)

pub find-append_lineage :
    (y : DataType) (j : ℕ) (xs : List DataType)
    → any (has_id y.id) xs ≡ false
    → find (has_id j) (xs ++ y ∷ []) ≡ (if y.id == j then some y else find (has_id j) xs)
unfolding find any
find-append_lineage y j [] h = ground arith
find-append_lineage y j (x ∷ xs) h = ground (arith, find-append_lineage y j xs)

pub find-drop_version :
    (id v j w : ℕ) (xs : List DataTypeVersion)
    → find (has_key j w) (keep (λ x. not (has_key id v x)) xs)
      ≡ (if id == j && v == w then none else find (has_key j w) xs)
unfolding find keep
find-drop_version id v j w [] = ground arith
find-drop_version id v j w (x ∷ xs) = ground (arith, find-drop_version id v j w xs)

pub find-drop_versions :
    (id j w : ℕ) (xs : List DataTypeVersion)
    → find (has_key j w) (keep (λ x. not (x.datatype_id == id)) xs)
      ≡ (if id == j then none else find (has_key j w) xs)
unfolding find keep
find-drop_versions id j w [] = ground arith
find-drop_versions id j w (x ∷ xs) = ground (arith, find-drop_versions id j w xs)

pub find-drop_lineage :
    (id j : ℕ) (xs : List DataType)
    → find (has_id j) (keep (λ x. not (has_id id x)) xs)
      ≡ (if id == j then none else find (has_id j) xs)
unfolding find keep
find-drop_lineage id j [] = ground arith
find-drop_lineage id j (x ∷ xs) = ground (arith, find-drop_lineage id j xs)

-- An update that leaves the names alone leaves the answer to every test on names.
pub any-update_name :
    (p : DataType → Bool) (f : DataType → DataType) (id : ℕ) (xs : List DataType)
    → ((x : DataType) → p (f x) ≡ p x)
    → any p (update_where (has_id id) f xs) ≡ any p xs
unfolding any update_where
any-update_name p f id [] k = refl
any-update_name p f id (x ∷ xs) k = ground (arith, any-update_name p f id xs k, k x)
