-- ===== src/Application/DataTypes/Invariant/Lineages.antt =====
-- The invariant under the statements on lineages.
use netauto.Prelude.{
  ℕ, ◌≡◌, refl, sym, ◌∙◌, ◌⊎◌, inl, inr, Bool, true, false, not, none, some, List, [], ◌∷◌, ◌++◌,
  arith, if◌then◌else◌, Bool-cases, Option-cases, Text, ◌==◌, ℕ_eq, list_beq, list_beq_iff, list_eq,
  option_eq, any, keep, any-append,
}
use netauto.Domain.DataTypes.{DataType}
use netauto.Persistence.Database.{Database}
use netauto.Persistence.DataTypes as Store
use netauto.Persistence.DataTypes.{has_id, has_key, has_name, update_where}
use netauto.Persistence.DataTypes.Rows.{
  KeepsId, map_option, find-update_lineage, find-append_lineage, find-drop_versions,
  find-drop_lineage, any-update_name,
}
use netauto.Application.DataTypes.Invariant.{
  IsSound, distinct_names, published_at, with_lineages, same_version,
}

module _ (f : DataType → DataType) (id : ℕ) (db : Database) where
  abbrev updated_lineage : Database
  updated_lineage = with_lineages db (update_where (has_id id) f db.datatypes)

  get_lineage-updated :
      (j : ℕ)
      → KeepsId f
      → Store.get_lineage j updated_lineage
        ≡ (if id == j then map_option f (Store.get_lineage j db) else Store.get_lineage j db)
  unfolding Store.get_lineage
  get_lineage-updated j k = find-update_lineage f id j db.datatypes k

  has_name-updated :
      (namespace name : Text) (x : DataType)
      → ((f x).namespace ≡ x.namespace) × ((f x).name ≡ x.name)
      → has_name namespace name (f x) ≡ has_name namespace name x
  has_name-updated namespace name x k = rw (k.0, k.1) refl

  names-updated :
      (ls : List DataType)
      → ((x : DataType) → ((f x).namespace ≡ x.namespace) × ((f x).name ≡ x.name))
      → distinct_names (update_where (has_id id) f ls) ≡ distinct_names ls
  unfolding update_where
  names-updated [] k = refl
  names-updated (l ∷ ls) k =
      let tests =
        any-update_name (has_name l.namespace l.name) f id ls
          (λ x. has_name-updated l.namespace l.name x (k x)) in
      elim (Bool-cases (has_id id l)) [
        | inl t ↦ rw t (rw ((k l).0, (k l).1) (rw (tests, names-updated ls k) refl))
        | inr t ↦ rw t (rw (tests, names-updated ls k) refl)
      ]

  -- An update of a lineage that keeps its id and its name, and whose default, if it has one, is a
  -- PUBLISHED version or the old default, keeps the invariant.
  pub update_lineage-IsSound :
      KeepsId f
      → ((x : DataType) → ((f x).namespace ≡ x.namespace) × ((f x).name ≡ x.name))
      → ((l : DataType) (w : ℕ)
          → (f l).default_version ≡ some w
          → (l.default_version ≡ some w) ⊎ (published_at id w db ≡ true))
      → IsSound db
      → IsSound updated_lineage
  update_lineage-IsSound k n p s = record {
    names = names-updated db.datatypes n ∙ s.names;
    default_published = λ j l w hl hw. elim (Option-cases (Store.get_lineage j db)) [
      | inl e ↦ ground (arith, get_lineage-updated j k)
      | inr (o, e) ↦ ground (
        arith,
        same_version j w db (update_where (has_id id) f db.datatypes),
        get_lineage-updated j k,
        s.default_published j o w e,
        p o w,
      )
    ];
    owned = λ j w x hx. ground (
      arith,
      get_lineage-updated j k,
      s.owned j w x,
      same_version j w db (update_where (has_id id) f db.datatypes),
    );
    positive = λ j w x hx. s.positive j w x (sym (same_version j w db _) ∙ hx);
  }

list_beq_comm : (a b : Text) → list_beq a b ≡ list_beq b a
list_beq_comm a b = ground (arith, list_beq_iff a b, list_beq_iff b a)

names-append :
    (y : DataType) (ls : List DataType)
    → any (has_name y.namespace y.name) ls ≡ false
    → distinct_names ls ≡ true
    → distinct_names (ls ++ y ∷ []) ≡ true
unfolding any
names-append y [] h d = refl
names-append y (l ∷ ls) h d = ground (
  arith,
  names-append y ls,
  any-append (has_name l.namespace l.name) ls (y ∷ []),
  list_beq_comm l.namespace y.namespace,
  list_beq_comm l.name y.name,
)

any-keep {ℓ} :
    {A : Type ℓ} (p q : A → Bool) (xs : List A) → any p xs ≡ false → any p (keep q xs) ≡ false
unfolding any keep
any-keep p q [] h = refl
any-keep p q (x ∷ xs) h = ground (arith, any-keep p q xs)

names-keep :
    (q : DataType → Bool) (ls : List DataType)
    → distinct_names ls ≡ true
    → distinct_names (keep q ls) ≡ true
unfolding keep
names-keep q [] d = refl
names-keep q (l ∷ ls) d =
    ground (arith, names-keep q ls, any-keep (has_name l.namespace l.name) q ls)

module _ (y : DataType) (db : Database) where
  abbrev extended_lineages : Database
  extended_lineages = with_lineages db (db.datatypes ++ y ∷ [])

  get_lineage-extended :
      (j : ℕ)
      → any (has_id y.id) db.datatypes ≡ false
      → Store.get_lineage j extended_lineages
        ≡ (if y.id == j then some y else Store.get_lineage j db)
  unfolding Store.get_lineage
  get_lineage-extended j h = find-append_lineage y j db.datatypes h

  -- A new lineage with a new id and a new name and no default keeps the invariant.
  pub insert_lineage-IsSound :
      any (has_id y.id) db.datatypes ≡ false
      → any (has_name y.namespace y.name) db.datatypes ≡ false
      → y.default_version ≡ none
      → IsSound db
      → IsSound extended_lineages
  insert_lineage-IsSound h n d s = record {
    names = names-append y db.datatypes n s.names;
    default_published = λ j l w hl hw. ground (
      arith,
      same_version j w db (db.datatypes ++ y ∷ []),
      get_lineage-extended j h,
      s.default_published j l w,
    );
    owned = λ j w x hx. ground (
      arith,
      get_lineage-extended j h,
      s.owned j w x,
      same_version j w db (db.datatypes ++ y ∷ []),
    );
    positive = λ j w x hx. s.positive j w x (sym (same_version j w db _) ∙ hx);
  }

-- A lineage and its versions removed together.
module _ (id : ℕ) (db : Database) where
  abbrev pub without_lineage : Database
  without_lineage = record db {
    datatypes = keep (λ l. not (has_id id l)) db.datatypes;
    datatype_versions = keep (λ v. not (v.datatype_id == id)) db.datatype_versions;
  }

  pub get_lineage-removed :
      (j : ℕ)
      → Store.get_lineage j without_lineage ≡ (if id == j then none else Store.get_lineage j db)
  unfolding Store.get_lineage
  get_lineage-removed j = find-drop_lineage id j db.datatypes

  pub get_version-removed :
      (j w : ℕ)
      → Store.get_version j w without_lineage ≡ (if id == j then none else Store.get_version j w db)
  unfolding Store.get_version
  get_version-removed j w = find-drop_versions id j w db.datatype_versions

  pub delete_lineage-IsSound : IsSound db → IsSound without_lineage
  delete_lineage-IsSound s = record {
    names = names-keep (λ l. not (has_id id l)) db.datatypes s.names;
    default_published = λ j l w hl hw.
        ground (arith, get_lineage-removed j, get_version-removed j w, s.default_published j l w);
    owned =
        λ j w x hx. ground (arith, get_lineage-removed j, get_version-removed j w, s.owned j w x);
    positive = λ j w x hx. ground (arith, get_version-removed j w, s.positive j w x);
  }
