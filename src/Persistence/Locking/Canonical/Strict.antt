-- ===== src/Persistence/Locking/Canonical/Strict.antt =====
-- The order of the rows that `_canonical_intents` of src/netauto/persistence/locking.py returns.
use netauto.Prelude.{
  ℕ, ◌≡◌, refl, sym, ap, subst, ◌∙◌, inl, inr, true, false, not, ◌&&◌, ◌||◌, List, [], ◌∷◌, arith,
  Bool-cases, Uuid, any, All, ok, ◌>>=◌, Result-cases,
}
use netauto.Prelude.Sort.{
  lex_lt, sort_by, insert_sorted, any-insert_sorted, any-sort_by, IsSorted, All-sort_by,
  sort_by-IsSorted,
}
use netauto.Persistence.Locking.Keys.{
  RowLockKey, RowLockIntent, RowLockClass, row_lock_key, key_beq, key_beq_iff, family_rank,
  resource_rank,
}
use netauto.Persistence.Locking.Coalesce.Strongest.{
  has_key, distinct_keys, strongest, coalesce-strongest,
}
use netauto.Persistence.Locking.Canonical.{
  version_or_zero, sort_key, canonical_intents, lineage_order, planned_lineages,
}
use netauto.Persistence.Locking.Coalesce.{upsert, coalesce_into, coalesce}
use netauto.Persistence.Locking.Ancestry.{Parents}

lex_lt_total : (xs ys : List ℕ) → lex_lt xs ys ≡ false → lex_lt ys xs ≡ false → xs ≡ ys
unfolding lex_lt
lex_lt_total [] [] h k = refl
lex_lt_total [] (y ∷ ys) h k = cc
lex_lt_total (x ∷ xs) [] h k = cc
lex_lt_total (x ∷ xs) (y ∷ ys) h k = ground (arith, lex_lt_total xs ys)

-- The key is one that `RowLockKey(...)` accepts.
abbrev pub IsMade : RowLockIntent → Type 0
IsMade i = row_lock_key i.key.row_class i.key.resource_id i.key.version ≡ ok i.key

-- Each row stands before the next, and none twice.
abbrev pub IsStrict : List Uuid → List RowLockIntent → Type 0
IsStrict order [] = Unit
IsStrict order (x ∷ xs) =
    All (λ y. lex_lt (sort_key order x) (sort_key order y) ≡ true) xs × IsStrict order xs

ranks_injective :
    (a b : RowLockClass) → family_rank a ≡ family_rank b → resource_rank a ≡ resource_rank b → a ≡ b
unfolding family_rank resource_rank
ranks_injective a b h k = ground arith

-- Of two keys with one class, that both have a version or both have none, a version is not 0.
versions_injective :
    (i j : RowLockIntent)
    → IsMade i
    → IsMade j
    → i.key.row_class ≡ j.key.row_class
    → version_or_zero i.key.version ≡ version_or_zero j.key.version
    → i.key.version ≡ j.key.version
unfolding row_lock_key version_or_zero
versions_injective i j vi vj h k = ground arith

sort_key_parts :
    (order : List Uuid) (i j : RowLockIntent)
    → sort_key order i ≡ sort_key order j
    → (family_rank i.key.row_class ≡ family_rank j.key.row_class)
      × (resource_rank i.key.row_class ≡ resource_rank j.key.row_class)
      × (version_or_zero i.key.version ≡ version_or_zero j.key.version)
      × (i.key.resource_id ≡ j.key.resource_id)
unfolding sort_key
sort_key_parts order i j h = ground arith

-- Two keys with one sort key are the same.
sort_key_injective :
    (order : List Uuid) (i j : RowLockIntent)
    → IsMade i
    → IsMade j
    → sort_key order i ≡ sort_key order j
    → i.key ≡ j.key
sort_key_injective order i j vi vj h =
    let parts = sort_key_parts order i j h in
    let same = ranks_injective i.key.row_class j.key.row_class parts.0 parts.1 in
    ground (arith, same, parts.3, versions_injective i j vi vj same parts.2)

module _ (order : List Uuid) where
  has_key-insert_sorted :
      (k : RowLockKey) (a : RowLockIntent) (xs : List RowLockIntent)
      → has_key k (insert_sorted (sort_key order) a xs) ≡ (key_beq a.key k || has_key k xs)
  has_key-insert_sorted k a xs = any-insert_sorted (sort_key order) (λ i. key_beq i.key k) a xs

  distinct-insert_sorted :
      (a : RowLockIntent) (xs : List RowLockIntent)
      → distinct_keys (insert_sorted (sort_key order) a xs)
        ≡ (not (has_key a.key xs) && distinct_keys xs)
  unfolding insert_sorted any
  distinct-insert_sorted a [] = refl
  distinct-insert_sorted a (x ∷ xs) = ground (
    arith,
    distinct-insert_sorted a xs,
    has_key-insert_sorted x.key a xs,
    key_beq_iff a.key x.key,
    key_beq_iff x.key a.key,
  )

  distinct-sort_by :
      (xs : List RowLockIntent) → distinct_keys (sort_by (sort_key order) xs) ≡ distinct_keys xs
  unfolding sort_by
  distinct-sort_by [] = refl
  distinct-sort_by (x ∷ xs) = ground (
    arith,
    distinct-insert_sorted x (sort_by (sort_key order) xs),
    distinct-sort_by xs,
    any-sort_by (sort_key order) (λ i. key_beq i.key x.key) xs,
  )

  strongest-insert_sorted :
      (k : RowLockKey) (a : RowLockIntent) (xs : List RowLockIntent)
      → strongest k (insert_sorted (sort_key order) a xs) ≡ strongest k (a ∷ xs)
  unfolding insert_sorted
  strongest-insert_sorted k a [] = refl
  strongest-insert_sorted k a (x ∷ xs) = ground (arith, strongest-insert_sorted k a xs)

  strongest-sort_by :
      (k : RowLockKey) (xs : List RowLockIntent)
      → strongest k (sort_by (sort_key order) xs) ≡ strongest k xs
  unfolding sort_by
  strongest-sort_by k [] = refl
  strongest-sort_by k (x ∷ xs) =
      ground
        (arith, strongest-insert_sorted k x (sort_by (sort_key order) xs), strongest-sort_by k xs)

  strict_above :
      (x : RowLockIntent) (xs : List RowLockIntent)
      → IsMade x
      → All IsMade xs
      → has_key x.key xs ≡ false
      → All (λ y. lex_lt (sort_key order y) (sort_key order x) ≡ false) xs
      → All (λ y. lex_lt (sort_key order x) (sort_key order y) ≡ true) xs
  unfolding any
  strict_above x [] vx v d s = tt
  strict_above x (y ∷ ys) vx v d s = (
    elim (Bool-cases (lex_lt (sort_key order x) (sort_key order y))) [
      | inl t ↦ t
      | inr f ↦ absurd (
          differ (
            sort_key_injective order y x v.0 vx
              (lex_lt_total (sort_key order y) (sort_key order x) s.0 f)))
    ],
    strict_above x ys vx v.1 (ground arith) s.1,
  )
    where
      differ : y.key ≡ x.key → ⊥
      differ e = ground (arith, key_beq_iff y.key x.key)

  IsSorted-IsStrict :
      (xs : List RowLockIntent)
      → All IsMade xs
      → distinct_keys xs ≡ true
      → IsSorted (sort_key order) xs
      → IsStrict order xs
  IsSorted-IsStrict [] v d s = tt
  IsSorted-IsStrict (x ∷ xs) v d s =
      (strict_above x xs v.0 v.1 (ground arith) s.0, IsSorted-IsStrict xs v.1 (ground arith) s.1)

All-upsert :
    (i : RowLockIntent) (is : List RowLockIntent)
    → IsMade i
    → All IsMade is
    → All IsMade (upsert i is)
unfolding upsert
All-upsert i [] h k = (h, tt)
All-upsert i (c ∷ is) h k = ground (arith, All-upsert i is h k.1)

All-coalesce_into :
    (acc is : List RowLockIntent)
    → All IsMade acc
    → All IsMade is
    → All IsMade (coalesce_into acc is)
unfolding coalesce_into
All-coalesce_into acc [] h k = h
All-coalesce_into acc (i ∷ is) h k =
    All-coalesce_into (upsert i acc) is (All-upsert i acc k.0 h) k.1

-- the plan, in two steps
pub canonical_steps :
    (intents : List RowLockIntent) (parents : Parents)
    → canonical_intents intents parents ≡ (
        lineage_order (planned_lineages (coalesce intents)) parents >>= λ order.
        ok (sort_by (sort_key order) (coalesce intents)))
unfolding canonical_intents
canonical_steps intents parents = refl

coalesce-IsMade :
    (intents : List RowLockIntent) → All IsMade intents → All IsMade (coalesce intents)
unfolding coalesce
coalesce-IsMade intents made = All-coalesce_into [] intents tt made

pub sorted-IsStrict :
    (order : List Uuid) (intents : List RowLockIntent)
    → All IsMade intents
    → IsStrict order (sort_by (sort_key order) (coalesce intents))
sorted-IsStrict order intents made =
    IsSorted-IsStrict order (sort_by (sort_key order) (coalesce intents))
      (All-sort_by (sort_key order) IsMade (coalesce intents) (coalesce-IsMade intents made))
      (distinct-sort_by order (coalesce intents) ∙ (coalesce-strongest intents).0)
      (sort_by-IsSorted (sort_key order) (coalesce intents))

pub sorted_strongest :
    (order : List Uuid) (intents : List RowLockIntent) (k : RowLockKey)
    → strongest k (sort_by (sort_key order) (coalesce intents)) ≡ strongest k intents
sorted_strongest order intents k =
    strongest-sort_by order k (coalesce intents) ∙ (coalesce-strongest intents).1 k

-- A plan over keys that `RowLockKey` accepts lists its rows strictly ascending by the sort key for the
-- order of its own ObjectTemplate lineages that their ancestry gives, so none twice; and it asks for every row the strongest
-- mode that was requested, and for no other row.
pub canonical_ascends :
    (intents : List RowLockIntent) (parents : Parents) {rows : List RowLockIntent}
    → All IsMade intents
    → canonical_intents intents parents ≡ ok rows
    → (order : List Uuid) × (lineage_order (planned_lineages (coalesce intents)) parents ≡ ok order)
      × IsStrict order rows
      × ((k : RowLockKey) → strongest k rows ≡ strongest k intents)
canonical_ascends intents parents {rows} made h =
    elim (Result-cases (lineage_order (planned_lineages (coalesce intents)) parents)) [
      | inl (order, e) ↦
          let same : sort_by (sort_key order) (coalesce intents) ≡ rows =
            cc (h, rw e at (canonical_steps intents parents)) in
          (
            order,
            e,
            subst (IsStrict order) same (sorted-IsStrict order intents made),
            λ k. ap (strongest k) (sym same) ∙ sorted_strongest order intents k,
          )
      | inr (x, e) ↦ absurd (cc (h, rw e at (canonical_steps intents parents)))
    ]
