-- ===== src/Persistence/Locking/Coalesce/Strongest.antt =====
-- The modes that `_coalesce` of src/netauto/persistence/locking.py keeps.
use netauto.Prelude.{
  ℕ, max, ◌≡◌, refl, Bool, true, not, ◌&&◌, ◌||◌, List, [], ◌∷◌, arith, if◌then◌else◌, any,
}
use netauto.Persistence.Locking.Keys.{RowLockKey, RowLockIntent, mode_value, key_beq, key_beq_iff}
use netauto.Persistence.Locking.Coalesce.{upsert, coalesce_into, coalesce}

-- The strongest mode that a list of intents asks for the row, 0 if it does not name the row.
abbrev pub strongest : RowLockKey → List RowLockIntent → ℕ
strongest k [] = 0
strongest k (i ∷ is) = max (if key_beq i.key k then mode_value i.mode else 0) (strongest k is)

abbrev pub has_key : RowLockKey → List RowLockIntent → Bool
has_key k is = any (λ i. key_beq i.key k) is

-- No row stands twice.
abbrev pub distinct_keys : List RowLockIntent → Bool
distinct_keys [] = true
distinct_keys (i ∷ is) = not (has_key i.key is) && distinct_keys is

strongest-upsert :
    (k : RowLockKey) (i : RowLockIntent) (is : List RowLockIntent)
    → strongest k (upsert i is)
      ≡ max (strongest k is) (if key_beq i.key k then mode_value i.mode else 0)
unfolding upsert
strongest-upsert k i [] = omega arith
strongest-upsert k i (c ∷ is) = ground (
  arith,
  strongest-upsert k i is,
  key_beq_iff c.key i.key,
  key_beq_iff c.key k,
  key_beq_iff i.key k,
)

strongest-coalesce_into :
    (k : RowLockKey) (acc is : List RowLockIntent)
    → strongest k (coalesce_into acc is) ≡ max (strongest k acc) (strongest k is)
unfolding coalesce_into
strongest-coalesce_into k acc [] = omega arith
strongest-coalesce_into k acc (i ∷ is) =
    rw (strongest-coalesce_into k (upsert i acc) is) (rw (strongest-upsert k i acc) (omega arith))

has_key-upsert :
    (k : RowLockKey) (i : RowLockIntent) (is : List RowLockIntent)
    → has_key k (upsert i is) ≡ (has_key k is || key_beq i.key k)
unfolding upsert any
has_key-upsert k i [] = ground arith
has_key-upsert k i (c ∷ is) = ground (
  arith,
  has_key-upsert k i is,
  key_beq_iff c.key i.key,
  key_beq_iff c.key k,
  key_beq_iff i.key k,
)

distinct_keys-upsert :
    (i : RowLockIntent) (is : List RowLockIntent)
    → distinct_keys is ≡ true
    → distinct_keys (upsert i is) ≡ true
unfolding upsert any
distinct_keys-upsert i [] h = refl
distinct_keys-upsert i (c ∷ is) h = ground (
  arith,
  distinct_keys-upsert i is,
  has_key-upsert c.key i is,
  key_beq_iff c.key i.key,
  key_beq_iff i.key c.key,
)

distinct_keys-coalesce_into :
    (acc is : List RowLockIntent)
    → distinct_keys acc ≡ true
    → distinct_keys (coalesce_into acc is) ≡ true
unfolding coalesce_into
distinct_keys-coalesce_into acc [] h = h
distinct_keys-coalesce_into acc (i ∷ is) h =
    distinct_keys-coalesce_into (upsert i acc) is (distinct_keys-upsert i acc h)

-- Coalescing leaves one intent for each row, and for every row exactly the strongest mode that the
-- requested intents ask for it: none is lost, weakened or added.
pub coalesce-strongest :
    (intents : List RowLockIntent)
    → (distinct_keys (coalesce intents) ≡ true)
      × ((k : RowLockKey) → strongest k (coalesce intents) ≡ strongest k intents)
unfolding coalesce
coalesce-strongest intents = (
  distinct_keys-coalesce_into [] intents refl,
  λ k. omega (arith, strongest-coalesce_into k [] intents),
)
