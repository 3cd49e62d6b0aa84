-- ===== src/Persistence/Locking/Keys.antt =====
-- The identities of src/netauto/persistence/locking.py: lock modes, row classes with their ranks,
-- row keys and intents. The field `reason` of an intent takes no part in its equality and is read
-- by no code, so it is left out; a version is a natural number.
use netauto.Prelude.{
  ℕ, ◌≡◌, ◌↔◌, Bool, true, false, not, ◌&&◌, Option, none, some, arith, ltb, is_some, Uuid, HasEq,
  ◌==◌, ℕ_eq, option_beq, option_beq_iff, list_eq, option_eq, Result, ok, err,
}

pub data LockError : Type 0 where
  version_required positive_version_required : LockError
  ancestry_missing ancestry_cycle lineage_missing : LockError
  phase_error plan_stale attempts_exhausted : LockError
  loaded_unstable loaded_parent_missing loaded_cycle key_error : LockError
  out_of_fuel : LockError

pub data AdvisoryGate : Type 0 where
  ownership_graph_write_gate relationship_definition_conflict_gate : AdvisoryGate
  model_root_delete_gate : AdvisoryGate

pub data RowLockMode : Type 0 where
  ks s nku u : RowLockMode

unfoldable pub mode_value : RowLockMode → ℕ
mode_value ks = 1
mode_value s = 2
mode_value nku = 3
mode_value u = 4

pub data RowLockClass : Type 0 where
  object_template_header object_template_version : RowLockClass
  data_type_header data_type_version : RowLockClass
  relationship_definition_header relationship_definition_version : RowLockClass
  object relationship : RowLockClass

unfoldable pub class_value : RowLockClass → ℕ
class_value object_template_header = 10
class_value object_template_version = 11
class_value data_type_header = 20
class_value data_type_version = 21
class_value relationship_definition_header = 30
class_value relationship_definition_version = 31
class_value object = 40
class_value relationship = 50

unfoldable pub family_rank : RowLockClass → ℕ
unfolding class_value
family_rank object_template_header = 10
family_rank object_template_version = 10
family_rank data_type_header = 20
family_rank data_type_version = 20
family_rank relationship_definition_header = 30
family_rank relationship_definition_version = 30
family_rank c = class_value c

unfoldable pub resource_rank : RowLockClass → ℕ
resource_rank object_template_version = 1
resource_rank data_type_version = 1
resource_rank relationship_definition_version = 1
resource_rank _ = 0

-- the set of exact-version classes in `RowLockKey.__post_init__`
unfoldable pub is_version_class : RowLockClass → Bool
is_version_class object_template_version = true
is_version_class data_type_version = true
is_version_class relationship_definition_version = true
is_version_class _ = false

-- the set of ObjectTemplate classes in `_canonical_intents` and `prepare_lock_plan`
unfoldable pub is_object_template_class : RowLockClass → Bool
is_object_template_class object_template_header = true
is_object_template_class object_template_version = true
is_object_template_class _ = false

pub record RowLockKey : Type 0 where
  pub row_class : RowLockClass
  pub resource_id : Uuid
  pub version : Option ℕ

unfoldable pub below_one : Option ℕ → Bool
below_one none = false
below_one (some v) = ltb v 1

-- `RowLockKey(...)` with its `__post_init__`
unfoldable pub row_lock_key : RowLockClass → Uuid → Option ℕ → Result LockError RowLockKey
unfolding is_version_class below_one
row_lock_key row_class resource_id version =
    elim (bool_eq (is_version_class row_class) (is_some version)) [
      | false ↦ err version_required
      | true ↦ elim (below_one version) [
        | true ↦ err positive_version_required
        | false ↦
            ok (record { row_class = row_class; resource_id = resource_id; version = version })
      ]
    ]
  where
    bool_eq : Bool → Bool → Bool
    bool_eq true b = b
    bool_eq false b = not b

unfoldable pub class_beq : RowLockClass → RowLockClass → Bool
unfolding class_value
class_beq a b = class_value a == class_value b

pub class_beq_iff : (a b : RowLockClass) → (class_beq a b ≡ true) ↔ (a ≡ b)
unfolding class_beq
class_beq_iff a b = (λ h. ground arith, λ h. ground arith)

-- equality of the frozen dataclass
unfoldable pub key_beq : RowLockKey → RowLockKey → Bool
key_beq a b =
    class_beq a.row_class b.row_class
    && (a.resource_id == b.resource_id && option_beq a.version b.version)

pub key_beq_iff : (a b : RowLockKey) → (key_beq a b ≡ true) ↔ (a ≡ b)
unfolding key_beq
key_beq_iff a b = (
  λ h. ground (arith, class_beq_iff a.row_class b.row_class, option_beq_iff a.version b.version),
  λ h. ground (arith, class_beq_iff a.row_class b.row_class, option_beq_iff a.version b.version),
)

instance abbrev pub key_eq : HasEq RowLockKey
key_eq = record { same = key_beq; same_iff = key_beq_iff }

pub record RowLockIntent : Type 0 where
  pub key : RowLockKey
  pub mode : RowLockMode
