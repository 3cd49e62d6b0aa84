-- ===== src/Persistence/Locking/Plan.antt =====
-- `LockPlan` and its acquisition, src/netauto/persistence/locking.py. A database connection is its
-- `info` entry for the lock phase, with the list of the locks that were requested on it, in order;
-- whether a planned row exists is PostgreSQL's answer to the row-lock statement, a parameter.
pub mod Phases
pub mod Once
use netauto.Prelude.{
  ℕ, Bool, true, false, not, ◌&&◌, ◌||◌, Option, none, some, List, [], ◌∷◌, ◌++◌, if◌then◌else◌,
  ◌==◌, ℕ_eq, list_eq, option_eq, Result, ok, ◌>>=◌, ◌>>◌, guard,
}
use netauto.Persistence.Locking.Keys.{
  LockError, phase_error, plan_stale, AdvisoryGate, RowLockKey, RowLockIntent, RowLockMode,
  mode_value, key_beq,
}
use netauto.Persistence.Locking.Ancestry.{Parents}
use netauto.Persistence.Locking.Canonical.{canonical_intents}

pub data Phase : Type 0 where
  planned acquiring acquired dml : Phase

pub data LockRequest : Type 0 where
  gate_lock : AdvisoryGate → LockRequest
  row_lock : RowLockIntent → LockRequest

pub record Connection : Type 0 where
  pub phase : Option Phase
  pub requests : List LockRequest

pub record LockPlan : Type 0 where
  pub gate : Option AdvisoryGate
  pub rows : List RowLockIntent
  pub parents : Parents
  pub phase : Phase
  pub bound : Bool

unfoldable pub is_planned : Phase → Bool
is_planned planned = true
is_planned _ = false

unfoldable pub is_acquiring : Phase → Bool
is_acquiring acquiring = true
is_acquiring _ = false

unfoldable pub is_acquired : Phase → Bool
is_acquired acquired = true
is_acquired _ = false

unfoldable pub is_dml : Phase → Bool
is_dml dml = true
is_dml _ = false

-- `connection.info.get(_LOCK_PHASE_INFO_KEY, PLANNED)`
unfoldable pub connection_phase : Connection → Phase
connection_phase c = elim c.phase [ none ↦ planned | some p ↦ p ]

unfoldable pub reset_uow_lock_phase : Connection → Connection
reset_uow_lock_phase c = record c { phase = some planned }

unfoldable pub clear_uow_lock_phase : Connection → Connection
clear_uow_lock_phase c = record c { phase = none }

-- `LockPlan(intents=..., gate=..., object_template_parent_by_id=...)`
unfoldable pub lock_plan :
    List RowLockIntent → Option AdvisoryGate → Parents → Result LockError LockPlan
lock_plan intents gate parents = do
  rows ← canonical_intents intents parents
  ok (record { gate = gate; rows = rows; parents = parents; phase = planned; bound = false })

unfoldable pub begin_acquisition : LockPlan → Connection → Result LockError (LockPlan × Connection)
unfolding is_planned connection_phase
begin_acquisition plan c = do
  guard (is_planned plan.phase) phase_error
  guard (is_planned (connection_phase c)) phase_error
  ok (record plan { phase = acquiring; bound = true }, record c { phase = some acquiring })

unfoldable pub finish_acquisition : LockPlan → Connection → Result LockError (LockPlan × Connection)
unfolding is_acquiring
finish_acquisition plan c = do
  guard (is_acquiring plan.phase) phase_error
  ok (
    record plan { phase = acquired },
    if plan.bound then record c { phase = some acquired } else c,
  )

unfoldable pub begin_dml : LockPlan → Connection → Result LockError (LockPlan × Connection)
unfolding is_acquired
begin_dml plan c = do
  guard (is_acquired plan.phase) phase_error
  ok (record plan { phase = dml }, if plan.bound then record c { phase = some dml } else c)

-- equality of two tuples of intents, and of two optional gates
unfoldable pub same_rows : List RowLockIntent → List RowLockIntent → Bool
unfolding key_beq mode_value
same_rows [] [] = true
same_rows (i ∷ is) (j ∷ js) =
    key_beq i.key j.key && (mode_value i.mode == mode_value j.mode && same_rows is js)
same_rows _ _ = false

unfoldable pub gate_number : Option AdvisoryGate → ℕ
gate_number none = 0
gate_number (some AdvisoryGate.ownership_graph_write_gate) = 0x4E45544100000001
gate_number (some AdvisoryGate.relationship_definition_conflict_gate) = 0x4E45544100000002
gate_number (some AdvisoryGate.model_root_delete_gate) = 0x4E45544100000003

unfoldable pub require_same_plan :
    LockPlan → List RowLockIntent → Option AdvisoryGate → Result LockError (Unit {0})
unfolding is_dml canonical_intents gate_number same_rows
require_same_plan plan intents gate = do
  guard (not (is_dml plan.phase)) phase_error
  candidate ← canonical_intents intents plan.parents
  guard (gate_number gate == gate_number plan.gate && same_rows candidate plan.rows) plan_stale

unfoldable pub acquire_advisory_gate : Connection → AdvisoryGate → Result LockError Connection
unfolding connection_phase is_acquired is_dml is_planned
acquire_advisory_gate c gate = do
  let phase = connection_phase c
  guard (not (is_acquired phase || is_dml phase)) phase_error
  let locked = c.requests ++ gate_lock gate ∷ []
  ok (record { phase = if is_planned phase then some acquired else c.phase; requests = locked })

-- the loop over `plan.rows`
module _ (row_exists : RowLockKey → Bool) where
  unfoldable pub lock_rows : List RowLockIntent → Connection → List RowLockKey × Connection
  lock_rows [] c = ([], c)
  lock_rows (i ∷ is) c =
      let (missing, c') = lock_rows is (record c { requests = c.requests ++ row_lock i ∷ [] }) in
      (if row_exists i.key then missing else i.key ∷ missing, c')

  unfoldable pub acquire_lock_plan :
      Connection → LockPlan → Result LockError (List RowLockKey × LockPlan × Connection)
  unfolding begin_acquisition acquire_advisory_gate lock_rows finish_acquisition
  acquire_lock_plan c plan = do
    (begun, c₁) ← begin_acquisition plan c
    c₂ ← elim begun.gate [ none ↦ ok c₁ | some gate ↦ acquire_advisory_gate c₁ gate ]
    let (missing, c₃) = lock_rows begun.rows c₂
    (done, c₄) ← finish_acquisition begun c₃
    ok (missing, done, c₄)
