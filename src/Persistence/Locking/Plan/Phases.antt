-- ===== src/Persistence/Locking/Plan/Phases.antt =====
-- `acquire_lock_plan` of src/netauto/persistence/locking.py, by the phases of the plan and of the
-- connection.
use netauto.Prelude.{
  ◌≡◌, Bool, true, ◌&&◌, Option, none, some, List, [], ◌∷◌, ◌++◌, map, arith, if◌then◌else◌, ok,
  err,
}
use mathlib.Core.List.{append-nil, append_assoc}
use netauto.Persistence.Locking.Keys.{phase_error, AdvisoryGate, RowLockKey, RowLockIntent}
use netauto.Persistence.Locking.Plan.{
  acquired, acquiring, LockRequest, gate_lock, row_lock, Connection, LockPlan, is_planned,
  connection_phase, lock_rows, acquire_lock_plan,
}

abbrev pub gate_requests : Option AdvisoryGate → List LockRequest
gate_requests none = []
gate_requests (some g) = gate_lock g ∷ []

module _ (row_exists : RowLockKey → Bool) where
  -- the keys of the planned rows that do not exist, in plan order
  abbrev pub missing_keys : List RowLockIntent → List RowLockKey
  missing_keys [] = []
  missing_keys (i ∷ is) = if row_exists i.key then missing_keys is else i.key ∷ missing_keys is

  lock_rows_lem :
      (is : List RowLockIntent) (c : Connection)
      → lock_rows row_exists is c
        ≡ (missing_keys is, record c { requests = c.requests ++ map row_lock is })
  unfolding lock_rows
  lock_rows_lem [] c = simp append-nil
  lock_rows_lem (i ∷ is) c =
      rw (lock_rows_lem is (record c { requests = c.requests ++ row_lock i ∷ [] }))
        (simp append_assoc)

  -- On a fresh plan and a connection that has acquired nothing, acquisition locks the gate and then
  -- every planned row, in plan order, reports exactly the planned rows that do not exist, and leaves
  -- plan and connection acquired. In any other phase of either it raises a phase error.
  pub acquire_lock_plan_lem :
      (c : Connection) (plan : LockPlan)
      → acquire_lock_plan row_exists c plan ≡ (
          if is_planned plan.phase && is_planned (connection_phase c)
          then ok (
            missing_keys plan.rows,
            record plan { phase = acquired; bound = true },
            record {
              phase = some acquired;
              requests = (c.requests ++ gate_requests plan.gate) ++ map row_lock plan.rows;
            },
          )
          else err phase_error)
  unfolding acquire_lock_plan
  acquire_lock_plan_lem c plan = ground (
    arith,
    lock_rows_lem plan.rows (record { phase = some acquiring; requests = c.requests }),
    lock_rows_lem plan.rows
        (record { phase = some acquiring; requests = c.requests ++ gate_requests plan.gate }),
    append-nil c.requests,
  )
