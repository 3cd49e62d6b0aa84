-- ===== src/Persistence/Locking/Plan/Once.antt =====
-- The connection after `acquire_lock_plan` of src/netauto/persistence/locking.py.
use netauto.Prelude.{◌≡◌, refl, Bool, true, some, List, arith, ok, err}
use netauto.Persistence.Locking.Keys.{phase_error, AdvisoryGate, RowLockKey}
use netauto.Persistence.Locking.Plan.{
  acquired, dml, Connection, LockPlan, is_planned, is_acquired, is_dml, connection_phase,
  acquire_lock_plan, acquire_advisory_gate, begin_dml,
}
use netauto.Persistence.Locking.Plan.Phases.{acquire_lock_plan_lem}

-- No plan and no gate can be acquired on the connection, whatever rows there are.
abbrev pub IsClosed : Connection → Type 0
IsClosed c =
    ((row_exists : RowLockKey → Bool) (plan : LockPlan)
      → acquire_lock_plan row_exists c plan ≡ err phase_error)
    × ((gate : AdvisoryGate) → acquire_advisory_gate c gate ≡ err phase_error)

IsClosed-acquired : (c : Connection) → c.phase ≡ some acquired → IsClosed c
unfolding acquire_advisory_gate connection_phase is_planned is_acquired
IsClosed-acquired c h =
    (λ row_exists plan. rw acquire_lock_plan_lem (ground arith), λ gate. ground arith)

IsClosed-dml : (c : Connection) → c.phase ≡ some dml → IsClosed c
unfolding acquire_advisory_gate connection_phase is_planned is_acquired is_dml
IsClosed-dml c h =
    (λ row_exists plan. rw acquire_lock_plan_lem (ground arith), λ gate. ground arith)

after_acquisition :
    (row_exists : RowLockKey → Bool) (c c' : Connection) (plan plan' : LockPlan)
    (missing : List RowLockKey)
    → acquire_lock_plan row_exists c plan ≡ ok (missing, plan', c')
    → (plan'.phase ≡ acquired) × (plan'.bound ≡ true) × (c'.phase ≡ some acquired)
after_acquisition row_exists c c' plan plan' missing h =
    let all_branches = acquire_lock_plan_lem row_exists c plan in
    (ground arith, ground arith, ground arith)

-- Once a plan is acquired on a connection, no other plan and no gate can be acquired on it. DML on
-- the plan can begin, which requests no lock, and after that too no plan and no gate can be acquired.
pub one_acquisition :
    (row_exists : RowLockKey → Bool) (c c' : Connection) (plan plan' : LockPlan)
    (missing : List RowLockKey)
    → acquire_lock_plan row_exists c plan ≡ ok (missing, plan', c')
    → IsClosed c'
      × ((plan'' : LockPlan) × (c'' : Connection) × (begin_dml plan' c' ≡ ok (plan'', c''))
          × (c''.requests ≡ c'.requests)
          × IsClosed c'')
unfolding begin_dml is_acquired
one_acquisition row_exists c c' plan plan' missing h =
    let after = after_acquisition row_exists c c' plan plan' missing h in
    (
      IsClosed-acquired c' after.2,
      (
        record plan' { phase = dml },
        record c' { phase = some dml },
        ground (arith, after.0, after.1),
        refl,
        IsClosed-dml (record c' { phase = some dml }) refl,
      ),
    )
