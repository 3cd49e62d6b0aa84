-- ===== src/Persistence/UnitOfWork.antt =====
-- `UnitOfWork` of src/netauto/persistence/uow.py: one connection with one transaction. The session
-- holds the committed rows, the rows as the transaction sees them, whether the transaction is
-- active, and the connection's lock phase. One transaction is modelled at a time: what another one
-- commits in between is what the row locks keep out.
pub mod Atomic
use netauto.Prelude.{Bool, true, false, none, [], if◌then◌else◌, Result, ok, err}
use netauto.Failures.{Failure, lock, no_active_transaction}
use netauto.Persistence.Database.{Database}
use netauto.Persistence.Locking.Keys.{LockError}
use netauto.Persistence.Locking.Plan.{
  Connection, LockPlan, reset_uow_lock_phase, clear_uow_lock_phase,
}
use netauto.Persistence.Locking.Plan

pub record Session : Type 0 where
  pub committed : Database
  pub working : Database
  pub active : Bool
  pub connection : Connection

abbrev pub Tx {ℓ} : Type ℓ → Type ℓ
Tx A = Session → Result Failure A × Session

module _ {ℓ} {A : Type ℓ} where
  unfoldable pub pure : A → Tx A
  pure a s = (ok a, s)

  unfoldable pub raise : Failure → Tx A
  raise e s = (err e, s)

  -- a query, or a statement that changes rows and may violate a constraint
  unfoldable pub execute : (Database → Result Failure (A × Database)) → Tx A
  execute f s = elim (f s.working) [
    | ok (a, db) ↦ (ok a, record s { working = db })
    | err e ↦ (err e, s)
  ]

  unfoldable pub query : (Database → A) → Tx A
  query f s = (ok (f s.working), s)

module _ {ℓ κ} {A : Type ℓ} {B : Type κ} where
  unfoldable pub continue :
      Result Failure A
      → (A → Session → Result Failure B × Session)
      → Session
      → Result Failure B × Session
  continue (ok a) f s = f a s
  continue (err e) f s = (err e, s)

  infixl 5 ◌>>=◌
  unfoldable pub ◌>>=◌ :
      (Session → Result Failure A × Session)
      → (A → Session → Result Failure B × Session)
      → Session
      → Result Failure B × Session
  unfolding continue
  ◌>>=◌ m f s = let (r, s') = m s in continue r f s'

infixl 5 ◌>>◌
abbrev pub ◌>>◌ {ℓ} : {B : Type ℓ} → Tx (Unit {0}) → Tx B → Tx B
m >> k = m >>= λ _. k

-- `if not test: raise ...`
abbrev pub require : Bool → Failure → Tx (Unit {0})
require b e = if b then pure tt else raise e

-- `async with uow_factory() as uow:` with the handlers of `__aenter__` and `__aexit__`: the block
-- runs on a fresh transaction, and one that is still active when the block is left is rolled back.
unfoldable pub commit : Tx (Unit {0})
commit s =
    if s.active
    then (ok tt, record s { committed = s.working; active = false })
    else (err no_active_transaction, s)

abbrev pub enter : Database → Session
enter db = record {
  committed = db;
  working = db;
  active = true;
  connection = reset_uow_lock_phase (record { phase = none; requests = [] });
}

unfoldable pub exit : Session → Session
unfolding clear_uow_lock_phase
exit s = record {
  committed = s.committed;
  working = s.committed;
  active = false;
  connection = clear_uow_lock_phase s.connection;
}

unfoldable pub in_unit_of_work {ℓ} : {A : Type ℓ} → Tx A → Database → Result Failure A × Database
unfolding exit reset_uow_lock_phase
in_unit_of_work m db = let (r, s) = m (enter db) in (r, (exit s).committed)
