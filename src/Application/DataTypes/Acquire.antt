-- ===== src/Application/DataTypes/Acquire.antt =====
-- The lock plans of the DataType operations in a fresh unit of work.
use netauto.Prelude.{
  ℕ, suc, ◌≡◌, refl, true, false, Option, none, some, List, [], ◌∷◌, ◌++◌, map, arith, ok, err,
}
use netauto.Persistence.Locking.Keys.{
  RowLockKey, RowLockIntent, RowLockMode, AdvisoryGate, positive_version_required, key_beq, key_eq,
  class_beq,
}
use netauto.Persistence.Locking.Canonical.{canonical_intents}
use netauto.Persistence.Locking.Plan.{
  LockPlan, planned, acquired, row_lock, lock_plan, is_planned, connection_phase,
  reset_uow_lock_phase,
}
use netauto.Persistence.Locking.Plan.Phases.{gate_requests, acquire_lock_plan_lem}
use netauto.Persistence.Database.{Database}
use netauto.Persistence.DataTypes as Store
use netauto.Persistence.UnitOfWork.{Session, enter}
use netauto.Failures.{lock}
use netauto.Application.DataTypes.{
  acquire, prepare, row_exists, header, version, header_key, version_key,
}
use netauto.Prelude.Sort.{lex_lt}

canonical_pair :
    (id v : ℕ) (m n : RowLockMode)
    → canonical_intents (header id m ∷ version id v n ∷ []) []
      ≡ ok (header id m ∷ version id v n ∷ [])
unfolding canonical_intents key_beq class_beq lex_lt
canonical_pair id v m n = ground arith

canonical_header :
    (id : ℕ) (m : RowLockMode) → canonical_intents (header id m ∷ []) [] ≡ ok (header id m ∷ [])
unfolding canonical_intents key_beq
canonical_header id m = refl

abbrev planned_plan : Option AdvisoryGate → List RowLockIntent → LockPlan
planned_plan gate rows = record {
  gate = gate;
  rows = rows;
  parents = [];
  phase = planned;
  bound = false;
}

prepare_pair :
    (id v : ℕ) (m n : RowLockMode)
    → prepare (header id m ∷ version id (suc v) n ∷ []) none
      ≡ ok (planned_plan none (header id m ∷ version id (suc v) n ∷ []))
unfolding prepare lock_plan
prepare_pair id v m n = ground (arith, canonical_pair id (suc v) m n)

prepare-header :
    (id : ℕ) (m : RowLockMode) (gate : Option AdvisoryGate)
    → prepare (header id m ∷ []) gate ≡ ok (planned_plan gate (header id m ∷ []))
unfolding prepare lock_plan
prepare-header id m gate = ground (arith, canonical_header id m)

abbrev pub acquired_plan : Option AdvisoryGate → List RowLockIntent → LockPlan
acquired_plan gate rows = record {
  gate = gate;
  rows = rows;
  parents = [];
  phase = acquired;
  bound = true;
}

-- the session after the plan is acquired in a fresh unit of work
abbrev pub locked : Database → Option AdvisoryGate → List RowLockIntent → Session
locked db gate rows = record {
  committed = db;
  working = db;
  active = true;
  connection = record { phase = some acquired; requests = gate_requests gate ++ map row_lock rows };
}

-- the key of a row that is not there
abbrev pub if_absent {ℓ} : {A : Type ℓ} → Option A → RowLockKey → List RowLockKey
if_absent none k = k ∷ []
if_absent (some _) k = []

pub acquire_pair :
    (id v : ℕ) (m n : RowLockMode) (db : Database)
    → acquire (header id m ∷ version id (suc v) n ∷ []) none (enter db) ≡ (
      ok (
        acquired_plan none (header id m ∷ version id (suc v) n ∷ []),
        if_absent (Store.get_lineage id db) (header_key id)
            ++ if_absent (Store.get_version id (suc v) db) (version_key id (suc v)),
      ),
      locked db none (header id m ∷ version id (suc v) n ∷ []),
    )
unfolding acquire row_exists is_planned connection_phase reset_uow_lock_phase
acquire_pair id v m n db =
    rw (prepare_pair id v m n, acquire) (rw acquire_lock_plan_lem (ground arith))

-- Version 0 is refused before anything is locked.
pub acquire_zero :
    (id : ℕ) (m n : RowLockMode) (db : Database)
    → acquire (header id m ∷ version id 0 n ∷ []) none (enter db)
      ≡ (err (lock positive_version_required), enter db)
unfolding acquire prepare
acquire_zero id m n db = refl

pub acquire-header :
    (id : ℕ) (m : RowLockMode) (gate : Option AdvisoryGate) (db : Database)
    → acquire (header id m ∷ []) gate (enter db) ≡ (
      ok (
        acquired_plan gate (header id m ∷ []),
        if_absent (Store.get_lineage id db) (header_key id),
      ),
      locked db gate (header id m ∷ []),
    )
unfolding acquire row_exists is_planned connection_phase reset_uow_lock_phase
acquire-header id m gate db =
    rw (prepare-header id m gate, acquire) (rw acquire_lock_plan_lem (ground arith))

canonical_nothing : canonical_intents [] [] ≡ ok []
unfolding canonical_intents
canonical_nothing = refl

prepare_nothing : prepare [] none ≡ ok (planned_plan none [])
unfolding prepare lock_plan
prepare_nothing = ground (arith, canonical_nothing)

pub acquire_nothing :
    (db : Database)
    → acquire [] none (enter db) ≡ (ok (acquired_plan none [], []), locked db none [])
unfolding acquire row_exists is_planned connection_phase reset_uow_lock_phase
acquire_nothing db = rw (prepare_nothing, acquire) (rw acquire_lock_plan_lem (ground arith))
