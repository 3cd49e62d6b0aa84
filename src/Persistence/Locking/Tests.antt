-- ===== src/Persistence/Locking/Tests.antt =====
-- Lock plans and restarts on concrete requests.
use netauto.Prelude.{
  ℕ, ◌+◌, ◌<◌, ◌≡◌, refl, ◌≢◌, ◌⊎◌, Bool, true, false, not, ◌&&◌, Option, none, some, List, [], ◌∷◌,
  ◌++◌, map, arith, ltb, if◌then◌else◌, is_some, Uuid, codes, ℕ_eq, list_beq, option_beq, list_eq,
  option_eq, all, All, contains, Result, ok, err,
}
use netauto.Prelude.Sort.{sort_by, lex_lt}
use netauto.Persistence.Locking.Keys.{
  RowLockKey, RowLockIntent, RowLockMode, RowLockClass, AdvisoryGate, row_lock_key, key_beq,
  class_beq, mode_value, phase_error, out_of_fuel,
}
use netauto.Persistence.Locking.Coalesce.{coalesce}
use netauto.Persistence.Locking.Coalesce.Strongest.{coalesce-strongest, strongest, distinct_keys}
use netauto.Persistence.Locking.Ancestry.{Parents, ancestors}
use netauto.Persistence.Locking.Ancestry.Terminates.{ancestors_end}
use netauto.Persistence.Locking.Canonical.{canonical_intents, lineage_order, planned_lineages}
use netauto.Persistence.Locking.Canonical.Strict.{IsMade, IsStrict, canonical_ascends}
use netauto.Persistence.Locking.Canonical.Unique.{NoTemplates, canonical_unique}
use netauto.Persistence.Locking.Plan.{
  LockPlan, Connection, planned, acquired, row_lock, gate_lock, begin_dml, acquire_lock_plan,
  is_planned, connection_phase,
}
use netauto.Persistence.Locking.Plan.Phases.{acquire_lock_plan_lem, missing_keys, gate_requests}
use netauto.Persistence.Locking.Plan.Once.{IsClosed, one_acquisition}
use netauto.Persistence.Locking.Loader.{load_object_template_ancestry}
use netauto.Persistence.Locking.Loader.Accepted.{load_object_template_ancestry_accepted}
use netauto.Persistence.Locking.Loader.Terminates.{load_object_template_ancestry_ends}
use netauto.Prelude.Dict.{dict_get, dict_set}
use netauto.Persistence.Locking.Classify.{
  classify_postgresql_failure, unique_violation, foreign_key_violation, known_unique_constraints,
  known_foreign_key_constraints,
}
use netauto.Persistence.Locking.Classify.Named.{classify_postgresql_failure_named}
use netauto.Persistence.Locking.Attempts.{
  run_semantic_uow_attempts, attempts_bounded, RollsBack, AllStale,
}

abbrev intent : RowLockClass → Uuid → Option ℕ → RowLockMode → RowLockIntent
intent c id v m = record { key = record { row_class = c; resource_id = id; version = v }; mode = m }

-- two requests for a DataType header and one of its versions
abbrev ordered : List RowLockIntent
ordered =
    intent RowLockClass.data_type_header 7 none RowLockMode.ks
    ∷ intent RowLockClass.data_type_version 7 (some 1) RowLockMode.nku
    ∷ []

abbrev shuffled : List RowLockIntent
shuffled =
    intent RowLockClass.data_type_version 7 (some 1) RowLockMode.ks
    ∷ intent RowLockClass.data_type_header 7 none RowLockMode.ks
    ∷ intent RowLockClass.data_type_version 7 (some 1) RowLockMode.nku
    ∷ []

coalesce-strongest_example :
    (distinct_keys (coalesce shuffled) ≡ true)
    × ((k : RowLockKey) → strongest k (coalesce shuffled) ≡ strongest k shuffled)
coalesce-strongest_example = coalesce-strongest shuffled

ordered-IsMade : All IsMade ordered
unfolding row_lock_key
ordered-IsMade = (refl, (refl, tt))

shuffled-IsMade : All IsMade shuffled
unfolding row_lock_key
shuffled-IsMade = (refl, (refl, (refl, tt)))

same_strongest : (k : RowLockKey) → strongest k ordered ≡ strongest k shuffled
unfolding mode_value
same_strongest k = ground arith

plan_shuffled : canonical_intents shuffled [] ≡ ok ordered
unfolding canonical_intents coalesce key_beq class_beq sort_by lex_lt option_beq mode_value
plan_shuffled = refl

NoTemplates-ordered : NoTemplates ordered
unfolding canonical_intents coalesce key_beq class_beq option_beq mode_value
NoTemplates-ordered = refl

NoTemplates-shuffled : NoTemplates shuffled
unfolding canonical_intents coalesce key_beq class_beq option_beq mode_value
NoTemplates-shuffled = refl

canonical_unique_example : canonical_intents ordered [] ≡ canonical_intents shuffled []
canonical_unique_example =
    canonical_unique ordered shuffled [] ordered-IsMade shuffled-IsMade NoTemplates-ordered
      NoTemplates-shuffled same_strongest

canonical_ascends_example :
    (order : List Uuid) × (lineage_order (planned_lineages (coalesce shuffled)) [] ≡ ok order)
    × IsStrict order ordered
    × ((k : RowLockKey) → strongest k ordered ≡ strongest k shuffled)
canonical_ascends_example = canonical_ascends shuffled [] shuffled-IsMade plan_shuffled

-- a parent that is its own grandparent
abbrev loop_parents : Parents
loop_parents = (1, some 2) ∷ (2, some 3) ∷ (3, some 2) ∷ []

ancestors_end_example : ancestors loop_parents 1 ≢ err out_of_fuel
ancestors_end_example = ancestors_end loop_parents 1

abbrev fresh : Connection
fresh = record { phase = some planned; requests = [] }

abbrev fresh_plan : LockPlan
fresh_plan = record {
  gate = some AdvisoryGate.model_root_delete_gate;
  rows = ordered;
  parents = [];
  phase = planned;
  bound = false;
}

-- only the header is there
abbrev header_only : RowLockKey → Bool
header_only k = not (is_some k.version)

acquire_lock_plan_lem_example : acquire_lock_plan header_only fresh fresh_plan ≡ (
    if is_planned planned && is_planned (connection_phase fresh)
    then ok (
      missing_keys header_only ordered,
      record fresh_plan { phase = acquired; bound = true },
      record {
        phase = some acquired;
        requests =
            ([] ++ gate_requests (some AdvisoryGate.model_root_delete_gate))
            ++ map row_lock ordered;
      },
    )
    else err phase_error)
acquire_lock_plan_lem_example = acquire_lock_plan_lem header_only fresh fresh_plan

-- an attempt that is stale until its third time
abbrev third_time : ℕ → ℕ → Result Bool ℕ × ℕ
third_time n s = if ltb n 3 then (err true, s) else (ok n, s + 1)

third_time-RollsBack : RollsBack (λ (e : Bool). e) true third_time
third_time-RollsBack n s (e, r, stale) = ground arith

attempts_bounded_example :
    ((before : ℕ)
      → before < 4
      → AllStale (λ (e : Bool). e) true third_time 1 before 5
      → ((e : Bool) → (third_time (1 + before) 5).0 ≡ err e → e ≡ false)
      → run_semantic_uow_attempts (λ (e : Bool). e) true third_time 5 ≡ third_time (1 + before) 5)
    × (AllStale (λ (e : Bool). e) true third_time 1 4 5
        → run_semantic_uow_attempts (λ (e : Bool). e) true third_time 5 ≡ (err true, 5))
attempts_bounded_example = attempts_bounded (λ (e : Bool). e) true third_time 5 third_time-RollsBack

-- the plan and the connection once the plan is acquired
abbrev locked_plan : LockPlan
locked_plan = record fresh_plan { phase = acquired; bound = true }

abbrev locked : Connection
locked = record {
  phase = some acquired;
  requests = gate_lock AdvisoryGate.model_root_delete_gate ∷ map row_lock ordered;
}

fresh_acquired :
    acquire_lock_plan header_only fresh fresh_plan
    ≡ ok (missing_keys header_only ordered, locked_plan, locked)
unfolding is_planned connection_phase
fresh_acquired = rw acquire_lock_plan_lem refl

one_acquisition_example :
    IsClosed locked
    × ((plan'' : LockPlan) × (c'' : Connection) × (begin_dml locked_plan locked ≡ ok (plan'', c''))
        × (c''.requests ≡ locked.requests)
        × IsClosed c'')
one_acquisition_example =
    one_acquisition header_only fresh locked fresh_plan locked_plan
      (missing_keys header_only ordered) fresh_acquired

-- lineage 3 under lineage 9; lineage 5 is not there
abbrev ancestry_rows : List Uuid → List (Uuid × Option Uuid)
ancestry_rows ids = (3, some 9) ∷ (9, none) ∷ []

abbrev ancestry : Parents
ancestry = (3, some 9) ∷ (9, none) ∷ (5, none) ∷ []

ancestry_loads : load_object_template_ancestry ancestry_rows (3 ∷ 5 ∷ []) ≡ ok ancestry
unfolding load_object_template_ancestry dict_get dict_set all contains
ancestry_loads = refl

planned_five : contains {A = Uuid} (3 ∷ 5 ∷ []) 3 ≡ true
unfolding contains
planned_five = refl

load_object_template_ancestry_accepted_example :
    (above : List Uuid) × (ancestors ancestry 3 ≡ ok above)
load_object_template_ancestry_accepted_example =
    load_object_template_ancestry_accepted ancestry_rows (3 ∷ 5 ∷ []) ancestry 3 ancestry_loads
      planned_five

load_object_template_ancestry_ends_example :
    load_object_template_ancestry ancestry_rows (3 ∷ 5 ∷ []) ≢ err out_of_fuel
load_object_template_ancestry_ends_example =
    load_object_template_ancestry_ends ancestry_rows (3 ∷ 5 ∷ [])

taken_name :
    (classify_postgresql_failure
      (some (codes "23505"))
      (some (codes "uq_datatypes_namespace_name"))).constraint_name
    ≡ some (codes "uq_datatypes_namespace_name")
unfolding classify_postgresql_failure known_unique_constraints contains list_beq
taken_name = refl

classify_postgresql_failure_named_example :
    (some (codes "uq_datatypes_namespace_name") ≡ some (codes "uq_datatypes_namespace_name"))
    × ((((classify_postgresql_failure
              (some (codes "23505"))
              (some (codes "uq_datatypes_namespace_name"))).kind
            ≡ unique_violation)
          × (contains known_unique_constraints (codes "uq_datatypes_namespace_name") ≡ true)
          × (contains known_foreign_key_constraints (codes "uq_datatypes_namespace_name") ≡ false))
        ⊎ (((classify_postgresql_failure
                (some (codes "23505"))
                (some (codes "uq_datatypes_namespace_name"))).kind
              ≡ foreign_key_violation)
            × (contains known_foreign_key_constraints (codes "uq_datatypes_namespace_name") ≡ true)
            × (contains known_unique_constraints (codes "uq_datatypes_namespace_name") ≡ false)))
classify_postgresql_failure_named_example =
    classify_postgresql_failure_named (some (codes "23505"))
      (some (codes "uq_datatypes_namespace_name")) (codes "uq_datatypes_namespace_name") taken_name
