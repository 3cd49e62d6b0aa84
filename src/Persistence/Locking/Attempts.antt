-- ===== src/Persistence/Locking/Attempts.antt =====
-- `run_semantic_uow_attempts` of src/netauto/persistence/locking.py. An attempt runs in a unit of
-- work of its own: on the committed state it returns or raises, and leaves a committed state. The
-- test `is_stale` picks the exceptions that are `LockPlanStale`, and `exhausted` is
-- `LockPlanAttemptsExhausted`, among the exceptions `E` of the operation.
use native.Mathlib.Nat.{add-zero, zero-add}
use netauto.Prelude.{
  ℕ, zero, suc, ◌+◌, ◌-◌, ◌<◌, ◌≡◌, refl, ap, ◌∙◌, inl, inr, Bool, true, false, arith, Result, ok,
  err, Result-cases,
}

abbrev pub max_semantic_uow_attempts : ℕ
max_semantic_uow_attempts = 4

module _ {ℓ} {E S A : Type ℓ} (is_stale : E → Bool) (exhausted : E)
    (attempt : ℕ → S → Result E A × S) where
  -- the `for` loop with `left` rounds to go
  unfoldable pub attempt_loop : ℕ → ℕ → S → Result E A × S
  attempt_loop zero number s = (err exhausted, s)
  attempt_loop (suc left) number s =
      let (r, s') = attempt number s in
      elim r [
        | ok a ↦ (ok a, s')
        | err e ↦ elim (is_stale e) [
          | true ↦ attempt_loop left (number + 1) s'
          | false ↦ (err e, s')
        ]
      ]

  unfoldable pub run_semantic_uow_attempts : S → Result E A × S
  unfolding attempt_loop
  run_semantic_uow_attempts s = attempt_loop max_semantic_uow_attempts 1 s

  -- the attempt raised `LockPlanStale`
  abbrev pub IsStale : ℕ → S → Type ℓ
  IsStale n s = (e : E) × ((attempt n s).0 ≡ err e) × (is_stale e ≡ true)

  -- a stale attempt is rolled back
  abbrev pub RollsBack : Type ℓ
  RollsBack = (n : ℕ) (s : S) → IsStale n s → (attempt n s).1 ≡ s

  stale_step :
      (left number : ℕ) (s : S)
      → IsStale number s
      → (attempt number s).1 ≡ s
      → attempt_loop (suc left) number s ≡ attempt_loop left (number + 1) s
  unfolding attempt_loop
  stale_step left number s (e, raised, stale) back =
      rw (raised, attempt_loop) (rw (stale) (rw back))

  final_step :
      (left number : ℕ) (s : S)
      → ((e : E) → (attempt number s).0 ≡ err e → is_stale e ≡ false)
      → attempt_loop (suc left) number s ≡ attempt number s
  unfolding attempt_loop
  final_step left number s fresh = elim (Result-cases (attempt number s).0) [
    | inl (a, e) ↦ rw (e, attempt_loop)
    | inr (x, e) ↦ rw (e, attempt_loop) (rw (fresh x e) refl)
  ]

  -- attempts `number`, `number + 1`, ... before `number + before` are all stale
  abbrev pub AllStale : ℕ → ℕ → S → Type ℓ
  AllStale number zero s = Unit
  AllStale number (suc before) s = IsStale number s × AllStale (number + 1) before s

  loop_reaches :
      (before left number : ℕ) (s : S)
      → RollsBack
      → AllStale number before s
      → attempt_loop (before + left) number s ≡ attempt_loop left (number + before) s
  loop_reaches zero left number s back stale = rw (zero-add, add-zero)
  loop_reaches (suc before) left number s back (first, stale) =
      let shift : suc before + left ≡ suc (before + left) = omega arith in
      let next : number + 1 + before ≡ number + suc before = omega arith in
      rw shift (
        stale_step (before + left) number s first (back number s first)
        ∙ loop_reaches before left (number + 1) s back stale
        ∙ ap (λ n. attempt_loop left n s) next)

  -- Stale attempts being rolled back, the operation is the first of its four attempts that is not
  -- stale, on the state that it began with; and if all four are stale it raises that the budget is
  -- exhausted and leaves that state.
  pub attempts_bounded :
      (s : S)
      → RollsBack
      → ((before : ℕ)
          → before < max_semantic_uow_attempts
          → AllStale 1 before s
          → ((e : E) → (attempt (1 + before) s).0 ≡ err e → is_stale e ≡ false)
          → run_semantic_uow_attempts s ≡ attempt (1 + before) s)
        × (AllStale 1 max_semantic_uow_attempts s
            → run_semantic_uow_attempts s ≡ (err exhausted, s))
  unfolding run_semantic_uow_attempts
  attempts_bounded s back = (
    λ before fits stale fresh.
        let split : 4 ≡ before + suc (3 - before) = omega arith in
        ap (λ n. attempt_loop n 1 s) split
        ∙ loop_reaches before (suc (3 - before)) 1 s back stale
        ∙ final_step (3 - before) (1 + before) s fresh,
    λ stale. loop_reaches 4 0 1 s back stale,
  )
