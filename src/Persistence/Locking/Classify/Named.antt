-- ===== src/Persistence/Locking/Classify/Named.antt =====
-- The constraint name of a classified failure, `classify_postgresql_failure` of
-- src/netauto/persistence/locking.py.
use netauto.Prelude.{
  ◌≡◌, refl, subst, ◌⊎◌, inl, inr, Bool, true, false, not, Option, some, List, [], ◌∷◌, arith,
  Bool-cases, Text, ◌==◌, ℕ_eq, list_beq, list_beq_iff, list_eq, option_eq, all, contains,
}
use netauto.Persistence.Locking.Classify.{
  unique_violation, foreign_key_violation, known_unique_constraints, known_foreign_key_constraints,
  known_name, classify_postgresql_failure,
}

all-at :
    (p : Text → Bool) (xs : List Text) (x : Text)
    → all p xs ≡ true
    → contains xs x ≡ true
    → p x ≡ true
unfolding all contains
all-at p [] x h c = absurd (cc c)
all-at p (y ∷ xs) x h c = elim (Bool-cases (y == x)) [
  | inl t ↦ subst (λ z. p z ≡ true) ((list_beq_iff y x).0 t) (ground arith)
  | inr f ↦ all-at p xs x (ground arith) (ground arith)
]

none_shared :
    all (λ n. not (contains known_foreign_key_constraints n)) known_unique_constraints ≡ true
unfolding known_foreign_key_constraints known_unique_constraints all contains list_beq
none_shared = refl

disjoint :
    (n : Text)
    → contains known_unique_constraints n ≡ true
    → contains known_foreign_key_constraints n ≡ false
disjoint n h = ground (
  arith,
  all-at (λ m. not (contains known_foreign_key_constraints m)) known_unique_constraints n
      none_shared h,
)

-- A classified failure that carries a constraint name carries the one that was reported, and the name
-- alone decides the kind: the failure is a unique violation and the name a known unique constraint
-- and no foreign key, or it is a foreign key violation and the name a known foreign key and no unique
-- constraint.
pub classify_postgresql_failure_named :
    (sqlstate reported : Option Text) (n : Text)
    → (classify_postgresql_failure sqlstate reported).constraint_name ≡ some n
    → (reported ≡ some n)
      × ((((classify_postgresql_failure sqlstate reported).kind ≡ unique_violation)
            × (contains known_unique_constraints n ≡ true)
            × (contains known_foreign_key_constraints n ≡ false))
          ⊎ (((classify_postgresql_failure sqlstate reported).kind ≡ foreign_key_violation)
              × (contains known_foreign_key_constraints n ≡ true)
              × (contains known_unique_constraints n ≡ false)))
unfolding classify_postgresql_failure known_name
classify_postgresql_failure_named sqlstate reported n h = (
  ground arith,
  elim (Bool-cases (contains known_unique_constraints n)) [
    | inl t ↦ inl (ground (arith, disjoint n t), t, disjoint n t)
    | inr t ↦ inr (ground arith, ground arith, t)
  ],
)
