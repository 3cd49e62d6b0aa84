-- ===== src/Persistence/Locking/Ancestry/Terminates.antt =====
-- The fuel of the walks of `_object_template_order`, src/netauto/persistence/locking.py.
use netauto.Prelude.{
  ℕ, zero, suc, ◌+◌, ◌<◌, ◌≡◌, refl, ◌≢◌, inl, inr, true, false, ◌||◌, Option, none, some, List, [],
  ◌∷◌, arith, Bool-cases, Option-cases, Uuid, ◌==◌, ℕ_eq, list_eq, option_eq, length, contains,
  distinct, Result, ok, err, ◌>>=◌,
}
use netauto.Prelude.Dict.{dict_get, keys, keys-contains, length-keys}
use netauto.Prelude.Pigeonhole.{Within, pigeonhole}
use netauto.Persistence.Locking.Keys.{LockError, out_of_fuel}
use netauto.Persistence.Locking.Ancestry.{Parents, ancestors_of, ancestors}

bind_never {ℓ} :
    {A B : Type ℓ} (r : Result LockError A) (f : A → B)
    → r ≢ err out_of_fuel
    → (r >>= λ a. ok (f a)) ≢ err out_of_fuel
bind_never (ok a) f h = λ e. cc
bind_never (err x) f h = λ e. h (cc e)

distinct_grow :
    (c d : Uuid) (seen : List Uuid)
    → (contains seen c || c == d) ≡ false
    → distinct seen ≡ true
    → distinct (c ∷ seen) ≡ true
unfolding distinct
distinct_grow c d seen f u = ground arith

ancestors_of_ends :
    (fuel : ℕ) (parents : Parents) (descendant : Uuid) (seen : List Uuid) (current : Option Uuid)
    → distinct seen ≡ true
    → Within seen (keys parents)
    → length parents < fuel + length seen
    → ancestors_of fuel parents descendant seen current ≢ err out_of_fuel
unfolding ancestors_of
ancestors_of_ends fuel parents d seen none u w m = λ e. cc
ancestors_of_ends zero parents d seen (some c) u w m =
    absurd (omega (arith, pigeonhole seen (keys parents) u w, length-keys parents))
ancestors_of_ends (suc fuel) parents d seen (some c) u w m =
    elim (Bool-cases (contains seen c || c == d)) [
      | inl t ↦ rw (t, ancestors_of) (λ e. cc)
      | inr f ↦
          rw (f, ancestors_of)
            (elim (Option-cases (dict_get c parents)) [
              | inl n ↦ rw n (λ e. cc)
              | inr (p, found) ↦ rw found (
                  bind_never (ancestors_of fuel parents d (c ∷ seen) p) (λ rest. c ∷ rest)
                    (ancestors_of_ends fuel parents d (c ∷ seen) p (distinct_grow c d seen f u)
                      (keys-contains c parents found, w) (omega arith)))
            ])
    ]

-- Whatever the mapping of parents, cyclic or not, the walk up from a lineage ends within its fuel:
-- it returns the ancestors, or reports a cycle or a missing lineage.
pub ancestors_end :
    (parents : Parents) (descendant : Uuid) → ancestors parents descendant ≢ err out_of_fuel
unfolding ancestors distinct
ancestors_end parents d = elim (Option-cases (dict_get d parents)) [
  | inl n ↦ rw (n, ancestors) (λ e. cc)
  | inr (p, found) ↦
      rw (found, ancestors)
        (ancestors_of_ends (suc (length parents)) parents d [] p refl tt (omega arith))
]
