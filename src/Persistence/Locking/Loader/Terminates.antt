-- ===== src/Persistence/Locking/Loader/Terminates.antt =====
-- The fuel of the cycle check in `load_object_template_ancestry`, src/netauto/persistence/locking.py.
use netauto.Prelude.{
  ℕ, zero, suc, ◌+◌, ◌<◌, ◌≡◌, refl, ◌≢◌, inl, inr, Bool, true, false, Option, none, some, List, [],
  ◌∷◌, arith, Bool-cases, Option-cases, Uuid, ℕ_eq, option_beq, list_eq, option_eq, length,
  contains, distinct, Result, ok, err, ◌>>=◌, guard,
}
use netauto.Prelude.Dict.{dict_get, keys, keys-contains, length-keys}
use netauto.Prelude.Pigeonhole.{Within, pigeonhole}
use netauto.Persistence.Locking.Keys.{LockError, out_of_fuel}
use netauto.Persistence.Locking.Ancestry.{Parents}
use netauto.Persistence.Locking.Loader.{gather, climb, climb_all, load_object_template_ancestry}

climb_ends :
    (fuel : ℕ) (loaded : Parents) (seen : List Uuid) (current : Option Uuid)
    → distinct seen ≡ true
    → Within seen (keys loaded)
    → length loaded < fuel + length seen
    → climb fuel loaded seen current ≢ err out_of_fuel
unfolding climb distinct
climb_ends fuel loaded seen none u w m = λ e. cc
climb_ends zero loaded seen (some c) u w m =
    absurd (omega (arith, pigeonhole seen (keys loaded) u w, length-keys loaded))
climb_ends (suc fuel) loaded seen (some c) u w m = elim (Bool-cases (contains seen c)) [
  | inl t ↦ rw (t, climb) (λ e. cc)
  | inr f ↦
      rw (f, climb)
        (elim (Option-cases (dict_get c loaded)) [
          | inl n ↦ rw n (λ e. cc)
          | inr (p, found) ↦ rw found (
              climb_ends fuel loaded (c ∷ seen) p (ground arith) (keys-contains c loaded found, w)
                (omega arith))
        ])
]

then_never {ℓ} :
    {A : Type ℓ} {B : Type ℓ} (r : Result LockError A) (f : A → Result LockError B)
    → r ≢ err out_of_fuel
    → ((a : A) → f a ≢ err out_of_fuel)
    → (r >>= f) ≢ err out_of_fuel
then_never (ok a) f h k = k a
then_never (err e) f h k = λ x. h (cc x)

climb_all_ends : (loaded : Parents) (ls : List Uuid) → climb_all loaded ls ≢ err out_of_fuel
unfolding climb_all distinct
climb_all_ends loaded [] = λ e. cc
climb_all_ends loaded (l ∷ ls) =
    then_never (climb (suc (length loaded)) loaded [] (some l)) (λ _. climb_all loaded ls)
      (climb_ends (suc (length loaded)) loaded [] (some l) refl tt (omega arith))
      (λ _. climb_all_ends loaded ls)

gather_ends :
    (rows : List (Uuid × Option Uuid)) (loaded : Parents) → gather rows loaded ≢ err out_of_fuel
unfolding gather
gather_ends [] loaded = λ e. cc
gather_ends ((id, parent) ∷ rows) loaded = elim (Option-cases (dict_get id loaded)) [
  | inl n ↦ rw (n, gather) (gather_ends rows _)
  | inr (p, e) ↦
      rw (e, gather)
        (elim (Bool-cases (option_beq p parent)) [
          | inl t ↦ rw t (gather_ends rows loaded)
          | inr t ↦ rw t (λ x. cc)
        ])
]

guard_never : (b : Bool) (e : LockError) → e ≢ out_of_fuel → guard b e ≢ err out_of_fuel
guard_never true e h = λ x. cc
guard_never false e h = λ x. h (cc x)

-- Whatever rows the recursive statement returns, cyclic or not, the loader ends within its fuel.
pub load_object_template_ancestry_ends :
    (statement : List Uuid → List (Uuid × Option Uuid)) (planned : List Uuid)
    → load_object_template_ancestry statement planned ≢ err out_of_fuel
unfolding load_object_template_ancestry
load_object_template_ancestry_ends statement [] = λ e. cc
load_object_template_ancestry_ends statement (id ∷ ids) =
    then_never (gather (statement (id ∷ ids)) []) _ (gather_ends (statement (id ∷ ids)) [])
      (λ loaded. then_never (guard _ _) _ (guard_never _ _ (λ x. cc)) (λ _.
        then_never (climb_all loaded (keys loaded)) _ (climb_all_ends loaded (keys loaded))
          (λ _. λ x. cc)))
