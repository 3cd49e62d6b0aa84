-- ===== src/Application/DataTypes/Effects/Leaves.antt =====
-- Outcomes that leave the rows in a state with a given property.
use netauto.Prelude.{
  ◌≡◌, refl, subst, Bool, true, Option, none, some, arith, Result, ok, err, ◌>>=◌, guard,
}
use netauto.Failures.{Failure}
use netauto.Persistence.Database.{Database}
use netauto.Application.DataTypes.Effects.{settle, some_or}

module _ (P : Database → Type 0) where
  -- an outcome whose rows, if it has some, satisfy `P`
  abbrev pub Leaves {ℓ} : {A : Type ℓ} → Result Failure (A × Database) → Type 0
  Leaves (ok (a, db)) = P db
  Leaves (err e) = Unit

  pub Leaves-bind {ℓ κ} :
      {A : Type ℓ} {B : Type κ} (r : Result Failure A) (f : A → Result Failure (B × Database))
      → ((a : A) → r ≡ ok a → Leaves (f a))
      → Leaves (r >>= f)
  Leaves-bind (ok a) f k = k a refl
  Leaves-bind (err e) f k = tt

  pub Leaves-ok {ℓ} :
      {A : Type ℓ} (r : Result Failure (A × Database)) {a : A} {db : Database}
      → Leaves r
      → r ≡ ok (a, db)
      → P db
  Leaves-ok r k h = subst Leaves h k

  pub settle-Leaves {ℓ} :
      {A : Type ℓ} (db : Database) (r : Result Failure (A × Database))
      → P db
      → Leaves r
      → P (settle db r).1
  settle-Leaves db (ok (a, d)) s k = k
  settle-Leaves db (err e) s k = s

pub some_or_lem {ℓ} :
    {A : Type ℓ} (o : Option A) (e : Failure) {a : A} → some_or o e ≡ ok a → o ≡ some a
some_or_lem none e h = cc
some_or_lem (some b) e h = cc

pub guard_lem : (b : Bool) (e : Failure) {u : Unit {0}} → guard b e ≡ ok u → b ≡ true
guard_lem b e h = ground arith
