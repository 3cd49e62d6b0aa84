-- ===== src/Persistence/UnitOfWork/Atomic.antt =====
-- Rules for operations that commit when they return and only then.
use netauto.Prelude.{◌≡◌, refl, ◌∙◌, Bool, true, false, arith, Result, ok, err}
use netauto.Failures.{Failure}
use netauto.Persistence.Database.{Database}
use netauto.Persistence.UnitOfWork.{
  Tx, Session, pure, raise, execute, query, require, commit, continue, enter, exit, in_unit_of_work,
}
use netauto.Persistence.UnitOfWork as Uow

-- Neither returning nor raising, `m` ends or commits the transaction.
pub record IsQuiet {ℓ} {A : Type ℓ} (m : Tx A) : Type ℓ where
  pub at : (s : Session) → ((m s).1.committed ≡ s.committed) × ((m s).1.active ≡ s.active)

-- Begun in an active transaction, `m` raises before anything is committed, or it returns after it
-- has committed all that it did.
pub record IsAtomic {ℓ} {A : Type ℓ} (m : Tx A) : Type ℓ where
  pub raises :
      (s : Session) (e : Failure)
      → s.active ≡ true
      → (m s).0 ≡ err e
      → (m s).1.committed ≡ s.committed
  pub returns :
      (s : Session) (a : A) → s.active ≡ true → (m s).0 ≡ ok a → (m s).1.committed ≡ (m s).1.working

module _ {ℓ} {A : Type ℓ} where
  pub IsQuiet-pure : (a : A) → IsQuiet (pure a)
  unfolding pure
  IsQuiet-pure a = record { at = λ s. (refl, refl) }

  pub IsQuiet-raise : (e : Failure) → IsQuiet (raise {A = A} e)
  unfolding raise
  IsQuiet-raise e = record { at = λ s. (refl, refl) }

  pub IsQuiet-query : (f : Database → A) → IsQuiet (query f)
  unfolding query
  IsQuiet-query f = record { at = λ s. (refl, refl) }

  pub IsQuiet-execute : (f : Database → Result Failure (A × Database)) → IsQuiet (execute f)
  unfolding execute
  IsQuiet-execute f = record { at = λ s. (ground arith, ground arith) }

  pub IsAtomic-raise : (e : Failure) → IsAtomic (raise {A = A} e)
  unfolding raise
  IsAtomic-raise e = record { raises = λ s x h p. refl; returns = λ s a h p. cc }

  -- `await uow.commit()` and the return that follows
  pub IsAtomic-commit : (a : A) → IsAtomic (Uow.◌>>=◌ commit (λ _. pure a))
  unfolding commit pure Uow.◌>>=◌
  IsAtomic-commit a = record { raises = λ s x h p. ground arith; returns = λ s b h p. ground arith }

pub IsAtomic-commit_last : IsAtomic commit
unfolding commit
IsAtomic-commit_last = record {
  raises = λ s x h p. ground arith;
  returns = λ s b h p. ground arith;
}

pub IsQuiet-require : (b : Bool) (e : Failure) → IsQuiet (require b e)
IsQuiet-require true e = IsQuiet-pure tt
IsQuiet-require false e = IsQuiet-raise e

module _ {ℓ κ} {A : Type ℓ} {B : Type κ} where
  pub IsQuiet-bind :
      (m : Tx A) (f : A → Tx B) → IsQuiet m → ((a : A) → IsQuiet (f a)) → IsQuiet (Uow.◌>>=◌ m f)
  unfolding Uow.◌>>=◌
  IsQuiet-bind m f qm qf = record { at = λ s. step s (m s).0 (m s).1 (qm.at s) }
    where
      step :
          (s : Session) (r : Result Failure A) (s' : Session)
          → ((s'.committed ≡ s.committed) × (s'.active ≡ s.active))
          → ((continue r f s').1.committed ≡ s.committed) × ((continue r f s').1.active ≡ s.active)
      step s (ok a) s' (c, l) = (((qf a).at s').0 ∙ c, ((qf a).at s').1 ∙ l)
      step s (err e) s' h = h

  pub IsAtomic-bind :
      (m : Tx A) (f : A → Tx B) → IsQuiet m → ((a : A) → IsAtomic (f a)) → IsAtomic (Uow.◌>>=◌ m f)
  unfolding Uow.◌>>=◌
  IsAtomic-bind m f qm af = record {
    raises = λ s x h p. raised (m s).0 (m s).1 x ((qm.at s).1 ∙ h) p ∙ (qm.at s).0;
    returns = λ s b h p. returned (m s).0 (m s).1 b ((qm.at s).1 ∙ h) p;
  }
    where
      raised :
          (r : Result Failure A) (s' : Session) (x : Failure)
          → s'.active ≡ true
          → (continue r f s').0 ≡ err x
          → (continue r f s').1.committed ≡ s'.committed
      raised (ok a) s' x h p = (af a).raises s' x h p
      raised (err e) s' x h p = refl

      returned :
          (r : Result Failure A) (s' : Session) (b : B)
          → s'.active ≡ true
          → (continue r f s').0 ≡ ok b
          → (continue r f s').1.committed ≡ (continue r f s').1.working
      returned (ok a) s' b h p = (af a).returns s' b h p
      returned (err e) s' b h p = cc

pub ruleset atomic_rules = (
  IsQuiet-pure, IsQuiet-raise, IsQuiet-query, IsQuiet-execute, IsQuiet-require, IsQuiet-bind,
  IsAtomic-raise, IsAtomic-commit, IsAtomic-commit_last, IsAtomic-bind,
)

-- An operation that raises leaves the committed rows as they were.
pub unit_of_work_raises {ℓ} :
    {A : Type ℓ} (m : Tx A) (db : Database) (e : Failure)
    → IsAtomic m
    → (in_unit_of_work m db).0 ≡ err e
    → (in_unit_of_work m db).1 ≡ db
unfolding in_unit_of_work
unit_of_work_raises m db e am h = am.raises (enter db) e refl h
