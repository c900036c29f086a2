-- ===== src/Result.antt =====
-- The exceptions that services/ingestion_consumer/app/db_ops.py and consumer.py raise or catch.
use observability_lab.Prelude.{Bool, true, false, Option, none, some}

pub data Error : Type 0 where
  -- `db_ops.DuplicateEvent`
  duplicate_event : Error
  -- `sqlalchemy.exc.OperationalError`
  operational_error : Error
  -- `sqlalchemy.exc.IntegrityError`
  integrity_error : Error
  -- any other `SQLAlchemyError`: a data error, the trigger, a bind parameter that is missing
  sqlalchemy_error : Error
  -- any other `Exception`: `KeyError`, `TypeError`
  other_exception : Error

-- How a call ends: it raises, or it returns.
pub data Result {ℓ} (A : Type ℓ) : Type ℓ where
  err : (raised : Error) → Result A
  ok : (returned : A) → Result A

-- A test of the database, or of the process, that raises.
abbrev pub raise_if : Bool → Error → Result (Unit {0})
raise_if false e = ok tt
raise_if true e = err e

-- A value for a column that is NOT NULL.
abbrev pub not_null {ℓ} : {A : Type ℓ} → Option A → Result A
not_null (some a) = ok a
not_null none = err integrity_error

-- What follows runs only if nothing was raised.
infixl 5 ◌>>=◌
abbrev pub ◌>>=◌ {ℓ ℓ'} : {X : Type ℓ} {Y : Type ℓ'} → Result X → (X → Result Y) → Result Y
err raised >>= next = err raised
ok returned >>= next = next returned

infixl 5 ◌>>◌
abbrev pub ◌>>◌ {ℓ} : {Y : Type ℓ} → Result (Unit {0}) → Result Y → Result Y
first >> next = first >>= (λ _. next)
