-- ===== src/Server.antt =====
-- What the services use of SQL Server beyond the statements that they send it: the collation of
-- the database, its clock and its identity columns, and the errors of the connection. All of it
-- is a parameter, indexed by the number of the statement.
use observability_lab.Prelude.{ℕ, String, ◌==◌, Bool}

-- How the server answers a statement, apart from what the tables say of it.
pub data Fate : Type 0 where
  -- it is carried out, unless a constraint or a trigger refuses it
  clear : Fate
  -- an `OperationalError`: a deadlock, a lock timeout or a dropped connection
  operational : Fate
  -- an `OperationalError` of a COMMIT that the server has carried out: the reply was lost
  reply_lost : Fate
  -- any other `SQLAlchemyError`, such as a truncation or a failed conversion
  refused : Fate

pub record Server : Type 0 where
  -- two texts are equal for the database if they have one sort key
  pub sort_key : String → String
  -- SYSUTCDATETIME() in statement n
  pub time : ℕ → ℕ
  -- `dt.datetime.utcnow()` of the process before statement n
  pub process_time : ℕ → ℕ
  -- the value that an IDENTITY column takes in statement n, if that inserts a row
  pub identity : ℕ → ℕ
  pub fate : ℕ → Fate

-- `=` between two texts in a statement.
abbrev pub same : ⦃s : Server⦄ → String → String → Bool
same ⦃s⦄ a b = s.sort_key a == s.sort_key b
