-- ===== src/Session.antt =====
-- A connection to the database: statements, exceptions and transactions, as the functions of
-- services/ingestion_consumer/app/db_ops.py use `conn` and `engine`.
pub mod Rules
pub mod Succeeds
use observability_lab.Prelude.{ℕ, suc, ◌≡◌, refl}
use observability_lab.Server.{Server, Fate, clear, operational, reply_lost, refused}
use observability_lab.Result.{Error, operational_error, sqlalchemy_error, Result, ok, err}
use observability_lab.Tables.{Database}

-- `tick` is the number of statements that were sent so far.
pub record Conn : Type 0 where
  pub db : Database
  pub tick : ℕ

abbrev pub Tx : Type 0 → Type 0
Tx A = Conn → Result A × Conn

module _ {A : Type 0} where
  unfoldable pub pure : A → Tx A
  pure a c = (ok a, c)

  -- what the process computes with no statement
  unfoldable pub lift : Result A → Tx A
  lift r c = (r, c)

module _ {A B : Type 0} where
  abbrev pub continue : Result A × Conn → (A → Tx B) → Result B × Conn
  continue (ok a, c) f = f a c
  continue (err e, c) f = (err e, c)

  infixl 5 ◌>>=◌ ◌>>◌
  unfoldable pub ◌>>=◌ : Tx A → (A → Tx B) → Tx B
  ◌>>=◌ m f c = continue (m c) f

  abbrev pub ◌>>◌ : Tx A → Tx B → Tx B
  m >> k = m >>= λ _. k

-- What a statement does to the tables, given the time and the identity value that it takes. A
-- statement that fails does nothing.
abbrev pub Statement : Type 0 → Type 0
Statement A = ℕ → ℕ → Database → Result (A × Database)

module _ {A : Type 0} where
  abbrev pub settle : Database → ℕ → Result (A × Database) → Result A × Conn
  settle db n (ok (a, db')) = (ok a, record { db = db'; tick = n })
  settle db n (err e) = (err e, record { db = db; tick = n })

  abbrev pub meet : Fate → Result (A × Database) → Result (A × Database)
  meet clear r = r
  meet operational r = err operational_error
  meet reply_lost r = err operational_error
  meet refused r = err sqlalchemy_error

  -- `conn.execute(…)`
  unfoldable pub execute : ⦃s : Server⦄ → Statement A → Tx A
  execute ⦃s⦄ f c =
      settle c.db (suc c.tick) (meet (s.fate c.tick) (f (s.time c.tick) (s.identity c.tick) c.db))

  abbrev pub commit : Fate → Database → Conn → A → Result A × Conn
  commit clear before c a = (ok a, c)
  commit operational before c a = (err operational_error, record c { db = before })
  commit reply_lost before c a = (err operational_error, c)
  commit refused before c a = (err sqlalchemy_error, record c { db = before })

  abbrev pub close : ⦃s : Server⦄ → Database → Result A × Conn → Result A × Conn
  close ⦃s⦄ before (ok a, c) = commit (s.fate c.tick) before (record c { tick = suc c.tick }) a
  close before (err e, c) = (err e, record c { db = before })

  abbrev pub enter : ⦃s : Server⦄ → Fate → Tx A → Tx A
  enter clear body c = close c.db (body (record c { tick = suc c.tick }))
  enter operational body c = (err operational_error, record c { tick = suc c.tick })
  enter reply_lost body c = (err operational_error, record c { tick = suc c.tick })
  enter refused body c = (err sqlalchemy_error, record c { tick = suc c.tick })

  -- `with engine.begin() as conn:` the body's writes are committed together, or rolled back if the
  -- body raises. Opening the connection and the COMMIT count as statements.
  unfoldable pub begin : ⦃s : Server⦄ → Tx A → Tx A
  begin ⦃s⦄ body c = enter (s.fate c.tick) body c
