-- ===== src/Session/Succeeds.antt =====
-- What runs on a connection when the server carries everything out, as equations.
use observability_lab.Prelude.{ℕ, zero, suc, ◌≤◌, ◌≡◌, refl, arith}
use observability_lab.Server.{Server, clear}
use observability_lab.Result.{Result, ok}
use observability_lab.Tables.{Database}
use observability_lab.Session.{Conn, Tx, lift, ◌>>=◌, Statement, execute, begin}

-- The number of a statement, `m` statements after statement `n`.
abbrev pub after : ℕ → ℕ → ℕ
after zero n = n
after (suc m) n = suc (after m n)

-- Every number from `n` on.
abbrev pub From : (ℕ → Type 0) → ℕ → Type 0
From P n = (m : ℕ) → n ≤ m → P m

pub From-le : (P : ℕ → Type 0) (k n : ℕ) → n ≤ k → From P n → From P k
From-le P k n l h m i = h m (omega (arith, l, i))

pub after_le : (m n : ℕ) → n ≤ after m n
after_le zero n = omega arith
after_le (suc m) n = omega (arith, after_le m n)

-- The run returns `a` and leaves the tables `db` after statement `n`.
abbrev pub Yields : {A : Type 0} → Tx A → Conn → A → Database → ℕ → Type 0
Yields m c a db n = m c ≡ (ok a, record { db = db; tick = n })

module _ {A B : Type 0} where
  -- The rest of a block after a step that returns.
  pub Yields-bind :
      (m : Tx A) (f : A → Tx B) (c : Conn) (a : A) (db : Database) (n : ℕ) (r : Result B × Conn)
      → Yields m c a db n
      → f a (record { db = db; tick = n }) ≡ r
      → (m >>= f) c ≡ r
  unfolding ◌>>=◌
  Yields-bind m f c a db n r h e = rw (h, e) refl

  pub lift-bind :
      (q : Result A) (f : A → Tx B) (c : Conn) (a : A) (r : Result B × Conn)
      → q ≡ ok a
      → f a c ≡ r
      → (lift q >>= f) c ≡ r
  unfolding lift ◌>>=◌
  lift-bind q f c a r h e = rw (h, e) refl

module _ ⦃s : Server⦄ (clears : (n : ℕ) → s.fate n ≡ clear) {A : Type 0} where
  pub execute-Yields :
      (f : Statement A) (c : Conn) (a : A) (db : Database)
      → f (s.time c.tick) (s.identity c.tick) c.db ≡ ok (a, db)
      → Yields (execute f) c a db (suc c.tick)
  unfolding execute
  execute-Yields f c a db h = rw (clears c.tick, h) refl

  -- The statement of BEGIN, the body, and the COMMIT.
  pub begin-Yields :
      (body : Tx A) (c : Conn) (a : A) (db : Database) (n : ℕ)
      → Yields body (record { db = c.db; tick = suc c.tick }) a db n
      → Yields (begin body) c a db (suc n)
  unfolding begin
  begin-Yields body c a db n h = rw (clears c.tick, h, clears n) refl
