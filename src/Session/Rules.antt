-- ===== src/Session/Rules.antt =====
-- Pre- and postconditions of what runs on a connection. A body that raises is rolled back, so a
-- postcondition speaks of the bodies that return; `Keeps` speaks of every run.
use observability_lab.Prelude.{ℕ, suc, ◌≡◌, refl, Bool, true, false, if◌then◌else◌}
use observability_lab.Server.{Server, Fate, clear, operational, reply_lost, refused}
use observability_lab.Result
use observability_lab.Result.{Error, Result, ok, err, raise_if}
use observability_lab.Tables.{Database}
use observability_lab.Session.{
  Conn, Tx, pure, lift, continue, ◌>>=◌, Statement, settle, meet, execute, commit, close, enter,
  begin,
}

abbrev pub Pred : Type 1
Pred = Database → Type 0

-- of a run that returns
abbrev pub Post : {A : Type 0} → (A → Pred) → Result A × Conn → Type 0
Post Q (ok a, c) = Q a c.db
Post Q (err e, c) = Unit

abbrev pub Does : {A : Type 0} → (A → Pred) → Result (A × Database) → Type 0
Does Q (ok (a, db)) = Q a db
Does Q (err e) = Unit

pub Does-bind :
    {A B : Type 0} (Q : A → Pred) (R : B → Pred) (m : Result (A × Database))
    (f : A × Database → Result (B × Database))
    → Does Q m
    → ((a : A) (db : Database) → Q a db → Does R (f (a, db)))
    → Does R (Result.◌>>=◌ m f)
Does-bind Q R (ok (a, db)) f h k = k a db h
Does-bind Q R (err e) f h k = tt

-- A test of a statement whose outcome is not used.
pub Does-skip :
    {A : Type 0} (Q : A → Pred) (m : Result (Unit {0})) (k : Result (A × Database))
    → Does Q k
    → Does Q (Result.◌>>◌ m k)
Does-skip Q (ok a) k h = h
Does-skip Q (err e) k h = tt

pub Does-weaken :
    {A : Type 0} (Q Q' : A → Pred) (m : Result (A × Database))
    → ((a : A) (db : Database) → Q a db → Q' a db)
    → Does Q m
    → Does Q' m
Does-weaken Q Q' (ok (a, db)) f h = f a db h
Does-weaken Q Q' (err e) f h = tt

-- From `P`, a run that returns `a` ends in `Q a`.
pub record Ensures {A : Type 0} (P : Pred) (m : Tx A) (Q : A → Pred) : Type 0 where
  pub at : (c : Conn) → P c.db → Post Q (m c)

-- Whether it returns or raises, `P` holds afterwards.
pub record Keeps {A : Type 0} (P : Pred) (m : Tx A) : Type 0 where
  pub at : (c : Conn) → P c.db → P (m c).1.db

module _ {A : Type 0} where
  pub Ensures-pure :
      (P : Pred) (a : A) (Q : A → Pred) → ((db : Database) → P db → Q a db) → Ensures P (pure a) Q
  unfolding pure
  Ensures-pure P a Q h = record { at = λ c p. h c.db p }

  pub Ensures-lift : (P : Pred) (r : Result A) → Ensures P (lift r) (λ _. P)
  unfolding lift
  Ensures-lift P (ok a) = record { at = λ c p. p }
  Ensures-lift P (err e) = record { at = λ c p. tt }

  settled :
      (Q : A → Pred) (f : Fate) (r : Result (A × Database)) (db : Database) (n : ℕ)
      → Does Q r
      → Post Q (settle db n (meet f r))
  settled Q clear (ok (a, db')) db n h = h
  settled Q clear (err e) db n h = tt
  settled Q operational r db n h = tt
  settled Q reply_lost r db n h = tt
  settled Q refused r db n h = tt

  pub Ensures-execute :
      ⦃s : Server⦄ (P : Pred) (f : Statement A) (Q : A → Pred)
      → ((now id : ℕ) (db : Database) → P db → Does Q (f now id db))
      → Ensures P (execute f) Q
  unfolding execute
  Ensures-execute ⦃s⦄ P f Q h = record {
    at = λ c p.
        settled Q (s.fate c.tick) (f (s.time c.tick) (s.identity c.tick) c.db) c.db (suc c.tick)
          (h (s.time c.tick) (s.identity c.tick) c.db p);
  }

  pub Ensures-if :
      (P : Pred) (b : Bool) (m n : Tx A) (Q : A → Pred)
      → (b ≡ true → Ensures P m Q)
      → (b ≡ false → Ensures P n Q)
      → Ensures P (if b then m else n) Q
  Ensures-if P true m n Q hm hn = hm refl
  Ensures-if P false m n Q hm hn = hn refl

  -- A transaction: the body's postcondition is needed only where it returns.
  closed :
      (P : Pred) (f : Fate) (before : Database) (c : Conn) (a : A)
      → P before
      → P c.db
      → P (commit f before c a).1.db
  closed P clear before c a h k = k
  closed P operational before c a h k = h
  closed P reply_lost before c a h k = k
  closed P refused before c a h k = h

  close-keeps :
      ⦃s : Server⦄ (P : Pred) (before : Database) (o : Result A × Conn)
      → P before
      → Post (λ _. P) o
      → P (close before o).1.db
  close-keeps ⦃s⦄ P before (ok a, c) h k =
      closed P (s.fate c.tick) before (record c { tick = suc c.tick }) a h k
  close-keeps P before (err e, c) h k = h

  enter-keeps :
      ⦃s : Server⦄ (P : Pred) (f : Fate) (body : Tx A) (c : Conn)
      → Ensures P body (λ _. P)
      → P c.db
      → P (enter f body c).1.db
  enter-keeps P clear body c e h =
      close-keeps P c.db (body (record c { tick = suc c.tick })) h
        (e.at (record c { tick = suc c.tick }) h)
  enter-keeps P operational body c e h = h
  enter-keeps P reply_lost body c e h = h
  enter-keeps P refused body c e h = h

  pub Keeps-begin :
      ⦃s : Server⦄ (P : Pred) (body : Tx A) → Ensures P body (λ _. P) → Keeps P (begin body)
  unfolding begin
  Keeps-begin ⦃s⦄ P body e = record { at = λ c h. enter-keeps P (s.fate c.tick) body c e h }

  pub Ensures-weaken :
      (P' P : Pred) (m : Tx A) (Q Q' : A → Pred)
      → ((db : Database) → P' db → P db)
      → ((a : A) (db : Database) → Q a db → Q' a db)
      → Ensures P m Q
      → Ensures P' m Q'
  Ensures-weaken P' P m Q Q' hp hq e = record { at = λ c p. weakened (m c) (e.at c (hp c.db p)) }
    where
      weakened : (o : Result A × Conn) → Post Q o → Post Q' o
      weakened (ok a, c) h = hq a c.db h
      weakened (err x, c) h = tt

  committed :
      (Q : A → Pred) (f : Fate) (before : Database) (c : Conn) (a : A)
      → Q a c.db
      → Post Q (commit f before c a)
  committed Q clear before c a h = h
  committed Q operational before c a h = tt
  committed Q reply_lost before c a h = tt
  committed Q refused before c a h = tt

  close-Ensures :
      ⦃s : Server⦄ (Q : A → Pred) (before : Database) (o : Result A × Conn)
      → Post Q o
      → Post Q (close before o)
  close-Ensures ⦃s⦄ Q before (ok a, c) h =
      committed Q (s.fate c.tick) before (record c { tick = suc c.tick }) a h
  close-Ensures Q before (err e, c) h = tt

  enter-Ensures :
      ⦃s : Server⦄ (P : Pred) (Q : A → Pred) (f : Fate) (body : Tx A) (c : Conn)
      → Ensures P body Q
      → P c.db
      → Post Q (enter f body c)
  enter-Ensures P Q clear body c e h =
      close-Ensures Q c.db (body (record c { tick = suc c.tick }))
        (e.at (record c { tick = suc c.tick }) h)
  enter-Ensures P Q operational body c e h = tt
  enter-Ensures P Q reply_lost body c e h = tt
  enter-Ensures P Q refused body c e h = tt

  pub Ensures-begin :
      ⦃s : Server⦄ (P : Pred) (Q : A → Pred) (body : Tx A)
      → Ensures P body Q
      → Ensures P (begin body) Q
  unfolding begin
  Ensures-begin ⦃s⦄ P Q body e = record { at = λ c h. enter-Ensures P Q (s.fate c.tick) body c e h }

module _ {A B : Type 0} where
  continued :
      (Q : A → Pred) (f : A → Tx B) (R : B → Pred) (o : Result A × Conn)
      → Post Q o
      → ((a : A) → Ensures (Q a) (f a) R)
      → Post R (continue o f)
  continued Q f R (ok a, c) h k = (k a).at c h
  continued Q f R (err e, c) h k = tt

  pub Ensures-bind :
      (P : Pred) (m : Tx A) (Q : A → Pred) (f : A → Tx B) (R : B → Pred)
      → Ensures P m Q
      → ((a : A) → Ensures (Q a) (f a) R)
      → Ensures P (m >>= f) R
  unfolding ◌>>=◌
  Ensures-bind P m Q f R hm hf = record { at = λ c p. continued Q f R (m c) (hm.at c p) hf }

module _ {A B : Type 0} where
  -- What the process has computed is known.
  pub Ensures-known :
      (P : Pred) (r : Result A) (a : A) (f : A → Tx B) (R : B → Pred)
      → r ≡ ok a
      → Ensures P (f a) R
      → Ensures P (lift r >>= f) R
  unfolding lift ◌>>=◌
  Ensures-known P r a f R e h = record { at = λ c p. rw e (h.at c p) }

  -- The same, where what was computed is worth knowing.
  pub Ensures-read :
      (P : Pred) (r : Result A) (f : A → Tx B) (R : B → Pred)
      → ((a : A) → r ≡ ok a → Ensures P (f a) R)
      → Ensures P (lift r >>= f) R
  unfolding lift ◌>>=◌
  Ensures-read P (ok a) f R h = record { at = λ c p. (h a refl).at c p }
  Ensures-read P (err e) f R h = record { at = λ c p. tt }

-- A part of the precondition that does not speak of the tables.
pub Ensures-given :
    {A : Type 0} (K : Type 0) (P : Pred) (m : Tx A) (R : A → Pred)
    → (K → Ensures P m R)
    → Ensures (λ db. K × P db) m R
Ensures-given K P m R h = record { at = λ c p. (h p.0).at c p.1 }

-- The rules with one predicate throughout.
abbrev pub Maintains : {A : Type 0} → Pred → Tx A → Type 0
Maintains P m = Ensures P m (λ _. P)

-- A first step that keeps what holds.
pub Ensures-after :
    {A B : Type 0} (P : Pred) (m : Tx A) (f : A → Tx B) (R : B → Pred)
    → Maintains P m
    → ((a : A) → Ensures P (f a) R)
    → Ensures P (m >>= f) R
Ensures-after P m f R hm hf = Ensures-bind P m (λ _. P) f R hm hf

module _ {P : Pred} {A : Type 0} where
  pub Maintains-pure : (a : A) → Maintains P (pure a)
  Maintains-pure a = Ensures-pure P a (λ _. P) (λ db h. h)

  pub Maintains-lift : (r : Result A) → Maintains P (lift r)
  Maintains-lift r = Ensures-lift P r

  pub Maintains-if :
      (b : Bool) (m n : Tx A) → Maintains P m → Maintains P n → Maintains P (if b then m else n)
  Maintains-if b m n hm hn = Ensures-if P b m n (λ _. P) (λ _. hm) (λ _. hn)

  pub Maintains-execute :
      ⦃s : Server⦄ (f : Statement A)
      → ((now id : ℕ) (db : Database) → P db → Does (λ _. P) (f now id db))
      → Maintains P (execute f)
  Maintains-execute f h = Ensures-execute P f (λ _. P) h

  pub Maintains-bind :
      {B : Type 0} (m : Tx B) (f : B → Tx A)
      → Maintains P m
      → ((b : B) → Maintains P (f b))
      → Maintains P (m >>= f)
  Maintains-bind m f hm hf = Ensures-bind P m (λ _. P) f (λ _. P) hm hf

pub ruleset maintains_rules = (Maintains-pure, Maintains-lift, Maintains-if, Maintains-bind)
