-- ===== src/Consumer/Idempotence.antt =====
-- Redelivery and atomicity: what `handle_message` leaves behind for an event that was processed, and
-- for one that was not.
use observability_lab.Prelude.{
  ℕ, String, Option, none, some, true, List, [], ◌≡◌, refl, ap, ◌∙◌, ◌⊎◌, inl, inr, arith,
}
use observability_lab.Server.{Server}
use observability_lab.Result.{
  duplicate_event, operational_error, integrity_error, sqlalchemy_error, other_exception, Result,
  ok, err,
}
use observability_lab.Payload.{Event, subscript}
use observability_lab.Tables.{Database}
use observability_lab.Session.{Conn}
use observability_lab.Session.Rules.{Pred, Post, Does, Ensures, Ensures-weaken, Maintains}
use observability_lab.Sql.Events.{is_claimed, insert_event, insert_log}
use observability_lab.Consumer.Process.{Reply, txn_body}
use observability_lab.Consumer.Handle.{
  Packages, Message, State, conclude, attempts, handle_event, handle_message,
}
use observability_lab.Consumer.Loop.{main_loop}
use observability_lab.Consumer.Invariant.Lift.{
  IsUnlogged, attempts-keeps, conclude-keeps, main_loop-keeps,
}
use observability_lab.Consumer.Invariant.Walk.{dispatch-Maintains}
use observability_lab.Consumer.Invariant.Body.{body-Maintains}
use observability_lab.Sql.Keys.{same_refl}
use observability_lab.Consumer.Invariant.Txn.{body-Ensures, attempts-Ensures}
use observability_lab.Consumer.Ledger.Claims.{claim-IsKept, claim-IsInvariant}

-- The tables that hold business data and the ledger: all but the operational log.
abbrev pub unlogged : Database → Database
unlogged db = record db { pipeline_log = [] }

module _ ⦃s : Server⦄ where
  unlogged-log : (before : Database) → IsUnlogged (λ db. unlogged db ≡ before)
  unfolding insert_log
  unlogged-log before v l m e now id db h = h

  -- Nothing happened, or the body of the transaction has run to its end once, from these tables.
  abbrev pub RanOnce : Event → String → Database → Pred
  RanOnce e i before after =
      (after ≡ before)
      ⊎ ((tick : ℕ) × (a : Reply) × (c : Conn) × (txn_body e (some i)
              (record { db = before; tick = tick })
            ≡ (ok a, c))
          × (after ≡ c.db)
          × (is_claimed i after ≡ true))

  module _ (e : Event) (i : String) (named : subscript e.event_id ≡ ok (some i)) where
    refused_claim :
        (t : Option String) (now id : ℕ) (db : Database)
        → is_claimed i db ≡ true
        → Does (λ _ _. ⊥) (insert_event (some i) t now id db)
    unfolding insert_event
    refused_claim none now id db h = tt
    refused_claim (some t) now id db h = rw h tt

    -- The body of the transaction does not return for an event that is in the ledger.
    body-refuses : Ensures (λ db. is_claimed i db ≡ true) (txn_body e (some i)) (λ _ _. ⊥)
    body-refuses =
        body-Ensures (λ db. is_claimed i db ≡ true) (λ _. ⊥) (λ _. ⊥) e (some i) named refused_claim
          (λ t d. record { at = λ c h. absurd h }) (λ now id db h. absurd h)

    accepted_claim :
        (t : Option String) (now id : ℕ) (db : Database)
        → Unit {0}
        → Does (λ _ db'. is_claimed i db' ≡ true) (insert_event (some i) t now id db)
    unfolding insert_event
    accepted_claim t now id db h = ground (arith, same_refl i)

    body-claims : Ensures (λ _. Unit) (txn_body e (some i)) (λ _ db. is_claimed i db ≡ true)
    body-claims =
        body-Ensures (λ _. Unit) (λ db. is_claimed i db ≡ true) (λ db. is_claimed i db ≡ true) e
          (some i) named accepted_claim
          (dispatch-Maintains _ (claim-IsInvariant i).business (some i))
          ((claim-IsInvariant i).processed (some i))

    never : (Q : Reply → Pred) (o : Result Reply × Conn) → Post (λ _ _. ⊥) o → Post Q o
    never Q (ok a, c) h = absurd h
    never Q (err x, c) h = tt

    ran :
        (before : Database) (c : Conn) (o : Result Reply × Conn)
        → c.db ≡ before
        → txn_body e (some i) c ≡ o
        → Post (λ _ db. is_claimed i db ≡ true) o
        → Post (λ _. RanOnce e i before) o
    ran before c (ok a, c') q eq h = inr (c.tick, a, c', rw (← q) eq, refl, h)
    ran before c (err x, c') q eq h = tt

    body-RanOnce : (before : Database) → Maintains (RanOnce e i before) (txn_body e (some i))
    body-RanOnce before = record { at = go }
      where
        go :
            (c : Conn)
            → RanOnce e i before c.db
            → Post (λ _. RanOnce e i before) (txn_body e (some i) c)
        go c (inl q) = ran before c (txn_body e (some i) c) q refl (body-claims.at c tt)
        go c (inr (tick, a, c', eq, q, h)) =
            never (λ _. RanOnce e i before) (txn_body e (some i) c) (body-refuses.at c h)

    module _ (p : Packages) (msg : Message) (loaded : p.loads msg.value ≡ some e) where
      handle_message-eq : (k : State) → handle_message p msg k ≡ handle_event p e (some i) k
      unfolding handle_message
      handle_message-eq k = rw (loaded, named)

      handle_event-settles :
          (k : State)
          → unlogged (handle_event p e (some i) k).1.conn.db
            ≡ unlogged (attempts p e (some i) k.conn).1.db
      unfolding handle_event
      handle_event-settles k =
          conclude-keeps p _ (unlogged-log (unlogged (attempts p e (some i) k.conn).1.db)) e
            (some i) (attempts p e (some i) k.conn).0
            (record k { conn = (attempts p e (some i) k.conn).1 }) refl

      -- A message with this event leaves the business tables and the ledger as they were, or as
      -- one run of the transaction's body to its end leaves them, with the event in the ledger;
      -- whatever the server and the broker do, in up to three attempts.
      pub message_atomic :
          (k : State)
          → (settled : Database) × RanOnce e i k.conn.db settled
            × (unlogged (handle_message p msg k).1.conn.db ≡ unlogged settled)
      message_atomic k = (
        (attempts p e (some i) k.conn).1.db,
        attempts-keeps p (RanOnce e i k.conn.db) e (some i) (body-RanOnce k.conn.db) k.conn
            (inl refl),
        rw handle_message-eq (handle_event-settles k),
      )

      conclude-published :
          (o : Result Reply × Conn) (k : State)
          → Post (λ _ _. ⊥) o
          → (conclude p e (some i) o.0 k).1.published ≡ k.published
      unfolding conclude
      conclude-published (ok a, c) k h = absurd h
      conclude-published (err duplicate_event, c) k h = ground arith
      conclude-published (err operational_error, c) k h = ground arith
      conclude-published (err integrity_error, c) k h = ground arith
      conclude-published (err sqlalchemy_error, c) k h = ground arith
      conclude-published (err other_exception, c) k h = refl

      replay-published :
          (k : State)
          → is_claimed i k.conn.db ≡ true
          → (handle_event p e (some i) k).1.published ≡ k.published
      unfolding handle_event
      replay-published k h =
          conclude-published (attempts p e (some i) k.conn)
            (record k { conn = (attempts p e (some i) k.conn).1 })
            ((attempts-Ensures p (λ db. is_claimed i db ≡ true) (λ _. ⊥) e (some i)
                (body-Maintains _ (claim-IsInvariant i) e (some i)) body-refuses).at
              k.conn h)

      replay-db :
          (k : State)
          → is_claimed i k.conn.db ≡ true
          → (attempts p e (some i) k.conn).1.db ≡ k.conn.db
      replay-db k h =
          attempts-keeps p (λ db. db ≡ k.conn.db) e (some i)
            (Ensures-weaken (λ db. db ≡ k.conn.db) (λ db. is_claimed i db ≡ true)
              (txn_body e (some i)) (λ _ _. ⊥) (λ _ db. db ≡ k.conn.db) (λ db q. rw q h)
              (λ _ _ n. absurd n) body-refuses)
            k.conn refl

      -- Once the event is in the ledger, then after any further batches a redelivery of its message
      -- changes no business table and no ledger row, and publishes nothing; whatever the server,
      -- the packages and the broker do.
      pub redelivery_no_op :
          (polls : List (List (ℕ × List Message))) (k : State)
          → is_claimed i k.conn.db ≡ true
          → let k' = (main_loop p polls k).1 in
            (unlogged (handle_message p msg k').1.conn.db ≡ unlogged k'.conn.db)
            × ((handle_message p msg k').1.published ≡ k'.published)
      redelivery_no_op polls k h =
          let k' = (main_loop p polls k).1 in
          let h' : is_claimed i k'.conn.db ≡ true =
            main_loop-keeps p (λ db. is_claimed i db ≡ true) (claim-IsKept i) polls k h in
          (
            rw handle_message-eq (handle_event-settles k' ∙ ap unlogged (replay-db k' h')),
            rw handle_message-eq (replay-published k' h'),
          )
