-- ===== src/Consumer/Invariant/Txn.antt =====
-- The transaction of one message in three phases: the claim, the handler, the mark; and its attempts.
use observability_lab.Prelude.{ℕ, zero, suc, String, ◌≡◌, Option}
use observability_lab.Server.{Server}
use observability_lab.Result.{
  duplicate_event, operational_error, integrity_error, sqlalchemy_error, other_exception, Result,
  ok, err,
}
use observability_lab.Payload.{subscript, EventData, Event}
use observability_lab.Tables.{Database}
use observability_lab.Session.{Conn, Tx, lift}
use observability_lab.Session.Rules.{
  Pred, Post, Does, Ensures, Ensures-bind, Ensures-lift, Ensures-known, Ensures-pure, Ensures-begin,
  Maintains, Keeps, Keeps-begin,
}
use observability_lab.Sql.Events.{insert_event, update_processed}
use observability_lab.DbOps.Events.{claim_event, mark_event_processed}
use observability_lab.Consumer.Process.{Reply, dispatch, process_event, txn_body, run_in_txn}
use observability_lab.Consumer.Handle.{Packages, again, is_operational, attempts}
use observability_lab.Consumer.Invariant.Body.{claim_event-Ensures, mark-Ensures}

module _ ⦃s : Server⦄ (P Q R : Pred) (e : Event) (i : Option String)
    (named : subscript e.event_id ≡ ok i)
    (claim : (t : Option String) (now id : ℕ) (db : Database)
      → P db
      → Does (λ _. Q) (insert_event i t now id db))
    (handler : (t : Option String) (d : Option EventData) → Maintains Q (dispatch i t d))
    (mark : (now id : ℕ) (db : Database)
      → Q db
      → Does (λ _. R) (update_processed i now id db)) where
  process_event-Ensures : Ensures P (process_event e) (λ _. Q)
  unfolding process_event
  process_event-Ensures =
      Ensures-known P (subscript e.event_id) i _ (λ _. Q) named
        (Ensures-bind P (lift (subscript e.event_type)) (λ _. P) _ (λ _. Q)
          (Ensures-lift P (subscript e.event_type))
          λ t.
            Ensures-bind P (lift (subscript e.payload)) (λ _. P) _ (λ _. Q)
              (Ensures-lift P (subscript e.payload))
              λ d.
                Ensures-bind P (claim_event i t) (λ _. Q) _ (λ _. Q)
                  (claim_event-Ensures P (λ _. Q) i t (claim t)) λ _. handler t d)

  pub body-Ensures : Ensures P (txn_body e i) (λ _. R)
  unfolding txn_body
  body-Ensures =
      Ensures-bind P (process_event e) (λ _. Q) _ (λ _. R) process_event-Ensures
        λ outbox.
          Ensures-bind Q (mark_event_processed i) (λ _. R) _ (λ _. R)
            (mark-Ensures Q (λ _. R) i mark) λ _. Ensures-pure R outbox (λ _. R) λ db h. h

module _ ⦃s : Server⦄ (p : Packages) (P R : Pred) where
  again-Ensures :
      (rest : Tx Reply) (o : Result Reply × Conn)
      → P o.1.db
      → Post (λ _. R) o
      → ((c : Conn) → P c.db → Post (λ _. R) (rest c))
      → Post (λ _. R) (again is_operational rest o)
  again-Ensures rest (ok a, c) h g k = g
  again-Ensures rest (err duplicate_event, c) h g k = tt
  again-Ensures rest (err operational_error, c) h g k = k c h
  again-Ensures rest (err integrity_error, c) h g k = tt
  again-Ensures rest (err sqlalchemy_error, c) h g k = tt
  again-Ensures rest (err other_exception, c) h g k = tt

  retry-Ensures :
      (n : ℕ) (m : Tx Reply)
      → Keeps P m
      → Ensures P m (λ _. R)
      → (c : Conn) → P c.db
      → Post (λ _. R) (p.retry is_operational (suc n) m c)
  retry-Ensures zero m km em c h = rw (p.retry_once is_operational m c) (em.at c h)
  retry-Ensures (suc n) m km em c h = rw (p.retry_again is_operational n m c) (
      again-Ensures (p.retry is_operational (suc n) m) (m c) (km.at c h) (em.at c h)
        (retry-Ensures n m km em))

  -- If an attempt returns, what its transaction establishes holds.
  pub attempts-Ensures :
      (e : Event) (i : Option String)
      → Maintains P (txn_body e i)
      → Ensures P (txn_body e i) (λ _. R)
      → Ensures P (attempts p e i) (λ _. R)
  unfolding attempts run_in_txn
  attempts-Ensures e i body done = record {
    at =
        retry-Ensures 2 (run_in_txn e i) (Keeps-begin P (txn_body e i) body)
          (Ensures-begin P (λ _. R) (txn_body e i) done);
  }
