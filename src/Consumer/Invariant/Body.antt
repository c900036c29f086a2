-- ===== src/Consumer/Invariant/Body.antt =====
-- The claim, the mark and the body of the transaction: the end of the walk.
use observability_lab.Prelude.{ℕ, String, Option}
use observability_lab.Server.{Server}
use observability_lab.Result.{Result, ok, err}
use observability_lab.Payload.{Event}
use observability_lab.Tables.{Database}
use observability_lab.Session.{Conn, execute}
use observability_lab.Session.Rules.{
  Pred, Post, Does, Ensures, Ensures-execute, Maintains, maintains_rules,
}
use observability_lab.Sql.Events.{insert_event, update_processed}
use observability_lab.DbOps.Events.{claim_event, mark_event_processed, on_integrity}
use observability_lab.Consumer.Process.{process_event, txn_body}
use observability_lab.Consumer.Invariant.Walk.{IsInvariant, dispatch-Maintains}

module _ ⦃s : Server⦄ where
  claimed :
      (Q : Unit {0} → Pred) (o : Result (Unit {0}) × Conn) → Post Q o → Post Q (on_integrity o)
  claimed Q (ok a, c) h = h
  claimed Q (err e, c) h = tt

  pub claim_event-Ensures :
      (P : Pred) (Q : Unit {0} → Pred) (e t : Option String)
      → ((now id : ℕ) (db : Database) → P db → Does Q (insert_event e t now id db))
      → Ensures P (claim_event e t) Q
  unfolding claim_event
  claim_event-Ensures P Q e t h = record {
    at = λ c p.
        claimed Q (execute (insert_event e t) c)
          ((Ensures-execute P (insert_event e t) Q h).at c p);
  }

  pub mark-Ensures :
      (P : Pred) (Q : Unit {0} → Pred) (e : Option String)
      → ((now id : ℕ) (db : Database) → P db → Does Q (update_processed e now id db))
      → Ensures P (mark_event_processed e) Q
  unfolding mark_event_processed
  mark-Ensures P Q e h = Ensures-execute P (update_processed e) Q h

module _ ⦃s : Server⦄ (P : Pred) (inv : IsInvariant P) where
  process_event-Maintains : (e : Event) → Maintains P (process_event e)
  unfolding process_event
  process_event-Maintains e =
      search
        (
          maintains_rules,
          dispatch-Maintains P inv.business,
          λ (i t : Option String). claim_event-Ensures P (λ _. P) i t (inv.events i t),
        )
        depth 12

  -- The body of `_run_in_txn`.
  pub body-Maintains : (e : Event) (i : Option String) → Maintains P (txn_body e i)
  unfolding txn_body
  body-Maintains e i =
      search
        (
          maintains_rules,
          process_event-Maintains,
          λ (j : Option String). mark-Ensures P (λ _. P) j (inv.processed j),
        )
        depth 8
