-- ===== src/Consumer/Succeeds.antt =====
-- What is common to the events that succeed: the claim, the mark, `_run_in_txn` around them, and
-- `handle_message` around it.
use observability_lab.Prelude.{
  ℕ, suc, String, Option, some, none, false, ◌∷◌, any, List, ◌≡◌, refl, ◌∙◌, ap,
}
use observability_lab.Server.{Server, clear, same}
use observability_lab.Result.{Result, ok}
use observability_lab.Payload.{given, subscript, EventData, Event}
use observability_lab.Tables.{Database, ProcessedWebhookEvent}
use observability_lab.Session.{Conn, pure}
use observability_lab.Session.Succeeds.{
  Yields, Yields-bind, lift-bind, execute-Yields, begin-Yields,
}
use observability_lab.Sql.Events.{is_claimed, insert_event, update_processed}
use observability_lab.Sql.Accepted.{ledger_row, insert_event-new, update_processed-first}
use observability_lab.DbOps.Events.{claim_event, mark_event_processed}
use observability_lab.Consumer.Process.{Reply, dispatch, process_event, txn_body, run_in_txn}
use observability_lab.Consumer.Handle.{
  Packages, Message, State, is_operational, emit, conclude, attempts, handle_event,
  handle_identified, handle_loaded, handle_message,
}

-- The decoded message.
pub record IsEvent (ev : Event) (e t : String) (d : EventData) : Type 0 where
  pub event_id : ev.event_id ≡ given e
  pub event_type : ev.event_type ≡ given t
  pub payload : ev.payload ≡ given d

module _ ⦃s : Server⦄ where
  -- The tables with the event in the ledger, not yet marked.
  abbrev pub claimed : String → String → Database → ℕ → Database
  claimed e t db n = record db {
    processed_webhook_events = ledger_row e t (s.time n) none ∷ db.processed_webhook_events;
  }

  -- The tables with the event marked.
  abbrev pub marked : String → String → Database → ℕ → List ProcessedWebhookEvent → ℕ → Database
  marked e t db n rows m = record db {
    processed_webhook_events = ledger_row e t (s.time n) (some (s.time m)) ∷ rows;
  }

  module _ (clears : (n : ℕ) → s.fate n ≡ clear) (ev : Event) (e t : String) (d : EventData)
      (is_event : IsEvent ev e t d) where
    claim-Yields :
        (o : Conn)
        → is_claimed e o.db ≡ false
        → Yields (claim_event (some e) (some t)) o tt (claimed e t o.db o.tick) (suc o.tick)
    unfolding claim_event
    claim-Yields o h =
        rw
          (execute-Yields clears (insert_event (some e) (some t)) o tt (claimed e t o.db o.tick)
            (insert_event-new e t (s.time o.tick) (s.identity o.tick) o.db h))
          refl

    mark-Yields :
        (o : Conn) (n : ℕ) (rows : List ProcessedWebhookEvent)
        → o.db.processed_webhook_events ≡ ledger_row e t (s.time n) none ∷ rows
        → any (λ r. same e r.event_id) rows ≡ false
        → Yields (mark_event_processed (some e)) o tt (marked e t o.db n rows o.tick) (suc o.tick)
    unfolding mark_event_processed
    mark-Yields o n rows q h =
        execute-Yields clears (update_processed (some e)) o tt (marked e t o.db n rows o.tick)
          (update_processed-first e t (s.time o.tick) (s.identity o.tick) (s.time n) o.db rows q h)

    -- The transaction around what the event's type does: the claim before, the mark after.
    pub run-Yields :
        (o : Conn) (r : Reply) (db : Database) (m : ℕ)
        → is_claimed e o.db ≡ false
        → Yields
            (dispatch (some e) (some t) (some d))
            (record { db = claimed e t o.db (suc o.tick); tick = suc (suc o.tick) })
            r
            db
            m
        → db.processed_webhook_events
          ≡ ledger_row e t (s.time (suc o.tick)) none ∷ o.db.processed_webhook_events
        → Yields
            (run_in_txn ev (some e))
            o
            r
            (marked e t db (suc o.tick) o.db.processed_webhook_events m)
            (suc (suc m))
    unfolding run_in_txn txn_body process_event pure
    run-Yields o r db m h k q = begin-Yields clears (txn_body ev (some e)) o r _ (suc m) (
        Yields-bind (process_event ev) _ (record { db = o.db; tick = suc o.tick }) r db m _
          (lift-bind (subscript ev.event_id) _ _ (some e) _ (ap subscript is_event.event_id) (
            lift-bind (subscript ev.event_type) _ _ (some t) _ (ap subscript is_event.event_type) (
              lift-bind (subscript ev.payload) _ _ (some d) _ (ap subscript is_event.payload) (
                Yields-bind (claim_event (some e) (some t)) _ _ _ _ _ _
                  (claim-Yields (record { db = o.db; tick = suc o.tick }) h) k))))
          (Yields-bind (mark_event_processed (some e)) _ _ _ _ _ _
            (mark-Yields (record { db = db; tick = m }) (suc o.tick) o.db.processed_webhook_events q
              h)
            refl))

  module _ (p : Packages) where
    -- The state after the transaction and the count.
    abbrev pub counted : String → Database → ℕ → State → State
    counted t db n k = record k {
      conn = record { db = db; tick = n };
      counts = (t, "success") ∷ k.counts;
    }

    -- The first attempt returns, so there is no other.
    attempts-Yields :
        (ev : Event) (e : String) (k : State) (r : Reply) (db : Database) (n : ℕ)
        → Yields (run_in_txn ev (some e)) k.conn r db n
        → Yields (attempts p ev (some e)) k.conn r db n
    unfolding attempts
    attempts-Yields ev e k r db n h =
        rw (p.retry_again is_operational 1 (run_in_txn ev (some e)) k.conn, h) refl

    concluded :
        (ev : Event) (e t : String) (d : EventData) (k : State) (r : Reply) (db : Database) (n : ℕ)
        → IsEvent ev e t d
        → Yields (run_in_txn ev (some e)) k.conn r db n
        → handle_event p ev (some e) k ≡ emit p (some e) r (ok tt, counted t db n k)
    unfolding handle_event conclude
    concluded ev e t d k r db n c h =
        rw (attempts-Yields ev e k r db n h, ap subscript c.event_type) refl

    identified :
        (msg : Message) (ev : Event) (q : Result (Option String)) (e : Option String) (k : State)
        → q ≡ ok e
        → handle_identified p msg ev q k ≡ handle_event p ev e k
    identified msg ev q e k h = rw h refl

    pub handled :
        (msg : Message) (ev : Event) (e t : String) (d : EventData) (k : State) (r : Reply)
        (db : Database) (n : ℕ)
        → p.loads msg.value ≡ some ev
        → IsEvent ev e t d
        → Yields (run_in_txn ev (some e)) k.conn r db n
        → handle_message p msg k ≡ emit p (some e) r (ok tt, counted t db n k)
    unfolding handle_message handle_loaded
    handled msg ev e t d k r db n l c h = rw l (
        identified msg ev (subscript ev.event_id) (some e) k (ap subscript c.event_id)
        ∙ concluded ev e t d k r db n c h)
