-- ===== src/Consumer/Applied.antt =====
-- A change of status that the database accepts, through `process_event` and `_run_in_txn`, on a
-- server that carries every statement out.
pub mod Message
use observability_lab.Prelude.{
  ℕ, suc, String, ◌==◌, Option, none, some, Bool, true, false, ◌&&◌, List, [], ◌∷◌, ◌≡◌, refl, ◌∙◌,
  ap, any, find, filter, update_where, eqb, if◌then◌else◌,
}
use observability_lab.Server.{Server, clear, same}
use observability_lab.Result.{ok}
use observability_lab.Payload.{Field, given, subscript, as_dict, EventData, Event}
use observability_lab.Tables.{
  Database, Client, Address, Order, OrderItem, order_status_check, is_terminal,
}
use observability_lab.Session.{Conn, Tx, pure, lift, ◌>>=◌, execute, begin}
use observability_lab.Session.Succeeds.{after, Yields, Yields-bind, lift-bind, execute-Yields}
use observability_lab.Consumer.Succeeds.{IsEvent, claimed, run-Yields}
use observability_lab.Sql.Events.{is_claimed, insert_event, update_processed}
use observability_lab.Sql.Orders.{
  insert_history, update_orders, set_status, select_joined, select_items,
}
use observability_lab.Sql.Accepted.{
  ledger_row, history_row, update_orders-open, insert_history-new, is_order-updated, find-updated,
  select_joined-found,
}
use observability_lab.DbOps.Events.{claim_event, mark_event_processed}
use observability_lab.DbOps.Orders.{
  Snapshot, record_status_history, update_order_status, fetch_order_snapshot,
}
use observability_lab.Consumer.Process.{
  Outbox, Reply, approved, after_update, order_status_changed, dispatch, process_event, txn_body,
  run_in_txn,
}

-- The event, as it was decoded: order `x` is to take the status `t`.
pub record IsStatusChange (ev : Event) (e x t : String) : Type 0 where
  pub details : EventData
  pub is_event : IsEvent ev e "ORDER_STATUS_CHANGED" details
  pub external_order_id : details.external_order_id ≡ given x
  pub new_status : details.new_status ≡ given t

module _ ⦃s : Server⦄ where
  -- No constraint or trigger refuses it: the event is new, the order is found by both of its keys and
  -- is not in a terminal status, the status is one of those allowed, and the identity that the
  -- history takes is not in use. `n` is the number of statements that were sent before.
  pub record IsDue (e x t : String) (o : Order) (db : Database) (n : ℕ) : Type 0 where
    pub unclaimed : is_claimed e db ≡ false
    pub found : find (λ d. same x d.external_order_id) db.orders ≡ some o
    pub keyed : find (λ d. eqb d.order_id o.order_id) db.orders ≡ some o
    pub still_open : any (λ d. same x d.external_order_id && is_terminal d.status) db.orders ≡ false
    pub allowed : order_status_check t ≡ true
    pub fresh : any (λ h. eqb (s.identity (after 3 n)) h.history_id) db.order_status_history ≡ false

  -- The tables with the change of status, and no other: `m` is the statement of the mark.
  abbrev pub applied : String → String → String → Order → Database → ℕ → ℕ → Database
  applied e x t o db n m = record db {
    orders =
        update_where (λ d. same x d.external_order_id) (set_status t (s.time (after 2 n)))
          db.orders;
    order_status_history =
        history_row (s.identity (after 3 n)) o.order_id (some o.status) t (s.time (after 3 n)) e
        ∷ db.order_status_history;
    processed_webhook_events =
        ledger_row e "ORDER_STATUS_CHANGED" (s.time (suc n)) (some (s.time m))
        ∷ db.processed_webhook_events;
  }

  -- The same before the mark.
  abbrev unmarked : String → String → String → Order → Database → ℕ → Database
  unmarked e x t o db n = record (applied e x t o db n n) {
    processed_webhook_events =
        ledger_row e "ORDER_STATUS_CHANGED" (s.time (suc n)) none ∷ db.processed_webhook_events;
  }

  abbrev moved : String → String → String → Database → ℕ → Database
  moved e x t db n = record (claimed e "ORDER_STATUS_CHANGED" db (suc n)) {
    orders =
        update_where (λ d. same x d.external_order_id) (set_status t (s.time (after 2 n)))
          db.orders;
  }

  -- What the database then holds of the order, with its client, its address and its items.
  abbrev pub snapshot : String → Order → Client → Address → Database → ℕ → Snapshot
  snapshot t o cl a db n = record {
    order = set_status t (s.time (after 2 n)) o;
    client = cl;
    address = a;
    items = filter (λ i. eqb i.order_id o.order_id) db.order_items;
  }

  module _ (clears : (n : ℕ) → s.fate n ≡ clear) (e x t : String) (o : Order) (db : Database)
      (n : ℕ) (due : IsDue e x t o db n) where
    update-Yields :
        Yields
          (update_order_status (some x) (some t))
          (record { db = claimed e "ORDER_STATUS_CHANGED" db (suc n); tick = after 2 n })
          (some (o.order_id, o.status))
          (moved e x t db n)
          (after 3 n)
    unfolding update_order_status
    update-Yields =
        execute-Yields clears (update_orders (some x) (some t))
          (record { db = claimed e "ORDER_STATUS_CHANGED" db (suc n); tick = after 2 n })
          (some (o.order_id, o.status)) (moved e x t db n)
          (update_orders-open x t o (s.time (after 2 n)) (s.identity (after 2 n))
            (claimed e "ORDER_STATUS_CHANGED" db (suc n)) due.found due.allowed due.still_open)

    history-Yields :
        Yields
          (record_status_history o.order_id (some o.status) (some t) (some e))
          (record { db = moved e x t db n; tick = after 3 n })
          tt
          (unmarked e x t o db n)
          (after 4 n)
    unfolding record_status_history
    history-Yields =
        execute-Yields clears (insert_history o.order_id (some o.status) (some t) (some e))
          (record { db = moved e x t db n; tick = after 3 n }) tt (unmarked e x t o db n)
          (insert_history-new o.order_id (some o.status) t e (s.time (after 3 n))
            (s.identity (after 3 n)) (moved e x t db n)
            (is_order-updated x t o (s.time (after 2 n)) db.orders due.found) due.fresh)

    -- What the event answers, given what follows the history.
    module _ (ev : Event) (c : IsStatusChange ev e x t) (r : Reply) (m : ℕ)
        (tail : Yields
          (approved (t == "APPROVED") o.order_id)
          (record { db = unmarked e x t o db n; tick = after 4 n })
          r
          (unmarked e x t o db n)
          m) where
      changed :
          Yields
            (order_status_changed (some e) (some c.details))
            (record { db = claimed e "ORDER_STATUS_CHANGED" db (suc n); tick = after 2 n })
            r
            (unmarked e x t o db n)
            m
      unfolding order_status_changed after_update
      changed = lift-bind (as_dict (some c.details)) _ _ c.details _ refl (
          lift-bind (subscript c.details.external_order_id) _ _ (some x) _
            (rw c.external_order_id refl)
            (lift-bind (subscript c.details.new_status) _ _ (some t) _ (rw c.new_status refl) (
              Yields-bind (update_order_status (some x) (some t)) _ _ _ _ _ _ update-Yields (
                Yields-bind (record_status_history o.order_id (some o.status) (some t) (some e)) _ _
                  _ _ _ _ history-Yields tail))))

      pub change-Yields :
          Yields
            (run_in_txn ev (some e))
            (record { db = db; tick = n })
            r
            (applied e x t o db n m)
            (suc (suc m))
      unfolding dispatch
      change-Yields =
          run-Yields clears ev e "ORDER_STATUS_CHANGED" c.details c.is_event
            (record { db = db; tick = n }) r (unmarked e x t o db n) m due.unclaimed changed refl

    -- Nothing follows but for "APPROVED",
    pub other-Yields :
        (t == "APPROVED") ≡ false
        → Yields
            (approved (t == "APPROVED") o.order_id)
            (record { db = unmarked e x t o db n; tick = after 4 n })
            none
            (unmarked e x t o db n)
            (after 4 n)
    unfolding pure
    other-Yields h = rw h refl

    -- and then the order is read back.
    pub approval-Yields :
        (cl : Client) (a : Address)
        → (t == "APPROVED") ≡ true
        → find (λ d. eqb d.client_id o.client_id) db.clients ≡ some cl
        → find (λ d. eqb d.address_id o.address_id) db.address ≡ some a
        → Yields
            (approved (t == "APPROVED") o.order_id)
            (record { db = unmarked e x t o db n; tick = after 4 n })
            (some (record { event_type = "ORDER_APPROVED"; order = snapshot t o cl a db n }))
            (unmarked e x t o db n)
            (after 6 n)
    unfolding pure fetch_order_snapshot select_items
    approval-Yields cl a h g k = rw h (
        Yields-bind (fetch_order_snapshot o.order_id) _ _ (snapshot t o cl a db n) _ _ _
          (Yields-bind (execute (select_joined o.order_id)) _ _ _ _ _ _
            (execute-Yields clears (select_joined o.order_id)
              (record { db = unmarked e x t o db n; tick = after 4 n })
              (some (set_status t (s.time (after 2 n)) o, cl, a)) (unmarked e x t o db n)
              (select_joined-found (set_status t (s.time (after 2 n)) o) cl a o.order_id _ _
                (unmarked e x t o db n)
                (find-updated x t o (s.time (after 2 n)) db.orders due.found due.keyed) g k))
            (Yields-bind (execute (select_items o.order_id)) _ _ _ _ _ _
              (execute-Yields clears (select_items o.order_id) _ _ _ refl)
              (lift-bind (as_dict (some (set_status t (s.time (after 2 n)) o, cl, a))) _ _ _ _ refl
                refl)))
          refl)
