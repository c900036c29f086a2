-- ===== src/Consumer/Created/Body.antt =====
-- `_run_in_txn` on an ORDER_CREATED event, step by step.
use observability_lab.Prelude.{
  ℕ, suc, String, none, some, false, [], ◌∷◌, map, arith, ◌≤◌, ◌≡◌, refl, sym, ap, eqb_refl,
}
use mathlib.Core.Path.{subst}
use observability_lab.Server.{Server, clear}
use observability_lab.Result.{ok}
use observability_lab.Payload.{subscript, get_default, as_dict, Event}
use observability_lab.Tables.{Database}
use observability_lab.Session.{Conn, pure, ◌>>=◌, ◌>>◌}
use observability_lab.Session.Succeeds.{
  after, after_le, From-le, Yields, Yields-bind, lift-bind, execute-Yields,
}
use observability_lab.Sql.Parties.{is_address, check_place}
use observability_lab.Sql.Orders.{insert_history}
use observability_lab.Sql.Accepted.{history_row, insert_history-new}
use observability_lab.Sql.Stored.{item_of, stored, order_row}
use observability_lab.DbOps.Parties.{place_values, upsert_client, upsert_current_address}
use observability_lab.DbOps.Orders.{insert_order, insert_order_items, record_status_history}
use observability_lab.Parties.Upsert.{IsCurrentVersion}
use observability_lab.Parties.Succeeds.{ClientDone, upsert_client-Done}
use observability_lab.Parties.Placed.{
  AddressDone, upsert_current_address-Done, AddressDone-IsCurrentVersion,
}
use observability_lab.Consumer.Process.{Reply, order_created, dispatch, run_in_txn}
use observability_lab.Consumer.Succeeds.{claimed, marked, run-Yields}
use observability_lab.Consumer.Created.{Purchase, IsPurchase, IsCreatable, dated, IsCreated}
use observability_lab.Consumer.Created.Steps.{
  items_steps, insert_order-Yields, insert_order_items-Yields,
}

module _ ⦃s : Server⦄ (clears : (n : ℕ) → s.fate n ≡ clear) (ev : Event) (e : String) (b : Purchase)
    (c : IsPurchase ev e b) (db : Database) (n : ℕ) (can : IsCreatable e b db n) where
  -- after the claim
  abbrev start : Conn
  start = record { db = claimed e "ORDER_CREATED" db (suc n); tick = after 2 n }

  client_done : ClientDone c.client b.external_client_id b.name b.email b.document start
  client_done =
      upsert_client-Done clears c.client b.external_client_id b.name b.email b.document start
        c.is_client_data (can.clients (after 2 n) (omega arith))

  abbrev with_client : Conn
  with_client = record { db = record start.db { clients = client_done.rows }; tick = after 3 n }

  address_done : AddressDone client_done.key c.address b.external_address_id with_client
  address_done =
      upsert_current_address-Done clears client_done.key c.address b.external_address_id with_client
        c.external_address_id
        (subst (λ q. check_place (place_values q) ≡ ok tt) (sym c.place) can.complete)
        client_done.known can.versioned
        (From-le (λ m. is_address (s.identity m) db ≡ false) (after 3 n) n (omega arith)
          can.addresses)

  -- the number of the INSERT of the order
  abbrev ordered : ℕ
  ordered = address_done.tick

  abbrev with_address : Conn
  with_address = record {
    db = record with_client.db { address = address_done.rows };
    tick = ordered;
  }

  abbrev with_order : Conn
  with_order = record {
    db = record with_address.db {
      orders =
          order_row b.external_order_id client_done.key address_done.key b.total_amount b.currency
            (dated b.order_date ordered) (s.time ordered) (s.identity ordered)
          ∷ db.orders;
    };
    tick = suc ordered;
  }

  -- the number of the INSERT of the history
  abbrev recorded : ℕ
  recorded = after (items_steps b.lines) (suc ordered)

  abbrev with_items : Conn
  with_items = record {
    db = record with_order.db {
      order_items = stored (s.identity ordered) (s.identity (suc ordered)) b.lines db.order_items;
    };
    tick = recorded;
  }

  abbrev with_history : Database
  with_history = record with_items.db {
    order_status_history =
        history_row (s.identity recorded) (s.identity ordered) none "PENDING" (s.time recorded) e
        ∷ db.order_status_history;
  }

  ordered_later : n ≤ ordered
  ordered_later = omega (arith, address_done.later)

  recorded_later : n ≤ recorded
  recorded_later = omega (arith, ordered_later, after_le (items_steps b.lines) (suc ordered))

  order-Yields :
      Yields
        (insert_order client_done.key address_done.key c.details)
        with_address
        (s.identity ordered)
        with_order.db
        (suc ordered)
  order-Yields =
      subst
        (λ f.
          Yields (insert_order client_done.key address_done.key c.details) with_address
            (s.identity ordered)
            (record with_address.db {
              orders =
                  order_row b.external_order_id client_done.key address_done.key b.total_amount
                    b.currency (dated f ordered) (s.time ordered) (s.identity ordered)
                  ∷ db.orders;
            })
            (suc ordered))
        c.order_date
        (insert_order-Yields clears client_done.key address_done.key c.details b.external_order_id
          b.total_amount b.currency with_address c.external_order_id c.total_amount c.currency
          client_done.known address_done.known (can.orders ordered ordered_later) can.unknown)

  items-Yields :
      Yields
        (insert_order_items (s.identity ordered) (some (map item_of b.lines)))
        with_order
        tt
        with_items.db
        recorded
  items-Yields =
      insert_order_items-Yields clears (s.identity ordered) b.lines with_order
        (rw (eqb_refl (s.identity ordered)) refl)
        (can.items (suc ordered) (omega (arith, ordered_later)))

  history-Yields :
      Yields
        (record_status_history (s.identity ordered) none (some "PENDING") (some e))
        with_items
        tt
        with_history
        (suc recorded)
  unfolding record_status_history
  history-Yields =
      execute-Yields clears (insert_history (s.identity ordered) none (some "PENDING") (some e))
        with_items tt with_history
        (insert_history-new (s.identity ordered) none "PENDING" e (s.time recorded)
          (s.identity recorded) with_items.db (rw (eqb_refl (s.identity ordered)) refl)
          (can.history recorded recorded_later))

  -- from `insert_order` on
  stored-Yields :
      Yields {A = Reply}
        (insert_order client_done.key address_done.key c.details >>= λ o.
          insert_order_items o (get_default c.details.items [])
          >> (record_status_history o none (some "PENDING") (some e) >> pure none))
        with_address
        none
        with_history
        (suc recorded)
  unfolding pure
  stored-Yields =
      Yields-bind (insert_order client_done.key address_done.key c.details) _ with_address
        (s.identity ordered) with_order.db (suc ordered) _ order-Yields
        (rw c.lines (
          Yields-bind (insert_order_items (s.identity ordered) (some (map item_of b.lines))) _
            with_order tt with_items.db recorded _ items-Yields
            (Yields-bind (record_status_history (s.identity ordered) none (some "PENDING") (some e))
              _ with_items tt with_history (suc recorded) _ history-Yields refl)))

  created-Yields :
      Yields (order_created (some e) (some c.details)) start none with_history (suc recorded)
  unfolding order_created pure
  created-Yields = lift-bind (as_dict (some c.details)) _ start c.details _ refl (
      lift-bind (subscript c.details.client) _ start (some c.client) _ (ap subscript c.says_client)
        (lift-bind (as_dict (some c.client)) _ start c.client _ refl (
          Yields-bind (upsert_client c.client) _ start client_done.key with_client.db (after 3 n) _
            client_done.yields
            (lift-bind (subscript c.details.address) _ with_client (some c.address) _
              (ap subscript c.says_address)
              (lift-bind (as_dict (some c.address)) _ with_client c.address _ refl (
                Yields-bind (upsert_current_address client_done.key c.address) _ with_client
                  address_done.key with_address.db ordered _ address_done.yields stored-Yields))))))

  -- The tables after the mark.
  abbrev final : Database
  final = marked e "ORDER_CREATED" with_history (suc n) db.processed_webhook_events (suc recorded)

  creation-Yields :
      Yields (run_in_txn ev (some e)) (record { db = db; tick = n }) none final (after 3 recorded)
  unfolding dispatch
  creation-Yields =
      run-Yields clears ev e "ORDER_CREATED" c.details c.is_event (record { db = db; tick = n })
        none with_history (suc recorded) can.unclaimed created-Yields refl

  final-IsCreated : IsCreated e b db n final (after 3 recorded)
  final-IsCreated = record {
    client_key = client_done.key;
    address_key = address_done.key;
    ordered = ordered;
    recorded = recorded;
    order_later = ordered_later;
    later = recorded_later;
    sent = refl;
    client = client_done.named;
    address =
        subst (λ q. IsCurrentVersion client_done.key b.external_address_id q address_done.key final)
          c.place
          (AddressDone-IsCurrentVersion client_done.key c.address b.external_address_id with_client
            c.external_address_id address_done);
    orders = refl;
    items = refl;
    history = refl;
    ledger = refl;
    payment = refl;
    invoices = refl;
    pipeline_log = refl;
  }

  -- The transaction returns, and leaves what it has to.
  pub run_in_txn-IsCreated :
      (final : Database) × (m : ℕ) × Yields
        (run_in_txn ev (some e))
        (record { db = db; tick = n })
        none
        final
        m
      × IsCreated e b db n final m
  run_in_txn-IsCreated = (final, after 3 recorded, creation-Yields, final-IsCreated)
