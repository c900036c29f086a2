-- ===== src/Migrations/First.antt =====
-- The first revision and its downgrade, step by step.
use observability_lab.Prelude.{◌==◌, ◌∷◌, ◌&&◌, refl}
use observability_lab.Migrations.Schema.{Schema}
use observability_lab.Migrations.Initial.{
  clients_table, address_table, orders_table, order_items_table, order_status_history_table,
  payment_table, invoices_table, processed_webhook_events_table,
}
use observability_lab.Migrations.Initial
use observability_lab.Migrations.Rules.{
  IsForeign, filter_unused, any_and, Performs, table, index, trigger, dropped, unset, unindexed,
  undone,
}

-- The first revision, table by table.
module _ (d : Schema) (foreign : IsForeign d) where
  abbrev pub with_clients : Schema
  with_clients = record d { tables = clients_table ∷ d.tables }

  abbrev pub with_address : Schema
  with_address = record with_clients {
    tables = address_table ∷ with_clients.tables;
    indexes =
        ("uq_address_current_per_client", "address")
        ∷ ("ix_address_client_external", "address")
        ∷ with_clients.indexes;
  }

  abbrev pub with_orders : Schema
  with_orders = record with_address {
    tables = orders_table ∷ with_address.tables;
    indexes =
        ("ix_orders_status", "orders") ∷ ("ix_orders_client_id", "orders") ∷ with_address.indexes;
  }

  abbrev pub with_order_items : Schema
  with_order_items = record with_orders {
    tables = order_items_table ∷ with_orders.tables;
    indexes = ("ix_order_items_order_id", "order_items") ∷ with_orders.indexes;
  }

  abbrev pub with_order_status_history : Schema
  with_order_status_history = record with_order_items {
    tables = order_status_history_table ∷ with_order_items.tables;
    indexes =
        ("ix_order_status_history_order_id", "order_status_history") ∷ with_order_items.indexes;
  }

  abbrev pub with_payment : Schema
  with_payment = record with_order_status_history {
    tables = payment_table ∷ with_order_status_history.tables;
    indexes = ("ix_payment_order_id", "payment") ∷ with_order_status_history.indexes;
  }

  abbrev pub with_invoices : Schema
  with_invoices = record with_payment {
    tables = invoices_table ∷ with_payment.tables;
    indexes = ("ix_invoices_order_id", "invoices") ∷ with_payment.indexes;
  }

  abbrev pub with_processed_webhook_events : Schema
  with_processed_webhook_events = record with_invoices {
    tables = processed_webhook_events_table ∷ with_invoices.tables;
  }

  abbrev pub with_trigger : Schema
  with_trigger = record with_processed_webhook_events {
    triggers = ("trg_orders_block_retro_update", "orders") ∷ d.triggers;
  }

  pub initial-up : Performs Initial.upgrade d with_trigger
  initial-up =
      let (
        (
          clients,
          (address, (orders, (order_items, (history, (payment, (invoices, (processed, rest))))))),
        ),
        no_trigger,
      ) =
        foreign in
      (
        _,
        table clients_table _ clients.objects refl,
        (
          _,
          table address_table _ address.objects refl,
          (
            _,
            index "ix_address_client_external" "address" _ refl (
                any_and (λ x. x.0 == "ix_address_client_external") (λ x. x.1 == "address") d.indexes
                  address.index),
            (
              _,
              index "uq_address_current_per_client" "address" _ refl (
                  any_and (λ x. x.0 == "uq_address_current_per_client") (λ x. x.1 == "address")
                    d.indexes address.index),
              (
                _,
                table orders_table _ orders.objects refl,
                (
                  _,
                  index "ix_orders_client_id" "orders" _ refl (
                      any_and (λ x. x.0 == "ix_orders_client_id") (λ x. x.1 == "orders") d.indexes
                        orders.index),
                  (
                    _,
                    index "ix_orders_status" "orders" _ refl (
                        any_and (λ x. x.0 == "ix_orders_status") (λ x. x.1 == "orders") d.indexes
                          orders.index),
                    (
                      _,
                      table order_items_table _ order_items.objects refl,
                      (
                        _,
                        index "ix_order_items_order_id" "order_items" _ refl (
                            any_and (λ x. x.0 == "ix_order_items_order_id")
                              (λ x. x.1 == "order_items") d.indexes order_items.index),
                        (
                          _,
                          table order_status_history_table _ history.objects refl,
                          (
                            _,
                            index "ix_order_status_history_order_id" "order_status_history" _ refl (
                                any_and (λ x. x.0 == "ix_order_status_history_order_id")
                                  (λ x. x.1 == "order_status_history") d.indexes history.index),
                            (
                              _,
                              table payment_table _ payment.objects refl,
                              (
                                _,
                                index "ix_payment_order_id" "payment" _ refl (
                                    any_and (λ x. x.0 == "ix_payment_order_id")
                                      (λ x. x.1 == "payment") d.indexes payment.index),
                                (
                                  _,
                                  table invoices_table _ invoices.objects refl,
                                  (
                                    _,
                                    index "ix_invoices_order_id" "invoices" _ refl (
                                        any_and (λ x. x.0 == "ix_invoices_order_id")
                                          (λ x. x.1 == "invoices") d.indexes invoices.index),
                                    (
                                      _,
                                      table processed_webhook_events_table _ processed.objects refl,
                                      (
                                        _,
                                        trigger "trg_orders_block_retro_update" "orders" _ refl
                                            no_trigger,
                                        refl,
                                      ),
                                    ),
                                  ),
                                ),
                              ),
                            ),
                          ),
                        ),
                      ),
                    ),
                  ),
                ),
              ),
            ),
          ),
        ),
      )

  -- The DROP INDEX comes before the table's.
  abbrev without_index : Schema
  without_index = record with_address {
    indexes = ("ix_address_client_external", "address") ∷ d.indexes;
  }

  pub initial-down : Performs Initial.downgrade with_trigger d
  initial-down =
      let (
        (
          clients,
          (address, (orders, (order_items, (history, (payment, (invoices, (processed, rest))))))),
        ),
        no_trigger,
      ) =
        foreign in
      (
        with_processed_webhook_events,
        unset "trg_orders_block_retro_update" "orders" with_processed_webhook_events no_trigger
            refl,
        (
          with_invoices,
          (let (ts, is, rs) = undone processed_webhook_events_table d processed in
              dropped "processed_webhook_events" with_processed_webhook_events with_invoices refl
                processed.named (rw ts refl) (rw is refl) (rw rs refl) refl),
          (
            with_payment,
            (let (ts, is, rs) = undone invoices_table d invoices in
                dropped "invoices" with_invoices with_payment refl invoices.named (rw ts refl)
                  (rw is refl) (rw rs refl) refl),
            (
              with_order_status_history,
              (let (ts, is, rs) = undone payment_table d payment in
                  dropped "payment" with_payment with_order_status_history refl payment.named
                    (rw ts refl) (rw is refl) (rw rs refl) refl),
              (
                with_order_items,
                (let (ts, is, rs) = undone order_status_history_table d history in
                    dropped "order_status_history" with_order_status_history with_order_items refl
                      history.named (rw ts refl) (rw is refl) (rw rs refl) refl),
                (
                  with_orders,
                  (let (ts, is, rs) = undone order_items_table d order_items in
                      dropped "order_items" with_order_items with_orders refl order_items.named
                        (rw ts refl) (rw is refl) (rw rs refl) refl),
                  (
                    with_address,
                    (let (ts, is, rs) = undone orders_table d orders in
                        dropped "orders" with_orders with_address refl orders.named (rw ts refl)
                          (rw is refl) (rw rs refl) refl),
                    (
                      without_index,
                      unindexed "uq_address_current_per_client" "address" _ _ (
                          rw
                            (filter_unused
                              (λ x. x.0 == "uq_address_current_per_client" && x.1 == "address")
                              d.indexes
                              (any_and (λ x. x.0 == "uq_address_current_per_client")
                                (λ x. x.1 == "address") d.indexes address.index))
                            refl),
                      (
                        with_clients,
                        (let (ts, is, rs) = undone address_table d address in
                            dropped "address" without_index with_clients refl address.named
                              (rw ts refl) (rw is refl) (rw rs refl) refl),
                        (
                          d,
                          (let (ts, is, rs) = undone clients_table d clients in
                              dropped "clients" with_clients d refl clients.named (rw ts refl)
                                (rw is refl) (rw rs refl) refl),
                          refl,
                        ),
                      ),
                    ),
                  ),
                ),
              ),
            ),
          ),
        ),
      )
