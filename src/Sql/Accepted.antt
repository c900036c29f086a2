-- ===== src/Sql/Accepted.antt =====
-- The statements of an event and of a change of status, where no constraint refuses them.
use observability_lab.Prelude.{
  ℕ, String, Option, none, some, true, false, ◌&&◌, List, [], ◌∷◌, ◌≡◌, refl, ◌∙◌, Bool, any, find,
  update_where, eqb, eqb_refl, arith,
}
use observability_lab.Server.{Server, same}
use observability_lab.Result.{ok}
use observability_lab.Tables.{
  Database, Client, Address, Order, OrderStatusHistory, ProcessedWebhookEvent, order_status_check,
  is_terminal,
}
use observability_lab.Sql.Events.{is_claimed, insert_event, update_processed}
use observability_lab.Sql.Orders.{
  is_order, insert_history, update_orders, set_status, select_joined,
}
use observability_lab.Sql.Keys.{
  same_refl, any_found, any-update_where, find-update_where, find_sound,
}

update_where_none :
    {A : Type 0} (p : A → Bool) (f : A → A) (xs : List A)
    → any p xs ≡ false
    → update_where p f xs ≡ xs
update_where_none p f [] h = refl
update_where_none p f (x ∷ xs) h = ground (arith, update_where_none p f xs)

abbrev pub ledger_row : String → String → ℕ → Option ℕ → ProcessedWebhookEvent
ledger_row e t now v = record { event_id = e; event_type = t; received_at = now; processed_at = v }

abbrev pub history_row : ℕ → ℕ → Option String → String → ℕ → String → OrderStatusHistory
history_row id n v t now e = record {
  history_id = id;
  order_id = n;
  previous_status = v;
  new_status = t;
  changed_at = now;
  changed_by = "ingestion-consumer";
  source_event_id = some e;
}

module _ ⦃s : Server⦄ where
  pub insert_event-new :
      (e t : String) (now id : ℕ) (db : Database)
      → is_claimed e db ≡ false
      → insert_event (some e) (some t) now id db
        ≡ ok (
          tt,
          record db {
            processed_webhook_events = ledger_row e t now none ∷ db.processed_webhook_events;
          },
        )
  unfolding insert_event
  insert_event-new e t now id db h = rw h refl

  -- The mark falls on the row of the event alone.
  pub update_processed-first :
      (e t : String) (now id then : ℕ) (db : Database) (rows : List ProcessedWebhookEvent)
      → db.processed_webhook_events ≡ ledger_row e t then none ∷ rows
      → any (λ r. same e r.event_id) rows ≡ false
      → update_processed (some e) now id db
        ≡ ok (tt, record db { processed_webhook_events = ledger_row e t then (some now) ∷ rows })
  unfolding update_processed
  update_processed-first e t now id then db rows q h =
      let kept : update_where (λ (r : ProcessedWebhookEvent). same e r.event_id)
            (λ r. record r { processed_at = some now }) rows
          ≡ rows =
        update_where_none (λ r. same e r.event_id) _ rows h in
      rw (q, same_refl e, kept) refl

  pub update_orders-open :
      (x t : String) (o : Order) (now id : ℕ) (db : Database)
      → find (λ d. same x d.external_order_id) db.orders ≡ some o
      → order_status_check t ≡ true
      → any (λ d. same x d.external_order_id && is_terminal d.status) db.orders ≡ false
      → update_orders (some x) (some t) now id db
        ≡ ok (
          some (o.order_id, o.status),
          record db {
            orders = update_where (λ d. same x d.external_order_id) (set_status t now) db.orders;
          },
        )
  unfolding update_orders
  update_orders-open x t o now id db f c h = ground (arith, f, c, h)

  pub insert_history-new :
      (n : ℕ) (v : Option String) (t e : String) (now id : ℕ) (db : Database)
      → is_order n db ≡ true
      → any (λ h. eqb id h.history_id) db.order_status_history ≡ false
      → insert_history n v (some t) (some e) now id db
        ≡ ok (
          tt,
          record db { order_status_history = history_row id n v t now e ∷ db.order_status_history },
        )
  unfolding insert_history
  insert_history-new n v t e now id db o h = rw (o, h) refl

  -- The order is still there under its key,
  pub is_order-updated :
      (x t : String) (o : Order) (now : ℕ) (orders : List Order)
      → find (λ d. same x d.external_order_id) orders ≡ some o
      → any
          (λ d. eqb o.order_id d.order_id)
          (update_where (λ d. same x d.external_order_id) (set_status t now) orders)
        ≡ true
  is_order-updated x t o now orders f =
      any-update_where (λ d. eqb o.order_id d.order_id) (λ d. same x d.external_order_id)
        (set_status t now) orders (λ d. refl)
      ∙ any_found (λ d. same x d.external_order_id) (λ d. eqb o.order_id d.order_id) orders o f
          (eqb_refl o.order_id)

  -- with the new status.
  pub find-updated :
      (x t : String) (o : Order) (now : ℕ) (orders : List Order)
      → find (λ d. same x d.external_order_id) orders ≡ some o
      → find (λ d. eqb d.order_id o.order_id) orders ≡ some o
      → find
          (λ d. eqb d.order_id o.order_id)
          (update_where (λ d. same x d.external_order_id) (set_status t now) orders)
        ≡ some (set_status t now o)
  find-updated x t o now orders f k =
      rw
        (
          find-update_where (λ d. eqb d.order_id o.order_id) (λ d. same x d.external_order_id)
              (set_status t now) orders (λ d. refl),
          k,
          find_sound (λ d. same x d.external_order_id) orders o f,
        )
        refl

  pub select_joined-found :
      (o : Order) (c : Client) (a : Address) (n now id : ℕ) (db : Database)
      → find (λ d. eqb d.order_id n) db.orders ≡ some o
      → find (λ d. eqb d.client_id o.client_id) db.clients ≡ some c
      → find (λ d. eqb d.address_id o.address_id) db.address ≡ some a
      → select_joined n now id db ≡ ok (some (o, c, a), db)
  unfolding select_joined
  select_joined-found o c a n now id db f g h = ground (arith, f, g, h)
