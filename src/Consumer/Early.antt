-- ===== src/Consumer/Early.antt =====
-- Events that come before their order.
use observability_lab.Prelude.{
  ℕ, suc, String, none, some, true, false, sym, arith, ◌⊎◌, inl, inr, List, ◌∷◌, ◌≡◌, refl, ap, any,
}
use mathlib.Core.Path.{subst}
use observability_lab.Server.{Server, clear, same}
use observability_lab.Result.{ok}
use observability_lab.Payload.{given, subscript, as_dict, EventData, Event}
use observability_lab.Tables.{Database}
use observability_lab.Session.{Conn, pure}
use observability_lab.Session.Succeeds.{after, Yields, Yields-bind, lift-bind, execute-Yields}
use observability_lab.Sql.Events.{is_claimed}
use observability_lab.Sql.Orders.{update_orders, select_order_id}
use observability_lab.Sql.Accepted.{ledger_row}
use observability_lab.Sql.Keys.{same_refl, find-none}
use observability_lab.DbOps.Orders.{update_order_status, resolve_order_id}
use observability_lab.Consumer.Process.{
  after_update, order_status_changed, payment_confirmed, invoice_issued, dispatch,
}
use observability_lab.Consumer.Handle.{Packages, Message, State, handle_message}
use observability_lab.Consumer.Idempotence.{unlogged}
use observability_lab.Consumer.Succeeds.{IsEvent, claimed, run-Yields, handled}
use observability_lab.Consumer.Main.{Run, restarts}
use observability_lab.Consumer.Restarts.{redelivery_after_restarts}

-- The types of event that speak of an order that must be there; a change of status says the new one.
abbrev pub IsFollowing : String → EventData → Type 0
IsFollowing t d =
    ((t ≡ "ORDER_STATUS_CHANGED") × ((u : String) × (d.new_status ≡ given u)))
    ⊎ ((t ≡ "PAYMENT_CONFIRMED") ⊎ (t ≡ "INVOICE_ISSUED"))

-- The event, as it was decoded: it speaks of order `x`.
pub record IsAbout (ev : Event) (e t x : String) : Type 0 where
  pub details : EventData
  pub following : IsFollowing t details
  pub is_event : IsEvent ev e t details
  pub external_order_id : details.external_order_id ≡ given x

module _ ⦃s : Server⦄ (clears : (n : ℕ) → s.fate n ≡ clear) (e x : String) (d : EventData)
    (c : Conn) (unknown : any (λ o. same x o.external_order_id) c.db.orders ≡ false)
    (external_order_id : d.external_order_id ≡ given x) where
  update-Yields :
      (t : String) → Yields (update_order_status (some x) (some t)) c none c.db (suc c.tick)
  unfolding update_order_status update_orders
  update-Yields t =
      execute-Yields clears (update_orders (some x) (some t)) c none c.db
        (ground (arith, find-none (λ o. same x o.external_order_id) c.db.orders unknown))

  resolve-Yields : Yields (resolve_order_id (some x)) c none c.db (suc c.tick)
  unfolding resolve_order_id select_order_id
  resolve-Yields =
      execute-Yields clears (select_order_id (some x)) c none c.db
        (rw (find-none (λ o. same x o.external_order_id) c.db.orders unknown) refl)

  changed :
      (t : String)
      → d.new_status ≡ given t
      → Yields (order_status_changed (some e) (some d)) c none c.db (suc c.tick)
  unfolding order_status_changed after_update pure
  changed t h = lift-bind (as_dict (some d)) _ c d _ refl (
      lift-bind (subscript d.external_order_id) _ c (some x) _ (ap subscript external_order_id) (
        lift-bind (subscript d.new_status) _ c (some t) _ (ap subscript h) (
          Yields-bind (update_order_status (some x) (some t)) _ c none c.db (suc c.tick) _
            (update-Yields t) refl)))

  paid : Yields (payment_confirmed (some d)) c none c.db (suc c.tick)
  unfolding payment_confirmed pure
  paid = lift-bind (as_dict (some d)) _ c d _ refl (
      lift-bind (subscript d.external_order_id) _ c (some x) _ (ap subscript external_order_id)
        (Yields-bind (resolve_order_id (some x)) _ c none c.db (suc c.tick) _ resolve-Yields refl))

  invoiced : Yields (invoice_issued (some d)) c none c.db (suc c.tick)
  unfolding invoice_issued pure
  invoiced = lift-bind (as_dict (some d)) _ c d _ refl (
      lift-bind (subscript d.external_order_id) _ c (some x) _ (ap subscript external_order_id)
        (Yields-bind (resolve_order_id (some x)) _ c none c.db (suc c.tick) _ resolve-Yields refl))

  dispatched :
      (t : String)
      → IsFollowing t d
      → Yields (dispatch (some e) (some t) (some d)) c none c.db (suc c.tick)
  unfolding dispatch
  dispatched t (inl (h, (u, k))) = rw h (changed u k)
  dispatched t (inr (inl h)) = rw h paid
  dispatched t (inr (inr h)) = rw h invoiced

-- The tables with the event in the ledger and marked, and no other change.
abbrev pub noted : ⦃s : Server⦄ → String → String → Database → ℕ → Database
noted ⦃s⦄ e t db n = record db {
  processed_webhook_events =
      ledger_row e t (s.time (after 1 n)) (some (s.time (after 3 n))) ∷ db.processed_webhook_events;
}

module _ ⦃s : Server⦄ (p : Packages) (clears : (n : ℕ) → s.fate n ≡ clear) where
  early_event :
      (msg : Message) (ev : Event) (e t x : String) (k : State)
      → p.loads msg.value ≡ some ev
      → IsAbout ev e t x
      → is_claimed e k.conn.db ≡ false
      → any (λ o. same x o.external_order_id) k.conn.db.orders ≡ false
      → handle_message p msg k ≡ (
        ok tt,
        record k {
          conn = record { db = noted e t k.conn.db k.conn.tick; tick = after 5 k.conn.tick };
          counts = (t, "success") ∷ k.counts;
        },
      )
  early_event msg ev e t x k l c unclaimed unknown =
      handled p msg ev e t c.details k none (noted e t k.conn.db k.conn.tick) (after 5 k.conn.tick)
        l c.is_event
        (run-Yields clears ev e t c.details c.is_event k.conn none
          (claimed e t k.conn.db (after 1 k.conn.tick)) (after 3 k.conn.tick) unclaimed
          (dispatched clears e x c.details
            (record {
              db = claimed e t k.conn.db (after 1 k.conn.tick);
              tick = after 2 k.conn.tick;
            })
            unknown c.external_order_id t c.following)
          refl)

  -- On a server that carries every statement out: a message that decodes to a change of status, a
  -- payment or an invoice, of an event not yet claimed and for an order that is not there, is handled
  -- without an exception, counted as a success, and changes nothing but the ledger, where the event is
  -- then marked. After any further runs of the process, in which the order may come, a redelivery of
  -- the message changes no business table and no ledger row and publishes nothing: the event is lost.
  pub early_event_lost :
      (msg : Message) (ev : Event) (e t x : String) (k : State) (rs : List Run)
      → p.loads msg.value ≡ some ev
      → IsAbout ev e t x
      → is_claimed e k.conn.db ≡ false
      → any (λ o. same x o.external_order_id) k.conn.db.orders ≡ false
      → let later = restarts p rs (handle_message p msg k).1 in
        (handle_message p msg k ≡ (
          ok tt,
          record k {
            conn = record { db = noted e t k.conn.db k.conn.tick; tick = after 5 k.conn.tick };
            counts = (t, "success") ∷ k.counts;
          },
        ))
        × (unlogged (handle_message p msg later).1.conn.db ≡ unlogged later.conn.db)
        × ((handle_message p msg later).1.published ≡ later.published)
  early_event_lost msg ev e t x k rs l c unclaimed unknown =
      let done = early_event msg ev e t x k l c unclaimed unknown in
      let (same_tables, same_topic) =
        redelivery_after_restarts p ev e (ap subscript c.is_event.event_id) msg l rs
          (handle_message p msg k).1
          (subst (λ o. is_claimed e o.1.conn.db ≡ true) (sym done) (rw (same_refl e) refl)) in
      (done, same_tables, same_topic)
