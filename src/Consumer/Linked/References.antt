-- ===== src/Consumer/Linked/References.antt =====
-- The handlers against the foreign keys of `orders`, and the theorem for the loop.
use observability_lab.Prelude.{ℕ, String, Option, none, some, List, []}
use observability_lab.Server.{Server}
use observability_lab.Payload.{get_default, EventData}
use observability_lab.Session.Rules.{
  Pred, Ensures, Ensures-after, Ensures-bind, Ensures-execute, Maintains, Maintains-pure,
  maintains_rules,
}
use observability_lab.DbOps.Orders.{insert_order}
use observability_lab.Consumer.Process.{order_created}
use observability_lab.Consumer.Handle.{Packages, Message, State}
use observability_lab.Consumer.Loop.{main_loop}
use observability_lab.Consumer.Invariant.Walk.{
  upsert_client-Maintains, order_date-Maintains, insert_order_items-Maintains,
  record_status_history-Maintains, order_status_changed-Maintains, dispatch-Maintains_by,
}
use observability_lab.Consumer.Invariant.Lift.{IsKept, main_loop-keeps}
use observability_lab.Consumer.Invariant.Txn.{body-Ensures}
use observability_lab.Consumer.Linked.{AllLinked, rows-AllLinked}
use observability_lab.Consumer.Linked.Owned.{
  AllOwned, Owned, AddressOf, upsert_current_address-owns, order-owned, status, parties, items,
  billing, history, events, processed, log,
}

module _ ⦃s : Server⦄ where
  insert_order-owned :
      (c a : ℕ) (d : EventData)
      → Ensures (λ db. Owned db × AddressOf c a db) (insert_order c a d) (λ _. Owned)
  unfolding insert_order
  insert_order-owned c a d =
      let P : Pred = λ db. Owned db × AddressOf c a db in
      Ensures-after P _ _ _ (search maintains_rules) λ x.
        Ensures-after P _ _ _ (search maintains_rules) λ t.
          Ensures-after P _ _ _ (order_date-Maintains P d.order_date)
            λ date. Ensures-execute P _ _ (order-owned c a x t (get_default d.currency "BRL") date)

  order_created-owned :
      (e : Option String) (d : Option EventData) → Maintains Owned (order_created e d)
  unfolding order_created
  order_created-owned e payload = Ensures-after Owned _ _ _ (search maintains_rules) λ d.
      Ensures-after Owned _ _ _ (search maintains_rules) λ client.
        Ensures-after Owned _ _ _ (search maintains_rules) λ client_data.
          Ensures-after Owned _ _ _ (upsert_client-Maintains Owned parties client_data) λ c.
            Ensures-after Owned _ _ _ (search maintains_rules) λ address.
              Ensures-after Owned _ _ _ (search maintains_rules) λ address_data.
                Ensures-bind Owned _ _ _ _ (upsert_current_address-owns c address_data) λ a.
                  Ensures-bind (λ db. Owned db × AddressOf c a db) _ _ _ _
                    (insert_order-owned c a d)
                    λ o.
                      Ensures-after Owned _ _ _
                        (insert_order_items-Maintains Owned items o (get_default d.items []))
                        λ _.
                          Ensures-after Owned _ _ _
                            (record_status_history-Maintains Owned history o none (some "PENDING")
                              e)
                            λ _. Maintains-pure none

  Owned-IsKept : IsKept Owned
  Owned-IsKept = record {
    body = λ e i named.
        body-Ensures Owned Owned Owned e i named (events i)
          (dispatch-Maintains_by Owned billing order_created-owned
            (order_status_changed-Maintains Owned history status) i)
          (processed i);
    log = log;
  }

  -- Whatever messages the loop gets, and whatever the server, the packages and the broker do: if every
  -- item, payment and invoice is of an order that exists, and every order is of a client that exists
  -- and goes to an address of that client, it is so afterwards.
  pub references-AllLinked :
      (p : Packages) (polls : List (List (ℕ × List Message))) (k : State)
      → AllLinked k.conn.db.orders k.conn.db.order_items k.conn.db.payment k.conn.db.invoices
      → AllOwned k.conn.db.clients k.conn.db.address k.conn.db.orders
      → let final = (main_loop p polls k).1.conn.db in
        AllLinked final.orders final.order_items final.payment final.invoices
        × AllOwned final.clients final.address final.orders
  references-AllLinked p polls k linked owned =
      (rows-AllLinked p polls k linked, main_loop-keeps p Owned Owned-IsKept polls k owned)
