-- ===== src/Consumer/History/Audited.antt =====
-- The handlers of `orders` against the audit trail, and the theorem for the loop.
use observability_lab.Prelude.{ℕ, String, Option, none, some, List, []}
use observability_lab.Server.{Server}
use observability_lab.Payload.{EventData, get_default}
use observability_lab.Session.Rules.{
  Pred, Ensures, Ensures-after, Ensures-bind, Ensures-execute, Maintains, Maintains-pure,
  maintains_rules,
}
use observability_lab.DbOps.Orders.{insert_order, record_status_history, update_order_status}
use observability_lab.Consumer.Process.{order_created, after_update, order_status_changed}
use observability_lab.Consumer.Handle.{Packages, Message, State}
use observability_lab.Consumer.Loop.{main_loop}
use observability_lab.Consumer.Invariant.Walk.{
  upsert_client-Maintains, upsert_current_address-Maintains, order_date-Maintains,
  insert_order_items-Maintains, fetch_order_snapshot-Maintains, dispatch-Maintains_by,
}
use observability_lab.Consumer.Invariant.Lift.{IsKept, main_loop-keeps}
use observability_lab.Consumer.Invariant.Txn.{body-Ensures}
use observability_lab.Consumer.History.Frame.{
  OnAudit, parties, items, billing, events, processed, log,
}
use observability_lab.Consumer.History.Trail.{IsAudited, IsPending}
use observability_lab.Consumer.History.Steps.{history-audits, order-pends, Leaves, status-leaves}

module _ ⦃s : Server⦄ where
  abbrev Audited : Pred
  Audited = OnAudit IsAudited

  abbrev Pending : ℕ → Option String → String → Pred
  Pending n v t = OnAudit (IsPending n v t)

  record-audits :
      (n : ℕ) (v : Option String) (t : String) (e : Option String)
      → Ensures (Pending n v t) (record_status_history n v (some t) e) (λ _. Audited)
  unfolding record_status_history
  record-audits n v t e = Ensures-execute (Pending n v t) _ (λ _. Audited) (history-audits n v t e)

  insert_order-pends :
      (c a : ℕ) (d : EventData)
      → Ensures Audited (insert_order c a d) (λ n. Pending n none "PENDING")
  unfolding insert_order
  insert_order-pends c a d = Ensures-after Audited _ _ _ (search maintains_rules) λ x.
      Ensures-after Audited _ _ _ (search maintains_rules) λ t.
        Ensures-after Audited _ _ _ (order_date-Maintains Audited d.order_date) λ date.
          Ensures-execute Audited _ _ (order-pends x c a t (get_default d.currency "BRL") date)

  order_created-audits :
      (e : Option String) (d : Option EventData) → Maintains Audited (order_created e d)
  unfolding order_created
  order_created-audits e payload = Ensures-after Audited _ _ _ (search maintains_rules) λ d.
      Ensures-after Audited _ _ _ (search maintains_rules) λ client.
        Ensures-after Audited _ _ _ (search maintains_rules) λ client_data.
          Ensures-after Audited _ _ _
            (upsert_client-Maintains Audited (parties IsAudited) client_data)
            λ client_id. Ensures-after Audited _ _ _ (search maintains_rules) λ address.
              Ensures-after Audited _ _ _ (search maintains_rules) λ address_data.
                Ensures-after Audited _ _ _
                  (upsert_current_address-Maintains Audited (parties IsAudited) client_id
                    address_data)
                  λ address_id.
                    Ensures-bind Audited _ _ _ _ (insert_order-pends client_id address_id d) λ n.
                      Ensures-after (Pending n none "PENDING") _ _ _
                        (insert_order_items-Maintains (Pending n none "PENDING")
                          (items (IsPending n none "PENDING")) n (get_default d.items []))
                        λ _.
                          Ensures-bind (Pending n none "PENDING") _ _ _ _
                            (record-audits n none "PENDING" e) λ _. Maintains-pure none

  update-leaves : (x t : Option String) → Ensures Audited (update_order_status x t) (Leaves t)
  unfolding update_order_status
  update-leaves x t = Ensures-execute Audited _ _ (status-leaves x t)

  after_update-audits :
      (e t : Option String) (r : Option (ℕ × String))
      → Ensures (Leaves t r) (after_update e t r) (λ _. Audited)
  unfolding after_update
  after_update-audits e t none = Maintains-pure none
  after_update-audits e none (some (n, v)) = record { at = λ c h. absurd h }
  after_update-audits e (some t) (some (n, v)) =
      Ensures-bind (Pending n (some v) t) _ _ _ _ (record-audits n (some v) t e)
        λ _. search (maintains_rules, fetch_order_snapshot-Maintains)

  order_status_changed-audits :
      (e : Option String) (d : Option EventData) → Maintains Audited (order_status_changed e d)
  unfolding order_status_changed
  order_status_changed-audits e payload = Ensures-after Audited _ _ _ (search maintains_rules) λ d.
      Ensures-after Audited _ _ _ (search maintains_rules) λ x.
        Ensures-after Audited _ _ _ (search maintains_rules)
          λ t. Ensures-bind Audited _ _ _ _ (update-leaves x t) (after_update-audits e t)

  Audited-IsKept : IsKept Audited
  Audited-IsKept = record {
    body = λ e i named.
        body-Ensures Audited Audited Audited e i named (events IsAudited i)
          (dispatch-Maintains_by Audited (billing IsAudited) order_created-audits
            order_status_changed-audits i)
          (processed IsAudited i);
    log = log IsAudited;
  }

  -- Whatever messages the loop gets, and whatever the server, the packages and the broker do: if the
  -- audit trail is in order before, it is in order afterwards. In order means that no two orders
  -- share a key or an external id, that the newest row of each order records its status, that each
  -- row names as its previous status what the row of the same order before it recorded, none for
  -- the first, and that each row is of an order that exists.
  pub trail-IsAudited :
      (p : Packages) (polls : List (List (ℕ × List Message))) (k : State)
      → IsAudited k.conn.db.orders k.conn.db.order_status_history
      → IsAudited
          (main_loop p polls k).1.conn.db.orders
          (main_loop p polls k).1.conn.db.order_status_history
  trail-IsAudited p = main_loop-keeps p Audited Audited-IsKept
