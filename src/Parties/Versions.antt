-- ===== src/Parties/Versions.antt =====
-- Predicates of `address` alone, against the statements that write that table and the others.
use observability_lab.Prelude.{ℕ, suc, String, Option, List, [], ◌∷◌, arith}
use observability_lab.Server.{Server}
use observability_lab.Payload.{Place}
use observability_lab.Tables.{Address}
use observability_lab.Session.Rules.{Pred, Does-bind}
use observability_lab.Sql.Events.{insert_event, update_processed, insert_log}
use observability_lab.Sql.Parties.{merge_client, expire_address, insert_address}
use observability_lab.Sql.Orders.{
  ItemRow, insert_item, insert_items, insert_history, insert_order_row, update_orders,
}
use observability_lab.Sql.Billing.{merge_payment, merge_invoice}
use observability_lab.Consumer.Invariant.Walk.{Respects}
use observability_lab.Consumer.Invariant.Body.{body-Maintains}
use observability_lab.Consumer.Invariant.Lift.{IsKept}

abbrev pub Versions : Type 0
Versions = List Address

-- What a predicate of `address` owes to the two statements that write it.
module _ ⦃s : Server⦄ (P : Versions → Type 0) where
  abbrev pub OnVersions : Pred
  OnVersions db = P db.address

  clients : (y n e d : Option String) → Respects OnVersions (merge_client y n e d)
  unfolding merge_client
  clients y n e d now id db h = ground arith

  item : (r : ItemRow) → Respects OnVersions (insert_item r)
  unfolding insert_item
  item r now id db h = ground arith

  items : (rows : List ItemRow) → Respects OnVersions (insert_items rows)
  unfolding insert_items
  items [] now id db h = h
  items (r ∷ rs) now id db h =
      Does-bind (λ _. OnVersions) (λ _. OnVersions) (insert_item r now id db) _ (item r now id db h)
        λ _ db'. items rs now (suc id) db'

  payments :
      (y : Option String) (n : ℕ) (m t : Option String) (a d : Option ℕ)
      → Respects OnVersions (merge_payment y n m t a d)
  unfolding merge_payment
  payments y n m t a d now id db h = ground arith

  invoices :
      (y : Option String) (n : ℕ) (m : Option String) (i a : Option ℕ) (t u : Option String)
      → Respects OnVersions (merge_invoice y n m i a t u)
  unfolding merge_invoice
  invoices y n m i a t u now id db h = ground arith

  history : (n : ℕ) (v m e : Option String) → Respects OnVersions (insert_history n v m e)
  unfolding insert_history
  history n v m e now id db h = ground arith

  orders :
      (y : Option String) (c a : ℕ) (t : Option ℕ) (u : Option String) (d : ℕ)
      → Respects OnVersions (insert_order_row y c a t u d)
  unfolding insert_order_row
  orders y c a t u d now id db h = ground arith

  status : (y n : Option String) → Respects OnVersions (update_orders y n)
  unfolding update_orders
  status y n now id db h = ground arith

  events : (e t : Option String) → Respects OnVersions (insert_event e t)
  unfolding insert_event
  events e t now id db h = ground arith

  processed : (e : Option String) → Respects OnVersions (update_processed e)
  unfolding update_processed
  processed e now id db h = h

  log : (v l m : String) (e : Option String) → Respects OnVersions (insert_log v l m e)
  unfolding insert_log
  log v l m e now id db h = h

  pub OnVersions-IsKept :
      ((a : ℕ) → Respects OnVersions (expire_address a))
      → ((c : ℕ) (y : Option String) (p : Place (Option String))
          → Respects OnVersions (insert_address c y p))
      → IsKept OnVersions
  OnVersions-IsKept expiry versions = record {
    body = λ e i _.
        body-Maintains OnVersions
          (record {
            business = record {
              parties = record { clients = clients; expiry = expiry; versions = versions };
              billing = record { payments = payments; invoices = invoices };
              items = items;
              orders = orders;
              history = history;
              status = status;
            };
            events = events;
            processed = processed;
          })
          e i;
    log = log;
  }
