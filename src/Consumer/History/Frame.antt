-- ===== src/Consumer/History/Frame.antt =====
-- Predicates of `orders`, `order_status_history` and the event ledger alone: the statements on the
-- other tables leave them as they are.
use observability_lab.Prelude.{ℕ, suc, String, Option, List, [], ◌∷◌, arith}
use observability_lab.Server.{Server}
use observability_lab.Payload.{Place}
use observability_lab.Tables.{Order, OrderStatusHistory, ProcessedWebhookEvent}
use observability_lab.Session.Rules.{Pred, Does-bind}
use observability_lab.Sql.Events.{insert_event, update_processed, insert_log}
use observability_lab.Sql.Parties.{merge_client, expire_address, insert_address}
use observability_lab.Sql.Orders.{ItemRow, insert_item, insert_items}
use observability_lab.Sql.Billing.{merge_payment, merge_invoice}
use observability_lab.Consumer.Invariant.Walk.{RespectsParties, RespectsBilling, Respects}

module _ ⦃s : Server⦄
    (P : List Order → List OrderStatusHistory → List ProcessedWebhookEvent → Type 0) where
  abbrev pub OnBooks : Pred
  OnBooks db = P db.orders db.order_status_history db.processed_webhook_events

  clients : (y n e d : Option String) → Respects OnBooks (merge_client y n e d)
  unfolding merge_client
  clients y n e d now id db h = ground arith

  versions :
      (c : ℕ) (y : Option String) (p : Place (Option String))
      → Respects OnBooks (insert_address c y p)
  unfolding insert_address
  versions c y p now id db h = ground arith

  expiry : (a : ℕ) → Respects OnBooks (expire_address a)
  unfolding expire_address
  expiry a now id db h = h

  pub books_parties : RespectsParties OnBooks
  books_parties = record { clients = clients; expiry = expiry; versions = versions }

  item : (r : ItemRow) → Respects OnBooks (insert_item r)
  unfolding insert_item
  item r now id db h = ground arith

  pub books_items : (rows : List ItemRow) → Respects OnBooks (insert_items rows)
  unfolding insert_items
  books_items [] now id db h = h
  books_items (r ∷ rs) now id db h =
      Does-bind (λ _. OnBooks) (λ _. OnBooks) (insert_item r now id db) _ (item r now id db h)
        λ _ db'. books_items rs now (suc id) db'

  payments :
      (y : Option String) (n : ℕ) (m t : Option String) (a d : Option ℕ)
      → Respects OnBooks (merge_payment y n m t a d)
  unfolding merge_payment
  payments y n m t a d now id db h = ground arith

  invoices :
      (y : Option String) (n : ℕ) (m : Option String) (i a : Option ℕ) (t u : Option String)
      → Respects OnBooks (merge_invoice y n m i a t u)
  unfolding merge_invoice
  invoices y n m i a t u now id db h = ground arith

  pub books_billing : RespectsBilling OnBooks
  books_billing = record { payments = payments; invoices = invoices }

  pub books_log : (v l m : String) (e : Option String) → Respects OnBooks (insert_log v l m e)
  unfolding insert_log
  books_log v l m e now id db h = h

module _ ⦃s : Server⦄ (P : List Order → List OrderStatusHistory → Type 0) where
  abbrev pub OnAudit : Pred
  OnAudit = OnBooks (λ orders history _. P orders history)

  pub parties : RespectsParties OnAudit
  parties = books_parties (λ orders history _. P orders history)

  pub items : (rows : List ItemRow) → Respects OnAudit (insert_items rows)
  items = books_items (λ orders history _. P orders history)

  pub billing : RespectsBilling OnAudit
  billing = books_billing (λ orders history _. P orders history)

  pub events : (e t : Option String) → Respects OnAudit (insert_event e t)
  unfolding insert_event
  events e t now id db h = ground arith

  pub processed : (e : Option String) → Respects OnAudit (update_processed e)
  unfolding update_processed
  processed e now id db h = h

  pub log : (v l m : String) (e : Option String) → Respects OnAudit (insert_log v l m e)
  unfolding insert_log
  log v l m e now id db h = h
