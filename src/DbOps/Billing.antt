-- ===== src/DbOps/Billing.antt =====
-- `upsert_payment` and `upsert_invoice` of services/ingestion_consumer/app/db_ops.py.
use observability_lab.Prelude.{ℕ}
use observability_lab.Server.{Server}
use observability_lab.Payload.{subscript, get, get_default, EventData}
use observability_lab.Session.{Tx, lift, execute, ◌>>=◌}
use observability_lab.Sql.Billing.{merge_payment, merge_invoice}

module _ ⦃s : Server⦄ where
  unfoldable pub upsert_payment : ℕ → EventData → Tx (Unit {0})
  upsert_payment order_id d = do
    external_payment_id ← lift (subscript d.external_payment_id)
    method ← lift (subscript d.method)
    amount ← lift (subscript d.amount)
    execute (
        merge_payment external_payment_id order_id method (get_default d.status "CONFIRMED") amount
          (get d.paid_at))

  unfoldable pub upsert_invoice : ℕ → EventData → Tx (Unit {0})
  upsert_invoice order_id d = do
    external_invoice_id ← lift (subscript d.external_invoice_id)
    invoice_number ← lift (subscript d.invoice_number)
    amount ← lift (subscript d.amount)
    execute (
        merge_invoice external_invoice_id order_id invoice_number (get d.issued_at) amount
          (get_default d.status "ISSUED") (get d.pdf_url))
