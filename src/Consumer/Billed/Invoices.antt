-- ===== src/Consumer/Billed/Invoices.antt =====
-- An invoice that the database accepts, through `handle_message`.
use observability_lab.Prelude.{ℕ, String, Option, some, true, false, List, ◌∷◌, ◌≡◌, any, find, eqb}
use observability_lab.Server.{Server, same}
use observability_lab.Payload.{given, get, get_default, EventData, Event}
use observability_lab.Tables.{Database, Order, Invoice, invoice_status_check}
use observability_lab.Session.Succeeds.{after}
use observability_lab.Sql.Events.{is_claimed}
use observability_lab.Sql.Billing.{renew_invoice}
use observability_lab.Sql.Accepted.{ledger_row}
use observability_lab.Sql.Upserted.{row_of, upserted, upserted_row, new_invoice}
use observability_lab.Consumer.Succeeds.{IsEvent, claimed}

-- The event, as it was decoded: invoice `y` of order `x`, with number `n`, status `t` and a date.
pub record IsInvoice (ev : Event) (e x y n t : String) (i a : ℕ) (u : Option String) : Type 0 where
  pub details : EventData
  pub is_event : IsEvent ev e "INVOICE_ISSUED" details
  pub external_order_id : details.external_order_id ≡ given x
  pub external_invoice_id : details.external_invoice_id ≡ given y
  pub invoice_number : details.invoice_number ≡ given n
  pub issued_at : get details.issued_at ≡ some i
  pub amount : details.amount ≡ given a
  pub status : get_default details.status "ISSUED" ≡ some t
  pub link : get details.pdf_url ≡ u

module _ ⦃s : Server⦄ where
  -- No constraint refuses it: the event is new, the order is there, the status is an allowed one,
  -- and the identity that a new row takes is not in use.
  pub record IsBillable (e x t : String) (o : Order) (db : Database) (n : ℕ) : Type 0 where
    pub unclaimed : is_claimed e db ≡ false
    pub found : find (λ d. same x d.external_order_id) db.orders ≡ some o
    pub allowed : invoice_status_check t ≡ true
    pub fresh : any (λ v. eqb (s.identity (after 3 n)) v.invoice_id) db.invoices ≡ false

  abbrev pub invoice_of : Database → String → Option Invoice
  invoice_of db = row_of (λ v. v.external_invoice_id) db.invoices

  -- The invoice that the event leaves: a new row of the order, or the row as it was with the status,
  -- the amount and the link of the event.
  abbrev pub billed_row :
      String → String → String → ℕ → ℕ → Option String → Order → Database → ℕ → Invoice
  billed_row y c t i a u o db n =
      upserted_row (λ v. v.external_invoice_id) (renew_invoice t a u)
        (new_invoice (s.identity (after 3 n)) y o.order_id c i a t u (s.time (after 3 n)))
        (invoice_of db y)

  abbrev billed_rows :
      String → String → String → ℕ → ℕ → Option String → Order → Database → ℕ → List Invoice
  billed_rows y c t i a u o db n =
      upserted (λ v. v.external_invoice_id) y (renew_invoice t a u)
        (new_invoice (s.identity (after 3 n)) y o.order_id c i a t u (s.time (after 3 n)))
        db.invoices

  -- The tables with the invoice and with the event in the ledger, marked.
  abbrev pub billed_db :
      String → String → String → String → ℕ → ℕ → Option String → Order → Database → ℕ → Database
  billed_db e y c t i a u o db n = record db {
    invoices = billed_rows y c t i a u o db n;
    processed_webhook_events =
        ledger_row e "INVOICE_ISSUED" (s.time (after 1 n)) (some (s.time (after 4 n)))
        ∷ db.processed_webhook_events;
  }

  -- The same before the mark.
  abbrev unmarked :
      String → String → String → String → ℕ → ℕ → Option String → Order → Database → ℕ → Database
  unmarked e y c t i a u o db n = record (claimed e "INVOICE_ISSUED" db (after 1 n)) {
    invoices = billed_rows y c t i a u o db n;
  }
