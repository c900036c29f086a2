-- ===== src/Consumer/Billed/Payments.antt =====
-- A payment that the database accepts, through `handle_message`.
use observability_lab.Prelude.{ℕ, String, Option, some, true, false, List, ◌∷◌, ◌≡◌, any, find, eqb}
use observability_lab.Server.{Server, same}
use observability_lab.Payload.{given, get, get_default, EventData, Event}
use observability_lab.Tables.{Database, Order, Payment, payment_status_check}
use observability_lab.Session.Succeeds.{after}
use observability_lab.Sql.Events.{is_claimed}
use observability_lab.Sql.Billing.{renew_payment}
use observability_lab.Sql.Accepted.{ledger_row}
use observability_lab.Sql.Upserted.{row_of, upserted, upserted_row, new_payment}
use observability_lab.Consumer.Succeeds.{IsEvent, claimed}

-- The event, as it was decoded: payment `y` of order `x`, by method `m`, with status `t`.
pub record IsPayment (ev : Event) (e x y m t : String) (a : ℕ) (paid_at : Option ℕ) : Type 0 where
  pub details : EventData
  pub is_event : IsEvent ev e "PAYMENT_CONFIRMED" details
  pub external_order_id : details.external_order_id ≡ given x
  pub external_payment_id : details.external_payment_id ≡ given y
  pub method : details.method ≡ given m
  pub status : get_default details.status "CONFIRMED" ≡ some t
  pub amount : details.amount ≡ given a
  pub paid : get details.paid_at ≡ paid_at

module _ ⦃s : Server⦄ where
  -- No constraint refuses it: the event is new, the order is there, the status is an allowed one,
  -- and the identity that a new row takes is not in use.
  pub record IsPayable (e x t : String) (o : Order) (db : Database) (n : ℕ) : Type 0 where
    pub unclaimed : is_claimed e db ≡ false
    pub found : find (λ d. same x d.external_order_id) db.orders ≡ some o
    pub allowed : payment_status_check t ≡ true
    pub fresh : any (λ p. eqb (s.identity (after 3 n)) p.payment_id) db.payment ≡ false

  abbrev pub payment_of : Database → String → Option Payment
  payment_of db = row_of (λ p. p.external_payment_id) db.payment

  -- The payment that the event leaves: a new row of the order, or the row as it was with the status,
  -- the amount and the date of the event.
  abbrev pub paid_row : String → String → String → ℕ → Option ℕ → Order → Database → ℕ → Payment
  paid_row y m t a v o db n =
      upserted_row (λ p. p.external_payment_id) (renew_payment t a v (s.time (after 3 n)))
        (new_payment (s.identity (after 3 n)) y o.order_id m t a v (s.time (after 3 n)))
        (payment_of db y)

  abbrev paid_rows : String → String → String → ℕ → Option ℕ → Order → Database → ℕ → List Payment
  paid_rows y m t a v o db n =
      upserted (λ p. p.external_payment_id) y (renew_payment t a v (s.time (after 3 n)))
        (new_payment (s.identity (after 3 n)) y o.order_id m t a v (s.time (after 3 n))) db.payment

  -- The tables with the payment and with the event in the ledger, marked.
  abbrev pub paid_db :
      String → String → String → String → ℕ → Option ℕ → Order → Database → ℕ → Database
  paid_db e y m t a v o db n = record db {
    payment = paid_rows y m t a v o db n;
    processed_webhook_events =
        ledger_row e "PAYMENT_CONFIRMED" (s.time (after 1 n)) (some (s.time (after 4 n)))
        ∷ db.processed_webhook_events;
  }

  -- The same before the mark.
  abbrev unmarked :
      String → String → String → String → ℕ → Option ℕ → Order → Database → ℕ → Database
  unmarked e y m t a v o db n = record (claimed e "PAYMENT_CONFIRMED" db (after 1 n)) {
    payment = paid_rows y m t a v o db n;
  }
