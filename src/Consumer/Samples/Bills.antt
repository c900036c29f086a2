-- ===== src/Consumer/Samples/Bills.antt =====
-- Test data of the bills: a payment that is there already, and the first invoice of an order.
use observability_lab.Prelude.{◌==◌, none, some, [], ◌∷◌, if◌then◌else◌}
use observability_lab.Payload.{given, Event}
use observability_lab.Tables.{Payment, Database}
use observability_lab.Consumer.Handle.{Packages, State}
use observability_lab.Consumer.Samples.{binary, packages, no_data, shop, start}

abbrev pay : Event
pay = record {
  event_id = given "evt-pay";
  event_type = given "PAYMENT_CONFIRMED";
  payload = given (record no_data {
    external_order_id = given "ORD-2";
    external_payment_id = given "PAY-1";
    method = given "PIX";
    amount = given 9980;
    paid_at = given 7;
  });
}

abbrev bill : Event
bill = record {
  event_id = given "evt-bill";
  event_type = given "INVOICE_ISSUED";
  payload = given (record no_data {
    external_order_id = given "ORD-2";
    external_invoice_id = given "INV-1";
    invoice_number = given "2024-1";
    issued_at = given 8;
    amount = given 9980;
  });
}

abbrev billing : Packages
billing = record packages {
  loads = λ t. if t == "pay" then some pay else if t == "bill" then some bill else none;
}

abbrev pending : Payment
pending = record {
  payment_id = 1;
  external_payment_id = "PAY-1";
  order_id = 2;
  method = "PIX";
  status = "PENDING";
  amount = 9980;
  paid_at = none;
  created_at = 0;
  updated_at = 0;
}

abbrev pending_db : Database
pending_db = record shop { payment = pending ∷ [] }

abbrev awaiting : State
awaiting = record start { conn = record { db = pending_db; tick = 0 } }
