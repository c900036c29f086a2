-- ===== src/Simulator/Events.antt =====
-- The events of an order, and the JSON of a request as the receiver reads it.
use Prim.Native.String.{◌++◌}
use observability_lab.Prelude.{
  if◌then◌else◌, ℕ, String, Option, none, some, true, false, List, [], ◌∷◌, ◌+◌, ◌%◌, ◌-◌, not, eqb,
}
use observability_lab.BulkLoad.Text.{Text, pad, decimal}
use observability_lab.Payload.{Field, absent, null, given, ItemData, EventData, Event}
use observability_lab.Receiver.Envelope.{Value, text, other, Body}
use observability_lab.Simulator.Run.{Send, created, approved, payment, replay}

abbrev pub digit : ℕ → String
digit n =
    if eqb n 0
    then "0"
    else if eqb n 1
    then "1"
    else if eqb n 2
    then "2"
    else if eqb n 3
    then "3"
    else if eqb n 4
    then "4"
    else if eqb n 5
    then "5"
    else if eqb n 6
    then "6"
    else if eqb n 7
    then "7"
    else if eqb n 8
    then "8"
    else "9"

-- The text of decimal digits.
abbrev pub numeral : Text → String
numeral [] = ""
numeral (c ∷ t) = digit (c - 48) ++ numeral t

-- What the request holds.
pub record Request : Type 0 where
  pub event : Event
  pub occurred_at : String

abbrev pub nothing : EventData
nothing = record {
  client = absent;
  address = absent;
  items = absent;
  external_order_id = absent;
  total_amount = absent;
  currency = absent;
  order_date = absent;
  new_status = absent;
  external_payment_id = absent;
  external_invoice_id = absent;
  method = absent;
  status = absent;
  amount = absent;
  paid_at = absent;
  invoice_number = absent;
  issued_at = absent;
  pdf_url = absent;
}

-- `f"ORD-{order_seq:08d}"`
unfoldable pub order_id : ℕ → String
order_id seq = "ORD-" ++ numeral (pad 8 seq)

-- The process that sends: `str(uuid.uuid4())`, the clock, and its text, for an order and a send.
pub record Source : Type 0 where
  pub uuid : ℕ → Send → String
  pub time : ℕ → Send → ℕ
  pub occurred_at : ℕ → Send → String

module _ (u : Source) where
  unfoldable pub make_order_created : ℕ → Request
  make_order_created seq = record {
    event = record {
      event_id = given (u.uuid seq created);
      event_type = given "ORDER_CREATED";
      payload = given (record nothing {
        external_order_id = given (order_id seq);
        client = given (record {
          external_client_id = given ("CLI-" ++ numeral (pad 6 (seq % 5000)));
          name = given ("Client " ++ numeral (decimal (seq % 5000)));
          email = given ("client" ++ (numeral (decimal (seq % 5000)) ++ "@example.com"));
          document = given (numeral (pad 11 (seq % 99999999)));
        });
        address = given (record {
          external_address_id = given ("ADDR-" ++ numeral (pad 6 (seq % 5000)));
          place = record {
            street = given "Rua Synthetic";
            number = given (numeral (decimal (100 + seq % 900)));
            complement = null;
            neighborhood = given "Centro";
            city = given "Sao Paulo";
            state = given "SP";
            postal_code = given "01000-000";
            country = given "BR";
          };
        });
        items = given (
            record {
              order_id = absent;
              sku = given ("SKU-" ++ numeral (decimal (seq % 100)));
              description = given "Widget";
              quantity = given 2;
              unit_price = given 4990;
            }
            ∷ []);
        total_amount = given 9980;
        currency = given "BRL";
        order_date = given (u.time seq created);
      });
    };
    occurred_at = u.occurred_at seq created;
  }

  unfoldable pub make_status_changed : ℕ → String → String → Request
  make_status_changed seq external_order_id new_status = record {
    event = record {
      event_id = given (u.uuid seq approved);
      event_type = given "ORDER_STATUS_CHANGED";
      payload = given (record nothing {
        external_order_id = given external_order_id;
        new_status = given new_status;
      });
    };
    occurred_at = u.occurred_at seq approved;
  }

  unfoldable pub make_payment_confirmed : ℕ → String → Request
  make_payment_confirmed seq external_order_id = record {
    event = record {
      event_id = given (u.uuid seq payment);
      event_type = given "PAYMENT_CONFIRMED";
      payload = given (record nothing {
        external_payment_id = given ("PAY-" ++ numeral (pad 8 seq));
        external_order_id = given external_order_id;
        method = given "PIX";
        status = given "CONFIRMED";
        amount = given 9980;
        paid_at = given (u.time seq payment);
      });
    };
    occurred_at = u.occurred_at seq payment;
  }

  -- What `run_order` sends; the replay is `dict(created_event)`.
  abbrev pub request : ℕ → Send → Request
  request seq created = make_order_created seq
  request seq approved = make_status_changed seq (order_id seq) "APPROVED"
  request seq payment = make_payment_confirmed seq (order_id seq)
  request seq replay = make_order_created seq

abbrev pub text_value : String → Value
text_value t = text t

-- Of a number, whether it is true.
abbrev pub number_value : ℕ → Value
number_value n = other (not (eqb n 0))

-- A dictionary that has keys, and a list of items.
abbrev pub object_value : {A : Type 0} → A → Value
object_value a = other true

abbrev pub items_value : List ItemData → Value
items_value [] = other false
items_value (i ∷ is) = other true

abbrev pub value_of : {A : Type 0} → (A → Value) → Field A → Option Value
value_of f absent = none
value_of f null = some Value.null
value_of f (given a) = some (f a)

abbrev pub member : String → Option Value → List (String × Value) → List (String × Value)
member key none ms = ms
member key (some v) ms = (key, v) ∷ ms

-- The keys of `data` and their values.
abbrev pub members : EventData → List (String × Value)
members d = member "external_order_id" (value_of text_value d.external_order_id) (
    member "client" (value_of object_value d.client) (
      member "address" (value_of object_value d.address) (
        member "items" (value_of items_value d.items) (
          member "total_amount" (value_of number_value d.total_amount) (
            member "currency" (value_of text_value d.currency) (
              member "order_date" (value_of number_value d.order_date) (
                member "new_status" (value_of text_value d.new_status) (
                  member "external_payment_id" (value_of text_value d.external_payment_id) (
                    member "method" (value_of text_value d.method) (
                      member "status" (value_of text_value d.status) (
                        member "amount" (value_of number_value d.amount)
                          (member "paid_at" (value_of number_value d.paid_at) []))))))))))))

abbrev pub data_of : Field EventData → Option (List (String × Value))
data_of absent = none
data_of null = none
data_of (given d) = some (members d)

-- `json=payload`, as the receiver finds it.
abbrev pub body_of : Request → Body
body_of r = record {
  event_id = value_of text_value r.event.event_id;
  event_type = value_of text_value r.event.event_type;
  occurred_at = some (text r.occurred_at);
  data_fields = data_of r.event.payload;
}
