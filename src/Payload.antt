-- ===== src/Payload.antt =====
-- A decoded webhook event, as services/ingestion_consumer/app/consumer.py reads it: Python
-- dictionaries whose keys may be absent, or hold null. Amounts are in hundredths and dates are
-- numbers: the program only copies them.
use observability_lab.Prelude.{ℕ, String, Option, none, some, List}
use observability_lab.Result.{Result, ok, err, other_exception}

-- A key of a dictionary.
pub data Field {ℓ} (A : Type ℓ) : Type ℓ where
  absent : Field A
  null : Field A
  given : A → Field A

-- `d[key]`, a `KeyError` if the key is absent
abbrev pub subscript {ℓ} : {A : Type ℓ} → Field A → Result (Option A)
subscript absent = err other_exception
subscript null = ok none
subscript (given a) = ok (some a)

-- `d.get(key)`
abbrev pub get {ℓ} : {A : Type ℓ} → Field A → Option A
get absent = none
get null = none
get (given a) = some a

-- `d.get(key, a)`
abbrev pub get_default {ℓ} : {A : Type ℓ} → Field A → A → Option A
get_default absent a = some a
get_default null a = none
get_default (given b) a = some b

-- A subscript of null is a `TypeError`.
abbrev pub as_dict {ℓ} : {A : Type ℓ} → Option A → Result A
as_dict none = err other_exception
as_dict (some d) = ok d

-- `data["client"]`
pub record ClientData : Type 0 where
  pub external_client_id : Field String
  pub name : Field String
  pub email : Field String
  pub document : Field String

-- What `fields` of `upsert_current_address` names, in its order.
pub record Place {ℓ} (A : Type ℓ) : Type ℓ where
  pub street : A
  pub number : A
  pub complement : A
  pub neighborhood : A
  pub city : A
  pub state : A
  pub postal_code : A
  pub country : A

-- `data["address"]`
pub record AddressData : Type 0 where
  pub external_address_id : Field String
  pub place : Place (Field String)

-- an element of `data["items"]`
pub record ItemData : Type 0 where
  pub order_id : Field ℕ
  pub sku : Field String
  pub description : Field String
  pub quantity : Field ℕ
  pub unit_price : Field ℕ

-- `event["data"]`: the keys that the handlers read, of all the event types together
pub record EventData : Type 0 where
  pub client : Field ClientData
  pub address : Field AddressData
  pub items : Field (List ItemData)
  pub external_order_id : Field String
  pub total_amount : Field ℕ
  pub currency : Field String
  pub order_date : Field ℕ
  pub new_status : Field String
  pub external_payment_id : Field String
  pub external_invoice_id : Field String
  pub method : Field String
  pub status : Field String
  pub amount : Field ℕ
  pub paid_at : Field ℕ
  pub invoice_number : Field String
  pub issued_at : Field ℕ
  pub pdf_url : Field String

-- the message itself
pub record Event : Type 0 where
  pub event_id : Field String
  pub event_type : Field String
  pub payload : Field EventData
