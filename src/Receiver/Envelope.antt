-- ===== src/Receiver/Envelope.antt =====
-- The envelope of a webhook, its validation and its partition key.
use Prim.Native.String.{count}
use observability_lab.Prelude.{
  String, ◌==◌, Option, none, some, Bool, false, not, ◌&&◌, List, [], ◌∷◌, any, find, leb,
  if◌then◌else◌,
}

-- A JSON value as the key's expression sees it; of a value that is no text, whether it is true.
pub data Value : Type 0 where
  null : Value
  text : String → Value
  other : Bool → Value

-- The request's body: a field is none where the key is absent; `data` also where it is no object.
pub record Body : Type 0 where
  pub event_id : Option Value
  pub event_type : Option Value
  pub occurred_at : Option Value
  pub data_fields : Option (List (String × Value))

pub record WebhookEnvelope : Type 0 where
  pub event_id : String
  pub event_type : String
  pub occurred_at : String
  pub data_fields : List (String × Value)

-- `EventType`
abbrev pub event_types : List String
event_types = "ORDER_CREATED" ∷ "ORDER_STATUS_CHANGED" ∷ "PAYMENT_CONFIRMED" ∷ "INVOICE_ISSUED" ∷ []

infixl 5 ◌>>=◌
abbrev ◌>>=◌ : {A B : Type 0} → Option A → (A → Option B) → Option B
none >>= f = none
some a >>= f = f a

-- `str`
abbrev pub as_text : Option Value → Option String
as_text none = none
as_text (some null) = none
as_text (some (text t)) = some t
as_text (some (other b)) = none

abbrev pub satisfying : {A : Type 0} → (A → Bool) → A → Option A
satisfying test a = if test a then some a else none

-- `Field(..., min_length=1, max_length=100)`
abbrev pub is_id : String → Bool
is_id t = leb 1 (count t) && leb (count t) 100

-- What pydantic does with `WebhookEnvelope`; none is its rejection.
unfoldable pub validate : Body → Option WebhookEnvelope
validate b = do
  i ← as_text b.event_id
  event_id ← satisfying is_id i
  t ← as_text b.event_type
  event_type ← satisfying (λ u. any (λ v. v == u) event_types) t
  occurred_at ← as_text b.occurred_at
  data_fields ← b.data_fields
  some (record {
    event_id = event_id;
    event_type = event_type;
    occurred_at = occurred_at;
    data_fields = data_fields;
  })

-- `bool(v)`
abbrev pub truth : Value → Bool
truth null = false
truth (text t) = not (t == "")
truth (other b) = b

-- `d.get(key)`
abbrev pub get : String → List (String × Value) → Value
get key d = elim (find (λ e. e.0 == key) d) [ none ↦ null | some e ↦ e.1 ]

-- `a or b`
abbrev pub or_else : Value → Value → Value
or_else a b = if truth a then a else b

unfoldable pub partition_key : WebhookEnvelope → Value
partition_key e =
    or_else
      (or_else (get "external_order_id" e.data_fields) (get "external_client_id" e.data_fields))
      (text e.event_id)
