-- ===== src/Simulator/Keys.antt =====
-- What the receiver makes of the simulator's requests.
use Prim.Native.String.{count}
use package.text.Mathlib.TextLemmas.{length-append}
use observability_lab.Prelude.{
  ℕ, String, ◌==◌, eq_iff, arith, ◌≡◌, refl, ap, Option, none, some, true, false, Bool-cases, inl,
  inr, List, [], ◌∷◌,
}
use observability_lab.BulkLoad.Text.{pad}
use observability_lab.Broker.{acked}
use observability_lab.Receiver.Envelope.{
  Value, text, Body, WebhookEnvelope, validate, is_id, get, partition_key,
}
use observability_lab.Receiver.Serve.{accepted, State, Packages, receive_webhook, serve}
use observability_lab.Simulator.Run.{Send, created, approved, payment, replay}
use observability_lab.Simulator.Events.{
  numeral, order_id, Source, make_order_created, make_status_changed, make_payment_confirmed,
  request, body_of,
}

order_id-nonempty : (seq : ℕ) → (order_id seq == "") ≡ false
unfolding order_id
order_id-nonempty seq = elim (Bool-cases (order_id seq == "")) [
  | inr e ↦ e
  | inl e ↦
      let empty : count (order_id seq) ≡ count "" = ap count ((eq_iff (order_id seq) "").0 e) in
      absurd (omega (arith, empty, length-append "ORD-" (numeral (pad 8 seq))))
]

-- An envelope of the order, with this id.
abbrev IsOf : String → String → Body → Type 0
IsOf id x b =
    (e : WebhookEnvelope) × (validate b ≡ some e)
    × (e.event_id ≡ id)
    × (get "external_order_id" e.data_fields ≡ text x)

-- The event's id; the replay has that of the created event.
abbrev pub sent_id : Source → ℕ → Send → String
sent_id u seq created = u.uuid seq created
sent_id u seq approved = u.uuid seq approved
sent_id u seq payment = u.uuid seq payment
sent_id u seq replay = u.uuid seq created

abbrev type_of : Send → String
type_of created = "ORDER_CREATED"
type_of approved = "ORDER_STATUS_CHANGED"
type_of payment = "PAYMENT_CONFIRMED"
type_of replay = "ORDER_CREATED"

abbrev or_empty : Option (List (String × Value)) → List (String × Value)
or_empty none = []
or_empty (some ms) = ms

module _ (u : Source) (seq : ℕ) where
  -- The request, as the receiver validates it.
  abbrev pub envelope : Send → WebhookEnvelope
  envelope x = record {
    event_id = sent_id u seq x;
    event_type = type_of x;
    occurred_at = (request u seq x).occurred_at;
    data_fields = or_empty (body_of (request u seq x)).data_fields;
  }

  request-IsOf :
      (x : Send)
      → is_id (sent_id u seq x) ≡ true
      → IsOf (sent_id u seq x) (order_id seq) (body_of (request u seq x))
  unfolding validate make_order_created make_status_changed make_payment_confirmed
  request-IsOf created h = (envelope created, rw h refl, refl, refl)
  request-IsOf approved h = (envelope approved, rw h refl, refl, refl)
  request-IsOf payment h = (envelope payment, rw h refl, refl, refl)
  request-IsOf replay h = (envelope replay, rw h refl, refl, refl)

request_welcome :
    (u : Source) (seq : ℕ) (x : Send) (p : Packages) (k : State)
    → is_id (sent_id u seq x) ≡ true
    → k.ready ≡ true
    → ((e : WebhookEnvelope) (n : ℕ) → (value : String) × (p.dumps e n ≡ some value))
    → p.send k.sends ≡ acked
    → (serve p (body_of (request u seq x)) k).0 ≡ accepted (sent_id u seq x)
unfolding serve receive_webhook partition_key
request_welcome u seq x p k h ready dumps answers =
    let (e, v, i, g) = request-IsOf u seq x h in
    let (value, d) = dumps e (p.time k.readings) in
    let own : partition_key e ≡ text (order_id seq) =
      rw (g, order_id-nonempty seq) (rw (order_id-nonempty seq) refl) in
    rw (v, ready, d, own, answers) (ap accepted i)

request-order :
    (u : Source) (seq : ℕ) (x : Send)
    → get "external_order_id" (envelope u seq x).data_fields ≡ text (order_id seq)
unfolding make_order_created make_status_changed make_payment_confirmed
request-order u seq created = refl
request-order u seq approved = refl
request-order u seq payment = refl
request-order u seq replay = refl

request-validate :
    (u : Source) (seq : ℕ) (x : Send)
    → is_id (sent_id u seq x) ≡ true
    → validate (body_of (request u seq x)) ≡ some (envelope u seq x)
unfolding validate make_order_created make_status_changed make_payment_confirmed
request-validate u seq created h = rw h refl
request-validate u seq approved h = rw h refl
request-validate u seq payment h = rw h refl
request-validate u seq replay h = rw h refl

-- With a source of ids of 1 to 100 characters, a receiver that is ready, whose encoder gives a text and
-- whose broker answers, validates every request of the simulator, as an envelope with the id of its
-- event, the event's type, its time and the order's id, accepts it with that id, and publishes one
-- record more: under the id of the order, what the encoder gives for that envelope and the time.
pub request_published :
    (u : Source) (seq : ℕ) (x : Send) (p : Packages) (k : State)
    → is_id (sent_id u seq x) ≡ true
    → k.ready ≡ true
    → ((e : WebhookEnvelope) (n : ℕ) → (value : String) × (p.dumps e n ≡ some value))
    → p.send k.sends ≡ acked
    → (validate (body_of (request u seq x)) ≡ some (envelope u seq x))
      × (get "external_order_id" (envelope u seq x).data_fields ≡ text (order_id seq))
      × ((serve p (body_of (request u seq x)) k).0 ≡ accepted (sent_id u seq x))
      × ((value : String) × (p.dumps (envelope u seq x) (p.time k.readings) ≡ some value)
          × ((serve p (body_of (request u seq x)) k).1.topic ≡ (order_id seq, value) ∷ k.topic))
unfolding serve receive_webhook partition_key
request_published u seq x p k h ready dumps answers =
    let (value, d) = dumps (envelope u seq x) (p.time k.readings) in
    let v = request-validate u seq x h in
    let g = request-order u seq x in
    let own : partition_key (envelope u seq x) ≡ text (order_id seq) =
      rw (g, order_id-nonempty seq) (rw (order_id-nonempty seq) refl) in
    (
      v,
      g,
      request_welcome u seq x p k h ready dumps answers,
      (value, d, rw (v, ready, d, own, answers) refl),
    )
