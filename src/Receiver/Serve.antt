-- ===== src/Receiver/Serve.antt =====
-- `receive_webhook`, behind the validation of its argument.
use observability_lab.Prelude.{
  ℕ, suc, String, Option, none, some, Bool, List, [], ◌∷◌, if◌then◌else◌,
}
use observability_lab.Broker.{Ack, acked, ack_lost, unsent}
use observability_lab.Receiver.Envelope.{
  Value, null, text, other, Body, WebhookEnvelope, validate, partition_key,
}

-- The response.
pub data Response : Type 0 where
  -- 202, with the event's id
  accepted : String → Response
  -- 422, from FastAPI
  unprocessable : Response
  -- 503, "producer not ready"
  not_ready : Response
  -- 503, "event broker unavailable, retry later"
  broker_unavailable : Response
  -- 500, for an exception that nothing catches
  internal_error : Response

pub record State : Type 0 where
  -- whether `producer` is set
  pub ready : Bool
  -- the topic `webhook-events`, keys and values, the newest first
  pub topic : List (String × String)
  pub sends : ℕ
  -- the readings of the clock so far
  pub readings : ℕ
  -- `webhooks_received_total`: the label of each increment, the newest first
  pub received : List String
  -- `webhook_publish_failures_total`
  pub failures : ℕ

pub record Packages : Type 0 where
  -- the n-th reading of `time.time()`
  pub time : ℕ → ℕ
  -- `orjson.dumps`, of the envelope and the time of its receipt; none if it raises
  pub dumps : WebhookEnvelope → ℕ → Option String
  -- the n-th `send_and_wait`
  pub send : ℕ → Ack

-- `partition_key.encode("utf-8")`, which only a text has
abbrev pub encode : Value → Option String
encode null = none
encode (text t) = some t
encode (other b) = none

abbrev pub failed : State → Response × State
failed k = (broker_unavailable, record k { failures = suc k.failures })

abbrev pub append : String → String → State → State
append key value k = record k { topic = (key, value) ∷ k.topic }

abbrev pub published : Ack → String → String → WebhookEnvelope → State → Response × State
published acked key value e k =
    (accepted e.event_id, record (append key value k) { received = e.event_type ∷ k.received })
published ack_lost key value e k = failed (append key value k)
published unsent key value e k = failed k

module _ (p : Packages) where
  -- the try statement
  abbrev pub publish : Option String → String → WebhookEnvelope → State → Response × State
  publish none value e k = failed k
  publish (some key) value e k =
      published (p.send k.sends) key value e (record k { sends = suc k.sends })

  abbrev pub dumped : Option String → WebhookEnvelope → State → Response × State
  dumped none e k = (internal_error, k)
  dumped (some value) e k = publish (encode (partition_key e)) value e k

  unfoldable pub receive_webhook : WebhookEnvelope → State → Response × State
  receive_webhook e k =
      if k.ready
      then dumped (p.dumps e (p.time k.readings)) e (record k { readings = suc k.readings })
      else (not_ready, k)

  abbrev pub validated : Option WebhookEnvelope → State → Response × State
  validated none k = (unprocessable, k)
  validated (some e) k = receive_webhook e k

  -- one request
  unfoldable pub serve : Body → State → Response × State
  serve b k = validated (validate b) k

  -- the requests of a client, one after the other
  unfoldable pub serve_all : List Body → State → List Response × State
  serve_all [] k = ([], k)
  serve_all (b ∷ bs) k = let (r, k1) = serve b k in let (rs, k2) = serve_all bs k1 in (r ∷ rs, k2)
