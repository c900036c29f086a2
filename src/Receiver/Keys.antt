-- ===== src/Receiver/Keys.antt =====
-- The keys of what is published.
use observability_lab.Prelude.{
  ℕ, suc, String, ◌==◌, eq_iff, arith, ap, ◌≡◌, refl, Option, none, some, Bool, true, false,
  Bool-cases, ◌∷◌, inl, inr, if◌then◌else◌,
}
use observability_lab.Broker.{Ack, acked, ack_lost, unsent}
use observability_lab.Receiver.Envelope.{
  Value, null, text, other, Body, WebhookEnvelope, validate, truth, get, or_else, partition_key,
  is_id,
}
use observability_lab.Receiver.Serve.{
  accepted, not_ready, State, Packages, encode, published, publish, dumped, receive_webhook,
  validated, serve,
}

encode-text : (v : Value) (key : String) → encode v ≡ some key → v ≡ text key
encode-text null key h = ground arith
encode-text (text t) key h = ground arith
encode-text (other b) key h = ground arith

published-append :
    (a : Ack) (key value : String) (e : WebhookEnvelope) (k : State) (id : String)
    → (published a key value e k).0 ≡ accepted id
    → (e.event_id ≡ id) × ((published a key value e k).1.topic ≡ (key, value) ∷ k.topic)
published-append acked key value e k id h = (ground (arith, h), refl)
published-append ack_lost key value e k id h = ground (arith, h)
published-append unsent key value e k id h = ground (arith, h)

module _ (p : Packages) where
  -- The event is in the topic, once more, under its partition key.
  abbrev pub IsPublished : Body → String → State → State → Type 0
  IsPublished b id k l =
      (e : WebhookEnvelope) × (key : String) × (value : String) × (validate b ≡ some e)
      × (e.event_id ≡ id)
      × (partition_key e ≡ text key)
      × (p.dumps e (p.time k.readings) ≡ some value)
      × (l.topic ≡ (key, value) ∷ k.topic)

  publish-key :
      (v : Option String) (value : String) (e : WebhookEnvelope) (k : State) (id : String)
      → (publish p v value e k).0 ≡ accepted id
      → (key : String) × (v ≡ some key)
        × (e.event_id ≡ id)
        × ((publish p v value e k).1.topic ≡ (key, value) ∷ k.topic)
  publish-key none value e k id h = ground (arith, h)
  publish-key (some key) value e k id h =
      let r =
        published-append (p.send k.sends) key value e (record k { sends = suc k.sends }) id h in
      (key, refl, r.0, r.1)

  dumped-key :
      (v : Option String) (e : WebhookEnvelope) (k : State) (id : String)
      → (dumped p v e k).0 ≡ accepted id
      → (key : String) × (value : String) × (e.event_id ≡ id)
        × (partition_key e ≡ text key)
        × (v ≡ some value)
        × ((dumped p v e k).1.topic ≡ (key, value) ∷ k.topic)
  dumped-key none e k id h = ground (arith, h)
  dumped-key (some value) e k id h =
      let (key, c, i, t) = publish-key (encode (partition_key e)) value e k id h in
      (key, value, i, encode-text (partition_key e) key c, refl, t)

  -- What an accepted envelope comes to, at the reading `now` of the clock.
  abbrev IsKeyed : WebhookEnvelope → ℕ → String → State → State → Type 0
  IsKeyed e now id k l =
      (key : String) × (value : String) × (e.event_id ≡ id)
      × (partition_key e ≡ text key)
      × (p.dumps e now ≡ some value)
      × (l.topic ≡ (key, value) ∷ k.topic)

  ready-key :
      (ready : Bool) (now : ℕ) (e : WebhookEnvelope) (k l : State) (id : String)
      → (if ready then dumped p (p.dumps e now) e l else (not_ready, k)).0 ≡ accepted id
      → IsKeyed e now id l (if ready then dumped p (p.dumps e now) e l else (not_ready, k)).1
  ready-key true now e k l id h = dumped-key (p.dumps e now) e l id h
  ready-key false now e k l id h = ground (arith, h)

  received-key :
      (e : WebhookEnvelope) (k : State) (id : String)
      → (receive_webhook p e k).0 ≡ accepted id
      → IsKeyed e (p.time k.readings) id k (receive_webhook p e k).1
  unfolding receive_webhook
  received-key e k id h =
      ready-key k.ready (p.time k.readings) e k (record k { readings = suc k.readings }) id h

  -- A request that is answered 202 was valid, and its event was appended to the topic, once, under
  -- its partition key.
  pub accepted-IsPublished :
      (b : Body) (k : State) (id : String)
      → (serve p b k).0 ≡ accepted id
      → IsPublished b id k (serve p b k).1
  unfolding serve
  accepted-IsPublished b k id h = validated_key (validate b) refl h
    where
      validated_key :
          (v : Option WebhookEnvelope)
          → validate b ≡ v
          → (validated p v k).0 ≡ accepted id
          → IsPublished b id k (validated p v k).1
      validated_key none e h = ground (arith, h)
      validated_key (some w) e h =
          let (key, value, i, c, d, t) = received-key w k id h in (w, key, value, e, i, c, d, t)

truth-or_else : (a b : Value) → truth b ≡ true → truth (or_else a b) ≡ true
truth-or_else a b h = elim (Bool-cases (truth a)) [ inl e ↦ rw e e | inr e ↦ rw e h ]

id_truth : (t : String) → is_id t ≡ true → truth (text t) ≡ true
id_truth t h = elim (Bool-cases (t == "")) [
  | inr e ↦ rw e refl
  | inl e ↦ let k : is_id t ≡ is_id "" = ap is_id ((eq_iff t "").0 e) in ground (arith, k, h)
]

validate-is_id : (b : Body) (e : WebhookEnvelope) → validate b ≡ some e → is_id e.event_id ≡ true
unfolding validate
validate-is_id b e h = ground (arith, h)

-- The key of a validated envelope is a true value: never null, and never the empty text.
partition_key-truth :
    (b : Body) (e : WebhookEnvelope) → validate b ≡ some e → truth (partition_key e) ≡ true
unfolding partition_key
partition_key-truth b e h =
    truth-or_else
      (or_else (get "external_order_id" e.data_fields) (get "external_client_id" e.data_fields))
      (text e.event_id) (id_truth e.event_id (validate-is_id b e h))
