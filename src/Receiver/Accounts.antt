-- ===== src/Receiver/Accounts.antt =====
-- The counters of the receiver against its responses and its topic.
use observability_lab.Prelude.{
  ℕ, suc, String, arith, ◌≡◌, refl, Option, none, some, Bool, true, false, List, [], ◌∷◌, length,
  ◌+◌, ◌≤◌, if◌then◌else◌,
}
use observability_lab.Broker.{Ack, acked, ack_lost, unsent}
use observability_lab.Receiver.Envelope.{Body, WebhookEnvelope, validate, partition_key}
use observability_lab.Receiver.Serve.{
  Response, accepted, unprocessable, not_ready, broker_unavailable, internal_error, State, Packages,
  encode, published, dumped, receive_webhook, validated, serve, serve_all,
}

abbrev pub accepts : Response → ℕ
accepts (accepted id) = 1
accepts unprocessable = 0
accepts not_ready = 0
accepts broker_unavailable = 0
accepts internal_error = 0

abbrev pub refusals : Response → ℕ
refusals (accepted id) = 0
refusals unprocessable = 0
refusals not_ready = 0
refusals broker_unavailable = 1
refusals internal_error = 0

abbrev pub sum : (Response → ℕ) → List Response → ℕ
sum f [] = 0
sum f (r ∷ rs) = f r + sum f rs

-- From one state to another, over responses with `a` acceptances and `u` failures of the broker.
-- Each acceptance is in the topic; of the failures, those whose acknowledgement was lost may be.
abbrev pub IsAccounted : ℕ → ℕ → State → State → Type 0
IsAccounted a u k l =
    (length l.received ≡ length k.received + a)
    × (l.failures ≡ k.failures + u)
    × (length k.topic + a ≤ length l.topic)
    × (length l.topic ≤ length k.topic + a + u)

joined :
    (a u b v : ℕ) (k l m : State)
    → IsAccounted a u k l
    → IsAccounted b v l m
    → IsAccounted (a + b) (u + v) k m
joined a u b v k l m h i = ground (arith, h, i)

published-IsAccounted :
    (a : Ack) (key value : String) (e : WebhookEnvelope) (k : State)
    → IsAccounted
        (accepts (published a key value e k).0)
        (refusals (published a key value e k).0)
        k
        (published a key value e k).1
published-IsAccounted acked key value e k = ground arith
published-IsAccounted ack_lost key value e k = ground arith
published-IsAccounted unsent key value e k = ground arith

module _ (p : Packages) where
  dumped-IsAccounted :
      (v key : Option String) (e : WebhookEnvelope) (k : State)
      → encode (partition_key e) ≡ key
      → IsAccounted (accepts (dumped p v e k).0) (refusals (dumped p v e k).0) k (dumped p v e k).1
  dumped-IsAccounted none key e k h = ground arith
  dumped-IsAccounted (some value) none e k h = rw h (ground arith)
  dumped-IsAccounted (some value) (some key) e k h =
      rw h (published-IsAccounted (p.send k.sends) key value e (record k { sends = suc k.sends }))

  receive-IsAccounted :
      (e : WebhookEnvelope) (k : State)
      → IsAccounted
          (accepts (receive_webhook p e k).0)
          (refusals (receive_webhook p e k).0)
          k
          (receive_webhook p e k).1
  unfolding receive_webhook
  receive-IsAccounted e k = gated k.ready
    where
      gated :
          (b : Bool)
          → let o : Response × State =
              if b
              then dumped p
                  (p.dumps e (p.time k.readings))
                  e
                  (record k { readings = suc k.readings })
              else (not_ready, k) in
            IsAccounted (accepts o.0) (refusals o.0) k o.1
      gated true =
          dumped-IsAccounted (p.dumps e (p.time k.readings)) (encode (partition_key e)) e
            (record k { readings = suc k.readings }) refl
      gated false = ground arith

  serve-IsAccounted :
      (b : Body) (k : State)
      → IsAccounted (accepts (serve p b k).0) (refusals (serve p b k).0) k (serve p b k).1
  unfolding serve
  serve-IsAccounted b k = valid (validate b)
    where
      valid :
          (v : Option WebhookEnvelope)
          → IsAccounted
              (accepts (validated p v k).0)
              (refusals (validated p v k).0)
              k
              (validated p v k).1
      valid none = ground arith
      valid (some e) = receive-IsAccounted e k

  -- Over any requests: `webhooks_received_total` grows by the number of 202 responses, and
  -- `webhook_publish_failures_total` by that of the 503 responses that blame the broker. The topic
  -- grows by one message for each 202 at least, and beyond them by one for each such 503 at most.
  pub serve_all-IsAccounted :
      (bs : List Body) (k : State)
      → IsAccounted
          (sum accepts (serve_all p bs k).0)
          (sum refusals (serve_all p bs k).0)
          k
          (serve_all p bs k).1
  unfolding serve_all
  serve_all-IsAccounted [] k = ground arith
  serve_all-IsAccounted (b ∷ bs) k =
      joined _ _ _ _ k (serve p b k).1 (serve_all p bs (serve p b k).1).1 (serve-IsAccounted b k)
        (serve_all-IsAccounted bs (serve p b k).1)
