-- ===== src/Worker/Deliver.antt =====
-- `deliver`: one POST, and its repetition by tenacity.
use observability_lab.Prelude.{
  ℕ, suc, String, ◌≡◌, Option, Bool, true, false, List, ◌∷◌, length, leb, if◌then◌else◌,
}
use observability_lab.Broker.{Ack}

-- What becomes of `client.post`.
pub data Answer : Type 0 where
  -- it raises an `httpx.TransportError`
  unreachable : Answer
  -- it raises anything else
  garbled : Answer
  -- a response with this status code
  answered : ℕ → Answer

pub data Exception : Type 0 where
  transient_delivery_error : Exception
  -- `httpx.HTTPStatusError`
  http_status_error : Exception
  other_exception : Exception

pub data Ended : Type 0 where
  returned : Ended
  raised : Exception → Ended

-- `ConsumerRecord`
pub record Message : Type 0 where
  pub key : Option String
  pub value : String

module _ (Json : Type 0) where
  pub record State : Type 0 where
    -- the POSTs so far, with what became of them, the newest first
    pub requests : List (Json × Answer)
    -- the dead-letter topic, keys and values, the newest first
    pub dead_letters : List (Option String × String)
    pub sends : ℕ
    -- the messages that the consumer has handed out, the newest first
    pub consumed : List Message
    -- those of them that were handed out when `consumer.commit` succeeded last
    pub committed : List Message
    pub commits : ℕ
    -- `deliveries_total`: the label of each increment, the newest first
    pub counts : List String

  abbrev pub Outcome : Type 0
  Outcome = Ended × State

  -- One attempt and, if its exception passes the test, what follows.
  abbrev pub again : (Exception → Bool) → (State → Outcome) → Outcome → Outcome
  again test rest (returned, k) = (returned, k)
  again test rest (raised e, k) = if test e then rest k else (raised e, k)

  -- The packages and the services that the process calls. The laws of `retry` are what tenacity's
  -- documentation says of `retry(retry=…, stop=stop_after_attempt(n), reraise=True)`.
  pub record World : Type 0 where
    -- `orjson.loads`; none if it raises, or gives no dictionary
    pub loads : String → Option Json
    -- the n-th POST
    pub post : ℕ → Json → Answer
    -- whether `raise_for_status` raises for a status code
    pub is_error : ℕ → Bool
    -- the n-th `producer.send_and_wait`
    pub send : ℕ → Ack
    -- whether the n-th `consumer.commit` succeeds
    pub commit : ℕ → Bool
    pub retry : (Exception → Bool) → ℕ → (State → Outcome) → State → Outcome
    pub retry_once :
        (test : Exception → Bool) (m : State → Outcome) (k : State) → retry test 1 m k ≡ m k
    pub retry_again :
        (test : Exception → Bool) (n : ℕ) (m : State → Outcome) (k : State)
        → retry test (suc (suc n)) m k ≡ again test (retry test (suc n) m) (m k)

-- `retry_if_exception_type(TransientDeliveryError)`
abbrev pub is_transient : Exception → Bool
is_transient transient_delivery_error = true
is_transient http_status_error = false
is_transient other_exception = false

module _ {Json : Type 0} (w : World Json) where
  abbrev pub judge : Answer → Ended
  judge unreachable = raised transient_delivery_error
  judge garbled = raised other_exception
  judge (answered c) =
      if leb 500 c
      then raised transient_delivery_error
      else if w.is_error c
      then raised http_status_error
      else returned

  -- the body of `deliver`
  abbrev pub attempt : Json → State Json → Outcome Json
  attempt payload k =
      let answer = w.post (length k.requests) payload in
      (judge answer, record k { requests = (payload, answer) ∷ k.requests })

  unfoldable pub deliver : Json → State Json → Outcome Json
  deliver payload k = w.retry is_transient 5 (attempt payload) k
