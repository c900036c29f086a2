-- ===== src/Consumer/Handle.antt =====
-- `handle_message`: the attempts, the exceptions, the metrics and the publication.
use Prim.Native.String.{◌++◌}
use observability_lab.Prelude.{
  ℕ, suc, String, ◌==◌, ◌≡◌, Option, none, some, Bool, true, false, List, ◌∷◌, if◌then◌else◌,
}
use observability_lab.Server.{Server}
use observability_lab.Broker.{Ack, acked, ack_lost, unsent}
use observability_lab.Result.{
  Error, duplicate_event, operational_error, integrity_error, sqlalchemy_error, other_exception,
  Result, ok, err,
}
use observability_lab.Payload.{subscript, Event}
use observability_lab.Session.{Conn, Tx}
use observability_lab.DbOps.Orders.{Snapshot}
use observability_lab.DbOps.PipelineLog.{log_pipeline_event}
use observability_lab.Consumer.Process.{Outbox, Reply, run_in_txn}

-- One attempt and, if its exception passes the test, what follows.
abbrev pub again : {A : Type 0} → (Error → Bool) → Tx A → Result A × Conn → Result A × Conn
again test rest (ok a, c) = (ok a, c)
again test rest (err e, c) = if test e then rest c else (err e, c)

-- The packages that the process imports. The two laws are what tenacity's documentation says of
-- `retry(retry=…, stop=stop_after_attempt(n), reraise=True)`; waiting has no effect here.
pub record Packages : Type 0 where
  -- `orjson.loads`; none if it raises, or gives no dictionary
  pub loads : String → Option Event
  -- `str(exc)`
  pub describe : Error → String
  -- `str(n)`
  pub decimal : ℕ → String
  -- the n-th `send_and_wait`
  pub send : ℕ → Ack
  -- whether the n-th `consumer.commit` succeeds
  pub commit : ℕ → Bool
  pub retry : (Error → Bool) → ℕ → Tx Reply → Tx Reply
  pub retry_once : (test : Error → Bool) (m : Tx Reply) (c : Conn) → retry test 1 m c ≡ m c
  pub retry_again :
      (test : Error → Bool) (n : ℕ) (m : Tx Reply) (c : Conn)
      → retry test (suc (suc n)) m c ≡ again test (retry test (suc n) m) (m c)

-- `ConsumerRecord`
pub record Message : Type 0 where
  pub offset : ℕ
  pub value : String

pub record State : Type 0 where
  pub conn : Conn
  -- the topic `order-approved`, keys and values, the newest first
  pub published : List (String × Snapshot)
  pub sends : ℕ
  -- `events_processed_total`: the labels of each increment, the newest first
  pub counts : List (String × String)
  -- the offsets committed, by partition, the newest first
  pub committed : List (ℕ × ℕ)
  pub commits : ℕ

-- What a coroutine leaves behind: it may raise.
abbrev pub Outcome : Type 0
Outcome = Result (Unit {0}) × State

-- The text of a label.
abbrev pub label : Option String → String
label none = "None"
label (some t) = t

-- `events_processed_total.labels(event_type=…, outcome=…).inc()`, where to read the type may raise
abbrev pub count : Result (Option String) → String → State → Outcome
count (err e) outcome k = (err e, k)
count (ok t) outcome k = (ok tt, record k { counts = (label t, outcome) ∷ k.counts })

-- `retry_if_exception_type(OperationalError)`
abbrev pub is_operational : Error → Bool
is_operational operational_error = true
is_operational _ = false

module _ ⦃s : Server⦄ (p : Packages) where
  abbrev pub log_error : String → Option String → State → State
  log_error message event_id k = record k {
    conn = log_pipeline_event "ingestion-consumer" "ERROR" message event_id k.conn;
  }

  unfoldable pub malformed : Message → Error → State → Outcome
  malformed msg e k = count (ok (some "unknown")) "malformed" (
      log_error ("malformed message at offset " ++ p.decimal msg.offset ++ ": " ++ p.describe e)
        none k)

  -- the `except` of the publication
  unfoldable pub publish_failed : Option String → Outbox → State → Outcome
  publish_failed event_id o k = count (ok (some "ORDER_APPROVED")) "publish_failed" (
      log_error
        ("ORDER_APPROVED publish failed for order_id="
          ++ p.decimal o.order.order.order_id
          ++ ": "
          ++ p.describe other_exception)
        event_id k)

  abbrev pub append : Outbox → State → State
  append o k = record k {
    published = (p.decimal o.order.order.order_id, o.order) ∷ k.published;
    sends = suc k.sends;
  }

  abbrev pub publish : Ack → Option String → Outbox → State → Outcome
  publish acked event_id o k = (ok tt, append o k)
  publish ack_lost event_id o k = publish_failed event_id o (append o k)
  publish unsent event_id o k = publish_failed event_id o (record k { sends = suc k.sends })

  abbrev pub emit : Option String → Reply → Outcome → Outcome
  emit event_id r (err e, k) = (err e, k)
  emit event_id none (ok _, k) = (ok tt, k)
  emit event_id (some o) (ok _, k) =
      if o.event_type == "ORDER_APPROVED" then publish (p.send k.sends) event_id o k else (ok tt, k)

  -- what follows `asyncio.to_thread(_run_in_txn)`, clause by clause
  unfoldable pub conclude : Event → Option String → Result Reply → State → Outcome
  conclude e event_id (ok r) k = emit event_id r (count (subscript e.event_type) "success" k)
  conclude e event_id (err duplicate_event) k = count (subscript e.event_type) "duplicate" k
  conclude e event_id (err operational_error) k =
      count (subscript e.event_type) "db_unavailable"
        (log_error ("DB unavailable after retries: " ++ p.describe operational_error) event_id k)
  conclude e event_id (err integrity_error) k =
      count (subscript e.event_type) "db_error"
        (log_error ("DB error: " ++ p.describe integrity_error) event_id k)
  conclude e event_id (err sqlalchemy_error) k =
      count (subscript e.event_type) "db_error"
        (log_error ("DB error: " ++ p.describe sqlalchemy_error) event_id k)
  conclude e event_id (err other_exception) k =
      count (ok (some "unknown")) "unexpected_error"
        (log_error ("unexpected error: " ++ p.describe other_exception) event_id k)

  -- at most three attempts
  unfoldable pub attempts : Event → Option String → Tx Reply
  attempts e event_id = p.retry is_operational 3 (run_in_txn e event_id)

  unfoldable pub handle_event : Event → Option String → State → Outcome
  handle_event e event_id k =
      let (r, c) = attempts e event_id k.conn in conclude e event_id r (record k { conn = c })

  abbrev pub handle_identified : Message → Event → Result (Option String) → State → Outcome
  handle_identified msg e (err x) k = malformed msg x k
  handle_identified msg e (ok event_id) k = handle_event e event_id k

  unfoldable pub handle_loaded : Message → Option Event → State → Outcome
  handle_loaded msg none k = malformed msg other_exception k
  handle_loaded msg (some e) k = handle_identified msg e (subscript e.event_id) k

  unfoldable pub handle_message : Message → State → Outcome
  unfolding handle_loaded
  handle_message msg k = handle_loaded msg (p.loads msg.value) k
