-- ===== src/Worker/Loop.antt =====
-- The loop of `main`: deliver, or route to the dead-letter topic, then commit.
use observability_lab.Prelude.{suc, String, Option, none, some, List, [], ◌∷◌, if◌then◌else◌}
use observability_lab.Broker.{Ack, acked, ack_lost, unsent}
use observability_lab.Worker.Deliver.{
  transient_delivery_error, http_status_error, other_exception, returned, raised, Message, State,
  Outcome, World, deliver,
}

module _ {Json : Type 0} (w : World Json) where
  -- `deliveries_total.labels(outcome=…).inc()`
  abbrev pub count : String → State Json → State Json
  count outcome k = record k { counts = outcome ∷ k.counts }

  -- `consumer.commit()`, of all that the consumer has handed out
  abbrev pub commit : State Json → Outcome Json
  commit k =
      if w.commit k.commits
      then (returned, record k { committed = k.consumed; commits = suc k.commits })
      else (raised other_exception, record k { commits = suc k.commits })

  abbrev pub append : Message → State Json → State Json
  append m k = record k { dead_letters = (m.key, m.value) ∷ k.dead_letters }

  abbrev pub sent : Ack → Message → State Json → Outcome Json
  sent acked m k = commit (count "dlq" (append m k))
  sent ack_lost m k = (raised other_exception, append m k)
  sent unsent m k = (raised other_exception, k)

  abbrev pub to_dlq : Message → State Json → Outcome Json
  to_dlq m k = sent (w.send k.sends) m (record k { sends = suc k.sends })

  -- the try statement around `deliver`, and the commit
  abbrev pub conclude : Message → Outcome Json → Outcome Json
  conclude m (returned, k) = commit (count "success" k)
  conclude m (raised transient_delivery_error, k) = to_dlq m k
  conclude m (raised http_status_error, k) = to_dlq m k
  conclude m (raised other_exception, k) = (raised other_exception, k)

  abbrev pub handle_loaded : Message → Option Json → State Json → Outcome Json
  handle_loaded m none k = (raised other_exception, k)
  handle_loaded m (some payload) k = conclude m (deliver w payload k)

  -- one turn of the loop
  unfoldable pub handle_message : Message → State Json → Outcome Json
  handle_message m k = handle_loaded m (w.loads m.value) (record k { consumed = m ∷ k.consumed })

  -- the next turn, unless an exception ended the loop
  abbrev pub next : (State Json → Outcome Json) → Outcome Json → Outcome Json
  next rest (returned, k) = rest k
  next rest (raised e, k) = (raised e, k)

  -- `async for msg in consumer`, over the messages that it hands out
  unfoldable pub main_loop : List Message → State Json → Outcome Json
  main_loop [] k = (returned, k)
  main_loop (m ∷ ms) k = next (main_loop ms) (handle_message m k)
