-- ===== src/Worker/Main.antt =====
-- `main`: the clients around the loop, and the process started again.
use observability_lab.Prelude.{ℕ, List, [], ◌∷◌}
use observability_lab.Clients.{
  kafka_consumer, kafka_producer, http_client, opening, closing, Exit, failed, Life, call,
  then_next, then_finally,
}
use observability_lab.Worker.Deliver.{returned, raised, Message, State, Outcome, World}
use observability_lab.Worker.Loop.{main_loop}

-- One start of the process: how its calls on the clients end, the messages that the consumer hands
-- out, and whether the iteration then ends, or is ended by an exception such as a cancellation.
pub record Run : Type 0 where
  pub answers : ℕ → Exit
  pub messages : List Message
  pub last : Exit

module _ {Json : Type 0} (w : World Json) where
  abbrev pub looped : Exit → Life (State Json) → Outcome Json → Exit × Life (State Json)
  looped last l (returned, k) = (last, record l { state = k })
  looped last l (raised e, k) = (failed, record l { state = k })

  unfoldable pub main : Run → Life (State Json) → Exit × Life (State Json)
  main r l = then_next (call r.answers (opening kafka_consumer) l) λ l1.
      then_next (call r.answers (opening kafka_producer) l1) λ l2.
        then_next (call r.answers (opening http_client) l2) λ l3.
          then_finally
            (then_finally (looped r.last l3 (main_loop w r.messages l3.state)) λ l4.
              then_next (call r.answers (closing kafka_consumer) l4)
                (call r.answers (closing kafka_producer)))
            (call r.answers (closing http_client))

  -- A new process: its consumer begins behind the committed offsets, no client is open, and the
  -- counters of its metrics begin again.
  abbrev pub start : State Json → Life (State Json)
  start k = record { calls = []; state = record k { consumed = k.committed; counts = [] } }

  -- The process, started again each time it has ended.
  unfoldable pub restarts : List Run → State Json → State Json
  restarts [] k = k
  restarts (r ∷ rs) k = restarts rs (main r (start k)).1.state
