-- ===== src/Consumer/Main.antt =====
-- `main`: the clients around the loop, and the process started again.
use observability_lab.Prelude.{ℕ, List, [], ◌∷◌}
use observability_lab.Server.{Server}
use observability_lab.Clients.{
  kafka_consumer, kafka_producer, opening, closing, Exit, failed, Life, call, then_next,
  then_finally,
}
use observability_lab.Consumer.Handle.{Packages, Message, State}
use observability_lab.Consumer.Loop.{main_loop}

-- One start of the process: how its calls on the clients end, and what the calls of `getmany` return
-- until an exception ends the loop, such as the cancellation of `main`.
pub record Run : Type 0 where
  pub answers : ℕ → Exit
  pub polls : List (List (ℕ × List Message))

module _ ⦃s : Server⦄ (p : Packages) where
  -- The loop ends by an exception only.
  abbrev pub looped : List (List (ℕ × List Message)) → Life State → Exit × Life State
  looped polls l = (failed, record l { state = (main_loop p polls l.state).1 })

  unfoldable pub main : Run → Life State → Exit × Life State
  main r l = then_next (call r.answers (opening kafka_consumer) l) λ l1.
      then_next (call r.answers (opening kafka_producer) l1) λ l2.
        then_finally (looped r.polls l2) λ l3.
          then_next (call r.answers (closing kafka_consumer) l3)
            (call r.answers (closing kafka_producer))

  -- A new process: no client is open, and the counters of its metrics begin again.
  abbrev pub start : State → Life State
  start k = record { calls = []; state = record k { counts = [] } }

  -- The process, started again each time it has ended.
  unfoldable pub restarts : List Run → State → State
  restarts [] k = k
  restarts (r ∷ rs) k = restarts rs (main r (start k)).1.state
