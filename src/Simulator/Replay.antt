-- ===== src/Simulator/Replay.antt =====
-- The duplicates of the simulator, when the consumer gets them.
use observability_lab.Prelude.{ℕ, ◌≡◌, refl, some, true, List}
use observability_lab.Server.{Server}
use observability_lab.Sql.Events.{is_claimed}
use observability_lab.Consumer.Handle.{Packages, Message, State, handle_message}
use observability_lab.Consumer.Loop.{main_loop}
use observability_lab.Consumer.Idempotence.{unlogged, redelivery_no_op}
use observability_lab.Simulator.Run.{created, replay}
use observability_lab.Simulator.Events.{Source, make_order_created, request}

-- Once the consumer has the event of an order's creation in its ledger, then after any further batches
-- the simulator's replay of the creation changes no business table and no ledger row, and publishes
-- nothing; whatever the server, the packages and the broker do.
pub replay_no_op :
    ⦃s : Server⦄ (u : Source) (seq : ℕ) (p : Packages) (msg : Message)
    → p.loads msg.value ≡ some (request u seq replay).event
    → (polls : List (List (ℕ × List Message))) (k : State)
    → is_claimed (u.uuid seq created) k.conn.db ≡ true
    → let k' = (main_loop p polls k).1 in
      (unlogged (handle_message p msg k').1.conn.db ≡ unlogged k'.conn.db)
      × ((handle_message p msg k').1.published ≡ k'.published)
unfolding make_order_created
replay_no_op u seq p msg loaded =
    redelivery_no_op (request u seq replay).event (u.uuid seq created) refl p msg loaded
