-- ===== src/Consumer/Samples/Witnesses.antt =====
-- Tests of the model, and the theorems at concrete inputs.
use observability_lab.Prelude.{◌∷◌, some, ◌≡◌, refl, List, [], ltb, not, ◌&&◌, if◌then◌else◌}
use observability_lab.Session.{Conn}
use observability_lab.DbOps.Parties.{upsert_current_address}
use observability_lab.Parties.History.{
  version, written, IsVersioned, address_version_immutable, address-IsVersioned,
}
use observability_lab.Tables.{Database, is_terminal}
use observability_lab.Consumer.Handle.{State, handle_message}
use observability_lab.Consumer.Loop.{main_loop}
use observability_lab.Consumer.Terminal.{order_of, terminal_order_frozen}
use observability_lab.Consumer.Ledger.Marks.{IsMarked, ledger-IsMarked}
use observability_lab.Consumer.Idempotence.{unlogged, RanOnce, message_atomic}
use observability_lab.Clients.{kafka_consumer, kafka_producer, finished, failed, succeeds, is_open}
use observability_lab.Consumer.Main
use observability_lab.Consumer.Main.{Run, main, restarts}
use observability_lab.Consumer.Restarts.{worked, consumer_closes, redelivery_after_restarts}
use observability_lab.Consumer.History.Trail.{IsAudited}
use observability_lab.Consumer.History.Audited.{trail-IsAudited}
use observability_lab.Consumer.Samples.{
  binary, packages, home_row, approve, replay, new_address, message, order, shop, start, polls,
}

abbrev finish : State
finish = (main_loop packages polls start).1

abbrev after_move : Conn
after_move = (upsert_current_address 1 new_address start.conn).1

terminal_order_frozen_example : order_of "ORD-1" finish.conn.db ≡ some (order 1 "ORD-1" "DELIVERED")
unfolding is_terminal
terminal_order_frozen_example =
    terminal_order_frozen packages "ORD-1" (order 1 "ORD-1" "DELIVERED") refl polls start refl

ledger-IsMarked_example : IsMarked finish.conn.db.processed_webhook_events
ledger-IsMarked_example = ledger-IsMarked packages polls start ((0, refl), tt)

message_atomic_example :
    (settled : Database) × RanOnce approve "evt-approve" shop settled
    × (unlogged (handle_message packages (message 7 "approve") start).1.conn.db ≡ unlogged settled)
message_atomic_example =
    message_atomic approve "evt-approve" refl packages (message 7 "approve") refl start

abbrev first_run : Run
first_run = record { answers = λ n. if ltb n 3 then finished else failed; polls = polls }

-- Two starts of the process: in the first the producer does not stop, in the second it does not start.
abbrev runs : List Run
runs =
    first_run ∷ record { answers = λ n. if ltb n 1 then finished else failed; polls = polls } ∷ []

redelivery_after_restarts_example :
    (unlogged
        (handle_message packages (message 10 "replay") (restarts packages runs start)).1.conn.db
      ≡ unlogged (restarts packages runs start).conn.db)
    × ((handle_message packages (message 10 "replay") (restarts packages runs start)).1.published
        ≡ (restarts packages runs start).published)
redelivery_after_restarts_example =
    redelivery_after_restarts packages replay "evt-old" refl (message 10 "replay") refl runs start
      refl

consumer_closes_example :
    let l = (main packages first_run (Main.start packages start)).1 in
    (l.state ≡ worked packages first_run start)
    × (is_open kafka_consumer l.calls
        ≡ (succeeds (first_run.answers 0) && not (succeeds (first_run.answers 1))))
    × (is_open kafka_producer l.calls ≡ (
        succeeds (first_run.answers 0)
        && (succeeds (first_run.answers 1) && not (succeeds (first_run.answers 2)))))
consumer_closes_example = consumer_closes packages first_run start

trail-IsAudited_example : IsAudited finish.conn.db.orders finish.conn.db.order_status_history
trail-IsAudited_example = trail-IsAudited packages polls start (record {
  keys = (refl, refl, (refl, refl, tt));
  agrees = (refl, (refl, tt));
  linked = (refl, (refl, (refl, tt)));
  known = (refl, (refl, (refl, tt)));
})

address_version_immutable_example : version 1 finish.conn.db.address ≡ version 1 shop.address
address_version_immutable_example =
    address_version_immutable packages 1 (written home_row) polls start refl

address-IsVersioned_example : IsVersioned finish.conn.db.address
address-IsVersioned_example = address-IsVersioned packages polls start (refl, refl, tt)
