-- ===== src/Consumer/Restarts.antt =====
-- What `main` leaves open, and what it does to the tables over its restarts.
use observability_lab.Prelude.{
  String, not, ◌&&◌, true, arith, List, [], ◌∷◌, ◌≡◌, some, sym, inl, inr, Bool-cases,
  if◌then◌else◌,
}
use observability_lab.Server.{Server}
use observability_lab.Result.{ok}
use observability_lab.Payload.{subscript, Event}
use observability_lab.Clients.{kafka_consumer, kafka_producer, succeeds, is_open}
use observability_lab.Consumer.Handle.{Packages, Message, State, handle_message}
use observability_lab.Consumer.Loop.{main_loop}
use observability_lab.Session.Rules.{Pred}
use observability_lab.Sql.Events.{is_claimed}
use observability_lab.Consumer.Invariant.Lift.{IsKept, main_loop-keeps}
use observability_lab.Consumer.Idempotence.{unlogged, redelivery_no_op}
use observability_lab.Consumer.Ledger.Claims.{claim-IsKept}
use mathlib.Core.Path.{subst}
use observability_lab.Consumer.Main.{Run, main, start, restarts}

module _ ⦃s : Server⦄ (p : Packages) where
  abbrev pub worked : Run → State → State
  worked r k =
      if succeeds (r.answers 0) && succeeds (r.answers 1)
      then (main_loop p r.polls (record k { counts = [] })).1
      else record k { counts = [] }

  -- Whatever the calls on the clients answer: a process works through its batches if both clients
  -- started, and not at all otherwise. When it has ended, no client is left open but these: the
  -- consumer, if it started and the producer did not, and the producer, if both started and the call
  -- to stop the consumer raised.
  pub consumer_closes :
      (r : Run) (k : State)
      → let l = (main p r (start p k)).1 in
        (l.state ≡ worked r k)
        × (is_open kafka_consumer l.calls
            ≡ (succeeds (r.answers 0) && not (succeeds (r.answers 1))))
        × (is_open kafka_producer l.calls
            ≡ (succeeds (r.answers 0) && (succeeds (r.answers 1) && not (succeeds (r.answers 2)))))
  unfolding main
  consumer_closes r k = ground arith

  module _ (P : Pred) (kept : IsKept P) where
    worked-keeps : (r : Run) (k : State) → P k.conn.db → P (worked r k).conn.db
    worked-keeps r k h = elim (Bool-cases (succeeds (r.answers 0) && succeeds (r.answers 1))) [
      | inl e ↦ rw e (main_loop-keeps p P kept r.polls (record k { counts = [] }) h)
      | inr e ↦ rw e h
    ]

    -- What the loop keeps holds over the restarts.
    restarts-keeps : (rs : List Run) (k : State) → P k.conn.db → P (restarts p rs k).conn.db
    unfolding restarts
    restarts-keeps [] k h = h
    restarts-keeps (r ∷ rs) k h =
        restarts-keeps rs (main p r (start p k)).1.state
          (subst (λ (l : State). P l.conn.db) (sym (consumer_closes r k).0) (worked-keeps r k h))

  -- Once an event is in the ledger, then after any further runs of the process, each with any batches
  -- and ended at any time, a redelivery of its message changes no business table and no ledger row,
  -- and publishes nothing; whatever the server, the packages, the broker and the calls on the clients
  -- do.
  pub redelivery_after_restarts :
      (e : Event) (i : String)
      → subscript e.event_id ≡ ok (some i)
      → (msg : Message) → p.loads msg.value ≡ some e
      → (rs : List Run) (k : State) → is_claimed i k.conn.db ≡ true
      → let k' = restarts p rs k in
        (unlogged (handle_message p msg k').1.conn.db ≡ unlogged k'.conn.db)
        × ((handle_message p msg k').1.published ≡ k'.published)
  unfolding main_loop
  redelivery_after_restarts e i q msg l rs k h =
      redelivery_no_op e i q p msg l [] (restarts p rs k)
        (restarts-keeps (λ db. is_claimed i db ≡ true) (claim-IsKept i) rs k h)
