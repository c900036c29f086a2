-- ===== src/Receiver/Lifespan.antt =====
-- `lifespan`: the producer around the requests.
use observability_lab.Prelude.{ℕ, List, true}
use observability_lab.Clients.{
  kafka_producer, opening, closing, Exit, Life, call, then_next, then_finally,
}
use observability_lab.Receiver.Envelope.{Body}
use observability_lab.Receiver.Serve.{Response, State, Packages, serve_all}

-- The application: its state, and the responses that it gave.
pub record App : Type 0 where
  pub state : State
  pub responses : List Response

module _ (p : Packages) where
  -- `yield`: the requests of the application's life, and how it ends; an exception may come out of it.
  abbrev pub yielded : Exit → List Body → Life App → Exit × Life App
  yielded ends bodies l =
      let (rs, k) = serve_all p bodies l.state.state in
      (ends, record l { state = record { state = k; responses = rs } })

  -- `producer = AIOKafkaProducer(…)`
  abbrev pub with_producer : Life App → Life App
  with_producer l = record l {
    state = record l.state { state = record l.state.state { ready = true } };
  }

  unfoldable pub lifespan : (ℕ → Exit) → Exit → List Body → Life App → Exit × Life App
  lifespan answers ends bodies l =
      then_next (call answers (opening kafka_producer) (with_producer l))
        λ l1. then_finally (yielded ends bodies l1) (call answers (closing kafka_producer))
