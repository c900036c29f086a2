-- ===== src/Worker/Samples.antt =====
-- Test data of the worker: an ERP that cannot be reached at first and that refuses one order.
use observability_lab.Prelude.{
  ℕ, zero, suc, String, ◌==◌, ◌≡◌, ◌≢◌, arith, refl, none, some, Bool, true, false, not, ◌&&◌, List,
  [], ◌∷◌, ltb, leb, if◌then◌else◌,
}
use observability_lab.Broker.{acked}
use observability_lab.Worker.Deliver.{
  Answer, unreachable, garbled, answered, Exception, Message, State, Outcome, World, again,
}
use observability_lab.Worker.Loop.{main_loop}
use observability_lab.Clients.{
  kafka_consumer, kafka_producer, http_client, finished, failed, succeeds, is_open,
}
use observability_lab.Worker.Settled.{IsSafe}
use observability_lab.Worker.Main
use observability_lab.Worker.Main.{Run, main, restarts}
use observability_lab.Worker.Restarts.{opened, worked, worker_closes, restarts-IsSafe}
use observability_lab.Worker.Progress.{IsThrough, main_loop-IsThrough}

unfoldable pub retry_loop :
    (Exception → Bool) → ℕ → (State String → Outcome String) → State String → Outcome String
retry_loop test zero m k = m k
retry_loop test (suc zero) m k = m k
retry_loop test (suc (suc n)) m k = again String test (retry_loop test (suc n) m) (m k)

pub retry_loop-once :
    (test : Exception → Bool) (m : State String → Outcome String) (k : State String)
    → retry_loop test 1 m k ≡ m k
unfolding retry_loop
retry_loop-once test m k = refl

pub retry_loop-again :
    (test : Exception → Bool) (n : ℕ) (m : State String → Outcome String) (k : State String)
    → retry_loop test (suc (suc n)) m k ≡ again String test (retry_loop test (suc n) m) (m k)
unfolding retry_loop
retry_loop-again test n m k = refl

abbrev answers : ℕ → String → Answer
answers n payload =
    if ltb n 2 then unreachable else if payload == "refused" then answered 422 else answered 200

pub answers_clear : (n : ℕ) (payload : String) → answers n payload ≢ garbled
answers_clear n payload h = ground arith

abbrev pub world : World String
world = record {
  loads = λ v. if v == "garbled" then none else some v;
  post = answers;
  is_error = λ c. leb 400 c;
  send = λ n. acked;
  commit = λ n. true;
  retry = retry_loop;
  retry_once = retry_loop-once;
  retry_again = retry_loop-again;
}

abbrev pub start : State String
start = record {
  requests = [];
  dead_letters = [];
  sends = 0;
  consumed = [];
  committed = [];
  commits = 0;
  counts = [];
}

abbrev approval : String → Message
approval v = record { key = some v; value = v }

abbrev pub messages : List Message
messages = approval "order" ∷ approval "refused" ∷ []

abbrev first_run : Run
first_run = record {
  answers = λ n. if ltb n 3 then finished else failed;
  messages = messages;
  last = failed;
}

-- Two starts of the process: in the first the stop of the consumer fails, in the second the producer
-- does not start.
abbrev runs : List Run
runs =
    first_run
    ∷ record {
      answers = λ n. if ltb n 1 then finished else failed;
      messages = messages;
      last = finished;
    }
    ∷ []

restarts-IsSafe_example : IsSafe world (restarts world runs start)
restarts-IsSafe_example = restarts-IsSafe world runs start tt

worker_closes_example :
    let l = (main world first_run (Main.start world start)).1 in
    (l.state ≡ worked world first_run start)
    × (is_open kafka_consumer l.calls ≡ (succeeds (first_run.answers 0) && not (opened first_run)))
    × (is_open kafka_producer l.calls ≡ (
        succeeds (first_run.answers 0)
        && (succeeds (first_run.answers 1)
            && not (succeeds (first_run.answers 2) && succeeds (first_run.answers 3)))))
    × (is_open http_client l.calls ≡ false)
worker_closes_example = worker_closes world first_run start

main_loop-IsThrough_example :
    IsThrough world (approval "refused" ∷ approval "order" ∷ []) (main_loop world messages start)
main_loop-IsThrough_example =
    main_loop-IsThrough world messages start answers_clear (λ t. refl) (λ t. refl)
      (("order", refl), (("refused", refl), tt)) refl
