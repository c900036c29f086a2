-- ===== src/Simulator/Samples.antt =====
-- Test data of the simulator: two orders, a semaphore for one request, and one duplicate.
use observability_lab.Prelude.{
  ℕ, String, ◌≡◌, refl, arith, some, true, false, List, [], ◌∷◌, length, ◌≤◌, ◌+◌, ◌⊎◌,
}
use observability_lab.BulkLoad.Text.{digits, decimal, pad}
use observability_lab.Receiver.Envelope.{validate, get, text}
use observability_lab.Receiver.Serve.{accepted, serve}
use observability_lab.Receiver.Samples
use observability_lab.Simulator.Run.{
  created, approved, payment, replay, ended, State, in_flight, Move, acquire, answer, start, run,
  duplicates_sent,
}
use observability_lab.Simulator.Events.{order_id, Source, request, body_of}
use observability_lab.Simulator.Counts.{AllEnded}
use observability_lab.Simulator.Report.{Sample, is_success, ok_count, tally}
use observability_lab.Simulator.Percentiles.{IsRanked}
use observability_lab.Simulator.Totals.{run_reported}
use observability_lab.Simulator.Ends.{CanMove, run_ends}
use observability_lab.Simulator.Order.{requests_of, run-in_order}
use observability_lab.Simulator.Keys.{envelope, request_published}

abbrev moves : List Move
moves =
    acquire 1
    ∷ answer 1 202 false
    ∷ acquire 0
    ∷ answer 0 202 false
    ∷ acquire 0
    ∷ answer 0 503 false
    ∷ acquire 1
    ∷ answer 1 202 false
    ∷ acquire 1
    ∷ answer 1 202 false
    ∷ acquire 0
    ∷ answer 0 0 true
    ∷ acquire 0
    ∷ answer 0 202 false
    ∷ []

abbrev finish : State
finish = record {
  orders = ended true ∷ ended false ∷ [];
  requests =
      (0, replay)
      ∷ (0, payment)
      ∷ (1, payment)
      ∷ (1, approved)
      ∷ (0, approved)
      ∷ (0, created)
      ∷ (1, created)
      ∷ [];
  results = 202 ∷ 0 ∷ 202 ∷ 202 ∷ 503 ∷ 202 ∷ 202 ∷ [];
}

moves-run : run 1 moves (start 2) ≡ some finish
unfolding run
moves-run = refl

abbrev samples : List Sample
samples = (202, 9) ∷ (0, 40) ∷ (202, 7) ∷ (202, 8) ∷ (503, 3) ∷ (202, 5) ∷ (202, 6) ∷ []

run_reported_example :
    (length samples ≡ 6 + duplicates_sent finish.orders)
    × (ok_count samples ≡ tally is_success finish.results)
    × ((v w : ℕ) × IsRanked samples v w)
run_reported_example = run_reported 1 2 moves finish samples (omega arith) moves-run tt refl

run_ends_example :
    (AllEnded finish.orders ⊎ CanMove 1 finish)
    × (length moves ≤ 16)
    × (in_flight finish.orders ≤ 1)
    × (7 + in_flight finish.orders ≡ 7)
run_ends_example = run_ends 1 2 moves finish (omega arith) moves-run

run-in_order_example : requests_of 0 finish.requests ≡ replay ∷ payment ∷ approved ∷ created ∷ []
run-in_order_example = run-in_order 1 2 moves finish 0 (ended true) moves-run refl

abbrev source : Source
source = record {
  uuid = λ seq x. "evt-1";
  time = λ seq x. 0;
  occurred_at = λ seq x. "2026-01-01T00:00:00Z";
}

request_published_example :
    (validate (body_of (request source 7 payment)) ≡ some (envelope source 7 payment))
    × (get "external_order_id" (envelope source 7 payment).data_fields ≡ text (order_id 7))
    × ((serve Samples.packages (body_of (request source 7 payment)) Samples.start).0
        ≡ accepted "evt-1")
    × ((value : String) × (Samples.packages.dumps
            (envelope source 7 payment)
            (Samples.packages.time 0)
          ≡ some value)
        × ((serve Samples.packages (body_of (request source 7 payment)) Samples.start).1.topic
            ≡ (order_id 7, value) ∷ []))
request_published_example =
    request_published source 7 payment Samples.packages Samples.start refl refl (λ e n. (_, refl))
      refl

order_id_7 : order_id 7 ≡ "ORD-00000007"
unfolding order_id pad decimal digits
order_id_7 = refl
