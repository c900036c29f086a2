-- ===== src/Erp/Samples.antt =====
-- Test data: a network that loses the first request and the second response, and an ERP that fails once.
use observability_lab.Prelude.{ℕ, String, ◌≡◌, refl, Bool, All, eqb, if◌then◌else◌, [], ◌∷◌}
use observability_lab.Worker.Deliver.{World}
use observability_lab.Worker.Loop.{handle_message, main_loop}
use observability_lab.Worker.Deliver.{deliver}
use observability_lab.Worker.Samples
use observability_lab.Erp.Serve.{
  Link, through, reply_lost, lost, answer_of, receive_order, after_requests,
}
use observability_lab.Erp.Received.{IsReceived, committed-IsReceived}

abbrev link : ℕ → Link
link n = if eqb n 0 then lost else if eqb n 1 then reply_lost else through

abbrev draw : ℕ → Bool
draw n = eqb n 2

abbrev world : World String
world = record Samples.world { post = λ n payload. answer_of (link n) (draw n) }

committed-IsReceived_example :
    All
      (IsReceived world link draw
        (λ n payload. refl)
        (main_loop world Samples.messages Samples.start).1)
      (main_loop world Samples.messages Samples.start).1.committed
committed-IsReceived_example =
    committed-IsReceived world link draw (λ n payload. refl) Samples.messages Samples.start refl
      (tt, tt)

-- The first order reaches the ERP twice: its response was lost the first time.
received_twice :
    (after_requests link draw (main_loop world Samples.messages Samples.start).1.requests).received
    ≡ "refused" ∷ "order" ∷ "order" ∷ []
unfolding after_requests receive_order main_loop handle_message deliver Samples.retry_loop
received_twice = refl
