-- ===== src/Receiver/Samples.antt =====
-- Test data of the receiver, and the theorems at concrete inputs.
use Prim.Native.String.{◌++◌}
use observability_lab.Prelude.{
  String, ◌≡◌, refl, some, true, false, ◌≢◌, All, length, List, [], ◌∷◌,
}
use observability_lab.Broker.{acked}
use observability_lab.Receiver.Envelope.{
  Value, text, other, Body, WebhookEnvelope, validate, partition_key,
}
use observability_lab.Receiver.Serve.{
  accepted, unprocessable, not_ready, broker_unavailable, State, Packages, receive_webhook, serve,
  serve_all,
}
use observability_lab.Clients.{kafka_producer, finished, failed, is_open}
use observability_lab.Receiver.Lifespan.{lifespan}
use observability_lab.Receiver.Started.{begin, lifespan-IsReady}
use observability_lab.Receiver.Accounts.{IsAccounted, serve_all-IsAccounted}
use observability_lab.Receiver.Keys.{IsPublished, accepted-IsPublished}

abbrev pub packages : Packages
packages = record { time = λ n. n; dumps = λ e n. some ("event " ++ e.event_id); send = λ n. acked }

abbrev pub start : State
start = record { ready = true; topic = []; sends = 0; readings = 0; received = []; failures = 0 }

abbrev envelope : String → Value → WebhookEnvelope
envelope id order = record {
  event_id = id;
  event_type = "ORDER_CREATED";
  occurred_at = "2026-01-01T00:00:00Z";
  data_fields = ("external_order_id", order) ∷ ("external_client_id", text "CLI-1") ∷ [];
}

abbrev body : String → Value → Body
body id order = record {
  event_id = some (text id);
  event_type = some (text "ORDER_CREATED");
  occurred_at = some (text "2026-01-01T00:00:00Z");
  data_fields = some (envelope id order).data_fields;
}

-- A valid request, one without an id, and one whose order id is a number.
abbrev bodies : List Body
bodies = body "evt-1" (text "ORD-1") ∷ body "" (text "ORD-1") ∷ body "evt-2" (other true) ∷ []

responses :
    (serve_all packages bodies start).0 ≡ accepted "evt-1" ∷ unprocessable ∷ broker_unavailable ∷ []
unfolding serve_all serve receive_webhook validate partition_key
responses = refl

serve_all-IsAccounted_example : IsAccounted 1 1 start (serve_all packages bodies start).1
unfolding serve_all serve receive_webhook validate partition_key
serve_all-IsAccounted_example = serve_all-IsAccounted packages bodies start

accepted-IsPublished_example :
    IsPublished packages
      (body "evt-1" (text "ORD-1"))
      "evt-1"
      start
      (serve packages (body "evt-1" (text "ORD-1")) start).1
unfolding serve receive_webhook validate partition_key
accepted-IsPublished_example =
    accepted-IsPublished packages (body "evt-1" (text "ORD-1")) start "evt-1" refl

lifespan-IsReady_example :
    let (x, l) = lifespan packages (λ n. finished) failed bodies (begin start) in
    All (λ r. r ≢ not_ready) l.state.responses
    × (length l.state.responses ≡ length bodies)
    × (is_open kafka_producer l.calls ≡ false)
    × (x ≡ failed)
lifespan-IsReady_example = lifespan-IsReady packages (λ n. finished) failed bodies start
