-- ===== src/Erp/Serve.antt =====
-- `receive_order`, and the way of a POST to it and back.
use observability_lab.Prelude.{ℕ, String, Bool, true, false, List, [], ◌∷◌, length}
use observability_lab.Worker.Deliver.{Answer, unreachable, answered}

module _ (Json : Type 0) where
  pub record State : Type 0 where
    -- `received`, the newest first
    pub received : List Json
    -- `erp_orders_total`: the label of each increment, the newest first
    pub counts : List String

-- What becomes of a POST on its way.
pub data Link : Type 0 where
  through : Link
  -- it arrives, and its response does not
  reply_lost : Link
  lost : Link

-- The status code; the first argument is `random.random() < FAILURE_RATE`.
abbrev pub status : Bool → ℕ
status true = 503
status false = 200

abbrev pub answer_of : Link → Bool → Answer
answer_of through b = answered (status b)
answer_of reply_lost b = unreachable
answer_of lost b = unreachable

module _ {Json : Type 0} where
  unfoldable pub receive_order : Bool → Json → State Json → ℕ × State Json
  receive_order true payload k = (status true, record k { counts = "simulated_failure" ∷ k.counts })
  receive_order false payload k =
      (status false, record k { received = payload ∷ k.received; counts = "received" ∷ k.counts })

  abbrev pub arrive : Link → Bool → Json → State Json → State Json
  arrive through b payload k = (receive_order b payload k).1
  arrive reply_lost b payload k = (receive_order b payload k).1
  arrive lost b payload k = k

  -- The ERP after the worker's POSTs, the newest first: the n-th has the n-th link and the n-th draw.
  unfoldable pub after_requests : (ℕ → Link) → (ℕ → Bool) → List (Json × Answer) → State Json
  after_requests link draw [] = record { received = []; counts = [] }
  after_requests link draw ((payload, a) ∷ rs) =
      arrive (link (length rs)) (draw (length rs)) payload (after_requests link draw rs)
