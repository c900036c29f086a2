-- ===== src/Worker/Restarts.antt =====
-- What `main` leaves open, and what it does to the messages over its restarts.
use observability_lab.Prelude.{
  Bool, Bool-cases, inl, inr, not, ◌&&◌, false, sym, List, [], ◌∷◌, ◌≡◌, arith, if◌then◌else◌,
}
use mathlib.Core.Path.{subst}
use observability_lab.Clients.{kafka_consumer, kafka_producer, http_client, succeeds, is_open}
use observability_lab.Worker.Deliver.{State, World}
use observability_lab.Worker.Loop.{main_loop}
use observability_lab.Worker.Settled.{IsSafe, committed-IsSettled}
use observability_lab.Worker.Main.{Run, main, start, restarts}

-- All three clients have opened.
abbrev pub opened : Run → Bool
opened r = succeeds (r.answers 0) && (succeeds (r.answers 1) && succeeds (r.answers 2))

module _ {Json : Type 0} (w : World Json) where
  abbrev pub worked : Run → State Json → State Json
  worked r k = if opened r then (main_loop w r.messages (start w k).state).1 else (start w k).state

  -- Whatever the calls on the clients answer: a process works through its messages if all three
  -- clients opened, and not at all otherwise. When it has ended, no client is left open but these: the
  -- consumer, if it started and another client did not open, and the producer, if both started and
  -- the HTTP client did not open or the call to stop the consumer raised.
  pub worker_closes :
      (r : Run) (k : State Json)
      → let l = (main w r (start w k)).1 in
        (l.state ≡ worked r k)
        × (is_open kafka_consumer l.calls ≡ (succeeds (r.answers 0) && not (opened r)))
        × (is_open kafka_producer l.calls ≡ (
            succeeds (r.answers 0)
            && (succeeds (r.answers 1) && not (succeeds (r.answers 2) && succeeds (r.answers 3)))))
        × (is_open http_client l.calls ≡ false)
  unfolding main
  worker_closes r k = ground arith

  -- Over any runs of the process, each with any messages and ended at any time, every message behind
  -- the committed offsets is settled, if it was so before: the ERP accepted its payload, or it is in
  -- the dead-letter topic.
  pub restarts-IsSafe : (rs : List Run) (k : State Json) → IsSafe w k → IsSafe w (restarts w rs k)
  unfolding restarts
  restarts-IsSafe [] k h = h
  restarts-IsSafe (r ∷ rs) k h =
      restarts-IsSafe rs (main w r (start w k)).1.state
        (subst (λ (l : State Json). IsSafe w l) (sym (worker_closes r k).0) (worked-IsSafe r k h))
    where
      worked-IsSafe : (r : Run) (k : State Json) → IsSafe w k → IsSafe w (worked r k)
      worked-IsSafe r k h = elim (Bool-cases (opened r)) [
        | inl e ↦ rw e (committed-IsSettled w r.messages (start w k).state (h, h))
        | inr e ↦ rw e h
      ]
