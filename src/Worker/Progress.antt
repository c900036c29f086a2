-- ===== src/Worker/Progress.antt =====
-- The attempts of a delivery, and the loop with a broker that answers.
use observability_lab.Prelude.{
  ℕ, zero, suc, arith, ◌≡◌, ◌≢◌, refl, some, true, List, [], ◌∷◌, length, All, if◌then◌else◌,
}
use mathlib.Core.Path.{subst}
use observability_lab.Broker.{acked}
use observability_lab.Worker.Deliver.{
  Answer, unreachable, garbled, answered, transient_delivery_error, http_status_error,
  other_exception, Ended, returned, raised, Message, State, Outcome, World, again, is_transient,
  judge, attempt, deliver,
}
use observability_lab.Worker.Loop.{commit, sent, conclude, handle_message, next, main_loop}
use observability_lab.Worker.Settled.{deliver-Delivers}

module _ {Json : Type 0} (w : World Json) where
  -- The outcome of the first of the answers that is no transient failure, or else of the last.
  abbrev or_later : Ended → Ended → Ended
  or_later returned later = returned
  or_later (raised e) later = if is_transient e then later else raised e

  -- `suc n` answers, from the POST number `t` on
  abbrev pub verdict : ℕ → ℕ → Json → Ended
  verdict zero t payload = judge w (w.post t payload)
  verdict (suc n) t payload = or_later (judge w (w.post t payload)) (verdict n (suc t) payload)

  again-verdict :
      (rest : State Json → Outcome Json) (later : Ended) (e : Ended) (k : State Json)
      → (rest k).0 ≡ later
      → (again Json is_transient rest (e, k)).0 ≡ or_later e later
  again-verdict rest later returned k h = refl
  again-verdict rest later (raised e) k h = ground (arith, h)

  retry-verdict :
      (n : ℕ) (payload : Json) (k : State Json)
      → (w.retry is_transient (suc n) (attempt w payload) k).0
        ≡ verdict n (length k.requests) payload
  retry-verdict zero payload k = rw (w.retry_once is_transient (attempt w payload) k) refl
  retry-verdict (suc n) payload k = rw (w.retry_again is_transient n (attempt w payload) k) (
      again-verdict (w.retry is_transient (suc n) (attempt w payload))
        (verdict n (suc (length k.requests)) payload) (judge w (w.post (length k.requests) payload))
        (attempt w payload k).1 (retry-verdict n payload (attempt w payload k).1))

  deliver-verdict :
      (payload : Json) (k : State Json)
      → (deliver w payload k).0 ≡ verdict 4 (length k.requests) payload
  unfolding deliver
  deliver-verdict payload k = retry-verdict 4 payload k

  -- What `main` catches, or what returned.
  abbrev IsCaught : Ended → Type 0
  IsCaught returned = Unit
  IsCaught (raised transient_delivery_error) = Unit
  IsCaught (raised http_status_error) = Unit
  IsCaught (raised other_exception) = ⊥

  judge-IsCaught : (a : Answer) → a ≢ garbled → IsCaught (judge w a)
  judge-IsCaught unreachable h = tt
  judge-IsCaught garbled h = h refl
  judge-IsCaught (answered c) h = ground arith

  or_later-IsCaught : (e l : Ended) → IsCaught e → IsCaught l → IsCaught (or_later e l)
  or_later-IsCaught returned l h i = tt
  or_later-IsCaught (raised transient_delivery_error) l h i = i
  or_later-IsCaught (raised http_status_error) l h i = tt
  or_later-IsCaught (raised other_exception) l h i = h

  verdict-IsCaught :
      ((t : ℕ) (payload : Json) → w.post t payload ≢ garbled)
      → (n t : ℕ) (payload : Json) → IsCaught (verdict n t payload)
  verdict-IsCaught h zero t payload = judge-IsCaught (w.post t payload) (h t payload)
  verdict-IsCaught h (suc n) t payload =
      or_later-IsCaught (judge w (w.post t payload)) (verdict n (suc t) payload)
        (judge-IsCaught (w.post t payload) (h t payload)) (verdict-IsCaught h n (suc t) payload)

  -- It returned, and what was handed out is committed.
  abbrev pub IsThrough : List Message → Outcome Json → Type 0
  IsThrough xs o = (o.0 ≡ returned) × (o.1.consumed ≡ xs) × (o.1.committed ≡ xs)

  -- What the consumer has handed out after these messages, the newest first.
  abbrev pub handed_out : List Message → List Message → List Message
  handed_out [] xs = xs
  handed_out (m ∷ ms) xs = handed_out ms (m ∷ xs)

  abbrev pub IsReadable : Message → Type 0
  IsReadable m = (payload : Json) × (w.loads m.value ≡ some payload)

  -- A broker that answers every call.
  record Answers : Type 0 where
    posts : (t : ℕ) (payload : Json) → w.post t payload ≢ garbled
    sends : (t : ℕ) → w.send t ≡ acked
    commits : (t : ℕ) → w.commit t ≡ true

  module _ (a : Answers) where
    commit-IsThrough :
        (xs : List Message) (k : State Json) → k.consumed ≡ xs → IsThrough xs (commit w k)
    commit-IsThrough xs k h = rw (a.commits k.commits) (refl, h, h)

    sent-IsThrough :
        (xs : List Message) (m : Message) (k : State Json)
        → k.consumed ≡ xs
        → IsThrough xs (sent w (w.send k.sends) m (record k { sends = suc k.sends }))
    sent-IsThrough xs m k h = rw (a.sends k.sends) (commit-IsThrough xs _ h)

    conclude-IsThrough :
        (xs : List Message) (m : Message) (o : Outcome Json)
        → IsCaught o.0
        → o.1.consumed ≡ xs
        → IsThrough xs (conclude w m o)
    conclude-IsThrough xs m (returned, k) c h = commit-IsThrough xs _ h
    conclude-IsThrough xs m (raised transient_delivery_error, k) c h = sent-IsThrough xs m k h
    conclude-IsThrough xs m (raised http_status_error, k) c h = sent-IsThrough xs m k h
    conclude-IsThrough xs m (raised other_exception, k) c h = ground arith

    handle-IsThrough :
        (m : Message) (k : State Json)
        → IsReadable m
        → IsThrough (m ∷ k.consumed) (handle_message w m k)
    unfolding handle_message
    handle-IsThrough m k (payload, e) =
        let l : State Json = record k { consumed = m ∷ k.consumed } in
        rw e (
          conclude-IsThrough (m ∷ k.consumed) m (deliver w payload l)
            (rw (deliver-verdict payload l)
              (verdict-IsCaught a.posts 4 (length k.requests) payload))
            (deliver-Delivers w payload l).consumed)

    next-IsThrough :
        (xs ys : List Message) (rest : State Json → Outcome Json) (o : Outcome Json)
        → IsThrough xs o
        → ((k : State Json) → k.consumed ≡ xs → k.committed ≡ xs → IsThrough ys (rest k))
        → IsThrough ys (next w rest o)
    next-IsThrough xs ys rest (returned, k) h r = r k h.1 h.2
    next-IsThrough xs ys rest (raised e, k) h r = ground (arith, h.0)

    through :
        (ms xs : List Message) (k : State Json)
        → All IsReadable ms
        → k.consumed ≡ xs
        → k.committed ≡ xs
        → IsThrough (handed_out ms xs) (main_loop w ms k)
    unfolding main_loop
    through [] xs k r e c = (refl, e, c)
    through (m ∷ ms) xs k r e c =
        next-IsThrough (m ∷ xs) (handed_out ms (m ∷ xs)) (main_loop w ms) (handle_message w m k)
          (subst (λ l. IsThrough (m ∷ l) (handle_message w m k)) e (handle-IsThrough m k r.0))
          λ k'. through ms (m ∷ xs) k' r.1

  -- Whatever status codes the ERP answers and however often it cannot be reached: if everything handed
  -- out before is committed, as it is whenever the process starts, the messages are readable, no POST
  -- fails in another way, and the broker answers every call, then the loop gets through all the
  -- messages and their offsets are committed.
  pub main_loop-IsThrough :
      (ms : List Message) (k : State Json)
      → ((t : ℕ) (payload : Json) → w.post t payload ≢ garbled)
      → ((t : ℕ) → w.send t ≡ acked)
      → ((t : ℕ) → w.commit t ≡ true)
      → All IsReadable ms
      → k.committed ≡ k.consumed
      → IsThrough (handed_out ms k.consumed) (main_loop w ms k)
  main_loop-IsThrough ms k posts sends commits r e =
      through (record { posts = posts; sends = sends; commits = commits }) ms k.consumed k r refl e
