-- ===== src/Receiver/Started.antt =====
-- The requests within the life of the application.
use observability_lab.Prelude.{
  ℕ, List, [], ◌∷◌, inl, inr, true, false, All, ◌≡◌, ◌≢◌, refl, arith, length, suc, ap,
  if◌then◌else◌,
}
use observability_lab.Clients.{kafka_producer, Exit, failed, Life, Exit-cases, is_open, succeeds}
use observability_lab.Receiver.Envelope.{Body}
use observability_lab.Receiver.Serve.{
  Response, not_ready, State, Packages, receive_webhook, serve, serve_all,
}
use observability_lab.Receiver.Lifespan.{App, lifespan}

abbrev pub begin : State → Life App
begin k = record { calls = []; state = record { state = k; responses = [] } }

-- A response that does not blame the producer, from a state that still has one.
abbrev IsReady : Response × State → Type 0
IsReady (r, k) = (r ≢ not_ready) × (k.ready ≡ true)

module _ (p : Packages) where
  serve-IsReady : (b : Body) (k : State) → k.ready ≡ true → IsReady (serve p b k)
  unfolding serve receive_webhook
  serve-IsReady b k h = ground (arith, h)

  serve_all-IsReady :
      (bs : List Body) (k : State)
      → k.ready ≡ true
      → All (λ r. r ≢ not_ready) (serve_all p bs k).0 × (length (serve_all p bs k).0 ≡ length bs)
  unfolding serve_all
  serve_all-IsReady [] k h = (tt, refl)
  serve_all-IsReady (b ∷ bs) k h =
      let (r, ready) = serve-IsReady b k h in
      let (rs, n) = serve_all-IsReady bs (serve p b k).1 ready in ((r, rs), ap suc n)

  -- Whatever the calls on the producer answer, and however the application's life ends, also by an
  -- exception: no request in it is refused because the producer is not ready. If the producer starts,
  -- each request gets one response; if not, none is served. In any case the producer is not left open.
  -- `lifespan` ends as the application's life does if the producer starts and stops, and else fails.
  pub lifespan-IsReady :
      (answers : ℕ → Exit) (ends : Exit) (bodies : List Body) (k : State)
      → let (x, l) = lifespan p answers ends bodies (begin k) in
        All (λ r. r ≢ not_ready) l.state.responses
        × (length l.state.responses ≡ (if succeeds (answers 0) then length bodies else 0))
        × (is_open kafka_producer l.calls ≡ false)
        × (x ≡ (
            if succeeds (answers 0)
            then (if succeeds (answers 1) then ends else failed)
            else failed))
  unfolding lifespan
  lifespan-IsReady answers ends bodies k =
      let (rs, n) = serve_all-IsReady bodies (record k { ready = true }) refl in
      elim (Exit-cases (answers 0)) [
        | inr e ↦ rw e (tt, refl, refl, refl)
        | inl e ↦ rw e (elim (Exit-cases (answers 1)) [
          | inl f ↦ rw f (rs, n, refl, refl)
          | inr f ↦ rw f (rs, n, refl, refl)
        ])
      ]
