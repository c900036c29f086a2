-- ===== src/Simulator/Order.antt =====
-- The order of the requests of one order.
use observability_lab.Prelude.{
  ℕ, zero, suc, arith, ◌≡◌, refl, sym, ap, ◌∙◌, Option, none, some, Bool, true, false, Bool-cases,
  inl, inr, List, [], ◌∷◌, eqb, ltb, if◌then◌else◌,
}
use mathlib.Core.Path.{subst}
use observability_lab.Simulator.Run.{
  Send, created, approved, payment, replay, Stage, waiting, sending, ended, State, stage_of,
  put_stage, in_flight, after_send, Move, acquire, answer, all_orders, start, acquired, answered,
  step, then_run, run,
}

stage_of-put_stage :
    (i : ℕ) (s t : Stage) (ss : List Stage)
    → stage_of i ss ≡ some s
    → stage_of i (put_stage i t ss) ≡ some t
stage_of-put_stage i s t [] h = ground (arith, h)
stage_of-put_stage zero s t (r ∷ ss) h = refl
stage_of-put_stage (suc i) s t (r ∷ ss) h = stage_of-put_stage i s t ss h

stage_of-put_stage_other :
    (j i : ℕ) (t : Stage) (ss : List Stage)
    → eqb j i ≡ false
    → stage_of j (put_stage i t ss) ≡ stage_of j ss
stage_of-put_stage_other j i t [] h = refl
stage_of-put_stage_other zero zero t (r ∷ ss) h = ground (arith, h)
stage_of-put_stage_other zero (suc i) t (r ∷ ss) h = refl
stage_of-put_stage_other (suc j) zero t (r ∷ ss) h = refl
stage_of-put_stage_other (suc j) (suc i) t (r ∷ ss) h =
    stage_of-put_stage_other j i t ss (ground (arith, h))

put_stage_same :
    (j i : ℕ) (r s t : Stage) (ss : List Stage)
    → stage_of i ss ≡ some r
    → eqb j i ≡ true
    → stage_of j (put_stage i t ss) ≡ some s
    → (j ≡ i) × (s ≡ t)
put_stage_same j i r s t ss e q h =
    let same : j ≡ i = ground (arith, q) in
    let here : stage_of j (put_stage i t ss) ≡ some t =
      subst (λ n. stage_of n (put_stage i t ss) ≡ some t) (sym same)
        (stage_of-put_stage i r t ss e) in
    (same, cc)

-- The requests of one order, the newest first.
abbrev pub requests_of : ℕ → List (ℕ × Send) → List Send
requests_of j [] = []
requests_of j ((i, x) ∷ rs) = if eqb j i then x ∷ requests_of j rs else requests_of j rs

-- Those that come before a send.
abbrev before : Send → List Send
before created = []
before approved = created ∷ []
before payment = approved ∷ created ∷ []
before replay = payment ∷ approved ∷ created ∷ []

-- Those that a coroutine has made, where it is.
abbrev pub history : Stage → List Send
history (waiting x) = before x
history (sending x) = x ∷ before x
history (ended false) = payment ∷ approved ∷ created ∷ []
history (ended true) = replay ∷ payment ∷ approved ∷ created ∷ []

history-after_send : (x : Send) (b : Bool) → history (after_send x b) ≡ x ∷ before x
history-after_send created b = refl
history-after_send approved b = refl
history-after_send payment true = refl
history-after_send payment false = refl
history-after_send replay b = refl

-- Every order's requests are those that its coroutine has come past.
abbrev IsCausal : State → Type 0
IsCausal k =
    (j : ℕ) (s : Stage) → stage_of j k.orders ≡ some s → requests_of j k.requests ≡ history s

abbrev Causal : Option State → Type 0
Causal none = Unit
Causal (some k) = IsCausal k

module _ (concurrency : ℕ) where
  acquired-Causal :
      (i : ℕ) (s : Option Stage) (k : State)
      → stage_of i k.orders ≡ s
      → IsCausal k
      → Causal (acquired concurrency i s k)
  acquired-Causal i none k e c = tt
  acquired-Causal i (some (waiting x)) k e c =
      elim (Bool-cases (ltb (in_flight k.orders) concurrency)) [
        | inr q ↦ rw q tt
        | inl q ↦ rw q (sent (c i (waiting x) e))
      ]
    where
      sent :
          requests_of i k.requests ≡ before x
          → IsCausal (record k {
            orders = put_stage i (sending x) k.orders;
            requests = (i, x) ∷ k.requests;
          })
      sent own j s h = elim (Bool-cases (eqb j i)) [
        | inl t ↦
            let (same, stage) = put_stage_same j i (waiting x) s (sending x) k.orders e t h in
            rw t (
              ap (λ l. x ∷ l) (ap (λ n. requests_of n k.requests) same ∙ own)
              ∙ ap history (sym stage))
        | inr f ↦ rw f (c j s (sym (stage_of-put_stage_other j i (sending x) k.orders f) ∙ h))
      ]
  acquired-Causal i (some (sending x)) k e c = tt
  acquired-Causal i (some (ended b)) k e c = tt

  answered-Causal :
      (i status : ℕ) (b : Bool) (s : Option Stage) (k : State)
      → stage_of i k.orders ≡ s
      → IsCausal k
      → Causal (answered concurrency i status b s k)
  answered-Causal i status b none k e c = tt
  answered-Causal i status b (some (waiting x)) k e c = tt
  answered-Causal i status b (some (sending x)) k e c = returned (c i (sending x) e)
    where
      returned :
          requests_of i k.requests ≡ x ∷ before x
          → IsCausal (record k {
            orders = put_stage i (after_send x b) k.orders;
            results = status ∷ k.results;
          })
      returned own j s h = elim (Bool-cases (eqb j i)) [
        | inl t ↦
            let (same, stage) = put_stage_same j i (sending x) s (after_send x b) k.orders e t h in
            ap (λ n. requests_of n k.requests) same
            ∙ (own ∙ (sym (history-after_send x b) ∙ ap history (sym stage)))
        | inr f ↦ c j s (sym (stage_of-put_stage_other j i (after_send x b) k.orders f) ∙ h)
      ]
  answered-Causal i status b (some (ended a)) k e c = tt

  step-Causal : (m : Move) (k : State) → IsCausal k → Causal (step concurrency m k)
  step-Causal (acquire i) k c = acquired-Causal i (stage_of i k.orders) k refl c
  step-Causal (answer i status b) k c = answered-Causal i status b (stage_of i k.orders) k refl c

  run-Causal : (ms : List Move) (k : State) → IsCausal k → Causal (run concurrency ms k)
  unfolding run
  run-Causal [] k c = c
  run-Causal (m ∷ ms) k c =
      then-Causal (step concurrency m k) (step-Causal m k c) (λ l. run-Causal ms l)
    where
      then-Causal :
          (o : Option State)
          → Causal o
          → ((l : State) → IsCausal l → Causal (run concurrency ms l))
          → Causal (then_run concurrency (run concurrency ms) o)
      then-Causal none d f = tt
      then-Causal (some l) d f = f l d

start-IsCausal :
    (orders j : ℕ) (s : Stage) → stage_of j (all_orders orders) ≡ some s → [] ≡ history s
start-IsCausal zero j s h = ground (arith, h)
start-IsCausal (suc n) zero s h = let first : waiting created ≡ s = cc in ap history first
start-IsCausal (suc n) (suc j) s h = start-IsCausal n j s h

-- However the coroutines of the orders take turns: the requests made for an order are, in this order,
-- those that its own coroutine has come past: first its creation, then its approval, then its payment,
-- then, if at all, the creation again. None is skipped, and none made twice.
pub run-in_order :
    (concurrency orders : ℕ) (ms : List Move) (k : State) (seq : ℕ) (s : Stage)
    → run concurrency ms (start orders) ≡ some k
    → stage_of seq k.orders ≡ some s
    → requests_of seq k.requests ≡ history s
run-in_order concurrency orders ms k seq s e h =
    subst Causal e
      (run-Causal concurrency ms (start orders) (λ j s' h'. start-IsCausal orders j s' h')) seq s h
