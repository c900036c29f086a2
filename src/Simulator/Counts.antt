-- ===== src/Simulator/Counts.antt =====
-- How many requests a run of the simulator makes, at once and in all.
use observability_lab.Prelude.{
  ℕ, zero, suc, arith, ◌≡◌, refl, Option, none, some, Bool, true, false, Bool-cases, inl, inr, List,
  [], ◌∷◌, length, ltb, ◌+◌, ◌*◌, ◌≤◌,
}
use mathlib.Core.Path.{subst}
use observability_lab.Simulator.Run.{
  Send, created, approved, payment, replay, Stage, waiting, sending, ended, State, stage_of,
  put_stage, total, is_sending, in_flight, after_send, Move, acquire, answer, all_orders, start,
  acquired, answered, step, then_run, run, duplicates_sent,
}

total-put_stage :
    (f : Stage → ℕ) (i : ℕ) (s t : Stage) (ss : List Stage)
    → stage_of i ss ≡ some s
    → total f (put_stage i t ss) + f s ≡ total f ss + f t
total-put_stage f i s t [] h = ground (arith, h)
total-put_stage f zero s t (r ∷ ss) h = let same : r ≡ s = cc in rw same (omega arith)
total-put_stage f (suc i) s t (r ∷ ss) h = omega (arith, total-put_stage f i s t ss h)

-- The requests that a coroutine has made before this send.
abbrev earlier : Send → ℕ
earlier created = 0
earlier approved = 1
earlier payment = 2
earlier replay = 3

abbrev made : Stage → ℕ
made (waiting x) = earlier x
made (sending x) = suc (earlier x)
made (ended false) = 3
made (ended true) = 4

abbrev one : Stage → ℕ
one s = 1

made-after_send : (x : Send) (b : Bool) → made (after_send x b) ≡ suc (earlier x)
made-after_send created b = refl
made-after_send approved b = refl
made-after_send payment true = refl
made-after_send payment false = refl
made-after_send replay b = refl

is_sending-after_send : (x : Send) (b : Bool) → is_sending (after_send x b) ≡ 0
is_sending-after_send created b = refl
is_sending-after_send approved b = refl
is_sending-after_send payment true = refl
is_sending-after_send payment false = refl
is_sending-after_send replay b = refl

module _ (concurrency n : ℕ) where
  pub record IsCounted (k : State) : Type 0 where
    pub requests : total made k.orders ≡ length k.requests
    pub results : length k.results + in_flight k.orders ≡ length k.requests
    pub bounded : in_flight k.orders ≤ concurrency
    pub orders : total one k.orders ≡ n

  abbrev Counts : Option State → Type 0
  Counts none = Unit
  Counts (some k) = IsCounted k

  acquired-Counts :
      (i : ℕ) (s : Option Stage) (k : State)
      → stage_of i k.orders ≡ s
      → IsCounted k
      → Counts (acquired concurrency i s k)
  acquired-Counts i none k e c = tt
  acquired-Counts i (some (waiting x)) k e c =
      let m = total-put_stage made i (waiting x) (sending x) k.orders e in
      let f = total-put_stage is_sending i (waiting x) (sending x) k.orders e in
      let o = total-put_stage one i (waiting x) (sending x) k.orders e in
      elim (Bool-cases (ltb (in_flight k.orders) concurrency)) [
        | inr q ↦ rw q tt
        | inl q ↦ rw q (record {
          requests = omega (arith, m, c.requests);
          results = omega (arith, f, c.results);
          bounded = ground (arith, f, q);
          orders = omega (arith, o, c.orders);
        })
      ]
  acquired-Counts i (some (sending x)) k e c = tt
  acquired-Counts i (some (ended b)) k e c = tt

  answered-Counts :
      (i status : ℕ) (b : Bool) (s : Option Stage) (k : State)
      → stage_of i k.orders ≡ s
      → IsCounted k
      → Counts (answered concurrency i status b s k)
  answered-Counts i status b none k e c = tt
  answered-Counts i status b (some (waiting x)) k e c = tt
  answered-Counts i status b (some (sending x)) k e c =
      let m = total-put_stage made i (sending x) (after_send x b) k.orders e in
      let f = total-put_stage is_sending i (sending x) (after_send x b) k.orders e in
      let o = total-put_stage one i (sending x) (after_send x b) k.orders e in
      record {
        requests = omega (arith, m, made-after_send x b, c.requests);
        results = omega (arith, f, is_sending-after_send x b, c.results);
        bounded = omega (arith, f, is_sending-after_send x b, c.bounded);
        orders = omega (arith, o, c.orders);
      }
  answered-Counts i status b (some (ended c)) k e d = tt

  step-Counts : (m : Move) (k : State) → IsCounted k → Counts (step concurrency m k)
  step-Counts (acquire i) k c = acquired-Counts i (stage_of i k.orders) k refl c
  step-Counts (answer i status b) k c = answered-Counts i status b (stage_of i k.orders) k refl c

  run-Counts : (ms : List Move) (k : State) → IsCounted k → Counts (run concurrency ms k)
  unfolding run
  run-Counts [] k c = c
  run-Counts (m ∷ ms) k c =
      then-Counts (step concurrency m k) (step-Counts m k c) (λ l. run-Counts ms l)
    where
      then-Counts :
          (o : Option State)
          → Counts o
          → ((l : State) → IsCounted l → Counts (run concurrency ms l))
          → Counts (then_run concurrency (run concurrency ms) o)
      then-Counts none d f = tt
      then-Counts (some l) d f = f l d

start_counted :
    (n : ℕ)
    → (total made (all_orders n) ≡ 0)
      × (in_flight (all_orders n) ≡ 0)
      × (total one (all_orders n) ≡ n)
start_counted zero = (refl, refl, refl)
start_counted (suc n) =
    let (a, b, c) = start_counted n in (omega (arith, a), omega (arith, b), omega (arith, c))

-- Every coroutine has returned.
abbrev pub AllEnded : List Stage → Type 0
AllEnded [] = Unit
AllEnded (waiting x ∷ ss) = ⊥
AllEnded (sending x ∷ ss) = ⊥
AllEnded (ended b ∷ ss) = AllEnded ss

ended_made :
    (ss : List Stage)
    → AllEnded ss
    → (total made ss ≡ 3 * total one ss + duplicates_sent ss) × (in_flight ss ≡ 0)
ended_made [] h = (refl, refl)
ended_made (waiting x ∷ ss) h = absurd h
ended_made (sending x ∷ ss) h = absurd h
ended_made (ended true ∷ ss) h =
    let (a, b) = ended_made ss h in (omega (arith, a), omega (arith, b))
ended_made (ended false ∷ ss) h =
    let (a, b) = ended_made ss h in (omega (arith, a), omega (arith, b))

pub run-IsCounted :
    (concurrency orders : ℕ) (ms : List Move) (k : State)
    → run concurrency ms (start orders) ≡ some k
    → IsCounted concurrency orders k
run-IsCounted concurrency orders ms k e =
    let (a, b, c) = start_counted orders in
    subst (λ o. Counts concurrency orders o) e
      (run-Counts concurrency orders ms (start orders) (record {
        requests = a;
        results = omega (arith, b);
        bounded = omega (arith, b);
        orders = c;
      }))

-- When all coroutines have returned, there are three results for each order and one more for each
-- duplicate.
pub run_totals :
    (concurrency orders : ℕ) (ms : List Move) (k : State)
    → run concurrency ms (start orders) ≡ some k
    → AllEnded k.orders
    → length k.results ≡ 3 * orders + duplicates_sent k.orders
run_totals concurrency orders ms k e h =
    let c = run-IsCounted concurrency orders ms k e in
    let (a, b) = ended_made k.orders h in omega (arith, a, b, c.requests, c.results, c.orders)

made-le : (s : Stage) → made s ≤ 4
made-le (waiting created) = omega arith
made-le (waiting approved) = omega arith
made-le (waiting payment) = omega arith
made-le (waiting replay) = omega arith
made-le (sending created) = omega arith
made-le (sending approved) = omega arith
made-le (sending payment) = omega arith
made-le (sending replay) = omega arith
made-le (ended false) = omega arith
made-le (ended true) = omega arith

pub total-made-le : (ss : List Stage) → total made ss ≤ 4 * total one ss
total-made-le [] = omega arith
total-made-le (s ∷ ss) = omega (arith, made-le s, total-made-le ss)
