-- ===== src/Simulator/Ends.antt =====
-- A run of the simulator comes to an end.
use observability_lab.Prelude.{
  ℕ, suc, arith, ◌≡◌, ◌∙◌, ap, refl, Option, none, some, Bool, true, false, Bool-cases, inl, inr,
  ◌⊎◌, List, [], ◌∷◌, length, ltb, ◌+◌, ◌*◌, ◌≤◌,
}
use mathlib.Core.Path.{subst}
use observability_lab.Simulator.Run.{
  Send, Stage, waiting, sending, ended, State, stage_of, put_stage, in_flight, Move, acquire,
  answer, start, acquired, answered, step, then_run, run,
}
use observability_lab.Simulator.Counts.{AllEnded, run-IsCounted, total-made-le}

find_sending :
    (ss : List Stage) → 1 ≤ in_flight ss → (i : ℕ) × (x : Send) × (stage_of i ss ≡ some (sending x))
find_sending [] h = absurd (omega (arith, h))
find_sending (sending x ∷ ss) h = (0, x, refl)
find_sending (waiting x ∷ ss) h =
    let (i, y, e) = find_sending ss (omega (arith, h)) in (suc i, y, e)
find_sending (ended b ∷ ss) h = let (i, y, e) = find_sending ss (omega (arith, h)) in (suc i, y, e)

find_waiting :
    (ss : List Stage)
    → in_flight ss ≡ 0
    → AllEnded ss ⊎ ((i : ℕ) × (x : Send) × (stage_of i ss ≡ some (waiting x)))
find_waiting [] h = inl tt
find_waiting (waiting x ∷ ss) h = inr (0, x, refl)
find_waiting (sending x ∷ ss) h = absurd (omega (arith, h))
find_waiting (ended b ∷ ss) h = next (find_waiting ss (omega (arith, h)))
  where
    next :
        AllEnded ss ⊎ ((i : ℕ) × (x : Send) × (stage_of i ss ≡ some (waiting x)))
        → AllEnded ss ⊎ ((i : ℕ) × (x : Send) × (stage_of i (ended b ∷ ss) ≡ some (waiting x)))
    next (inl a) = inl a
    next (inr (i, x, e)) = inr (suc i, x, e)

-- Some move is possible.
abbrev pub CanMove : ℕ → State → Type 0
CanMove concurrency k = (m : Move) × (l : State) × (step concurrency m k ≡ some l)

answer_possible :
    (concurrency i : ℕ) (x : Send) (k : State)
    → stage_of i k.orders ≡ some (sending x)
    → CanMove concurrency k
answer_possible concurrency i x k e =
    (answer i 0 true, _, ap (λ s. answered concurrency i 0 true s k) e)

acquire_possible :
    (concurrency i : ℕ) (x : Send) (k : State)
    → stage_of i k.orders ≡ some (waiting x)
    → ltb (in_flight k.orders) concurrency ≡ true
    → CanMove concurrency k
acquire_possible concurrency i x k e free = (
  acquire i,
  record k { orders = put_stage i (sending x) k.orders; requests = (i, x) ∷ k.requests },
  ap (λ s. acquired concurrency i s k) e ∙ rw free refl,
)

can_move :
    (concurrency : ℕ) (k : State) → 1 ≤ concurrency → AllEnded k.orders ⊎ CanMove concurrency k
can_move concurrency k c = under_way (Bool-cases (ltb 0 (in_flight k.orders)))
  where
    idle :
        in_flight k.orders ≡ 0
        → AllEnded k.orders ⊎ ((i : ℕ) × (x : Send) × (stage_of i k.orders ≡ some (waiting x)))
        → AllEnded k.orders ⊎ CanMove concurrency k
    idle z (inl a) = inl a
    idle z (inr (i, x, e)) = inr (acquire_possible concurrency i x k e (ground (arith, z, c)))

    under_way :
        (ltb 0 (in_flight k.orders) ≡ true) ⊎ (ltb 0 (in_flight k.orders) ≡ false)
        → AllEnded k.orders ⊎ CanMove concurrency k
    under_way (inl t) =
        let (i, x, e) = find_sending k.orders (ground (arith, t)) in
        inr (answer_possible concurrency i x k e)
    under_way (inr f) =
        let z : in_flight k.orders ≡ 0 = ground (arith, f) in idle z (find_waiting k.orders z)

-- A move makes one request, or gets one result.
abbrev activity : State → ℕ
activity k = length k.requests + length k.results

abbrev Adds : ℕ → Option State → Type 0
Adds n none = Unit
Adds n (some k) = activity k ≡ n

module _ (concurrency : ℕ) where
  acquired-Adds :
      (i : ℕ) (s : Option Stage) (k : State) → Adds (suc (activity k)) (acquired concurrency i s k)
  acquired-Adds i none k = tt
  acquired-Adds i (some (waiting x)) k = elim (Bool-cases (ltb (in_flight k.orders) concurrency)) [
    | inl e ↦ rw e (omega arith)
    | inr e ↦ rw e tt
  ]
  acquired-Adds i (some (sending x)) k = tt
  acquired-Adds i (some (ended b)) k = tt

  answered-Adds :
      (i status : ℕ) (b : Bool) (s : Option Stage) (k : State)
      → Adds (suc (activity k)) (answered concurrency i status b s k)
  answered-Adds i status b none k = tt
  answered-Adds i status b (some (waiting x)) k = tt
  answered-Adds i status b (some (sending x)) k = omega arith
  answered-Adds i status b (some (ended c)) k = tt

  step-Adds : (m : Move) (k : State) → Adds (suc (activity k)) (step concurrency m k)
  step-Adds (acquire i) k = acquired-Adds i (stage_of i k.orders) k
  step-Adds (answer i status b) k = answered-Adds i status b (stage_of i k.orders) k

  run-Adds : (ms : List Move) (k : State) → Adds (length ms + activity k) (run concurrency ms k)
  unfolding run
  run-Adds [] k = omega arith
  run-Adds (m ∷ ms) k = then-Adds (step concurrency m k) (step-Adds m k) (λ l. run-Adds ms l)
    where
      then-Adds :
          (o : Option State)
          → Adds (suc (activity k)) o
          → ((l : State) → Adds (length ms + activity l) (run concurrency ms l))
          → Adds (length (m ∷ ms) + activity k) (then_run concurrency (run concurrency ms) o)
      then-Adds none e f = tt
      then-Adds (some l) e f = subst (λ n. Adds n (run concurrency ms l)) (omega (arith, e)) (f l)

-- If the semaphore admits one request at least, a run cannot get stuck, and it cannot go on for ever:
-- at every time all coroutines have returned or some move is possible, and there are eight moves for
-- each order at most. No more requests are under way than the semaphore admits, and each request made
-- is under way or has one result.
pub run_ends :
    (concurrency orders : ℕ) (ms : List Move) (k : State)
    → 1 ≤ concurrency
    → run concurrency ms (start orders) ≡ some k
    → (AllEnded k.orders ⊎ CanMove concurrency k)
      × (length ms ≤ 8 * orders)
      × (in_flight k.orders ≤ concurrency)
      × (length k.results + in_flight k.orders ≡ length k.requests)
run_ends concurrency orders ms k c e =
    let q = run-IsCounted concurrency orders ms k e in
    let a : activity k ≡ length ms + activity (start orders) =
      subst (Adds (length ms + activity (start orders))) e
        (run-Adds concurrency ms (start orders)) in
    (
      can_move concurrency k c,
      omega (arith, a, q.requests, q.results, q.orders, total-made-le k.orders),
      q.bounded,
      q.results,
    )
