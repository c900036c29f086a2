-- ===== src/Simulator/Totals.antt =====
-- The report of a run that has ended.
use observability_lab.Prelude.{
  ℕ, suc, arith, ◌≡◌, ◌≤◌, refl, ◌∙◌, ap, some, List, [], ◌∷◌, map, length, ◌+◌, ◌*◌, Bool,
}
use observability_lab.Simulator.Run.{State, Move, start, run, duplicates_sent}
use observability_lab.Simulator.Counts.{AllEnded, run_totals}
use observability_lab.Simulator.Report.{Sample, tally, is_success, ok_count}
use observability_lab.Simulator.Percentiles.{IsRanked, percentiles-IsRanked}

abbrev statuses : List Sample → List ℕ
statuses rs = map (λ r. r.0) rs

length-statuses : (rs : List Sample) → length (statuses rs) ≡ length rs
length-statuses [] = refl
length-statuses (r ∷ rs) = ap suc (length-statuses rs)

tally-statuses : (p : ℕ → Bool) (rs : List Sample) → tally (λ r. p r.0) rs ≡ tally p (statuses rs)
tally-statuses p [] = refl
tally-statuses p (r ∷ rs) = ground (arith, tally-statuses p rs)

-- A run of one order at least, when all coroutines have returned, whatever the latencies are: the
-- results are three for each order and one more for each duplicate, the report counts those of them
-- with a status from 200 to 299, and none of its subscripts raises. At least half of the latencies
-- are at most the p50 and at least half are at least that, at least 99 of each hundred, less one, are
-- at most the p99 and at least one of each hundred is at least that, and the p50 is at most the p99.
pub run_reported :
    (concurrency orders : ℕ) (ms : List Move) (k : State) (rs : List Sample)
    → 1 ≤ orders
    → run concurrency ms (start orders) ≡ some k
    → AllEnded k.orders
    → map (λ r. r.0) rs ≡ k.results
    → (length rs ≡ 3 * orders + duplicates_sent k.orders)
      × (ok_count rs ≡ tally is_success k.results)
      × ((v w : ℕ) × IsRanked rs v w)
unfolding ok_count
run_reported concurrency orders ms k rs some_order e ended same =
    let n : length rs ≡ 3 * orders + duplicates_sent k.orders =
      omega
        (arith, length-statuses rs, ap length same, run_totals concurrency orders ms k e ended) in
    (
      n,
      tally-statuses is_success rs ∙ ap (tally is_success) same,
      percentiles-IsRanked rs (omega (arith, n, some_order)),
    )
