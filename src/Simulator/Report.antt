-- ===== src/Simulator/Report.antt =====
-- The report at the end of `run` of services/load_simulator/simulate.py. A latency is a number of
-- some unit of time.
use observability_lab.Prelude.{
  ℕ, zero, suc, Option, none, some, Bool, ◌&&◌, List, [], ◌∷◌, map, length, ltb, leb, eqb, ◌*◌, ◌/◌,
  ◌-◌, if◌then◌else◌,
}

-- An element of `results`: the status and the latency.
abbrev pub Sample : Type 0
Sample = ℕ × ℕ

-- How many pass the test.
abbrev pub tally {ℓ} : {A : Type ℓ} → (A → Bool) → List A → ℕ
tally p [] = 0
tally p (x ∷ xs) = if p x then suc (tally p xs) else tally p xs

-- `200 <= status < 300`
abbrev pub is_success : ℕ → Bool
is_success status = leb 200 status && ltb status 300

-- `sum(1 for status, _ in results if 200 <= status < 300)`
unfoldable pub ok_count : List Sample → ℕ
ok_count results = tally (λ r. is_success r.0) results

-- `sorted`
abbrev pub insert : ℕ → List ℕ → List ℕ
insert x [] = x ∷ []
insert x (y ∷ ys) = if leb x y then x ∷ y ∷ ys else y ∷ insert x ys

abbrev pub sorted : List ℕ → List ℕ
sorted [] = []
sorted (x ∷ xs) = insert x (sorted xs)

-- `xs[i]`, none if it raises
abbrev pub get_elem? : List ℕ → ℕ → Option ℕ
get_elem? [] i = none
get_elem? (x ∷ xs) zero = some x
get_elem? (x ∷ xs) (suc i) = get_elem? xs i

-- `int(n * 0.99) - 1` as an index of n elements: -1 is the last of them
abbrev pub index_p99 : ℕ → ℕ
index_p99 n = if eqb (n * 99 / 100) 0 then n - 1 else n * 99 / 100 - 1

unfoldable pub latencies : List Sample → List ℕ
latencies results = sorted (map (λ r. r.1) results)

-- none if the subscript raises
abbrev pub p50 : List Sample → Option ℕ
p50 [] = some 0
p50 (r ∷ rs) = get_elem? (latencies (r ∷ rs)) (length (latencies (r ∷ rs)) / 2)

abbrev pub p99 : List Sample → Option ℕ
p99 [] = some 0
p99 (r ∷ rs) = get_elem? (latencies (r ∷ rs)) (index_p99 (length (latencies (r ∷ rs))))
