-- ===== src/Simulator/Percentiles.antt =====
-- The percentiles of the report.
use observability_lab.Prelude.{
  ℕ, zero, suc, arith, ◌≡◌, ◌≤◌, ◌<◌, refl, ◌∙◌, ap, some, Bool, true, false, List, [], ◌∷◌, map,
  length, leb, All, All-map, ◌+◌, ◌*◌, ◌/◌, Bool-cases, inl, inr,
}
use observability_lab.Simulator.Report.{
  Sample, tally, insert, sorted, get_elem?, index_p99, latencies, p50, p99,
}

leb_le : (x y : ℕ) → leb x y ≡ true → x ≤ y
leb_le x y h = ground (arith, h)

leb_ge : (x y : ℕ) → leb x y ≡ false → y ≤ x
leb_ge x y h = ground (arith, h)

abbrev IsSorted : List ℕ → Type 0
IsSorted [] = Unit
IsSorted (x ∷ xs) = All (λ y. x ≤ y) xs × IsSorted xs

tally-insert : (p : ℕ → Bool) (x : ℕ) (xs : List ℕ) → tally p (insert x xs) ≡ tally p (x ∷ xs)
tally-insert p x [] = refl
tally-insert p x (y ∷ ys) = ground (arith, tally-insert p x ys)

tally-sorted : (p : ℕ → Bool) (xs : List ℕ) → tally p (sorted xs) ≡ tally p xs
tally-sorted p [] = refl
tally-sorted p (x ∷ xs) = ground (arith, tally-insert p x (sorted xs), tally-sorted p xs)

length-insert : (x : ℕ) (xs : List ℕ) → length (insert x xs) ≡ suc (length xs)
length-insert x [] = refl
length-insert x (y ∷ ys) = ground (arith, length-insert x ys)

length-sorted : (xs : List ℕ) → length (sorted xs) ≡ length xs
length-sorted [] = refl
length-sorted (x ∷ xs) = length-insert x (sorted xs) ∙ ap suc (length-sorted xs)

All-insert : (z x : ℕ) (xs : List ℕ) → z ≤ x → All (λ y. z ≤ y) xs → All (λ y. z ≤ y) (insert x xs)
All-insert z x [] l h = (l, tt)
All-insert z x (y ∷ ys) l (h, hs) = elim (Bool-cases (leb x y)) [
  | inl e ↦ rw e (l, (h, hs))
  | inr e ↦ rw e (h, All-insert z x ys l hs)
]

insert-IsSorted : (x : ℕ) (xs : List ℕ) → IsSorted xs → IsSorted (insert x xs)
insert-IsSorted x [] h = (tt, tt)
insert-IsSorted x (y ∷ ys) (h, hs) = elim (Bool-cases (leb x y)) [
  | inl e ↦ rw e (
    (leb_le x y e, All-map (λ z. y ≤ z) (λ z. x ≤ z) ys (λ z l. omega (arith, l, leb_le x y e)) h),
    (h, hs),
  )
  | inr e ↦ rw e (All-insert y x ys (leb_ge x y e) h, insert-IsSorted x ys hs)
]

sorted-IsSorted : (xs : List ℕ) → IsSorted (sorted xs)
sorted-IsSorted [] = tt
sorted-IsSorted (x ∷ xs) = insert-IsSorted x (sorted xs) (sorted-IsSorted xs)

-- The element at a place is there,
get_elem : (xs : List ℕ) (i : ℕ) → i < length xs → (v : ℕ) × (get_elem? xs i ≡ some v)
get_elem [] i l = ground (arith, l)
get_elem (x ∷ xs) zero l = (x, refl)
get_elem (x ∷ xs) (suc i) l = get_elem xs i (omega (arith, l))

-- and in a sorted list it comes after what is less, and before what is more.
above : (v : ℕ) (xs : List ℕ) → All (λ y. v ≤ y) xs → tally (leb v) xs ≡ length xs
above v [] h = refl
above v (x ∷ xs) (h, hs) = ground (arith, h, above v xs hs)

member-le : (x : ℕ) (xs : List ℕ) (i v : ℕ) → All (λ y. x ≤ y) xs → get_elem? xs i ≡ some v → x ≤ v
member-le x [] i v h e = ground arith
member-le x (y ∷ ys) zero v (h, hs) e = ground (arith, h, e)
member-le x (y ∷ ys) (suc i) v (h, hs) e = member-le x ys i v hs e

rank :
    (xs : List ℕ) (i v : ℕ)
    → IsSorted xs
    → get_elem? xs i ≡ some v
    → (suc i ≤ tally (λ y. leb y v) xs) × (length xs ≤ i + tally (leb v) xs)
rank [] i v h e = ground arith
rank (x ∷ xs) zero v (h, hs) e =
    let same : x ≡ v = ground (arith, e) in
    ground (arith, same, above x xs h, ap (λ (w : ℕ). tally (leb w) xs) same)
rank (x ∷ xs) (suc i) v (h, hs) e = ground (arith, member-le x xs i v h e, rank xs i v hs e)

monotone :
    (xs : List ℕ) (i j v w : ℕ)
    → IsSorted xs
    → i ≤ j
    → get_elem? xs i ≡ some v
    → get_elem? xs j ≡ some w
    → v ≤ w
monotone [] i j v w h l e f = ground arith
monotone (x ∷ xs) zero zero v w h l e f = ground (arith, e, f)
monotone (x ∷ xs) zero (suc j) v w (h, hs) l e f = ground (arith, e, member-le x xs j w h f)
monotone (x ∷ xs) (suc i) zero v w h l e f = ground (arith, l)
monotone (x ∷ xs) (suc i) (suc j) v w (h, hs) l e f = monotone xs i j v w hs (omega (arith, l)) e f

length-map : (rs : List Sample) → length (map (λ r. r.1) rs) ≡ length rs
length-map [] = refl
length-map (r ∷ rs) = ap suc (length-map rs)

abbrev times : List Sample → List ℕ
times rs = map (λ r. r.1) rs

abbrev Placed : List Sample → ℕ → ℕ → Type 0
Placed rs i v =
    (get_elem? (latencies rs) i ≡ some v)
    × (suc i ≤ tally (λ y. leb y v) (times rs))
    × (length rs ≤ i + tally (leb v) (times rs))

-- An element of the sorted latencies, counted among the latencies as they came.
placed : (rs : List Sample) (i : ℕ) → i < length rs → (v : ℕ) × Placed rs i v
unfolding latencies
placed rs i l =
    let n : length (sorted (times rs)) ≡ length rs = length-sorted (times rs) ∙ length-map rs in
    let (v, e) = get_elem (sorted (times rs)) i (omega (arith, l, n)) in
    let (a, b) = rank (sorted (times rs)) i v (sorted-IsSorted (times rs)) e in
    (
      v,
      (
        e,
        omega (arith, a, tally-sorted (λ y. leb y v) (times rs)),
        omega (arith, b, n, tally-sorted (leb v) (times rs)),
      ),
    )

latencies-IsSorted : (rs : List Sample) → IsSorted (latencies rs)
unfolding latencies
latencies-IsSorted rs = sorted-IsSorted (times rs)

length-latencies : (rs : List Sample) → length (latencies rs) ≡ length rs
unfolding latencies
length-latencies rs = length-sorted (times rs) ∙ length-map rs

p99_place :
    (n : ℕ)
    → 1 ≤ n
    → (index_p99 n < n) × (99 * n ≤ 100 * suc (index_p99 n) + 99) × (index_p99 n ≤ n * 99 / 100)
p99_place n l = ground (arith, l)

p99_above_p50 : (n : ℕ) → 3 ≤ n → n / 2 ≤ index_p99 n
p99_above_p50 n l = ground (arith, l)

-- What the two percentiles are, by counting: `v` and `w`, and of `n` latencies at least half are at
-- most `v`, at least half are at least `v`, at least 99 of each hundred, less one, are at most `w`,
-- and at least one of each hundred is at least `w`.
pub record IsRanked (rs : List Sample) (v w : ℕ) : Type 0 where
  pub has_p50 : p50 rs ≡ some v
  pub has_p99 : p99 rs ≡ some w
  pub half_below : length rs ≤ 2 * tally (λ l. leb l v) (map (λ r. r.1) rs)
  pub half_above : length rs ≤ 2 * tally (leb v) (map (λ r. r.1) rs)
  pub most_below : 99 * length rs ≤ 100 * tally (λ l. leb l w) (map (λ r. r.1) rs) + 99
  pub some_above : length rs ≤ 100 * tally (leb w) (map (λ r. r.1) rs)
  pub in_order : v ≤ w

ranked :
    (r : Sample) (rs : List Sample) (v w : ℕ)
    → 3 ≤ length (r ∷ rs)
    → Placed (r ∷ rs) (length (r ∷ rs) / 2) v
    → Placed (r ∷ rs) (index_p99 (length (r ∷ rs))) w
    → IsRanked (r ∷ rs) v w
ranked r rs v w l (e, ve, vg) (f, we, wg) =
    let m : length (latencies (r ∷ rs)) ≡ length (r ∷ rs) = length-latencies (r ∷ rs) in
    let (a, b, c) = p99_place (length (r ∷ rs)) (omega arith) in
    record {
      has_p50 = rw m e;
      has_p99 = rw m f;
      half_below = omega (arith, ve);
      half_above = omega (arith, vg);
      most_below = omega (arith, we, b);
      some_above = omega (arith, wg, c);
      in_order =
          monotone (latencies (r ∷ rs)) (length (r ∷ rs) / 2) (index_p99 (length (r ∷ rs))) v w
            (latencies-IsSorted (r ∷ rs)) (p99_above_p50 (length (r ∷ rs)) l) e f;
    }

-- With three results or more, which one order has: there are both percentiles, so that no subscript
-- raises, at least half of the latencies are at most the p50 and at least half are at least that, at
-- least 99 of each hundred, less one, are at most the p99 and at least one of each hundred is at least
-- that, and the p50 is at most the p99.
pub percentiles-IsRanked : (rs : List Sample) → 3 ≤ length rs → (v w : ℕ) × IsRanked rs v w
percentiles-IsRanked [] l = ground (arith, l)
percentiles-IsRanked (r ∷ rs) l =
    let (v, e) = placed (r ∷ rs) (length (r ∷ rs) / 2) (omega arith) in
    let (w, f) =
      placed (r ∷ rs) (index_p99 (length (r ∷ rs))) (p99_place (length (r ∷ rs)) (omega arith)).0 in
    (v, w, ranked r rs v w l e f)
