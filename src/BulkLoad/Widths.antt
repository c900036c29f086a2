-- ===== src/BulkLoad/Widths.antt =====
-- The fields of the data file against the lengths of the format file.
use observability_lab.Prelude.{
  ℕ, zero, suc, arith, ◌≡◌, sym, String, Option, none, some, List, [], ◌∷◌, ◌++◌, length,
  length-append, map, All, ◌+◌, ◌/◌, ◌%◌, ◌≤◌, ◌<◌,
}
use mathlib.Core.Path.{subst}
use observability_lab.Generator.Rows.{Random, Row, statuses, regions, channels, generate_rows}
use observability_lab.Generator.Pools.{IsDrawn, AllDrawn, generate_rows-AllDrawn}
use observability_lab.Generator.Exact.{numbers, range, IsExact, generate_rows-IsExact}
use observability_lab.BulkLoad.Text.{Text, codes, decimal, pad, fixed}
use observability_lab.BulkLoad.Dates.{Date, next_day, date_of, isoformat}
use observability_lab.BulkLoad.Line.{order_id_text, client_id_text, fields}
use observability_lab.BulkLoad.Format.{format_file}
use observability_lab.BulkLoad.Digits.{pow10, length-decimal, length-pad}
use observability_lab.BulkLoad.RoundTrip.{member, rows_of, rows_of-IsDrawn}

pub record IsCalendar (n : ℕ) (d : Date) : Type 0 where
  pub year : d.year ≤ 2019 + n
  pub month : (1 ≤ d.month) × (d.month ≤ 12)
  pub day : (1 ≤ d.day) × (d.day ≤ 31)

next_day-IsCalendar : (n : ℕ) (d : Date) → IsCalendar n d → IsCalendar (suc n) (next_day d)
unfolding next_day
next_day-IsCalendar n d h = ground arith

pub date_of-IsCalendar : (n : ℕ) → IsCalendar n (date_of n)
unfolding date_of
date_of-IsCalendar zero = ground arith
date_of-IsCalendar (suc n) = next_day-IsCalendar n (date_of n) (date_of-IsCalendar n)

length-isoformat : (n : ℕ) → n ≤ 2556 → length (isoformat (date_of n)) ≡ 10
unfolding isoformat
length-isoformat n h =
    let d = date_of n in
    let c = date_of-IsCalendar n in
    omega (
      arith,
      h,
      c.year,
      c.month.1,
      c.day.1,
      length-append (pad 4 d.year) (45 ∷ (pad 2 d.month ++ (45 ∷ pad 2 d.day))),
      length-append (pad 2 d.month) (45 ∷ pad 2 d.day),
      length-pad 3 d.year,
      length-pad 1 d.month,
      length-pad 1 d.day,
    )

length-fixed : (c : ℕ) → c ≤ 450000 → length (fixed c) ≤ 7
unfolding fixed
length-fixed c h = omega (
  arith,
  h,
  length-append (decimal (c / 100)) (46 ∷ pad 2 (c % 100)),
  length-decimal 3 (c / 100),
  length-pad 1 (c % 100),
)

-- Each field is as long as the format allows, at most.
abbrev pub AllFit : List (ℕ × ℕ) → List Text → Type 0
AllFit [] [] = Unit
AllFit [] (p ∷ ps) = ⊥
AllFit (f ∷ fs) [] = ⊥
AllFit ((w, sep) ∷ fs) (p ∷ ps) = (length p ≤ w) × AllFit fs ps

abbrev FitsIn : ℕ → String → Type 0
FitsIn w t = length (codes t) ≤ w

fields-AllFit :
    (id : String) (r : Row)
    → length (codes id) ≤ 50
    → r.external_order_id < pow10 10
    → IsDrawn id r
    → AllFit format_file (fields r)
unfolding order_id_text client_id_text
fields-AllFit id r short n d =
    let status : length (codes r.status) ≤ 20 =
      member (FitsIn 20) r.status statuses (omega arith) d.status in
    let region : length (codes r.region) ≤ 50 =
      member (FitsIn 50) r.region regions (omega arith) d.region in
    let channel : length (codes r.channel) ≤ 30 =
      member (FitsIn 30) r.channel channels (omega arith) d.channel in
    let last : length (codes r.load_batch_id) ≤ 50 =
      subst (λ t. length (codes t) ≤ 50) (sym d.batch) short in
    (
      omega (arith, n, length-pad 9 r.external_order_id),
      (
        omega (arith, d.client, length-pad 8 r.external_client_id),
        (
          omega (arith, length-isoformat r.order_date d.date),
          (
            status,
            (
              omega (arith, length-fixed r.total_amount d.amount.1),
              (
                region,
                (channel, (omega (arith, d.items.1, length-decimal 1 r.item_count), (last, tt))),
              ),
            ),
          ),
        ),
      ),
    )

range-below : (n a m : ℕ) → a + n ≤ m → All (λ k. k < m) (range n a)
range-below zero a m h = tt
range-below (suc n) a m h = (omega (arith, h), range-below n (suc a) m (omega (arith, h)))

batch_below :
    (m : ℕ) (b rs : List Row) (ns : List ℕ)
    → (All (λ k. k < m) ns → All (λ r. r.external_order_id < m) rs)
    → All (λ k. k < m) (map (λ (r : Row). r.external_order_id) b ++ ns)
    → All (λ r. r.external_order_id < m) (b ++ rs)
batch_below m [] rs ns f h = f h
batch_below m (r ∷ b) rs ns f h = (h.0, batch_below m b rs ns f h.1)

numbers-below :
    (m : ℕ) (bs : List (List Row))
    → All (λ k. k < m) (numbers bs)
    → All (λ r. r.external_order_id < m) (rows_of bs)
numbers-below m [] h = tt
numbers-below m (b ∷ bs) h = batch_below m b (rows_of bs) (numbers bs) (numbers-below m bs) h

rows-AllFit :
    (id : String) (rs : List Row)
    → length (codes id) ≤ 50
    → All (λ r. r.external_order_id < pow10 10) rs
    → All (IsDrawn id) rs
    → All (λ r. AllFit format_file (fields r)) rs
rows-AllFit id [] short n d = tt
rows-AllFit id (r ∷ rs) short n d =
    (fields-AllFit id r short n.0 d.0, rows-AllFit id rs short n.1 d.1)

abbrev pub AllRowsFit : Option (List (List Row)) → Type 0
AllRowsFit none = ⊥
AllRowsFit (some bs) = All (λ r. AllFit format_file (fields r)) (rows_of bs)

batches-AllRowsFit :
    (id : String) (batch_size total : ℕ) (o : Option (List (List Row)))
    → length (codes id) ≤ 50
    → total ≤ pow10 10
    → IsExact batch_size 0 total o
    → AllDrawn id o
    → AllRowsFit o
batches-AllRowsFit id batch_size total none short few e d = e
batches-AllRowsFit id batch_size total (some bs) short few e d =
    let below : All (λ k. k < pow10 10) (numbers bs) =
      subst (λ l. All (λ k. k < pow10 10) l) (sym e.1)
        (range-below total 0 (pow10 10) (omega (arith, few))) in
    rows-AllFit id (rows_of bs) short (numbers-below (pow10 10) bs below) (rows_of-IsDrawn id bs d)

-- With batches of at least one row, no more than 10 000 000 000 rows and an id of the load of at most
-- 50 characters, every field of every row of a bulk load is within the length that the format file
-- gives it.
pub generate_rows-AllRowsFit :
    (r : Random) (id : String) (total batch_size : ℕ) (g : r.Rng)
    → 1 ≤ batch_size
    → total ≤ pow10 10
    → length (codes id) ≤ 50
    → AllRowsFit (generate_rows r id total batch_size g)
generate_rows-AllRowsFit r id total batch_size g b few short =
    batches-AllRowsFit id batch_size total (generate_rows r id total batch_size g) short few
      (generate_rows-IsExact r id total batch_size g b)
      (generate_rows-AllDrawn r id total batch_size g)
