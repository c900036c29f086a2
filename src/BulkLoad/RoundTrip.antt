-- ===== src/BulkLoad/RoundTrip.antt =====
-- The data file against the format file: what is read back.
use observability_lab.Prelude.{
  ℕ, zero, suc, arith, ◌≡◌, refl, ap, sym, ◌∙◌, String, Option, none, some, true, inl, inr, List,
  [], ◌∷◌, ◌++◌, length, map, All, Any, ◌/◌, ◌%◌, ◌≤◌, ◌<◌,
}
use mathlib.Core.List.{append_assoc}
use mathlib.Core.Path.{subst}
use observability_lab.Generator.Rows.{Random, Row, statuses, regions, channels, generate_rows}
use observability_lab.Generator.Exact.{numbers, range, IsExact, generate_rows-IsExact}
use observability_lab.Generator.Pools.{IsDrawn, AllDrawn, generate_rows-AllDrawn}
use observability_lab.BulkLoad.Text.{Text, codes, lacks, decimal, pad, fixed}
use observability_lab.BulkLoad.Dates.{date_of, isoformat}
use observability_lab.BulkLoad.Line.{
  field_terminator, row_terminator, order_id_text, client_id_text, fields, row_to_line, lines,
  data_file,
}
use observability_lab.BulkLoad.Format.{format_file, read_field, read_record, read_file}
use observability_lab.BulkLoad.Digits.{lacks-append, decimal-lacks, pad-lacks}

read_field-append :
    (sep : ℕ) (p rest : Text)
    → lacks sep p ≡ true
    → read_field sep (p ++ (sep ∷ rest)) ≡ some (p, rest)
read_field-append sep [] rest h = ground (arith)
read_field-append sep (c ∷ p) rest h = ground (arith, read_field-append sep p rest)

-- A record's fields with the terminators of a format behind them.
abbrev terminated : List (ℕ × ℕ) → List Text → Text → Text
terminated [] ps rest = rest
terminated (f ∷ fs) [] rest = rest
terminated ((w, sep) ∷ fs) (p ∷ ps) rest = p ++ (sep ∷ terminated fs ps rest)

abbrev AllLack : List (ℕ × ℕ) → List Text → Type 0
AllLack [] [] = Unit
AllLack [] (p ∷ ps) = ⊥
AllLack (f ∷ fs) [] = ⊥
AllLack ((w, sep) ∷ fs) (p ∷ ps) = (lacks sep p ≡ true) × AllLack fs ps

read_record-terminated :
    (fs : List (ℕ × ℕ)) (ps : List Text) (rest : Text)
    → AllLack fs ps
    → read_record fs (terminated fs ps rest) ≡ some (ps, rest)
unfolding read_record
read_record-terminated [] [] rest h = refl
read_record-terminated [] (p ∷ ps) rest h = elim h [ ]
read_record-terminated (f ∷ fs) [] rest h = elim h [ ]
read_record-terminated ((w, sep) ∷ fs) (p ∷ ps) rest h =
    rw (read_field-append sep p (terminated fs ps rest) h.0, read_record-terminated fs ps rest h.1)
      refl

row_to_line-terminated :
    (r : Row) (rest : Text) → row_to_line r ++ rest ≡ terminated format_file (fields r) rest
unfolding row_to_line
row_to_line-terminated r rest = simp (append_assoc)

pub member :
    (P : String → Type 0) (x : String) (xs : List String) → All P xs → Any (λ t. t ≡ x) xs → P x
member P x [] h m = elim m [ ]
member P x (y ∷ ys) h (inl e) = subst P e h.0
member P x (y ∷ ys) h (inr m) = member P x ys h.1 m

comma_low : field_terminator < 48
comma_low = omega arith

isoformat-lacks : (n : ℕ) → lacks field_terminator (isoformat (date_of n)) ≡ true
unfolding isoformat
isoformat-lacks n =
    let d = date_of n in
    lacks-append field_terminator (pad 4 d.year) _ (pad-lacks field_terminator comma_low 4 d.year) (
      lacks-append field_terminator (pad 2 d.month) (45 ∷ pad 2 d.day)
        (pad-lacks field_terminator comma_low 2 d.month)
        (pad-lacks field_terminator comma_low 2 d.day))

fixed-lacks : (c : ℕ) → lacks field_terminator (fixed c) ≡ true
unfolding fixed
fixed-lacks c =
    lacks-append field_terminator (decimal (c / 100)) (46 ∷ pad 2 (c % 100))
      (decimal-lacks field_terminator comma_low (c / 100))
      (pad-lacks field_terminator comma_low 2 (c % 100))

abbrev LacksComma : String → Type 0
LacksComma t = lacks field_terminator (codes t) ≡ true

fields-AllLack :
    (id : String) (r : Row)
    → lacks row_terminator (codes id) ≡ true
    → IsDrawn id r
    → AllLack format_file (fields r)
unfolding order_id_text client_id_text
fields-AllLack id r free d =
    let last : lacks row_terminator (codes r.load_batch_id) ≡ true =
      subst (λ t. lacks row_terminator (codes t) ≡ true) (sym d.batch) free in
    let item : lacks field_terminator (decimal r.item_count) ≡ true =
      decimal-lacks field_terminator comma_low r.item_count in
    let channel =
      member LacksComma r.channel channels (refl, (refl, (refl, (refl, tt)))) d.channel in
    let region =
      member LacksComma r.region regions (refl, (refl, (refl, (refl, (refl, tt))))) d.region in
    let status = member LacksComma r.status statuses (refl, (refl, (refl, tt))) d.status in
    (
      pad-lacks field_terminator comma_low 10 r.external_order_id,
      (
        pad-lacks field_terminator comma_low 9 r.external_client_id,
        (
          isoformat-lacks r.order_date,
          (status, (fixed-lacks r.total_amount, (region, (channel, (item, (last, tt)))))),
        ),
      ),
    )

-- All the rows of the batches.
abbrev pub rows_of : List (List Row) → List Row
rows_of [] = []
rows_of (b ∷ bs) = b ++ rows_of bs

lines-append : (a b : List Row) → lines (a ++ b) ≡ lines a ++ lines b
lines-append [] b = refl
lines-append (r ∷ a) b = simp (lines-append a b, append_assoc)

data_file-lines : (bs : List (List Row)) → data_file bs ≡ lines (rows_of bs)
data_file-lines [] = refl
data_file-lines (b ∷ bs) = simp (lines-append b (rows_of bs), data_file-lines bs)

read_file-lines :
    (id : String) (rs : List Row)
    → lacks row_terminator (codes id) ≡ true
    → All (IsDrawn id) rs
    → read_file (length rs) (lines rs) ≡ some (map fields rs)
unfolding read_file
read_file-lines id [] free d = refl
read_file-lines id (r ∷ rs) free d =
    rw
      (
        row_to_line-terminated r (lines rs),
        read_record-terminated format_file (fields r) (lines rs) (fields-AllLack id r free d.0),
        read_file-lines id rs free d.1,
      )
      refl

length-batch :
    (b rs : List Row) (ns : List ℕ)
    → length rs ≡ length ns
    → length (b ++ rs) ≡ length (map (λ (r : Row). r.external_order_id) b ++ ns)
length-batch [] rs ns h = h
length-batch (r ∷ b) rs ns h = ap suc (length-batch b rs ns h)

pub length-numbers : (bs : List (List Row)) → length (rows_of bs) ≡ length (numbers bs)
length-numbers [] = refl
length-numbers (b ∷ bs) = length-batch b (rows_of bs) (numbers bs) (length-numbers bs)

pub length-range : (n a : ℕ) → length (range n a) ≡ n
length-range zero a = refl
length-range (suc n) a = ap suc (length-range n (suc a))

All-append : (P : Row → Type 0) (a b : List Row) → All P a → All P b → All P (a ++ b)
All-append P [] b ha hb = hb
All-append P (r ∷ a) b ha hb = (ha.0, All-append P a b ha.1 hb)

pub rows_of-IsDrawn :
    (id : String) (bs : List (List Row))
    → All (λ b. All (IsDrawn id) b) bs
    → All (IsDrawn id) (rows_of bs)
rows_of-IsDrawn id [] h = tt
rows_of-IsDrawn id (b ∷ bs) h =
    All-append (IsDrawn id) b (rows_of bs) h.0 (rows_of-IsDrawn id bs h.1)

-- The batches are there, and their file holds as many records as asked for: the fields of the rows.
abbrev pub IsReadBack : ℕ → Option (List (List Row)) → Type 0
IsReadBack total none = ⊥
IsReadBack total (some bs) =
    (length (rows_of bs) ≡ total)
    × (read_file total (data_file bs) ≡ some (map fields (rows_of bs)))

batches-IsReadBack :
    (id : String) (batch_size total : ℕ) (o : Option (List (List Row)))
    → lacks row_terminator (codes id) ≡ true
    → IsExact batch_size 0 total o
    → AllDrawn id o
    → IsReadBack total o
batches-IsReadBack id batch_size total none free e d = e
batches-IsReadBack id batch_size total (some bs) free e d =
    let n : length (rows_of bs) ≡ total =
      length-numbers bs ∙ (ap length e.1 ∙ length-range total 0) in
    (
      n,
      subst (λ m. read_file m (data_file bs) ≡ some (map fields (rows_of bs))) n
          (rw (data_file-lines bs)
            (read_file-lines id (rows_of bs) free (rows_of-IsDrawn id bs d))),
    )

-- With batches of at least one row, the data file of a bulk load, read by the format file, gives back
-- the fields of every row that was generated, in order, and nothing else: no value holds the
-- terminator of its field. The load's id may be any text without a line break.
pub data_file_round_trip :
    (r : Random) (id : String) (total batch_size : ℕ) (g : r.Rng)
    → 1 ≤ batch_size
    → lacks row_terminator (codes id) ≡ true
    → IsReadBack total (generate_rows r id total batch_size g)
data_file_round_trip r id total batch_size g b free =
    batches-IsReadBack id batch_size total (generate_rows r id total batch_size g) free
      (generate_rows-IsExact r id total batch_size g b)
      (generate_rows-AllDrawn r id total batch_size g)
