-- ===== src/BulkLoad/Line.antt =====
-- `_row_to_line`, and the data file that `generate_and_load` writes.
use observability_lab.Prelude.{ℕ, List, [], ◌∷◌, ◌++◌}
use observability_lab.Generator.Rows.{Row}
use observability_lab.BulkLoad.Text.{Text, codes, decimal, pad, fixed, join}
use observability_lab.BulkLoad.Dates.{date_of, isoformat}

-- `FIELD_TERMINATOR` and `ROW_TERMINATOR`
abbrev pub field_terminator : ℕ
field_terminator = b','

abbrev pub row_terminator : ℕ
row_terminator = 10

-- `f"HIST-{seq:010d}"`
unfoldable pub order_id_text : ℕ → Text
order_id_text n = codes "HIST-" ++ pad 10 n

-- `f"CLIENT-{…:09d}"`
unfoldable pub client_id_text : ℕ → Text
client_id_text n = codes "CLIENT-" ++ pad 9 n

abbrev pub fields : Row → List Text
fields r =
    order_id_text r.external_order_id
    ∷ client_id_text r.external_client_id
    ∷ isoformat (date_of r.order_date)
    ∷ codes r.status
    ∷ fixed r.total_amount
    ∷ codes r.region
    ∷ codes r.channel
    ∷ decimal r.item_count
    ∷ codes r.load_batch_id
    ∷ []

unfoldable pub row_to_line : Row → Text
row_to_line r = join field_terminator (fields r) ++ (row_terminator ∷ [])

-- `fh.writelines(_row_to_line(row) for row in batch)`
abbrev pub lines : List Row → Text
lines [] = []
lines (r ∷ rs) = row_to_line r ++ lines rs

abbrev pub data_file : List (List Row) → Text
data_file [] = []
data_file (b ∷ bs) = lines b ++ data_file bs
