-- ===== src/BulkLoad/Dates.antt =====
-- `datetime.date`: the calendar, and the ISO format.
use observability_lab.Prelude.{
  ℕ, zero, suc, Bool, ◌&&◌, ◌||◌, not, ◌++◌, ◌∷◌, eqb, ltb, ◌+◌, ◌%◌, if◌then◌else◌,
}
use observability_lab.BulkLoad.Text.{Text, pad}

pub record Date : Type 0 where
  pub year : ℕ
  pub month : ℕ
  pub day : ℕ

abbrev pub is_leap : ℕ → Bool
is_leap y = eqb (y % 4) 0 && (not (eqb (y % 100) 0) || eqb (y % 400) 0)

abbrev pub days_in_month : ℕ → ℕ → ℕ
days_in_month y m =
    if eqb m 2
    then (if is_leap y then 29 else 28)
    else if eqb m 4 || (eqb m 6 || (eqb m 9 || eqb m 11))
    then 30
    else 31

unfoldable pub next_day : Date → Date
next_day d =
    if ltb d.day (days_in_month d.year d.month)
    then record d { day = d.day + 1 }
    else if ltb d.month 12
    then record { year = d.year; month = d.month + 1; day = 1 }
    else record { year = d.year + 1; month = 1; day = 1 }

-- `_START_DATE + dt.timedelta(days=n)`
unfoldable pub date_of : ℕ → Date
date_of zero = record { year = 2019; month = 1; day = 1 }
date_of (suc n) = next_day (date_of n)

-- `date.isoformat()`
unfoldable pub isoformat : Date → Text
isoformat d = pad 4 d.year ++ (45 ∷ (pad 2 d.month ++ (45 ∷ pad 2 d.day)))
