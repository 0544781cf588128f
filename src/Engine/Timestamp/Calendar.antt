-- ===== src/Engine/Timestamp/Calendar.antt =====
-- The date that `format_timestamp` prints is the one of the proleptic Gregorian calendar.
use srrdb.Prelude.{
  ℕ, zero, suc, ◌+◌, ◌-◌, ◌*◌, ◌/◌, ◌%◌, ◌≤◌, ◌<◌, ◌≡◌, refl, false, List, [], ◌∷◌, arith, ltb,
  get_elem?, unwrap_or, Bool-cases, inl, inr, ltb→lt, ◌∙◌,
}
use srrdb.Engine.Timestamp.{is_leap, year_days, year_loop, month_days, month_loop, civil}

-- the days from 1 January of year 1 to 1 January of year `y + 1`, by the rule of the leap years
abbrev pub days_to_year : ℕ → ℕ
days_to_year y = 365 * y + y / 4 - y / 100 + y / 400

-- the days before year `y`, from 1970
abbrev pub year_start : ℕ → ℕ
year_start y = days_to_year (y - 1) - days_to_year 1969

days_to_year-step : (y : ℕ) → 0 < y → days_to_year y ≡ days_to_year (y - 1) + year_days y
unfolding is_leap
days_to_year-step y h = ground arith

days_to_year_mono : (y : ℕ) → 1969 ≤ y → days_to_year 1969 ≤ days_to_year y
days_to_year_mono y h = omega arith

year_start-step : (y : ℕ) → 1970 ≤ y → year_start (y + 1) ≡ year_start y + year_days y
year_start-step y h =
    omega (arith, days_to_year-step y (omega arith), days_to_year_mono (y - 1) (omega arith))

year_days_pos : (y : ℕ) → 0 < year_days y
year_days_pos y = ground arith

not_ltb : (a b : ℕ) → ltb a b ≡ false → b ≤ a
not_ltb a b h = ground arith

-- The loop over the years ends within the year, and keeps the day.
pub year_loop_lem :
    (f d y : ℕ)
    → 1970 ≤ y
    → d < f
    → (1970 ≤ (year_loop f d y).0)
      × ((year_loop f d y).1 < year_days (year_loop f d y).0)
      × (year_start (year_loop f d y).0 + (year_loop f d y).1 ≡ year_start y + d)
unfolding year_loop
year_loop_lem zero d y h k = elim k [ ]
year_loop_lem (suc f) d y h k = elim (Bool-cases (ltb d (year_days y))) [
  | inl e ↦ rw e (h, ltb→lt _ _ e, refl)
  | inr e ↦
      let past = not_ltb d (year_days y) e in
      let ih =
        year_loop_lem f (d - year_days y) (y + 1) (omega arith) (omega (arith, year_days_pos y)) in
      rw e (ih.0, ih.1, ih.2 ∙ omega (arith, year_start-step y h))
]

-- the days of the first `i` months of a list
abbrev pub month_start : List ℕ → ℕ → ℕ
month_start [] i = 0
month_start (md ∷ mds) zero = 0
month_start (md ∷ mds) (suc i) = md + month_start mds i

abbrev pub total : List ℕ → ℕ
total [] = 0
total (md ∷ mds) = md + total mds

-- The loop over the months ends within a month, and keeps the day.
pub month_loop_lem :
    (mds : List ℕ) (d i : ℕ)
    → d < total mds
    → (j : ℕ) × ((month_loop mds d i).0 ≡ i + j + 1)
      × ((month_loop mds d i).1 < unwrap_or (get_elem? mds j) 0)
      × (month_start mds j + (month_loop mds d i).1 ≡ d)
unfolding month_loop
month_loop_lem [] d i h = elim h [ ]
month_loop_lem (md ∷ mds) d i h = elim (Bool-cases (ltb d md)) [
  | inl e ↦ rw e (0, omega arith, ltb→lt _ _ e, omega arith)
  | inr e ↦
      let past = not_ltb d md e in
      let (j, m, within, sum) = month_loop_lem mds (d - md) (i + 1) (omega arith) in
      rw e (suc j, omega arith, within, omega arith)
]

total-month_days : (y : ℕ) → total (month_days y) ≡ year_days y
total-month_days y = ground arith

-- The date of any time is a date of the calendar: the year is not before 1970, the day lies within
-- its month, the days before the year, before the month and in the month add up to the days since
-- 1970, and so do the hour, minute and second to the seconds of the day.
pub civil_lem :
    (secs : ℕ)
    → (j : ℕ) × (1970 ≤ (civil secs).year)
      × ((civil secs).month ≡ j + 1)
      × (0 < (civil secs).day)
      × ((civil secs).day ≤ unwrap_or (get_elem? (month_days (civil secs).year) j) 0)
      × (year_start (civil secs).year
            + month_start (month_days (civil secs).year) j
            + (civil secs).day
          ≡ secs / 86400 + 1)
      × ((civil secs).hour < 24)
      × ((civil secs).minute < 60)
      × ((civil secs).second < 60)
      × (3600 * (civil secs).hour + 60 * (civil secs).minute + (civil secs).second ≡ secs % 86400)
unfolding civil
civil_lem secs =
    let days = secs / 86400 in
    let (later, within, sum) = year_loop_lem (suc days) days 1970 (omega arith) (omega arith) in
    let y = (year_loop (suc days) days 1970).0 in
    let d = (year_loop (suc days) days 1970).1 in
    let (j, m, day, before) =
      month_loop_lem (month_days y) d 0 (omega (arith, total-month_days y, within)) in
    (
      j,
      later,
      omega arith,
      omega arith,
      omega arith,
      omega arith,
      omega arith,
      omega arith,
      omega arith,
      omega arith,
    )
