-- ===== src/Engine/Timestamp.antt =====
-- src/engine/executor.rs: `format_timestamp`, from seconds since 1970 to a date and a time. The
-- `i64` variables of the code are never negative here.
pub mod Calendar
use srrdb.Prelude.{
  ℕ, zero, suc, ◌+◌, ◌-◌, ◌*◌, ◌/◌, ◌%◌, Bool, true, false, not, ◌&&◌, ◌||◌, List, [], ◌∷◌, ◌++◌,
  nat_beq, ltb, if◌then◌else◌, length, replicate,
}
use srrdb.Std.Text.{Text, codes}
use srrdb.Std.Decimal.{nat_to_string}
use srrdb.Engine.Types.{Value, text}

-- `is_leap`
unfoldable pub is_leap : ℕ → Bool
is_leap y = (nat_beq (y % 4) 0 && not (nat_beq (y % 100) 0)) || nat_beq (y % 400) 0

abbrev pub year_days : ℕ → ℕ
year_days y = if is_leap y then 366 else 365

-- the loop over the years, on fuel: the year, and the days into it
unfoldable pub year_loop : ℕ → ℕ → ℕ → ℕ × ℕ
year_loop zero d y = (y, d)
year_loop (suc f) d y =
    let later = year_loop f (d - year_days y) (y + 1) in
    if ltb d (year_days y) then (y, d) else later

abbrev pub month_days : ℕ → List ℕ
month_days y =
    31 ∷ (if is_leap y then 29 else 28) ∷ 31 ∷ 30 ∷ 31 ∷ 30 ∷ 31 ∷ 31 ∷ 30 ∷ 31 ∷ 30 ∷ 31 ∷ []

-- the loop over the months from month `i`: the month, and the days into it; 0 if none is found
unfoldable pub month_loop : List ℕ → ℕ → ℕ → ℕ × ℕ
month_loop [] d i = (0, d)
month_loop (md ∷ mds) d i =
    let later = month_loop mds (d - md) (i + 1) in if ltb d md then (i + 1, d) else later

pub record DateTime : Type 0 where
  pub year : ℕ
  pub month : ℕ
  pub day : ℕ
  pub hour : ℕ
  pub minute : ℕ
  pub second : ℕ

-- the numbers that `format_timestamp` computes
unfoldable pub civil : ℕ → DateTime
civil secs =
    let days = secs / 86400 in
    let time_secs = secs % 86400 in
    let (y, into_year) = year_loop (suc days) days 1970 in
    let (m, into_month) = month_loop (month_days y) into_year 0 in
    record {
      year = y;
      month = m;
      day = into_month + 1;
      hour = time_secs / 3600;
      minute = (time_secs % 3600) / 60;
      second = time_secs % 60;
    }

-- `{n:0w}`
abbrev pub pad : ℕ → ℕ → Text
pad w n = replicate (w - length (nat_to_string n)) b'0' ++ nat_to_string n

-- `format_timestamp`
unfoldable pub format_timestamp : ℕ → Value
unfolding civil
format_timestamp secs =
    let t = civil secs in
    text (
      pad 4 t.year
      ++ (codes "-"
          ++ (pad 2 t.month
              ++ (codes "-"
                  ++ (pad 2 t.day
                      ++ (codes " "
                          ++ (pad 2 t.hour
                              ++ (codes ":"
                                  ++ (pad 2 t.minute ++ (codes ":" ++ pad 2 t.second))))))))))
