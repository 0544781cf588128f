-- ===== src/Tests/TimeExamples.antt =====
-- The theorem on dates, on the day after a leap day.
use srrdb.Prelude.{nat_ord, ℕ, ◌+◌, ◌*◌, ◌/◌, ◌%◌, ◌<◌, ◌≤◌, ◌≡◌, get_elem?, unwrap_or}
use srrdb.Engine.Timestamp.{civil, month_days}
use srrdb.Engine.Timestamp.Calendar.{year_start, month_start, civil_lem}
use srrdb.Tests.Ascii.{ascii}

-- 1 March 1972
civil_example :
    (j : ℕ) × (1970 ≤ (civil 68256000).year)
    × ((civil 68256000).month ≡ j + 1)
    × (0 < (civil 68256000).day)
    × ((civil 68256000).day ≤ unwrap_or (get_elem? (month_days (civil 68256000).year) j) 0)
    × (year_start (civil 68256000).year
          + month_start (month_days (civil 68256000).year) j
          + (civil 68256000).day
        ≡ 68256000 / 86400 + 1)
    × ((civil 68256000).hour < 24)
    × ((civil 68256000).minute < 60)
    × ((civil 68256000).second < 60)
    × (3600 * (civil 68256000).hour + 60 * (civil 68256000).minute + (civil 68256000).second
        ≡ 68256000 % 86400)
civil_example = civil_lem 68256000
