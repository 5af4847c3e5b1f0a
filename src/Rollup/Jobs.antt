-- ===== src/Rollup/Jobs.antt =====
-- The scheduled roll-up jobs of src/aegis_gateway/workers/tasks.py and their schedule in
-- workers/settings.py. Times are microseconds since the epoch, in UTC, so that an hour and a day
-- start at a multiple of their length; the clock is past the first day.
pub mod Laws
use aegis_gateway.Prelude.{
  ℕ, zero, suc, ◌+◌, ◌-◌, ◌*◌, ◌/◌, String, Option, none, some, List, [], ◌∷◌,
}
use aegis_gateway.Scan.{Stored}
use aegis_gateway.Rollup.{UsageRollup, rollup_period}

abbrev pub minute : ℕ
minute = 60000000

abbrev pub hour : ℕ
hour = 3600000000

abbrev pub day : ℕ
day = 86400000000

-- `replace(minute=0, second=0, microsecond=0)`
unfoldable pub start_of_hour : ℕ → ℕ
start_of_hour t = t / hour * hour

-- `replace(hour=0, minute=0, second=0, microsecond=0)`
unfoldable pub start_of_day : ℕ → ℕ
start_of_day t = t / day * day

-- A job returns the table afterwards, and the number of tenants that it logs.
unfoldable pub hourly_usage_rollup : ℕ → List Stored → List UsageRollup → List UsageRollup × ℕ
unfolding start_of_hour
hourly_usage_rollup now records table =
    let period_start = start_of_hour (now - hour) in
    rollup_period "hourly" period_start (period_start + hour) records table

unfoldable pub daily_usage_rollup : ℕ → List Stored → List UsageRollup → List UsageRollup × ℕ
unfolding start_of_day
daily_usage_rollup now records table =
    let period_start = start_of_day (now - day) in
    rollup_period "daily" period_start (period_start + day) records table

pub data Job : Type 0 where
  hourly_usage daily_usage budget_threshold : Job

-- An entry of `cron_jobs`: without an hour it is every hour's.
pub record Cron : Type 0 where
  pub job : Job
  pub hour_of_day : Option ℕ
  pub minutes : List ℕ

abbrev pub hourly_cron : Cron
hourly_cron = record { job = hourly_usage; hour_of_day = none; minutes = 5 ∷ [] }

abbrev pub daily_cron : Cron
daily_cron = record { job = daily_usage; hour_of_day = some 0; minutes = 10 ∷ [] }

abbrev pub scan_cron : Cron
scan_cron = record { job = budget_threshold; hour_of_day = none; minutes = 0 ∷ 15 ∷ 30 ∷ 45 ∷ [] }

abbrev pub cron_jobs : List Cron
cron_jobs = hourly_cron ∷ daily_cron ∷ scan_cron ∷ []

-- The minute and the hour of an entry's first run in an hour and in a day.
abbrev pub first_minute : List ℕ → ℕ
first_minute [] = 0
first_minute (m ∷ minutes) = m

abbrev pub first_hour : Option ℕ → ℕ
first_hour none = 0
first_hour (some h) = h
