-- ===== src/Rollup/Jobs/Laws.antt =====
-- The hourly jobs tile the day, and the daily job agrees with them.
use aegis_gateway.Prelude.{
  ℕ, zero, suc, ◌+◌, ◌*◌, ◌-◌, ◌≡◌, ◌<◌, ◌≤◌, refl, sym, ap, ap₂, ◌≢◌, ◌∙◌, String, none, List,
  arith,
}
use aegis_gateway.Scan.{Stored}
use aegis_gateway.Rollup.{UsageRollup, rollup_period}
use aegis_gateway.Rollup.Laws.{find_rollup}
use aegis_gateway.Rollup.Totals.{Column, value, total, total-empty, total-split}
use aegis_gateway.Rollup.Rows.{value-rollup_period, find_rollup-rollup_period-other}
use aegis_gateway.Rollup.Jobs.{
  first_minute, first_hour, hourly_cron, daily_cron, minute, hour, day, start_of_hour, start_of_day,
  hourly_usage_rollup, daily_usage_rollup,
}

-- The instant at which the hourly job for the hour `k` of a day runs: at the schedule's minute of the
-- next hour, and a delay later.
unfoldable pub hourly_instant : ℕ → ℕ → ℕ → ℕ
hourly_instant midnight k delay =
    midnight + (k + 1) * hour + first_minute hourly_cron.minutes * minute + delay

-- The schedule's hour and minute of the next day, and a delay later.
unfoldable pub daily_instant : ℕ → ℕ → ℕ
daily_instant midnight delay =
    midnight
    + day
    + first_hour daily_cron.hour_of_day * hour
    + first_minute daily_cron.minutes * minute
    + delay

start_of_hour-instant :
    (days k delay : ℕ)
    → delay < 55 * minute
    → start_of_hour (hourly_instant (days * day) k delay - hour) ≡ days * day + k * hour
unfolding start_of_hour hourly_instant
start_of_hour-instant days k delay h = omega arith

start_of_day-instant :
    (days delay : ℕ)
    → delay < 23 * hour
    → start_of_day (daily_instant (days * day) delay - day) ≡ days * day
unfolding start_of_day daily_instant
start_of_day-instant days delay h = omega arith

module _ (days : ℕ) (delays : ℕ → ℕ) (records : List Stored) where
  -- The table after the hourly jobs of the first hours of a day.
  unfoldable pub hourly_runs : ℕ → List UsageRollup → List UsageRollup
  hourly_runs zero table = table
  hourly_runs (suc k) table =
      (hourly_usage_rollup (hourly_instant (days * day) k (delays k)) records
        (hourly_runs k table)).0

  -- A column of a tenant's hourly rows, summed over the first hours of a day.
  unfoldable pub sum_hours : String → Column → ℕ → List UsageRollup → ℕ
  sum_hours tenant_id c zero table = 0
  sum_hours tenant_id c (suc k) table =
      sum_hours tenant_id c k table
      + value c (find_rollup tenant_id "hourly" (days * day + k * hour) table)

  module _ (tenant_id : String) (on_time : (k : ℕ) → delays k < 55 * minute) where
    -- The table after the hourly job for the hour `k`.
    abbrev of_hour : ℕ → List UsageRollup → List UsageRollup
    of_hour k table =
        (rollup_period "hourly" (days * day + k * hour) (days * day + k * hour + hour) records
          table).0

    hourly_runs-suc :
        (n : ℕ) (table : List UsageRollup)
        → hourly_runs (suc n) table ≡ of_hour n (hourly_runs n table)
    unfolding hourly_runs hourly_usage_rollup
    hourly_runs-suc n table =
        ap (λ s. (rollup_period "hourly" s (s + hour) records (hourly_runs n table)).0)
          (start_of_hour-instant days n (delays n) (on_time n))

    -- It writes its own hour only.
    of_hour-other :
        (n k : ℕ) (table : List UsageRollup)
        → n ≢ k
        → find_rollup tenant_id "hourly" (days * day + k * hour) (of_hour n table)
          ≡ find_rollup tenant_id "hourly" (days * day + k * hour) table
    of_hour-other n k table differs =
        find_rollup-rollup_period-other "hourly" _ _ tenant_id "hourly" (days * day + k * hour)
          records table (ground arith)

    hourly_runs-other :
        (n k : ℕ) (table : List UsageRollup)
        → n ≤ k
        → find_rollup tenant_id "hourly" (days * day + k * hour) (hourly_runs n table)
          ≡ find_rollup tenant_id "hourly" (days * day + k * hour) table
    unfolding hourly_runs
    hourly_runs-other zero k table h = refl
    hourly_runs-other (suc n) k table h =
        ap (find_rollup tenant_id "hourly" (days * day + k * hour)) (hourly_runs-suc n table)
        ∙ of_hour-other n k (hourly_runs n table) (λ e. omega (arith, e))
        ∙ hourly_runs-other n k table (omega arith)

    hourly_runs-daily :
        (n start : ℕ) (table : List UsageRollup)
        → find_rollup tenant_id "daily" start (hourly_runs n table)
          ≡ find_rollup tenant_id "daily" start table
    unfolding hourly_runs
    hourly_runs-daily zero start table = refl
    hourly_runs-daily (suc n) start table =
        ap (find_rollup tenant_id "daily" start) (hourly_runs-suc n table)
        ∙ find_rollup-rollup_period-other "hourly" _ _ tenant_id "daily" start records
            (hourly_runs n table) refl
        ∙ hourly_runs-daily n start table

    -- One more job leaves the earlier hours' rows.
    sum_hours-of_hour :
        (c : Column) (n k : ℕ) (table : List UsageRollup)
        → k ≤ n
        → sum_hours tenant_id c k (of_hour n table) ≡ sum_hours tenant_id c k table
    unfolding sum_hours
    sum_hours-of_hour c n zero table h = refl
    sum_hours-of_hour c n (suc k) table h =
        ap₂ ◌+◌ (sum_hours-of_hour c n k table (omega arith))
          (ap (value c) (of_hour-other n k table (λ e. omega (arith, e))))

    sum_hours-total :
        (c : Column) (n : ℕ) (table : List UsageRollup)
        → ((k : ℕ) → find_rollup tenant_id "hourly" (days * day + k * hour) table ≡ none)
        → sum_hours tenant_id c n (hourly_runs n table)
          ≡ total tenant_id (days * day) (days * day + n * hour) c records
    unfolding sum_hours
    sum_hours-total c zero table absent =
        sym (total-empty tenant_id (days * day) (days * day + 0 * hour) c records (omega arith))
    sum_hours-total c (suc n) table absent =
        let midnight : ℕ = days * day in
        let before = hourly_runs n table in
        let start : ℕ = midnight + n * hour in
        let next : start + hour ≡ midnight + suc n * hour = omega arith in
        let split =
          total-split tenant_id midnight start (start + hour) c records (omega arith)
            (omega arith) in
        let own =
          value-rollup_period "hourly" start (start + hour) tenant_id c records before
            (hourly_runs-other n n table (omega arith) ∙ absent n) in
        rw (hourly_runs-suc n table) (
          omega (
            arith,
            sum_hours-of_hour c n n before (omega arith),
            sum_hours-total c n table absent,
            split,
            own,
            ap (λ (e : ℕ). total tenant_id midnight e c records) next,
          ))

    sum_hours-daily :
        (c : Column) (n start end_ : ℕ) (table : List UsageRollup)
        → sum_hours tenant_id c n (rollup_period "daily" start end_ records table).0
          ≡ sum_hours tenant_id c n table
    unfolding sum_hours
    sum_hours-daily c zero start end_ table = refl
    sum_hours-daily c (suc n) start end_ table = ap₂ ◌+◌ (sum_hours-daily c n start end_ table) (
        ap (value c) (
          find_rollup-rollup_period-other "daily" start end_ tenant_id "hourly"
            (days * day + n * hour) records table refl))

daily_usage_rollup_lem :
    (days delay : ℕ) (records : List Stored) (table : List UsageRollup)
    → delay < 23 * hour
    → (daily_usage_rollup (daily_instant (days * day) delay) records table).0
      ≡ (rollup_period "daily" (days * day) (days * day + day) records table).0
unfolding daily_usage_rollup
daily_usage_rollup_lem days delay records table h =
    ap (λ s. (rollup_period "daily" s (s + day) records table).0)
      (start_of_day-instant days delay h)

-- After the 24 hourly jobs and the daily job of a day, each hourly job less than 55 minutes and the daily job
-- less than 23 hours after the minute that the schedule sets for it, the daily row of a tenant is, in every
-- column, the sum of its 24 hourly rows, and both are the sum over the tenant's records of that day. The
-- table held no row of the tenant for that day or an hour of it before, and the records do not change meanwhile.
pub jobs_agree :
    (days delay : ℕ) (delays : ℕ → ℕ) (records : List Stored) (tenant_id : String) (c : Column)
    (table : List UsageRollup)
    → ((k : ℕ) → delays k < 55 * minute)
    → delay < 23 * hour
    → ((k : ℕ) → find_rollup tenant_id "hourly" (days * day + k * hour) table ≡ none)
    → find_rollup tenant_id "daily" (days * day) table ≡ none
    → let hourly = hourly_runs days delays records 24 table in
      let final = (daily_usage_rollup (daily_instant (days * day) delay) records hourly).0 in
      (value c (find_rollup tenant_id "daily" (days * day) final)
        ≡ sum_hours days delays records tenant_id c 24 final)
      × (value c (find_rollup tenant_id "daily" (days * day) final)
          ≡ total tenant_id (days * day) (days * day + day) c records)
jobs_agree days delay delays records tenant_id c table on_time in_time no_hourly no_daily =
    let hourly = hourly_runs days delays records 24 table in
    let own =
      value-rollup_period "daily" (days * day) (days * day + day) tenant_id c records hourly (
        hourly_runs-daily days delays records tenant_id on_time 24 (days * day) table ∙ no_daily) in
    let hours =
      sum_hours-daily days delays records tenant_id on_time c 24 (days * day) (days * day + day)
        hourly in
    let each = sum_hours-total days delays records tenant_id on_time c 24 table no_hourly in
    rw (daily_usage_rollup_lem days delay records hourly in_time) ((own ∙ sym (hours ∙ each), own))
