-- ===== src/RateLimit/Budget.antt =====
-- `_BUDGET_LUA` and `check_and_reserve_budget`: one key for each tenant and month. Spend is in units of
-- 10^-8 US dollars; the lifetime of a key, 40 days, is longer than its month, and is not modelled.
use aegis_gateway.Prelude.{
  ℕ, ◌+◌, ◌≤◌, ◌<◌, ◌≡◌, true, false, Option, none, some, List, [], ◌∷◌, ltb, if◌then◌else◌, arith,
  sum_of,
}
use aegis_gateway.RateLimit.Bucket.{LimitResult}

-- `tonumber(redis.call('GET', budget_key) or '0')`
abbrev pub current : Option ℕ → ℕ
current none = 0
current (some spend) = spend

-- The new value of the key, and the result.
unfoldable pub check_and_reserve_budget : ℕ → ℕ → Option ℕ → Option ℕ × LimitResult
check_and_reserve_budget increment limit key =
    let new_value = current key + increment in
    if ltb limit new_value
    then (key, record { allowed = false; remaining = current key })
    else (some new_value, record { allowed = true; remaining = new_value })

-- Reservations on one key, in the order in which Redis runs the script: the increments that were
-- allowed, and the key at the end.
abbrev reserved : LimitResult → ℕ → List ℕ → List ℕ
reserved r increment later = if r.allowed then increment ∷ later else later

pub reserve_all : ℕ → List ℕ → Option ℕ → List ℕ × Option ℕ
reserve_all limit [] key = ([], key)
reserve_all limit (increment ∷ increments) key =
    let (key', r) = check_and_reserve_budget increment limit key in
    let (later, last) = reserve_all limit increments key' in (reserved r increment later, last)

-- The sum of the allowed reservations, and their bound.
reserve_all_both :
    (limit : ℕ) (increments : List ℕ) (key : Option ℕ)
    → (current key + sum_of (λ n. n) (reserve_all limit increments key).0
        ≡ current (reserve_all limit increments key).1)
      × (current key ≤ limit → current (reserve_all limit increments key).1 ≤ limit)
unfolding reserve_all check_and_reserve_budget
reserve_all_both limit [] key = (omega arith, λ h. h)
reserve_all_both limit (increment ∷ increments) key = ground (
  arith,
  reserve_all_both limit increments key,
  reserve_all_both limit increments (some (current key + increment)),
)

-- If a tenant's spend is within the limit, then however many requests race for the budget, the
-- reservations that are allowed, together with what was spent before, are what the key holds at
-- the end, and that is within the limit.
pub reserve_all-within :
    (limit : ℕ) (increments : List ℕ) (key : Option ℕ)
    → current key ≤ limit
    → (current key + sum_of (λ n. n) (reserve_all limit increments key).0
        ≡ current (reserve_all limit increments key).1)
      × (current (reserve_all limit increments key).1 ≤ limit)
reserve_all-within limit increments key within =
    let both = reserve_all_both limit increments key in (both.0, both.1 within)

-- A refused reservation leaves the key alone, and is refused only because it would pass the limit.
pub reserve_refused :
    (increment limit : ℕ) (key : Option ℕ)
    → (check_and_reserve_budget increment limit key).1.allowed ≡ false
    → ((check_and_reserve_budget increment limit key).0 ≡ key) × (limit < current key + increment)
unfolding check_and_reserve_budget
reserve_refused increment limit key h = ground arith
