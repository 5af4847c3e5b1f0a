-- ===== src/Breaker/Laws.antt =====
-- When the circuit opens, how long it refuses calls, and how many probes it lets through.
use native.Mathlib.Decide.{dec_lt}
use aegis_gateway.Prelude.{
  ℕ, suc, ◌+◌, ◌≤◌, ◌≡◌, refl, ap, ◌∙◌, Bool-cases, leb→le, ◌≢◌, ◌⊎◌, inl, inr, true, some, List,
  [], ◌∷◌, arith, leb, length, if◌then◌else◌, ltb,
}
use aegis_gateway.Breaker.{
  closed, opened, half_open, Breaker, Admission, admitted, refused_open, before_call,
  record_success, record_failure,
}
use aegis_gateway.Breaker.Invariant.{IsValid, before, apply-IsValid, before_call_of_IsValid}

-- Failures with nothing in between, at the given times.
pub fail_all : List ℕ → Breaker → Breaker
fail_all [] b = b
fail_all (now ∷ times) b = fail_all times (record_failure now b)

fail_all-counts :
    (times : List ℕ) (b : Breaker)
    → ((fail_all times b).failure_count ≡ b.failure_count + length times)
      × ((fail_all times b).failure_threshold ≡ b.failure_threshold)
unfolding fail_all record_failure
fail_all-counts [] b = omega arith
fail_all-counts (now ∷ times) b = ground (arith, fail_all-counts times (record_failure now b))

fail_all-opened :
    (times : List ℕ) (b : Breaker)
    → b.state ≡ opened
    → b.failure_threshold ≤ b.failure_count
    → (fail_all times b).state ≡ opened
unfolding fail_all record_failure
fail_all-opened [] b o h = o
fail_all-opened (now ∷ times) b o h =
    fail_all-opened times (record_failure now b) (ground arith) (ground arith)

fail_all-state :
    (now : ℕ) (times : List ℕ) (b : Breaker)
    → b.state ≡ closed
    → (fail_all (now ∷ times) b).state
      ≡ (if leb b.failure_threshold (b.failure_count + suc (length times)) then opened else closed)
unfolding fail_all record_failure
fail_all-state now [] b c = ground arith
fail_all-state now (next ∷ times) b c = elim (dec_lt (b.failure_count + 1) b.failure_threshold) [
  | yes below ↦ ground (arith, fail_all-state next times (record_failure now b))
  | no reached ↦ ground (arith, fail_all-opened (next ∷ times) (record_failure now b))
]

trips_at_threshold :
    (now : ℕ) (times : List ℕ) (b : Breaker)
    → (fail_all (now ∷ times) (record_success b)).state
      ≡ (if leb b.failure_threshold (suc (length times)) then opened else closed)
unfolding record_success
trips_at_threshold now times b = ground (arith, fail_all-state now times (record_success b))

recovery_window :
    (now since : ℕ) (b : Breaker)
    → b.state ≡ opened
    → b.opened_at ≡ some since
    → before_call now b ≡ (
        if ltb now (since + b.recovery_timeout)
        then (b, refused_open)
        else (record b { state = half_open; half_open_probe_in_flight = true }, admitted))
unfolding before_call
recovery_window now since b o s = ground arith

before_call-closed : (now : ℕ) (b : Breaker) → b.state ≡ closed → before_call now b ≡ (b, admitted)
unfolding before_call
before_call-closed now b h = ground arith

-- The time of the last failure.
abbrev pub last : ℕ → List ℕ → ℕ
last now [] = now
last now (next ∷ times) = last next times

fail_all-opened_at :
    (now : ℕ) (times : List ℕ) (b : Breaker)
    → b.failure_threshold ≤ b.failure_count + suc (length times)
    → (fail_all (now ∷ times) b).opened_at ≡ some (last now times)
unfolding fail_all record_failure
fail_all-opened_at now [] b h = ground arith
fail_all-opened_at now (next ∷ times) b h =
    fail_all-opened_at next times (record_failure now b) (ground arith)

fail_all-recovery_timeout :
    (times : List ℕ) (b : Breaker) → (fail_all times b).recovery_timeout ≡ b.recovery_timeout
unfolding fail_all record_failure
fail_all-recovery_timeout [] b = refl
fail_all-recovery_timeout (now ∷ times) b =
    ground (arith, fail_all-recovery_timeout times (record_failure now b))

-- A success and `1 + length times` failures in a row leave the circuit open exactly if they are at
-- least `failure_threshold`, and otherwise closed, so that it lets every call through. The open
-- circuit refuses every call until `recovery_timeout` after the last failure, and stays as it is; the first
-- call from then on is let through as the probe of a half-open circuit.
pub trips_and_recovers :
    (now : ℕ) (times : List ℕ) (later : ℕ) (b : Breaker)
    → let c = fail_all (now ∷ times) (record_success b) in
      let tripped = leb b.failure_threshold (suc (length times)) in
      (c.state ≡ (if tripped then opened else closed))
      × (before_call later c ≡ (
          if tripped
          then (if ltb later (last now times + b.recovery_timeout)
              then (c, refused_open)
              else (record c { state = half_open; half_open_probe_in_flight = true }, admitted))
          else (c, admitted)))
unfolding record_success
trips_and_recovers now times later b =
    let c = fail_all (now ∷ times) (record_success b) in
    let state = trips_at_threshold now times b in
    elim (Bool-cases (leb b.failure_threshold (suc (length times)))) [
      | inl tripped ↦
          let is_open : c.state ≡ opened = state ∙ ap (λ t. if t then opened else closed) tripped in
          let since =
            fail_all-opened_at now times (record_success b)
              (omega (arith, leb→le b.failure_threshold (suc (length times)) tripped)) in
          let window = recovery_window later (last now times) c is_open since in
          let timeout = fail_all-recovery_timeout (now ∷ times) (record_success b) in
          simp tripped (
            (
              is_open,
              window
                  ∙ ap
                      (λ w. if ltb later (last now times + w) then (c, refused_open) else (
                        record c { state = half_open; half_open_probe_in_flight = true },
                        admitted,
                      ))
                      timeout,
            ))
      | inr below ↦
          let is_closed : c.state ≡ closed = state ∙ ap (λ t. if t then opened else closed) below in
          simp below ((is_closed, before_call-closed later c is_closed))
    ]

abbrev count_admitted : Admission → ℕ → ℕ
count_admitted admitted n = suc n
count_admitted _ n = n

-- Callers that arrive at the given times, before any of them reports back: how many get through.
pub admissions : List ℕ → Breaker → ℕ
admissions [] b = 0
admissions (now ∷ times) b =
    count_admitted (before_call now b).1 (admissions times (before_call now b).0)

admissions_of_half_open :
    (times : List ℕ) (b : Breaker) → IsValid b → b.state ≡ half_open → admissions times b ≡ 0
unfolding admissions
admissions_of_half_open [] b h s = refl
admissions_of_half_open (now ∷ times) b h s =
    rw ((before_call_of_IsValid now b h).1 s) (admissions_of_half_open times b h s)

-- A caller of a circuit that is not closed changes nothing and is refused, or becomes its probe.
knock :
    (now : ℕ) (b : Breaker)
    → b.state ≢ closed
    → ((count_admitted (before_call now b).1 0 ≡ 0) × ((before_call now b).0 ≡ b))
      ⊎ ((before_call now b).0.state ≡ half_open)
unfolding before_call
knock now b s = ground arith

count_admitted-le : (a : Admission) (n : ℕ) → count_admitted a n ≤ suc n
count_admitted-le a n = ground arith

count_admitted-zero : (a : Admission) (n : ℕ) → count_admitted a 0 ≡ 0 → count_admitted a n ≡ n
count_admitted-zero a n h = ground arith

pub single_probe :
    (times : List ℕ) (b : Breaker) → IsValid b → b.state ≢ closed → admissions times b ≤ 1
unfolding admissions
single_probe [] b h s = omega arith
single_probe (now ∷ times) b h s = elim (knock now b s) [
  | inl (refused, same) ↦
      rw (count_admitted-zero _ (admissions times (before_call now b).0) refused)
        (rw same (single_probe times b h s))
  | inr probing ↦ omega (
    arith,
    count_admitted-le (before_call now b).1 (admissions times (before_call now b).0),
    admissions_of_half_open times (before_call now b).0 (apply-IsValid (before now) b h) probing,
  )
]
