-- ===== src/Breaker/Tests.antt =====
-- Breakers on concrete inputs.
use aegis_gateway.Prelude.{◌≡◌, refl, [], ◌∷◌, some, false, arith}
use aegis_gateway.Breaker.{
  Breaker, opened, new, before_call, record_success, record_failure, refused_open,
}
use aegis_gateway.Breaker.Invariant.{IsValid}
use aegis_gateway.Breaker.Laws.{fail_all, trips_and_recovers}

-- Opened at time 20 by its second failure.
abbrev tripped : Breaker
tripped = record {
  failure_threshold = 2;
  recovery_timeout = 30;
  state = opened;
  failure_count = 2;
  opened_at = some 20;
  half_open_probe_in_flight = false;
}

tripped-IsValid : IsValid tripped
tripped-IsValid = ground arith

trips_and_recovers_example :
    let c = fail_all (10 ∷ 20 ∷ []) (record_success tripped) in
    (c.state ≡ opened) × (before_call 49 c ≡ (c, refused_open))
trips_and_recovers_example = trips_and_recovers 10 (20 ∷ []) 49 tripped

-- The second failure opens the circuit, and the probe of its first call after that closes it.
trips : record_failure 20 (record_failure 10 (new 2 30)) ≡ tripped
unfolding new record_failure
trips = refl
