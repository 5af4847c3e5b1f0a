-- ===== src/Upstream/Outage.antt =====
-- Concurrent calls over one shared breaker, as interleavings of their steps: a call knocks
-- (`before_call`), is refused or runs, and at its end settles with the breaker. What calls
-- do in between (the HTTP request, the sleeps) does not touch the breaker.
use aegis_gateway.Prelude.{
  ℕ, suc, List, ◌≤◌, ◌+◌, ◌≡◌, refl, ◌≢◌, ◌⊎◌, inl, inr, some, String, arith, ap, ◌∙◌,
}
use aegis_gateway.Breaker.{
  CircuitState, closed, opened, half_open, Breaker, admitted, refused_probing, before_call,
  record_success, record_failure,
}
use aegis_gateway.Breaker.Invariant.{
  IsValid, before, failure, success, apply-IsValid, before_call_of_IsValid,
}
use aegis_gateway.Breaker.Laws.{admissions, single_probe}
use aegis_gateway.Retry.{Exn, timeout, connect, other, status, Attempt, returned, raised}
use aegis_gateway.Upstream.{settle}

CircuitState-discrete : Discrete CircuitState
CircuitState-discrete = hlevel

pub record System : Type 0 where
  pub breaker : Breaker
  pub running : ℕ

pub data Step (s : System) : System → Type 0 where
  refuse :
      (now : ℕ)
      → (before_call now s.breaker).1 ≢ admitted
      → Step s (record s { breaker = (before_call now s.breaker).0 })
  admit :
      (now : ℕ)
      → (before_call now s.breaker).1 ≡ admitted
      → Step s (record { breaker = (before_call now s.breaker).0; running = s.running + 1 })
  end :
      (now left : ℕ) (result : Attempt String)
      → s.running ≡ suc left
      → Step s (record { breaker = (settle now result s.breaker).breaker; running = left })

pub data Reach (s : System) : System → Type 0 where
  here : Reach s s
  next : {t u : System} → Reach s t → Step t u → Reach s u

settle-IsValid :
    (now : ℕ) (result : Attempt String) (b : Breaker)
    → IsValid b
    → IsValid (settle now result b).breaker
unfolding settle
settle-IsValid now (returned a) b h = apply-IsValid success b h
settle-IsValid now (raised (timeout m)) b h = apply-IsValid (failure now) b h
settle-IsValid now (raised (connect m)) b h = apply-IsValid (failure now) b h
settle-IsValid now (raised (status code body)) b h = apply-IsValid (failure now) b h
settle-IsValid now (raised (other m)) b h = h

pub Step-IsValid : {s t : System} → Step s t → IsValid s.breaker → IsValid t.breaker
Step-IsValid {s} (refuse now r) h = apply-IsValid (before now) s.breaker h
Step-IsValid {s} (admit now a) h = apply-IsValid (before now) s.breaker h
Step-IsValid {s} (end now left result e) h = settle-IsValid now result s.breaker h

Reach-keeps : {s t : System} → IsValid s.breaker → Reach s t → IsValid t.breaker
Reach-keeps h here = h
Reach-keeps h (next r st) = Step-IsValid st (Reach-keeps h r)

probes : (times : List ℕ) (b : Breaker) → IsValid b → (b.state ≡ closed) ⊎ (admissions times b ≤ 1)
probes times b h = elim (CircuitState-discrete b.state closed) [
  | yes c ↦ inl c
  | no not_closed ↦ inr (single_probe times b h not_closed)
]

-- Any interleaving of calls over a valid breaker leaves it valid: an open circuit has its time
-- stamp, the probe flag is set exactly while the circuit is half-open, and a closed circuit has
-- counted no failure or fewer than the threshold. And if the circuit is not closed then, at most one of
-- any number of callers gets through before one of them reports a success or a failure.
pub Reach-IsValid :
    {s t : System} (times : List ℕ)
    → IsValid s.breaker
    → Reach s t
    → IsValid t.breaker × ((t.breaker.state ≡ closed) ⊎ (admissions times t.breaker ≤ 1))
Reach-IsValid {t} times h r = let valid = Reach-keeps h r in (valid, probes times t.breaker valid)

pub record IsStuck (s t : System) : Type 0 where
  pub same : t.breaker ≡ s.breaker
  pub idle : t.running ≡ 0

half_open_stays :
    (now : ℕ) {s t : System}
    → IsValid s.breaker
    → s.breaker.state ≡ half_open
    → IsStuck s t
    → before_call now t.breaker ≡ (t.breaker, refused_probing)
half_open_stays now {s} h o k = rw (k.same) ((before_call_of_IsValid now s.breaker h).1 o)

Step-IsStuck :
    {s t u : System}
    → IsValid s.breaker
    → s.breaker.state ≡ half_open
    → IsStuck s t
    → Step t u
    → IsStuck s u
Step-IsStuck h o k (refuse now r) = record {
  same = ap (λ p. p.0) (half_open_stays now h o k) ∙ k.same;
  idle = k.idle;
}
Step-IsStuck h o k (admit now a) = cc (a, ap (λ p. p.1) (half_open_stays now h o k))
Step-IsStuck h o k (end now left result e) = absurd (omega (arith, k.idle))

Reach-IsStuck :
    {s t u : System}
    → IsValid s.breaker
    → s.breaker.state ≡ half_open
    → IsStuck s t
    → Reach t u
    → IsStuck s u
Reach-IsStuck h o k here = k
Reach-IsStuck h o k (next r st) = Step-IsStuck h o (Reach-IsStuck h o k r) st

-- The state after the one running call, the probe of a half-open circuit, ended by an exception
-- that `_run_with_breaker` has no clause for.
abbrev pub after_escape : ℕ → String → System → System
after_escape now message s = record {
  breaker = (settle {A = String} now (raised (other message)) s.breaker).breaker;
  running = 0;
}

-- If the probe of a half-open circuit is the only running call and ends by an exception that
-- `_run_with_breaker` has no clause for, then in every state that any later calls can reach the
-- breaker is unchanged, and it refuses every further call, at whatever time.
pub permanent_outage :
    (now : ℕ) (message : String) (s u : System)
    → IsValid s.breaker
    → s.breaker.state ≡ half_open
    → Reach (after_escape now message s) u
    → (u.breaker ≡ s.breaker)
      × ((later : ℕ) → before_call later u.breaker ≡ (u.breaker, refused_probing))
unfolding settle
permanent_outage now message s u h o r =
    let k = Reach-IsStuck {s = s} h o (record { same = refl; idle = refl }) r in
    (k.same, λ later. half_open_stays later h o k)

-- Any other end of the probe of a half-open circuit, a value or one of the three exceptions that
-- are caught, takes the circuit out of half-open: it closes on a value and opens again, stamped
-- with the time, on a failure.
pub probe_resolves :
    (now : ℕ) (result : Attempt String) (b : Breaker)
    → b.state ≡ half_open
    → ((m : String) → result ≢ raised (other m))
    → ((a : String) × (result ≡ returned a) × ((settle now result b).breaker.state ≡ closed))
      ⊎ ((e : Exn) × (result ≡ raised e)
          × ((settle now result b).breaker.state ≡ opened)
          × ((settle now result b).breaker.opened_at ≡ some now))
unfolding settle record_success record_failure
probe_resolves now (returned a) b o h = inl (a, refl, refl)
probe_resolves now (raised (timeout m)) b o h = inr (timeout m, refl, ground arith, ground arith)
probe_resolves now (raised (connect m)) b o h = inr (connect m, refl, ground arith, ground arith)
probe_resolves now (raised (status code body)) b o h =
    inr (status code body, refl, ground arith, ground arith)
probe_resolves now (raised (other m)) b o h = absurd (h m refl)
