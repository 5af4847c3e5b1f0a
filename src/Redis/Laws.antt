-- ===== src/Redis/Laws.antt =====
-- The laws of the tables, and what the idempotency lock excludes.
use aegis_gateway.Prelude.{
  ℕ, ◌+◌, ◌*◌, ◌≡◌, refl, String, true, false, Option, none, some, ltb, ◌≟◌, eq_iff, if◌then◌else◌,
  arith, inl, inr, Bool-cases, Option-cases, ap, ◌∙◌, leb, sym,
}
use aegis_gateway.Redis.{
  Entry, Redis, get, put, del, lock_ttl_seconds, try_acquire_lock, release_lock,
}

module _ (now later : ℕ) (key k value : String) (seconds : ℕ) (table : String → Option Entry) where
  pub get-put : get later k (put now key value seconds table) ≡ (
      if key ≟ k
      then (if ltb later (now + seconds * 1_000_000) then some value else none)
      else get later k table)
  unfolding get put
  get-put = elim (Bool-cases (key ≟ k)) [ inl same ↦ rw same | inr other ↦ rw other ]

module _ (now : ℕ) (key k : String) (table : String → Option Entry) where
  pub get-del : get now k (del key table) ≡ (if key ≟ k then none else get now k table)
  unfolding get del
  get-del = elim (Bool-cases (key ≟ k)) [ inl same ↦ rw same | inr other ↦ rw other ]

pub eq_self : (s : String) → (s ≟ s) ≡ true
eq_self s = (eq_iff s s).1 refl

pub get-put_self :
    (now later : ℕ) (key value : String) (seconds : ℕ) (table : String → Option Entry)
    → get later key (put now key value seconds table)
      ≡ (if ltb later (now + seconds * 1_000_000) then some value else none)
get-put_self now later key value seconds table =
    get-put now later key key value seconds table ∙ rw (eq_self key)

pub get-del_self :
    (now : ℕ) (key : String) (table : String → Option Entry) → get now key (del key table) ≡ none
get-del_self now key table = get-del now key key table ∙ rw (eq_self key)

pub get-release_lock :
    (now : ℕ) (key : String) (r : Redis) → get now key (release_lock key r).locks ≡ none
unfolding release_lock
get-release_lock now key r = get-del_self now key r.locks

module _ (now : ℕ) (key : String) (r : Redis) where
  abbrev pub locked : Redis
  locked = record r { locks = put now key "1" lock_ttl_seconds r.locks }

  pub try_acquire_lock-free :
      get now key r.locks ≡ none → try_acquire_lock now key r ≡ (locked, true)
  unfolding try_acquire_lock
  try_acquire_lock-free e = rw e

  pub try_acquire_lock-held :
      {v : String} → get now key r.locks ≡ some v → try_acquire_lock now key r ≡ (r, false)
  unfolding try_acquire_lock
  try_acquire_lock-held e = rw e

  pub locked_of_acquired :
      (try_acquire_lock now key r).1 ≡ true → (try_acquire_lock now key r).0 ≡ locked
  locked_of_acquired h = elim (Option-cases (get now key r.locks)) [
    | inl free ↦ ap (λ p. p.0) (try_acquire_lock-free free)
    | inr (v, held) ↦ cc (h, ap (λ p. p.1) (try_acquire_lock-held held))
  ]

-- Once a request has taken the lock of its key, another with that key is refused for 60 seconds, as long
-- as the lock is not released; from then on, or once it is released, the next one gets the lock,
-- whether or not the first has finished.
pub lock_excludes :
    (now later : ℕ) (key : String) (r : Redis)
    → (try_acquire_lock now key r).1 ≡ true
    → let held = (try_acquire_lock now key r).0 in
      ((try_acquire_lock later key held).1 ≡ leb (now + 60_000_000) later)
      × ((try_acquire_lock later key (release_lock key held)).1 ≡ true)
lock_excludes now later key r h =
    let mine = locked_of_acquired now key r h in
    rw mine (
      elim (Bool-cases (leb (now + 60_000_000) later)) [
        | inl late ↦
            ap (λ p. p.1)
              (try_acquire_lock-free later key _
                (get-put_self now later key "1" 60 r.locks ∙ ground arith))
            ∙ sym late
        | inr early ↦
            ap (λ p. p.1)
              (try_acquire_lock-held later key _ {v = "1"}
                (get-put_self now later key "1" 60 r.locks ∙ ground arith))
            ∙ sym early
      ],
      ap (λ p. p.1)
          (try_acquire_lock-free later key _ (get-release_lock later key (locked now key r))),
    )
