-- ===== src/RateLimit/Slots/Laws.antt =====
-- The concurrency counter, one request at a time.
use aegis_gateway.Prelude.{
  ℕ, zero, suc, ◌≡◌, refl, true, false, not, Bool-cases, inl, inr, ap, ◌∙◌, Option, some,
  if◌then◌else◌, arith,
}
use aegis_gateway.RateLimit.Slots.{
  ℤ, pos, negsuc, incr, decr, exceeds, Counter, found, incr_key, decr_key, acquire_concurrency_slot,
  release_concurrency_slot,
}

-- The count that a command at `now` finds.
unfoldable pub slots : ℕ → Option Counter → ℤ
slots now key = (found now key).value

decr-incr : (z : ℤ) → decr (incr z) ≡ z
unfolding decr incr
decr-incr (pos n) = refl
decr-incr (negsuc zero) = refl
decr-incr (negsuc (suc n)) = refl

found-incr_key :
    (now : ℕ) (key : Option Counter) → found now (some (incr_key now key)) ≡ incr_key now key
unfolding found incr_key
found-incr_key now key = ground arith

pub value-incr_key :
    (now : ℕ) (key : Option Counter) → (incr_key now key).value ≡ incr (slots now key)
unfolding incr_key slots
value-incr_key now key = refl

value-decr_key : (now : ℕ) (key : Option Counter) → (decr_key now key).value ≡ decr (slots now key)
unfolding decr_key slots
value-decr_key now key = refl

found-decr_key :
    (now : ℕ) (key : Option Counter) → found now (some (decr_key now key)) ≡ decr_key now key
unfolding found decr_key
found-decr_key now key = ground arith

pub slots-decr_key :
    (now : ℕ) (key : Option Counter) → slots now (some (decr_key now key)) ≡ decr (slots now key)
unfolding slots
slots-decr_key now key =
    ap (λ (c : Counter). c.value) (found-decr_key now key) ∙ value-decr_key now key

pub slots-incr_key :
    (now : ℕ) (key : Option Counter) → slots now (some (incr_key now key)) ≡ incr (slots now key)
unfolding slots
slots-incr_key now key =
    ap (λ (c : Counter). c.value) (found-incr_key now key) ∙ value-incr_key now key

slots-decr-incr :
    (now : ℕ) (key : Option Counter)
    → slots now (some (decr_key now (some (incr_key now key)))) ≡ slots now key
slots-decr-incr now key =
    slots-decr_key now (some (incr_key now key))
    ∙ ap decr (slots-incr_key now key)
    ∙ decr-incr (slots now key)

-- A slot that is refused leaves the count as it found it, and it is refused exactly if the count
-- is at the limit or above. A slot that is given raises the count by one, and releasing it at once
-- restores the count.
pub acquire_lem :
    (now limit : ℕ) (key : Option Counter)
    → let r = acquire_concurrency_slot now limit key in
      (r.1 ≡ false → slots now (some r.0) ≡ slots now key)
      × (r.1 ≡ true → slots now (some (release_concurrency_slot now (some r.0))) ≡ slots now key)
      × (r.1 ≡ not (exceeds (incr (slots now key)) limit))
unfolding acquire_concurrency_slot release_concurrency_slot
acquire_lem now limit key =
    let back = slots-decr-incr now key in
    elim (Bool-cases (exceeds (incr_key now key).value limit)) [
      | inl over ↦
          let over' : exceeds (incr (slots now key)) limit ≡ true =
            rw (value-incr_key now key) at over in
          rw over (λ _. back, λ e. cc, rw over')
      | inr fits ↦
          let fits' : exceeds (incr (slots now key)) limit ≡ false =
            rw (value-incr_key now key) at fits in
          rw fits (λ e. cc, λ _. back, rw fits')
    ]

pub slots-acquire :
    (now limit : ℕ) (key : Option Counter)
    → (acquire_concurrency_slot now limit key).1 ≡ true
    → slots now (some (acquire_concurrency_slot now limit key).0) ≡ incr (slots now key)
unfolding acquire_concurrency_slot
slots-acquire now limit key = elim (Bool-cases (exceeds (incr_key now key).value limit)) [
  | inl over ↦ rw over (λ e. cc)
  | inr fits ↦ rw fits (λ _. slots-incr_key now key)
]

-- Acquiring a slot succeeds exactly if the count, one larger, does not exceed the limit. It raises the
-- count by one if it succeeds, and leaves the count as it found it if not.
pub acquire_count :
    (now limit : ℕ) (key : Option Counter)
    → ((acquire_concurrency_slot now limit key).1 ≡ not (exceeds (incr (slots now key)) limit))
      × (slots now (some (acquire_concurrency_slot now limit key).0) ≡ (
          if (acquire_concurrency_slot now limit key).1
          then incr (slots now key)
          else slots now key))
acquire_count now limit key =
    let r = acquire_concurrency_slot now limit key in
    (
      (acquire_lem now limit key).2,
      elim (Bool-cases r.1) [
        | inl given ↦ rw given (slots-acquire now limit key given)
        | inr refused ↦ rw refused ((acquire_lem now limit key).0 refused)
      ],
    )
