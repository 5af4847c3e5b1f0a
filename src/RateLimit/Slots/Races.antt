-- ===== src/RateLimit/Slots/Races.antt =====
-- Requests of one tenant that race for its slots: INCR and the DECR of a refusal are separate commands,
-- so others may come between them. The counter's key does not expire here.
use aegis_gateway.Prelude.{
  ℕ, suc, ◌+◌, ◌≤◌, ◌<◌, ◌≡◌, refl, true, false, Option, none, some, arith, ap, ◌∙◌,
}
use aegis_gateway.RateLimit.Slots.{
  ℤ, pos, incr, decr, exceeds, Counter, concurrency_key_ttl, found, incr_key, decr_key,
  acquire_concurrency_slot, release_concurrency_slot,
}
use aegis_gateway.RateLimit.Slots.Laws.{slots, value-incr_key, slots-decr_key, slots-incr_key}

-- The requests that hold a slot, and those that were refused and have not yet sent their DECR.
pub record System : Type 0 where
  pub key : Option Counter
  pub holders : ℕ
  pub refused : ℕ

-- The key is missing or alive: a command at `now` finds what the last one left.
abbrev pub IsKept : ℕ → ℕ → Option Counter → Type 0
IsKept before now key = slots now key ≡ slots before key

-- A step of some request, at a time at which the key has not expired since the step before.
pub data Step (limit : ℕ) : ℕ → System → ℕ → System → Type 0 where
  enter :
      {before : ℕ} {s : System} (now : ℕ)
      → IsKept before now s.key
      → exceeds (incr_key now s.key).value limit ≡ false
      → Step limit before s now
          (record { key = some (incr_key now s.key); holders = s.holders + 1; refused = s.refused })
  overshoot :
      {before : ℕ} {s : System} (now : ℕ)
      → IsKept before now s.key
      → exceeds (incr_key now s.key).value limit ≡ true
      → Step limit before s now
          (record { key = some (incr_key now s.key); holders = s.holders; refused = s.refused + 1 })
  back_out :
      {before : ℕ} {s : System} (now left : ℕ)
      → IsKept before now s.key
      → s.refused ≡ suc left
      → Step limit before s now
          (record { key = some (decr_key now s.key); holders = s.holders; refused = left })
  release :
      {before : ℕ} {s : System} (now left : ℕ)
      → IsKept before now s.key
      → s.holders ≡ suc left
      → Step limit before s now (record {
        key = some (release_concurrency_slot now s.key);
        holders = left;
        refused = s.refused;
      })

abbrev pub idle : System
idle = record { key = none; holders = 0; refused = 0 }

pub data Reach (limit : ℕ) : ℕ → System → Type 0 where
  start : (now : ℕ) → Reach limit now idle
  later :
      {before now : ℕ} {s t : System}
      → Reach limit before s
      → Step limit before s now t
      → Reach limit now t

pub record IsCounted (limit now : ℕ) (s : System) : Type 0 where
  pub count : slots now s.key ≡ pos (s.holders + s.refused)
  pub capped : s.holders ≤ limit

exceeds-le : (z : ℤ) (n limit : ℕ) → z ≡ pos n → exceeds z limit ≡ false → n ≤ limit
exceeds-le z n limit e h = ground arith

module _ (now : ℕ) (key : Option Counter) (n : ℕ) where
  value-incr : slots now key ≡ pos n → (incr_key now key).value ≡ pos (suc n)
  unfolding incr
  value-incr e = value-incr_key now key ∙ ap incr e

  count-incr : slots now key ≡ pos n → slots now (some (incr_key now key)) ≡ pos (suc n)
  unfolding incr
  count-incr e = slots-incr_key now key ∙ ap incr e

  count-decr : slots now key ≡ pos (suc n) → slots now (some (decr_key now key)) ≡ pos n
  unfolding decr
  count-decr e = slots-decr_key now key ∙ ap decr e

Step-IsCounted :
    {limit before now : ℕ} {s t : System}
    → Step limit before s now t
    → IsCounted limit before s
    → IsCounted limit now t
unfolding release_concurrency_slot
Step-IsCounted {limit} {s} (enter now kept fits) h = record {
  count = count-incr now s.key _ (kept ∙ h.count) ∙ ap pos (omega arith);
  capped = omega (arith, exceeds-le _ _ limit (value-incr now s.key _ (kept ∙ h.count)) fits);
}
Step-IsCounted {limit} {s} (overshoot now kept over) h = record {
  count = count-incr now s.key _ (kept ∙ h.count) ∙ ap pos (omega arith);
  capped = h.capped;
}
Step-IsCounted {limit} {s} (back_out now left kept e) h = record {
  count = count-decr now s.key (s.holders + left) (kept ∙ h.count ∙ ap pos (omega arith));
  capped = h.capped;
}
Step-IsCounted {limit} {s} (release now left kept e) h = record {
  count = count-decr now s.key (left + s.refused) (kept ∙ h.count ∙ ap pos (omega arith));
  capped = omega (arith, h.capped);
}

-- Under any interleaving of a tenant's requests the counter is the number of requests that hold a slot
-- plus those whose refusal has not yet sent its DECR; and however they race, no more than `limit`
-- hold a slot at once, as long as the key does not expire.
pub Reach-IsCounted : {limit now : ℕ} {s : System} → Reach limit now s → IsCounted limit now s
unfolding slots found
Reach-IsCounted (start now) = record { count = refl; capped = omega arith }
Reach-IsCounted (later r st) = Step-IsCounted st (Reach-IsCounted r)

-- Once the counter's key has expired, whatever count it had, the next request is admitted under
-- any positive limit, and the count starts again at 1.
pub expired_admits :
    (now limit expires_at : ℕ) (count : ℤ)
    → 0 < limit
    → expires_at ≤ now
    → acquire_concurrency_slot now limit
        (some (record { value = count; expires_at = some expires_at }))
      ≡ (record { value = pos 1; expires_at = some (now + concurrency_key_ttl) }, true)
unfolding acquire_concurrency_slot incr_key found incr
expired_admits now limit expires_at count h k = ground arith
