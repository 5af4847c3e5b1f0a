-- ===== src/RateLimit/Bucket/Laws.antt =====
-- What a token bucket lets through over time, with the capacity and the refill of a limit per minute.
use aegis_gateway.Prelude.{
  ℕ, ◌+◌, ◌-◌, ◌*◌, ◌≤◌, ◌≡◌, refl, Option, none, some, List, [], ◌∷◌, leb, ltb, if◌then◌else◌,
  arith, inl, inr, Bool-cases,
}
use aegis_gateway.RateLimit.Bucket.{
  Bucket, LimitResult, token, bucket_key_ttl, refilled, spent, check_token_bucket,
}

-- One call of the script for a limit per minute, as `enforce_request_limits` makes it.
abbrev pub check : ℕ → ℕ → ℕ → Option Bucket → Bucket × LimitResult
check limit now requested key = check_token_bucket now (limit * token) limit requested key

-- A key as the script leaves it.
pub record IsStored (limit : ℕ) (b : Bucket) : Type 0 where
  pub within : b.tokens ≤ limit * token
  pub expiry : b.expires_at ≡ b.updated_at + bucket_key_ttl

pub check-IsStored :
    (limit now requested : ℕ) (key : Option Bucket)
    → IsStored limit (check limit now requested key).0
unfolding check_token_bucket
check-IsStored limit now requested none = ground arith
check-IsStored limit now requested (some b) = ground arith

full-refill : (limit u now : ℕ) → u + token ≤ now → limit * token ≤ (now - u) * limit
full-refill limit u now h = grind arith

-- A minute after the last call a bucket is full, whatever it held.
refilled-full :
    (limit now : ℕ) (b : Bucket)
    → b.updated_at + token ≤ now
    → refilled now (limit * token) limit (some b) ≡ limit * token
unfolding refilled
refilled-full limit now b h = omega (arith, full-refill limit b.updated_at now h)

refilled-missing : (limit now : ℕ) → refilled now (limit * token) limit none ≡ limit * token
unfolding refilled
refilled-missing limit now = omega arith

-- A key that the script stored, expired or not, gives the result and the new bucket that it would
-- give if it never expired.
pub expiry_invisible :
    (limit now requested : ℕ) (b : Bucket)
    → IsStored limit b
    → check limit now requested (some b)
      ≡ spent now (refilled now (limit * token) limit (some b)) requested
unfolding check_token_bucket
expiry_invisible limit now requested b h = elim (Bool-cases (ltb now b.expires_at)) [
  | inl alive ↦ rw alive
  | inr gone ↦
      rw gone (
        rw (refilled-missing limit now) (rw (refilled-full limit now b (ground (arith, h.expiry)))))
]

abbrev pub granted : LimitResult → ℕ → ℕ
granted r requested = if r.allowed then requested else 0

-- One call: what it grants and what it leaves were there, or were refilled since the last call.
check-conserves :
    (limit now requested : ℕ) (b : Bucket)
    → IsStored limit b
    → granted (check limit now requested (some b)).1 requested
        + (check limit now requested (some b)).0.tokens
      ≤ b.tokens + (now - b.updated_at) * limit
check-conserves limit now requested b h =
    rw (expiry_invisible limit now requested b h) (unfold spent in unfold refilled in ground arith)

check-first :
    (limit now requested : ℕ)
    → granted (check limit now requested none).1 requested
        + (check limit now requested none).0.tokens
      ≤ limit * token
unfolding check_token_bucket
check-first limit now requested = ground arith

updated_at-check :
    (limit now requested : ℕ) (key : Option Bucket)
    → (check limit now requested key).0.updated_at ≡ now
unfolding check_token_bucket
updated_at-check limit now requested key = refl

-- Calls of the script on one key, each with its time and its cost: the tokens that they are granted.
pub grants : ℕ → List (ℕ × ℕ) → Option Bucket → ℕ
grants limit [] key = 0
grants limit ((now, requested) ∷ calls) key =
    let r = check limit now requested key in granted r.1 requested + grants limit calls (some r.0)

-- The times do not fall, from `start` on.
abbrev pub IsOrdered : ℕ → List (ℕ × ℕ) → Type 0
IsOrdered start [] = Unit
IsOrdered start ((now, requested) ∷ calls) = (start ≤ now) × IsOrdered now calls

abbrev pub last_time : ℕ → List (ℕ × ℕ) → ℕ
last_time start [] = start
last_time start ((now, requested) ∷ calls) = last_time now calls

le-last_time :
    (start : ℕ) (calls : List (ℕ × ℕ)) → IsOrdered start calls → start ≤ last_time start calls
le-last_time start [] h = omega arith
le-last_time start ((now, requested) ∷ calls) h = omega (arith, h.0, le-last_time now calls h.1)

sub_split : (u t l r : ℕ) → u ≤ t → t ≤ l → (t - u) * r + (l - t) * r ≡ (l - u) * r
sub_split u t l r h k = let sum : (l - u) ≡ (t - u) + (l - t) = omega arith in rw sum (omega arith)

grants-le-stored :
    (limit : ℕ) (calls : List (ℕ × ℕ)) (b : Bucket)
    → IsStored limit b
    → IsOrdered b.updated_at calls
    → grants limit calls (some b) ≤ b.tokens + (last_time b.updated_at calls - b.updated_at) * limit
unfolding grants
grants-le-stored limit [] b h o = omega arith
grants-le-stored limit ((now, requested) ∷ calls) b h o =
    let r = check limit now requested (some b) in
    let at : r.0.updated_at ≡ now = updated_at-check limit now requested (some b) in
    let rest : grants limit calls (some r.0) ≤ r.0.tokens + (last_time now calls - now) * limit =
      rw at at (
        grants-le-stored limit calls r.0 (check-IsStored limit now requested (some b))
          (rw at o.1)) in
    omega (
      arith,
      rest,
      check-conserves limit now requested b h,
      sub_split b.updated_at now (last_time now calls) limit o.0 (le-last_time now calls o.1),
    )

-- Whatever calls are made on a new key, at times that do not fall, the tokens that they are granted
-- between the first and the last add up to at most the limit and what the limit refills in that
-- time: `limit` tokens for each minute.
pub rate_bound :
    (limit now requested : ℕ) (calls : List (ℕ × ℕ))
    → IsOrdered now calls
    → grants limit ((now, requested) ∷ calls) none
      ≤ limit * token + (last_time now calls - now) * limit
unfolding grants
rate_bound limit now requested calls o =
    let r = check limit now requested none in
    let at : r.0.updated_at ≡ now = updated_at-check limit now requested none in
    let rest : grants limit calls (some r.0) ≤ r.0.tokens + (last_time now calls - now) * limit =
      rw at at
        (grants-le-stored limit calls r.0 (check-IsStored limit now requested none) (rw at o)) in
    omega (arith, rest, check-first limit now requested)

-- On a stored key, a minute or more after its last call, exactly the requests are allowed whose
-- cost is at most the limit.
pub full_after_minute :
    (limit now requested : ℕ) (b : Bucket)
    → IsStored limit b
    → b.updated_at + token ≤ now
    → (check limit now requested (some b)).1.allowed ≡ leb requested (limit * token)
unfolding spent
full_after_minute limit now requested b h idle =
    rw (expiry_invisible limit now requested b h)
      (rw (refilled-full limit now b idle) (ground arith))
