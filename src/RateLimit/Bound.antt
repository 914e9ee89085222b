-- ===== src/RateLimit/Bound.antt =====
-- The token bucket of apps/api/src/rate-limit/rate-limit.service.ts over a sequence of requests for one key.
use nudgeon_platform.Common.{
  ℕ, suc, ◌+◌, ◌-◌, ◌*◌, ◌≤◌, ◌<◌, ◌≡◌, refl, sym, ap, subst, ◌∙◌, inl, inr, Bool, true, false,
  List, [], ◌∷◌, Option, some, leb, if◌then◌else◌, arith, Bool-cases,
}
use native.Mathlib.Nat.{div-add-mod', mod-lt, mul-le-mul_right, add-mul}
use nudgeon_platform.RateLimit.{
  Bucket, ceil_div, minimum, full, current, gained, lost, refilled, owed, time_to_live, spend,
  take_token,
}

-- The requests at these times, one token each: how many are allowed, from the bucket that is stored.
unfoldable pub allowed_count : ℕ → ℕ → List ℕ → Option Bucket → ℕ
allowed_count rate burst [] stored = 0
allowed_count rate burst (now ∷ times) stored =
    let taken = take_token rate burst now 1 stored in
    let rest = allowed_count rate burst times (some taken.bucket) in
    if taken.allowed then suc rest else rest

-- Times that do not go back, from one time to another.
abbrev pub IsOrdered : ℕ → List ℕ → ℕ → Type 0
IsOrdered from [] until = from ≤ until
IsOrdered from (now ∷ times) until = (from ≤ now) × IsOrdered now times until

spend-bound :
    (rate burst now tokens debt : ℕ)
    → (if (spend rate burst now 1 tokens debt).allowed then 1000 else 0)
        + (spend rate burst now 1 tokens debt).bucket.credit
      ≤ tokens
unfolding spend
spend-bound rate burst now tokens debt = ground arith

minimum-left : (a b : ℕ) → minimum a b ≤ a
minimum-left a b = ground arith

minimum-right : (a b : ℕ) → minimum a b ≤ b
minimum-right a b = ground arith

ceil_div-bound : (a b : ℕ) → 0 < b → a ≤ ceil_div a b * b
ceil_div-bound a b pos = omega (arith, div-add-mod' (a + (b - 1)) b, mod-lt (a + (b - 1)) pos)

steps-add :
    (rate from now until : ℕ)
    → from ≤ now
    → now ≤ until
    → (now - from) * rate + (until - now) * rate ≡ (until - from) * rate
steps-add rate from now until low high =
    let split : until - from ≡ (now - from) + (until - now) = omega arith in
    sym (ap (λ d. d * rate) split ∙ add-mul (now - from) (until - now) rate)

-- A bucket that is forgotten would be full by then.
current-bound :
    (rate burst now : ℕ) (b : Bucket)
    → 0 < rate
    → b.ts ≤ now
    → b.expires_at ≡ b.ts + time_to_live rate burst
    → refilled rate burst now (current burst now (some b)) ≤ b.credit + (now - b.ts) * rate
unfolding current
current-bound rate burst now b pos low lives = elim (Bool-cases (leb b.expires_at now)) [
  | inr kept ↦
      rw kept (omega (arith, minimum-right (burst * 1000) (gained rate now b - lost rate now b)))
  | inl gone ↦
      let old : ceil_div (burst * 2000) rate ≤ now - b.ts = ground arith in
      let earned : ceil_div (burst * 2000) rate * rate ≤ (now - b.ts) * rate =
        mul-le-mul_right rate old in
      rw gone (
        omega (
          arith,
          earned,
          ceil_div-bound (burst * 2000) rate pos,
          minimum-left (burst * 1000)
              (gained rate now (full burst now) - lost rate now (full burst now)),
        ))
]

take_token-bound :
    (rate burst now : ℕ) (b : Bucket)
    → 0 < rate
    → b.ts ≤ now
    → b.expires_at ≡ b.ts + time_to_live rate burst
    → (if (take_token rate burst now 1 (some b)).allowed then 1000 else 0)
        + (take_token rate burst now 1 (some b)).bucket.credit
      ≤ b.credit + (now - b.ts) * rate
unfolding take_token
take_token-bound rate burst now b pos low lives =
    let c = current burst now (some b) in
    omega (
      arith,
      spend-bound rate burst now (refilled rate burst now c) (owed rate now c),
      current-bound rate burst now b pos low lives,
    )

take_token-stamp :
    (rate burst now : ℕ) (stored : Option Bucket)
    → ((take_token rate burst now 1 stored).bucket.ts ≡ now)
      × ((take_token rate burst now 1 stored).bucket.expires_at ≡ now + time_to_live rate burst)
unfolding take_token spend
take_token-stamp rate burst now stored = (refl, refl)

take_token-within_burst :
    (rate burst now : ℕ) (stored : Option Bucket)
    → (if (take_token rate burst now 1 stored).allowed then 1000 else 0)
        + (take_token rate burst now 1 stored).bucket.credit
      ≤ burst * 1000
unfolding take_token
take_token-within_burst rate burst now stored =
    let c = current burst now stored in
    omega (
      arith,
      spend-bound rate burst now (refilled rate burst now c) (owed rate now c),
      minimum-left (burst * 1000) (gained rate now c - lost rate now c),
    )

-- A request and those behind it.
count-step :
    (allowed : Bool) (rest credit total gain : ℕ)
    → (if allowed then 1000 else 0) + credit ≤ total
    → rest * 1000 ≤ credit + gain
    → (if allowed then suc rest else rest) * 1000 ≤ total + gain
count-step true rest credit total gain h k = omega (arith, h, k)
count-step false rest credit total gain h k = omega (arith, h, k)

ordered-until : (from : ℕ) (times : List ℕ) (until : ℕ) → IsOrdered from times until → from ≤ until
ordered-until from [] until h = h
ordered-until from (now ∷ times) until (h, hs) = omega (arith, ordered-until now times until hs)

count-from :
    (rate burst : ℕ) (times : List ℕ) (until : ℕ) (b : Bucket)
    → 0 < rate
    → b.expires_at ≡ b.ts + time_to_live rate burst
    → IsOrdered b.ts times until
    → allowed_count rate burst times (some b) * 1000 ≤ b.credit + (until - b.ts) * rate
unfolding allowed_count
count-from rate burst [] until b pos lives within = omega arith
count-from rate burst (now ∷ times) until b pos lives (low, within) =
    let taken = take_token rate burst now 1 (some b) in
    let (stamped, fresh) = take_token-stamp rate burst now (some b) in
    let rest =
      count-from rate burst times until taken.bucket pos
        (fresh ∙ ap (λ t. t + time_to_live rate burst) (sym stamped))
        (subst (λ t. IsOrdered t times until) (sym stamped) within) in
    let all =
      count-step taken.allowed (allowed_count rate burst times (some taken.bucket))
        taken.bucket.credit (b.credit + (now - b.ts) * rate) ((until - now) * rate)
        (take_token-bound rate burst now b pos low lives) (rw stamped at rest) in
    omega (arith, all, steps-add rate b.ts now until low (ordered-until now times until within))

-- Whatever bucket is stored at first: of the requests for one key at times that do not go back, from one time
-- until another, no more are allowed than the capacity and what the rate gives in between, where the rate is
-- positive.
pub allowed_count-bound :
    (rate burst from : ℕ) (times : List ℕ) (until : ℕ) (stored : Option Bucket)
    → 0 < rate
    → IsOrdered from times until
    → allowed_count rate burst times stored * 1000 ≤ burst * 1000 + (until - from) * rate
unfolding allowed_count
allowed_count-bound rate burst from [] until stored pos within = omega arith
allowed_count-bound rate burst from (now ∷ times) until stored pos (low, within) =
    let taken = take_token rate burst now 1 stored in
    let (stamped, fresh) = take_token-stamp rate burst now stored in
    let rest =
      count-from rate burst times until taken.bucket pos
        (fresh ∙ ap (λ t. t + time_to_live rate burst) (sym stamped))
        (subst (λ t. IsOrdered t times until) (sym stamped) within) in
    let all =
      count-step taken.allowed (allowed_count rate burst times (some taken.bucket))
        taken.bucket.credit (burst * 1000) ((until - now) * rate)
        (take_token-within_burst rate burst now stored) (rw stamped at rest) in
    omega (arith, all, steps-add rate from now until low (ordered-until now times until within))
