-- ===== src/RateLimit.antt =====
-- apps/api/src/rate-limit/rate-limit.service.ts: the token bucket that the Lua script keeps, and `check`.
-- Tokens are counted in thousandths, without rounding, for rates and capacities that are whole numbers. Redis
-- forgets a bucket at the time that PEXPIRE sets, which is read from the same clock.
pub mod Bound
mod Tests
use Prim.Native.String.{String}
use text.Mathlib.Text.{◌==◌ as str_eq}
use nudgeon_platform.Common.{
  ℕ, suc, ◌+◌, ◌-◌, ◌*◌, ◌/◌, Bool, true, false, List, [], ◌∷◌, Option, none, some, ltb, leb,
  if◌then◌else◌, template,
}

-- The field `tokens` is `credit` less `debt`, which a clock that goes back can bring below 0.
pub record Bucket : Type 0 where
  pub credit : ℕ
  pub debt : ℕ
  pub ts : ℕ
  pub expires_at : ℕ

abbrev pub ceil_div : ℕ → ℕ → ℕ
ceil_div a b = (a + (b - 1)) / b

abbrev pub maximum : ℕ → ℕ → ℕ
maximum a b = if leb a b then b else a

abbrev pub minimum : ℕ → ℕ → ℕ
minimum a b = if leb a b then a else b

-- The bucket that HMGET finds, or a full one.
abbrev pub full : ℕ → ℕ → Bucket
full burst now = record { credit = burst * 1000; debt = 0; ts = now; expires_at = now }

unfoldable pub current : ℕ → ℕ → Option Bucket → Bucket
current burst now none = full burst now
current burst now (some b) = if leb b.expires_at now then full burst now else b

-- `tokens + (now_ms - ts) / 1000 * rate`: what it adds, and what it takes.
abbrev pub gained : ℕ → ℕ → Bucket → ℕ
gained rate now b = b.credit + (now - b.ts) * rate

abbrev pub lost : ℕ → ℕ → Bucket → ℕ
lost rate now b = b.debt + (b.ts - now) * rate

-- The field after the refill, which holds at most `burst`.
abbrev pub refilled : ℕ → ℕ → ℕ → Bucket → ℕ
refilled rate burst now b = minimum (burst * 1000) (gained rate now b - lost rate now b)

abbrev pub owed : ℕ → ℕ → Bucket → ℕ
owed rate now b = lost rate now b - gained rate now b

abbrev pub time_to_live : ℕ → ℕ → ℕ
time_to_live rate burst = maximum 60000 (ceil_div (burst * 2000) rate)

-- What the script answers, with `math.floor(tokens)` at least 0, and the bucket that HSET leaves.
pub record Taken : Type 0 where
  pub allowed : Bool
  pub remaining : ℕ
  pub retry_ms : ℕ
  pub bucket : Bucket

unfoldable pub spend : ℕ → ℕ → ℕ → ℕ → ℕ → ℕ → Taken
spend rate burst now cost tokens debt =
    let has = leb (cost * 1000) tokens in
    let left = if has then tokens - cost * 1000 else tokens in
    record {
      allowed = has;
      remaining = left / 1000;
      retry_ms = if has then 0 else ceil_div (cost * 1000 + debt - tokens) rate;
      bucket = record {
        credit = left;
        debt = debt;
        ts = now;
        expires_at = now + time_to_live rate burst;
      };
    }

-- The script.
unfoldable pub take_token : ℕ → ℕ → ℕ → ℕ → Option Bucket → Taken
take_token rate burst now cost stored =
    let b = current burst now stored in
    spend rate burst now cost (refilled rate burst now b) (owed rate now b)

pub record LayerConfig : Type 0 where
  pub name : String
  pub key : String
  pub rps : ℕ
  pub burst : ℕ

pub record RateLimitDecision : Type 0 where
  pub allowed : Bool
  pub limit : ℕ
  pub remaining : ℕ
  pub retry_after_sec : ℕ
  pub layer : String

-- Redis: the bucket of a key.
abbrev pub Redis : Type 0
Redis = List (String × Bucket)

abbrev pub stored_at : String → Redis → Option Bucket
stored_at key [] = none
stored_at key ((k, b) ∷ rest) =
    let found = stored_at key rest in if str_eq k key then some b else found

abbrev pub decision_of : LayerConfig → Taken → RateLimitDecision
decision_of layer taken = record {
  allowed = taken.allowed;
  limit = layer.rps;
  remaining = taken.remaining;
  retry_after_sec = maximum 1 (ceil_div taken.retry_ms 1000);
  layer = layer.name;
}

abbrev pub tighter : Option RateLimitDecision → RateLimitDecision → RateLimitDecision
tighter none decision = decision
tighter (some tightest) decision =
    if ltb decision.remaining tightest.remaining then decision else tightest

abbrev pub unlimited : Option RateLimitDecision → RateLimitDecision
unlimited none = record {
  allowed = true;
  limit = 0;
  remaining = 0;
  retry_after_sec = 0;
  layer = "none";
}
unlimited (some tightest) = tightest

-- The loop of `check`, with the tightest decision so far.
unfoldable pub check_layers :
    ℕ → List LayerConfig → Option RateLimitDecision → Redis → RateLimitDecision × Redis
check_layers now [] tightest redis = (unlimited tightest, redis)
check_layers now (layer ∷ layers) tightest redis =
    let key = template ("rl:" ∷ layer.key ∷ []) in
    let taken = take_token layer.rps layer.burst now 1 (stored_at key redis) in
    let decision = decision_of layer taken in
    let after = (key, taken.bucket) ∷ redis in
    let rest = check_layers now layers (some (tighter tightest decision)) after in
    if taken.allowed then rest else (decision, after)

unfoldable pub check : ℕ → List LayerConfig → Redis → RateLimitDecision × Redis
check now layers redis = check_layers now layers none redis
