-- ===== src/TwoFactor/Totp.antt =====
-- apps/api/src/auth/totp.ts: `hotp`, `counterAt` and `verifyTotp`. HMAC-SHA1 is an argument. A byte is a
-- number below 256, and the bits that `|` puts together stand at different places, so that it adds.
pub mod Window
use Prim.Native.Char.{code}
use Prim.Native.String.{String}
use Prim.Native.String
use text.Mathlib.Text.{◌==◌ as str_eq}
use nudgeon_platform.Common.{
  ℕ, zero, suc, ◌+◌, ◌-◌, ◌*◌, ◌/◌, ◌%◌, ◌^◌, Bool, true, false, not, ◌&&◌, ◌||◌, List, [], ◌∷◌,
  ◌++◌, Option, none, some, ◌==◌, ltb, leb, if◌then◌else◌, length, decimal,
}

-- `\s` of a regular expression, on a character's code.
abbrev pub is_space : ℕ → Bool
is_space c =
    (leb 9 c && leb c 13)
    || c == 32
    || c == 160
    || c == 5760
    || (leb 8192 c && leb c 8202)
    || c == 8232
    || c == 8233
    || c == 8239
    || c == 8287
    || c == 12288
    || c == 65279

abbrev pub is_digit : ℕ → Bool
is_digit c = leb 48 c && leb c 57

-- `text.replace(/…/g, "")`, for a class of characters.
unfoldable pub without : (ℕ → Bool) → String → String
without p String.[] = String.[]
without p (String.◌∷◌ c s) =
    let rest = without p s in if p (code c) then rest else String.◌∷◌ c rest

-- The length of a text, in the units of 16 bits that JavaScript counts.
unfoldable pub units : String → ℕ
units String.[] = 0
units (String.◌∷◌ c s) = (if ltb (code c) 65536 then 1 else 2) + units s

unfoldable pub are_digits : String → Bool
are_digits String.[] = true
are_digits (String.◌∷◌ c s) = is_digit (code c) && are_digits s

-- `clean.length !== digits || !/^\d+$/.test(clean)`, the other way round.
unfoldable pub is_code : ℕ → String → Bool
is_code digits clean = units clean == digits && (not (units clean == 0) && are_digits clean)

-- A byte of a buffer; beyond its end, `undefined` counts as 0 under `&`.
abbrev pub byte_at : List ℕ → ℕ → ℕ
byte_at [] i = 0
byte_at (b ∷ bs) zero = b
byte_at (b ∷ bs) (suc i) = byte_at bs i

-- `writeUInt32BE`.
abbrev pub uint32_be : ℕ → List ℕ
uint32_be n = n / 16777216 % 256 ∷ n / 65536 % 256 ∷ n / 256 % 256 ∷ n % 256 ∷ []

abbrev pub counter_bytes : ℕ → List ℕ
counter_bytes counter = uint32_be (counter / 2 ^ 32) ++ uint32_be (counter % 2 ^ 32)

-- The 31 bits at the offset that the last byte of the digest gives.
abbrev pub truncated : List ℕ → ℕ
truncated h =
    let offset = byte_at h (length h - 1) % 16 in
    byte_at h offset % 128 * 16777216
    + byte_at h (offset + 1) % 256 * 65536
    + byte_at h (offset + 2) % 256 * 256
    + byte_at h (offset + 3) % 256

abbrev pub zeros : ℕ → String
zeros zero = ""
zeros (suc n) = String.◌++◌ "0" (zeros n)

-- `padStart(digits, "0")`.
unfoldable pub pad_start : ℕ → String → String
pad_start digits s = String.◌++◌ (zeros (digits - units s)) s

abbrev pub counter_at : ℕ → ℕ → ℕ
counter_at epoch_ms period = epoch_ms / 1000 / period

-- `c <= after`, where `none` is the counter -1.
abbrev pub is_stale : Option ℕ → ℕ → Bool
is_stale none c = false
is_stale (some after) c = leb c after

module _ (hmac : List ℕ → List ℕ → List ℕ) where
  unfoldable pub hotp : List ℕ → ℕ → ℕ → String
  hotp secret counter digits =
      pad_start digits (decimal (truncated (hmac secret (counter_bytes counter)) % 10 ^ digits))

  abbrev pub is_match : List ℕ → String → ℕ → Option ℕ → ℕ → Bool
  is_match secret clean digits after c =
      not (is_stale after c) && str_eq (hotp secret c digits) clean

  -- The loop over the counters, of which so many are left.
  unfoldable pub scan : List ℕ → String → ℕ → Option ℕ → ℕ → ℕ → Option ℕ
  scan secret clean digits after zero c = none
  scan secret clean digits after (suc left) c =
      let rest = scan secret clean digits after left (suc c) in
      if is_match secret clean digits after c then some c else rest

  -- `verifyTotp`: the counter that matches. The counters below 0 of a window that starts there are at most
  -- `after`, so that the loop passes over them.
  unfoldable pub verify_totp : List ℕ → String → ℕ → ℕ → ℕ → Option ℕ → Option ℕ
  verify_totp secret token epoch_ms window digits after =
      let clean = without is_space token in
      let base = counter_at epoch_ms 30 in
      let first = base - window in
      if is_code digits clean
      then scan secret clean digits after (suc (base + window) - first) first
      else none
