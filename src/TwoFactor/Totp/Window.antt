-- ===== src/TwoFactor/Totp/Window.antt =====
-- The loop of `verifyTotp` in apps/api/src/auth/totp.ts.
use Prim.Native.String.{String}
use text.Mathlib.Text.{◌==◌ as str_eq}
use text.Mathlib.TextEquality.{eq_iff}
use nudgeon_platform.Common.{
  ℕ, zero, suc, ◌+◌, ◌-◌, ◌≤◌, ◌<◌, ◌≡◌, refl, sym, ap, ◌∙◌, ◌↔◌, inl, inr, true, false, not, List,
  Option, none, some, ◌==◌, arith, Bool-cases, &&-true, some-injective,
}
use nudgeon_platform.TwoFactor.Totp.{
  is_space, without, is_code, counter_at, is_stale, hotp, is_match, scan, verify_totp,
}

module _ (hmac : List ℕ → List ℕ → List ℕ) where
  scan-eq-some :
      (secret : List ℕ) (clean : String) (digits : ℕ) (after : Option ℕ) (left from c : ℕ)
      → scan hmac secret clean digits after left from ≡ some c
      → (from ≤ c) × (c < from + left) × (is_match hmac secret clean digits after c ≡ true)
  unfolding scan
  scan-eq-some secret clean digits after zero from c e = cc
  scan-eq-some secret clean digits after (suc left) from c e =
      elim (Bool-cases (is_match hmac secret clean digits after from)) [
        | inl hit ↦
            let same : from ≡ c = some-injective (rw hit at e) in
            (omega arith, omega arith, rw (sym same) hit)
        | inr miss ↦
            let (low, high, holds) =
              scan-eq-some secret clean digits after left (suc from) c (rw miss at e) in
            (omega arith, omega arith, holds)
      ]

  scan-least :
      (secret : List ℕ) (clean : String) (digits : ℕ) (after : Option ℕ) (left from c : ℕ)
      → from ≤ c
      → c < from + left
      → is_match hmac secret clean digits after c ≡ true
      → (d : ℕ) × (scan hmac secret clean digits after left from ≡ some d) × (d ≤ c)
  unfolding scan
  scan-least secret clean digits after zero from c low high hit = absurd (omega arith)
  scan-least secret clean digits after (suc left) from c low high hit =
      elim (Bool-cases (is_match hmac secret clean digits after from)) [
        | inl now ↦ (from, rw now refl, low)
        | inr miss ↦ elim (Bool-cases (from == c)) [
          | inl same ↦ let one : from ≡ c = ground arith in cc
          | inr apart ↦
              let (d, found, least) =
                scan-least secret clean digits after left (suc from) c (ground arith) (omega arith)
                  hit in
              (d, rw miss found, least)
        ]
      ]

  -- The code of the counter is right for the token: the token is a code behind its spaces, the counter lies
  -- in the window around the time's, it is beyond `after`, and its code is the token's.
  abbrev pub Matches : List ℕ → String → ℕ → ℕ → ℕ → Option ℕ → ℕ → Type 0
  Matches secret token epoch_ms window digits after c =
      (is_code digits (without is_space token) ≡ true)
      × (counter_at epoch_ms 30 ≤ c + window)
      × (c ≤ counter_at epoch_ms 30 + window)
      × (is_stale after c ≡ false)
      × (hotp hmac secret c digits ≡ without is_space token)

  verify_totp-Matches :
      (secret : List ℕ) (token : String) (epoch_ms window digits : ℕ) (after : Option ℕ) (c : ℕ)
      → verify_totp hmac secret token epoch_ms window digits after ≡ some c
      → Matches secret token epoch_ms window digits after c
  unfolding verify_totp
  verify_totp-Matches secret token epoch_ms window digits after c e =
      let clean = without is_space token in
      let base = counter_at epoch_ms 30 in
      elim (Bool-cases (is_code digits (without is_space token))) [
        | inr bad ↦ let refused : none ≡ some c = rw bad at e in cc
        | inl good ↦
            let (low, high, hit) =
              scan-eq-some secret clean digits after (suc (base + window) - (base - window))
                (base - window) c (rw good at e) in
            let (fresh, same) =
              &&-true (not (is_stale after c)) (str_eq (hotp hmac secret c digits) clean) hit in
            (
              good,
              omega arith,
              omega arith,
              ground arith,
              (eq_iff (hotp hmac secret c digits) clean).0 same,
            )
      ]

  -- `verifyTotp` accepts a token exactly when the code of some counter is right for it, and it gives the
  -- least such counter.
  pub verify_totp_iff :
      (secret : List ℕ) (token : String) (epoch_ms window digits : ℕ) (after : Option ℕ) (c : ℕ)
      → (verify_totp hmac secret token epoch_ms window digits after ≡ some c) ↔ (
          Matches secret token epoch_ms window digits after c
          × ((d : ℕ) → Matches secret token epoch_ms window digits after d → c ≤ d))
  unfolding verify_totp
  verify_totp_iff secret token epoch_ms window digits after c =
      let find : (d : ℕ)
          → Matches secret token epoch_ms window digits after d
          → (a : ℕ) × (verify_totp hmac secret token epoch_ms window digits after ≡ some a)
            × (a ≤ d) =
        λ d (good, low, high, fresh, same). rw good (
          scan-least secret (without is_space token) digits after
            (suc (counter_at epoch_ms 30 + window) - (counter_at epoch_ms 30 - window))
            (counter_at epoch_ms 30 - window) d (omega arith) (omega arith)
            (rw (fresh, (eq_iff (hotp hmac secret d digits) (without is_space token)).1 same)
              refl)) in
      (
        λ e. (
          verify_totp-Matches secret token epoch_ms window digits after c e,
          λ d right.
              let (a, found, least) = find d right in
              let one : c ≡ a = some-injective (sym e ∙ found) in omega (arith, one, least),
        ),
        λ (right, least).
            let (a, found, below) = find c right in
            let above : c ≤ a =
              least a (verify_totp-Matches secret token epoch_ms window digits after a found) in
            found ∙ ap some (omega (arith, above, below)),
      )
