-- ===== src/TwoFactor/Login/Steps.antt =====
-- `verifyForLogin` in apps/api/src/auth/totp.service.ts, taken apart: the row that an attempt reads and
-- what it does to it.
use Prim.Native.String.{String}
use nudgeon_platform.Common.{
  ℕ, suc, ◌≡◌, refl, sym, ap, ◌∙◌, inl, inr, Bool, true, false, List, Option, none, some, ◌==◌, ltb,
  leb, Bool-cases, Option-cases, first_row, update_rows, first_row-update_rows, ok, err,
  ok-injective,
}
use nudgeon_platform.Accounts.{Member, BackupCode, Store}
use nudgeon_platform.TwoFactor.Totp.{units, verify_totp}
use nudgeon_platform.TwoFactor.Login.{
  Host, normalize_backup_code, max_failed, locked, undecryptable, decrypt_secret, is_member,
  update_member, consume, try_backup_code, is_locked, fail_with, login_backup, login_code,
  login_secret, login_enrolled, login_row, verify_for_login,
}

-- The row of the member, with a second factor.
pub record IsEnrolled (member_id : ℕ) (s : Store) (m : Member) (at : ℕ) (sealed : List ℕ)
    : Type 0 where
  pub found : first_row (is_member member_id) s.members ≡ some m
  pub enabled : m.totp_enabled_at ≡ some at
  pub secret : m.totp_secret_enc ≡ some sealed

module _ (host : Host) where
  -- An attempt that is answered was not locked, and its answer is that of the code.
  pub verify_for_login-eq-ok :
      (member_id : ℕ) (token : String) (now : ℕ) (s : Store) (m : Member) (at : ℕ) (sealed : List ℕ)
      (after : Bool × Store)
      → IsEnrolled member_id s m at sealed
      → verify_for_login host member_id token now s ≡ ok after
      → (is_locked m.totp_locked_until now ≡ false)
        × ((secret : List ℕ) × (decrypt_secret host sealed ≡ some secret)
            × (login_code host member_id m token now s
                  (verify_totp host.hmac secret token now 1 6 m.totp_last_counter)
                ≡ after))
  unfolding verify_for_login login_row login_enrolled login_secret login_code login_backup
  verify_for_login-eq-ok member_id token now s m at sealed after enrolled e =
      let opened = rw (enrolled.found, enrolled.enabled, enrolled.secret) at e in
      elim (Bool-cases (is_locked m.totp_locked_until now)) [
        | inl shut ↦ let refused : err locked ≡ ok after = rw shut at opened in cc
        | inr free ↦ elim (Option-cases (decrypt_secret host sealed)) [
          | inl fails ↦
              let refused : err undecryptable ≡ ok after = rw (free, fails) at opened in cc
          | inr (secret, reads) ↦
              (free, (secret, reads, ok-injective refl (rw (free, reads) at opened)))
        ]
      ]

  -- While the row is locked, every attempt is refused.
  pub verify_for_login_of_locked :
      (member_id : ℕ) (token : String) (now : ℕ) (s : Store) (m : Member) (at : ℕ) (sealed : List ℕ)
      → IsEnrolled member_id s m at sealed
      → is_locked m.totp_locked_until now ≡ true
      → verify_for_login host member_id token now s ≡ err locked
  unfolding verify_for_login login_row login_enrolled
  verify_for_login_of_locked member_id token now s m at sealed enrolled shut =
      rw (enrolled.found, enrolled.enabled, enrolled.secret, shut) refl

  consume-members :
      (o : Option BackupCode) (now : ℕ) (s : Store) → (consume o now s).1.members ≡ s.members
  unfolding consume
  consume-members none now s = refl
  consume-members (some r) now s = refl

  pub try_backup_code-members :
      (member_id : ℕ) (token : String) (now : ℕ) (s : Store)
      → (try_backup_code host member_id token now s).1.members ≡ s.members
  unfolding try_backup_code
  try_backup_code-members member_id token now s =
      elim (Bool-cases (ltb (units (normalize_backup_code host token)) 8)) [
        | inl short ↦ rw short refl
        | inr long ↦ rw long (consume-members _ now s)
      ]

  login_backup-false :
      (member_id : ℕ) (m : Member) (now : ℕ) (r : Bool × Store) (after : Store)
      → login_backup member_id m now r ≡ (false, after)
      → after.members
        ≡ update_rows (is_member member_id) (fail_with m.totp_failed_count now) r.1.members
  unfolding login_backup update_member
  login_backup-false member_id m now (true, s) after e =
      let clash : true ≡ false = ap (λ p. p.0) e in cc
  login_backup-false member_id m now (false, s) after e = ap (λ p. p.1.members) (sym e)

  login_code-false :
      (member_id : ℕ) (m : Member) (token : String) (now : ℕ) (s after : Store) (c : Option ℕ)
      → login_code host member_id m token now s c ≡ (false, after)
      → after.members
        ≡ update_rows (is_member member_id) (fail_with m.totp_failed_count now) s.members
  unfolding login_code
  login_code-false member_id m token now s after (some c) e =
      let clash : true ≡ false = ap (λ p. p.0) e in cc
  login_code-false member_id m token now s after none e =
      login_backup-false member_id m now (try_backup_code host member_id token now s) after e
      ∙ ap (λ ms. update_rows (is_member member_id) (fail_with m.totp_failed_count now) ms)
          (try_backup_code-members member_id token now s)

  fail_with-keeps :
      (k now : ℕ) (m : Member)
      → ((fail_with k now m).id ≡ m.id)
        × ((fail_with k now m).totp_enabled_at ≡ m.totp_enabled_at)
        × ((fail_with k now m).totp_secret_enc ≡ m.totp_secret_enc)
  unfolding fail_with
  fail_with-keeps k now m = elim (Bool-cases (leb max_failed (suc k))) [
    | inl full ↦ rw full (refl, refl, refl)
    | inr more ↦ rw more (refl, refl, refl)
  ]

  -- An attempt that fails was not locked, and adds to the failures of the row, or locks it.
  pub verify_for_login-false :
      (member_id : ℕ) (token : String) (now : ℕ) (s after : Store) (m : Member) (at : ℕ)
      (sealed : List ℕ)
      → IsEnrolled member_id s m at sealed
      → verify_for_login host member_id token now s ≡ ok (false, after)
      → (is_locked m.totp_locked_until now ≡ false)
        × IsEnrolled member_id after (fail_with m.totp_failed_count now m) at sealed
  verify_for_login-false member_id token now s after m at sealed enrolled e =
      let (free, (secret, _, answered)) =
        verify_for_login-eq-ok member_id token now s m at sealed (false, after) enrolled e in
      let made = login_code-false member_id m token now s after _ answered in
      let (same, on, kept) = fail_with-keeps m.totp_failed_count now m in
      (
        free,
        record {
          found =
              ap (λ ms. first_row (is_member member_id) ms) made
              ∙ first_row-update_rows (is_member member_id) (fail_with m.totp_failed_count now)
                  s.members
                  (λ b hit.
                    ap (λ i. i == member_id) ((fail_with-keeps m.totp_failed_count now b).0) ∙ hit)
                  enrolled.found;
          enabled = on ∙ enrolled.enabled;
          secret = kept ∙ enrolled.secret;
        },
      )
