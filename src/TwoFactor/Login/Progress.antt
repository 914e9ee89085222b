-- ===== src/TwoFactor/Login/Progress.antt =====
-- `verifyForLogin` of apps/api/src/auth/totp.service.ts when it lets a member in.
use Prim.Native.String.{String}
use nudgeon_platform.Common.{
  ℕ, suc, ◌≤◌, ◌≡◌, refl, sym, ap, Memᴰ, is_none-none, first_row-eq-some, update_rows, subst, ◌∙◌,
  ◌⊎◌, inl, inr, Bool, true, false, List, Option, none, some, ◌==◌, ltb, arith, Bool-cases, is_none,
  first_row, count_rows, &&-true, ==_iff, first_row-update_rows, count_rows-update_rows, ok,
}
use nudgeon_platform.Accounts.{Member, BackupCode, Store}
use nudgeon_platform.TwoFactor.Totp.{units, verify_totp}
use nudgeon_platform.TwoFactor.Totp.Window.{Matches, verify_totp_iff}
use nudgeon_platform.TwoFactor.Login.{
  Host, normalize_backup_code, decrypt_secret, is_member, update_member, is_unused, is_open_code,
  use_code, is_matching, consume, try_backup_code, is_locked, accept_counter, reset_failures,
  login_backup, login_code, verify_for_login,
}
use nudgeon_platform.TwoFactor.Login.Steps.{
  IsEnrolled, verify_for_login-eq-ok, try_backup_code-members,
}

-- A code that was not used.
abbrev pub is_fresh : BackupCode → Bool
is_fresh c = is_none c.used_at

-- The token stands for an unused backup code of the member, which is used up: that row alone is marked, and there
-- is exactly one unused code fewer.
pub record IsConsumed (host : Host) (member_id : ℕ) (token : String) (now : ℕ)
    (before after : List BackupCode) : Type 0 where
  pub code : BackupCode
  pub there : Memᴰ code before
  pub own : code.member_id ≡ member_id
  pub unused : code.used_at ≡ none
  pub right : host.argon_verify code.code_hash (normalize_backup_code host token) ≡ true
  pub long : 8 ≤ units (normalize_backup_code host token)
  pub marked : after ≡ update_rows (is_open_code code.id) (use_code now) before
  pub fewer : suc (count_rows is_fresh after) ≡ count_rows is_fresh before

consume-fewer :
    (r : BackupCode) (now : ℕ) (s : Store)
    → (consume (some r) now s).0 ≡ true
    → suc (count_rows is_fresh (consume (some r) now s).1.backup_codes)
      ≡ count_rows is_fresh s.backup_codes
unfolding consume
consume-fewer r now s e =
    let one : count_rows (is_open_code r.id) s.backup_codes ≡ 1 =
      (==_iff (count_rows (is_open_code r.id) s.backup_codes) 1).0 e in
    omega (
      arith,
      one,
      count_rows-update_rows (is_open_code r.id) is_fresh (use_code now) s.backup_codes
          (λ c hit. (&&-true (c.id == r.id) (is_none c.used_at) hit).1) (λ c. refl),
    )

consume-IsConsumed :
    (host : Host) (member_id : ℕ) (token : String) (o : Option BackupCode) (now : ℕ) (s : Store)
    → first_row (is_matching host member_id (normalize_backup_code host token)) s.backup_codes ≡ o
    → ltb (units (normalize_backup_code host token)) 8 ≡ false
    → (consume o now s).0 ≡ true
    → IsConsumed host member_id token now s.backup_codes (consume o now s).1.backup_codes
unfolding consume
consume-IsConsumed host member_id token none now s found long e = cc
consume-IsConsumed host member_id token (some r) now s found long e =
    let (there, hit) =
      first_row-eq-some (is_matching host member_id (normalize_backup_code host token))
        s.backup_codes found in
    let (mine, right) = &&-true (is_unused member_id r) _ hit in
    let (own, open_still) = &&-true (r.member_id == member_id) (is_none r.used_at) mine in
    record {
      code = r;
      there = there;
      own = (==_iff r.member_id member_id).0 own;
      unused = is_none-none r.used_at open_still;
      right = right;
      long = ground arith;
      marked = refl;
      fewer = consume-fewer r now s e;
    }

-- The row of the member, after an update that keeps its id and its second factor.
update_member-IsEnrolled :
    (member_id : ℕ) (f : Member → Member) (s : Store) (m : Member) (at : ℕ) (sealed : List ℕ)
    → ((b : Member) → (f b).id ≡ b.id)
    → (f m).totp_enabled_at ≡ m.totp_enabled_at
    → (f m).totp_secret_enc ≡ m.totp_secret_enc
    → IsEnrolled member_id s m at sealed
    → IsEnrolled member_id (update_member member_id f s) (f m) at sealed
unfolding update_member
update_member-IsEnrolled member_id f s m at sealed same on kept enrolled = record {
  found =
      first_row-update_rows (is_member member_id) f s.members
        (λ b hit. ap (λ i. i == member_id) (same b) ∙ hit) enrolled.found;
  enabled = on ∙ enrolled.enabled;
  secret = kept ∙ enrolled.secret;
}

update_member-codes :
    (member_id : ℕ) (f : Member → Member) (s : Store)
    → (update_member member_id f s).backup_codes ≡ s.backup_codes
unfolding update_member
update_member-codes member_id f s = refl

module _ (host : Host) where
  try_backup_code-true :
      (member_id : ℕ) (token : String) (now : ℕ) (s : Store)
      → (try_backup_code host member_id token now s).0 ≡ true
      → IsConsumed host member_id token now s.backup_codes
          (try_backup_code host member_id token now s).1.backup_codes
  unfolding try_backup_code
  try_backup_code-true member_id token now s e =
      elim (Bool-cases (ltb (units (normalize_backup_code host token)) 8)) [
        | inl short ↦ let clash : false ≡ true = rw short at e in cc
        | inr long ↦ rw long (
            consume-IsConsumed host member_id token
              (first_row (is_matching host member_id (normalize_backup_code host token))
                s.backup_codes)
              now s refl long (rw long at e))
      ]

  -- An attempt let in by the code of a counter, which the row then holds.
  abbrev pub ByCounter : ℕ → String → ℕ → Store → Store → Member → ℕ → List ℕ → Type 0
  ByCounter member_id token now s after m at sealed =
      (secret : List ℕ) × (counter : ℕ) × (decrypt_secret host sealed ≡ some secret)
      × Matches host.hmac secret token now 1 6 m.totp_last_counter counter
      × IsEnrolled member_id after (accept_counter counter m) at sealed
      × (after.backup_codes ≡ s.backup_codes)

  -- An attempt let in by a backup code of the member, which is used up then.
  abbrev pub ByBackupCode : ℕ → String → ℕ → Store → Store → Member → ℕ → List ℕ → Type 0
  ByBackupCode member_id token now s after m at sealed =
      IsEnrolled member_id after (reset_failures m) at sealed
      × IsConsumed host member_id token now s.backup_codes after.backup_codes

  login_backup-true :
      (member_id : ℕ) (token : String) (s after : Store) (m : Member) (now at : ℕ) (sealed : List ℕ)
      (r : Bool × Store)
      → IsEnrolled member_id s m at sealed
      → r.1.members ≡ s.members
      → (r.0 ≡ true → IsConsumed host member_id token now s.backup_codes r.1.backup_codes)
      → login_backup member_id m now r ≡ (true, after)
      → ByBackupCode member_id token now s after m at sealed
  unfolding login_backup
  login_backup-true member_id token s after m now at sealed (false, t) enrolled same fewer e =
      let clash : false ≡ true = ap (λ p. p.0) e in cc
  login_backup-true member_id token s after m now at sealed (true, t) enrolled same fewer e =
      let there : IsEnrolled member_id t m at sealed = record {
        found = ap (λ ms. first_row (is_member member_id) ms) same ∙ enrolled.found;
        enabled = enrolled.enabled;
        secret = enrolled.secret;
      } in
      subst (λ a. ByBackupCode member_id token now s a m at sealed) (ap (λ p. p.1) e)
        (
          update_member-IsEnrolled member_id reset_failures t m at sealed (λ b. refl) refl refl
              there,
          subst (IsConsumed host member_id token now s.backup_codes)
              (sym (update_member-codes member_id reset_failures t)) (fewer refl),
        )

  login_code-true :
      (member_id : ℕ) (token : String) (now : ℕ) (s after : Store) (m : Member) (at : ℕ)
      (sealed secret : List ℕ) (c : Option ℕ)
      → IsEnrolled member_id s m at sealed
      → decrypt_secret host sealed ≡ some secret
      → verify_totp host.hmac secret token now 1 6 m.totp_last_counter ≡ c
      → login_code host member_id m token now s c ≡ (true, after)
      → ByCounter member_id token now s after m at sealed
        ⊎ ByBackupCode member_id token now s after m at sealed
  unfolding login_code
  login_code-true member_id token now s after m at sealed secret (some counter) enrolled reads
        checked e =
      let right =
        (verify_totp_iff host.hmac secret token now 1 6 m.totp_last_counter counter).0 checked in
      inl (
        subst (λ a. ByCounter member_id token now s a m at sealed) (ap (λ p. p.1) e)
          (
            secret,
            counter,
            reads,
            right.0,
            update_member-IsEnrolled member_id (accept_counter counter) s m at sealed (λ b. refl)
                refl refl enrolled,
            update_member-codes member_id (accept_counter counter) s,
          ))
  login_code-true member_id token now s after m at sealed secret none enrolled reads checked e =
      inr (
        login_backup-true member_id token s after m now at sealed
          (try_backup_code host member_id token now s) enrolled
          (try_backup_code-members host member_id token now s)
          (try_backup_code-true member_id token now s) e)

  -- A member with a second factor is let in only when the row is not locked, and then either by the code of a
  -- counter in the window that is beyond the last one accepted, which becomes the last one, or by a backup
  -- code: the token stands for an unused code of the member, of 8 characters at least, which is marked as used
  -- then, and no other is, so that there is exactly one unused code fewer. The failures are forgotten.
  pub verify_for_login-true :
      (member_id : ℕ) (token : String) (now : ℕ) (s after : Store) (m : Member) (at : ℕ)
      (sealed : List ℕ)
      → IsEnrolled member_id s m at sealed
      → verify_for_login host member_id token now s ≡ ok (true, after)
      → (is_locked m.totp_locked_until now ≡ false)
        × (ByCounter member_id token now s after m at sealed
            ⊎ ByBackupCode member_id token now s after m at sealed)
  verify_for_login-true member_id token now s after m at sealed enrolled e =
      let (free, (secret, reads, answered)) =
        verify_for_login-eq-ok host member_id token now s m at sealed (true, after) enrolled e in
      (
        free,
        login_code-true member_id token now s after m at sealed secret _ enrolled reads refl
            answered,
      )
