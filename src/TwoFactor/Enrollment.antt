-- ===== src/TwoFactor/Enrollment.antt =====
-- apps/api/src/auth/totp.service.ts: `startEnrollment`, `confirmEnrollment`, `disable`, `resetForMember` and
-- `clear`. The secret, the keys, the nonces and the hashes of the backup codes, which are random, are arguments.
pub mod Recovery
pub mod Secrets
use Prim.Native.String.{String}
use nudgeon_platform.Common.{
  ℕ, ◌&&◌, Bool, true, false, not, List, [], ◌∷◌, ◌++◌, Option, none, some, ◌==◌, if◌then◌else◌,
  is_none, first_row, update_rows, count_rows, map, Result, ok, err,
}
use nudgeon_platform.Accounts.{Member, BackupCode, Store}
use nudgeon_platform.Accounts.Sessions.{revoke_all_for_member}
use nudgeon_platform.Accounts.Members.{is_target, update_target}
use nudgeon_platform.Envelope.{Envelope, encrypt_envelope}
use nudgeon_platform.TwoFactor.Totp.{verify_totp}
use nudgeon_platform.TwoFactor.Login.{
  Host, LoginError, pack_envelope, decrypt_secret, verify_for_login,
}

pub data EnrollmentError : Type 0 where
  member_missing already_enabled not_started wrong_code no_master_key unencryptable undecryptable :
      EnrollmentError
  login_refused : LoginError → EnrollmentError

-- What `startEnrollment` draws: the secret, the key of its envelope and two nonces.
pub record Draw : Type 0 where
  pub secret : List ℕ
  pub dek : List ℕ
  pub body_nonce : List ℕ
  pub key_nonce : List ℕ

abbrev pub start_row : List ℕ → Member → Member
start_row sealed m = record m {
  totp_secret_enc = some sealed;
  totp_enabled_at = none;
  totp_last_counter = none;
  totp_failed_count = 0;
  totp_locked_until = none;
}

abbrev pub enable_row : ℕ → ℕ → Member → Member
enable_row now counter m = record m {
  totp_enabled_at = some now;
  totp_last_counter = some counter;
  totp_failed_count = 0;
  totp_locked_until = none;
}

abbrev pub clear_row : Member → Member
clear_row m = record m {
  totp_secret_enc = none;
  totp_enabled_at = none;
  totp_last_counter = none;
  totp_failed_count = 0;
  totp_locked_until = none;
}

-- `DELETE FROM member_backup_codes WHERE member_id = $1`.
abbrev pub delete_codes : ℕ → List BackupCode → List BackupCode
delete_codes member_id [] = []
delete_codes member_id (c ∷ cs) =
    let rest = delete_codes member_id cs in if c.member_id == member_id then rest else c ∷ rest

abbrev pub new_code : ℕ → ℕ → ℕ × String → BackupCode
new_code tenant_id member_id (id, code_hash) = record {
  id = id;
  tenant_id = tenant_id;
  member_id = member_id;
  code_hash = code_hash;
  used_at = none;
}

unfoldable pub clear : ℕ → ℕ → Store → Store
clear tenant_id member_id s = record (update_target tenant_id member_id clear_row s) {
  backup_codes = delete_codes member_id s.backup_codes;
}

module _ (host : Host) (to_base64 : List ℕ → String) where
  abbrev pub packed : Option Envelope → Option (List ℕ)
  packed none = none
  packed (some env) = some (pack_envelope env)

  -- The envelope of a secret, for the key that the environment gives; none is an exception.
  abbrev pub sealed_secret : Draw → List ℕ → Option (List ℕ)
  sealed_secret draw key = packed (
      encrypt_envelope host.cipher draw.dek draw.body_nonce draw.key_nonce key
        (to_base64 draw.secret))

  abbrev pub start_stored : ℕ → ℕ → Store → Option (List ℕ) → Result EnrollmentError Store
  start_stored tenant_id member_id s none = err unencryptable
  start_stored tenant_id member_id s (some sealed) =
      ok (update_target tenant_id member_id (start_row sealed) s)

  abbrev pub start_sealed : ℕ → ℕ → Draw → Store → Option (List ℕ) → Result EnrollmentError Store
  start_sealed tenant_id member_id draw s none = err no_master_key
  start_sealed tenant_id member_id draw s (some key) =
      start_stored tenant_id member_id s (sealed_secret draw key)

  abbrev pub start_row_of : ℕ → ℕ → Draw → Store → Option Member → Result EnrollmentError Store
  start_row_of tenant_id member_id draw s none = err member_missing
  start_row_of tenant_id member_id draw s (some m) =
      if is_none m.totp_enabled_at
      then start_sealed tenant_id member_id draw s host.master_key
      else err already_enabled

  -- `startEnrollment`, whose answer, the secret's text and its URI, is left out.
  unfoldable pub start_enrollment : ℕ → ℕ → Draw → Store → Result EnrollmentError Store
  start_enrollment tenant_id member_id draw s =
      start_row_of tenant_id member_id draw s (first_row (is_target tenant_id member_id) s.members)

module _ (host : Host) where
  -- The transaction of `confirmEnrollment`.
  unfoldable pub enable : ℕ → ℕ → List (ℕ × String) → ℕ → ℕ → Store → Store
  enable tenant_id member_id codes now counter s =
      record (update_target tenant_id member_id (enable_row now counter) s) {
        backup_codes =
            map (new_code tenant_id member_id) codes ++ delete_codes member_id s.backup_codes;
      }

  abbrev pub confirm_code :
      ℕ → ℕ → List (ℕ × String) → ℕ → Store → Option ℕ → Result EnrollmentError Store
  confirm_code tenant_id member_id codes now s none = err wrong_code
  confirm_code tenant_id member_id codes now s (some counter) =
      ok (enable tenant_id member_id codes now counter s)

  abbrev pub confirm_secret :
      ℕ
      → ℕ
      → String
      → List (ℕ × String)
      → ℕ
      → Store
      → Option (List ℕ)
      → Result EnrollmentError Store
  confirm_secret tenant_id member_id token codes now s none = err undecryptable
  confirm_secret tenant_id member_id token codes now s (some secret) =
      confirm_code tenant_id member_id codes now s (verify_totp host.hmac secret token now 1 6 none)

  abbrev pub confirm_sealed :
      ℕ
      → ℕ
      → String
      → List (ℕ × String)
      → ℕ
      → Store
      → Bool
      → Option (List ℕ)
      → Result EnrollmentError Store
  confirm_sealed tenant_id member_id token codes now s free none = err not_started
  confirm_sealed tenant_id member_id token codes now s false (some sealed) = err already_enabled
  confirm_sealed tenant_id member_id token codes now s true (some sealed) =
      confirm_secret tenant_id member_id token codes now s (decrypt_secret host sealed)

  abbrev pub confirm_row :
      ℕ → ℕ → String → List (ℕ × String) → ℕ → Store → Option Member → Result EnrollmentError Store
  confirm_row tenant_id member_id token codes now s none = err not_started
  confirm_row tenant_id member_id token codes now s (some m) =
      confirm_sealed tenant_id member_id token codes now s (is_none m.totp_enabled_at)
        m.totp_secret_enc

  unfoldable pub confirm_enrollment :
      ℕ → ℕ → String → List (ℕ × String) → ℕ → Store → Result EnrollmentError Store
  confirm_enrollment tenant_id member_id token codes now s =
      confirm_row tenant_id member_id token codes now s
        (first_row (is_target tenant_id member_id) s.members)

  -- What follows the check of the code in `disable`; the attempt has been committed before.
  unfoldable pub disable_checked :
      (String → String)
      → ℕ
      → ℕ
      → Option String
      → ℕ
      → Store
      → Result LoginError (Bool × Store)
      → Result EnrollmentError (Unit {0}) × Store
  disable_checked hash_token tenant_id member_id current now s (err e) = (err (login_refused e), s)
  disable_checked hash_token tenant_id member_id current now s (ok (false, after)) =
      (err wrong_code, after)
  disable_checked hash_token tenant_id member_id current now s (ok (true, after)) = (
    ok tt,
    (revoke_all_for_member hash_token tenant_id member_id current now
        (clear tenant_id member_id after)).0,
  )

  -- `disable`, and the store behind it, which a wrong code changes too.
  unfoldable pub disable_totp :
      (String → String)
      → ℕ
      → ℕ
      → String
      → Option String
      → ℕ
      → Store
      → Result EnrollmentError (Unit {0}) × Store
  disable_totp hash_token tenant_id member_id token current now s =
      disable_checked hash_token tenant_id member_id current now s
        (verify_for_login host member_id token now s)

-- `resetForMember`.
unfoldable pub reset_for_member :
    (String → String) → ℕ → ℕ → ℕ → Store → Result EnrollmentError Store
reset_for_member hash_token actor_tenant_id target_id now s =
    if count_rows (is_target actor_tenant_id target_id) s.members == 0
    then err member_missing
    else ok (
        (revoke_all_for_member hash_token actor_tenant_id target_id none now
          (clear actor_tenant_id target_id s)).0)
