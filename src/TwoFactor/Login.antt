-- ===== src/TwoFactor/Login.antt =====
-- apps/api/src/auth/totp.service.ts: `verifyForLogin` and what it calls. Its transaction, behind the lock on
-- the member's row, is one step. An exception rolls it back, so that an error leaves the store.
pub mod Steps
pub mod Guesses
pub mod Progress
use Prim.Native.String.{String}
use nudgeon_platform.Common.{
  ℕ, zero, suc, ◌+◌, ◌*◌, ◌&&◌, ◌||◌, Bool, true, false, List, [], ◌∷◌, ◌++◌, Option, none, some,
  ◌==◌, ltb, leb, if◌then◌else◌, is_none, first_row, update_rows, count_rows, length, take, drop,
  Result, ok, err,
}
use nudgeon_platform.Accounts.{Member, BackupCode, Store}
use nudgeon_platform.Envelope.{Cipher, Envelope, decrypt_envelope}
use nudgeon_platform.TwoFactor.Totp.{is_space, without, units, uint32_be, verify_totp}

-- What Node and argon2 do, and the master key that the environment gives (none is an exception).
pub record Host : Type 0 where
  pub cipher : Cipher
  pub master_key : Option (List ℕ)
  pub from_base64 : String → List ℕ
  pub hmac : List ℕ → List ℕ → List ℕ
  pub argon_verify : String → String → Bool
  pub to_upper : String → String

abbrev pub max_failed : ℕ
max_failed = 5

abbrev pub lock_minutes : ℕ
lock_minutes = 15

-- `locked` is the UnauthorizedException, and `undecryptable` what `decryptSecret` throws.
pub data LoginError : Type 0 where
  locked undecryptable : LoginError

abbrev pub pack_envelope : Envelope → List ℕ
pack_envelope env = uint32_be (length env.ciphertext) ++ (env.ciphertext ++ env.dek_wrapped)

-- `unpackEnvelope`; `readUInt32BE` throws on a short buffer.
abbrev pub unpack_envelope : List ℕ → Option Envelope
unpack_envelope (a ∷ b ∷ c ∷ d ∷ rest) =
    let n = a * 16777216 + b * 65536 + c * 256 + d in
    some (record { ciphertext = take n rest; dek_wrapped = drop n rest })
unpack_envelope _ = none

abbrev pub decrypt_with : Cipher → Option (List ℕ) → Option Envelope → Option String
decrypt_with cipher none env = none
decrypt_with cipher (some key) none = none
decrypt_with cipher (some key) (some env) = decrypt_envelope cipher key env

abbrev pub decoded : (String → List ℕ) → Option String → Option (List ℕ)
decoded from_base64 none = none
decoded from_base64 (some text) = some (from_base64 text)

unfoldable pub decrypt_secret : Host → List ℕ → Option (List ℕ)
decrypt_secret host bytes =
    decoded host.from_base64 (decrypt_with host.cipher host.master_key (unpack_envelope bytes))

-- `[\s-]`.
abbrev pub is_filler : ℕ → Bool
is_filler c = is_space c || c == 45

unfoldable pub normalize_backup_code : Host → String → String
normalize_backup_code host text = host.to_upper (without is_filler text)

abbrev pub is_member : ℕ → Member → Bool
is_member member_id m = m.id == member_id

unfoldable pub update_member : ℕ → (Member → Member) → Store → Store
update_member member_id f s = record s { members = update_rows (is_member member_id) f s.members }

-- The member's codes that are not used.
abbrev pub is_unused : ℕ → BackupCode → Bool
is_unused member_id c = c.member_id == member_id && is_none c.used_at

abbrev pub is_open_code : ℕ → BackupCode → Bool
is_open_code id c = c.id == id && is_none c.used_at

abbrev pub use_code : ℕ → BackupCode → BackupCode
use_code now c = record c { used_at = some now }

-- The update at the row that matches, and whether it was one row.
unfoldable pub consume : Option BackupCode → ℕ → Store → Bool × Store
consume none now s = (false, s)
consume (some r) now s = (
  count_rows (is_open_code r.id) s.backup_codes == 1,
  record s { backup_codes = update_rows (is_open_code r.id) (use_code now) s.backup_codes },
)

abbrev pub is_matching : Host → ℕ → String → BackupCode → Bool
is_matching host member_id norm c = is_unused member_id c && host.argon_verify c.code_hash norm

-- `tryBackupCode`.
unfoldable pub try_backup_code : Host → ℕ → String → ℕ → Store → Bool × Store
try_backup_code host member_id token now s =
    let norm = normalize_backup_code host token in
    if ltb (units norm) 8
    then (false, s)
    else consume (first_row (is_matching host member_id norm) s.backup_codes) now s

abbrev pub is_locked : Option ℕ → ℕ → Bool
is_locked none now = false
is_locked (some until) now = ltb now until

abbrev pub accept_counter : ℕ → Member → Member
accept_counter counter m = record m {
  totp_last_counter = some counter;
  totp_failed_count = 0;
  totp_locked_until = none;
}

abbrev pub reset_failures : Member → Member
reset_failures m = record m { totp_failed_count = 0; totp_locked_until = none }

abbrev pub lock_row : ℕ → Member → Member
lock_row now m = record m {
  totp_failed_count = 0;
  totp_locked_until = some (now + lock_minutes * 60000);
}

abbrev pub set_failed : ℕ → Member → Member
set_failed failed m = record m { totp_failed_count = failed }

-- The update of a failed attempt, where the row that was read has so many.
unfoldable pub fail_with : ℕ → ℕ → Member → Member
fail_with failed_count now m =
    if leb max_failed (suc failed_count) then lock_row now m else set_failed (suc failed_count) m

-- What follows the attempt with a backup code.
unfoldable pub login_backup : ℕ → Member → ℕ → Bool × Store → Bool × Store
login_backup member_id m now (true, s) = (true, update_member member_id reset_failures s)
login_backup member_id m now (false, s) =
    (false, update_member member_id (fail_with m.totp_failed_count now) s)

module _ (host : Host) where
  -- What follows `verifyTotp`.
  unfoldable pub login_code : ℕ → Member → String → ℕ → Store → Option ℕ → Bool × Store
  login_code member_id m token now s (some counter) =
      (true, update_member member_id (accept_counter counter) s)
  login_code member_id m token now s none =
      login_backup member_id m now (try_backup_code host member_id token now s)

  unfoldable pub login_secret :
      ℕ → Member → String → ℕ → Store → Option (List ℕ) → Result LoginError (Bool × Store)
  login_secret member_id m token now s none = err undecryptable
  login_secret member_id m token now s (some secret) = ok (
      login_code member_id m token now s
        (verify_totp host.hmac secret token now 1 6 m.totp_last_counter))

  unfoldable pub login_enrolled :
      ℕ
      → Member
      → String
      → ℕ
      → Store
      → Option ℕ
      → Option (List ℕ)
      → Result LoginError (Bool × Store)
  login_enrolled member_id m token now s none secret = ok (false, s)
  login_enrolled member_id m token now s (some at) none = ok (false, s)
  login_enrolled member_id m token now s (some at) (some secret) =
      if is_locked m.totp_locked_until now
      then err locked
      else login_secret member_id m token now s (decrypt_secret host secret)

  unfoldable pub login_row :
      ℕ → String → ℕ → Store → Option Member → Result LoginError (Bool × Store)
  login_row member_id token now s none = ok (false, s)
  login_row member_id token now s (some m) =
      login_enrolled member_id m token now s m.totp_enabled_at m.totp_secret_enc

  unfoldable pub verify_for_login : ℕ → String → ℕ → Store → Result LoginError (Bool × Store)
  verify_for_login member_id token now s =
      login_row member_id token now s (first_row (is_member member_id) s.members)
