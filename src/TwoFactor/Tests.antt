-- ===== src/TwoFactor/Tests.antt =====
-- A host with plain functions in place of the cryptography, and the theorems at inputs.
use Prim.Native.String.{String}
use Prim.Native.String
use text.Mathlib.Text.{◌==◌ as str_eq}
use nudgeon_platform.Common.{
  ℕ, ◌≤◌, ◌≡◌, refl, ◌↔◌, ◌⊎◌, arith, ◌≢◌, true, false, All, List, [], ◌∷◌, Option, none, some, ok,
  err, decimal_from, decimal, ◌==◌, if◌then◌else◌, ◌+◌, ◌*◌, length, ==_iff, zero, suc, ◌&&◌,
}
use Prim.Native.Char.{code}
use nudgeon_platform.Authz.{owner}
use nudgeon_platform.Accounts.{active, Member, Store}
use nudgeon_platform.Envelope.{Cipher, Envelope, seal, unseal, encrypt_envelope, decrypt_envelope}
use nudgeon_platform.Envelope.Laws.{IsCipher, IsReadBack, decrypt_envelope-encrypt_envelope}
use nudgeon_platform.TwoFactor.Totp.{
  without, units, are_digits, is_code, pad_start, byte_at, hotp, scan, verify_totp,
}
use nudgeon_platform.TwoFactor.Totp.Window.{Matches, verify_totp_iff}
use nudgeon_platform.TwoFactor.Login.{
  Host, locked, pack_envelope, unpack_envelope, decrypt_secret, normalize_backup_code,
  update_member, consume, try_backup_code, is_locked, fail_with, login_backup, login_code,
  login_secret, login_enrolled, login_row, verify_for_login,
}
use nudgeon_platform.Accounts.Sessions.{
  SessionMember, join_session, resolve_rows, resolve, revoke_all_for_member,
}
use nudgeon_platform.Accounts.Members.{update_target}
use nudgeon_platform.TwoFactor.Enrollment.{
  Draw, already_enabled, wrong_code, sealed_secret, clear, start_enrollment, enable,
  confirm_enrollment, disable_checked, disable_totp, reset_for_member, new_code, clear_row,
}
use nudgeon_platform.TwoFactor.Enrollment.Recovery.{
  is_cleared, reset_for_member-clears, resolve-reset_for_member,
}
use nudgeon_platform.TwoFactor.Enrollment.Secrets.{
  unpack_envelope-pack_envelope, decrypt_secret-sealed_secret,
}
use nudgeon_platform.TwoFactor.Login.Steps.{IsEnrolled}
use nudgeon_platform.TwoFactor.Login.Guesses.{tally, guesses-bound_of_window}
use nudgeon_platform.TwoFactor.Login.Progress.{ByCounter, ByBackupCode, verify_for_login-true}

-- A cipher that does not change the bytes, with a tag of zeros, and the texts over A, B and C.
abbrev zero_tag : List ℕ
zero_tag = 0 ∷ 0 ∷ 0 ∷ 0 ∷ 0 ∷ 0 ∷ 0 ∷ 0 ∷ 0 ∷ 0 ∷ 0 ∷ 0 ∷ 0 ∷ 0 ∷ 0 ∷ 0 ∷ []

abbrev nonce : List ℕ
nonce = 0 ∷ 1 ∷ 2 ∷ 3 ∷ 4 ∷ 5 ∷ 6 ∷ 7 ∷ 8 ∷ 9 ∷ 10 ∷ 11 ∷ []

unfoldable bytes_of : String → List ℕ
bytes_of String.[] = []
bytes_of (String.◌∷◌ c s) = code c ∷ bytes_of s

abbrev letter : ℕ → String
letter n = if n == 65 then "A" else if n == 66 then "B" else "C"

unfoldable text_of : List ℕ → String
text_of [] = ""
text_of (b ∷ bs) = String.◌++◌ (letter b) (text_of bs)

abbrev repeated : ℕ → ℕ → List ℕ
repeated zero b = []
repeated (suc n) b = b ∷ repeated n b

-- A key of 32 bytes.
abbrev key_of : ℕ → List ℕ
key_of b = repeated 32 b

abbrev plain : Cipher
plain = record {
  encrypt = λ key nonce plaintext. if length key == 32 then some (plaintext, zero_tag) else none;
  decrypt = λ key nonce body tag. some body;
  utf8 = bytes_of;
  from_utf8 = text_of;
}

-- A digest whose last byte is 0 and whose fourth one is the counter's last.
abbrev digest : List ℕ → List ℕ → List ℕ
digest secret buffer = 0 ∷ 0 ∷ 0 ∷ byte_at buffer 7 ∷ 0 ∷ []

abbrev host : Host
host = record {
  cipher = plain;
  master_key = some (key_of 1);
  from_base64 = bytes_of;
  hmac = digest;
  argon_verify = str_eq;
  to_upper = λ t. t;
}

abbrev content : Option (List ℕ) → List ℕ
content none = []
content (some bytes) = bytes

abbrev sealed : List ℕ
sealed = pack_envelope (record {
  ciphertext = content (seal plain (key_of 7) nonce (bytes_of "ABC"));
  dek_wrapped = content (seal plain (key_of 1) nonce (key_of 7));
})

abbrev member : Option ℕ → ℕ → Option ℕ → Member
member last failed until = record {
  id = 11;
  tenant_id = 1;
  email = "b@x.io";
  password_hash = none;
  name = "B";
  role = owner;
  status = active;
  totp_secret_enc = some sealed;
  totp_enabled_at = some 0;
  totp_last_counter = last;
  totp_failed_count = failed;
  totp_locked_until = until;
}

abbrev store : Member → Option ℕ → Store
store m used = record {
  tenants = [];
  members = m ∷ [];
  sessions = [];
  backup_codes =
      record { id = 1; tenant_id = 1; member_id = 11; code_hash = "ABCDE12345"; used_at = used }
      ∷ [];
}

-- Two members with a session each.
abbrev team : Store
team = record {
  tenants = record { id = 1; require_2fa = false } ∷ [];
  members = member none 0 none ∷ record (member none 0 none) { id = 12; email = "c@x.io" } ∷ [];
  sessions =
      record {
        tenant_id = 1;
        member_id = 11;
        token_hash = "tok";
        expires_at = 100;
        revoked_at = none;
      }
      ∷ record {
        tenant_id = 1;
        member_id = 12;
        token_hash = "two";
        expires_at = 100;
        revoked_at = none;
      }
      ∷ [];
  backup_codes = [];
}

abbrev plain_hash : String → String
plain_hash t = t

abbrev reset_team : Store
reset_team = (revoke_all_for_member plain_hash 1 11 none 5 (clear 1 11 team)).0

abbrev other : SessionMember
other = record {
  member_id = 12;
  tenant_id = 1;
  email = "c@x.io";
  name = "B";
  role = owner;
  totp_enabled = true;
  requires_2fa = false;
}

abbrev draw : Draw
draw = record { secret = 65 ∷ 66 ∷ 67 ∷ []; dek = key_of 7; body_nonce = nonce; key_nonce = nonce }

abbrev base64 : List ℕ → String
base64 bytes = "ABC"

runs : Unit {0}
unfolding update_target revoke_all_for_member clear reset_for_member join_session resolve_rows
    resolve start_enrollment enable confirm_enrollment disable_checked disable_totp bytes_of text_of
    seal unseal encrypt_envelope decrypt_envelope without units are_digits is_code pad_start hotp
    scan verify_totp decrypt_secret normalize_backup_code update_member consume try_backup_code
    fail_with login_backup login_code login_secret login_enrolled login_row verify_for_login tally
    decimal decimal_from
runs = tt

-- At 3,000 seconds the counter is 100, and the window has 99, 100 and 101.
code_tests :
    (hotp digest [] 7 6 ≡ "000007")
    × (verify_totp digest [] "000 100" 3000000 1 6 none ≡ some 100)
    × (verify_totp digest [] "000101" 3000000 1 6 (some 100) ≡ some 101)
    × (verify_totp digest [] "000100" 3000000 1 6 (some 100) ≡ none)
    × (verify_totp digest [] "000102" 3000000 1 6 none ≡ none)
    × (verify_totp digest [] "12345" 3000000 1 6 none ≡ none)
unfolding runs
code_tests = (refl, refl, refl, refl, refl, refl)

login_tests :
    (verify_for_login host 11 "000100" 3000000 (store (member none 3 none) none)
      ≡ ok (true, store (member (some 100) 0 none) none))
    × (verify_for_login host 11 "ABCDE-12345" 3000000 (store (member none 3 none) none)
        ≡ ok (true, store (member none 0 none) (some 3000000)))
    × (verify_for_login host 11 "ABCDE-12345" 3000000 (store (member none 3 none) (some 5))
        ≡ ok (false, store (member none 4 none) (some 5)))
    × (verify_for_login host 11 "000200" 3000000 (store (member none 4 none) none)
        ≡ ok (false, store (member none 0 (some 3900000)) none))
    × (verify_for_login host 11 "000100" 3000000 (store (member none 0 (some 3000001)) none)
        ≡ err locked)
unfolding runs
login_tests = (refl, refl, refl, refl, refl)

plain-IsCipher : IsCipher plain
plain-IsCipher = record {
  encrypts = λ key nonce plaintext keyed size. record {
    body = plaintext;
    tag = zero_tag;
    made = rw ((==_iff (length key) 32).1 keyed) refl;
    same_length = refl;
    tag_length = refl;
    decrypts = refl;
  };
  refuses = λ key nonce plaintext other. rw other refl;
}

decrypt_envelope-encrypt_envelope_example :
    (((length (key_of 7) == 32) && (length (key_of 1) == 32)) ≡ true)
      × IsReadBack plain plain-IsCipher (key_of 7) nonce nonce (key_of 1) "ABC"
    ⊎ ((((length (key_of 7) == 32) && (length (key_of 1) == 32)) ≡ false)
        × (encrypt_envelope plain (key_of 7) nonce nonce (key_of 1) "ABC" ≡ none))
unfolding runs
decrypt_envelope-encrypt_envelope_example =
    decrypt_envelope-encrypt_envelope plain plain-IsCipher (key_of 7) nonce nonce (key_of 1) "ABC"
      refl refl refl

-- With a key of another length there is no envelope.
short_key : encrypt_envelope plain (key_of 7) nonce nonce (1 ∷ []) "ABC" ≡ none
unfolding runs
short_key = refl

verify_totp_iff_example : (verify_totp digest [] "000100" 3000000 1 6 (some 99) ≡ some 100) ↔ (
    Matches digest [] "000100" 3000000 1 6 (some 99) 100
    × ((d : ℕ) → Matches digest [] "000100" 3000000 1 6 (some 99) d → 100 ≤ d))
verify_totp_iff_example = verify_totp_iff digest [] "000100" 3000000 1 6 (some 99) 100

enrolled :
    (last : Option ℕ) (failed : ℕ) (until used : Option ℕ)
    → IsEnrolled 11 (store (member last failed until) used) (member last failed until) 0 sealed
enrolled last failed until used = record { found = refl; enabled = refl; secret = refl }

verify_for_login-true_example :
    (is_locked none 3000000 ≡ false)
    × (ByCounter host 11 "000100" 3000000
          (store (member none 3 none) none)
          (store (member (some 100) 0 none) none)
          (member none 3 none)
          0
          sealed
        ⊎ ByBackupCode host 11 "000100" 3000000
            (store (member none 3 none) none)
            (store (member (some 100) 0 none) none)
            (member none 3 none)
            0
            sealed)
unfolding runs
verify_for_login-true_example =
    verify_for_login-true host 11 "000100" 3000000 (store (member none 3 none) none)
      (store (member (some 100) 0 none) none) (member none 3 none) 0 sealed
      (enrolled none 3 none none) refl

-- Two wrong attempts, after which the row is locked, and a right one that is refused.
abbrev attempts : List (String × ℕ)
attempts = ("000200", 3000000) ∷ ("1", 3000001) ∷ ("000100", 3000002) ∷ []

attempts-tally : tally host 11 attempts (store (member none 3 none) none) ≡ (0, 2)
unfolding runs
attempts-tally = refl

guesses-bound_of_window_example :
    (tally host 11 attempts (store (member none 3 none) none)).1
    ≤ 5 + 4 * (tally host 11 attempts (store (member none 3 none) none)).0
guesses-bound_of_window_example =
    guesses-bound_of_window host 11 attempts 2999999 (store (member none 3 none) none)
      (member none 3 none) 0 sealed (enrolled none 3 none none)
      ((omega arith, omega arith), ((omega arith, omega arith), ((omega arith, omega arith), tt)))

enrollment_tests :
    (start_enrollment host base64 1 11 draw (store (member none 0 none) none) ≡ err already_enabled)
    × (start_enrollment host base64 1 11 draw (store (clear_row (member none 0 none)) none)
        ≡ ok (store (record (member none 0 none) { totp_enabled_at = none }) none))
    × (confirm_enrollment host 1 11 "000100"
          ((5, "X") ∷ [])
          3000000
          (store (record (member none 0 none) { totp_enabled_at = none }) none)
        ≡ ok
            (record (store
              (record (member (some 100) 0 none) { totp_enabled_at = some 3000000 })
              none) { backup_codes = new_code 1 11 (5, "X") ∷ [] }))
    × (disable_totp host plain_hash 1 11 "000200" none 3000000 (store (member none 0 none) none)
        ≡ (err wrong_code, store (member none 1 none) none))
    × (disable_totp host plain_hash 1 11 "000100" none 3000000 (store (member none 0 none) none)
        ≡ (ok tt, record (store (clear_row (member none 0 none)) none) { backup_codes = [] }))
unfolding runs
enrollment_tests = (refl, refl, refl, refl, refl)

reset_for_member-clears_example :
    All (λ m. is_cleared 1 11 m ≡ true) reset_team.members
    × All (λ c. (c.member_id == 11) ≡ false) reset_team.backup_codes
unfolding runs
reset_for_member-clears_example = reset_for_member-clears plain_hash 1 11 5 team reset_team refl

resolve-reset_for_member_example : other.member_id ≢ 11
unfolding runs
resolve-reset_for_member_example =
    resolve-reset_for_member plain_hash 1 11 5 team reset_team "two" 9 other refl refl refl

abbrev envelope : Envelope
envelope = record { ciphertext = 1 ∷ 2 ∷ 3 ∷ []; dek_wrapped = 4 ∷ 5 ∷ [] }

unpack_envelope-pack_envelope_example : unpack_envelope (pack_envelope envelope) ≡ some envelope
unpack_envelope-pack_envelope_example = unpack_envelope-pack_envelope envelope (omega arith)

decrypt_secret-sealed_secret_example :
    (bytes : List ℕ) × (sealed_secret host base64 draw (key_of 1) ≡ some bytes)
    × (decrypt_secret host bytes ≡ some (65 ∷ 66 ∷ 67 ∷ []))
unfolding runs
decrypt_secret-sealed_secret_example =
    decrypt_secret-sealed_secret host base64 draw (key_of 1) plain-IsCipher refl refl refl refl refl
      refl refl (omega arith)
