-- ===== src/Accounts.antt =====
-- The tables of accounts (db/postgres/schema.sql: tenants, members, member_backup_codes, sessions), as
-- apps/api/src/auth/session.service.ts, auth/totp.service.ts and members/members.service.ts use them.
-- An id is a number in place of a uuid, and a time is a number of milliseconds.
pub mod Sessions
pub mod Members
mod Tests
use Prim.Native.String.{String}
use nudgeon_platform.Common.{ℕ, Bool, List, Option}
use nudgeon_platform.Authz.{Role}

pub data Status : Type 0 where
  active invited disabled : Status

pub record Tenant : Type 0 where
  pub id : ℕ
  pub require_2fa : Bool

pub record Member : Type 0 where
  pub id : ℕ
  pub tenant_id : ℕ
  pub email : String
  pub password_hash : Option String
  pub name : String
  pub role : Role
  pub status : Status
  pub totp_secret_enc : Option (List ℕ)
  pub totp_enabled_at : Option ℕ
  pub totp_last_counter : Option ℕ
  pub totp_failed_count : ℕ
  pub totp_locked_until : Option ℕ

pub record Session : Type 0 where
  pub tenant_id : ℕ
  pub member_id : ℕ
  pub token_hash : String
  pub expires_at : ℕ
  pub revoked_at : Option ℕ

pub record BackupCode : Type 0 where
  pub id : ℕ
  pub tenant_id : ℕ
  pub member_id : ℕ
  pub code_hash : String
  pub used_at : Option ℕ

pub record Store : Type 0 where
  pub tenants : List Tenant
  pub members : List Member
  pub sessions : List Session
  pub backup_codes : List BackupCode
