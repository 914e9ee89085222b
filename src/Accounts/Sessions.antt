-- ===== src/Accounts/Sessions.antt =====
-- apps/api/src/auth/session.service.ts. `hash_token` (SHA-256) and the random token are arguments.
pub mod Laws
pub mod Revocation
use Prim.Native.String.{String}
use text.Mathlib.Text.{◌==◌ as str_eq}
use nudgeon_platform.Common.{
  ℕ, ◌+◌, ◌*◌, Bool, true, false, not, ◌&&◌, ◌||◌, List, [], ◌∷◌, map, Option, none, some, ◌==◌,
  ltb, if◌then◌else◌, is_none, first_row, update_rows, count_rows,
}
use nudgeon_platform.Authz.{Role}
use nudgeon_platform.Accounts.{Status, active, invited, disabled, Tenant, Member, Session, Store}

pub record SessionMember : Type 0 where
  pub member_id : ℕ
  pub tenant_id : ℕ
  pub email : String
  pub name : String
  pub role : Role
  pub totp_enabled : Bool
  pub requires_2fa : Bool

abbrev pub is_active : Status → Bool
is_active active = true
is_active invited = false
is_active disabled = false

-- The first row of a join, and else the rows behind it.
abbrev pub or_else {ℓ} : {A : Type ℓ} → Option A → Option A → Option A
or_else none rest = rest
or_else (some a) rest = some a

abbrev pub member_of : Session → Store → Option Member
member_of row s = first_row (λ m. m.id == row.member_id && is_active m.status) s.members

abbrev joined : Session → Option Member → Option Tenant → Option SessionMember
joined row none t = none
joined row (some m) none = none
joined row (some m) (some t) = some (record {
  member_id = m.id;
  tenant_id = row.tenant_id;
  email = m.email;
  name = m.name;
  role = m.role;
  totp_enabled = not (is_none m.totp_enabled_at);
  requires_2fa = t.require_2fa;
})

-- The joins of `resolve` at one row of the sessions.
unfoldable pub join_session : Store → Session → Option SessionMember
join_session s row = joined row (member_of row s) (first_row (λ t. t.id == row.tenant_id) s.tenants)

abbrev pub revoke_row : ℕ → Session → Session
revoke_row now row = record row { revoked_at = some now }

module _ (hash_token : String → String) where
  -- `AND token_hash <> $3`, which an empty token does not add.
  abbrev pub is_other : Option String → Session → Bool
  is_other none row = true
  is_other (some except_token) row =
      str_eq except_token "" || not (str_eq row.token_hash (hash_token except_token))

  -- `create`, with the token that `randomBytes` gave and the configured hours.
  unfoldable pub create_session : ℕ → ℕ → String → ℕ → ℕ → Store → Store
  create_session tenant_id member_id token now ttl_hours s = record s {
    sessions =
        record {
          tenant_id = tenant_id;
          member_id = member_id;
          token_hash = hash_token token;
          expires_at = now + ttl_hours * 3600000;
          revoked_at = none;
        }
        ∷ s.sessions;
  }

  -- The condition on the session's row in `resolve`.
  abbrev pub is_live : String → ℕ → Session → Bool
  is_live token now row =
      str_eq row.token_hash (hash_token token) && (is_none row.revoked_at && ltb now row.expires_at)

  -- The rows of `resolve`, the first one first.
  unfoldable pub resolve_rows : Store → String → ℕ → List Session → Option SessionMember
  resolve_rows s token now [] = none
  resolve_rows s token now (row ∷ rows) =
      let rest = resolve_rows s token now rows in
      if is_live token now row then or_else (join_session s row) rest else rest

  unfoldable pub resolve : String → ℕ → Store → Option SessionMember
  resolve token now s = if str_eq token "" then none else resolve_rows s token now s.sessions

  unfoldable pub revoke : String → ℕ → Store → Store
  revoke token now s = record s {
    sessions =
        update_rows (λ row. str_eq row.token_hash (hash_token token) && is_none row.revoked_at)
          (revoke_row now) s.sessions;
  }

  -- The condition of `revokeAllForMember`, with the session that stays.
  abbrev pub is_revocable : ℕ → ℕ → Option String → Session → Bool
  is_revocable tenant_id member_id except_token row =
      row.tenant_id == tenant_id
      && (row.member_id == member_id && (is_none row.revoked_at && is_other except_token row))

  unfoldable pub revoke_all_for_member : ℕ → ℕ → Option String → ℕ → Store → Store × ℕ
  revoke_all_for_member tenant_id member_id except_token now s = (
    record s {
      sessions =
          update_rows (is_revocable tenant_id member_id except_token) (revoke_row now) s.sessions;
    },
    count_rows (is_revocable tenant_id member_id except_token) s.sessions,
  )
