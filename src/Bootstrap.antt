-- ===== src/Bootstrap.antt =====
-- apps/api/src/auth/bootstrap.service.ts, and `createWorkspace` of apps/api/src/auth/auth.service.ts: how an
-- installation of the platform for one customer is claimed with a setup token, gets its first owner, and is
-- locked. The table `installation` of db/postgres/upgrades/0008_installation.sql has one row at most; each
-- transaction locks it, so that it is one step, and one that is rolled back leaves the world.
pub mod Claims
pub mod Once
pub mod Lease
pub mod Grant
pub mod Replay
mod Tests
use Prim.Native.String.{String}
use Prim.Native.String
use text.Mathlib.Text.{◌==◌ as str_eq}
use nudgeon_platform.Common.{
  ℕ, ◌+◌, Bool, true, false, not, ◌&&◌, ◌||◌, List, [], ◌∷◌, Option, none, some, ◌==◌, ltb,
  if◌then◌else◌, any, update_rows, Result, ok, err, and_then,
}
use nudgeon_platform.Authz.{owner}
use nudgeon_platform.Accounts.{Tenant, Member, Store}
use nudgeon_platform.Accounts.Members.{MemberError, new_member, insert_member}

pub data InstallationState : Type 0 where
  unclaimed claimed secured recovery_required : InstallationState

pub record SetupResult : Type 0 where
  pub tenant_id : ℕ
  pub app_id : ℕ
  pub member_id : ℕ
  pub installation_id : ℕ
  pub secured_at : ℕ

pub record InstallationRow : Type 0 where
  pub installation_id : ℕ
  pub state : InstallationState
  pub setup_token_hash : Option String
  pub setup_token_version : ℕ
  pub claim_session_hash : Option String
  pub claim_expires_at : Option ℕ
  pub claimed_at : Option ℕ
  pub secured_at : Option ℕ
  pub tenant_id : Option ℕ
  pub owner_id : Option ℕ
  pub app_id : Option ℕ
  pub setup_idempotency_key_hash : Option String
  pub setup_request_hash : Option String
  pub setup_result : Option SetupResult
  pub record_version : ℕ

pub record WorkspaceApp : Type 0 where
  pub id : ℕ
  pub tenant_id : ℕ
  pub name : String
  pub timezone : String

pub data ApiKeyKind : Type 0 where
  sdk server : ApiKeyKind

pub record ApiKey : Type 0 where
  pub id : ℕ
  pub tenant_id : ℕ
  pub app_id : ℕ
  pub kind : ApiKeyKind
  pub key_hash : String

-- The tables that `createWorkspace` writes.
pub record Workspace : Type 0 where
  pub accounts : Store
  pub apps : List WorkspaceApp
  pub api_keys : List ApiKey

pub record World : Type 0 where
  pub workspace : Workspace
  pub installation : Option InstallationRow

-- The exceptions, and the refusal of a row by a key.
pub data BootstrapError : Type 0 where
  duplicate_email unique_violation no_cookie no_installation already_secured no_token :
      BootstrapError
  wrong_token lease_taken no_lease lease_expired key_reused : BootstrapError
  no_result not_the_holder window_passed : BootstrapError

-- SHA-256 in hexadecimals, `JSON.stringify` of an object of texts, `toLowerCase`, and SQL's `lower`.
pub record Host : Type 0 where
  pub sha256 : String → String
  pub json : List (String × String) → String
  pub to_lower_case : String → String
  pub lower : String → String

-- What Node, argon2 and the database draw: the ids, the random parts of the keys, and the password's hash.
pub record Draw : Type 0 where
  pub tenant_id : ℕ
  pub member_id : ℕ
  pub app_id : ℕ
  pub sdk_id : ℕ
  pub server_id : ℕ
  pub sdk_raw : String
  pub server_raw : String
  pub password_hash : String

pub record SetupInput : Type 0 where
  pub workspace_name : String
  pub app_name : String
  pub owner_name : String
  pub email : String
  pub timezone : Option String

-- What follows a transaction: the new world and an answer, or the world as it was and the exception.
abbrev pub ended {ℓ} :
    {A : Type ℓ} → World → Result BootstrapError (World × A) → World × Result BootstrapError A
ended w (ok (w', a)) = (w', ok a)
ended w (err e) = (w, err e)

-- Whether a text is there and not empty.
abbrev pub is_present : Option String → Bool
is_present none = false
is_present (some t) = not (str_eq t "")

unfoldable pub same : Option String → String → Bool
same none b = false
same (some a) b = not (str_eq a "") && str_eq a b

abbrev pub is_secured : InstallationState → Bool
is_secured secured = true
is_secured _ = false

abbrev pub is_claimed : InstallationState → Bool
is_claimed claimed = true
is_claimed _ = false

-- `t && new Date(t) > new Date()`.
abbrev pub lasts : ℕ → Option ℕ → Bool
lasts now none = false
lasts now (some t) = ltb now t

abbrev pub claim_ttl_ms : ℕ
claim_ttl_ms = 900000

-- `generateApiKey`, whose key is what the answer shows once.
abbrev pub generate_api_key : ApiKeyKind → String → String
generate_api_key sdk raw = String.◌++◌ "pk_" raw
generate_api_key server raw = String.◌++◌ "sk_" raw

-- The answer of `createWorkspace`.
pub record Created : Type 0 where
  pub tenant_id : ℕ
  pub member_id : ℕ
  pub app_id : ℕ
  pub sdk_key : String
  pub server_key : String

abbrev pub inserted : Result MemberError Store → Result BootstrapError Store
inserted (ok s) = ok s
inserted (err e) = err unique_violation

unfoldable pub insert_tenant : ℕ → Store → Result BootstrapError Store
insert_tenant id s =
    if any (λ (t : Tenant). t.id == id) s.tenants
    then err unique_violation
    else ok (record s { tenants = record { id = id; require_2fa = false } ∷ s.tenants })

abbrev pub is_same_app : ℕ → ℕ → String → WorkspaceApp → Bool
is_same_app id tenant_id name a = a.id == id || (a.tenant_id == tenant_id && str_eq a.name name)

unfoldable pub insert_app :
    ℕ → ℕ → String → List WorkspaceApp → Result BootstrapError (List WorkspaceApp)
insert_app id tenant_id name apps =
    if any (is_same_app id tenant_id name) apps
    then err unique_violation
    else ok (record { id = id; tenant_id = tenant_id; name = name; timezone = "Asia/Seoul" } ∷ apps)

unfoldable pub insert_api_key : ApiKey → List ApiKey → Result BootstrapError (List ApiKey)
insert_api_key k keys =
    if any (λ (o : ApiKey). o.id == k.id || str_eq o.key_hash k.key_hash) keys
    then err unique_violation
    else ok (k ∷ keys)

abbrev pub new_key : Host → ℕ → ℕ → ℕ → ApiKeyKind → String → ApiKey
new_key host id tenant_id app_id kind raw = record {
  id = id;
  tenant_id = tenant_id;
  app_id = app_id;
  kind = kind;
  key_hash = host.sha256 (generate_api_key kind raw);
}

-- `createWorkspace`, within a transaction of its caller.
unfoldable pub create_workspace :
    Host → SetupInput → Draw → Workspace → Result BootstrapError (Workspace × Created)
create_workspace host input draw ws =
    if any (λ (m : Member). str_eq (host.lower m.email) (host.lower input.email))
      ws.accounts.members
    then err duplicate_email
    else and_then (insert_tenant draw.tenant_id ws.accounts) (λ with_tenant.
      and_then
        (inserted (
          insert_member host.lower
            (new_member draw.member_id draw.tenant_id (host.lower input.email) draw.password_hash
              input.owner_name owner)
            with_tenant))
        (λ accounts.
          and_then (insert_app draw.app_id draw.tenant_id input.app_name ws.apps) (λ apps.
            and_then
              (insert_api_key (new_key host draw.sdk_id draw.tenant_id draw.app_id sdk draw.sdk_raw)
                ws.api_keys)
              (λ with_sdk.
                and_then
                  (insert_api_key
                    (new_key host draw.server_id draw.tenant_id draw.app_id server draw.server_raw)
                    with_sdk)
                  (λ api_keys. ok (
                    record { accounts = accounts; apps = apps; api_keys = api_keys },
                    record {
                      tenant_id = draw.tenant_id;
                      member_id = draw.member_id;
                      app_id = draw.app_id;
                      sdk_key = generate_api_key sdk draw.sdk_raw;
                      server_key = generate_api_key server draw.server_raw;
                    },
                  ))))))
