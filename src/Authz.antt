-- ===== src/Authz.antt =====
-- apps/api/src/authz/permissions.ts and permission.guard.ts: roles, permissions and the guard.
pub mod Laws
mod Tests
use Prim.Native.String.{String}
use text.Mathlib.Text.{◌==◌ as str_eq}
use nudgeon_platform.Common.{
  ◌≡◌, Bool, true, false, List, [], ◌∷◌, ◌++◌, Option, none, some, if◌then◌else◌, Result, ok, err,
}
use mathlib.Core.Bool.{decide}

pub data Role : Type 0 where
  owner admin editor viewer : Role

pub data Permission : Type 0 where
  segments_read segments_write journeys_read journeys_write journeys_activate : Permission
  in_app_publish credentials_read credentials_write apikeys_read apikeys_write : Permission
  apps_read apps_write team_read team_write settings_write billing_manage : Permission
  tenant_delete member_reset_2fa users_read analytics_read : Permission

unfoldable pub Permission-discrete : Discrete Permission
Permission-discrete = hlevel

abbrev pub read_all : List Permission
read_all = segments_read ∷ journeys_read ∷ apps_read ∷ users_read ∷ analytics_read ∷ []

abbrev pub editor_permissions : List Permission
editor_permissions = read_all ++ (segments_write ∷ journeys_write ∷ journeys_activate ∷ [])

abbrev pub admin_permissions : List Permission
admin_permissions =
    editor_permissions
    ++ (in_app_publish ∷ credentials_read ∷ credentials_write ∷ apikeys_read ∷ apikeys_write
        ∷ apps_write ∷ team_read ∷ team_write ∷ settings_write ∷ member_reset_2fa ∷ [])

abbrev pub owner_permissions : List Permission
owner_permissions = admin_permissions ++ (billing_manage ∷ tenant_delete ∷ [])

-- `ROLE_PERMISSIONS`.
unfoldable pub role_permissions : Role → List Permission
role_permissions viewer = read_all
role_permissions editor = editor_permissions
role_permissions admin = admin_permissions
role_permissions owner = owner_permissions

-- The text of a role, and the role of a text if it is one (`isRole` and the cast behind it).
abbrev pub role_name : Role → String
role_name owner = "owner"
role_name admin = "admin"
role_name editor = "editor"
role_name viewer = "viewer"

unfoldable pub as_role : String → Option Role
as_role value =
    if str_eq value "owner"
    then some owner
    else if str_eq value "admin"
    then some admin
    else if str_eq value "editor"
    then some editor
    else if str_eq value "viewer"
    then some viewer
    else none

-- `isRole`.
abbrev pub is_some {ℓ} : {A : Type ℓ} → Option A → Bool
is_some none = false
is_some (some a) = true

unfoldable pub is_role : String → Bool
is_role value = is_some (as_role value)

-- `includes`.
unfoldable pub includes : List Permission → Permission → Bool
includes [] perm = false
includes (p ∷ ps) perm = if decide (Permission-discrete p perm) then true else includes ps perm

abbrev of_role {ℓ} : {A : Type ℓ} → Option Role → A → (Role → A) → A
of_role none other f = other
of_role (some r) other f = f r

unfoldable pub can : String → Permission → Bool
can role perm = of_role (as_role role) false (λ r. includes (role_permissions r) perm)

unfoldable pub permissions_for_role : String → List Permission
permissions_for_role role = of_role (as_role role) [] role_permissions

pub data AuthError : Type 0 where
  unauthorized : AuthError
  forbidden : Permission → AuthError

-- `canActivate`: what the handler requires, and the role of the member whom the session names.
unfoldable pub can_activate : Option Permission → Option String → Result AuthError Bool
can_activate none member = ok true
can_activate (some required) none = err unauthorized
can_activate (some required) (some role) =
    if can role required then ok true else err (forbidden required)
