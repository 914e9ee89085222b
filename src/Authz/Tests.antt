-- ===== src/Authz/Tests.antt =====
-- The matrix of apps/api/src/authz/permissions.spec.ts, and the theorems at inputs.
use mathlib.Core.Bool.{decide}
use Prim.Native.String.{String}
use text.Mathlib.TextEquality.{eq_iff}
use nudgeon_platform.Common.{◌≡◌, refl, ◌≢◌, ◌↔◌, ◌⊎◌, true, false, [], none, some, arith, ok, err}
use nudgeon_platform.Authz.{
  owner, admin, editor, viewer, Permission, Permission-discrete, segments_read, segments_write,
  journeys_activate, credentials_read, team_write, member_reset_2fa, billing_manage, tenant_delete,
  role_permissions, as_role, includes, can, permissions_for_role, can_activate, forbidden,
}
use nudgeon_platform.Authz.Laws.{IsUnknown, can_mono, can-top, can_of_IsUnknown, can_activate_iff}

matrix : Unit {0}
unfolding can can_activate permissions_for_role as_role role_permissions includes
    Permission-discrete decide
matrix = tt

editor_tests :
    (can "editor" credentials_read ≡ false)
    × (can "editor" team_write ≡ false)
    × (can "editor" segments_write ≡ true)
    × (can "editor" journeys_activate ≡ true)
unfolding matrix
editor_tests = (refl, refl, refl, refl)

other_tests :
    (can "viewer" segments_read ≡ true)
    × (can "viewer" segments_write ≡ false)
    × (can "admin" member_reset_2fa ≡ true)
    × (can "admin" billing_manage ≡ false)
    × (can "owner" tenant_delete ≡ true)
    × (can "superuser" segments_read ≡ false)
unfolding matrix
other_tests = (refl, refl, refl, refl, refl, refl)

guard_tests :
    (can_activate (some segments_write) (some "viewer") ≡ err (forbidden segments_write))
    × (can_activate (some segments_write) (some "editor") ≡ ok true)
unfolding matrix
guard_tests = (refl, refl)

can_mono_example : can "admin" journeys_activate ≡ true
can_mono_example = can_mono editor admin journeys_activate (omega arith) editor_tests.3

can-top_example :
    (can "owner" billing_manage ≡ true)
    × ((can "admin" billing_manage ≡ true)
        ↔ (billing_manage ≢ billing_manage) × (billing_manage ≢ tenant_delete))
can-top_example = can-top billing_manage

superuser-IsUnknown : IsUnknown "superuser"
superuser-IsUnknown owner = ground (arith, eq_iff "superuser" "owner")
superuser-IsUnknown admin = ground (arith, eq_iff "superuser" "admin")
superuser-IsUnknown editor = ground (arith, eq_iff "superuser" "editor")
superuser-IsUnknown viewer = ground (arith, eq_iff "superuser" "viewer")

can_of_IsUnknown_example :
    (can "superuser" segments_read ≡ false) × (permissions_for_role "superuser" ≡ [])
can_of_IsUnknown_example = can_of_IsUnknown "superuser" segments_read superuser-IsUnknown

can_activate_iff_example : (can_activate (some segments_write) (some "editor") ≡ ok true) ↔ (
    (some segments_write ≡ none)
    ⊎ ((p : Permission) × (role : String) × (some segments_write ≡ some p)
        × (some "editor" ≡ some role)
        × (includes (permissions_for_role role) p ≡ true)))
can_activate_iff_example = can_activate_iff (some segments_write) (some "editor")
