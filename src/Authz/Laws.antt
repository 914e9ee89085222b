-- ===== src/Authz/Laws.antt =====
-- What each role may do, and what the guard lets through.
use Prim.Native.String.{String}
use text.Mathlib.TextEquality.{eq_iff}
use mathlib.Core.Bool.{decide}
use nudgeon_platform.Common.{
  ℕ, ◌≤◌, ◌≡◌, refl, sym, ◌∙◌, ◌⊎◌, ◌↔◌, inl, inr, Bool, true, false, List, Option, none, some,
  arith, Option-cases, Bool-cases, ◌≢◌, ok, [], ◌∷◌, ◌++◌,
}
use nudgeon_platform.Authz.{
  Role, owner, admin, editor, viewer, Permission, Permission-discrete, billing_manage,
  tenant_delete, read_all, editor_permissions, admin_permissions, segments_read, role_permissions,
  role_name, as_role, includes, can, permissions_for_role, can_activate,
}

-- The order of the roles.
abbrev pub level : Role → ℕ
level viewer = 0
level editor = 1
level admin = 2
level owner = 3

as_role-role_name : (r : Role) → as_role (role_name r) ≡ some r
unfolding as_role
as_role-role_name owner = refl
as_role-role_name admin = refl
as_role-role_name editor = refl
as_role-role_name viewer = refl

-- A text that is the name of no role.
abbrev pub IsUnknown : String → Type 0
IsUnknown value = (r : Role) → value ≢ role_name r

as_role_of_IsUnknown : (value : String) → IsUnknown value → as_role value ≡ none
unfolding as_role
as_role_of_IsUnknown value h = ground (
  arith,
  eq_iff value "owner",
  eq_iff value "admin",
  eq_iff value "editor",
  eq_iff value "viewer",
  h owner,
  h admin,
  h editor,
  h viewer,
)

includes-append :
    (ps qs : List Permission) (p : Permission) → includes ps p ≡ true → includes (ps ++ qs) p ≡ true
unfolding includes
includes-append [] qs p h = cc
includes-append (x ∷ ps) qs p h = elim (Bool-cases (decide (Permission-discrete x p))) [
  | inl hit ↦ rw hit refl
  | inr miss ↦ rw miss (includes-append ps qs p (rw miss at h))
]

-- What a role grants, without the text that names it.
abbrev grants : Role → Permission → Bool
grants r p = includes (role_permissions r) p

can-role_name : (r : Role) (p : Permission) → can (role_name r) p ≡ grants r p
unfolding can
can-role_name r p = rw (as_role-role_name r) refl

grants-editor : (p : Permission) → grants viewer p ≡ true → grants editor p ≡ true
unfolding role_permissions
grants-editor p h = includes-append read_all _ p h

grants-admin : (p : Permission) → grants editor p ≡ true → grants admin p ≡ true
unfolding role_permissions
grants-admin p h = includes-append editor_permissions _ p h

grants-owner : (p : Permission) → grants admin p ≡ true → grants owner p ≡ true
unfolding role_permissions
grants-owner p h = includes-append admin_permissions _ p h

grants_mono :
    (r s : Role) (p : Permission) → level r ≤ level s → grants r p ≡ true → grants s p ≡ true
grants_mono viewer viewer p le h = h
grants_mono viewer editor p le h = grants-editor p h
grants_mono viewer admin p le h = grants-admin p (grants-editor p h)
grants_mono viewer owner p le h = grants-owner p (grants-admin p (grants-editor p h))
grants_mono editor viewer p le h = absurd (omega arith)
grants_mono editor editor p le h = h
grants_mono editor admin p le h = grants-admin p h
grants_mono editor owner p le h = grants-owner p (grants-admin p h)
grants_mono admin admin p le h = h
grants_mono admin owner p le h = grants-owner p h
grants_mono owner owner p le h = h
grants_mono _ _ p le h = absurd (omega arith)

-- A role may do all that a lower role may do, in the order viewer, editor, admin, owner.
pub can_mono :
    (r s : Role) (p : Permission)
    → level r ≤ level s
    → can (role_name r) p ≡ true
    → can (role_name s) p ≡ true
can_mono r s p le h = can-role_name s p ∙ grants_mono r s p le (sym (can-role_name r p) ∙ h)

-- An owner may do everything, and an admin all but the billing and the deletion of the tenant.
pub can-top :
    (p : Permission)
    → (can "owner" p ≡ true) × ((can "admin" p ≡ true) ↔ (p ≢ billing_manage) × (p ≢ tenant_delete))
unfolding can as_role role_permissions includes Permission-discrete decide
can-top p = (by_owner p, by_admin p)
  where
    by_owner : (p : Permission) → can "owner" p ≡ true
    by_owner segments_read = refl
    by_owner _ = refl

    by_admin :
        (p : Permission) → (can "admin" p ≡ true) ↔ (p ≢ billing_manage) × (p ≢ tenant_delete)
    by_admin billing_manage = (λ e. cc, λ h. absurd (h.0 refl))
    by_admin tenant_delete = (λ e. cc, λ h. absurd (h.1 refl))
    by_admin _ = (λ e. (λ x. cc, λ x. cc), λ h. refl)

-- A text that names no role may do nothing and has no permissions.
pub can_of_IsUnknown :
    (value : String) (p : Permission)
    → IsUnknown value
    → (can value p ≡ false) × (permissions_for_role value ≡ [])
unfolding can permissions_for_role
can_of_IsUnknown value p h = rw (as_role_of_IsUnknown value h) (refl, refl)

can-permissions_for_role :
    (role : String) (p : Permission) → can role p ≡ includes (permissions_for_role role) p
unfolding can permissions_for_role includes
can-permissions_for_role role p = elim (Option-cases (as_role role)) [
  | inl e ↦ rw e refl
  | inr (r, e) ↦ rw e refl
]

-- The guard lets a request through exactly when the handler requires no permission, or when the
-- session has a member whose list of permissions, as the console is shown it, holds the one required.
pub can_activate_iff :
    (required : Option Permission) (member : Option String)
    → (can_activate required member ≡ ok true) ↔ (
        (required ≡ none)
        ⊎ ((p : Permission) × (role : String) × (required ≡ some p)
            × (member ≡ some role)
            × (includes (permissions_for_role role) p ≡ true)))
unfolding can_activate
can_activate_iff none member = (λ e. inl refl, λ h. refl)
can_activate_iff (some p) none = (λ e. cc, λ h. ground arith)
can_activate_iff (some p) (some role) = (
  λ e. inr (p, role, refl, refl, sym (can-permissions_for_role role p) ∙ ground arith),
  λ h. ground (arith, can-permissions_for_role role p),
)
