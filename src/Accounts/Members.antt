-- ===== src/Accounts/Members.antt =====
-- apps/api/src/members/members.service.ts. A transaction that is rolled back leaves the store as it was,
-- so an error stands for no change. SQL's `lower` and the hash of the password are arguments, and
-- `updated_at` is left out.
pub mod Laws
pub mod Owners
pub mod Escalation
use Prim.Native.String.{String}
use text.Mathlib.Text.{◌==◌ as str_eq}
use nudgeon_platform.Common.{
  ℕ, ◌≡◌, Bool, true, false, not, ◌&&◌, List, [], ◌∷◌, Option, none, some, ◌==◌, if◌then◌else◌, any,
  first_row, update_rows, count_rows, Result, ok, err, and_then,
}
use nudgeon_platform.Authz.{Role, owner, admin, editor, viewer, as_role}
use nudgeon_platform.Accounts.{Status, active, invited, disabled, Member, Store}
use nudgeon_platform.Accounts.Sessions.{is_active, revoke_all_for_member}

-- The exceptions, and the refusal of a row by a unique index.
pub data MemberError : Type 0 where
  duplicate_email unknown_role owner_assignment owner_management last_owner : MemberError
  self_removal member_missing unique_violation : MemberError

abbrev pub is_owner : Role → Bool
is_owner owner = true
is_owner admin = false
is_owner editor = false
is_owner viewer = false

abbrev pub is_target : ℕ → ℕ → Member → Bool
is_target tenant_id target_id m = m.tenant_id == tenant_id && m.id == target_id

abbrev pub is_active_owner : ℕ → Member → Bool
is_active_owner tenant_id m = m.tenant_id == tenant_id && (is_owner m.role && is_active m.status)

-- The rows that `assertNotLastOwner` counts.
abbrev pub is_other_owner : ℕ → ℕ → Member → Bool
is_other_owner tenant_id target_id m = is_active_owner tenant_id m && not (m.id == target_id)

abbrev pub found_or_missing : Option Member → Result MemberError Member
found_or_missing none = err member_missing
found_or_missing (some m) = ok m

unfoldable pub lock_member : ℕ → ℕ → Store → Result MemberError Member
lock_member tenant_id target_id s =
    found_or_missing (first_row (is_target tenant_id target_id) s.members)

-- `assertInTenant`.
unfoldable pub assert_in_tenant : ℕ → ℕ → Store → Result MemberError (Unit {0})
assert_in_tenant tenant_id member_id s =
    if count_rows (is_target tenant_id member_id) s.members == 0 then err member_missing else ok tt

unfoldable pub assert_not_last_owner : ℕ → ℕ → Store → Result MemberError (Unit {0})
assert_not_last_owner tenant_id target_id s =
    if count_rows (is_other_owner tenant_id target_id) s.members == 0 then err last_owner else ok tt

abbrev pub assignable : String → Option Role → Result MemberError Role
assignable actor_role none = err unknown_role
assignable actor_role (some role) =
    if is_owner role && not (str_eq actor_role "owner") then err owner_assignment else ok role

-- `assertAssignableRole`, with the role that the text is.
unfoldable pub assert_assignable_role : String → String → Result MemberError Role
assert_assignable_role actor_role new_role = assignable actor_role (as_role new_role)

unfoldable pub assert_can_manage_target : String → Role → Result MemberError (Unit {0})
assert_can_manage_target actor_role target_role =
    if is_owner target_role && not (str_eq actor_role "owner") then err owner_management else ok tt

abbrev pub set_role : Role → Member → Member
set_role role m = record m { role = role }

abbrev pub disable : Member → Member
disable m = record m { status = disabled }

unfoldable pub update_target : ℕ → ℕ → (Member → Member) → Store → Store
update_target tenant_id target_id f s = record s {
  members = update_rows (is_target tenant_id target_id) f s.members;
}

-- `if (target.role === "owner" && …) await this.assertNotLastOwner(…)`.
unfoldable pub keeps_an_owner : Bool → ℕ → ℕ → Store → Result MemberError (Unit {0})
keeps_an_owner leaves tenant_id target_id s =
    if leaves then assert_not_last_owner tenant_id target_id s else ok tt

-- `changeRole`, and the number of sessions revoked.
unfoldable pub change_role :
    (String → String) → ℕ → String → ℕ → String → ℕ → Store → Result MemberError (Store × ℕ)
change_role hash_token tenant_id actor_role target_id new_role now s =
    and_then (lock_member tenant_id target_id s) (λ target.
      and_then (assert_assignable_role actor_role new_role) (λ role.
        and_then (assert_can_manage_target actor_role target.role) (λ _.
          and_then
            (keeps_an_owner (is_owner target.role && not (is_owner role)) tenant_id target_id s)
            (λ _. ok (
              revoke_all_for_member hash_token tenant_id target_id none now
                (update_target tenant_id target_id (set_role role) s))))))

unfoldable pub remove :
    (String → String) → ℕ → String → ℕ → ℕ → ℕ → Store → Result MemberError (Store × ℕ)
remove hash_token tenant_id actor_role actor_id target_id now s =
    if actor_id == target_id
    then err self_removal
    else and_then (lock_member tenant_id target_id s) (λ target.
      and_then (assert_can_manage_target actor_role target.role) (λ _.
        and_then (keeps_an_owner (is_owner target.role) tenant_id target_id s) (λ _. ok (
          revoke_all_for_member hash_token tenant_id target_id none now
            (update_target tenant_id target_id disable s)))))

abbrev pub new_member : ℕ → ℕ → String → String → String → Role → Member
new_member id tenant_id email password_hash name role = record {
  id = id;
  tenant_id = tenant_id;
  email = email;
  password_hash = some password_hash;
  name = name;
  role = role;
  status = active;
  totp_secret_enc = none;
  totp_enabled_at = none;
  totp_last_counter = none;
  totp_failed_count = 0;
  totp_locked_until = none;
}

-- The `INSERT`, which the primary key and the unique index on `lower(email)` may refuse.
unfoldable pub insert_member : (String → String) → Member → Store → Result MemberError Store
insert_member lower m s =
    if any (λ o. o.id == m.id) s.members
    then err unique_violation
    else if any (λ o. str_eq (lower o.email) (lower m.email)) s.members
    then err unique_violation
    else ok (record s { members = m ∷ s.members })

abbrev pub is_duplicate : (String → String) → ℕ → String → Member → Bool
is_duplicate lower tenant_id email m =
    m.tenant_id == tenant_id && str_eq (lower m.email) (lower email)

-- `create`, with the id that the database gives the row.
unfoldable pub create_member :
    (String → String)
    → ℕ
    → ℕ
    → String
    → String
    → String
    → String
    → String
    → Store
    → Result MemberError Store
create_member lower id tenant_id actor_role email name new_role password_hash s =
    and_then (assert_assignable_role actor_role new_role) (λ role.
      if count_rows (is_duplicate lower tenant_id email) s.members == 0
      then insert_member lower (new_member id tenant_id email password_hash name role) s
      else err duplicate_email)

-- A request to the service, with what the database and the clock add to it.
pub data Request : Type 0 where
  create : (id tenant_id : ℕ) → (actor_role email name new_role password_hash : String) → Request
  change :
      (tenant_id : ℕ)
      → (actor_role : String) → (target_id : ℕ) → (new_role : String) → (now : ℕ) → Request
  removal : (tenant_id : ℕ) → (actor_role : String) → (actor_id target_id now : ℕ) → Request

-- The store behind a request: an error leaves it as it was.
abbrev pub committed {ℓ} : {A : Type ℓ} → (A → Store) → Result MemberError A → Store → Store
committed after (ok a) s = after a
committed after (err e) s = s

unfoldable pub handle : (String → String) → (String → String) → Request → Store → Store
handle hash_token lower (create id tenant_id actor_role email name new_role password_hash) s =
    committed (λ after. after)
      (create_member lower id tenant_id actor_role email name new_role password_hash s) s
handle hash_token lower (change tenant_id actor_role target_id new_role now) s =
    committed (λ after. after.0)
      (change_role hash_token tenant_id actor_role target_id new_role now s) s
handle hash_token lower (removal tenant_id actor_role actor_id target_id now) s =
    committed (λ after. after.0) (remove hash_token tenant_id actor_role actor_id target_id now s) s

unfoldable pub handle_all : (String → String) → (String → String) → List Request → Store → Store
handle_all hash_token lower [] s = s
handle_all hash_token lower (r ∷ rs) s =
    handle_all hash_token lower rs (handle hash_token lower r s)
