-- ===== src/Accounts/Tests.antt =====
-- A small store, the operations on it, and the theorems at inputs.
use Prim.Native.String.{String}
use Prim.Native.String
use text.Mathlib.TextEquality.{eq_iff}
use nudgeon_platform.Accounts.Members.Laws.{Keyed}
use nudgeon_platform.Common.{arith, ◌≡◌, refl, ◌≢◌, true, false, [], ◌∷◌, none, some, Memᴰ, err}
use nudgeon_platform.Authz.{owner, admin}
use nudgeon_platform.Accounts.{Store}
use nudgeon_platform.Accounts.Sessions.{
  SessionMember, create_session, join_session, resolve_rows, resolve, revoke, revoke_all_for_member,
}
use nudgeon_platform.Accounts.Sessions.Laws.{IsBacked, resolve-IsBacked}
use nudgeon_platform.Accounts.Sessions.Revocation.{
  resolve-revoke, resolve-revoke_all, resolve-revoke_all_kept,
}
use nudgeon_platform.Accounts.Members.{
  member_missing, last_owner, owner_assignment, owner_management, duplicate_email, unique_violation,
  new_member, lock_member, assert_in_tenant, assert_not_last_owner, assert_assignable_role,
  assert_can_manage_target, update_target, keeps_an_owner, change_role, remove, insert_member,
  create_member, create, change, removal, handle, handle_all,
}
use nudgeon_platform.Accounts.Members.Owners.{IsManaged, handle_all-IsManaged}
use nudgeon_platform.Accounts.Members.Escalation.{
  owners, handle-owners, resolve-change_role, resolve-remove,
}
use nudgeon_platform.Authz.{as_role}

-- A hash for the tests.
abbrev hash : String → String
hash t = String.◌++◌ "h:" t

abbrev lower : String → String
lower t = t

abbrev store : Store
store = record {
  tenants = record { id = 1; require_2fa = true } ∷ record { id = 2; require_2fa = false } ∷ [];
  members =
      new_member 10 1 "a@x.io" "" "A" owner
      ∷ new_member 11 1 "b@x.io" "" "B" owner
      ∷ new_member 12 1 "c@x.io" "" "C" admin
      ∷ new_member 20 2 "d@x.io" "" "D" owner
      ∷ [];
  sessions =
      record {
        tenant_id = 1;
        member_id = 11;
        token_hash = "h:tok";
        expires_at = 100;
        revoked_at = none;
      }
      ∷ record {
        tenant_id = 1;
        member_id = 11;
        token_hash = "h:two";
        expires_at = 100;
        revoked_at = none;
      }
      ∷ [];
  backup_codes = [];
}

abbrev who : SessionMember
who = record {
  member_id = 11;
  tenant_id = 1;
  email = "b@x.io";
  name = "B";
  role = owner;
  totp_enabled = false;
  requires_2fa = true;
}

runs : Unit {0}
unfolding create_session join_session resolve_rows resolve revoke revoke_all_for_member lock_member
    assert_in_tenant assert_not_last_owner assert_assignable_role assert_can_manage_target
    update_target keeps_an_owner change_role remove insert_member create_member handle handle_all
    owners as_role
runs = tt

session_tests :
    (resolve hash "tok" 99 store ≡ some who)
    × (resolve hash "tok" 100 store ≡ none)
    × (resolve hash "tik" 9 store ≡ none)
    × (resolve hash "new" 9 (create_session hash 1 11 "new" 5 2 store) ≡ some who)
    × (resolve hash "two" 9 (revoke_all_for_member hash 1 11 (some "two") 5 store).0 ≡ some who)
    × ((revoke_all_for_member hash 1 11 (some "two") 5 store).1 ≡ 1)
unfolding runs
session_tests = (refl, refl, refl, refl, refl, refl)

member_tests :
    (assert_in_tenant 2 11 store ≡ err member_missing)
    × (change_role hash 2 "owner" 20 "editor" 5 store ≡ err last_owner)
    × (change_role hash 1 "admin" 12 "owner" 5 store ≡ err owner_assignment)
    × (remove hash 1 "admin" 12 11 5 store ≡ err owner_management)
    × (create_member lower 30 1 "admin" "c@x.io" "E" "viewer" "" store ≡ err duplicate_email)
    × (create_member lower 30 2 "owner" "c@x.io" "E" "viewer" "" store ≡ err unique_violation)
unfolding runs
member_tests = (refl, refl, refl, refl, refl, refl)

resolve-IsBacked_example : ◌≢◌ {A = String} "tok" "" × IsBacked hash store "tok" 99 who
unfolding runs
resolve-IsBacked_example = resolve-IsBacked hash store "tok" 99 who refl

resolve-revoke_example : resolve hash "tok" 9 (revoke hash "tok" 5 store) ≡ none
resolve-revoke_example = resolve-revoke hash store "tok" 5 9

resolve-revoke_all_example : (e : String) × (some "two" ≡ some e) × (hash "two" ≡ hash e)
unfolding runs
resolve-revoke_all_example =
    resolve-revoke_all hash store 1 11 (some "two") 5 "two" 9 who refl refl refl

resolve-revoke_all_kept_example :
    resolve hash "two" 9 (revoke_all_for_member hash 1 11 (some "two") 5 store).0
    ≡ resolve hash "two" 9 store
resolve-revoke_all_kept_example = resolve-revoke_all_kept hash store 1 11 "two" 5 9

distinct_ids : Keyed store.members
distinct_ids = ((refl, (refl, (refl, tt))), ((refl, (refl, tt)), ((refl, tt), (tt, tt))))

admin_low : ◌≢◌ {A = String} "admin" "owner"
admin_low e = ground (arith, eq_iff "admin" "owner")

handle_all-IsManaged_example : IsManaged 1 (
    handle_all hash lower
      (change 1 "owner" 10 "viewer" 5
        ∷ removal 1 "owner" 10 11 6
        ∷ create 30 1 "owner" "e@x.io" "E" "owner" ""
        ∷ removal 1 "owner" 10 11 7
        ∷ [])
      store)
handle_all-IsManaged_example =
    handle_all-IsManaged hash lower 1
      (change 1 "owner" 10 "viewer" 5
        ∷ removal 1 "owner" 10 11 6
        ∷ create 30 1 "owner" "e@x.io" "E" "owner" ""
        ∷ removal 1 "owner" 10 11 7
        ∷ [])
      store (distinct_ids, (new_member 10 1 "a@x.io" "" "A" owner, Memᴰ.head refl, refl))

handle-owners_example :
    owners (handle hash lower (change 1 "admin" 12 "viewer" 5) store).members ≡ owners store.members
handle-owners_example =
    handle-owners hash lower (change 1 "admin" 12 "viewer" 5) store distinct_ids admin_low

resolve-change_role_example : who.member_id ≢ 12
unfolding runs
resolve-change_role_example =
    resolve-change_role hash 1 "owner" 12 "viewer" 5 store
      (handle hash lower (change 1 "owner" 12 "viewer" 5) store, 0) "tok" 9 who refl refl refl

resolve-remove_example : who.member_id ≢ 12
unfolding runs
resolve-remove_example =
    resolve-remove hash 1 "owner" 10 12 5 store
      (handle hash lower (removal 1 "owner" 10 12 5) store, 0) "tok" 9 who refl refl refl
