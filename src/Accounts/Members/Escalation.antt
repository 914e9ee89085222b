-- ===== src/Accounts/Members/Escalation.antt =====
-- What `assertAssignableRole` and `assertCanManageTarget` of apps/api/src/members/members.service.ts are for,
-- and the sessions of a member who is changed or removed.
use Prim.Native.String.{String}
use text.Mathlib.Text.{◌==◌ as str_eq}
use text.Mathlib.TextEquality.{eq_iff}
use nudgeon_platform.Common.{
  ℕ, ◌≡◌, refl, sym, ap, subst, ◌∙◌, ◌≢◌, inl, inr, Bool, true, false, not, ◌&&◌, List, [], ◌∷◌,
  Option, none, some, ◌==◌, if◌then◌else◌, Bool-cases, Memᴰ, any, update_rows, ok, err,
  and_then-eq-ok, ok-injective,
}
use nudgeon_platform.Authz.{Role, as_role}
use nudgeon_platform.Accounts.{Member, Store}
use nudgeon_platform.Accounts.Sessions.{SessionMember, resolve, revoke_all_for_member}
use nudgeon_platform.Accounts.Sessions.Revocation.{resolve-revoke_all}
use nudgeon_platform.Accounts.Members.{
  is_owner, is_target, lock_member, set_role, disable, update_target, assert_assignable_role,
  assignable, assert_can_manage_target, keeps_an_owner, change_role, remove, new_member,
  insert_member, create_member, Request, create, change, removal, handle, unique_violation,
  self_removal, owner_assignment, owner_management,
}
use nudgeon_platform.Accounts.Members.Laws.{Keyed, lock_member-eq-ok}
use nudgeon_platform.Accounts.Members.Owners.{create_member-eq-ok, committed-rule}

-- The role of the actor of a request.
abbrev pub actor_of : Request → String
actor_of (create id t actor_role email name new_role hash) = actor_role
actor_of (change t actor_role target_id new_role now) = actor_role
actor_of (removal t actor_role actor_id target_id now) = actor_role

-- The owners of all tenants.
unfoldable pub owners : List Member → List Member
owners [] = []
owners (m ∷ ms) = let rest = owners ms in if is_owner m.role then m ∷ rest else rest

owners-update_rows :
    (p : Member → Bool) (f : Member → Member) (ms : List Member)
    → ((m : Member)
        → Memᴰ m ms
        → p m ≡ true
        → (is_owner m.role ≡ false) × (is_owner (f m).role ≡ false))
    → owners (update_rows p f ms) ≡ owners ms
unfolding owners
owners-update_rows p f [] h = refl
owners-update_rows p f (m ∷ ms) h =
    let rest = owners-update_rows p f ms (λ o there. h o (Memᴰ.tail there)) in
    elim (Bool-cases (p m)) [
      | inl hit ↦ let (before, after) = h m (Memᴰ.head refl) hit in rw (hit, before, after) rest
      | inr miss ↦ rw (miss, rest) refl
    ]

assignable-eq-ok :
    (actor_role : String) (o : Option Role) (role : Role)
    → str_eq actor_role "owner" ≡ false
    → assignable actor_role o ≡ ok role
    → is_owner role ≡ false
assignable-eq-ok actor_role none role low e = cc
assignable-eq-ok actor_role (some r) role low e = elim (Bool-cases (is_owner r)) [
  | inl high ↦ let refused : err owner_assignment ≡ ok role = rw (high, low) at e in cc
  | inr plain ↦
      let same : r ≡ role = ok-injective refl (rw plain at e) in ap is_owner (sym same) ∙ plain
]

manage-eq-ok :
    (actor_role : String) (target_role : Role) (u : Unit {0})
    → str_eq actor_role "owner" ≡ false
    → assert_can_manage_target actor_role target_role ≡ ok u
    → is_owner target_role ≡ false
unfolding assert_can_manage_target
manage-eq-ok actor_role target_role u low e = elim (Bool-cases (is_owner target_role)) [
  | inl high ↦ let refused : err owner_management ≡ ok u = rw (high, low) at e in cc
  | inr plain ↦ plain
]

module _ (hash_token : String → String) where
  change_role-owners :
      (tenant_id : ℕ) (actor_role : String) (target_id : ℕ) (new_role : String) (now : ℕ)
      (s : Store) (after : Store × ℕ)
      → Keyed s.members
      → str_eq actor_role "owner" ≡ false
      → change_role hash_token tenant_id actor_role target_id new_role now s ≡ ok after
      → owners after.0.members ≡ owners s.members
  unfolding change_role update_target revoke_all_for_member assert_assignable_role
  change_role-owners tenant_id actor_role target_id new_role now s after keyed low e =
      let (target, locked, e1) = and_then-eq-ok (lock_member tenant_id target_id s) _ e in
      let (role, assigned, e2) = and_then-eq-ok (assert_assignable_role actor_role new_role) _ e1 in
      let (u, managed, e3) =
        and_then-eq-ok (assert_can_manage_target actor_role target.role) _ e2 in
      let (_, checked, e4) =
        and_then-eq-ok
          (keeps_an_owner (is_owner target.role && not (is_owner role)) tenant_id target_id s) _
          e3 in
      subst (λ (a : Store × ℕ). owners a.0.members ≡ owners s.members) (ok-injective refl e4)
        (owners-update_rows (is_target tenant_id target_id) (set_role role) s.members
          (λ m listed hit. (
            ap (λ x. is_owner x.role)
                  (sym (lock_member-eq-ok tenant_id target_id s target m locked keyed listed hit))
                ∙ manage-eq-ok actor_role target.role u low managed,
            assignable-eq-ok actor_role (as_role new_role) role low assigned,
          )))

  remove-owners :
      (tenant_id : ℕ) (actor_role : String) (actor_id target_id now : ℕ) (s : Store)
      (after : Store × ℕ)
      → Keyed s.members
      → str_eq actor_role "owner" ≡ false
      → remove hash_token tenant_id actor_role actor_id target_id now s ≡ ok after
      → owners after.0.members ≡ owners s.members
  unfolding remove update_target revoke_all_for_member
  remove-owners tenant_id actor_role actor_id target_id now s after keyed low e0 =
      elim (Bool-cases (actor_id == target_id)) [
        | inl own ↦ let refused : err self_removal ≡ ok after = rw own at e0 in cc
        | inr apart ↦
            let (target, locked, e) =
              and_then-eq-ok (lock_member tenant_id target_id s) _ (rw apart at e0) in
            let (u, managed, e1) =
              and_then-eq-ok (assert_can_manage_target actor_role target.role) _ e in
            let (_, checked, e2) =
              and_then-eq-ok (keeps_an_owner (is_owner target.role) tenant_id target_id s) _ e1 in
            let plain : (m : Member)
                → Memᴰ m s.members
                → is_target tenant_id target_id m ≡ true
                → is_owner m.role ≡ false =
              λ m listed hit.
                ap (λ x. is_owner x.role)
                  (sym (lock_member-eq-ok tenant_id target_id s target m locked keyed listed hit))
                ∙ manage-eq-ok actor_role target.role u low managed in
            subst (λ (a : Store × ℕ). owners a.0.members ≡ owners s.members) (ok-injective refl e2)
              (owners-update_rows (is_target tenant_id target_id) disable s.members
                (λ m listed hit. (plain m listed hit, plain m listed hit)))
      ]

insert_member-owners :
    (lower : String → String) (m : Member) (s after : Store)
    → is_owner m.role ≡ false
    → insert_member lower m s ≡ ok after
    → owners after.members ≡ owners s.members
unfolding insert_member owners
insert_member-owners lower m s after plain e =
    elim (Bool-cases (any (λ o. o.id == m.id) s.members)) [
      | inl taken ↦ let refused : err unique_violation ≡ ok after = rw taken at e in cc
      | inr free ↦ elim (Bool-cases (any (λ o. str_eq (lower o.email) (lower m.email)) s.members)) [
        | inl taken ↦ let refused : err unique_violation ≡ ok after = rw (free, taken) at e in cc
        | inr unused ↦
            let made : record s { members = m ∷ s.members } ≡ after =
              ok-injective refl (rw (free, unused) at e) in
            subst (λ (a : Store). owners a.members ≡ owners s.members) made (rw plain refl)
      ]
    ]

low_actor : (actor_role : String) → actor_role ≢ "owner" → str_eq actor_role "owner" ≡ false
low_actor actor_role low = elim (Bool-cases (str_eq actor_role "owner")) [
  | inl same ↦ absurd (low ((eq_iff actor_role "owner").0 same))
  | inr apart ↦ apart
]

assigned_role :
    (actor_role new_role : String) (role : Role)
    → str_eq actor_role "owner" ≡ false
    → assert_assignable_role actor_role new_role ≡ ok role
    → is_owner role ≡ false
unfolding assert_assignable_role
assigned_role actor_role new_role role low e =
    assignable-eq-ok actor_role (as_role new_role) role low e

no_session :
    (hash_token : String → String) (tenant_id target_id now : ℕ) (s : Store) (token : String)
    (later : ℕ) (who : SessionMember)
    → resolve hash_token token later
        (revoke_all_for_member hash_token tenant_id target_id none now s).0
      ≡ some who
    → who.tenant_id ≡ tenant_id
    → who.member_id ≢ target_id
no_session hash_token tenant_id target_id now s token later who found same_tenant same_member =
    let (kept, absent, _) =
      resolve-revoke_all hash_token s tenant_id target_id none now token later who found same_tenant
        same_member in
    cc

-- Where ids are unique, a request by an actor whose role is not owner leaves the list of the owners, rows
-- and all, as it was: it makes no owner, and changes and removes none.
pub handle-owners :
    (hash_token lower : String → String) (r : Request) (s : Store)
    → Keyed s.members
    → actor_of r ≢ "owner"
    → owners (handle hash_token lower r s).members ≡ owners s.members
unfolding handle
handle-owners hash_token lower (create id t actor_role email name new_role hash) s keyed low =
    committed-rule (λ a. owners a.members ≡ owners s.members) (λ a. a)
      (create_member lower id t actor_role email name new_role hash s) s refl
      (λ a e.
        let (role, assigned, e1) =
          create_member-eq-ok lower id t actor_role email name new_role hash s a e in
        insert_member-owners lower (new_member id t email hash name role) s a
          (assigned_role actor_role new_role role (low_actor actor_role low) assigned) e1)
handle-owners hash_token lower (change t actor_role target_id new_role now) s keyed low =
    committed-rule (λ a. owners a.members ≡ owners s.members) (λ a. a.0)
      (change_role hash_token t actor_role target_id new_role now s) s refl
      (λ a.
        change_role-owners hash_token t actor_role target_id new_role now s a keyed
          (low_actor actor_role low))
handle-owners hash_token lower (removal t actor_role actor_id target_id now) s keyed low =
    committed-rule (λ a. owners a.members ≡ owners s.members) (λ a. a.0)
      (remove hash_token t actor_role actor_id target_id now s) s refl
      (λ a.
        remove-owners hash_token t actor_role actor_id target_id now s a keyed
          (low_actor actor_role low))

-- After a member's role is changed, no token of before stands for the member, at whatever time it is used.
pub resolve-change_role :
    (hash_token : String → String) (tenant_id : ℕ) (actor_role : String) (target_id : ℕ)
    (new_role : String) (now : ℕ) (s : Store) (after : Store × ℕ) (token : String) (later : ℕ)
    (who : SessionMember)
    → change_role hash_token tenant_id actor_role target_id new_role now s ≡ ok after
    → resolve hash_token token later after.0 ≡ some who
    → who.tenant_id ≡ tenant_id
    → who.member_id ≢ target_id
unfolding change_role
resolve-change_role hash_token tenant_id actor_role target_id new_role now s after token later who e
      found same_tenant same_member =
    let (target, locked, e1) = and_then-eq-ok (lock_member tenant_id target_id s) _ e in
    let (role, assigned, e2) = and_then-eq-ok (assert_assignable_role actor_role new_role) _ e1 in
    let (u, managed, e3) = and_then-eq-ok (assert_can_manage_target actor_role target.role) _ e2 in
    let (_, checked, e4) =
      and_then-eq-ok
        (keeps_an_owner (is_owner target.role && not (is_owner role)) tenant_id target_id s) _ e3 in
    no_session hash_token tenant_id target_id now
      (update_target tenant_id target_id (set_role role) s) token later who
      (subst (λ (a : Store × ℕ). resolve hash_token token later a.0 ≡ some who)
        (sym (ok-injective refl e4)) found)
      same_tenant same_member

-- After a member is removed, no token of before stands for the member, at whatever time it is used.
pub resolve-remove :
    (hash_token : String → String) (tenant_id : ℕ) (actor_role : String) (actor_id target_id : ℕ)
    (now : ℕ) (s : Store) (after : Store × ℕ) (token : String) (later : ℕ) (who : SessionMember)
    → remove hash_token tenant_id actor_role actor_id target_id now s ≡ ok after
    → resolve hash_token token later after.0 ≡ some who
    → who.tenant_id ≡ tenant_id
    → who.member_id ≢ target_id
unfolding remove
resolve-remove hash_token tenant_id actor_role actor_id target_id now s after token later who e0
      found same_tenant same_member =
    elim (Bool-cases (actor_id == target_id)) [
      | inl own ↦ let refused : err self_removal ≡ ok after = rw own at e0 in cc
      | inr apart ↦
          let (target, locked, e) =
            and_then-eq-ok (lock_member tenant_id target_id s) _ (rw apart at e0) in
          let (_, managed, e1) =
            and_then-eq-ok (assert_can_manage_target actor_role target.role) _ e in
          let (_, checked, e2) =
            and_then-eq-ok (keeps_an_owner (is_owner target.role) tenant_id target_id s) _ e1 in
          no_session hash_token tenant_id target_id now
            (update_target tenant_id target_id disable s) token later who
            (subst (λ (a : Store × ℕ). resolve hash_token token later a.0 ≡ some who)
              (sym (ok-injective refl e2)) found)
            same_tenant same_member
    ]
