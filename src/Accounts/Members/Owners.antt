-- ===== src/Accounts/Members/Owners.antt =====
-- The owners of a tenant, under `create`, `changeRole` and `remove` of apps/api/src/members/members.service.ts.
use Prim.Native.String.{String}
use text.Mathlib.Text.{◌==◌ as str_eq}
use nudgeon_platform.Common.{
  ℕ, ◌≡◌, refl, ap, subst, ◌∙◌, inl, inr, Bool, true, false, not, ◌&&◌, List, [], ◌∷◌, ◌==◌,
  Bool-cases, Memᴰ, any, count_rows, any-false, Result, ok, err, and_then-eq-ok, ok-injective,
}
use nudgeon_platform.Authz.{Role}
use nudgeon_platform.Accounts.{Member, Store}
use nudgeon_platform.Accounts.Sessions.{revoke_all_for_member}
use nudgeon_platform.Accounts.Members.{
  MemberError, is_owner, is_target, is_active_owner, lock_member, set_role, disable, update_target,
  assert_assignable_role, assert_can_manage_target, keeps_an_owner, change_role, remove, new_member,
  insert_member, is_duplicate, create_member, Request, create, change, removal, committed, handle,
  handle_all, duplicate_email, unique_violation, self_removal,
}
use nudgeon_platform.Accounts.Members.Laws.{
  Keyed, HasOwner, Keyed-update_rows, HasOwner-update_rows, lock_member-eq-ok, keeps_an_owner-eq-ok,
  owner_parts,
}

-- The members have their primary key, and the tenant has an active owner.
abbrev pub IsManaged : ℕ → Store → Type 0
IsManaged tid s = Keyed s.members × HasOwner tid s.members

and-true : (b : Bool) → (b && true) ≡ b
and-true true = refl
and-true false = refl

-- What the checks of a change give for its target, if that is an active owner.
other_owner :
    (tid tenant_id target_id : ℕ) (s : Store) (target m : Member) (leaves : Bool) (u : Unit {0})
    → Keyed s.members
    → lock_member tenant_id target_id s ≡ ok target
    → keeps_an_owner (is_owner target.role && leaves) tenant_id target_id s ≡ ok u
    → leaves ≡ true
    → Memᴰ m s.members
    → is_target tenant_id target_id m ≡ true
    → is_active_owner tid m ≡ true
    → (o : Member) × Memᴰ o s.members
      × (is_active_owner tid o ≡ true)
      × (is_target tenant_id target_id o ≡ false)
other_owner tid tenant_id target_id s target m leaves u keyed locked checked left listed hit owns =
    let (same, mine, owned, on) = owner_parts tid tenant_id target_id m hit owns in
    let one : target ≡ m =
      lock_member-eq-ok tenant_id target_id s target m locked keyed listed hit in
    let is_one : is_owner target.role ≡ true = ap (λ x. is_owner x.role) one ∙ owned in
    let (o, there, stays, apart) =
      keeps_an_owner-eq-ok (is_owner target.role && leaves) tenant_id target_id s u checked
        (rw (is_one, left) refl) in
    (o, there, subst (λ t. is_active_owner t o ≡ true) same stays, apart)

module _ (hash_token : String → String) where
  change_role-IsManaged :
      (tid tenant_id : ℕ) (actor_role : String) (target_id : ℕ) (new_role : String) (now : ℕ)
      (s : Store) (after : Store × ℕ)
      → IsManaged tid s
      → change_role hash_token tenant_id actor_role target_id new_role now s ≡ ok after
      → IsManaged tid after.0
  unfolding change_role update_target revoke_all_for_member
  change_role-IsManaged tid tenant_id actor_role target_id new_role now s after (keyed, has) e =
      let (target, locked, e1) = and_then-eq-ok (lock_member tenant_id target_id s) _ e in
      let (role, assigned, e2) = and_then-eq-ok (assert_assignable_role actor_role new_role) _ e1 in
      let (_, managed, e3) =
        and_then-eq-ok (assert_can_manage_target actor_role target.role) _ e2 in
      let (u, checked, e4) =
        and_then-eq-ok
          (keeps_an_owner (is_owner target.role && not (is_owner role)) tenant_id target_id s) _
          e3 in
      subst (λ (a : Store × ℕ). IsManaged tid a.0) (ok-injective refl e4)
        (
          Keyed-update_rows (is_target tenant_id target_id) (set_role role) s.members (λ m. refl)
              keyed,
          HasOwner-update_rows tid (is_target tenant_id target_id) (set_role role) s.members has
              (λ m listed hit owns. elim (Bool-cases (is_owner role)) [
                | inl again ↦
                    let (_, mine, _, on) = owner_parts tid tenant_id target_id m hit owns in
                    inl (rw (mine, again, on) refl)
                | inr leaves ↦ inr (
                    other_owner tid tenant_id target_id s target m (not (is_owner role)) u keyed
                      locked checked (rw leaves refl) listed hit owns)
              ]),
        )

  remove-IsManaged :
      (tid tenant_id : ℕ) (actor_role : String) (actor_id target_id : ℕ) (now : ℕ) (s : Store)
      (after : Store × ℕ)
      → IsManaged tid s
      → remove hash_token tenant_id actor_role actor_id target_id now s ≡ ok after
      → IsManaged tid after.0
  unfolding remove update_target revoke_all_for_member
  remove-IsManaged tid tenant_id actor_role actor_id target_id now s after (keyed, has) e0 =
      elim (Bool-cases (actor_id == target_id)) [
        | inl own ↦ let refused : err self_removal ≡ ok after = rw own at e0 in cc
        | inr apart ↦
            let (target, locked, e) =
              and_then-eq-ok (lock_member tenant_id target_id s) _ (rw apart at e0) in
            let (_, managed, e1) =
              and_then-eq-ok (assert_can_manage_target actor_role target.role) _ e in
            let (u, checked, e2) =
              and_then-eq-ok (keeps_an_owner (is_owner target.role) tenant_id target_id s) _ e1 in
            subst (λ (a : Store × ℕ). IsManaged tid a.0) (ok-injective refl e2)
              (
                Keyed-update_rows (is_target tenant_id target_id) disable s.members (λ m. refl)
                    keyed,
                HasOwner-update_rows tid (is_target tenant_id target_id) disable s.members has
                    (λ m listed hit owns. inr (
                      other_owner tid tenant_id target_id s target m true u keyed locked
                        (rw (and-true (is_owner target.role)) checked) refl listed hit owns)),
              )
      ]

insert_member-IsManaged :
    (lower : String → String) (tid : ℕ) (m : Member) (s after : Store)
    → IsManaged tid s
    → insert_member lower m s ≡ ok after
    → IsManaged tid after
unfolding insert_member
insert_member-IsManaged lower tid m s after (keyed, (o, there, owns)) e =
    elim (Bool-cases (any (λ o. o.id == m.id) s.members)) [
      | inl taken ↦ let refused : err unique_violation ≡ ok after = rw taken at e in cc
      | inr free ↦ elim (Bool-cases (any (λ o. str_eq (lower o.email) (lower m.email)) s.members)) [
        | inl taken ↦ let refused : err unique_violation ≡ ok after = rw (free, taken) at e in cc
        | inr unused ↦
            let made : record s { members = m ∷ s.members } ≡ after =
              ok-injective refl (rw (free, unused) at e) in
            subst (λ a. IsManaged tid a) made
              ((any-false (λ o. o.id == m.id) s.members free, keyed), (o, Memᴰ.tail there, owns))
      ]
    ]

pub create_member-eq-ok :
    (lower : String → String) (id tenant_id : ℕ)
    (actor_role email name new_role password_hash : String) (s after : Store)
    → create_member lower id tenant_id actor_role email name new_role password_hash s ≡ ok after
    → (role : Role) × (assert_assignable_role actor_role new_role ≡ ok role)
      × (insert_member lower (new_member id tenant_id email password_hash name role) s ≡ ok after)
unfolding create_member
create_member-eq-ok lower id tenant_id actor_role email name new_role password_hash s after e =
    let (role, assigned, e1) = and_then-eq-ok (assert_assignable_role actor_role new_role) _ e in
    elim (Bool-cases (count_rows (is_duplicate lower tenant_id email) s.members == 0)) [
      | inl fresh ↦ (role, assigned, rw fresh at e1)
      | inr taken ↦ let refused : err duplicate_email ≡ ok after = rw taken at e1 in cc
    ]

pub committed-rule :
    {A : Type 0} (P : Store → Type 0) (after : A → Store) (r : Result MemberError A) (s : Store)
    → P s
    → ((a : A) → r ≡ ok a → P (after a))
    → P (committed after r s)
committed-rule P after (ok a) s h k = k a refl
committed-rule P after (err x) s h k = h

handle-IsManaged :
    (hash_token lower : String → String) (tid : ℕ) (r : Request) (s : Store)
    → IsManaged tid s
    → IsManaged tid (handle hash_token lower r s)
unfolding handle
handle-IsManaged hash_token lower tid (create id t actor_role email name new_role hash) s h =
    committed-rule (IsManaged tid) (λ a. a)
      (create_member lower id t actor_role email name new_role hash s) s h
      (λ a e.
        let (role, _, e1) =
          create_member-eq-ok lower id t actor_role email name new_role hash s a e in
        insert_member-IsManaged lower tid (new_member id t email hash name role) s a h e1)
handle-IsManaged hash_token lower tid (change t actor_role target_id new_role now) s h =
    committed-rule (IsManaged tid) (λ a. a.0)
      (change_role hash_token t actor_role target_id new_role now s) s h
      (λ a. change_role-IsManaged hash_token tid t actor_role target_id new_role now s a h)
handle-IsManaged hash_token lower tid (removal t actor_role actor_id target_id now) s h =
    committed-rule (IsManaged tid) (λ a. a.0)
      (remove hash_token t actor_role actor_id target_id now s) s h
      (λ a. remove-IsManaged hash_token tid t actor_role actor_id target_id now s a h)

-- Whatever members are created, change their role or are removed, in whatever order and by whomever: a
-- tenant that has an active owner still has one, and ids stay unique, when they were at the start.
pub handle_all-IsManaged :
    (hash_token lower : String → String) (tid : ℕ) (rs : List Request) (s : Store)
    → IsManaged tid s
    → IsManaged tid (handle_all hash_token lower rs s)
unfolding handle_all
handle_all-IsManaged hash_token lower tid [] s h = h
handle_all-IsManaged hash_token lower tid (r ∷ rs) s h =
    handle_all-IsManaged hash_token lower tid rs (handle hash_token lower r s)
      (handle-IsManaged hash_token lower tid r s h)
