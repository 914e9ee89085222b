-- ===== src/TwoFactor/Enrollment/Recovery.antt =====
-- `resetForMember` of apps/api/src/auth/totp.service.ts, after which the member starts again.
use Prim.Native.String.{String}
use nudgeon_platform.Common.{
  ℕ, ◌≡◌, refl, sym, subst, ◌≢◌, inl, inr, Bool, true, false, not, ◌&&◌, ◌||◌, is_none, List, [],
  ◌∷◌, none, some, ◌==◌, Bool-cases, All, update_rows, count_rows, ok, err, ok-injective,
}
use nudgeon_platform.Accounts.{Member, BackupCode, Store}
use nudgeon_platform.Accounts.Sessions.{SessionMember, resolve, revoke_all_for_member}
use nudgeon_platform.Accounts.Sessions.Revocation.{resolve-revoke_all}
use nudgeon_platform.Accounts.Members.{is_target, update_target}
use nudgeon_platform.TwoFactor.Enrollment.{
  member_missing, clear_row, delete_codes, clear, reset_for_member,
}

-- A row that is not the target's, or holds nothing of a second factor.
abbrev pub is_cleared : ℕ → ℕ → Member → Bool
is_cleared tenant_id member_id m =
    not (is_target tenant_id member_id m)
    || (is_none m.totp_secret_enc && (is_none m.totp_enabled_at && is_none m.totp_locked_until))

update_rows-is_cleared :
    (tenant_id member_id : ℕ) (ms : List Member)
    → All
        (λ m. is_cleared tenant_id member_id m ≡ true)
        (update_rows (is_target tenant_id member_id) clear_row ms)
update_rows-is_cleared tenant_id member_id [] = tt
update_rows-is_cleared tenant_id member_id (m ∷ ms) =
    let rest = update_rows-is_cleared tenant_id member_id ms in
    elim (Bool-cases (is_target tenant_id member_id m)) [
      | inl hit ↦ rw (hit, hit) (refl, rest)
      | inr miss ↦ rw (miss, miss) (refl, rest)
    ]

delete_codes-All :
    (member_id : ℕ) (cs : List BackupCode)
    → All (λ c. (c.member_id == member_id) ≡ false) (delete_codes member_id cs)
delete_codes-All member_id [] = tt
delete_codes-All member_id (c ∷ cs) =
    let rest = delete_codes-All member_id cs in
    elim (Bool-cases (c.member_id == member_id)) [
      | inl hit ↦ rw hit rest
      | inr miss ↦ rw miss (miss, rest)
    ]

reset_for_member-eq-ok :
    (hash_token : String → String) (tenant_id target_id now : ℕ) (s after : Store)
    → reset_for_member hash_token tenant_id target_id now s ≡ ok after
    → (revoke_all_for_member hash_token tenant_id target_id none now
        (clear tenant_id target_id s)).0
      ≡ after
unfolding reset_for_member
reset_for_member-eq-ok hash_token tenant_id target_id now s after e =
    elim (Bool-cases (count_rows (is_target tenant_id target_id) s.members == 0)) [
      | inl absent ↦ let refused : err member_missing ≡ ok after = rw absent at e in cc
      | inr there ↦ ok-injective refl (rw there at e)
    ]

-- After a member's second factor is reset, the member's row holds no secret, is not enabled and not locked,
-- and no backup code of the member is left.
pub reset_for_member-clears :
    (hash_token : String → String) (tenant_id target_id now : ℕ) (s after : Store)
    → reset_for_member hash_token tenant_id target_id now s ≡ ok after
    → All (λ m. is_cleared tenant_id target_id m ≡ true) after.members
      × All (λ c. (c.member_id == target_id) ≡ false) after.backup_codes
unfolding clear update_target revoke_all_for_member
reset_for_member-clears hash_token tenant_id target_id now s after e =
    subst
      (λ (a : Store).
        All (λ m. is_cleared tenant_id target_id m ≡ true) a.members
        × All (λ c. (c.member_id == target_id) ≡ false) a.backup_codes)
      (reset_for_member-eq-ok hash_token tenant_id target_id now s after e)
      (
        update_rows-is_cleared tenant_id target_id s.members,
        delete_codes-All target_id s.backup_codes,
      )

-- After a member's second factor is reset, no token of before stands for the member, at whatever time it is
-- used.
pub resolve-reset_for_member :
    (hash_token : String → String) (tenant_id target_id now : ℕ) (s after : Store) (token : String)
    (later : ℕ) (who : SessionMember)
    → reset_for_member hash_token tenant_id target_id now s ≡ ok after
    → resolve hash_token token later after ≡ some who
    → who.tenant_id ≡ tenant_id
    → who.member_id ≢ target_id
resolve-reset_for_member hash_token tenant_id target_id now s after token later who e found
      same_tenant same_member =
    let made = reset_for_member-eq-ok hash_token tenant_id target_id now s after e in
    let (kept, absent, _) =
      resolve-revoke_all hash_token (clear tenant_id target_id s) tenant_id target_id none now token
        later who
        (subst (λ (a : Store). resolve hash_token token later a ≡ some who) (sym made) found)
        same_tenant same_member in
    cc
