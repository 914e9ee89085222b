-- ===== src/Accounts/Sessions/Revocation.antt =====
-- `revoke` and `revokeAllForMember` of apps/api/src/auth/session.service.ts.
use Prim.Native.String.{String}
use text.Mathlib.Text.{◌==◌ as str_eq}
use text.Mathlib.TextEquality.{eq_iff}
use nudgeon_platform.Common.{
  ℕ, ◌≡◌, refl, sym, ap, ◌∙◌, inl, inr, true, false, ◌&&◌, List, [], ◌∷◌, Option, none, some, ◌==◌,
  arith, Bool-cases, Option-cases, is_none, update_rows, All-update_rows, All-mem, &&-false,
  &&-rest, ==_iff,
}
use nudgeon_platform.Accounts.{Session, Store}
use nudgeon_platform.Accounts.Sessions.{
  SessionMember, is_other, join_session, resolve_rows, resolve, revoke_row, revoke, is_revocable,
  revoke_all_for_member,
}
use nudgeon_platform.Accounts.Sessions.Laws.{resolve-IsBacked}

module _ (hash_token : String → String) where
  -- A revoked token stands for nobody, at whatever time it is used.
  pub resolve-revoke :
      (s : Store) (token : String) (now later : ℕ)
      → resolve hash_token token later (revoke hash_token token now s) ≡ none
  unfolding revoke
  resolve-revoke s token now later =
      elim (Option-cases (resolve hash_token token later (revoke hash_token token now s))) [
        | inl gone ↦ gone
        | inr (who, e) ↦
            let (_, backed) =
              resolve-IsBacked hash_token (revoke hash_token token now s) token later who e in
            let stale =
              All-mem
                (λ r. (str_eq r.token_hash (hash_token token) && is_none r.revoked_at) ≡ false)
                (revoke hash_token token now s).sessions
                (All-update_rows
                  (λ r. str_eq r.token_hash (hash_token token) && is_none r.revoked_at)
                  (revoke_row now) s.sessions
                  (λ r. &&-false (str_eq r.token_hash (hash_token token))))
                backed.listed in
            ground (
              arith,
              eq_iff backed.row.token_hash (hash_token token),
              backed.hash,
              ap is_none backed.unrevoked,
              stale,
            )
      ]

  other_of :
      (except_token : Option String) (row : Session)
      → is_other hash_token except_token row ≡ false
      → (e : String) × (except_token ≡ some e) × (row.token_hash ≡ hash_token e)
  other_of none row h = cc
  other_of (some e) row h = (e, refl, ground (arith, eq_iff row.token_hash (hash_token e)))

  is_revocable-revoke_row :
      (tenant_id member_id : ℕ) (except_token : Option String) (now : ℕ) (row : Session)
      → is_revocable hash_token tenant_id member_id except_token (revoke_row now row) ≡ false
  is_revocable-revoke_row tenant_id member_id except_token now row =
      rw (&&-false (row.member_id == member_id)) (&&-false (row.tenant_id == tenant_id))

  is_revocable-kept :
      (tenant_id member_id : ℕ) (kept : String) (row : Session)
      → str_eq kept "" ≡ false
      → str_eq row.token_hash (hash_token kept) ≡ true
      → is_revocable hash_token tenant_id member_id (some kept) row ≡ false
  is_revocable-kept tenant_id member_id kept row full same =
      rw (full, same, &&-false (is_none row.revoked_at), &&-false (row.member_id == member_id))
        (&&-false (row.tenant_id == tenant_id))

  -- After all sessions of a member are revoked but those of one token, a token that still stands for the
  -- member has the hash of that one.
  pub resolve-revoke_all :
      (s : Store) (tenant_id member_id : ℕ) (except_token : Option String) (now : ℕ)
      (token : String) (later : ℕ) (who : SessionMember)
      → resolve hash_token token later
          (revoke_all_for_member hash_token tenant_id member_id except_token now s).0
        ≡ some who
      → who.tenant_id ≡ tenant_id
      → who.member_id ≡ member_id
      → (e : String) × (except_token ≡ some e) × (hash_token token ≡ hash_token e)
  unfolding revoke_all_for_member
  resolve-revoke_all s tenant_id member_id except_token now token later who e same_tenant
        same_member =
      let after = (revoke_all_for_member hash_token tenant_id member_id except_token now s).0 in
      let (_, backed) = resolve-IsBacked hash_token after token later who e in
      let stays =
        All-mem (λ r. is_revocable hash_token tenant_id member_id except_token r ≡ false)
          after.sessions
          (All-update_rows (is_revocable hash_token tenant_id member_id except_token)
            (revoke_row now) s.sessions
            (is_revocable-revoke_row tenant_id member_id except_token now))
          backed.listed in
      let (kept, named, hashed) = other_of except_token backed.row (
        &&-rest (is_none backed.row.revoked_at) (ap is_none backed.unrevoked) (
          &&-rest (backed.row.member_id == member_id)
            ((==_iff backed.row.member_id member_id).1
              (omega (arith, backed.member_id, same_member)))
            (&&-rest (backed.row.tenant_id == tenant_id)
              ((==_iff backed.row.tenant_id tenant_id).1
                (omega (arith, backed.tenant_id, same_tenant)))
              stays))) in
      (kept, named, sym backed.hash ∙ hashed)

  resolve_rows-revoke_all :
      (s : Store) (tenant_id member_id : ℕ) (kept : String) (now later : ℕ) (rows : List Session)
      → str_eq kept "" ≡ false
      → resolve_rows hash_token
          (revoke_all_for_member hash_token tenant_id member_id (some kept) now s).0
          kept
          later
          (update_rows
            (is_revocable hash_token tenant_id member_id (some kept))
            (revoke_row now)
            rows)
        ≡ resolve_rows hash_token s kept later rows
  unfolding resolve_rows revoke_all_for_member join_session
  resolve_rows-revoke_all s tenant_id member_id kept now later [] full = refl
  resolve_rows-revoke_all s tenant_id member_id kept now later (row ∷ rows) full =
      let rest = resolve_rows-revoke_all s tenant_id member_id kept now later rows full in
      elim (Bool-cases (str_eq row.token_hash (hash_token kept))) [
        | inl same ↦ rw (is_revocable-kept tenant_id member_id kept row full same, rest) refl
        | inr differs ↦
            elim (Bool-cases (is_revocable hash_token tenant_id member_id (some kept) row)) [
              | inl hit ↦ rw (hit, differs) rest
              | inr miss ↦ rw (miss, differs) rest
            ]
      ]

  -- Revoking all other sessions of a member leaves what the token that is kept stands for.
  pub resolve-revoke_all_kept :
      (s : Store) (tenant_id member_id : ℕ) (kept : String) (now later : ℕ)
      → resolve hash_token kept later
          (revoke_all_for_member hash_token tenant_id member_id (some kept) now s).0
        ≡ resolve hash_token kept later s
  unfolding resolve revoke_all_for_member
  resolve-revoke_all_kept s tenant_id member_id kept now later =
      elim (Bool-cases (str_eq kept "")) [
        | inl empty ↦ rw empty refl
        | inr full ↦
            rw full (resolve_rows-revoke_all s tenant_id member_id kept now later s.sessions full)
      ]
