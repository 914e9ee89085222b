-- ===== src/Accounts/Sessions/Laws.antt =====
-- Who a session token stands for, and what a revocation leaves.
use Prim.Native.String.{String}
use text.Mathlib.Text.{◌==◌ as str_eq}
use text.Mathlib.TextEquality.{eq_iff}
use nudgeon_platform.Common.{
  ℕ, ◌<◌, ◌≡◌, refl, sym, ap, ◌∙◌, ◌≢◌, inl, inr, true, ◌&&◌, List, [], ◌∷◌, none, some, ◌==◌, ltb,
  arith, Bool-cases, Option-cases, Memᴰ, is_none, first_row, first_row-eq-some, &&-true,
  is_none-none, some-injective,
}
use nudgeon_platform.Accounts.{Status, active, invited, disabled, Member, Session, Store}
use nudgeon_platform.Accounts.Sessions.{
  SessionMember, is_active, member_of, is_live, join_session, resolve_rows, resolve,
}

module _ (hash_token : String → String) where
  -- The row and the member that a resolved token stands for.
  pub record IsBacked (s : Store) (token : String) (now : ℕ) (who : SessionMember) : Type 0 where
    pub row : Session
    pub member : Member
    pub listed : Memᴰ row s.sessions
    pub hash : row.token_hash ≡ hash_token token
    pub unrevoked : row.revoked_at ≡ none
    pub unexpired : now < row.expires_at
    pub enrolled : Memᴰ member s.members
    pub active : member.status ≡ active
    pub member_id : (who.member_id ≡ member.id) × (member.id ≡ row.member_id)
    pub tenant_id : who.tenant_id ≡ row.tenant_id
    pub role : who.role ≡ member.role

  is_active-active : (v : Status) → is_active v ≡ true → v ≡ active
  is_active-active active h = refl
  is_active-active invited h = cc
  is_active-active disabled h = cc

  joined-IsBacked :
      (s : Store) (token : String) (now : ℕ) (row : Session) (who : SessionMember)
      → Memᴰ row s.sessions
      → is_live hash_token token now row ≡ true
      → join_session s row ≡ some who
      → IsBacked s token now who
  unfolding join_session
  joined-IsBacked s token now row who listed live e = elim (Option-cases (member_of row s)) [
    | inl gone ↦ cc
    | inr (m, found) ↦ elim (Option-cases (first_row (λ t. t.id == row.tenant_id) s.tenants)) [
      | inl gone ↦ cc
      | inr (t, there) ↦
          let (enrolled, chosen) =
            first_row-eq-some (λ m. m.id == row.member_id && is_active m.status) s.members found in
          let (same_id, is_on) = &&-true (m.id == row.member_id) (is_active m.status) chosen in
          let (hashed, rest) =
            &&-true (str_eq row.token_hash (hash_token token))
              (is_none row.revoked_at && ltb now row.expires_at) live in
          let (fresh, early) = &&-true (is_none row.revoked_at) (ltb now row.expires_at) rest in
          let built = some-injective (rw (found, there) at e) in
          record {
            row = row;
            member = m;
            listed = listed;
            hash = (eq_iff row.token_hash (hash_token token)).0 hashed;
            unrevoked = is_none-none row.revoked_at fresh;
            unexpired = ground arith;
            enrolled = enrolled;
            active = is_active-active m.status is_on;
            member_id = (sym (ap (λ w. w.member_id) built), ground arith);
            tenant_id = sym (ap (λ w. w.tenant_id) built);
            role = sym (ap (λ w. w.role) built);
          }
    ]
  ]

  resolve_rows-IsBacked :
      (s : Store) (token : String) (now : ℕ) (rows : List Session) (who : SessionMember)
      → ((row : Session) → Memᴰ row rows → Memᴰ row s.sessions)
      → resolve_rows hash_token s token now rows ≡ some who
      → IsBacked s token now who
  unfolding resolve_rows
  resolve_rows-IsBacked s token now [] who inside e = cc
  resolve_rows-IsBacked s token now (row ∷ rows) who inside e =
      elim (Bool-cases (is_live hash_token token now row)) [
        | inl live ↦ elim (Option-cases (join_session s row)) [
          | inl gone ↦
              resolve_rows-IsBacked s token now rows who (λ r m. inside r (Memᴰ.tail m))
                (rw (live, gone) at e)
          | inr (w, found) ↦
              joined-IsBacked s token now row who (inside row (Memᴰ.head refl)) live
                (found ∙ rw (live, found) at e)
        ]
        | inr dead ↦
            resolve_rows-IsBacked s token now rows who (λ r m. inside r (Memᴰ.tail m))
              (rw dead at e)
      ]

  -- A token that resolves to a member is not empty, and its hash is on a session that is neither revoked
  -- nor expired and that belongs to an active member, whose id and role are given back with the session's
  -- tenant.
  pub resolve-IsBacked :
      (s : Store) (token : String) (now : ℕ) (who : SessionMember)
      → resolve hash_token token now s ≡ some who
      → (token ≢ "") × IsBacked s token now who
  unfolding resolve
  resolve-IsBacked s token now who e = elim (Bool-cases (str_eq token "")) [
    | inl empty ↦ cc
    | inr full ↦ (
      λ same. ground (arith, eq_iff token ""),
      resolve_rows-IsBacked s token now s.sessions who (λ r m. m) (rw full at e),
    )
  ]
