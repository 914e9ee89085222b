-- ===== src/Bootstrap/Grant.antt =====
-- apps/api/src/auth/bootstrap.service.ts: what a claim and a setup that are answered were, and what they leave.
use Prim.Native.String.{String}
use text.Mathlib.Text.{◌==◌ as str_eq}
use text.Mathlib.TextEquality.{eq_iff}
use nudgeon_platform.Common.{
  ℕ, ◌≡◌, refl, sym, ap, ◌∙◌, subst, inl, inr, true, false, ◌&&◌, List, Option, none, some,
  Bool-cases, Option-cases, arith, ltb, All, if◌then◌else◌, Result, ok, err, err-ne-ok,
  ok-injective, ◌+◌,
}
use nudgeon_platform.Bootstrap.{
  no_cookie, InstallationRow, Workspace, World, BootstrapError, Host, Draw, SetupInput, ended,
  is_present, same, is_secured, is_claimed, lasts, claim_ttl_ms, Created, create_workspace,
}
use nudgeon_platform.Bootstrap.Claims.{
  leased, claim_row, claim, SetupAnswer, zoned, set_up, setup_row, setup, Attempt, run_all,
}
use nudgeon_platform.Bootstrap.Once.{put_row, IsSecured}
use nudgeon_platform.Bootstrap.Lease.{IsLeased, is_foreign, claimed-secured, run_all-leased}

-- SHA-256 gives 64 digits, so no empty text.
abbrev pub IsDigest : (String → String) → Type 0
IsDigest sha256 = (t : String) → str_eq (sha256 t) "" ≡ false

pub same_refl : (t : String) → str_eq t "" ≡ false → same (some t) t ≡ true
unfolding same
same_refl t full = let r = (eq_iff t t).1 refl in ground arith

pub answer-err {ℓ} :
    {A : Type ℓ} {w w' : World} {e : BootstrapError} {a : A}
    → ¬ (◌≡◌ {A = World × Result BootstrapError A} (w, err e) (w', ok a))
answer-err {A} h = err-ne-ok (ap (λ (p : World × Result BootstrapError A). p.1) h)

same-true : (o : Option String) (b : String) → same o b ≡ true → o ≡ some b
unfolding same
same-true none b h = cc
same-true (some a) b h = ap some ((eq_iff a b).0 (ground arith))

module _ (host : Host) where
  -- The row of a claim that is answered, and what was asked of it.
  pub record IsClaimable (raw_token : String) (now : ℕ) (w : World) (row : InstallationRow)
      : Type 0 where
    pub found : w.installation ≡ some row
    pub still_open : is_secured row.state ≡ false
    pub right : same row.setup_token_hash (host.sha256 raw_token) ≡ true
    pub free : (is_claimed row.state && lasts now row.claim_expires_at) ≡ false

  claim_row-eq-ok :
      (raw_token cookie : String) (now : ℕ) (row : InstallationRow) (w w' : World) (until_at : ℕ)
      → w.installation ≡ some row
      → ended w (claim_row host raw_token cookie now (some row) w) ≡ (w', ok until_at)
      → IsClaimable raw_token now w row
        × (w' ≡ put_row w (some (leased host cookie now row)))
        × (until_at ≡ now + claim_ttl_ms)
  claim_row-eq-ok raw_token cookie now row w w' until_at found h =
      elim (Bool-cases (is_secured row.state)) [
        | inl shut ↦ absurd (answer-err (rw shut at h))
        | inr still ↦ elim (Bool-cases (is_present row.setup_token_hash)) [
          | inr missing ↦ absurd (answer-err (rw (still, missing) at h))
          | inl there ↦ elim (Bool-cases (same row.setup_token_hash (host.sha256 raw_token))) [
            | inr wrong ↦ absurd (answer-err (rw (still, there, wrong) at h))
            | inl right ↦
                elim (Bool-cases (is_claimed row.state && lasts now row.claim_expires_at)) [
                  | inl taken ↦ absurd (answer-err (rw (still, there, right, taken) at h))
                  | inr free ↦
                      let e : ◌≡◌ {A = World × Result BootstrapError ℕ}
                          (put_row w (some (leased host cookie now row)), ok (now + claim_ttl_ms))
                          (w', ok until_at) =
                        rw (still, there, right, free) at h in
                      (
                        record { found = found; still_open = still; right = right; free = free },
                        sym (ap (λ (p : World × Result BootstrapError ℕ). p.0) e),
                        ok-injective refl
                            (sym (ap (λ (p : World × Result BootstrapError ℕ). p.1) e)),
                      )
                ]
          ]
        ]
      ]

  pub claim-eq-ok :
      (raw_token cookie : String) (now : ℕ) (w w' : World) (until_at : ℕ)
      → claim host raw_token cookie now w ≡ (w', ok until_at)
      → (row : InstallationRow) × (IsClaimable raw_token now w row
          × (w' ≡ put_row w (some (leased host cookie now row)))
          × (until_at ≡ now + claim_ttl_ms))
  unfolding claim
  claim-eq-ok raw_token cookie now w w' until_at h = elim (Option-cases w.installation) [
    | inl missing ↦
        absurd (
          answer-err
            (sym (ap (λ o. ended w (claim_row host raw_token cookie now o w)) missing) ∙ h))
    | inr (row, found) ↦ (
      row,
      claim_row-eq-ok raw_token cookie now row w w' until_at found
          (sym (ap (λ o. ended w (claim_row host raw_token cookie now o w)) found) ∙ h),
    )
  ]

  -- The setup of the lease's holder.
  setup_row_of_mine :
      (cookie key : String) (input : SetupInput) (draw : Draw) (now until_at : ℕ)
      (row : InstallationRow) (w : World) (made : Workspace × Created)
      → IsDigest host.sha256
      → IsLeased (host.sha256 cookie) until_at row
      → ltb now until_at ≡ true
      → create_workspace host input draw w.workspace ≡ ok made
      → ended w (setup_row host cookie key input draw now (some row) w)
        ≡ ((set_up host key input now row made).0, ok (set_up host key input now row made).1)
  setup_row_of_mine cookie key input draw now until_at row w made digest h early e =
      rw
        (
          claimed-secured row.state h.taken,
          h.taken,
          h.by_cookie,
          same_refl (host.sha256 cookie) (digest cookie),
          h.ends,
          early,
          e,
        )
        refl

  setup_of_mine :
      (cookie key : String) (input : SetupInput) (draw : Draw) (now until_at : ℕ)
      (row : InstallationRow) (w : World) (made : Workspace × Created)
      → IsDigest host.sha256
      → str_eq cookie "" ≡ false
      → w.installation ≡ some row
      → IsLeased (host.sha256 cookie) until_at row
      → ltb now until_at ≡ true
      → create_workspace host input draw w.workspace ≡ ok made
      → setup host (some cookie) key input draw now w
        ≡ ((set_up host key input now row made).0, ok (set_up host key input now row made).1)
  unfolding setup
  setup_of_mine cookie key input draw now until_at row w made digest full found h early e =
      ap
        (λ b.
          if b
          then (w, err no_cookie)
          else ended w (setup_row host cookie key input draw now w.installation w))
        full
      ∙ (ap (λ o. ended w (setup_row host cookie key input draw now o w)) found
          ∙ setup_row_of_mine cookie key input draw now until_at row w made digest h early e)

  -- Who claims the installation can set it up: whatever else reaches the service before the lease ends, without
  -- the claim's cookie and without a new setup token, the setup with that cookie within the lease is answered, if
  -- the workspace can be created; it is then there, and the installation is locked. The cookie that was drawn is
  -- not empty, and neither is any hash.
  pub setup_of_claim :
      IsDigest host.sha256
      → (raw_token cookie key : String) (input : SetupInput) (draw : Draw) (start now until_at : ℕ)
        (w w' : World) (calls : List (ℕ × Attempt)) (ws : Workspace) (created : Created)
      → str_eq cookie "" ≡ false
      → claim host raw_token cookie start w ≡ (w', ok until_at)
      → All
          (λ (c : ℕ × Attempt).
            (ltb c.0 until_at
              && is_foreign host (host.sha256 cookie) (some (host.sha256 raw_token)) c.1)
            ≡ true)
          calls
      → ltb now until_at ≡ true
      → create_workspace host input draw w.workspace ≡ ok (ws, created)
      → (after : World) × ((answer : SetupAnswer) × ((setup host
                (some cookie)
                key
                input
                draw
                now
                (run_all host calls w')
              ≡ (after, ok answer))
            × ((answer.replayed ≡ false)
                × ((after.workspace ≡ zoned input.timezone created ws) × IsSecured after))))
  setup_of_claim digest raw_token cookie key input draw start now until_at w w' calls ws created
        full h others early e =
      let (row, (asked, after, ends)) = claim-eq-ok raw_token cookie start w w' until_at h in
      let mine : InstallationRow = leased host cookie start row in
      let there : w'.installation ≡ some mine = ap (λ (v : World). v.installation) after in
      let lease : IsLeased (host.sha256 cookie) until_at mine = record {
        taken = refl;
        by_cookie = refl;
        ends = ap some (sym ends);
      } in
      let stays : run_all host calls w' ≡ w' =
        run_all-leased host (host.sha256 cookie) until_at mine calls w' there lease (
          subst
            (λ o.
              All
                (λ (c : ℕ × Attempt).
                  (ltb c.0 until_at && is_foreign host (host.sha256 cookie) o c.1) ≡ true)
                calls)
            (sym (same-true row.setup_token_hash (host.sha256 raw_token) asked.right)) others) in
      let done : World × SetupAnswer = set_up host key input now mine (ws, created) in
      (
        done.0,
        (
          done.1,
          (
            ap (setup host (some cookie) key input draw now) stays
                ∙ setup_of_mine cookie key input draw now until_at mine w' (ws, created) digest full
                    there lease early
                    (subst
                      (λ (v : World).
                        create_workspace host input draw v.workspace ≡ ok (ws, created))
                      (sym after) e),
            (refl, (refl, record { row = _; found = refl; closed = refl })),
          ),
        ),
      )
