-- ===== src/Bootstrap/Lease.antt =====
-- apps/api/src/auth/bootstrap.service.ts: the lease of a claim, and what others can do while it runs.
use Prim.Native.String.{String}
use text.Mathlib.Text.{◌==◌ as str_eq}
use nudgeon_platform.Common.{
  ℕ, ◌≡◌, refl, ap, ◌∙◌, Bool, true, false, not, ◌&&◌, ◌||◌, List, [], ◌∷◌, Option, none, some,
  arith, ltb, All, Result,
}
use nudgeon_platform.Bootstrap.{
  InstallationState, InstallationRow, World, BootstrapError, Host, Draw, SetupInput, ended, same,
  is_secured, is_claimed,
}
use nudgeon_platform.Bootstrap.Claims.{
  found_row, registered, ensure_installation, claim_row, claim, SetupAnswer, setup_row, setup,
  extend_row, extend, Attempt, starting, claiming, setting_up, extending, run, run_all,
}
use nudgeon_platform.Bootstrap.Once.{put_row, put_back, if-all}

pub claimed-secured :
    (state : InstallationState) → is_claimed state ≡ true → is_secured state ≡ false
claimed-secured InstallationState.unclaimed h = cc
claimed-secured InstallationState.claimed h = refl
claimed-secured InstallationState.secured h = cc
claimed-secured InstallationState.recovery_required h = cc

-- The row is claimed until a time, by the cookie with the hash.
pub record IsLeased (holder : String) (until_at : ℕ) (row : InstallationRow) : Type 0 where
  pub taken : is_claimed row.state ≡ true
  pub by_cookie : row.claim_session_hash ≡ some holder
  pub ends : row.claim_expires_at ≡ some until_at

module _ (host : Host) where
  -- The configured token is the one registered, or none.
  abbrev pub keeps_token : Option String → Option String → Bool
  keeps_token token_hash none = true
  keeps_token token_hash (some token) = str_eq token "" || same token_hash (host.sha256 token)

  abbrev pub is_other_cookie : String → Option String → Bool
  is_other_cookie holder none = true
  is_other_cookie holder (some cookie) = not (str_eq holder (host.sha256 cookie))

  -- The attempt is not the holder's, and no start with a new token.
  abbrev pub is_foreign : String → Option String → Attempt → Bool
  is_foreign holder token_hash (starting token id) = keeps_token token_hash token
  is_foreign holder token_hash (claiming raw_token cookie) = true
  is_foreign holder token_hash (setting_up cookie key input draw) = is_other_cookie holder cookie
  is_foreign holder token_hash (extending cookie) = is_other_cookie holder cookie

  registered_of_kept :
      (token : Option String) (row : InstallationRow)
      → keeps_token row.setup_token_hash token ≡ true
      → registered host token row ≡ row
  registered_of_kept none row kept = refl
  registered_of_kept (some token) row kept = ground arith

  module _ (holder : String) (until_at now : ℕ) (row : InstallationRow) (w : World)
      (h : IsLeased holder until_at row) (early : ltb now until_at ≡ true) where
    claim_row_of_leased :
        (raw_token cookie : String)
        → (ended w (claim_row host raw_token cookie now (some row) w)).0 ≡ w
    claim_row_of_leased raw_token cookie =
        rw (claimed-secured row.state h.taken, h.taken, h.ends, early) (ground arith)

    setup_row_of_leased :
        (cookie key : String) (input : SetupInput) (draw : Draw)
        → not (str_eq holder (host.sha256 cookie)) ≡ true
        → (ended w (setup_row host cookie key input draw now (some row) w)).0 ≡ w
    unfolding same
    setup_row_of_leased cookie key input draw other =
        rw (claimed-secured row.state h.taken, h.taken, h.by_cookie) (ground arith)

    extend_row_of_leased :
        (cookie : String)
        → not (str_eq holder (host.sha256 cookie)) ≡ true
        → (ended w (extend_row host cookie now (some row) w)).0 ≡ w
    unfolding same
    extend_row_of_leased cookie other = rw (h.taken, h.by_cookie) (ground arith)

    run_of_leased :
        (a : Attempt)
        → w.installation ≡ some row
        → is_foreign holder row.setup_token_hash a ≡ true
        → run host now a w ≡ w
    unfolding run ensure_installation claim setup extend
    run_of_leased (starting token id) found foreign =
        ap (λ o. put_row w (some (registered host token (found_row id o)))) found
        ∙ (ap (λ r. put_row w (some r)) (registered_of_kept token row foreign)
            ∙ put_back w row found)
    run_of_leased (claiming raw_token cookie) found foreign =
        ap (λ o. (ended w (claim_row host raw_token cookie now o w)).0) found
        ∙ claim_row_of_leased raw_token cookie
    run_of_leased (setting_up none key input draw) found foreign = refl
    run_of_leased (setting_up (some cookie) key input draw) found foreign =
        if-all (λ (r : World × Result BootstrapError SetupAnswer). r.0 ≡ w) (str_eq cookie "") refl
          (ap (λ o. (ended w (setup_row host cookie key input draw now o w)).0) found
            ∙ setup_row_of_leased cookie key input draw foreign)
    run_of_leased (extending none) found foreign = refl
    run_of_leased (extending (some cookie)) found foreign =
        if-all (λ (r : World × Result BootstrapError ℕ). r.0 ≡ w) (str_eq cookie "") refl
          (ap (λ o. (ended w (extend_row host cookie now o w)).0) found
            ∙ extend_row_of_leased cookie foreign)

  -- While a lease runs, whatever else reaches the service changes nothing: no claim, even with the setup token,
  -- and no setup or extension with another cookie; a start with the same token neither.
  pub run_all-leased :
      (holder : String) (until_at : ℕ) (row : InstallationRow) (calls : List (ℕ × Attempt))
      (w : World)
      → w.installation ≡ some row
      → IsLeased holder until_at row
      → All
          (λ (c : ℕ × Attempt).
            (ltb c.0 until_at && is_foreign holder row.setup_token_hash c.1) ≡ true)
          calls
      → run_all host calls w ≡ w
  unfolding run_all
  run_all-leased holder until_at row [] w found h others = refl
  run_all-leased holder until_at row ((now, a) ∷ rest) w found h (other, others) =
      ap (run_all host rest)
        (run_of_leased holder until_at now row w h (ground arith) a found (ground arith))
      ∙ run_all-leased holder until_at row rest w found h others
