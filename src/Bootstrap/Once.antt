-- ===== src/Bootstrap/Once.antt =====
-- apps/api/src/auth/bootstrap.service.ts: what happens to the workspace, whatever reaches the service.
use Prim.Native.String.{String}
use text.Mathlib.Text.{◌==◌ as str_eq}
use nudgeon_platform.Common.{
  ℕ, ◌≡◌, refl, sym, ap, ◌∙◌, subst, ◌⊎◌, inl, inr, Bool, true, false, not, ◌&&◌, ◌||◌, List, [],
  ◌∷◌, Option, none, some, Bool-cases, arith, if◌then◌else◌, Result, ok, err, and_then,
}
use nudgeon_platform.Bootstrap.{
  InstallationState, InstallationRow, Workspace, World, BootstrapError, Host, Draw, SetupInput,
  ended, same, is_secured, is_claimed, lasts, Created, create_workspace,
}
use nudgeon_platform.Bootstrap.Claims.{
  found_row, registered, ensure_installation, claim_row, claim, request_hash, SetupAnswer, zoned,
  replay, set_up, setup_row, setup, extend_row, extend, Attempt, starting, claiming, setting_up,
  extending, run, run_all,
}

-- The installation is locked.
pub record IsSecured (w : World) : Type 0 where
  pub row : InstallationRow
  pub found : w.installation ≡ some row
  pub closed : is_secured row.state ≡ true

abbrev pub put_row : World → Option InstallationRow → World
put_row w o = record w { installation = o }

-- Writing back the row that is there changes nothing.
pub put_back :
    (w : World) (row : InstallationRow) → w.installation ≡ some row → put_row w (some row) ≡ w
put_back w row found = ap (put_row w) (sym found)

-- A property of both branches.
pub if-all {ℓ κ} :
    {A : Type ℓ} (P : A → Type κ) (b : Bool) {x y : A} → P x → P y → P (if b then x else y)
if-all P true p q = p
if-all P false p q = q

secured-claimed : (state : InstallationState) → is_secured state ≡ true → is_claimed state ≡ false
secured-claimed InstallationState.unclaimed h = cc
secured-claimed InstallationState.claimed h = cc
secured-claimed InstallationState.secured h = refl
secured-claimed InstallationState.recovery_required h = cc

module _ (host : Host) where
  registered_of_secured :
      (token : Option String) (row : InstallationRow)
      → is_secured row.state ≡ true
      → registered host token row ≡ row
  registered_of_secured none row closed = refl
  registered_of_secured (some token) row closed = rw closed refl

  replay-world :
      (key : String) (input : SetupInput) (row : InstallationRow) (w : World)
      → (ended w (replay host key input row w)).0 ≡ w
  replay-world key input row w =
      elim (Bool-cases (same row.setup_request_hash (request_hash host input))) [
        | inl e ↦ rw e refl
        | inr e ↦ rw e refl
      ]

  setup_row_of_secured :
      (cookie key : String) (input : SetupInput) (draw : Draw) (now : ℕ) (row : InstallationRow)
      (w : World)
      → is_secured row.state ≡ true
      → (ended w (setup_row host cookie key input draw now (some row) w)).0 ≡ w
  setup_row_of_secured cookie key input draw now row w closed =
      rw closed
        elim (Bool-cases (
          same row.claim_session_hash (host.sha256 cookie)
          && (same row.setup_idempotency_key_hash (host.sha256 key)
              && lasts now row.claim_expires_at))) [
                | inl e ↦ rw e (replay-world key input row w)
                | inr e ↦ rw e refl
              ]

  claim_row_of_secured :
      (raw_token cookie : String) (now : ℕ) (row : InstallationRow) (w : World)
      → is_secured row.state ≡ true
      → (ended w (claim_row host raw_token cookie now (some row) w)).0 ≡ w
  claim_row_of_secured raw_token cookie now row w closed = rw closed refl

  extend_row_of_secured :
      (cookie : String) (now : ℕ) (row : InstallationRow) (w : World)
      → is_secured row.state ≡ true
      → (ended w (extend_row host cookie now (some row) w)).0 ≡ w
  extend_row_of_secured cookie now row w closed = rw (secured-claimed row.state closed) refl

  run_of_secured : (now : ℕ) (a : Attempt) (w : World) → IsSecured w → run host now a w ≡ w
  unfolding run ensure_installation claim setup extend
  run_of_secured now (starting token id) w h =
      ap (λ o. put_row w (some (registered host token (found_row id o)))) h.found
      ∙ (ap (λ r. put_row w (some r)) (registered_of_secured token h.row h.closed)
          ∙ put_back w h.row h.found)
  run_of_secured now (claiming raw_token cookie) w h =
      ap (λ o. (ended w (claim_row host raw_token cookie now o w)).0) h.found
      ∙ claim_row_of_secured raw_token cookie now h.row w h.closed
  run_of_secured now (setting_up none key input draw) w h = refl
  run_of_secured now (setting_up (some cookie) key input draw) w h =
      if-all (λ (r : World × Result BootstrapError SetupAnswer). r.0 ≡ w) (str_eq cookie "") refl
        (ap (λ o. (ended w (setup_row host cookie key input draw now o w)).0) h.found
          ∙ setup_row_of_secured cookie key input draw now h.row w h.closed)
  run_of_secured now (extending none) w h = refl
  run_of_secured now (extending (some cookie)) w h =
      if-all (λ (r : World × Result BootstrapError ℕ). r.0 ≡ w) (str_eq cookie "") refl
        (ap (λ o. (ended w (extend_row host cookie now o w)).0) h.found
          ∙ extend_row_of_secured cookie now h.row w h.closed)

  pub run_all_of_secured :
      (calls : List (ℕ × Attempt)) (w : World) → IsSecured w → run_all host calls w ≡ w
  unfolding run_all
  run_all_of_secured [] w h = refl
  run_all_of_secured ((now, a) ∷ rest) w h =
      ap (run_all host rest) (run_of_secured now a w h) ∙ run_all_of_secured rest w h

  -- There is the workspace that a setup made out of the one before, and the installation is locked.
  pub record IsMade (before : Workspace) (w : World) : Type 0 where
    pub input : SetupInput
    pub draw : Draw
    pub ws : Workspace
    pub created : Created
    pub made : create_workspace host input draw before ≡ ok (ws, created)
    pub now_there : w.workspace ≡ zoned input.timezone created ws
    pub locked : IsSecured w

  abbrev Once : Workspace → World → Type 0
  Once before w = (w.workspace ≡ before) ⊎ IsMade before w

  unfoldable Ends {ℓ} : {A : Type ℓ} → World → Result BootstrapError (World × A) → Type 0
  Ends w r = Once w.workspace (ended w r).0

  replay-Ends :
      (key : String) (input : SetupInput) (row : InstallationRow) (w : World)
      → Ends w (replay host key input row w)
  unfolding Ends
  replay-Ends key input row w = inl (ap (λ (w : World). w.workspace) (replay-world key input row w))

  made-Ends :
      (key : String) (input : SetupInput) (draw : Draw) (now : ℕ) (row : InstallationRow)
      (w : World)
      → Ends w (
          and_then
            (create_workspace host input draw w.workspace)
            (λ made. ok (set_up host key input now row made)))
  unfolding Ends
  made-Ends key input draw now row w = case_made (create_workspace host input draw w.workspace) refl
    where
      case_made :
          (r : Result BootstrapError (Workspace × Created))
          → create_workspace host input draw w.workspace ≡ r
          → Ends w (and_then r (λ made. ok (set_up host key input now row made)))
      case_made (err e) h = inl refl
      case_made (ok (ws, created)) h = inr (record {
        input = input;
        draw = draw;
        ws = ws;
        created = created;
        made = h;
        now_there = refl;
        locked = record { row = _; found = refl; closed = refl };
      })

  setup_row-Ends :
      (cookie key : String) (input : SetupInput) (draw : Draw) (now : ℕ)
      (o : Option InstallationRow) (w : World)
      → Ends w (setup_row host cookie key input draw now o w)
  unfolding Ends
  setup_row-Ends cookie key input draw now none w = inl refl
  setup_row-Ends cookie key input draw now (some row) w =
      let holder = same row.claim_session_hash (host.sha256 cookie) in
      let again =
        same row.setup_idempotency_key_hash (host.sha256 key) && lasts now row.claim_expires_at in
      elim (Bool-cases (is_secured row.state)) [
        | inl closed ↦ rw closed elim (Bool-cases (holder && again)) [
          | inl e ↦ rw e (replay-Ends key input row w)
          | inr e ↦ rw e (inl refl)
        ]
        | inr still ↦ rw still elim (Bool-cases (not (is_claimed row.state) || not holder)) [
          | inl e ↦ rw e (inl refl)
          | inr e ↦ rw e elim (Bool-cases (not (lasts now row.claim_expires_at))) [
            | inl late ↦ rw late (inl refl)
            | inr early ↦ rw early (made-Ends key input draw now row w)
          ]
        ]
      ]

  claim_row-Ends :
      (raw_token cookie : String) (now : ℕ) (o : Option InstallationRow) (w : World)
      → Ends w (claim_row host raw_token cookie now o w)
  unfolding Ends
  claim_row-Ends raw_token cookie now none w = inl refl
  claim_row-Ends raw_token cookie now (some row) w = inl (ground arith)

  extend_row-Ends :
      (cookie : String) (now : ℕ) (o : Option InstallationRow) (w : World)
      → Ends w (extend_row host cookie now o w)
  unfolding Ends
  extend_row-Ends cookie now none w = inl refl
  extend_row-Ends cookie now (some row) w = inl (ground arith)

  run-Once : (now : ℕ) (a : Attempt) (w : World) → Once w.workspace (run host now a w)
  unfolding run ensure_installation claim setup extend Ends
  run-Once now (starting token id) w = inl refl
  run-Once now (claiming raw_token cookie) w = claim_row-Ends raw_token cookie now w.installation w
  run-Once now (setting_up none key input draw) w = inl refl
  run-Once now (setting_up (some cookie) key input draw) w =
      if-all (λ (r : World × Result BootstrapError SetupAnswer). Once w.workspace r.0)
        (str_eq cookie "") (inl refl) (setup_row-Ends cookie key input draw now w.installation w)
  run-Once now (extending none) w = inl refl
  run-Once now (extending (some cookie)) w =
      if-all (λ (r : World × Result BootstrapError ℕ). Once w.workspace r.0) (str_eq cookie "")
        (inl refl) (extend_row-Ends cookie now w.installation w)

  -- Whatever reaches the service, at whatever times: the workspace is as it was, or it is what one setup made out
  -- of it, and then the installation is locked, for good: whatever follows leaves the world as it is.
  pub run_all-once :
      (calls : List (ℕ × Attempt)) (w : World)
      → ((run_all host calls w).workspace ≡ w.workspace)
        ⊎ (IsMade w.workspace (run_all host calls w)
            × ((more : List (ℕ × Attempt))
                → run_all host more (run_all host calls w) ≡ run_all host calls w))
  unfolding run_all
  run_all-once [] w = inl refl
  run_all-once ((now, a) ∷ rest) w = elim (run-Once now a w) [
    | inl same ↦
        subst
          (λ ws.
            ((run_all host rest (run host now a w)).workspace ≡ ws)
            ⊎ (IsMade ws (run_all host rest (run host now a w))
                × ((more : List (ℕ × Attempt))
                    → run_all host more (run_all host rest (run host now a w))
                      ≡ run_all host rest (run host now a w))))
          same (run_all-once rest (run host now a w))
    | inr made ↦
        let kept = run_all_of_secured rest (run host now a w) made.locked in
        inr (rw kept (made, λ more. run_all_of_secured more (run host now a w) made.locked))
  ]
