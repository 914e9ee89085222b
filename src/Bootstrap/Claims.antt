-- ===== src/Bootstrap/Claims.antt =====
-- apps/api/src/auth/bootstrap.service.ts: `ensureInstallation`, `claim`, `setup`, `extend`, `setupResult` and
-- `status`. The clocks of Node and the database give one time in a request.
use Prim.Native.String.{String}
use text.Mathlib.Text.{◌==◌ as str_eq}
use nudgeon_platform.Common.{
  ℕ, suc, ◌+◌, Bool, true, false, not, ◌&&◌, ◌||◌, List, [], ◌∷◌, Option, none, some, ◌==◌,
  if◌then◌else◌, update_rows, Result, ok, err, and_then,
}
use nudgeon_platform.Bootstrap.{
  InstallationState, unclaimed, claimed, secured, recovery_required, SetupResult, InstallationRow,
  WorkspaceApp, Workspace, World, BootstrapError, no_cookie, no_installation, already_secured,
  no_token, wrong_token, lease_taken, no_lease, lease_expired, key_reused, no_result,
  not_the_holder, window_passed, Host, Draw, SetupInput, ended, is_present, same, is_secured,
  is_claimed, lasts, claim_ttl_ms, Created, create_workspace,
}

-- The row that `INSERT … ON CONFLICT DO NOTHING` leaves, with the id that the database draws.
abbrev pub found_row : ℕ → Option InstallationRow → InstallationRow
found_row id none = record {
  installation_id = id;
  state = unclaimed;
  setup_token_hash = none;
  setup_token_version = 0;
  claim_session_hash = none;
  claim_expires_at = none;
  claimed_at = none;
  secured_at = none;
  tenant_id = none;
  owner_id = none;
  app_id = none;
  setup_idempotency_key_hash = none;
  setup_request_hash = none;
  setup_result = none;
  record_version = 1;
}
found_row id (some row) = row

-- A new token ends all leases.
abbrev pub rotated : String → InstallationRow → InstallationRow
rotated token_hash row = record row {
  setup_token_hash = some token_hash;
  setup_token_version = suc row.setup_token_version;
  state = unclaimed;
  claim_session_hash = none;
  claim_expires_at = none;
  claimed_at = none;
  record_version = suc row.record_version;
}

abbrev pub registered : Host → Option String → InstallationRow → InstallationRow
registered host none row = row
registered host (some token) row =
    if not (is_secured row.state) && is_present (some token)
    then (if same row.setup_token_hash (host.sha256 token)
        then row
        else rotated (host.sha256 token) row)
    else row

-- `ensureInstallation`, with the configured token.
unfoldable pub ensure_installation : Host → Option String → ℕ → World → World
ensure_installation host token id w = record w {
  installation = some (registered host token (found_row id w.installation));
}

-- What `status` answers where there is one customer.
pub record InstallationStatus : Type 0 where
  pub state : InstallationState
  pub installation_id : Option ℕ
  pub setup_token_configured : Bool
  pub needs_setup : Bool

abbrev pub status_of_row : Option InstallationRow → InstallationStatus
status_of_row none = record {
  state = recovery_required;
  installation_id = none;
  setup_token_configured = false;
  needs_setup = true;
}
status_of_row (some row) = record {
  state = row.state;
  installation_id = some row.installation_id;
  setup_token_configured = is_present row.setup_token_hash;
  needs_setup = not (is_secured row.state);
}

unfoldable pub installation_status : World → InstallationStatus
installation_status w = status_of_row w.installation

abbrev pub leased : Host → String → ℕ → InstallationRow → InstallationRow
leased host cookie now row = record row {
  state = claimed;
  claim_session_hash = some (host.sha256 cookie);
  claim_expires_at = some (now + claim_ttl_ms);
  claimed_at = some now;
  record_version = suc row.record_version;
}

abbrev pub claim_row :
    Host → String → String → ℕ → Option InstallationRow → World → Result BootstrapError (World × ℕ)
claim_row host raw_token cookie now none w = err no_installation
claim_row host raw_token cookie now (some row) w =
    if is_secured row.state
    then err already_secured
    else if not (is_present row.setup_token_hash)
    then err no_token
    else if not (same row.setup_token_hash (host.sha256 raw_token))
    then err wrong_token
    else if is_claimed row.state && lasts now row.claim_expires_at
    then err lease_taken
    else ok (record w { installation = some (leased host cookie now row) }, now + claim_ttl_ms)

-- `claim`, with the cookie that Node draws, and when its lease ends.
unfoldable pub claim : Host → String → String → ℕ → World → World × Result BootstrapError ℕ
claim host raw_token cookie now w = ended w (claim_row host raw_token cookie now w.installation w)

abbrev pub text_or_empty : Option String → String
text_or_empty none = ""
text_or_empty (some t) = t

abbrev pub request_hash : Host → SetupInput → String
request_hash host input = host.sha256 (
    host.json (
      ("w", input.workspace_name)
      ∷ ("a", input.app_name)
      ∷ ("e", host.to_lower_case input.email)
      ∷ ("n", input.owner_name)
      ∷ ("tz", text_or_empty input.timezone)
      ∷ []))

-- The answer of `setup`.
pub record SetupAnswer : Type 0 where
  pub result : Option SetupResult
  pub keys : Option (String × String)
  pub replayed : Bool

-- `UPDATE apps SET timezone`, which a missing or empty zone leaves out.
abbrev pub zoned : Option String → Created → Workspace → Workspace
zoned none created ws = ws
zoned (some zone) created ws = if str_eq zone "" then ws else record ws {
  apps =
      update_rows (λ (a : WorkspaceApp). a.id == created.app_id && a.tenant_id == created.tenant_id)
        (λ a. record a { timezone = zone }) ws.apps;
}

abbrev pub result_of : Created → ℕ → InstallationRow → SetupResult
result_of created now row = record {
  tenant_id = created.tenant_id;
  app_id = created.app_id;
  member_id = created.member_id;
  installation_id = row.installation_id;
  secured_at = now;
}

abbrev pub secured_row :
    Host → String → SetupInput → Created → ℕ → InstallationRow → InstallationRow
secured_row host idempotency_key input created now row = record row {
  state = secured;
  setup_token_hash = none;
  secured_at = some now;
  tenant_id = some created.tenant_id;
  owner_id = some created.member_id;
  app_id = some created.app_id;
  setup_idempotency_key_hash = some (host.sha256 idempotency_key);
  setup_request_hash = some (request_hash host input);
  setup_result = some (result_of created now row);
  record_version = suc row.record_version;
}

-- What a new workspace is answered with, and what it leaves.
abbrev pub set_up :
    Host → String → SetupInput → ℕ → InstallationRow → Workspace × Created → World × SetupAnswer
set_up host idempotency_key input now row (ws, created) = (
  record {
    workspace = zoned input.timezone created ws;
    installation = some (secured_row host idempotency_key input created now row);
  },
  record {
    result = some (result_of created now row);
    keys = some (created.sdk_key, created.server_key);
    replayed = false;
  },
)

abbrev pub replay :
    Host
    → String
    → SetupInput
    → InstallationRow
    → World
    → Result BootstrapError (World × SetupAnswer)
replay host idempotency_key input row w =
    if same row.setup_request_hash (request_hash host input)
    then ok (w, record { result = row.setup_result; keys = none; replayed = true })
    else err key_reused

abbrev pub setup_row :
    Host
    → String
    → String
    → SetupInput
    → Draw
    → ℕ
    → Option InstallationRow
    → World
    → Result BootstrapError (World × SetupAnswer)
setup_row host cookie idempotency_key input draw now none w = err no_installation
setup_row host cookie idempotency_key input draw now (some row) w =
    let holder = same row.claim_session_hash (host.sha256 cookie) in
    if is_secured row.state
    then (if holder
          && (same row.setup_idempotency_key_hash (host.sha256 idempotency_key)
              && lasts now row.claim_expires_at)
        then replay host idempotency_key input row w
        else err already_secured)
    else if not (is_claimed row.state) || not holder
    then err no_lease
    else if not (lasts now row.claim_expires_at)
    then err lease_expired
    else and_then (create_workspace host input draw w.workspace)
        (λ made. ok (set_up host idempotency_key input now row made))

-- `setup`, with the hash of the password and what else is drawn.
unfoldable pub setup :
    Host
    → Option String
    → String
    → SetupInput
    → Draw
    → ℕ
    → World
    → World × Result BootstrapError SetupAnswer
setup host none idempotency_key input draw now w = (w, err no_cookie)
setup host (some cookie) idempotency_key input draw now w =
    if str_eq cookie ""
    then (w, err no_cookie)
    else ended w (setup_row host cookie idempotency_key input draw now w.installation w)

abbrev pub extend_row :
    Host → String → ℕ → Option InstallationRow → World → Result BootstrapError (World × ℕ)
extend_row host cookie now none w = err no_lease
extend_row host cookie now (some row) w =
    if not (is_claimed row.state) || not (same row.claim_session_hash (host.sha256 cookie))
    then err no_lease
    else if not (lasts now row.claim_expires_at)
    then err lease_expired
    else ok (
      record w {
        installation = some (record row {
          claim_expires_at = some (now + claim_ttl_ms);
          record_version = suc row.record_version;
        });
      },
      now + claim_ttl_ms,
    )

unfoldable pub extend : Host → Option String → ℕ → World → World × Result BootstrapError ℕ
extend host none now w = (w, err no_cookie)
extend host (some cookie) now w =
    if str_eq cookie ""
    then (w, err no_cookie)
    else ended w (extend_row host cookie now w.installation w)

abbrev pub result_row :
    Host → String → String → ℕ → Option InstallationRow → Result BootstrapError (Option SetupResult)
result_row host cookie idempotency_key now none = err no_result
result_row host cookie idempotency_key now (some row) =
    if not (is_secured row.state)
    then err no_result
    else if not (same row.claim_session_hash (host.sha256 cookie))
        || not (same row.setup_idempotency_key_hash (host.sha256 idempotency_key))
    then err not_the_holder
    else if not (lasts now row.claim_expires_at)
    then err window_passed
    else ok row.setup_result

-- `setupResult`.
unfoldable pub setup_result :
    Host → Option String → String → ℕ → World → Result BootstrapError (Option SetupResult)
setup_result host none idempotency_key now w = err no_cookie
setup_result host (some cookie) idempotency_key now w =
    if str_eq cookie ""
    then err no_cookie
    else result_row host cookie idempotency_key now w.installation

-- What reaches the service: a start of it, or a request.
pub data Attempt : Type 0 where
  starting : (token : Option String) → (id : ℕ) → Attempt
  claiming : (raw_token cookie : String) → Attempt
  setting_up :
      (cookie : Option String)
      → (idempotency_key : String) → (input : SetupInput) → (draw : Draw) → Attempt
  extending : (cookie : Option String) → Attempt

unfoldable pub run : Host → ℕ → Attempt → World → World
run host now (starting token id) w = ensure_installation host token id w
run host now (claiming raw_token cookie) w = (claim host raw_token cookie now w).0
run host now (setting_up cookie idempotency_key input draw) w =
    (setup host cookie idempotency_key input draw now w).0
run host now (extending cookie) w = (extend host cookie now w).0

-- One after the other, each at its time.
unfoldable pub run_all : Host → List (ℕ × Attempt) → World → World
run_all host [] w = w
run_all host ((now, a) ∷ rest) w = run_all host rest (run host now a w)
