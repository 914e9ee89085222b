-- ===== src/Bootstrap/Tests.antt =====
-- An installation that is claimed and set up, and what the theorems say of it.
use Prim.Native.String.{String}
use Prim.Native.String
use text.Mathlib.Text.{◌==◌ as str_eq}
use text.Mathlib.TextEquality.{eq_iff}
use nudgeon_platform.Common.{
  ℕ, ◌≡◌, refl, ap, ◌⊎◌, inl, inr, Bool-cases, Bool, true, false, List, [], ◌∷◌, none, some, ltb,
  ◌&&◌, All, ok,
}
use nudgeon_platform.Accounts.Members.{new_member, insert_member}
use nudgeon_platform.Authz.{owner}
use nudgeon_platform.Bootstrap.{
  InstallationRow, Workspace, World, Host, Draw, SetupInput, same, Created, insert_tenant,
  insert_app, insert_api_key, create_workspace, new_key, sdk, server,
}
use nudgeon_platform.Bootstrap.Claims.{
  found_row, ensure_installation, claim, SetupAnswer, zoned, setup, setup_result, extend, Attempt,
  starting, claiming, setting_up, extending, run, run_all,
}
use nudgeon_platform.Bootstrap.Once.{IsSecured, IsMade, run_all-once}
use nudgeon_platform.Bootstrap.Lease.{IsLeased, is_foreign, run_all-leased}
use nudgeon_platform.Bootstrap.Grant.{IsDigest, setup_of_claim}
use nudgeon_platform.Bootstrap.Replay.{repeated, setup-repeated}

abbrev flat : List (String × String) → String
flat [] = "."
flat ((key, value) ∷ rest) = String.◌++◌ key (String.◌++◌ value (flat rest))

-- A text in place of the empty one, and the text itself.
abbrev filled : String → String
filled String.[] = "#"
filled (String.◌∷◌ c t) = String.◌∷◌ c t

abbrev host : Host
host = record { sha256 = filled; json = flat; to_lower_case = λ t. t; lower = λ t. t }

abbrev is_empty : String → Bool
is_empty String.[] = true
is_empty (String.◌∷◌ c t) = false

digest : IsDigest host.sha256
digest String.[] = refl
digest (String.◌∷◌ c t) = elim (Bool-cases (str_eq (String.◌∷◌ c t) "")) [
  | inl e ↦ let h : false ≡ true = ap is_empty ((eq_iff (String.◌∷◌ c t) "").0 e) in cc
  | inr e ↦ e
]

abbrev bare : World
bare = record {
  workspace = record {
    accounts = record { tenants = []; members = []; sessions = []; backup_codes = [] };
    apps = [];
    api_keys = [];
  };
  installation = none;
}

abbrev input : SetupInput
input = record {
  workspace_name = "Acme";
  app_name = "Shop";
  owner_name = "Ada";
  email = "ada@acme.test";
  timezone = some "UTC";
}

abbrev draw : Draw
draw = record {
  tenant_id = 1;
  member_id = 2;
  app_id = 3;
  sdk_id = 4;
  server_id = 5;
  sdk_raw = "abc";
  server_raw = "def";
  password_hash = "hash";
}

abbrev started : World
started = ensure_installation host (some "token") 7 bare

abbrev taken : World
taken = (claim host "token" "cookie" 1000 started).0

abbrev done : World
done = (setup host (some "cookie") "key" input draw 2000 taken).0

-- What others try while the lease runs.
abbrev others : List (ℕ × Attempt)
others =
    (1500, claiming "token" "other")
    ∷ (1600, setting_up (some "other") "key" input draw)
    ∷ (1700, starting (some "token") 8)
    ∷ (1800, extending (some "other"))
    ∷ []

abbrev whole : List (ℕ × Attempt)
whole =
    (1000, claiming "token" "cookie") ∷ (2000, setting_up (some "cookie") "key" input draw) ∷ others

abbrev taken_row : InstallationRow
taken_row = found_row 0 taken.installation

taken-found : taken.installation ≡ some taken_row
unfolding claim ensure_installation same
taken-found = refl

taken-IsLeased : IsLeased "cookie" 901000 taken_row
unfolding claim ensure_installation same
taken-IsLeased = record { taken = refl; by_cookie = refl; ends = refl }

claimed_until : claim host "token" "cookie" 1000 started ≡ (taken, ok 901000)
unfolding claim ensure_installation same
claimed_until = refl

-- The setup makes the workspace, in the zone that is asked for.
set_up_once :
    (run_all host whole started).workspace.apps
    ≡ record { id = 3; tenant_id = 1; name = "Shop"; timezone = "UTC" } ∷ []
unfolding run_all run claim setup extend ensure_installation same create_workspace insert_tenant
    insert_member insert_app insert_api_key
set_up_once = refl

others-AllForeign :
    All
      (λ (c : ℕ × Attempt). (ltb c.0 901000 && is_foreign host "cookie" (some "token") c.1) ≡ true)
      others
unfolding same
others-AllForeign = (refl, (refl, (refl, (refl, tt))))

run_all-once_example :
    ((run_all host whole started).workspace ≡ started.workspace)
    ⊎ (IsMade host started.workspace (run_all host whole started)
        × ((more : List (ℕ × Attempt))
            → run_all host more (run_all host whole started) ≡ run_all host whole started))
run_all-once_example = run_all-once host whole started

run_all-leased_example : run_all host others taken ≡ taken
unfolding claim ensure_installation same
run_all-leased_example =
    run_all-leased host "cookie" 901000 taken_row others taken taken-found taken-IsLeased
      others-AllForeign

abbrev made : Workspace × Created
made = (
  record {
    accounts = record {
      tenants = record { id = 1; require_2fa = false } ∷ [];
      members = new_member 2 1 "ada@acme.test" "hash" "Ada" owner ∷ [];
      sessions = [];
      backup_codes = [];
    };
    apps = record { id = 3; tenant_id = 1; name = "Shop"; timezone = "Asia/Seoul" } ∷ [];
    api_keys = new_key host 5 1 3 server "def" ∷ (new_key host 4 1 3 sdk "abc" ∷ []);
  },
  record { tenant_id = 1; member_id = 2; app_id = 3; sdk_key = "pk_abc"; server_key = "sk_def" },
)

made_of_bare : create_workspace host input draw started.workspace ≡ ok made
unfolding create_workspace insert_tenant insert_member insert_app insert_api_key ensure_installation
made_of_bare = refl

setup_of_claim_example :
    (after : World) × ((answer : SetupAnswer) × ((setup host
            (some "cookie")
            "key"
            input
            draw
            2000
            (run_all host others taken)
          ≡ (after, ok answer))
        × ((answer.replayed ≡ false)
            × ((after.workspace ≡ zoned input.timezone made.1 made.0) × IsSecured after))))
setup_of_claim_example =
    setup_of_claim host digest "token" "cookie" "key" input draw 1000 2000 901000 started taken
      others made.0 made.1 refl claimed_until others-AllForeign refl made_of_bare

abbrev answer : SetupAnswer
answer = record {
  result =
      some (record {
        tenant_id = 1;
        app_id = 3;
        member_id = 2;
        installation_id = 7;
        secured_at = 2000;
      });
  keys = some ("pk_abc", "sk_def");
  replayed = false;
}

answered : setup host (some "cookie") "key" input draw 2000 taken ≡ (done, ok answer)
unfolding setup claim ensure_installation same create_workspace insert_tenant insert_member
    insert_app insert_api_key
answered = refl

setup-repeated_example :
    (setup host (some "cookie") "key" input draw 3000 (run_all host others done)
      ≡ (run_all host others done, ok (repeated host answer)))
    × (setup_result host (some "cookie") "key" 3000 (run_all host others done) ≡ ok answer.result)
setup-repeated_example =
    setup-repeated host "cookie" "key" input draw draw 2000 3000 901000 taken_row taken done answer
      others digest taken-found taken-IsLeased.ends answered refl refl
