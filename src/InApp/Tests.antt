-- ===== src/InApp/Tests.antt =====
-- An app with one campaign and one installation, what it is asked for, and the theorems at it.
use text.Mathlib.Text.{◌==◌ as str_eq}
use nudgeon_platform.Common.{
  ℕ, ◌≤◌, ◌≡◌, ◌↔◌, refl, arith, Bool, true, false, ◌&&◌, List, [], ◌∷◌, none, some, if◌then◌else◌,
  count_rows, err,
}
use nudgeon_platform.InApp.{
  ios, CampaignConfig, launch, draft, published, Campaign, Publication, DeliveryState, Delivery,
  EventKind, dismiss, Store, Clock, not_presented,
}
use nudgeon_platform.InApp.Decision.{
  refresh, ranked, candidates, is_eligible, is_within_limits, is_showable, chosen, decide, Decision,
  is_shown,
}
use nudgeon_platform.InApp.Access.{Installation, split_dots, auth, register}
use nudgeon_platform.InApp.Display.{
  find_delivery, campaign_of, may_authorize, update_delivery, authorize, status, DeliveryStatus,
  delivery_inactive, revoke,
}
use nudgeon_platform.InApp.Display.Events.{
  EventReport, check_action, check_event, insert_event, suppress, hide, next_state, write_event,
  event,
}
use nudgeon_platform.TwoFactor.Totp.{units}
use nudgeon_platform.InApp.Display.Laws.{IsGrantable, authorize-IsGrantable, status_iff}
use nudgeon_platform.InApp.Campaigns.{
  Switches, is_open_for, pause_row, refused_app, is_valid_config, save, put_review, review,
  publish_found, pause_found, transition, transitioning, edit,
}
use nudgeon_platform.InApp.Campaigns.Recorded.{IsBacked, edit-IsBacked}
use nudgeon_platform.InApp.Live.{
  Host, Action, deciding, authorizing, reporting, act, authed, handle, Call, handle_all,
}
use nudgeon_platform.InApp.Live.Safety.{IsSafe, handle_all-IsSafe}
use nudgeon_platform.InApp.Live.Requests.{Takes, handle-Moves}
use nudgeon_platform.InApp.Live.Limits.{
  is_spent, is_about_in, handle_all-max_total, handle_all-session,
}
use nudgeon_platform.InApp.Live.Paused.{handle_all-paused}
use nudgeon_platform.InApp.Live.Others.{others, act-others}

abbrev host : Host
host = record {
  hash = λ t. t;
  uuid = λ t. if str_eq t "7" then some 7 else none;
  live = true;
  day_start = λ zone t. 0;
  next_day = λ zone t. 86400000;
}

abbrev config : CampaignConfig
config = record {
  platforms = ios ∷ [];
  trigger = launch;
  time_zone = none;
  starts_at = 0;
  ends_at = 1000000;
  cooldown_seconds = 60;
  max_per_day = 2;
  max_total = 3;
  priority = 0;
}

abbrev spring : Campaign
spring = record {
  id = 5;
  tenant = 1;
  app = 2;
  name = "Spring";
  revision_id = 9;
  config = config;
  version = 4;
  state = published;
  created_at = 0;
}

abbrev publication : Publication
publication = record {
  tenant = 1;
  app = 2;
  campaign_id = 5;
  version = 4;
  revision_id = 9;
  config = config;
  published_by = 10;
}

abbrev phone : Installation
phone = record { id = 7; tenant = 1; app = 2; platform = ios }

abbrev store : Store
store = record {
  apps = record { tenant = 1; id = 2 } ∷ [];
  campaigns = spring ∷ [];
  publications = publication ∷ [];
  installations =
      record {
        id = 7;
        tenant = 1;
        app = 2;
        platform = ios;
        credential_hash = "k";
        revoked = false;
        created_at = 0;
        last_seen_at = 0;
      }
      ∷ [];
  deliveries = [];
  events = [];
  suppressions = [];
  reviews =
      record {
        tenant = 1;
        app = 2;
        revision_id = 9;
        platform = ios;
        run_id = 3;
        passed = true;
        reviewed_by = 10;
      }
      ∷ [];
  revisions = [];
  runs = [];
}

-- Before it was published.
abbrev drafted : Store
drafted = record store { campaigns = record spring { state = draft } ∷ []; publications = [] }

abbrev clock : ℕ → Clock
clock t = record { sql = t; js = t }

abbrev call : ℕ → Action → Call
call t a = record { tenant = 1; app = 2; request = authed "7.k" a; clock = clock t }

abbrev request : Decision
request = record { request_key = 20; session_id = 30; trigger = launch }

abbrev report : ℕ → EventKind → EventReport
report id kind = record { event_id = id; kind = kind; detail = ""; occurred_at = none }

-- It is asked for, authorized, shown and closed, and then asked for again in the same session.
abbrev visit : List Call
visit =
    call 100 (deciding true request 50)
    ∷ call 110 (authorizing 50)
    ∷ call 120 (reporting 50 (report 60 EventKind.presented))
    ∷ call 130 (reporting 50 (report 61 dismiss))
    ∷ call 500000 (deciding true (record request { request_key = 21 }) 51)
    ∷ []

abbrev switches : Switches
switches = record { workbench = true; campaigns = true }

abbrev all_files : ℕ → ℕ → ℕ → Bool
all_files tenant app revision = true

runs : Unit {0}
unfolding split_dots auth refresh ranked candidates is_eligible is_within_limits is_showable chosen
    decide register find_delivery campaign_of may_authorize update_delivery authorize status
    check_action check_event insert_event suppress hide next_state write_event event revoke act
    handle handle_all refused_app is_valid_config save put_review review publish_found pause_found
    transition edit units
runs = tt

abbrev states : List Delivery → List DeliveryState
states [] = []
states (d ∷ ds) = d.state ∷ states ds

visit-states : states (handle_all host visit store).deliveries ≡ DeliveryState.completed ∷ []
unfolding runs
visit-states = refl

-- A report of a display that was not reported first.
unseen :
    (event host.next_day phone 50 (report 61 dismiss) 120 (
      handle_all host
        (call 100 (deciding true request 50) ∷ call 110 (authorizing 50) ∷ [])
        store)).1
    ≡ err not_presented
unfolding runs
unseen = refl

empty-IsSafe : IsSafe []
empty-IsSafe = record { kept = record { keyed = tt; stamped = tt }; single = λ i. omega arith }

handle_all-IsSafe_example : IsSafe (handle_all host visit store).deliveries
handle_all-IsSafe_example = handle_all-IsSafe host visit store empty-IsSafe

handle-Moves_example :
    Takes host 1 2
      (authed "7.k" (deciding true request 50))
      (clock 100)
      store
      (handle host 1 2 (authed "7.k" (deciding true request 50)) (clock 100) store)
handle-Moves_example =
    handle-Moves host 1 2 (authed "7.k" (deciding true request 50)) (clock 100) store
      (record { keyed = tt; stamped = tt })

handle_all-max_total_example :
    count_rows (is_shown phone 5) (handle_all host visit store).deliveries ≤ 3
handle_all-max_total_example =
    handle_all-max_total host visit store phone 5 3 empty-IsSafe (λ _. omega arith, tt)
      (omega arith)

handle_all-session_example :
    count_rows
      (λ d. is_about_in phone 5 30 d && is_spent d)
      (handle_all host visit store).deliveries
    ≤ 1
handle_all-session_example =
    handle_all-session host visit store phone 5 30 empty-IsSafe (omega arith)

handle_all-paused_example :
    count_rows
      (is_open_for (pause_row spring))
      (handle_all host visit (transition all_files switches 1 2 5 10 4 false 90 store).0).deliveries
    ≡ 0
unfolding runs
handle_all-paused_example =
    handle_all-paused all_files switches 1 2 5 10 4 90 store (pause_row spring) host visit
      empty-IsSafe refl

act-others_example :
    others phone (act host phone (authorizing 50) (clock 110) store).deliveries
    ≡ others phone store.deliveries
act-others_example = act-others host phone (authorizing 50) (clock 110) store

abbrev asked : Store
asked = handle_all host (call 100 (deciding true request 50) ∷ []) store

authorize-IsGrantable_example :
    IsGrantable phone 50 (clock 110) asked (authorize phone 50 (clock 110) asked).0 300110
unfolding runs
authorize-IsGrantable_example = authorize-IsGrantable phone 50 (clock 110) asked 300110 refl

abbrev waiting : DeliveryStatus
waiting = record { reason = some delivery_inactive; active = false }

status_iff_example : (waiting.active ≡ true) ↔ (waiting.reason ≡ none)
unfolding runs
status_iff_example = status_iff phone 50 110 asked waiting refl

edit-IsBacked_example :
    IsBacked (edit (λ zone. true) all_files switches 1 2 (transitioning 5 10 4 true 90) drafted)
edit-IsBacked_example =
    edit-IsBacked (λ zone. true) all_files switches 1 2 (transitioning 5 10 4 true 90) drafted
      (record { keyed = (tt, tt); recorded = (λ e. cc, tt) })
