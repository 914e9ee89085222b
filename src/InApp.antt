-- ===== src/InApp.antt =====
-- The tables of in-app messages (db/postgres/upgrades/0011_in_app_campaigns.sql), as
-- apps/api/src/in-app/campaign.service.ts and delivery.service.ts use them, with the types of
-- campaign-contract.ts. An id is a number in place of a uuid, and a time is a number of milliseconds.
-- Columns that only reports read are left out, and so are foreign keys.
pub mod Campaigns
pub mod Access
pub mod Decision
pub mod Progress
pub mod Display
pub mod Live
mod Tests
use Prim.Native.String.{String}
use text.Mathlib.Text.{◌==◌ as str_eq}
use nudgeon_platform.Common.{ℕ, Bool, true, false, ◌&&◌, List, Option, none, some, ◌==◌}

pub data Platform : Type 0 where
  ios android : Platform

abbrev pub same_platform : Platform → Platform → Bool
same_platform ios ios = true
same_platform android android = true
same_platform _ _ = false

-- `triggerSchema`.
pub data Trigger : Type 0 where
  foreground launch : Trigger
  screen event : (name : String) → Trigger

-- `a.type === b.type`.
abbrev pub same_type : Trigger → Trigger → Bool
same_type foreground foreground = true
same_type launch launch = true
same_type (screen a) (screen b) = true
same_type (event a) (event b) = true
same_type _ _ = false

-- `trigger.name`, which is none where `"name" in trigger` is false.
abbrev pub trigger_name : Trigger → Option String
trigger_name foreground = none
trigger_name launch = none
trigger_name (screen name) = some name
trigger_name (event name) = some name

abbrev pub same_name : Option String → Option String → Bool
same_name none none = true
same_name (some a) (some b) = str_eq a b
same_name _ _ = false

-- `time_zone` is none in a configuration from before there were zones.
pub record CampaignConfig : Type 0 where
  pub platforms : List Platform
  pub trigger : Trigger
  pub time_zone : Option String
  pub starts_at : ℕ
  pub ends_at : ℕ
  pub cooldown_seconds : ℕ
  pub max_per_day : ℕ
  pub max_total : ℕ
  pub priority : ℕ

pub data CampaignState : Type 0 where
  draft published paused : CampaignState

pub record App : Type 0 where
  pub tenant : ℕ
  pub id : ℕ

pub record Campaign : Type 0 where
  pub id : ℕ
  pub tenant : ℕ
  pub app : ℕ
  pub name : String
  pub revision_id : ℕ
  pub config : CampaignConfig
  pub version : ℕ
  pub state : CampaignState
  pub created_at : ℕ

pub record Publication : Type 0 where
  pub tenant : ℕ
  pub app : ℕ
  pub campaign_id : ℕ
  pub version : ℕ
  pub revision_id : ℕ
  pub config : CampaignConfig
  pub published_by : ℕ

-- A row of in_app_installations, with the columns of `Installation` first.
pub record Device : Type 0 where
  pub id : ℕ
  pub tenant : ℕ
  pub app : ℕ
  pub platform : Platform
  pub credential_hash : String
  pub revoked : Bool
  pub created_at : ℕ
  pub last_seen_at : ℕ

pub data DeliveryState : Type 0 where
  reserved authorized presented completed failed cancelled expired : DeliveryState

pub record Delivery : Type 0 where
  pub id : ℕ
  pub tenant : ℕ
  pub app : ℕ
  pub installation_id : ℕ
  pub campaign_id : ℕ
  pub version : ℕ
  pub revision_id : ℕ
  pub request_key : ℕ
  pub session_id : ℕ
  pub trigger : Trigger
  pub state : DeliveryState
  pub expires_at : ℕ
  pub authorized_at : Option ℕ
  pub created_at : ℕ

-- `EventKind.presented` is the report, `DeliveryState.presented` the state.
pub data EventKind : Type 0 where
  bridge_ready content_ready presented impression action dismiss failed log hide_today cancelled :
      EventKind

pub record DeliveryEvent : Type 0 where
  pub tenant : ℕ
  pub app : ℕ
  pub delivery_id : ℕ
  pub event_id : ℕ
  pub kind : EventKind
  pub detail : String
  pub occurred_at : Option ℕ

pub record Suppression : Type 0 where
  pub tenant : ℕ
  pub app : ℕ
  pub installation_id : ℕ
  pub campaign_id : ℕ
  pub until_at : ℕ

pub record Review : Type 0 where
  pub tenant : ℕ
  pub app : ℕ
  pub revision_id : ℕ
  pub platform : Platform
  pub run_id : ℕ
  pub passed : Bool
  pub reviewed_by : ℕ

-- `actions` are the names of `manifest.actions`.
pub record Revision : Type 0 where
  pub tenant : ℕ
  pub app : ℕ
  pub id : ℕ
  pub actions : List String

-- A test run, with the platform of its device, whether it is completed, and its events.
pub record TestRun : Type 0 where
  pub tenant : ℕ
  pub app : ℕ
  pub id : ℕ
  pub revision_id : ℕ
  pub platform : Platform
  pub is_completed : Bool
  pub events : List (EventKind × String)

pub record Store : Type 0 where
  pub apps : List App
  pub campaigns : List Campaign
  pub publications : List Publication
  pub installations : List Device
  pub deliveries : List Delivery
  pub events : List DeliveryEvent
  pub suppressions : List Suppression
  pub reviews : List Review
  pub revisions : List Revision
  pub runs : List TestRun

-- The exceptions, by their codes; `type_error` is the one of a missing row that the code does not test for.
pub data InAppError : Type 0 where
  unauthorized not_found disabled installation_daily_limit request_key_reused : InAppError
  delivery_not_eligible event_id_reused invalid_cancellation_reason event_time_invalid : InAppError
  delivery_closed not_authorized not_presented event_limit unknown_action : InAppError
  campaign_changed_or_published campaign_limit review_requires_checklist campaign_changed :
      InAppError
  campaign_ended platform_review_required unique_violation type_error asset_error invalid_input :
      InAppError

-- The clocks of a request: `now()` of its transaction, and `Date.now()`.
pub record Clock : Type 0 where
  pub sql : ℕ
  pub js : ℕ
