-- ===== src/InApp/Display.antt =====
-- apps/api/src/in-app/delivery.service.ts: `artifact`, `authorize`, `status` and `revoke`. A
-- transaction, behind its row lock, is one step, and one that is rolled back leaves the store.
pub mod Events
pub mod Laws
use Prim.Native.String.{String}
use text.Mathlib.Text.{◌==◌ as str_eq}
use nudgeon_platform.Common.{
  ℕ, ◌+◌, Bool, true, false, not, ◌&&◌, ◌||◌, List, [], ◌∷◌, Option, none, some, ◌==◌, ltb, leb,
  if◌then◌else◌, any, is_none, first_row, update_rows, count_rows, Result, ok, err,
}
use nudgeon_platform.InApp.{
  Campaign, Publication, Device, DeliveryState, reserved, authorized, presented, completed, failed,
  expired, Delivery, EventKind, bridge_ready, content_ready, impression, action, dismiss, log,
  hide_today, DeliveryEvent, Suppression, Revision, Store, InAppError, unauthorized, not_found,
  delivery_not_eligible, event_id_reused, invalid_cancellation_reason, event_time_invalid,
  delivery_closed, not_authorized, not_presented, event_limit, unknown_action, type_error,
  asset_error, Clock,
}
use nudgeon_platform.InApp.Decision.{
  is_open, is_open_of, is_delivery_of, is_active_device, is_published, is_publication, set_state,
  zone_of, delivery_zone,
}
use nudgeon_platform.InApp.Access.{Installation, settle, is_device}

-- The response of `decide`. `assets` stands for what `assets.read` makes of a revision.
pub record Artifact {ℓ} (A : Type ℓ) : Type ℓ where
  pub time_zone : String
  pub id : ℕ
  pub revision_id : ℕ
  pub campaign_id : ℕ
  pub expires_at : ℕ
  pub asset : A

module _ {ℓ} {A : Type ℓ} where
  abbrev pub artifact_of :
      Installation → Delivery → Store → Option A → Result InAppError (Artifact A)
  artifact_of i d s none = err asset_error
  artifact_of i d s (some asset) = ok (record {
    time_zone = delivery_zone i d s;
    id = d.id;
    revision_id = d.revision_id;
    campaign_id = d.campaign_id;
    expires_at = d.expires_at;
    asset = asset;
  })

  -- `artifact`.
  unfoldable pub artifact :
      (ℕ → ℕ → ℕ → Option A) → Installation → Delivery → Store → Result InAppError (Artifact A)
  artifact assets i d s = artifact_of i d s (assets i.tenant i.app d.revision_id)

abbrev pub is_delivery : Installation → ℕ → Delivery → Bool
is_delivery i id d = is_delivery_of i d && d.id == id

unfoldable pub find_delivery : Installation → ℕ → Store → Option Delivery
find_delivery i id s = first_row (is_delivery i id) s.deliveries

abbrev pub is_campaign : ℕ → ℕ → ℕ → Campaign → Bool
is_campaign tenant app id c = c.tenant == tenant && (c.app == app && c.id == id)

unfoldable pub campaign_of : Installation → Delivery → Store → Option Campaign
campaign_of i d s = first_row (is_campaign i.tenant i.app d.campaign_id) s.campaigns

-- `["reserved", "authorized"].includes(state)`, and `["authorized", "presented"].includes(state)`.
abbrev pub is_pending : DeliveryState → Bool
is_pending reserved = true
is_pending authorized = true
is_pending _ = false

abbrev pub is_granted : DeliveryState → Bool
is_granted authorized = true
is_granted presented = true
is_granted _ = false

abbrev pub is_authorized : DeliveryState → Bool
is_authorized authorized = true
is_authorized _ = false

-- The delivery may be shown now.
unfoldable pub may_authorize : ℕ → Campaign → Delivery → Bool
may_authorize now c d =
    is_published c.state
    && (c.version == d.version
        && (leb c.config.starts_at now
            && (ltb now c.config.ends_at && (ltb now d.expires_at && is_pending d.state))))

-- `LEAST(a, b)`.
abbrev pub least : ℕ → ℕ → ℕ
least a b = if leb a b then a else b

abbrev pub grant : ℕ → ℕ → Delivery → Delivery
grant now ends_at d = record d {
  state = authorized;
  authorized_at = some now;
  expires_at = least (now + 300000) ends_at;
}

unfoldable pub update_delivery : Installation → ℕ → (Delivery → Delivery) → Store → Store
update_delivery i id f s = record s { deliveries = update_rows (is_delivery i id) f s.deliveries }

-- The answer is when the row that is there, or that the update returns, expires.
abbrev pub authorize_found :
    Installation → ℕ → Clock → Option Campaign → Delivery → Store → Result InAppError (Store × ℕ)
authorize_found i id clock none d s = err type_error
authorize_found i id clock (some c) d s =
    if may_authorize clock.js c d
    then (if is_authorized d.state
        then ok (s, d.expires_at)
        else let granted : Delivery = grant clock.sql c.config.ends_at d in
          ok (update_delivery i id (grant clock.sql c.config.ends_at) s, granted.expires_at))
    else err delivery_not_eligible

abbrev pub authorize_at :
    Installation → ℕ → Clock → Option Delivery → Store → Result InAppError (Store × ℕ)
authorize_at i id clock none s = err not_found
authorize_at i id clock (some d) s = authorize_found i id clock (campaign_of i d s) d s

-- `authorize`, and when what it grants expires.
unfoldable pub authorize : Installation → ℕ → Clock → Store → Store × Result InAppError ℕ
authorize i id clock s = settle s (
    if any (is_active_device i) s.installations
    then authorize_at i id clock (find_delivery i id s) s
    else err unauthorized)

pub data InactiveReason : Type 0 where
  campaign_paused campaign_updated campaign_expired display_timeout delivery_inactive :
      InactiveReason

pub record DeliveryStatus : Type 0 where
  pub reason : Option InactiveReason
  pub active : Bool

abbrev pub status_of : ℕ → Campaign → Delivery → DeliveryStatus
status_of now c d = record {
  reason =
      if not (is_published c.state)
      then some campaign_paused
      else if not (d.version == c.version)
      then some campaign_updated
      else if leb c.config.ends_at now
      then some campaign_expired
      else if leb d.expires_at now
      then some display_timeout
      else if not (is_granted d.state)
      then some delivery_inactive
      else none;
  active =
      is_granted d.state
      && (is_published c.state
          && (d.version == c.version && (ltb now d.expires_at && ltb now c.config.ends_at)));
}

abbrev pub status_joined : ℕ → Delivery → Option Campaign → Result InAppError DeliveryStatus
status_joined now d none = err not_found
status_joined now d (some c) = ok (status_of now c d)

abbrev pub status_at : Installation → ℕ → Option Delivery → Store → Result InAppError DeliveryStatus
status_at i now none s = err not_found
status_at i now (some d) s = status_joined now d (campaign_of i d s)

-- `status`, whose query joins the delivery with its campaign.
unfoldable pub status : Installation → ℕ → ℕ → Store → Result InAppError DeliveryStatus
status i id now s = status_at i now (find_delivery i id s) s

abbrev pub revoked_device : Device → Device
revoked_device d = record d { revoked = true }

-- `revoke`.
unfoldable pub revoke : Installation → Store → Store
revoke i s = record s {
  installations = update_rows (is_device i.tenant i.app i.id) revoked_device s.installations;
  deliveries = update_rows (is_open_of i) (set_state DeliveryState.cancelled) s.deliveries;
}
