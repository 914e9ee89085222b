-- ===== src/InApp/Decision.antt =====
-- apps/api/src/in-app/delivery.service.ts: `decide`, and the order of the campaigns. A
-- transaction, behind its row lock, is one step, and one that is rolled back leaves the store. The calls of
-- `Date.now()` in one request give one time.
use Prim.Native.String.{String}
use text.Mathlib.Text.{◌==◌ as str_eq}
use nudgeon_platform.Common.{
  ℕ, ◌+◌, ◌*◌, Bool, true, false, not, ◌&&◌, ◌||◌, List, [], ◌∷◌, Option, none, some, ◌==◌, ltb,
  leb, if◌then◌else◌, any, take, is_none, first_row, update_rows, count_rows, Result, ok, err,
}
use nudgeon_platform.InApp.{
  same_platform, Trigger, same_type, trigger_name, same_name, CampaignConfig, CampaignState, draft,
  published, paused, Campaign, Publication, Device, DeliveryState, reserved, authorized, presented,
  completed, failed, cancelled, expired, Delivery, Suppression, Store, InAppError, unauthorized,
  request_key_reused, unique_violation, Clock,
}
use nudgeon_platform.InApp.Access.{Installation, settle, is_device}

-- `state IN ('reserved','authorized','presented')`.
abbrev pub is_open : DeliveryState → Bool
is_open reserved = true
is_open authorized = true
is_open presented = true
is_open completed = false
is_open failed = false
is_open cancelled = false
is_open expired = false

abbrev pub is_delivery_of : Installation → Delivery → Bool
is_delivery_of i d = d.tenant == i.tenant && (d.app == i.app && d.installation_id == i.id)

abbrev pub is_open_of : Installation → Delivery → Bool
is_open_of i d = is_delivery_of i d && is_open d.state

abbrev pub set_state : DeliveryState → Delivery → Delivery
set_state state d = record d { state = state }

abbrev pub is_lapsed : Installation → ℕ → Delivery → Bool
is_lapsed i now d = is_open_of i d && leb d.expires_at now

abbrev pub seen : ℕ → Device → Device
seen now d = record d { last_seen_at = now }

-- The two updates with which `decide` begins.
unfoldable pub refresh : Installation → ℕ → Store → Store
refresh i now s = record s {
  installations = update_rows (is_device i.tenant i.app i.id) (seen now) s.installations;
  deliveries = update_rows (is_lapsed i now) (set_state expired) s.deliveries;
}

abbrev pub is_active_device : Installation → Device → Bool
is_active_device i d = is_device i.tenant i.app i.id d && not d.revoked

-- `decisionSchema`.
pub record Decision : Type 0 where
  pub request_key : ℕ
  pub session_id : ℕ
  pub trigger : Trigger

abbrev pub is_request : Installation → ℕ → Delivery → Bool
is_request i key d = is_delivery_of i d && d.request_key == key

-- The request is the one that made the delivery.
abbrev pub is_same_request : Decision → Delivery → Bool
is_same_request b d =
    d.session_id == b.session_id
    && (same_type d.trigger b.trigger
        && same_name (trigger_name d.trigger) (trigger_name b.trigger))

abbrev pub is_publication : ℕ → ℕ → ℕ → ℕ → Publication → Bool
is_publication tenant app campaign_id version p =
    p.tenant == tenant && (p.app == app && (p.campaign_id == campaign_id && p.version == version))

-- `time_zone ?? "UTC"`.
abbrev pub zone_of : Option String → String
zone_of none = "UTC"
zone_of (some zone) = zone

abbrev pub published_zone : Option Publication → String
published_zone none = "UTC"
published_zone (some p) = zone_of p.config.time_zone

-- The zone of the publication that a delivery stands for.
abbrev pub delivery_zone : Installation → Delivery → Store → String
delivery_zone i d s =
    published_zone
      (first_row (is_publication i.tenant i.app d.campaign_id d.version) s.publications)

abbrev pub replayed : Installation → Bool → Delivery → Store → Option Delivery
replayed i supports_zone d s =
    if (elim d.state [ reserved ↦ true | _ ↦ false ])
      && (supports_zone || str_eq (delivery_zone i d s) "UTC")
    then some d
    else none

abbrev pub is_published : CampaignState → Bool
is_published draft = false
is_published published = true
is_published paused = false

abbrev pub is_live_campaign : Installation → Campaign → Bool
is_live_campaign i c = c.tenant == i.tenant && (c.app == i.app && is_published c.state)

-- `priority DESC, created_at, id`.
abbrev pub is_before : Campaign → Campaign → Bool
is_before a b =
    ltb b.config.priority a.config.priority
    || (a.config.priority == b.config.priority
        && (ltb a.created_at b.created_at || (a.created_at == b.created_at && leb a.id b.id)))

abbrev pub place : Campaign → List Campaign → List Campaign
place c [] = c ∷ []
place c (x ∷ xs) = let rest = place c xs in if is_before c x then c ∷ (x ∷ xs) else x ∷ rest

-- Those that the query selects, in its order.
unfoldable pub ranked : Installation → List Campaign → List Campaign
ranked i [] = []
ranked i (c ∷ cs) = let rest = ranked i cs in if is_live_campaign i c then place c rest else rest

unfoldable pub candidates : Installation → Store → List Campaign
candidates i s = take 100 (ranked i s.campaigns)

-- Neither the platform, nor the zone, nor the time, nor the trigger rules the campaign out.
unfoldable pub is_eligible : Installation → Bool → Decision → ℕ → CampaignConfig → Bool
is_eligible i supports_zone b now cfg =
    any (same_platform i.platform) cfg.platforms
    && ((supports_zone || str_eq (zone_of cfg.time_zone) "UTC")
        && (leb cfg.starts_at now
            && (ltb now cfg.ends_at
                && (same_type cfg.trigger b.trigger
                    && (is_none (trigger_name cfg.trigger)
                        || same_name (trigger_name cfg.trigger) (trigger_name b.trigger))))))

abbrev pub is_suppressing : Installation → ℕ → ℕ → Suppression → Bool
is_suppressing i campaign_id now x =
    x.tenant == i.tenant
    && (x.app == i.app
        && (x.installation_id == i.id && (x.campaign_id == campaign_id && ltb now x.until_at)))

-- `authorized_at` is there, and the test holds of it.
abbrev pub authorized_when : (ℕ → Bool) → Delivery → Bool
authorized_when p d = elim d.authorized_at [ none ↦ false | some t ↦ p t ]

-- The rows of the campaign's frequency.
abbrev pub is_shown : Installation → ℕ → Delivery → Bool
is_shown i campaign_id d =
    is_delivery_of i d && (d.campaign_id == campaign_id && authorized_when (λ t. true) d)

-- `f.total`, `f.today`, `f.session`, and that a time of `authorized_at` is within the cooldown.
abbrev pub is_shown_since : Installation → ℕ → ℕ → Delivery → Bool
is_shown_since i campaign_id since d =
    is_shown i campaign_id d && authorized_when (λ t. leb since t) d

abbrev pub is_shown_in : Installation → ℕ → ℕ → Delivery → Bool
is_shown_in i campaign_id session_id d = is_shown i campaign_id d && d.session_id == session_id

abbrev pub is_cooling : Installation → ℕ → ℕ → ℕ → Delivery → Bool
is_cooling i campaign_id cooldown_ms now d =
    is_shown i campaign_id d && authorized_when (λ t. ltb now (t + cooldown_ms)) d

-- The limits are not reached. `day_start` gives the start of a time's day in a zone.
unfoldable pub is_within_limits :
    (String → ℕ → ℕ) → Installation → Decision → Clock → Campaign → Store → Bool
is_within_limits day_start i b clock c s =
    ltb (count_rows (is_shown i c.id) s.deliveries) c.config.max_total
    && (ltb
          (count_rows (is_shown_since i c.id (day_start (zone_of c.config.time_zone) clock.sql))
            s.deliveries)
          c.config.max_per_day
        && (not (any (is_shown_in i c.id b.session_id) s.deliveries)
            && not
                (any (is_cooling i c.id (c.config.cooldown_seconds * 1000) clock.js) s.deliveries)))

-- The campaign may be shown, if none was shown a moment ago.
unfoldable pub is_showable :
    (String → ℕ → ℕ) → Installation → Bool → Decision → Clock → Campaign → Store → Bool
is_showable day_start i supports_zone b clock c s =
    is_eligible i supports_zone b clock.js c.config
    && (not (any (is_suppressing i c.id clock.sql) s.suppressions)
        && is_within_limits day_start i b clock c s)

abbrev pub is_just_shown : Installation → ℕ → Delivery → Bool
is_just_shown i now d = is_delivery_of i d && authorized_when (λ t. ltb now (t + 30000)) d

abbrev pub new_delivery : Installation → Decision → ℕ → ℕ → Campaign → Delivery
new_delivery i b id now c = record {
  id = id;
  tenant = i.tenant;
  app = i.app;
  installation_id = i.id;
  campaign_id = c.id;
  version = c.version;
  revision_id = c.revision_id;
  request_key = b.request_key;
  session_id = b.session_id;
  trigger = b.trigger;
  state = reserved;
  expires_at = now + 30000;
  authorized_at = none;
  created_at = now;
}

-- The campaign that the loop takes: the first that may be shown, if nothing was shown a moment ago.
unfoldable pub chosen :
    (String → ℕ → ℕ)
    → Installation
    → Bool
    → Decision
    → Clock
    → Store
    → List Campaign
    → Option Campaign
chosen day_start i supports_zone b clock s [] = none
chosen day_start i supports_zone b clock s (c ∷ cs) =
    let rest = chosen day_start i supports_zone b clock s cs in
    if is_showable day_start i supports_zone b clock c s
    then (if any (is_just_shown i clock.sql) s.deliveries then none else some c)
    else rest

-- The `INSERT`, which the primary key may refuse.
abbrev pub reserve :
    Installation
    → Decision
    → ℕ
    → ℕ
    → Option Campaign
    → Store
    → Result InAppError (Store × Option Delivery)
reserve i b id now none s = ok (s, none)
reserve i b id now (some c) s =
    if any (λ d. d.id == id) s.deliveries
    then err unique_violation
    else let d = new_delivery i b id now c in
      ok (record s { deliveries = d ∷ s.deliveries }, some d)

-- What follows the search for a delivery of the same request.
abbrev pub decide_next :
    (String → ℕ → ℕ)
    → Installation
    → Bool
    → Decision
    → ℕ
    → Clock
    → Option Delivery
    → Store
    → Result InAppError (Store × Option Delivery)
decide_next day_start i supports_zone b id clock (some old) s =
    if is_same_request b old then ok (s, replayed i supports_zone old s) else err request_key_reused
decide_next day_start i supports_zone b id clock none s =
    if any (is_open_of i) s.deliveries
    then ok (s, none)
    else reserve i b id clock.sql (chosen day_start i supports_zone b clock s (candidates i s)) s

-- `decide`, with the id that `randomUUID` gives: its answer names the delivery of the artifact.
unfoldable pub decide :
    (String → ℕ → ℕ)
    → Installation
    → Bool
    → Decision
    → ℕ
    → Clock
    → Store
    → Store × Result InAppError (Option Delivery)
decide day_start i supports_zone b id clock s = settle s (
    if any (is_active_device i) s.installations
    then (let s' = refresh i clock.sql s in
        decide_next day_start i supports_zone b id clock
          (first_row (is_request i b.request_key) s'.deliveries) s')
    else err unauthorized)
