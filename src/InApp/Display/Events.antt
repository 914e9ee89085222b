-- ===== src/InApp/Display/Events.antt =====
-- apps/api/src/in-app/delivery.service.ts: `event`, the report of what became of a delivery.
use Prim.Native.String.{String}
use text.Mathlib.Text.{◌==◌ as str_eq}
use nudgeon_platform.Common.{
  ℕ, ◌+◌, Bool, true, false, not, ◌&&◌, ◌||◌, List, [], ◌∷◌, Option, none, some, ◌==◌, ltb, leb,
  if◌then◌else◌, any, is_none, first_row, update_rows, count_rows, Result, ok, err,
}
use nudgeon_platform.InApp.{
  Publication, DeliveryState, presented, completed, failed, expired, Delivery, EventKind,
  bridge_ready, content_ready, impression, action, dismiss, log, hide_today, DeliveryEvent,
  Suppression, Revision, Store, InAppError, not_found, event_id_reused, invalid_cancellation_reason,
  event_time_invalid, delivery_closed, not_authorized, not_presented, event_limit, unknown_action,
  type_error,
}
use nudgeon_platform.InApp.Decision.{is_open, is_publication, set_state, zone_of}
use nudgeon_platform.InApp.Access.{Installation, settle}
use nudgeon_platform.InApp.Display.{find_delivery, update_delivery}

-- The report of an event.
pub record EventReport : Type 0 where
  pub event_id : ℕ
  pub kind : EventKind
  pub detail : String
  pub occurred_at : Option ℕ

abbrev pub same_kind : EventKind → EventKind → Bool
same_kind bridge_ready bridge_ready = true
same_kind content_ready content_ready = true
same_kind EventKind.presented EventKind.presented = true
same_kind impression impression = true
same_kind action action = true
same_kind dismiss dismiss = true
same_kind EventKind.failed EventKind.failed = true
same_kind log log = true
same_kind hide_today hide_today = true
same_kind EventKind.cancelled EventKind.cancelled = true
same_kind _ _ = false

-- `cancellationReasons`.
abbrev pub cancellation_reasons : List String
cancellation_reasons =
    "background" ∷ "context_changed" ∷ "screen_changed" ∷ "session_ended" ∷ "disabled"
    ∷ "host_destroyed" ∷ "host_blocked" ∷ "campaign_paused" ∷ "campaign_updated"
    ∷ "campaign_expired" ∷ "delivery_inactive" ∷ "display_timeout" ∷ "launch_timeout" ∷ []

abbrev pub listed_text : List String → String → Bool
listed_text texts t = any (λ x. str_eq x t) texts

abbrev pub is_event_of : Installation → ℕ → DeliveryEvent → Bool
is_event_of i id e = e.tenant == i.tenant && (e.app == i.app && e.delivery_id == id)

abbrev pub is_event : Installation → ℕ → ℕ → DeliveryEvent → Bool
is_event i id event_id e = is_event_of i id e && e.event_id == event_id

-- `b.occurred_at && old.occurred_at && …` tells no two times apart.
abbrev pub same_time : Option ℕ → Option ℕ → Bool
same_time (some a) (some b) = a == b
same_time _ _ = true

abbrev pub is_same_report : EventReport → DeliveryEvent → Bool
is_same_report b e =
    same_kind e.kind b.kind && (str_eq e.detail b.detail && same_time b.occurred_at e.occurred_at)

-- `occurred`.
abbrev pub occurred : ℕ → Option ℕ → ℕ
occurred now none = now
occurred now (some t) = t

-- The delivery takes no report without a time.
abbrev pub is_closed : ℕ → Delivery → Bool
is_closed now d = not (is_open d.state) || leb d.expires_at now

-- A time that is given lies outside what the delivery can have seen.
abbrev pub is_untimely : ℕ → Delivery → Option ℕ → Bool
is_untimely now d none = false
is_untimely now d (some t) =
    ltb (t + 604800000) now
    || (ltb (now + 120000) t || (ltb (t + 120000) d.created_at || ltb (d.expires_at + 120000) t))

abbrev pub is_shown_kind : EventKind → Bool
is_shown_kind impression = true
is_shown_kind action = true
is_shown_kind hide_today = true
is_shown_kind dismiss = true
is_shown_kind _ = false

-- `kind='presented'`.
abbrev pub is_presented_event : Installation → ℕ → DeliveryEvent → Bool
is_presented_event i id e = is_event_of i id e && same_kind e.kind EventKind.presented

abbrev pub max_events : ℕ
max_events = 200

abbrev pub is_revision : ℕ → ℕ → ℕ → Revision → Bool
is_revision tenant app id r = r.tenant == tenant && (r.app == app && r.id == id)

abbrev pub known_action : String → Option Revision → Result InAppError (Unit {0})
known_action detail none = err type_error
known_action detail (some r) = if listed_text r.actions detail then ok tt else err unknown_action

-- What is asked of an action.
unfoldable pub check_action :
    Installation → EventReport → Delivery → Store → Result InAppError (Unit {0})
check_action i b d s =
    if same_kind b.kind action
    then known_action b.detail (first_row (is_revision i.tenant i.app d.revision_id) s.revisions)
    else ok tt

-- The checks of `event`, in their order.
unfoldable pub check_event :
    Installation → ℕ → EventReport → ℕ → Delivery → Store → Result InAppError (Unit {0})
check_event i id b now d s =
    if same_kind b.kind EventKind.cancelled && not (listed_text cancellation_reasons b.detail)
    then err invalid_cancellation_reason
    else if is_untimely now d b.occurred_at
    then err event_time_invalid
    else if is_closed now d && is_none b.occurred_at
    then err delivery_closed
    else if same_kind b.kind EventKind.presented && is_none d.authorized_at
    then err not_authorized
    else if is_shown_kind b.kind
        && (is_none d.authorized_at || not (any (is_presented_event i id) s.events))
    then err not_presented
    else if leb max_events (count_rows (is_event_of i id) s.events)
    then err event_limit
    else check_action i b d s

-- The kinds that in_app_delivery_events_once keeps to one.
abbrev pub is_once : EventKind → Bool
is_once EventKind.presented = true
is_once impression = true
is_once hide_today = true
is_once _ = false

-- A row with which the new one conflicts.
abbrev pub is_conflicting : Installation → ℕ → EventReport → DeliveryEvent → Bool
is_conflicting i id b e =
    is_event_of i id e && (e.event_id == b.event_id || (is_once b.kind && same_kind e.kind b.kind))

-- `INSERT … ON CONFLICT DO NOTHING`.
unfoldable pub insert_event : Installation → ℕ → EventReport → Store → Store
insert_event i id b s = if any (is_conflicting i id b) s.events then s else record s {
  events =
      record {
        tenant = i.tenant;
        app = i.app;
        delivery_id = id;
        event_id = b.event_id;
        kind = b.kind;
        detail = b.detail;
        occurred_at = b.occurred_at;
      }
      ∷ s.events;
}

abbrev pub is_suppression : Installation → ℕ → Suppression → Bool
is_suppression i campaign_id x =
    x.tenant == i.tenant
    && (x.app == i.app && (x.installation_id == i.id && x.campaign_id == campaign_id))

-- `GREATEST(a, b)`.
abbrev pub greatest : ℕ → ℕ → ℕ
greatest a b = if leb a b then b else a

abbrev pub extended : ℕ → Suppression → Suppression
extended until_at x = record x { until_at = greatest x.until_at until_at }

-- `INSERT … ON CONFLICT … DO UPDATE`.
unfoldable pub suppress : Installation → ℕ → ℕ → Store → Store
suppress i campaign_id until_at s =
    if any (is_suppression i campaign_id) s.suppressions
    then record s {
      suppressions = update_rows (is_suppression i campaign_id) (extended until_at) s.suppressions;
    }
    else record s {
      suppressions =
          record {
            tenant = i.tenant;
            app = i.app;
            installation_id = i.id;
            campaign_id = campaign_id;
            until_at = until_at;
          }
          ∷ s.suppressions;
    }

abbrev pub hide_until :
    (String → ℕ → ℕ) → Installation → ℕ → ℕ → Delivery → Option Publication → Store → Store
hide_until next_day i now at d none s = s
hide_until next_day i now at d (some p) s =
    let until_at = next_day (zone_of p.config.time_zone) at in
    if ltb now until_at then suppress i d.campaign_id until_at s else s

-- What `hide_today` adds: the campaign is not shown until the next day of the publication's zone begins.
unfoldable pub hide : (String → ℕ → ℕ) → Installation → EventReport → ℕ → Delivery → Store → Store
hide next_day i b now d s =
    if same_kind b.kind hide_today
    then hide_until next_day i now (occurred now b.occurred_at) d
        (first_row (is_publication i.tenant i.app d.campaign_id d.version) s.publications) s
    else s

-- The state after a report, of a delivery that takes it.
abbrev pub reported : EventKind → DeliveryState → DeliveryState
reported EventKind.presented state = presented
reported dismiss state = completed
reported EventKind.cancelled state = DeliveryState.cancelled
reported EventKind.failed state = failed
reported _ state = state

unfoldable pub next_state : ℕ → EventReport → Delivery → DeliveryState
next_state now b d =
    if is_closed now d
    then (if leb d.expires_at now && is_open d.state then expired else d.state)
    else reported b.kind d.state

-- What `event` writes.
unfoldable pub write_event :
    (String → ℕ → ℕ) → Installation → ℕ → EventReport → ℕ → Delivery → Store → Store
write_event next_day i id b now d s =
    update_delivery i id (set_state (next_state now b d))
      (hide next_day i b now d (insert_event i id b s))

abbrev pub checked_event :
    (String → ℕ → ℕ)
    → Installation
    → ℕ
    → EventReport
    → ℕ
    → Delivery
    → Option DeliveryEvent
    → Store
    → Result InAppError (Store × Unit {0})
checked_event next_day i id b now d (some old) s =
    if is_same_report b old then ok (s, tt) else err event_id_reused
checked_event next_day i id b now d none s = elim (check_event i id b now d s) [
  | ok _ ↦ ok (write_event next_day i id b now d s, tt)
  | err e ↦ err e
]

abbrev pub event_at :
    (String → ℕ → ℕ)
    → Installation
    → ℕ
    → EventReport
    → ℕ
    → Option Delivery
    → Store
    → Result InAppError (Store × Unit {0})
event_at next_day i id b now none s = err not_found
event_at next_day i id b now (some d) s =
    checked_event next_day i id b now d (first_row (is_event i id b.event_id) s.events) s

-- `event`, at the time of `Date.now()`.
unfoldable pub event :
    (String → ℕ → ℕ)
    → Installation
    → ℕ
    → EventReport
    → ℕ
    → Store
    → Store × Result InAppError (Unit {0})
event next_day i id b now s = settle s (event_at next_day i id b now (find_delivery i id s) s)
