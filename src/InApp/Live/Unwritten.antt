-- ===== src/InApp/Live/Unwritten.antt =====
-- No request of an installation writes a campaign (apps/api/src/in-app/delivery.service.ts).
use Prim.Native.String.{String}
use nudgeon_platform.Common.{
  ℕ, ◌≡◌, refl, inl, inr, Bool, Option, none, some, arith, Bool-cases, any, first_row, Result, ok,
  err,
}
use nudgeon_platform.InApp.{Platform, Campaign, Delivery, Store, InAppError, Clock}
use nudgeon_platform.InApp.Decision.{
  Decision, is_active_device, is_request, refresh, reserve, decide_next, decide,
}
use nudgeon_platform.InApp.Access.{Installation, settle, register, auth}
use nudgeon_platform.InApp.Display.{find_delivery, authorize, update_delivery, revoke}
use nudgeon_platform.InApp.Display.Events.{
  EventReport, event_at, event, insert_event, suppress, hide, write_event,
}
use nudgeon_platform.InApp.Live.{
  Host, Action, deciding, authorizing, status_request, reporting, revoking, act, Request,
  registering, authed, act_as, handle,
}

-- What a transaction leaves, where it writes no campaign.
abbrev Unwritten {ℓ} : {A : Type ℓ} → Store → Result InAppError (Store × A) → Type 0
Unwritten s r = (settle s r).0.campaigns ≡ s.campaigns

register-campaigns :
    (hash : String → String) (live : Bool) (tenant app : ℕ) (platform : Platform) (id : ℕ)
    (secret : String) (clock : Clock) (s : Store)
    → (register hash live tenant app platform id secret clock s).0.campaigns ≡ s.campaigns
unfolding register
register-campaigns hash live tenant app platform id secret clock s = ground arith

reserve-campaigns :
    (i : Installation) (b : Decision) (id now : ℕ) (o : Option Campaign) (s r : Store)
    → r.campaigns ≡ s.campaigns
    → Unwritten s (reserve i b id now o r)
reserve-campaigns i b id now o s r e = ground arith

decide_next-campaigns :
    (day_start : String → ℕ → ℕ) (i : Installation) (supports_zone : Bool) (b : Decision) (id : ℕ)
    (clock : Clock) (o : Option Delivery) (s r : Store)
    → r.campaigns ≡ s.campaigns
    → Unwritten s (decide_next day_start i supports_zone b id clock o r)
decide_next-campaigns day_start i supports_zone b id clock o s r e = ground arith

decide-campaigns :
    (day_start : String → ℕ → ℕ) (i : Installation) (supports_zone : Bool) (b : Decision) (id : ℕ)
    (clock : Clock) (s : Store)
    → (decide day_start i supports_zone b id clock s).0.campaigns ≡ s.campaigns
unfolding decide refresh
decide-campaigns day_start i supports_zone b id clock s =
    elim (Bool-cases (any (is_active_device i) s.installations)) [
      | inr gone ↦ rw gone
      | inl active ↦ rw active (
          decide_next-campaigns day_start i supports_zone b id clock
            (first_row (is_request i b.request_key) (refresh i clock.sql s).deliveries) s
            (refresh i clock.sql s) refl)
    ]

authorize-campaigns :
    (i : Installation) (id : ℕ) (clock : Clock) (s : Store)
    → (authorize i id clock s).0.campaigns ≡ s.campaigns
unfolding authorize update_delivery
authorize-campaigns i id clock s = ground arith

write_event-campaigns :
    (next_day : String → ℕ → ℕ) (i : Installation) (id : ℕ) (b : EventReport) (now : ℕ)
    (d : Delivery) (s : Store)
    → (write_event next_day i id b now d s).campaigns ≡ s.campaigns
unfolding write_event update_delivery hide insert_event suppress
write_event-campaigns next_day i id b now d s = ground arith

event-campaigns :
    (next_day : String → ℕ → ℕ) (i : Installation) (id : ℕ) (b : EventReport) (now : ℕ) (s : Store)
    → (event next_day i id b now s).0.campaigns ≡ s.campaigns
unfolding event
event-campaigns next_day i id b now s = found (find_delivery i id s)
  where
    found : (o : Option Delivery) → Unwritten s (event_at next_day i id b now o s)
    found none = refl
    found (some d) = ground (arith, write_event-campaigns next_day i id b now d s)

act-campaigns :
    (host : Host) (i : Installation) (a : Action) (clock : Clock) (s : Store)
    → (act host i a clock s).campaigns ≡ s.campaigns
unfolding act revoke
act-campaigns host i (deciding supports_zone b id) clock s =
    decide-campaigns host.day_start i supports_zone b id clock s
act-campaigns host i (authorizing id) clock s = authorize-campaigns i id clock s
act-campaigns host i (status_request id) clock s = refl
act-campaigns host i (reporting id b) clock s = event-campaigns host.next_day i id b clock.js s
act-campaigns host i revoking clock s = refl

pub handle-campaigns :
    (host : Host) (tenant app : ℕ) (q : Request) (clock : Clock) (s : Store)
    → (handle host tenant app q clock s).campaigns ≡ s.campaigns
unfolding handle
handle-campaigns host tenant app (registering platform id secret) clock s =
    register-campaigns host.hash host.live tenant app platform id secret clock s
handle-campaigns host tenant app (authed token a) clock s =
    answered (auth host.hash host.uuid host.live tenant app token s)
  where
    answered :
        (r : Result InAppError Installation) → (act_as host a clock s r).campaigns ≡ s.campaigns
    answered (ok i) = act-campaigns host i a clock s
    answered (err e) = refl
