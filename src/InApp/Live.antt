-- ===== src/InApp/Live.antt =====
-- apps/api/src/in-app/delivery.controller.ts: a request of an installation, which is first authenticated by its
-- token. Of the answers only the store behind a request is kept here.
pub mod Steps
pub mod Reserve
pub mod Safety
pub mod Requests
pub mod Unwritten
pub mod Limits
pub mod Paused
pub mod Others
use Prim.Native.String.{String}
use nudgeon_platform.Common.{ℕ, Bool, List, [], ◌∷◌, Option, Result, ok, err}
use nudgeon_platform.InApp.{Platform, Store, InAppError, Clock}
use nudgeon_platform.InApp.Decision.{Decision, decide}
use nudgeon_platform.InApp.Access.{Installation, register, auth}
use nudgeon_platform.InApp.Display.{authorize, revoke}
use nudgeon_platform.InApp.Display.Events.{EventReport, event}

-- What is outside the service: the hash, the reader of ids, the switches of the environment, and the days of
-- the database's zones.
pub record Host : Type 0 where
  pub hash : String → String
  pub uuid : String → Option ℕ
  pub live : Bool
  pub day_start : String → ℕ → ℕ
  pub next_day : String → ℕ → ℕ

-- The endpoints that need an installation, with the ids that the service draws. One that only reads is
-- `status_request`.
pub data Action : Type 0 where
  deciding : (supports_zone : Bool) → Decision → (id : ℕ) → Action
  authorizing : (id : ℕ) → Action
  status_request : (id : ℕ) → Action
  reporting : (id : ℕ) → EventReport → Action
  revoking : Action

unfoldable pub act : Host → Installation → Action → Clock → Store → Store
act host i (deciding supports_zone b id) clock s =
    (decide host.day_start i supports_zone b id clock s).0
act host i (authorizing id) clock s = (authorize i id clock s).0
act host i (status_request id) clock s = s
act host i (reporting id b) clock s = (event host.next_day i id b clock.js s).0
act host i revoking clock s = revoke i s

pub data Request : Type 0 where
  registering : (platform : Platform) → (id : ℕ) → (secret : String) → Request
  authed : (token : String) → Action → Request

abbrev pub act_as : Host → Action → Clock → Store → Result InAppError Installation → Store
act_as host a clock s (ok i) = act host i a clock s
act_as host a clock s (err e) = s

-- A request with the key of a tenant's app.
unfoldable pub handle : Host → ℕ → ℕ → Request → Clock → Store → Store
handle host tenant app (registering platform id secret) clock s =
    (register host.hash host.live tenant app platform id secret clock s).0
handle host tenant app (authed token a) clock s =
    act_as host a clock s (auth host.hash host.uuid host.live tenant app token s)

-- The requests of all apps, one after the other.
pub record Call : Type 0 where
  pub tenant : ℕ
  pub app : ℕ
  pub request : Request
  pub clock : Clock

unfoldable pub handle_all : Host → List Call → Store → Store
handle_all host [] s = s
handle_all host (c ∷ cs) s = handle_all host cs (handle host c.tenant c.app c.request c.clock s)
