-- ===== src/InApp/Live/Others.antt =====
-- Whose deliveries a request to apps/api/src/in-app/delivery.controller.ts touches.
use Prim.Native.String.{String}
use nudgeon_platform.Common.{
  ℕ, ◌≡◌, refl, ap, ◌∙◌, inl, inr, Bool, true, List, [], ◌∷◌, Option, none, some, arith, Bool-cases,
  &&-true, ◌==◌, if◌then◌else◌, any, first_row, update_rows, Result,
}
use nudgeon_platform.InApp.{Campaign, Delivery, DeliveryState, Store, InAppError, Clock}
use nudgeon_platform.InApp.Decision.{
  Decision, is_delivery_of, is_open_of, is_lapsed, is_active_device, is_request, is_same_request,
  set_state, refresh, new_delivery, candidates, chosen, reserve, decide_next, decide,
}
use nudgeon_platform.InApp.Access.{Installation, settle}
use nudgeon_platform.InApp.Display.{
  is_delivery, find_delivery, campaign_of, grant, update_delivery, authorize_found, authorize_at,
  authorize, revoke,
}
use nudgeon_platform.InApp.Display.Events.{EventReport, write_event, next_state, event_at, event}
use nudgeon_platform.InApp.Live.{
  Host, Action, deciding, authorizing, status_request, reporting, revoking, act,
}
use nudgeon_platform.InApp.Live.Steps.{write_event-deliveries}

-- The deliveries of all other installations.
abbrev pub others : Installation → List Delivery → List Delivery
others i [] = []
others i (d ∷ ds) = let rest = others i ds in if is_delivery_of i d then rest else d ∷ rest

others-update_rows :
    (i : Installation) (p : Delivery → Bool) (f : Delivery → Delivery) (ds : List Delivery)
    → ((d : Delivery) → p d ≡ true → is_delivery_of i d ≡ true)
    → ((d : Delivery) → is_delivery_of i (f d) ≡ is_delivery_of i d)
    → others i (update_rows p f ds) ≡ others i ds
others-update_rows i p f [] mine same = refl
others-update_rows i p f (d ∷ ds) mine same = elim (Bool-cases (p d)) [
  | inl hit ↦ rw (hit, same d, mine d hit) (others-update_rows i p f ds mine same)
  | inr miss ↦ rw (miss, others-update_rows i p f ds mine same)
]

abbrev Spares {ℓ} : {A : Type ℓ} → Installation → Store → Result InAppError (Store × A) → Type 0
Spares i s r = others i (settle s r).0.deliveries ≡ others i s.deliveries

update_delivery-others :
    (i : Installation) (id : ℕ) (f : Delivery → Delivery) (s : Store)
    → ((d : Delivery) → is_delivery_of i (f d) ≡ is_delivery_of i d)
    → others i (update_delivery i id f s).deliveries ≡ others i s.deliveries
unfolding update_delivery
update_delivery-others i id f s same =
    others-update_rows i (is_delivery i id) f s.deliveries (λ d e. (&&-true _ _ e).0) same

reserve-Spares :
    (i : Installation) (b : Decision) (id now : ℕ) (o : Option Campaign) (s r : Store)
    → others i r.deliveries ≡ others i s.deliveries
    → Spares i s (reserve i b id now o r)
reserve-Spares i b id now none s r e = e
reserve-Spares i b id now (some c) s r e =
    elim (Bool-cases (any (λ (d : Delivery). d.id == id) r.deliveries)) [
      | inl taken ↦ rw taken refl
      | inr new ↦
          let mine : is_delivery_of i (new_delivery i b id now c) ≡ true = ground arith in
          rw (new, mine) e
    ]

decide_next-Spares :
    (day_start : String → ℕ → ℕ) (i : Installation) (supports_zone : Bool) (b : Decision) (id : ℕ)
    (clock : Clock) (o : Option Delivery) (s r : Store)
    → others i r.deliveries ≡ others i s.deliveries
    → Spares i s (decide_next day_start i supports_zone b id clock o r)
decide_next-Spares day_start i supports_zone b id clock (some old) s r e =
    elim (Bool-cases (is_same_request b old)) [ inl same ↦ rw same e | inr other ↦ rw other refl ]
decide_next-Spares day_start i supports_zone b id clock none s r e =
    elim (Bool-cases (any (is_open_of i) r.deliveries)) [
      | inl busy ↦ rw busy e
      | inr free ↦ rw free (
          reserve-Spares i b id clock.sql
            (chosen day_start i supports_zone b clock r (candidates i r)) s r e)
    ]

decide-others :
    (day_start : String → ℕ → ℕ) (i : Installation) (supports_zone : Bool) (b : Decision) (id : ℕ)
    (clock : Clock) (s : Store)
    → others i (decide day_start i supports_zone b id clock s).0.deliveries ≡ others i s.deliveries
unfolding decide refresh
decide-others day_start i supports_zone b id clock s =
    elim (Bool-cases (any (is_active_device i) s.installations)) [
      | inr gone ↦ rw gone refl
      | inl active ↦ rw active (
          decide_next-Spares day_start i supports_zone b id clock
            (first_row (is_request i b.request_key) (refresh i clock.sql s).deliveries) s
            (refresh i clock.sql s)
            (others-update_rows i (is_lapsed i clock.sql) (set_state DeliveryState.expired)
              s.deliveries (λ d e. (&&-true _ _ (&&-true _ _ e).0).0) (λ d. refl)))
    ]

authorize_found-Spares :
    (i : Installation) (id : ℕ) (clock : Clock) (o : Option Campaign) (d : Delivery) (s : Store)
    → Spares i s (authorize_found i id clock o d s)
authorize_found-Spares i id clock none d s = refl
authorize_found-Spares i id clock (some c) d s =
    let written : others i (update_delivery i id (grant clock.sql c.config.ends_at) s).deliveries
        ≡ others i s.deliveries =
      update_delivery-others i id (grant clock.sql c.config.ends_at) s (λ x. refl) in
    ground arith

authorize-others :
    (i : Installation) (id : ℕ) (clock : Clock) (s : Store)
    → others i (authorize i id clock s).0.deliveries ≡ others i s.deliveries
unfolding authorize
authorize-others i id clock s = elim (Bool-cases (any (is_active_device i) s.installations)) [
  | inr gone ↦ rw gone refl
  | inl active ↦ rw active (found (find_delivery i id s))
]
  where
    found : (o : Option Delivery) → Spares i s (authorize_at i id clock o s)
    found none = refl
    found (some d) = authorize_found-Spares i id clock (campaign_of i d s) d s

event-others :
    (next_day : String → ℕ → ℕ) (i : Installation) (id : ℕ) (b : EventReport) (now : ℕ) (s : Store)
    → others i (event next_day i id b now s).0.deliveries ≡ others i s.deliveries
unfolding event
event-others next_day i id b now s = found (find_delivery i id s)
  where
    found : (o : Option Delivery) → Spares i s (event_at next_day i id b now o s)
    found none = refl
    found (some d) =
        let written : others i (write_event next_day i id b now d s).deliveries
            ≡ others i s.deliveries =
          ap (others i) (write_event-deliveries next_day i id b now d s)
          ∙ update_delivery-others i id (set_state (next_state now b d)) s (λ x. refl) in
        ground arith

-- A request of an installation leaves the deliveries of all other installations, rows and all, as they were.
pub act-others :
    (host : Host) (i : Installation) (a : Action) (clock : Clock) (s : Store)
    → others i (act host i a clock s).deliveries ≡ others i s.deliveries
unfolding act revoke
act-others host i (deciding supports_zone b id) clock s =
    decide-others host.day_start i supports_zone b id clock s
act-others host i (authorizing id) clock s = authorize-others i id clock s
act-others host i (status_request id) clock s = refl
act-others host i (reporting id b) clock s = event-others host.next_day i id b clock.js s
act-others host i revoking clock s =
    others-update_rows i (is_open_of i) (set_state DeliveryState.cancelled) s.deliveries
      (λ d e. (&&-true _ _ e).0) (λ d. refl)
