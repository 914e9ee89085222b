-- ===== src/InApp/Live/Requests.antt =====
-- What one request to apps/api/src/in-app/delivery.controller.ts does to the deliveries.
use Prim.Native.String.{String}
use nudgeon_platform.Common.{
  ◌≡◌, refl, sym, subst, Bool, List, [], ◌∷◌, Memᴰ, All, Result, ok, err, ℕ,
}
use nudgeon_platform.InApp.{Campaign, Store, InAppError, Clock}
use nudgeon_platform.InApp.Decision.{Decision, new_delivery, refresh}
use nudgeon_platform.InApp.Access.{Installation, auth}
use nudgeon_platform.InApp.Progress.{Evolves, Evolves-refl}
use nudgeon_platform.InApp.Live.{
  Host, Action, deciding, authorizing, status_request, reporting, revoking, act, Request,
  registering, authed, act_as, handle,
}
use nudgeon_platform.InApp.Live.Steps.{IsKept, authorize-Evolves, event-Evolves, revoke-Evolves}
use nudgeon_platform.InApp.Live.Reserve.{IsReservation, Decides, evolves, reserves, decide-Decides}
use nudgeon_platform.InApp.Live.Safety.{register-deliveries}

All-listed {ℓ κ} :
    {A : Type ℓ} (P : A → Type κ) (xs : List A) → ((x : A) → Memᴰ x xs → P x) → All P xs
All-listed P [] h = tt
All-listed P (x ∷ xs) h = (h x (Memᴰ.head refl), All-listed P xs (λ y m. h y (Memᴰ.tail m)))

module _ (host : Host) where
  -- The deliveries behind an installation's action: they moved along the diagram, or the action asked for a
  -- decision, and a delivery is new that has the id and the campaign of the decision. What `decide` asks for holds
  -- of the capability, the decision, the installation and the time that were given, and of the store in which
  -- those that lapsed by then are closed.
  pub data Acts (i : Installation) (a : Action) (clock : Clock) (s s' : Store) : Type 0 where
    moves : Evolves s.deliveries s'.deliveries → Acts i a clock s s'
    adds :
        (supports_zone : Bool) (b : Decision) (id : ℕ) (c : Campaign)
        → a ≡ deciding supports_zone b id
        → Memᴰ c s.campaigns
        → Evolves s.deliveries (refresh i clock.sql s).deliveries
        → IsReservation host.day_start i supports_zone b clock c
            (new_delivery i b id clock.sql c)
            (refresh i clock.sql s)
        → s'.deliveries ≡ new_delivery i b id clock.sql c ∷ (refresh i clock.sql s).deliveries
        → Acts i a clock s s'

  decided-Acts :
      (i : Installation) (supports_zone : Bool) (b : Decision) (id : ℕ) (clock : Clock)
      (s s' : Store)
      → Decides (λ c. Memᴰ c s.campaigns) host.day_start i supports_zone b clock id s s'
      → Acts i (deciding supports_zone b id) clock s s'
  decided-Acts i supports_zone b id clock s s' (evolves e) = moves e
  decided-Acts i supports_zone b id clock s s' (reserves c d r p e h at now made) =
      adds supports_zone b id c refl p
        (subst (λ (x : Store). Evolves s.deliveries x.deliveries) now e)
        (subst
          (λ x.
            IsReservation host.day_start i supports_zone b clock c (new_delivery i b id clock.sql c)
              x)
          now (subst (λ x. IsReservation host.day_start i supports_zone b clock c x r) made h))
        (subst (λ (x : Store). s'.deliveries ≡ new_delivery i b id clock.sql c ∷ x.deliveries) now
          (subst (λ x. s'.deliveries ≡ x ∷ r.deliveries) made at))

  act-Acts :
      (i : Installation) (a : Action) (clock : Clock) (s : Store)
      → IsKept s.deliveries
      → Acts i a clock s (act host i a clock s)
  unfolding act
  act-Acts i (deciding supports_zone b id) clock s kept =
      decided-Acts i supports_zone b id clock s _ (
        decide-Decides (λ c. Memᴰ c s.campaigns) host.day_start i supports_zone b clock id s
          (All-listed (λ c. Memᴰ c s.campaigns) s.campaigns (λ c m. m)))
  act-Acts i (authorizing id) clock s kept = moves (authorize-Evolves i id clock s kept)
  act-Acts i (status_request id) clock s kept = moves (Evolves-refl s.deliveries)
  act-Acts i (reporting id b) clock s kept =
      moves (event-Evolves host.next_day i id b clock.js s kept)
  act-Acts i revoking clock s kept = moves (revoke-Evolves i s)

  -- The deliveries behind a request: they moved along the diagram, or the request's token is one of an
  -- installation of the app, for which the request's action was done.
  pub data Takes (tenant app : ℕ) (q : Request) (clock : Clock) (s s' : Store) : Type 0 where
    unasked : Evolves s.deliveries s'.deliveries → Takes tenant app q clock s s'
    asked :
        (token : String) (a : Action) (i : Installation)
        → q ≡ authed token a
        → auth host.hash host.uuid host.live tenant app token s ≡ ok i
        → Acts i a clock s s'
        → Takes tenant app q clock s s'

  -- A request moves each delivery that is there along the diagram of their states, or leaves it, and takes none
  -- away. It adds one at most, only as the decision that it asks for, and for the installation of its token: the new
  -- delivery is reserved, for a published campaign that may be shown with the capability, the trigger and the session
  -- of the request and at its time, where the installation has no open delivery, nothing was shown a moment ago and
  -- the request is new.
  pub handle-Moves :
      (tenant app : ℕ) (q : Request) (clock : Clock) (s : Store)
      → IsKept s.deliveries
      → Takes tenant app q clock s (handle host tenant app q clock s)
  unfolding handle
  handle-Moves tenant app (registering platform id secret) clock s kept = unasked (
      subst (Evolves s.deliveries)
        (sym (register-deliveries host.hash host.live tenant app platform id secret clock s))
        (Evolves-refl s.deliveries))
  handle-Moves tenant app (authed token a) clock s kept =
      answered (auth host.hash host.uuid host.live tenant app token s) refl
    where
      answered :
          (r : Result InAppError Installation)
          → auth host.hash host.uuid host.live tenant app token s ≡ r
          → Takes tenant app (authed token a) clock s (act_as host a clock s r)
      answered (ok i) e = asked token a i refl e (act-Acts i a clock s kept)
      answered (err x) e = unasked (Evolves-refl s.deliveries)
