-- ===== src/InApp/Live/Safety.antt =====
-- What holds of the deliveries behind any requests to apps/api/src/in-app/delivery.controller.ts.
use Prim.Native.String.{String}
use nudgeon_platform.Common.{
  ℕ, ◌≤◌, ◌≡◌, refl, sym, subst, inl, inr, Bool, true, false, List, [], ◌∷◌, arith, Bool-cases,
  ◌==◌, any, count_rows, All, any-false, Result, ok, err,
}
use nudgeon_platform.InApp.{Platform, Campaign, Delivery, Store, InAppError, Clock}
use nudgeon_platform.InApp.Decision.{Decision, is_open_of, is_delivery_of}
use nudgeon_platform.InApp.Access.{Installation, register, auth}
use nudgeon_platform.InApp.Progress.{
  Moves, stay, grant, show, close, Advance, Evolves, Evolves-refl, count_rows-Evolves, is_stamped,
  Advance-is_stamped, All-Evolves, Keyed-Evolves,
}
use nudgeon_platform.InApp.Live.{
  Host, Action, deciding, authorizing, status_request, reporting, revoking, act, Request,
  registering, authed, act_as, handle, Call, handle_all,
}
use nudgeon_platform.InApp.Live.Steps.{IsKept, authorize-Evolves, event-Evolves, revoke-Evolves}
use nudgeon_platform.InApp.Live.Reserve.{IsReservation, Decides, evolves, reserves, decide-Decides}

pub register-deliveries :
    (hash : String → String) (live : Bool) (tenant app : ℕ) (platform : Platform) (id : ℕ)
    (secret : String) (clock : Clock) (s : Store)
    → (register hash live tenant app platform id secret clock s).0.deliveries ≡ s.deliveries
unfolding register
register-deliveries hash live tenant app platform id secret clock s = ground arith

-- What a request does to the deliveries: they move along the diagram, and it may reserve one of a campaign for
-- which `P` holds.
pub data Turns {κ} (P : Campaign → Type κ) (s s' : Store) : Type κ where
  evolve : Evolves s.deliveries s'.deliveries → Turns P s s'
  reserve :
      (day_start : String → ℕ → ℕ) (i : Installation) (supports_zone : Bool) (b : Decision)
      (clock : Clock) (c : Campaign) (d : Delivery) (r : Store)
      → P c
      → Evolves s.deliveries r.deliveries
      → IsReservation day_start i supports_zone b clock c d r
      → s'.deliveries ≡ d ∷ r.deliveries
      → Turns P s s'

module _ {κ} (P : Campaign → Type κ) (host : Host) where
  act-Turns :
      (i : Installation) (a : Action) (clock : Clock) (s : Store)
      → All P s.campaigns
      → IsKept s.deliveries
      → Turns P s (act host i a clock s)
  unfolding act
  act-Turns i (deciding supports_zone b id) clock s limited kept =
      turns (decide-Decides P host.day_start i supports_zone b clock id s limited)
    where
      turns : {s' : Store} → Decides P host.day_start i supports_zone b clock id s s' → Turns P s s'
      turns (evolves e) = evolve e
      turns (reserves c d r p e h at now made) =
          reserve host.day_start i supports_zone b clock c d r p e h at
  act-Turns i (authorizing id) clock s limited kept = evolve (authorize-Evolves i id clock s kept)
  act-Turns i (status_request id) clock s limited kept = evolve (Evolves-refl s.deliveries)
  act-Turns i (reporting id b) clock s limited kept =
      evolve (event-Evolves host.next_day i id b clock.js s kept)
  act-Turns i revoking clock s limited kept = evolve (revoke-Evolves i s)

  pub handle-Turns :
      (tenant app : ℕ) (q : Request) (clock : Clock) (s : Store)
      → All P s.campaigns
      → IsKept s.deliveries
      → Turns P s (handle host tenant app q clock s)
  unfolding handle
  handle-Turns tenant app (registering platform id secret) clock s limited kept = evolve (
      subst (Evolves s.deliveries)
        (sym (register-deliveries host.hash host.live tenant app platform id secret clock s))
        (Evolves-refl s.deliveries))
  handle-Turns tenant app (authed token a) clock s limited kept =
      answered (auth host.hash host.uuid host.live tenant app token s)
    where
      answered : (r : Result InAppError Installation) → Turns P s (act_as host a clock s r)
      answered (ok i) = act-Turns i a clock s limited kept
      answered (err e) = evolve (Evolves-refl s.deliveries)

-- The ids of deliveries are unique, an open one has the time of its authorization exactly if it is past it, and
-- an installation has one open delivery at most.
pub record IsSafe (ds : List Delivery) : Type 0 where
  pub kept : IsKept ds
  pub single : (i : Installation) → count_rows (is_open_of i) ds ≤ 1

Advance-is_open_of :
    (i : Installation) (d d' : Delivery)
    → Advance d d'
    → is_open_of i d' ≡ true
    → is_open_of i d ≡ true
Advance-is_open_of i d d' a h = moved a.moved
  where
    moved : Moves d d' → is_open_of i d ≡ true
    moved (stay s t) = ground arith
    moved (grant at r s t) = ground arith
    moved (show r s t) = ground arith
    moved (close o c t) = ground arith

pub Evolves-IsSafe : {ds ds' : List Delivery} → Evolves ds ds' → IsSafe ds → IsSafe ds'
Evolves-IsSafe {ds} {ds'} e h = record {
  kept = record {
    keyed = Keyed-Evolves e h.kept.keyed;
    stamped = All-Evolves (λ d. is_stamped d ≡ true) Advance-is_stamped e h.kept.stamped;
  };
  single = λ i.
      let fewer : count_rows (is_open_of i) ds' ≤ count_rows (is_open_of i) ds =
        count_rows-Evolves (is_open_of i) (Advance-is_open_of i) e in
      omega (arith, h.single i);
}

-- Where one installation has no open delivery, neither has one of the same tenant, app and id.
none_open :
    (i j : Installation) (ds : List Delivery)
    → i.tenant ≡ j.tenant
    → i.app ≡ j.app
    → i.id ≡ j.id
    → any (is_open_of i) ds ≡ false
    → count_rows (is_open_of j) ds ≡ 0
none_open i j [] t a n h = refl
none_open i j (d ∷ ds) t a n h = ground (arith, none_open i j ds t a n)

fresh-All :
    (id : ℕ) (ds : List Delivery)
    → any (λ (o : Delivery). o.id == id) ds ≡ false
    → All (λ (o : Delivery). (o.id == id) ≡ false) ds
fresh-All id ds h = any-false (λ o. o.id == id) ds h

-- A new delivery that is reserved where none is open.
reserve-IsSafe :
    (i : Installation) (d : Delivery) (ds : List Delivery)
    → is_delivery_of i d ≡ true
    → is_stamped d ≡ true
    → any (is_open_of i) ds ≡ false
    → any (λ (o : Delivery). o.id == d.id) ds ≡ false
    → IsSafe ds
    → IsSafe (d ∷ ds)
reserve-IsSafe i d ds mine stamped free fresh h = record {
  kept = record {
    keyed = (fresh-All d.id ds fresh, h.kept.keyed);
    stamped = (stamped, h.kept.stamped);
  };
  single = λ j. elim (Bool-cases (is_open_of j d)) [
    | inr other ↦ rw other (h.single j)
    | inl opened ↦
        rw opened
          (omega (arith, none_open i j ds (ground arith) (ground arith) (ground arith) free))
  ];
}

-- The new delivery is of the installation, and bears no time.
pub reserved_mine :
    {day_start : String → ℕ → ℕ} (i : Installation) {supports_zone : Bool} {b : Decision}
    {clock : Clock} {c : Campaign} {d : Delivery} {r : Store}
    → IsReservation day_start i supports_zone b clock c d r
    → (is_delivery_of i d ≡ true) × (is_stamped d ≡ true)
reserved_mine i {b = b} {clock = clock} {c = c} h =
    let (id, e) = h.made in rw e (ground arith, refl)

pub Turns-IsSafe {κ} :
    {P : Campaign → Type κ} {s s' : Store}
    → Turns P s s'
    → IsSafe s.deliveries
    → IsSafe s'.deliveries
Turns-IsSafe (evolve e) h = Evolves-IsSafe e h
Turns-IsSafe (reserve day_start i supports_zone b clock c d r p e k at) h =
    let (mine, stamped) = reserved_mine i k in
    subst IsSafe (sym at)
      (reserve-IsSafe i d r.deliveries mine stamped k.free k.fresh (Evolves-IsSafe e h))

pub All-given {ℓ} : {A : Type ℓ} (xs : List A) → All (λ _. Unit {0}) xs
All-given [] = tt
All-given (x ∷ xs) = (tt, All-given xs)

-- Whatever requests are handled, in whatever order and from whichever apps: the ids of deliveries stay unique, an
-- open delivery has the time of its authorization exactly if it is past it, and an installation has one open
-- delivery at most.
pub handle_all-IsSafe :
    (host : Host) (calls : List Call) (s : Store)
    → IsSafe s.deliveries
    → IsSafe (handle_all host calls s).deliveries
unfolding handle_all
handle_all-IsSafe host [] s h = h
handle_all-IsSafe host (c ∷ cs) s h =
    handle_all-IsSafe host cs (handle host c.tenant c.app c.request c.clock s) (
      Turns-IsSafe
        (handle-Turns (λ _. Unit {0}) host c.tenant c.app c.request c.clock s
          (All-given s.campaigns) h.kept)
        h)
