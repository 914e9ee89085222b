-- ===== src/InApp/Live/Steps.antt =====
-- What `authorize`, `event` and `revoke` of apps/api/src/in-app/delivery.service.ts do to the deliveries.
use nudgeon_platform.Common.{
  ℕ, ◌≡◌, refl, sym, ap, subst, ◌∙◌, inl, inr, true, false, ◌&&◌, List, Option, some, arith,
  Bool-cases, Option-cases, &&-true, leb, All, All-mem, any, is_none, first_row, first_row-eq-some,
  update_rows, Keyed, Keyed-unique, Result, ok, err,
}
use Prim.Native.String.{String}
use nudgeon_platform.InApp.{
  DeliveryState, reserved, authorized, presented, completed, failed, cancelled, expired, Campaign,
  Delivery, EventKind, bridge_ready, content_ready, impression, action, dismiss, log, hide_today,
  InAppError, Store, Clock,
}
use nudgeon_platform.InApp.Decision.{is_open, is_open_of, is_active_device, set_state}
use nudgeon_platform.InApp.Access.{Installation, settle}
use nudgeon_platform.InApp.Display.{
  is_delivery, find_delivery, campaign_of, may_authorize, is_authorized, grant, update_delivery,
  authorize, revoke,
}
use nudgeon_platform.InApp.Display.Events.{
  EventReport, same_kind, is_closed, check_event, insert_event, suppress, hide, reported,
  next_state, is_same_report, write_event, event, is_event,
}
use nudgeon_platform.InApp.Progress.{
  Moves, stay, show, close, Advance, Evolves, Evolves-refl, Evolves-update_rows, is_stamped, IsSame,
}

-- What the table of deliveries keeps to.
pub record IsKept (ds : List Delivery) : Type 0 where
  pub keyed : Keyed (λ (d : Delivery). d.id) ds
  pub stamped : All (λ (d : Delivery). is_stamped d ≡ true) ds

-- An update of the delivery that is found is one of its row alone.
update_delivery-Evolves :
    (i : Installation) (id : ℕ) (f : Delivery → Delivery) (s : Store) {d : Delivery}
    → IsKept s.deliveries
    → find_delivery i id s ≡ some d
    → (is_stamped d ≡ true → Advance d (f d))
    → Evolves s.deliveries (update_delivery i id f s).deliveries
unfolding find_delivery update_delivery
update_delivery-Evolves i id f s {d} kept found step =
    let (there, hit) = first_row-eq-some (is_delivery i id) s.deliveries found in
    Evolves-update_rows (is_delivery i id) f s.deliveries (λ a m e.
      let same : a ≡ d =
        Keyed-unique (λ x. x.id) s.deliveries a d kept.keyed m there (ground arith) in
      subst (λ x. Advance x (f x)) (sym same)
        (step (All-mem (λ x. is_stamped x ≡ true) s.deliveries kept.stamped there)))

rewritten-IsSame :
    (state : DeliveryState) (expires_at : ℕ) (authorized_at : Option ℕ) (d : Delivery)
    → IsSame d (record d { state = state; expires_at = expires_at; authorized_at = authorized_at })
rewritten-IsSame state expires_at authorized_at d = record {
  id = refl;
  tenant = refl;
  app = refl;
  installation_id = refl;
  campaign_id = refl;
  version = refl;
  request_key = refl;
  session_id = refl;
}

grant-Advance :
    (at ends_at : ℕ) (d : Delivery) → d.state ≡ reserved → Advance d (grant at ends_at d)
grant-Advance at ends_at d e = record {
  same = rewritten-IsSame _ _ _ d;
  moved = Moves.grant at e refl refl;
}

-- Who may be granted, and was not, is reserved.
reserved_of :
    (now : ℕ) (c : Campaign) (d : Delivery)
    → may_authorize now c d ≡ true
    → is_authorized d.state ≡ false
    → d.state ≡ reserved
unfolding may_authorize
reserved_of now c d may first = ground arith

pub authorize-Evolves :
    (i : Installation) (id : ℕ) (clock : Clock) (s : Store)
    → IsKept s.deliveries
    → Evolves s.deliveries (authorize i id clock s).0.deliveries
unfolding authorize
authorize-Evolves i id clock s kept = elim (Bool-cases (any (is_active_device i) s.installations)) [
  | inr gone ↦ rw gone (Evolves-refl s.deliveries)
  | inl active ↦ elim (Option-cases (find_delivery i id s)) [
    | inl missing ↦ rw (active, missing) (Evolves-refl s.deliveries)
    | inr (d, found) ↦ elim (Option-cases (campaign_of i d s)) [
      | inl missing ↦ rw (active, found, missing) (Evolves-refl s.deliveries)
      | inr (c, at) ↦ elim (Bool-cases (may_authorize clock.js c d)) [
        | inr refused ↦ rw (active, found, at, refused) (Evolves-refl s.deliveries)
        | inl may ↦ elim (Bool-cases (is_authorized d.state)) [
          | inl already ↦ rw (active, found, at, may, already) (Evolves-refl s.deliveries)
          | inr first ↦
              rw (active, found, at, may, first)
                (update_delivery-Evolves i id (grant clock.sql c.config.ends_at) s kept found (λ _.
                  grant-Advance clock.sql c.config.ends_at d (reserved_of clock.js c d may first)))
        ]
      ]
    ]
  ]
]

-- Closing what is open.
pub close-Advance :
    (state : DeliveryState) (d : Delivery)
    → is_open d.state ≡ true
    → is_open state ≡ false
    → Advance d (set_state state d)
close-Advance state d was now = record {
  same = rewritten-IsSame _ _ _ d;
  moved = close was now refl;
}

-- A report of the display is taken from a delivery that was authorized.
checked_presented :
    (i : Installation) (id : ℕ) (b : EventReport) (now : ℕ) (d : Delivery) (s : Store)
    (u : Unit {0})
    → check_event i id b now d s ≡ ok u
    → same_kind b.kind EventKind.presented ≡ true
    → is_none d.authorized_at ≡ false
unfolding check_event
checked_presented i id b now d s u passed shown = elim (Bool-cases (is_none d.authorized_at)) [
  | inr stamped ↦ stamped
  | inl never ↦ ground arith
]

presented-Moves :
    (d : Delivery) (state : DeliveryState)
    → d.state ≡ state
    → is_open d.state ≡ true
    → is_stamped d ≡ true
    → is_none d.authorized_at ≡ false
    → Moves d (set_state presented d)
presented-Moves d reserved e o stamped some_time = absurd (ground arith)
presented-Moves d authorized e o stamped some_time = show e refl refl
presented-Moves d presented e o stamped some_time = stay (sym e) refl
presented-Moves d completed e o stamped some_time = absurd (ground arith)
presented-Moves d failed e o stamped some_time = absurd (ground arith)
presented-Moves d cancelled e o stamped some_time = absurd (ground arith)
presented-Moves d expired e o stamped some_time = absurd (ground arith)

reported-Moves :
    (kind : EventKind) (d : Delivery)
    → is_open d.state ≡ true
    → is_stamped d ≡ true
    → (same_kind kind EventKind.presented ≡ true → is_none d.authorized_at ≡ false)
    → Moves d (set_state (reported kind d.state) d)
reported-Moves bridge_ready d o stamped shown = stay refl refl
reported-Moves content_ready d o stamped shown = stay refl refl
reported-Moves EventKind.presented d o stamped shown =
    presented-Moves d d.state refl o stamped (shown refl)
reported-Moves impression d o stamped shown = stay refl refl
reported-Moves action d o stamped shown = stay refl refl
reported-Moves dismiss d o stamped shown = close o refl refl
reported-Moves EventKind.failed d o stamped shown = close o refl refl
reported-Moves log d o stamped shown = stay refl refl
reported-Moves hide_today d o stamped shown = stay refl refl
reported-Moves EventKind.cancelled d o stamped shown = close o refl refl

next-Moves :
    (now : ℕ) (b : EventReport) (d : Delivery)
    → is_stamped d ≡ true
    → (same_kind b.kind EventKind.presented ≡ true → is_none d.authorized_at ≡ false)
    → Moves d (set_state (next_state now b d) d)
unfolding next_state
next-Moves now b d stamped shown = elim (Bool-cases (is_closed now d)) [
  | inr taken ↦ rw taken (reported-Moves b.kind d (ground arith) stamped shown)
  | inl closed ↦ elim (Bool-cases (leb d.expires_at now && is_open d.state)) [
    | inl lapsed ↦ rw (closed, lapsed) (close (&&-true _ _ lapsed).1 refl refl)
    | inr left ↦ rw (closed, left) (stay refl refl)
  ]
]

-- A report moves the delivery along the diagram, when it passes the checks.
report-Advance :
    (i : Installation) (id : ℕ) (b : EventReport) (now : ℕ) (d : Delivery) (s : Store)
    (u : Unit {0})
    → check_event i id b now d s ≡ ok u
    → is_stamped d ≡ true
    → Advance d (set_state (next_state now b d) d)
report-Advance i id b now d s u passed stamped = record {
  same = rewritten-IsSame _ _ _ d;
  moved = next-Moves now b d stamped (checked_presented i id b now d s u passed);
}

insert_event-deliveries :
    (i : Installation) (id : ℕ) (b : EventReport) (s : Store)
    → (insert_event i id b s).deliveries ≡ s.deliveries
unfolding insert_event
insert_event-deliveries i id b s = ground arith

hide-deliveries :
    (next_day : String → ℕ → ℕ) (i : Installation) (b : EventReport) (now : ℕ) (d : Delivery)
    (s : Store)
    → (hide next_day i b now d s).deliveries ≡ s.deliveries
unfolding hide suppress
hide-deliveries next_day i b now d s = ground arith

pub write_event-deliveries :
    (next_day : String → ℕ → ℕ) (i : Installation) (id : ℕ) (b : EventReport) (now : ℕ)
    (d : Delivery) (s : Store)
    → (write_event next_day i id b now d s).deliveries
      ≡ (update_delivery i id (set_state (next_state now b d)) s).deliveries
unfolding write_event update_delivery
write_event-deliveries next_day i id b now d s =
    ap (update_rows (is_delivery i id) (set_state (next_state now b d))) (
      hide-deliveries next_day i b now d (insert_event i id b s) ∙ insert_event-deliveries i id b s)

pub event-Evolves :
    (next_day : String → ℕ → ℕ) (i : Installation) (id : ℕ) (b : EventReport) (now : ℕ) (s : Store)
    → IsKept s.deliveries
    → Evolves s.deliveries (event next_day i id b now s).0.deliveries
unfolding event
event-Evolves next_day i id b now s kept = elim (Option-cases (find_delivery i id s)) [
  | inl missing ↦ rw missing (Evolves-refl s.deliveries)
  | inr (d, found) ↦ elim (Option-cases (first_row (is_event i id b.event_id) s.events)) [
    | inr (old, again) ↦ elim (Bool-cases (is_same_report b old)) [
      | inl same ↦ rw (found, again, same) (Evolves-refl s.deliveries)
      | inr other ↦ rw (found, again, other) (Evolves-refl s.deliveries)
    ]
    | inl new ↦ rw (found, new) (checked d found (check_event i id b now d s) refl)
  ]
]
  where
    checked :
        (d : Delivery)
        → find_delivery i id s ≡ some d
        → (r : Result InAppError (Unit {0})) → check_event i id b now d s ≡ r
        → Evolves s.deliveries
            (settle {0} s (elim r as (λ _. Result InAppError (Store × Unit {0})) [
              | ok _ ↦ ok (write_event next_day i id b now d s, tt)
              | err e ↦ err e
            ])).0.deliveries
    checked d found (err e) at = Evolves-refl s.deliveries
    checked d found (ok u) at =
        subst (Evolves s.deliveries) (sym (write_event-deliveries next_day i id b now d s)) (
          update_delivery-Evolves i id (set_state (next_state now b d)) s kept found
            (report-Advance i id b now d s u at))

pub revoke-Evolves : (i : Installation) (s : Store) → Evolves s.deliveries (revoke i s).deliveries
unfolding revoke
revoke-Evolves i s =
    Evolves-update_rows (is_open_of i) (set_state cancelled) s.deliveries
      (λ d _ e. close-Advance cancelled d (&&-true _ _ e).1 refl)
