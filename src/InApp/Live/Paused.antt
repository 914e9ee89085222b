-- ===== src/InApp/Live/Paused.antt =====
-- A campaign that `transition` of apps/api/src/in-app/campaign.service.ts has paused, behind any requests to
-- apps/api/src/in-app/delivery.controller.ts.
use nudgeon_platform.Common.{
  ℕ, ◌≡◌, refl, sym, ap, subst, inl, inr, Bool, true, false, List, [], ◌∷◌, arith, Bool-cases,
  Option-cases, ◌==◌, count_rows, update_rows, first_row, All, ok, err-ne-ok, ok-injective,
}
use nudgeon_platform.InApp.{Campaign, Delivery, DeliveryState, Store}
use nudgeon_platform.InApp.Decision.{is_published, set_state}
use nudgeon_platform.InApp.Display.{is_campaign}
use nudgeon_platform.InApp.Campaigns.{
  Switches, is_open_for, pause_row, pause_found, refused_app, transition,
}
use nudgeon_platform.InApp.Progress.{
  Moves, stay, grant, show, close, Advance, Evolves-update_rows, count_rows-Evolves,
}
use nudgeon_platform.InApp.Live.{Host, Call, handle, handle_all}
use nudgeon_platform.InApp.Live.Unwritten.{handle-campaigns}
use nudgeon_platform.InApp.Live.Steps.{close-Advance}
use nudgeon_platform.InApp.Live.Safety.{
  IsSafe, Evolves-IsSafe, Turns, evolve, reserve, handle-Turns, Turns-IsSafe,
}

-- Of the campaign, no row is published and no delivery open.
record IsIdle (c : Campaign) (s : Store) : Type 0 where
  unpublished :
      All (λ x. is_campaign c.tenant c.app c.id x ≡ true → is_published x.state ≡ false) s.campaigns
  closed : count_rows (is_open_for c) s.deliveries ≡ 0

Advance-is_open_for :
    (c : Campaign) (d d' : Delivery)
    → Advance d d'
    → is_open_for c d' ≡ true
    → is_open_for c d ≡ true
Advance-is_open_for c d d' a h = moved a.moved
  where
    moved : Moves d d' → is_open_for c d ≡ true
    moved (stay s t) = ground arith
    moved (grant at r s t) = ground arith
    moved (show r s t) = ground arith
    moved (close o e t) = ground arith

Turns-closed :
    (c : Campaign) {s s' : Store}
    → Turns (λ x. is_campaign c.tenant c.app c.id x ≡ true → is_published x.state ≡ false) s s'
    → count_rows (is_open_for c) s.deliveries ≡ 0
    → count_rows (is_open_for c) s'.deliveries ≡ 0
Turns-closed c (evolve e) h =
    let fewer = count_rows-Evolves (is_open_for c) (Advance-is_open_for c) e in omega arith
Turns-closed c (reserve day_start i supports_zone b clock x d r p e k at) h =
    let fewer = count_rows-Evolves (is_open_for c) (Advance-is_open_for c) e in
    let none_left : count_rows (is_open_for c) r.deliveries ≡ 0 = omega arith in
    let (id, made) = k.made in
    let live = k.live in
    subst (λ ds. count_rows (is_open_for c) ds ≡ 0) (sym at)
      (elim (Bool-cases (is_open_for c d)) [
        | inr other ↦ rw other none_left
        | inl one ↦
            let t : d.tenant ≡ i.tenant = ap (λ y. y.tenant) made in
            let a : d.app ≡ i.app = ap (λ y. y.app) made in
            let n : d.campaign_id ≡ x.id = ap (λ y. y.campaign_id) made in
            let unpublished = p (ground arith) in absurd (ground arith)
      ])

handle_all-IsIdle :
    (host : Host) (calls : List Call) (c : Campaign) (s : Store)
    → IsSafe s.deliveries
    → IsIdle c s
    → count_rows (is_open_for c) (handle_all host calls s).deliveries ≡ 0
unfolding handle_all
handle_all-IsIdle host [] c s safe h = h.closed
handle_all-IsIdle host (x ∷ xs) c s safe h =
    let turn =
      handle-Turns (λ y. is_campaign c.tenant c.app c.id y ≡ true → is_published y.state ≡ false)
        host x.tenant x.app x.request x.clock s h.unpublished safe.kept in
    handle_all-IsIdle host xs c (handle host x.tenant x.app x.request x.clock s)
      (Turns-IsSafe turn safe)
      (record {
        unpublished =
            subst
              (All (λ y. is_campaign c.tenant c.app c.id y ≡ true → is_published y.state ≡ false))
              (sym (handle-campaigns host x.tenant x.app x.request x.clock s)) h.unpublished;
        closed = Turns-closed c turn h.closed;
      })

paused_rows :
    (c : Campaign) (cs : List Campaign)
    → All
        (λ x. is_campaign c.tenant c.app c.id x ≡ true → is_published x.state ≡ false)
        (update_rows (is_campaign c.tenant c.app c.id) pause_row cs)
paused_rows c [] = tt
paused_rows c (x ∷ cs) = elim (Bool-cases (is_campaign c.tenant c.app c.id x)) [
  | inl hit ↦ rw hit (λ _. refl, paused_rows c cs)
  | inr miss ↦ rw miss (λ h. absurd (ground arith), paused_rows c cs)
]

cancelled_rows :
    (c : Campaign) (ds : List Delivery)
    → count_rows
        (is_open_for c)
        (update_rows (is_open_for c) (set_state DeliveryState.cancelled) ds)
      ≡ 0
cancelled_rows c [] = refl
cancelled_rows c (d ∷ ds) = ground (arith, cancelled_rows c ds)

pause_found-IsSafe :
    (c : Campaign) (s : Store) → IsSafe s.deliveries → IsSafe (pause_found c s).deliveries
unfolding pause_found
pause_found-IsSafe c s safe =
    Evolves-IsSafe
      (Evolves-update_rows (is_open_for c) (set_state DeliveryState.cancelled) s.deliveries
        (λ d _ e. close-Advance DeliveryState.cancelled d (ground arith) refl))
      safe

pause_found-IsIdle : (c : Campaign) (s : Store) → IsIdle (pause_row c) (pause_found c s)
unfolding pause_found
pause_found-IsIdle c s = record {
  unpublished = paused_rows c s.campaigns;
  closed = cancelled_rows c s.deliveries;
}

-- A pause that is answered was made.
transition-paused :
    (assets : ℕ → ℕ → ℕ → Bool) (on : Switches) (tenant app id member expected_version now : ℕ)
    (s : Store) (c' : Campaign)
    → (transition assets on tenant app id member expected_version false now s).1 ≡ ok c'
    → (c : Campaign) × ((transition assets on tenant app id member expected_version false now s).0
        ≡ pause_found c s)
      × (c' ≡ pause_row c)
unfolding transition
transition-paused assets on tenant app id member expected_version now s c' h =
    elim (Option-cases (refused_app on tenant app s)) [
      | inr (e, refused) ↦ absurd (err-ne-ok (rw refused at h))
      | inl passed ↦ elim (Option-cases (first_row (is_campaign tenant app id) s.campaigns)) [
        | inl missing ↦ absurd (err-ne-ok (rw (passed, missing) at h))
        | inr (c, found) ↦ elim (Bool-cases (c.version == expected_version)) [
          | inr changed ↦ absurd (err-ne-ok (rw (passed, found, changed) at h))
          | inl same ↦
              (c, rw (passed, found, same), sym (ok-injective refl (rw (passed, found, same) at h)))
        ]
      ]
    ]

-- A campaign that is paused has no open delivery, whatever the installations ask for from then on.
pub handle_all-paused :
    (assets : ℕ → ℕ → ℕ → Bool) (on : Switches) (tenant app id member expected_version now : ℕ)
    (s : Store) (c : Campaign) (host : Host) (calls : List Call)
    → IsSafe s.deliveries
    → (transition assets on tenant app id member expected_version false now s).1 ≡ ok c
    → count_rows
        (is_open_for c)
        (handle_all host calls
          (transition assets on tenant app id member expected_version false now s).0).deliveries
      ≡ 0
handle_all-paused assets on tenant app id member expected_version now s c host calls safe h =
    let (before, at, row) =
      transition-paused assets on tenant app id member expected_version now s c h in
    rw (at, row)
      (handle_all-IsIdle host calls (pause_row before) (pause_found before s)
        (pause_found-IsSafe before s safe) (pause_found-IsIdle before s))
