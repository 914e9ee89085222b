-- ===== src/InApp/Live/Reserve.antt =====
-- What `decide` of apps/api/src/in-app/delivery.service.ts does to the deliveries: those that lapse are closed,
-- and a new one is reserved only behind its checks.
use Prim.Native.String.{String}
use nudgeon_platform.Common.{
  ℕ, zero, suc, ◌≡◌, refl, subst, inl, inr, Bool, true, false, List, [], ◌∷◌, Option, none, some,
  Bool-cases, &&-true, ◌==◌, any, take, first_row, All, some-injective,
}
use mathlib.Core.Option.{none-ne-some}
use nudgeon_platform.InApp.{expired, Campaign, Delivery, Store, Clock}
use nudgeon_platform.InApp.Decision.{
  is_open_of, is_active_device, is_lapsed, set_state, refresh, is_request, Decision,
  is_same_request, is_live_campaign, is_before, place, ranked, candidates, is_showable,
  is_just_shown, new_delivery, chosen, reserve, decide_next, decide,
}
use nudgeon_platform.InApp.Access.{Installation, settle}
use nudgeon_platform.InApp.Progress.{Evolves, Evolves-refl, Evolves-update_rows}
use nudgeon_platform.InApp.Live.Steps.{close-Advance}

module _ {κ} (P : Campaign → Type κ) where
  All-place : (c : Campaign) (cs : List Campaign) → P c → All P cs → All P (place c cs)
  All-place c [] p h = (p, tt)
  All-place c (x ∷ cs) p (h, hs) = elim (Bool-cases (is_before c x)) [
    | inl first ↦ rw first (p, (h, hs))
    | inr later ↦ rw later (h, All-place c cs p hs)
  ]

  All-take : (n : ℕ) (cs : List Campaign) → All P cs → All P (take n cs)
  All-take zero cs h = tt
  All-take (suc n) [] h = tt
  All-take (suc n) (c ∷ cs) (h, hs) = (h, All-take n cs hs)

-- A candidate is a row of the table that is live for the installation.
abbrev pub IsCandidate {κ} : (Campaign → Type κ) → Installation → Campaign → Type κ
IsCandidate P i c = P c × (is_live_campaign i c ≡ true)

All-ranked {κ} :
    (P : Campaign → Type κ) (i : Installation) (cs : List Campaign)
    → All P cs
    → All (IsCandidate P i) (ranked i cs)
unfolding ranked
All-ranked P i [] h = tt
All-ranked P i (c ∷ cs) (h, hs) = elim (Bool-cases (is_live_campaign i c)) [
  | inl live ↦
      rw live (All-place (IsCandidate P i) c (ranked i cs) (h, live) (All-ranked P i cs hs))
  | inr other ↦ rw other (All-ranked P i cs hs)
]

-- What holds when a delivery of a campaign is reserved behind the deliveries `es`.
pub record IsReservation (day_start : String → ℕ → ℕ) (i : Installation) (supports_zone : Bool)
    (b : Decision) (clock : Clock) (c : Campaign) (d : Delivery) (s : Store) : Type 0 where
  pub live : is_live_campaign i c ≡ true
  pub showable : is_showable day_start i supports_zone b clock c s ≡ true
  pub quiet : any (is_just_shown i clock.sql) s.deliveries ≡ false
  pub free : any (is_open_of i) s.deliveries ≡ false
  pub fresh : any (λ (o : Delivery). o.id == d.id) s.deliveries ≡ false
  pub unasked : first_row (is_request i b.request_key) s.deliveries ≡ none
  pub made : (id : ℕ) × (d ≡ new_delivery i b id clock.sql c)

module _ {κ} (P : Campaign → Type κ) (day_start : String → ℕ → ℕ) (i : Installation)
    (supports_zone : Bool) (b : Decision) (clock : Clock) where
  chosen-eq-some :
      (s : Store) (cs : List Campaign) {c : Campaign}
      → All (IsCandidate P i) cs
      → chosen day_start i supports_zone b clock s cs ≡ some c
      → IsCandidate P i c
        × (is_showable day_start i supports_zone b clock c s ≡ true)
        × (any (is_just_shown i clock.sql) s.deliveries ≡ false)
  unfolding chosen
  chosen-eq-some s [] h e = cc
  chosen-eq-some s (x ∷ cs) {c} (h, hs) e =
      elim (Bool-cases (is_showable day_start i supports_zone b clock x s)) [
        | inr passed ↦ chosen-eq-some s cs hs (rw passed at e)
        | inl shown ↦ elim (Bool-cases (any (is_just_shown i clock.sql) s.deliveries)) [
          | inl recent ↦ absurd (none-ne-some c (rw (shown, recent) at e))
          | inr quiet ↦
              let same : x ≡ c = some-injective (rw (shown, quiet) at e) in
              (
                subst (IsCandidate P i) same h,
                subst (λ y. is_showable day_start i supports_zone b clock y s ≡ true) same shown,
                quiet,
              )
        ]
      ]

  -- What `decide` does to the deliveries, with the id for a new one.
  pub data Decides (id : ℕ) (s : Store) (s' : Store) : Type κ where
    evolves : Evolves s.deliveries s'.deliveries → Decides id s s'
    reserves :
        (c : Campaign) (d : Delivery) (r : Store)
        → P c
        → Evolves s.deliveries r.deliveries
        → IsReservation day_start i supports_zone b clock c d r
        → s'.deliveries ≡ d ∷ r.deliveries
        → r ≡ refresh i clock.sql s
        → d ≡ new_delivery i b id clock.sql c
        → Decides id s s'

  refresh-Evolves : (now : ℕ) (s : Store) → Evolves s.deliveries (refresh i now s).deliveries
  unfolding refresh
  refresh-Evolves now s =
      Evolves-update_rows (is_lapsed i now) (set_state expired) s.deliveries
        (λ d _ e. close-Advance expired d (&&-true _ _ (&&-true _ _ e).0).1 refl)

  reserve-Decides :
      (id : ℕ) (s r : Store) (o : Option Campaign)
      → chosen day_start i supports_zone b clock r (candidates i r) ≡ o
      → All P r.campaigns
      → Evolves s.deliveries r.deliveries
      → any (is_open_of i) r.deliveries ≡ false
      → first_row (is_request i b.request_key) r.deliveries ≡ none
      → r ≡ refresh i clock.sql s
      → Decides id s (settle s (reserve i b id clock.sql o r)).0
  unfolding candidates
  reserve-Decides id s r none at limited step free unasked now = evolves step
  reserve-Decides id s r (some c) at limited step free unasked now =
      elim (Bool-cases (any (λ (d : Delivery). d.id == id) r.deliveries)) [
        | inl taken ↦ rw taken (evolves (Evolves-refl s.deliveries))
        | inr new ↦
            let ((p, live), shown, quiet) =
              chosen-eq-some r (take 100 (ranked i r.campaigns))
                (All-take (IsCandidate P i) 100 (ranked i r.campaigns)
                  (All-ranked P i r.campaigns limited))
                at in
            rw new (
              reserves c (new_delivery i b id clock.sql c) r p step
                (record {
                  live = live;
                  showable = shown;
                  quiet = quiet;
                  free = free;
                  fresh = new;
                  unasked = unasked;
                  made = (id, refl);
                })
                refl now refl)
      ]

  pub decide-Decides :
      (id : ℕ) (s : Store)
      → All P s.campaigns
      → Decides id s (decide day_start i supports_zone b id clock s).0
  unfolding decide
  decide-Decides id s limited = elim (Bool-cases (any (is_active_device i) s.installations)) [
    | inr gone ↦ rw gone (evolves (Evolves-refl s.deliveries))
    | inl active ↦ rw active (
        next (refresh i clock.sql s) (refresh-Evolves clock.sql s) (unfold refresh in limited) refl
          (first_row (is_request i b.request_key) (refresh i clock.sql s).deliveries) refl)
  ]
    where
      next :
          (r : Store)
          → Evolves s.deliveries r.deliveries
          → All P r.campaigns
          → r ≡ refresh i clock.sql s
          → (o : Option Delivery) → first_row (is_request i b.request_key) r.deliveries ≡ o
          → Decides id s (settle s (decide_next day_start i supports_zone b id clock o r)).0
      next r step kept now (some old) at = elim (Bool-cases (is_same_request b old)) [
        | inl same ↦ rw same (evolves step)
        | inr other ↦ rw other (evolves (Evolves-refl s.deliveries))
      ]
      next r step kept now none at = elim (Bool-cases (any (is_open_of i) r.deliveries)) [
        | inl busy ↦ rw busy (evolves step)
        | inr free ↦ rw free (
            reserve-Decides id s r (chosen day_start i supports_zone b clock r (candidates i r))
              refl kept step free at now)
      ]
