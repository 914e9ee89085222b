-- ===== src/InApp/Live/Limits.antt =====
-- How often a campaign is shown to an installation behind any requests to
-- apps/api/src/in-app/delivery.controller.ts.
use Prim.Native.String.{String}
use nudgeon_platform.Common.{
  ℕ, ◌≤◌, ◌<◌, ◌≡◌, refl, sym, ap, subst, ◌∙◌, inl, inr, Bool, true, false, ◌&&◌, ◌||◌, List, [],
  ◌∷◌, arith, Bool-cases, &&-true, ◌==◌, any, count_rows, All,
}
use nudgeon_platform.InApp.{Campaign, Delivery, Store, Clock}
use nudgeon_platform.InApp.Decision.{
  Decision, is_open, is_open_of, is_delivery_of, is_shown, is_shown_in, authorized_when,
  is_within_limits, is_showable,
}
use nudgeon_platform.InApp.Access.{Installation}
use nudgeon_platform.InApp.Display.{is_campaign}
use nudgeon_platform.InApp.Progress.{
  Moves, stay, grant, show, close, IsSame, Advance, Evolves, count_rows-Evolves,
}
use nudgeon_platform.InApp.Live.{Host, handle, Call, handle_all}
use nudgeon_platform.InApp.Live.Unwritten.{handle-campaigns}
use nudgeon_platform.InApp.Live.Reserve.{IsReservation}
use nudgeon_platform.InApp.Live.Safety.{
  IsSafe, Turns, evolve, reserve, handle-Turns, Turns-IsSafe, reserved_mine, All-given,
}

-- A delivery that was authorized, or still can be.
abbrev pub is_spent : Delivery → Bool
is_spent d = authorized_when (λ t. true) d || is_open d.state

Advance-is_spent : (d d' : Delivery) → Advance d d' → is_spent d' ≡ true → is_spent d ≡ true
Advance-is_spent d d' a h = moved a.moved
  where
    moved : Moves d d' → is_spent d ≡ true
    moved (stay s t) = ground arith
    moved (grant at r s t) = ground arith
    moved (show r s t) = ground arith
    moved (close o c t) = ground arith

-- The deliveries of a kind `q` of one installation, where a kind is told by columns that no request writes.
module _ (j : Installation) (q : Delivery → Bool)
    (mine : (d : Delivery) → q d ≡ true → is_delivery_of j d ≡ true)
    (lasting : (d d' : Delivery) → IsSame d d' → q d' ≡ q d) where
  abbrev spent : Delivery → Bool
  spent d = q d && is_spent d

  abbrev shown : Delivery → Bool
  shown d = q d && authorized_when (λ t. true) d

  spent-shown :
      (i : Installation) (ds : List Delivery)
      → i.tenant ≡ j.tenant
      → i.app ≡ j.app
      → i.id ≡ j.id
      → any (is_open_of i) ds ≡ false
      → count_rows spent ds ≡ count_rows shown ds
  spent-shown i [] t a n h = refl
  spent-shown i (d ∷ ds) t a n h = ground (arith, spent-shown i ds t a n, mine d)

  shown-le-spent : (ds : List Delivery) → count_rows shown ds ≤ count_rows spent ds
  shown-le-spent [] = omega arith
  shown-le-spent (d ∷ ds) = ground (arith, shown-le-spent ds)

  Evolves-spent :
      {ds ds' : List Delivery} → Evolves ds ds' → count_rows spent ds' ≤ count_rows spent ds
  Evolves-spent e =
      count_rows-Evolves spent
        (λ d d' a h.
          let (kind, some_time) = &&-true (q d') (is_spent d') h in
          let before : q d ≡ true = sym (lasting d d' a.same) ∙ kind in
          rw (before, Advance-is_spent d d' a some_time))
        e

  module _ {κ} (P : Campaign → Type κ) (limit : ℕ) where
    -- A delivery of the kind is reserved only below the limit.
    abbrev IsChecked : Type κ
    IsChecked =
        (day_start : String → ℕ → ℕ) (i : Installation) (supports_zone : Bool) (b : Decision)
        (clock : Clock) (c : Campaign) (d : Delivery) (r : Store)
        → P c
        → IsReservation day_start i supports_zone b clock c d r
        → q d ≡ true
        → count_rows shown r.deliveries < limit

    Turns-spent :
        IsChecked
        → {s s' : Store} → Turns P s s'
        → count_rows spent s.deliveries ≤ limit
        → count_rows spent s'.deliveries ≤ limit
    Turns-spent checked (evolve e) h = omega (arith, Evolves-spent e)
    Turns-spent checked {s} {s'} (reserve day_start i supports_zone b clock c d r p e k at) h =
        let before : count_rows spent r.deliveries ≤ limit = omega (arith, Evolves-spent e) in
        let here = (reserved_mine i k).0 in
        subst (λ ds. count_rows spent ds ≤ limit) (sym at)
          (elim (Bool-cases (spent d)) [
            | inr other ↦ rw other before
            | inl one ↦
                let (kind, _) = &&-true (q d) (is_spent d) one in
                let there = mine d kind in
                let below = checked day_start i supports_zone b clock c d r p k kind in
                rw one (
                  omega (
                    arith,
                    below,
                    spent-shown i r.deliveries (ground arith) (ground arith) (ground arith) k.free,
                  ))
          ])

    handle_all-spent :
        IsChecked
        → (host : Host) (calls : List Call) (s : Store) → IsSafe s.deliveries
        → All P s.campaigns
        → count_rows spent s.deliveries ≤ limit
        → count_rows spent (handle_all host calls s).deliveries ≤ limit
    unfolding handle_all
    handle_all-spent checked host [] s safe limited h = h
    handle_all-spent checked host (x ∷ xs) s safe limited h =
        let turn = handle-Turns P host x.tenant x.app x.request x.clock s limited safe.kept in
        handle_all-spent checked host xs (handle host x.tenant x.app x.request x.clock s)
          (Turns-IsSafe turn safe)
          (subst (All P) (sym (handle-campaigns host x.tenant x.app x.request x.clock s)) limited)
          (Turns-spent checked turn h)

-- The deliveries of a campaign to an installation, and those in one session.
abbrev pub is_about : Installation → ℕ → Delivery → Bool
is_about j campaign_id d = is_delivery_of j d && d.campaign_id == campaign_id

abbrev pub is_about_in : Installation → ℕ → ℕ → Delivery → Bool
is_about_in j campaign_id session_id d = is_about j campaign_id d && d.session_id == session_id

is_about-lasting :
    (j : Installation) (campaign_id : ℕ) (d d' : Delivery)
    → IsSame d d'
    → is_about j campaign_id d' ≡ is_about j campaign_id d
is_about-lasting j campaign_id d d' h = rw (h.tenant, h.app, h.installation_id, h.campaign_id)

is_about_in-lasting :
    (j : Installation) (campaign_id session_id : ℕ) (d d' : Delivery)
    → IsSame d d'
    → is_about_in j campaign_id session_id d' ≡ is_about_in j campaign_id session_id d
is_about_in-lasting j campaign_id session_id d d' h =
    rw (h.tenant, h.app, h.installation_id, h.campaign_id, h.session_id)

-- The counts of the code are of the same deliveries.
count-is_shown :
    (i j : Installation) (campaign_id : ℕ) (ds : List Delivery)
    → i.tenant ≡ j.tenant
    → i.app ≡ j.app
    → i.id ≡ j.id
    → count_rows (λ d. is_about j campaign_id d && authorized_when (λ t. true) d) ds
      ≡ count_rows (is_shown i campaign_id) ds
count-is_shown i j campaign_id [] t a n = refl
count-is_shown i j campaign_id (d ∷ ds) t a n =
    ground (arith, count-is_shown i j campaign_id ds t a n)

none_in_session :
    (i j : Installation) (campaign_id session_id : ℕ) (ds : List Delivery)
    → i.tenant ≡ j.tenant
    → i.app ≡ j.app
    → i.id ≡ j.id
    → any (is_shown_in i campaign_id session_id) ds ≡ false
    → count_rows (λ d. is_about_in j campaign_id session_id d && authorized_when (λ t. true) d) ds
      ≡ 0
none_in_session i j campaign_id session_id [] t a n h = refl
none_in_session i j campaign_id session_id (d ∷ ds) t a n h =
    ground (arith, none_in_session i j campaign_id session_id ds t a n)

-- The checks behind which a campaign may be shown.
limits_of_showable :
    (day_start : String → ℕ → ℕ) (i : Installation) (supports_zone : Bool) (b : Decision)
    (clock : Clock) (c : Campaign) (s : Store)
    → is_showable day_start i supports_zone b clock c s ≡ true
    → (count_rows (is_shown i c.id) s.deliveries < c.config.max_total)
      × (any (is_shown_in i c.id b.session_id) s.deliveries ≡ false)
unfolding is_showable is_within_limits
limits_of_showable day_start i supports_zone b clock c s h = (ground arith, ground arith)

-- A new delivery is of its campaign and session.
new_columns :
    {day_start : String → ℕ → ℕ} (i : Installation) {supports_zone : Bool} (b : Decision)
    {clock : Clock} (c : Campaign) (d : Delivery) {r : Store}
    → IsReservation day_start i supports_zone b clock c d r
    → (d.tenant ≡ i.tenant)
      × (d.app ≡ i.app)
      × (d.installation_id ≡ i.id)
      × (d.campaign_id ≡ c.id)
      × (d.session_id ≡ b.session_id)
new_columns i b c d h =
    let (id, e) = h.made in
    (
      ap (λ x. x.tenant) e,
      ap (λ x. x.app) e,
      ap (λ x. x.installation_id) e,
      ap (λ x. x.campaign_id) e,
      ap (λ x. x.session_id) e,
    )

-- A new delivery of the kind is one of the same installation and campaign.
same_scope :
    {day_start : String → ℕ → ℕ} (i j : Installation) (campaign_id : ℕ) {supports_zone : Bool}
    (b : Decision) {clock : Clock} (c : Campaign) (d : Delivery) {r : Store}
    → IsReservation day_start i supports_zone b clock c d r
    → is_about j campaign_id d ≡ true
    → (i.tenant ≡ j.tenant)
      × (i.app ≡ j.app)
      × (i.id ≡ j.id)
      × (c.id ≡ campaign_id)
      × (is_campaign j.tenant j.app campaign_id c ≡ true)
same_scope i j campaign_id b c d k kind =
    let (t, a, n, p, _) = new_columns i b c d k in
    let live = k.live in (ground arith, ground arith, ground arith, ground arith, ground arith)

below_total :
    {day_start : String → ℕ → ℕ} (i j : Installation) (campaign_id limit : ℕ) {supports_zone : Bool}
    (b : Decision) {clock : Clock} (c : Campaign) (d : Delivery) {r : Store}
    → (is_campaign j.tenant j.app campaign_id c ≡ true → c.config.max_total ≤ limit)
    → IsReservation day_start i supports_zone b clock c d r
    → is_about j campaign_id d ≡ true
    → count_rows (λ x. is_about j campaign_id x && authorized_when (λ t. true) x) r.deliveries
      < limit
below_total {day_start} i j campaign_id limit {supports_zone} b {clock} c d {r} row k kind =
    let (t, a, n, e, hit) = same_scope i j campaign_id b c d k kind in
    let (below, _) = limits_of_showable day_start i supports_zone b clock c r k.showable in
    let less = subst (λ x. count_rows (is_shown i x) r.deliveries < c.config.max_total) e below in
    omega (arith, less, row hit, count-is_shown i j campaign_id r.deliveries t a n)

fresh_session :
    {day_start : String → ℕ → ℕ} (i j : Installation) (campaign_id session_id : ℕ)
    {supports_zone : Bool} (b : Decision) {clock : Clock} (c : Campaign) (d : Delivery) {r : Store}
    → IsReservation day_start i supports_zone b clock c d r
    → is_about_in j campaign_id session_id d ≡ true
    → count_rows
        (λ x. is_about_in j campaign_id session_id x && authorized_when (λ t. true) x)
        r.deliveries
      < 1
fresh_session {day_start} i j campaign_id session_id {supports_zone} b {clock} c d {r} k kind =
    let (about, session) = &&-true (is_about j campaign_id d) (d.session_id == session_id) kind in
    let (t, a, n, e, hit) = same_scope i j campaign_id b c d k about in
    let (_, _, _, _, same) = new_columns i b c d k in
    let (_, never) = limits_of_showable day_start i supports_zone b clock c r k.showable in
    let this : b.session_id ≡ session_id = ground arith in
    omega (
      arith,
      none_in_session i j campaign_id session_id r.deliveries t a n (
          subst (λ x. any (is_shown_in i campaign_id x) r.deliveries ≡ false) this
            (subst (λ x. any (is_shown_in i x b.session_id) r.deliveries ≡ false) e never)),
    )

-- Whatever requests are handled, no more deliveries of a campaign to an installation are authorized than every
-- row of the campaign allows in total, when no more are so or can be so before.
pub handle_all-max_total :
    (host : Host) (calls : List Call) (s : Store) (j : Installation) (campaign_id limit : ℕ)
    → IsSafe s.deliveries
    → All
        (λ c. is_campaign j.tenant j.app campaign_id c ≡ true → c.config.max_total ≤ limit)
        s.campaigns
    → count_rows (λ d. is_about j campaign_id d && is_spent d) s.deliveries ≤ limit
    → count_rows (is_shown j campaign_id) (handle_all host calls s).deliveries ≤ limit
handle_all-max_total host calls s j campaign_id limit safe rows before = omega (
  arith,
  handle_all-spent j (is_about j campaign_id) (λ d h. (&&-true _ _ h).0)
      (is_about-lasting j campaign_id)
      (λ c. is_campaign j.tenant j.app campaign_id c ≡ true → c.config.max_total ≤ limit) limit
      (λ day_start i supports_zone b clock c d r row k kind.
        below_total i j campaign_id limit b c d row k kind)
      host calls s safe rows before,
  shown-le-spent j (is_about j campaign_id) (λ d h. (&&-true _ _ h).0)
      (is_about-lasting j campaign_id) (handle_all host calls s).deliveries,
  count-is_shown j j campaign_id (handle_all host calls s).deliveries refl refl refl,
)

-- Whatever requests are handled, a campaign is authorized for an installation once at most in one session, when no
-- more deliveries of it are so or can be so before.
pub handle_all-session :
    (host : Host) (calls : List Call) (s : Store) (j : Installation) (campaign_id session_id : ℕ)
    → IsSafe s.deliveries
    → count_rows (λ d. is_about_in j campaign_id session_id d && is_spent d) s.deliveries ≤ 1
    → count_rows
        (λ d. is_about_in j campaign_id session_id d && is_spent d)
        (handle_all host calls s).deliveries
      ≤ 1
handle_all-session host calls s j campaign_id session_id safe before =
    handle_all-spent j (is_about_in j campaign_id session_id)
      (λ d h. (&&-true _ _ (&&-true _ _ h).0).0) (is_about_in-lasting j campaign_id session_id)
      (λ _. Unit {0}) 1
      (λ day_start i supports_zone b clock c d r _ k kind.
        fresh_session i j campaign_id session_id b c d k kind)
      host calls s safe (All-given s.campaigns) before
