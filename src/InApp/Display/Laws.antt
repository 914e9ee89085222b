-- ===== src/InApp/Display/Laws.antt =====
-- What `authorize` and `status` of apps/api/src/in-app/delivery.service.ts answer.
use nudgeon_platform.Common.{
  ℕ, ◌+◌, ◌≤◌, ◌<◌, ◌≡◌, ◌↔◌, ◌⊎◌, refl, sym, subst, inl, inr, true, none, some, arith, Bool-cases,
  Option-cases, any, first_row-update_rows, Result, ok, err-ne-ok, ok-injective,
}
use nudgeon_platform.InApp.{Campaign, Delivery, reserved, authorized, Store, InAppError, Clock}
use nudgeon_platform.InApp.Decision.{is_active_device, is_published}
use nudgeon_platform.InApp.Access.{Installation, settle}
use nudgeon_platform.InApp.Display.{
  find_delivery, campaign_of, may_authorize, is_delivery, least, grant, update_delivery,
  authorize_found, authorize, DeliveryStatus, status_of, status,
}

-- The row of the delivery is authorized now, until `expires_at`.
pub record IsGranted (i : Installation) (id : ℕ) (clock : Clock) (s : Store) (expires_at : ℕ)
    : Type 0 where
  pub row : Delivery
  pub there : find_delivery i id s ≡ some row
  pub state : row.state ≡ authorized
  pub stamp : row.authorized_at ≡ some clock.sql
  pub ends : row.expires_at ≡ expires_at

-- What has to be so when a display is granted until `expires_at`, and what is so in the store `s'` behind it.
pub record IsGrantable (i : Installation) (id : ℕ) (clock : Clock) (s s' : Store) (expires_at : ℕ)
    : Type 0 where
  pub active : any (is_active_device i) s.installations ≡ true
  pub delivery : Delivery
  pub campaign : Campaign
  pub found : find_delivery i id s ≡ some delivery
  pub at : campaign_of i delivery s ≡ some campaign
  pub published : is_published campaign.state ≡ true
  pub version : campaign.version ≡ delivery.version
  pub started : campaign.config.starts_at ≤ clock.js
  pub running : clock.js < campaign.config.ends_at
  pub waiting : clock.js < delivery.expires_at
  pub until :
      ((delivery.state ≡ authorized) × (expires_at ≡ delivery.expires_at) × (s' ≡ s))
      ⊎ ((delivery.state ≡ reserved)
          × (expires_at ≤ campaign.config.ends_at)
          × (expires_at ≤ clock.sql + 300000)
          × IsGranted i id clock s' expires_at)

grant_conditions :
    (now : ℕ) (c : Campaign) (d : Delivery)
    → may_authorize now c d ≡ true
    → (is_published c.state ≡ true)
      × (c.version ≡ d.version)
      × (c.config.starts_at ≤ now)
      × (now < c.config.ends_at)
      × (now < d.expires_at)
      × ((d.state ≡ authorized) ⊎ (d.state ≡ reserved))
unfolding may_authorize
grant_conditions now c d h =
    (ground arith, ground arith, ground arith, ground arith, ground arith, ground arith)

-- What is granted anew is what the row holds.
IsGranted-now :
    (i : Installation) (id : ℕ) (clock : Clock) (c : Campaign) (d : Delivery) (s : Store)
    → find_delivery i id s ≡ some d
    → IsGranted i id clock
        (update_delivery i id (grant clock.sql c.config.ends_at) s)
        (least (clock.sql + 300000) c.config.ends_at)
unfolding find_delivery update_delivery
IsGranted-now i id clock c d s found = record {
  row = grant clock.sql c.config.ends_at d;
  there =
      first_row-update_rows (is_delivery i id) (grant clock.sql c.config.ends_at) s.deliveries
        (λ b hit. hit) found;
  state = refl;
  stamp = refl;
  ends = refl;
}

-- How long what is granted lasts, and the store behind it.
abbrev IsLasting :
    Installation
    → ℕ
    → Clock
    → Campaign
    → Delivery
    → Store
    → Store × Result InAppError ℕ
    → ℕ
    → Type 0
IsLasting i id clock c d s after expires_at =
    after.1 ≡ ok expires_at
    → ((d.state ≡ authorized) × (expires_at ≡ d.expires_at) × (after.0 ≡ s))
      ⊎ ((d.state ≡ reserved)
          × (expires_at ≤ c.config.ends_at)
          × (expires_at ≤ clock.sql + 300000)
          × IsGranted i id clock after.0 expires_at)

granted_until :
    (i : Installation) (id : ℕ) (clock : Clock) (c : Campaign) (d : Delivery) (s : Store)
    (expires_at : ℕ)
    → find_delivery i id s ≡ some d
    → may_authorize clock.js c d ≡ true
    → (d.state ≡ authorized) ⊎ (d.state ≡ reserved)
    → IsLasting i id clock c d s (settle s (authorize_found i id clock (some c) d s)) expires_at
granted_until i id clock c d s expires_at found may (inl already) =
    rw (may, already) (λ h. inl (refl, ok-injective refl (sym h), refl))
granted_until i id clock c d s expires_at found may (inr first) =
    rw (may, first)
      (λ h.
        let last : least (clock.sql + 300000) c.config.ends_at ≡ expires_at = ok-injective refl h in
        inr (
          refl,
          ground arith,
          ground arith,
          subst (IsGranted i id clock (update_delivery i id (grant clock.sql c.config.ends_at) s))
              last (IsGranted-now i id clock c d s found),
        ))

-- An authorization that is answered was due: the installation is not revoked, the campaign is published in the
-- version of the delivery and runs, the delivery has not expired and is reserved or was authorized before, and
-- the row of what is granted anew is authorized at this time, until the answer, which is within five minutes and
-- not after the campaign. What was authorized before keeps its row and is answered the same.
pub authorize-IsGrantable :
    (i : Installation) (id : ℕ) (clock : Clock) (s : Store) (expires_at : ℕ)
    → (authorize i id clock s).1 ≡ ok expires_at
    → IsGrantable i id clock s (authorize i id clock s).0 expires_at
unfolding authorize
authorize-IsGrantable i id clock s expires_at h =
    elim (Bool-cases (any (is_active_device i) s.installations)) [
      | inr gone ↦ absurd (err-ne-ok (rw gone at h))
      | inl active ↦ elim (Option-cases (find_delivery i id s)) [
        | inl missing ↦ absurd (err-ne-ok (rw (active, missing) at h))
        | inr (d, found) ↦ elim (Option-cases (campaign_of i d s)) [
          | inl missing ↦ absurd (err-ne-ok (rw (active, found, missing) at h))
          | inr (c, at) ↦ elim (Bool-cases (may_authorize clock.js c d)) [
            | inr refused ↦ absurd (err-ne-ok (rw (active, found, at, refused) at h))
            | inl may ↦
                let (published, version, started, running, waiting, state) =
                  grant_conditions clock.js c d may in
                record {
                  active = active;
                  delivery = d;
                  campaign = c;
                  found = found;
                  at = at;
                  published = published;
                  version = version;
                  started = started;
                  running = running;
                  waiting = waiting;
                  until =
                      rw (active, found, at)
                        (granted_until i id clock c d s expires_at found may state
                          (rw (active, found, at) at h));
                }
          ]
        ]
      ]
    ]

status_iff_at :
    (now : ℕ) (c : Campaign) (d : Delivery)
    → ((status_of now c d).active ≡ true) ↔ ((status_of now c d).reason ≡ none)
status_iff_at now c d = (λ h. ground arith, λ h. ground arith)

-- The two answers of `status` agree: a delivery is active exactly if there is no reason that it is not.
pub status_iff :
    (i : Installation) (id now : ℕ) (s : Store) (r : DeliveryStatus)
    → status i id now s ≡ ok r
    → (r.active ≡ true) ↔ (r.reason ≡ none)
unfolding status
status_iff i id now s r h = elim (Option-cases (find_delivery i id s)) [
  | inl missing ↦ absurd (err-ne-ok (rw missing at h))
  | inr (d, found) ↦ elim (Option-cases (campaign_of i d s)) [
    | inl missing ↦ absurd (err-ne-ok (rw (found, missing) at h))
    | inr (c, at) ↦
        subst (λ x. (x.active ≡ true) ↔ (x.reason ≡ none)) (ok-injective refl (rw (found, at) at h))
          (status_iff_at now c d)
  ]
]
