-- ===== src/InApp/Progress.antt =====
-- How the deliveries of apps/api/src/in-app/delivery.service.ts may change: the diagram of their states, and
-- lists of deliveries that follow it.
use nudgeon_platform.Common.{
  ℕ, ◌≤◌, ◌≡◌, refl, sym, subst, inl, inr, Bool, true, false, not, List, [], ◌∷◌, some, Memᴰ, arith,
  Bool-cases, ◌==◌, All, is_none, count_rows, update_rows, Keyed,
}
use nudgeon_platform.InApp.{reserved, authorized, presented, Delivery}
use nudgeon_platform.InApp.Decision.{is_open}

-- A delivery is granted its display when it is reserved, is shown when it is authorized, and is closed when
-- it is open. `authorized_at` is set by the grant alone.
pub data Moves (d d' : Delivery) : Type 0 where
  stay : d'.state ≡ d.state → d'.authorized_at ≡ d.authorized_at → Moves d d'
  grant :
      (at : ℕ)
      → d.state ≡ reserved
      → d'.state ≡ authorized
      → d'.authorized_at ≡ some at
      → Moves d d'
  show :
      d.state ≡ authorized → d'.state ≡ presented → d'.authorized_at ≡ d.authorized_at → Moves d d'
  close :
      is_open d.state ≡ true
      → is_open d'.state ≡ false
      → d'.authorized_at ≡ d.authorized_at
      → Moves d d'

-- The columns that no request writes.
pub record IsSame (d d' : Delivery) : Type 0 where
  pub id : d'.id ≡ d.id
  pub tenant : d'.tenant ≡ d.tenant
  pub app : d'.app ≡ d.app
  pub installation_id : d'.installation_id ≡ d.installation_id
  pub campaign_id : d'.campaign_id ≡ d.campaign_id
  pub version : d'.version ≡ d.version
  pub request_key : d'.request_key ≡ d.request_key
  pub session_id : d'.session_id ≡ d.session_id

pub record Advance (d d' : Delivery) : Type 0 where
  pub same : IsSame d d'
  pub moved : Moves d d'

pub Advance-refl : (d : Delivery) → Advance d d
Advance-refl d = record {
  same = record {
    id = refl;
    tenant = refl;
    app = refl;
    installation_id = refl;
    campaign_id = refl;
    version = refl;
    request_key = refl;
    session_id = refl;
  };
  moved = stay refl refl;
}

-- Row by row.
pub data Evolves : List Delivery → List Delivery → Type 0 where
  nil : Evolves [] []
  cons :
      {d d' : Delivery} {ds ds' : List Delivery}
      → Advance d d'
      → Evolves ds ds'
      → Evolves (d ∷ ds) (d' ∷ ds')

pub Evolves-refl : (ds : List Delivery) → Evolves ds ds
Evolves-refl [] = nil
Evolves-refl (d ∷ ds) = cons (Advance-refl d) (Evolves-refl ds)

pub Evolves-update_rows :
    (p : Delivery → Bool) (f : Delivery → Delivery) (ds : List Delivery)
    → ((d : Delivery) → Memᴰ d ds → p d ≡ true → Advance d (f d))
    → Evolves ds (update_rows p f ds)
Evolves-update_rows p f [] h = nil
Evolves-update_rows p f (d ∷ ds) h =
    let rest = Evolves-update_rows p f ds (λ x m e. h x (Memᴰ.tail m) e) in
    elim (Bool-cases (p d)) [
      | inl hit ↦ rw hit (cons (h d (Memᴰ.head refl) hit) rest)
      | inr miss ↦ rw miss (cons (Advance-refl d) rest)
    ]

-- What a row may not become where it was not, is counted no more often.
pub count_rows-Evolves :
    (q : Delivery → Bool) {ds ds' : List Delivery}
    → ((d d' : Delivery) → Advance d d' → q d' ≡ true → q d ≡ true)
    → Evolves ds ds'
    → count_rows q ds' ≤ count_rows q ds
count_rows-Evolves q back nil = omega arith
count_rows-Evolves q back (cons {d} {d'} {ds} {ds'} a rest) =
    let fewer : count_rows q ds' ≤ count_rows q ds = count_rows-Evolves q back rest in
    elim (Bool-cases (q d')) [
      | inl hit ↦ rw (hit, back d d' a hit) (omega arith)
      | inr miss ↦ elim (Bool-cases (q d)) [
        | inl was ↦ rw (miss, was) (omega arith)
        | inr never ↦ rw (miss, never) (omega arith)
      ]
    ]

-- A delivery was authorized at some time exactly if it is authorized or presented, as long as it is open.
abbrev pub is_stamped : Delivery → Bool
is_stamped d = elim d.state [
  | reserved ↦ is_none d.authorized_at
  | authorized ↦ not (is_none d.authorized_at)
  | presented ↦ not (is_none d.authorized_at)
  | _ ↦ true
]

pub Advance-is_stamped :
    (d d' : Delivery) → Advance d d' → is_stamped d ≡ true → is_stamped d' ≡ true
Advance-is_stamped d d' a h = moved a.moved
  where
    moved : Moves d d' → is_stamped d' ≡ true
    moved (stay s t) = ground arith
    moved (grant at r s t) = ground arith
    moved (show r s t) = ground arith
    moved (close o c t) = ground arith

pub All-Evolves {κ} :
    (P : Delivery → Type κ) {ds ds' : List Delivery}
    → ((d d' : Delivery) → Advance d d' → P d → P d')
    → Evolves ds ds'
    → All P ds
    → All P ds'
All-Evolves P keep nil h = tt
All-Evolves P keep (cons {d} {d'} a rest) (h, hs) = (keep d d' a h, All-Evolves P keep rest hs)

pub Keyed-Evolves :
    {ds ds' : List Delivery}
    → Evolves ds ds'
    → Keyed (λ (d : Delivery). d.id) ds
    → Keyed (λ (d : Delivery). d.id) ds'
Keyed-Evolves nil h = tt
Keyed-Evolves (cons {d} {d'} {ds} {ds'} a rest) (h, hs) = (
  All-Evolves (λ o. (o.id == d'.id) ≡ false) (λ o o' b e. rw (b.same.id) e) rest
      (subst (λ k. All (λ o. (o.id == k) ≡ false) ds) (sym a.same.id) h),
  Keyed-Evolves rest hs,
)
