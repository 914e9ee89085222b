-- ===== src/Accounts/Members/Laws.antt =====
-- The operations of apps/api/src/members/members.service.ts in any order: a member is updated by its key.
use nudgeon_platform.Common.{
  ℕ, ◌≡◌, sym, ap, ◌∙◌, ◌⊎◌, inl, inr, Bool, true, false, not, ◌&&◌, List, [], ◌∷◌, Option, none,
  some, ◌==◌, if◌then◌else◌, arith, Bool-cases, All, Memᴰ, first_row, update_rows, count_rows,
  first_row-eq-some, All-update_rows_keep, mem-update_rows, count_rows-pos, All-mem, &&-true, ok,
  err,
}
use nudgeon_platform.Accounts.{Member, Store}
use nudgeon_platform.Accounts.Sessions.{is_active}
use nudgeon_platform.Accounts.Members.{
  assert_not_last_owner, last_owner, found_or_missing, keeps_an_owner, is_owner, is_target,
  is_active_owner, is_other_owner, lock_member,
}

-- The primary key of the members: no two rows have an id in common.
abbrev pub Keyed : List Member → Type 0
Keyed [] = Unit
Keyed (m ∷ ms) = All (λ o. (o.id == m.id) ≡ false) ms × Keyed ms

-- An active owner of the tenant is listed.
abbrev pub HasOwner : ℕ → List Member → Type 0
HasOwner tenant_id ms = (m : Member) × Memᴰ m ms × (is_active_owner tenant_id m ≡ true)

pub Keyed-update_rows :
    (p : Member → Bool) (f : Member → Member) (ms : List Member)
    → ((m : Member) → (f m).id ≡ m.id)
    → Keyed ms
    → Keyed (update_rows p f ms)
Keyed-update_rows p f [] keep h = tt
Keyed-update_rows p f (m ∷ ms) keep (h, hs) =
    let others : All (λ o. (o.id == m.id) ≡ false) (update_rows p f ms) =
      All-update_rows_keep (λ o. (o.id == m.id) ≡ false) p f ms (λ o e. rw (keep o) e) h in
    elim (Bool-cases (p m)) [
      | inl hit ↦ rw (hit, keep m) (others, Keyed-update_rows p f ms keep hs)
      | inr miss ↦ rw miss (others, Keyed-update_rows p f ms keep hs)
    ]

==_refl : (a : ℕ) → (a == a) ≡ true
==_refl a = ground arith

-- The row of an id is the only one.
pub Keyed-unique :
    (ms : List Member) (a b : Member) → Keyed ms → Memᴰ a ms → Memᴰ b ms → a.id ≡ b.id → a ≡ b
Keyed-unique [] a b h m n e = elim m [ ]
Keyed-unique (x ∷ xs) a b (h, hs) (Memᴰ.head p) (Memᴰ.head q) e = p ∙ sym q
Keyed-unique (x ∷ xs) a b (h, hs) (Memᴰ.tail m) (Memᴰ.tail n) e = Keyed-unique xs a b hs m n e
Keyed-unique (x ∷ xs) a b (h, hs) (Memᴰ.head p) (Memᴰ.tail n) e =
    let apart : (b.id == x.id) ≡ false = All-mem (λ o. (o.id == x.id) ≡ false) xs h n in
    let same : x.id ≡ b.id = ap (λ o. o.id) (sym p) ∙ e in ground arith
Keyed-unique (x ∷ xs) a b (h, hs) (Memᴰ.tail m) (Memᴰ.head q) e =
    let apart : (a.id == x.id) ≡ false = All-mem (λ o. (o.id == x.id) ≡ false) xs h m in
    let same : x.id ≡ a.id = ap (λ o. o.id) (sym q) ∙ sym e in ground arith

-- An update of one member leaves the tenant an owner, when it makes an owner of the row again or another
-- owner stays.
pub HasOwner-update_rows :
    (tenant_id : ℕ) (p : Member → Bool) (f : Member → Member) (ms : List Member)
    → HasOwner tenant_id ms
    → ((m : Member)
        → Memᴰ m ms
        → p m ≡ true
        → is_active_owner tenant_id m ≡ true
        → (is_active_owner tenant_id (f m) ≡ true)
          ⊎ ((o : Member) × Memᴰ o ms × (is_active_owner tenant_id o ≡ true) × (p o ≡ false)))
    → HasOwner tenant_id (update_rows p f ms)
HasOwner-update_rows tenant_id p f ms (m, listed, owns) choice =
    let moved : Memᴰ (if p m then f m else m) (update_rows p f ms) =
      mem-update_rows p f ms listed in
    elim (Bool-cases (p m)) [
      | inr miss ↦ (m, rw miss at moved, owns)
      | inl hit ↦ elim (choice m listed hit owns) [
        | inl again ↦ (f m, rw hit at moved, again)
        | inr (o, there, stays, apart) ↦
            let kept : Memᴰ (if p o then f o else o) (update_rows p f ms) =
              mem-update_rows p f ms there in
            (o, rw apart at kept, stays)
      ]
    ]

found_or_missing-eq-ok : (o : Option Member) (m : Member) → found_or_missing o ≡ ok m → o ≡ some m
found_or_missing-eq-ok none m e = cc
found_or_missing-eq-ok (some a) m e = ground arith

-- The row that is locked is the row of its id.
pub lock_member-eq-ok :
    (tenant_id target_id : ℕ) (s : Store) (target m : Member)
    → lock_member tenant_id target_id s ≡ ok target
    → Keyed s.members
    → Memᴰ m s.members
    → is_target tenant_id target_id m ≡ true
    → target ≡ m
unfolding lock_member
lock_member-eq-ok tenant_id target_id s target m e keyed listed hit =
    let (there, chosen) =
      first_row-eq-some (is_target tenant_id target_id) s.members
        (found_or_missing-eq-ok (first_row (is_target tenant_id target_id) s.members) target e) in
    let (_, same_target) =
      &&-true (target.tenant_id == tenant_id) (target.id == target_id) chosen in
    let (_, same_m) = &&-true (m.tenant_id == tenant_id) (m.id == target_id) hit in
    Keyed-unique s.members target m keyed there listed (ground arith)

-- When the check for another owner is made and passed, there is one.
pub keeps_an_owner-eq-ok :
    (leaves : Bool) (tenant_id target_id : ℕ) (s : Store) (u : Unit {0})
    → keeps_an_owner leaves tenant_id target_id s ≡ ok u
    → leaves ≡ true
    → (o : Member) × Memᴰ o s.members
      × (is_active_owner tenant_id o ≡ true)
      × (is_target tenant_id target_id o ≡ false)
unfolding keeps_an_owner assert_not_last_owner
keeps_an_owner-eq-ok leaves tenant_id target_id s u e h =
    elim (Bool-cases (count_rows (is_other_owner tenant_id target_id) s.members == 0)) [
      | inl none_left ↦ let refused : err last_owner ≡ ok u = rw (h, none_left) at e in cc
      | inr some_left ↦
          let (o, there, both) =
            count_rows-pos (is_other_owner tenant_id target_id) s.members some_left in
          let (owns, apart) =
            &&-true (is_active_owner tenant_id o) (not (o.id == target_id)) both in
          (o, there, owns, ground arith)
    ]

-- Of a row that is both the target and an active owner: the tenants agree, and it is an owner and active.
pub owner_parts :
    (tid tenant_id target_id : ℕ) (m : Member)
    → is_target tenant_id target_id m ≡ true
    → is_active_owner tid m ≡ true
    → (tenant_id ≡ tid)
      × ((m.tenant_id == tid) ≡ true)
      × (is_owner m.role ≡ true)
      × (is_active m.status ≡ true)
owner_parts tid tenant_id target_id m hit owns =
    let (same, _) = &&-true (m.tenant_id == tenant_id) (m.id == target_id) hit in
    let (mine, rest) = &&-true (m.tenant_id == tid) (is_owner m.role && is_active m.status) owns in
    let (owned, on) = &&-true (is_owner m.role) (is_active m.status) rest in
    (ground arith, mine, owned, on)
