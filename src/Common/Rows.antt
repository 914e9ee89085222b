-- ===== src/Common/Rows.antt =====
-- A table as a list of rows: what `SELECT … WHERE`, `UPDATE … WHERE` and a `rowCount` do with it.
use Prim.Native.Nat.{ℕ, suc, ◌+◌}
use mathlib.Core.Path.{◌≡◌, refl, sym, ap, subst, ◌∙◌}
use mathlib.Core.Logic.{inl, inr}
use mathlib.Core.Bool.{Bool, true, false}
use mathlib.Core.List.{List, [], ◌∷◌, Memᴰ}
use mathlib.Core.Option.{Option, none, some}
use native.Mathlib.Omega.{arith}
use nudgeon_platform.Common.Tests.{◌==◌, if◌then◌else◌, Bool-cases, &&-true}
use nudgeon_platform.Common.Lists.{All, any, all}

abbrev pub is_none {ℓ} : {A : Type ℓ} → Option A → Bool
is_none none = true
is_none (some a) = false

module _ {ℓ} {A : Type ℓ} where
  -- The first row that a condition keeps.
  abbrev pub first_row : (A → Bool) → List A → Option A
  first_row p [] = none
  first_row p (x ∷ xs) = if p x then some x else first_row p xs

  abbrev pub update_rows : (A → Bool) → (A → A) → List A → List A
  update_rows p f [] = []
  update_rows p f (x ∷ xs) = (if p x then f x else x) ∷ update_rows p f xs

  abbrev pub count_rows : (A → Bool) → List A → ℕ
  count_rows p [] = 0
  count_rows p (x ∷ xs) = let rest = count_rows p xs in if p x then suc rest else rest

  -- The row that is found is one of the table, and the condition holds of it.
  pub first_row-eq-some :
      (p : A → Bool) (xs : List A) {a : A} → first_row p xs ≡ some a → Memᴰ a xs × (p a ≡ true)
  first_row-eq-some p [] e = cc
  first_row-eq-some p (x ∷ xs) {a} e = elim (Bool-cases (p x)) [
    | inl hit ↦ let same : x ≡ a = ground arith in (Memᴰ.head (sym same), sym (ap p same) ∙ hit)
    | inr miss ↦
        let (found, holds) = first_row-eq-some p xs (rw miss at e) in (Memᴰ.tail found, holds)
  ]

  -- An update that makes its own condition fail leaves no row at which it holds.
  pub All-update_rows :
      (p : A → Bool) (f : A → A) (xs : List A)
      → ((a : A) → p (f a) ≡ false)
      → All (λ a. p a ≡ false) (update_rows p f xs)
  All-update_rows p f [] h = tt
  All-update_rows p f (x ∷ xs) h = elim (Bool-cases (p x)) [
    | inl hit ↦ rw hit (h x, All-update_rows p f xs h)
    | inr miss ↦ rw miss (miss, All-update_rows p f xs h)
  ]

  pub All-update_rows_keep {κ} :
      (P : A → Type κ) (p : A → Bool) (f : A → A) (xs : List A)
      → ((a : A) → P a → P (f a))
      → All P xs
      → All P (update_rows p f xs)
  All-update_rows_keep P p f [] keep h = tt
  All-update_rows_keep P p f (x ∷ xs) keep (h, hs) = elim (Bool-cases (p x)) [
    | inl hit ↦ rw hit (keep x h, All-update_rows_keep P p f xs keep hs)
    | inr miss ↦ rw miss (h, All-update_rows_keep P p f xs keep hs)
  ]

  -- What an update makes of a row of the table is a row of the new one.
  pub mem-update_rows :
      (p : A → Bool) (f : A → A) (xs : List A) {a : A}
      → Memᴰ a xs
      → Memᴰ (if p a then f a else a) (update_rows p f xs)
  mem-update_rows p f [] m = elim m [ ]
  mem-update_rows p f (x ∷ xs) (Memᴰ.head e) = Memᴰ.head (ap (λ b. if p b then f b else b) e)
  mem-update_rows p f (x ∷ xs) (Memᴰ.tail m) = Memᴰ.tail (mem-update_rows p f xs m)

  -- Rows that are counted are there.
  pub count_rows-pos :
      (p : A → Bool) (xs : List A)
      → (count_rows p xs == 0) ≡ false
      → (a : A) × Memᴰ a xs × (p a ≡ true)
  count_rows-pos p [] h = cc
  count_rows-pos p (x ∷ xs) h = elim (Bool-cases (p x)) [
    | inl hit ↦ (x, Memᴰ.head refl, hit)
    | inr miss ↦ let (a, m, holds) = count_rows-pos p xs (rw miss at h) in (a, Memᴰ.tail m, holds)
  ]

  pub any-false : (p : A → Bool) (xs : List A) → any p xs ≡ false → All (λ a. p a ≡ false) xs
  any-false p [] h = tt
  any-false p (x ∷ xs) h = elim (Bool-cases (p x)) [
    | inl hit ↦ cc
    | inr miss ↦ (miss, any-false p xs (rw miss at h))
  ]

  pub All-mem {κ} : (P : A → Type κ) (xs : List A) {a : A} → All P xs → Memᴰ a xs → P a
  All-mem P [] _ m = elim m [ ]
  All-mem P (x ∷ xs) (h, hs) (Memᴰ.head e) = subst P (sym e) h
  All-mem P (x ∷ xs) (h, hs) (Memᴰ.tail m) = All-mem P xs hs m

pub is_none-none {ℓ} : {A : Type ℓ} (o : Option A) → is_none o ≡ true → o ≡ none
is_none-none none h = refl
is_none-none (some a) h = cc

module _ {ℓ} {A : Type ℓ} where
  -- The first row of a condition that the update keeps is updated where it stands.
  pub first_row-update_rows :
      (p : A → Bool) (f : A → A) (xs : List A) {a : A}
      → ((b : A) → p b ≡ true → p (f b) ≡ true)
      → first_row p xs ≡ some a
      → first_row p (update_rows p f xs) ≡ some (f a)
  first_row-update_rows p f [] keep e = cc
  first_row-update_rows p f (x ∷ xs) {a} keep e = elim (Bool-cases (p x)) [
    | inl hit ↦ let same : x ≡ a = ground arith in rw (hit, keep x hit) (ap (λ b. some (f b)) same)
    | inr miss ↦ rw (miss, miss) (first_row-update_rows p f xs keep (rw miss at e))
  ]

  -- The rows at which `q` fails after an update of some of those at which it holds.
  pub count_rows-update_rows :
      (p q : A → Bool) (f : A → A) (xs : List A)
      → ((a : A) → p a ≡ true → q a ≡ true)
      → ((a : A) → q (f a) ≡ false)
      → count_rows q (update_rows p f xs) + count_rows p xs ≡ count_rows q xs
  count_rows-update_rows p q f [] within off = omega arith
  count_rows-update_rows p q f (x ∷ xs) within off =
      let rest = count_rows-update_rows p q f xs within off in
      elim (Bool-cases (p x)) [
        | inl hit ↦ rw (hit, off x, within x hit) (omega (arith, rest))
        | inr miss ↦ elim (Bool-cases (q x)) [
          | inl on ↦ rw (miss, on) (omega (arith, rest))
          | inr out ↦ rw (miss, out) (omega (arith, rest))
        ]
      ]

module _ {ℓ} {A : Type ℓ} where
  pub any_mem : (p : A → Bool) (xs : List A) → any p xs ≡ true → (a : A) × Memᴰ a xs × (p a ≡ true)
  any_mem p [] h = cc
  any_mem p (x ∷ xs) h = elim (Bool-cases (p x)) [
    | inl hit ↦ (x, Memᴰ.head refl, hit)
    | inr miss ↦ let (a, m, holds) = any_mem p xs (rw miss at h) in (a, Memᴰ.tail m, holds)
  ]

  pub all_mem : (p : A → Bool) (xs : List A) {a : A} → all p xs ≡ true → Memᴰ a xs → p a ≡ true
  all_mem p [] h m = elim m [ ]
  all_mem p (x ∷ xs) h (Memᴰ.head e) = ap p e ∙ (&&-true (p x) (all p xs) h).0
  all_mem p (x ∷ xs) h (Memᴰ.tail m) = all_mem p xs (&&-true (p x) (all p xs) h).1 m
