-- ===== src/Journey/Topology/Unique.antt =====
-- Lists without repetition, up to a Boolean equality, and the lists of issues that are empty.
use Prim.Native.String.{String}
use text.Mathlib.Text.{◌==◌ as str_eq}
use nudgeon_platform.Common.{
  ◌≡◌, refl, ap, ◌∙◌, ◌↔◌, Bool, true, false, not, ◌&&◌, List, [], ◌∷◌, ◌++◌, Memᴰ, arith, any, all,
  &&-true,
}
use nudgeon_platform.Journey.Digraph.Counts.{distinct}

module _ {ℓ} {A : Type ℓ} where
  abbrev pub is_nil : List A → Bool
  is_nil [] = true
  is_nil (x ∷ xs) = false

  pub is_nil_iff : (xs : List A) → (is_nil xs ≡ true) ↔ (xs ≡ [])
  is_nil_iff [] = (λ h. refl, λ h. refl)
  is_nil_iff (x ∷ xs) = (λ h. cc, λ h. ap is_nil h)

  pub is_nil-append : (xs ys : List A) → is_nil (xs ++ ys) ≡ (is_nil xs && is_nil ys)
  is_nil-append [] ys = refl
  is_nil-append (x ∷ xs) ys = refl

  -- A test that holds of all elements, as a statement on the members.
  pub all_iff :
      (p : A → Bool) (xs : List A) → (all p xs ≡ true) ↔ ((x : A) → Memᴰ x xs → p x ≡ true)
  all_iff p xs = (given xs, shown xs)
    where
      given : (xs : List A) → all p xs ≡ true → (x : A) → Memᴰ x xs → p x ≡ true
      given [] h x m = elim m [ ]
      given (y ∷ xs) h x (Memᴰ.head e) = ap p e ∙ (&&-true (p y) (all p xs) h).0
      given (y ∷ xs) h x (Memᴰ.tail m) = given xs (&&-true (p y) (all p xs) h).1 x m

      shown : (xs : List A) → ((x : A) → Memᴰ x xs → p x ≡ true) → all p xs ≡ true
      shown [] h = refl
      shown (y ∷ xs) h = rw (h y (Memᴰ.head refl)) (shown xs (λ x m. h x (Memᴰ.tail m)))

module _ {ℓ} {A : Type ℓ} (eq : A → A → Bool) where
  abbrev pub listed : List A → A → Bool
  listed xs v = any (λ x. eq x v) xs

  abbrev pub unique : List A → Bool
  unique [] = true
  unique (x ∷ xs) = not (listed xs x) && unique xs

  abbrev pub separate : List A → List A → Bool
  separate seen xs = all (λ x. not (listed seen x)) xs

  module _ (commutes : (a b : A) → eq a b ≡ eq b a) where
    pub separate-cons :
        (x : A) (seen xs : List A)
        → separate (x ∷ seen) xs ≡ (not (listed xs x) && separate seen xs)
    separate-cons x seen [] = refl
    separate-cons x seen (y ∷ xs) = ground (arith, separate-cons x seen xs, commutes x y)

    listed-snoc : (x v : A) (seen : List A) → listed (seen ++ x ∷ []) v ≡ listed (x ∷ seen) v
    listed-snoc x v [] = refl
    listed-snoc x v (y ∷ seen) = ground (arith, listed-snoc x v seen)

    pub separate-snoc :
        (x : A) (seen xs : List A)
        → separate (seen ++ x ∷ []) xs ≡ (not (listed xs x) && separate seen xs)
    separate-snoc x seen [] = refl
    separate-snoc x seen (y ∷ xs) =
        ground (arith, separate-snoc x seen xs, listed-snoc x y seen, commutes x y)

pub separate_nil {ℓ} : {A : Type ℓ} (eq : A → A → Bool) (xs : List A) → separate eq [] xs ≡ true
separate_nil eq [] = refl
separate_nil eq (x ∷ xs) = separate_nil eq xs

pub unique-distinct : (xs : List String) → unique str_eq xs ≡ distinct xs
unique-distinct [] = refl
unique-distinct (x ∷ xs) = rw (unique-distinct xs) refl
