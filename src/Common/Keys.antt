-- ===== src/Common/Keys.antt =====
-- Tables whose rows have a key of their own.
use Prim.Native.Nat.{ℕ}
use mathlib.Core.Path.{◌≡◌, sym, ap, ◌∙◌}
use mathlib.Core.Bool.{Bool, false}
use mathlib.Core.Logic.{inl, inr}
use mathlib.Core.List.{List, [], ◌∷◌, Memᴰ}
use native.Mathlib.Omega.{arith}
use nudgeon_platform.Common.Tests.{◌==◌, Bool-cases}
use nudgeon_platform.Common.Lists.{All}
use nudgeon_platform.Common.Rows.{All-mem, update_rows, All-update_rows_keep}

module _ {ℓ} {A : Type ℓ} (key : A → ℕ) where
  -- No two rows have a key in common.
  abbrev pub Keyed : List A → Type 0
  Keyed [] = Unit
  Keyed (x ∷ xs) = All (λ o. (key o == key x) ≡ false) xs × Keyed xs

  -- The row of a key is the only one.
  pub Keyed-unique :
      (xs : List A) (a b : A) → Keyed xs → Memᴰ a xs → Memᴰ b xs → key a ≡ key b → a ≡ b
  Keyed-unique [] a b h m n e = elim m [ ]
  Keyed-unique (x ∷ xs) a b (h, hs) (Memᴰ.head p) (Memᴰ.head q) e = p ∙ sym q
  Keyed-unique (x ∷ xs) a b (h, hs) (Memᴰ.tail m) (Memᴰ.tail n) e = Keyed-unique xs a b hs m n e
  Keyed-unique (x ∷ xs) a b (h, hs) (Memᴰ.head p) (Memᴰ.tail n) e =
      let apart : (key b == key x) ≡ false = All-mem (λ o. (key o == key x) ≡ false) xs h n in
      let same : key x ≡ key b = ap key (sym p) ∙ e in ground arith
  Keyed-unique (x ∷ xs) a b (h, hs) (Memᴰ.tail m) (Memᴰ.head q) e =
      let apart : (key a == key x) ≡ false = All-mem (λ o. (key o == key x) ≡ false) xs h m in
      let same : key x ≡ key a = ap key (sym q) ∙ sym e in ground arith

  pub Keyed-update_rows :
      (p : A → Bool) (f : A → A) (xs : List A)
      → ((x : A) → key (f x) ≡ key x)
      → Keyed xs
      → Keyed (update_rows p f xs)
  Keyed-update_rows p f [] keep h = tt
  Keyed-update_rows p f (x ∷ xs) keep (h, hs) =
      let others : All (λ o. (key o == key x) ≡ false) (update_rows p f xs) =
        All-update_rows_keep (λ o. (key o == key x) ≡ false) p f xs (λ o e. rw (keep o) e) h in
      elim (Bool-cases (p x)) [
        | inl hit ↦ rw (hit, keep x) (others, Keyed-update_rows p f xs keep hs)
        | inr miss ↦ rw miss (others, Keyed-update_rows p f xs keep hs)
      ]
