-- ===== src/Common/Texts.antt =====
-- Texts: template literals, `join`, the decimal text of a number, and how often a character occurs.
use Prim.Native.Nat.{ℕ, zero, suc, ◌+◌, ◌/◌, ◌%◌}
use Prim.Native.Char.{code}
use Prim.Native.String.{String}
use Prim.Native.String
use mathlib.Core.Path.{◌≡◌, refl}
use mathlib.Core.List.{List, [], ◌∷◌}
use native.Mathlib.Omega.{arith}
use text.Mathlib.TextLemmas.{nil-append, cons-append}
use nudgeon_platform.Common.Tests.{◌==◌, if◌then◌else◌}

-- A template literal: its parts, one after the other.
unfoldable pub template : List String → String
template [] = ""
template (x ∷ xs) = String.◌++◌ x (template xs)

-- `parts.join(separator)`.
unfoldable pub join : String → List String → String
join separator [] = ""
join separator (x ∷ []) = x
join separator (x ∷ (y ∷ rest)) = String.◌++◌ x (String.◌++◌ separator (join separator (y ∷ rest)))

abbrev pub digit : ℕ → String
digit zero = "0"
digit (suc zero) = "1"
digit (suc (suc zero)) = "2"
digit (suc (suc (suc zero))) = "3"
digit (suc (suc (suc (suc zero)))) = "4"
digit (suc (suc (suc (suc (suc zero))))) = "5"
digit (suc (suc (suc (suc (suc (suc zero)))))) = "6"
digit (suc (suc (suc (suc (suc (suc (suc zero))))))) = "7"
digit (suc (suc (suc (suc (suc (suc (suc (suc zero)))))))) = "8"
digit _ = "9"

-- A number has at most as many digits as its value and one more.
unfoldable pub decimal_from : ℕ → ℕ → String
decimal_from zero n = digit (n % 10)
decimal_from (suc fuel) n =
    let more = decimal_from fuel (n / 10) in
    if n / 10 == 0 then digit n else String.◌++◌ more (digit (n % 10))

-- `String(n)` of a natural number.
unfoldable pub decimal : ℕ → String
unfolding decimal_from
decimal n = decimal_from n n

decimal_lem : decimal 2048 ≡ "2048"
unfolding decimal
decimal_lem = refl

-- How often the character with the code `c` stands in a text.
unfoldable pub occurrences : ℕ → String → ℕ
occurrences c String.[] = 0
occurrences c (String.◌∷◌ x s) = (if code x == c then 1 else 0) + occurrences c s

pub occurrences-append :
    (c : ℕ) (s t : String) → occurrences c (String.◌++◌ s t) ≡ occurrences c s + occurrences c t
unfolding occurrences
occurrences-append c String.[] t = rw nil-append (omega arith)
occurrences-append c (String.◌∷◌ x s) t = rw cons-append (omega (arith, occurrences-append c s t))

-- The same over several texts.
abbrev pub occurrences_in : ℕ → List String → ℕ
occurrences_in c [] = 0
occurrences_in c (x ∷ xs) = occurrences c x + occurrences_in c xs

pub occurrences-template :
    (c : ℕ) (parts : List String) → occurrences c (template parts) ≡ occurrences_in c parts
unfolding template occurrences
occurrences-template c [] = refl
occurrences-template c (x ∷ xs) =
    omega (arith, occurrences-append c x (template xs), occurrences-template c xs)

-- A separator without the character adds none.
pub occurrences-join :
    (c : ℕ) (separator : String) (parts : List String)
    → occurrences c separator ≡ 0
    → occurrences c (join separator parts) ≡ occurrences_in c parts
unfolding join occurrences
occurrences-join c separator [] h = refl
occurrences-join c separator (x ∷ []) h = omega arith
occurrences-join c separator (x ∷ (y ∷ rest)) h = omega (
  arith,
  occurrences-append c x (String.◌++◌ separator (join separator (y ∷ rest))),
  occurrences-append c separator (join separator (y ∷ rest)),
  occurrences-join c separator (y ∷ rest) h,
)
