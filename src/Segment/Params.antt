-- ===== src/Segment/Params.antt =====
-- packages/segment-dsl/src/index.ts: the class `Params`, the whitelists, and the readers of an
-- `unknown` value. `Params` is the list of the values bound so far, which each step takes and returns.
use Prim.Native.String.{String}
use text.Mathlib.Text.{◌==◌ as str_eq}
use nudgeon_platform.Common.{
  Bool, true, false, List, [], ◌∷◌, ◌++◌, Option, none, some, if◌then◌else◌, any, Result, ok, err,
}
use nudgeon_platform.Segment.{
  Number, trunc, Value, boolean, number, string, array, items, AttributeOp, eq, neq, gt, gte, lt,
  lte, CompileError, not_scalar, not_array, element_type, not_number,
}

-- Code that binds values and can throw.
abbrev pub M : Type 0 → Type 0
M A = List Value → Result CompileError (A × List Value)

infixl 5 ◌>>=◌
unfoldable pub ◌>>=◌ : {A B : Type 0} → M A → (A → M B) → M B
◌>>=◌ m f p = elim (m p) [ ok (a, q) ↦ f a q | err e ↦ err e ]

unfoldable pub pure : {A : Type 0} → A → M A
pure a p = ok (a, p)

unfoldable pub throw : {A : Type 0} → CompileError → M A
throw e p = err e

unfoldable pub lift : {A : Type 0} → Result CompileError A → M A
lift (ok a) p = ok (a, p)
lift (err e) p = err e

-- `Params.add`.
unfoldable pub add : Value → M String
add v p = ok ("?", p ++ v ∷ [])

unfoldable pub add_all : List String → M (List String)
add_all [] = pure []
add_all (v ∷ vs) = do first ← add (string v); rest ← add_all vs; pure (first ∷ rest)

abbrev pub std_attr_keys : List String
std_attr_keys =
    "external_id" ∷ "first_name" ∷ "last_name" ∷ "email" ∷ "phone" ∷ "language" ∷ "country"
    ∷ "timezone" ∷ "created_at" ∷ "last_seen_at" ∷ "dob" ∷ "gender" ∷ "home_city" ∷ []

abbrev pub promoted_keys : List String
promoted_keys = "dob" ∷ "gender" ∷ "home_city" ∷ []

abbrev pub device_cols : List String
device_cols = "app_version" ∷ "os_version" ∷ []

abbrev pub platform_values : List String
platform_values = "ios" ∷ "android" ∷ []

abbrev pub has : List String → String → Bool
has set key = any (str_eq key) set

-- `CMP_OPS`.
unfoldable pub cmp_ops : AttributeOp → Option String
cmp_ops eq = some "="
cmp_ops neq = some "!="
cmp_ops gt = some ">"
cmp_ops gte = some ">="
cmp_ops lt = some "<"
cmp_ops lte = some "<="
cmp_ops _ = none

-- The value that is bound, and whether it is a number.
unfoldable pub scalar : Value → Result CompileError (Value × Bool)
scalar (string s) = ok (string s, false)
scalar (number n) = ok (number n, true)
scalar (boolean b) = ok (string (if b then "true" else "false"), false)
scalar _ = err not_scalar

unfoldable pub int_value : Value → Result CompileError Number
int_value (number n) = ok (trunc n)
int_value _ = err not_number

-- `String(n)` of a number is the language's: a parameter.
module _ (number_text : Number → String) where
  -- One step of the `map` in `arrayValues`.
  unfoldable pub element_text : Value → Result CompileError String
  element_text (string s) = ok s
  element_text (number n) = ok (number_text n)
  element_text (boolean b) = ok (if b then "true" else "false")
  element_text _ = err element_type

  unfoldable pub element_texts : List Value → Result CompileError (List String)
  element_texts [] = ok []
  element_texts (v ∷ vs) = elim (element_text v) [
    | ok text ↦ elim (element_texts vs) [ ok rest ↦ ok (text ∷ rest) | err e ↦ err e ]
    | err e ↦ err e
  ]

  unfoldable pub array_values : Value → Result CompileError (List String)
  array_values (array vs) = element_texts (items vs)
  array_values _ = err not_array
