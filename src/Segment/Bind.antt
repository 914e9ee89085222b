-- ===== src/Segment/Bind.antt =====
-- packages/segment-dsl/src/index.ts: `toClickHouse`, from places `?` to named parameters.
pub mod Laws
use Prim.Native.Char.{code}
use Prim.Native.String.{String}
use Prim.Native.String
use nudgeon_platform.Common.{
  ℕ, zero, suc, Bool, List, [], ◌∷◌, ◌++◌, ◌==◌, if◌then◌else◌, Result, ok, err, template, length,
  decimal,
}
use nudgeon_platform.Segment.{
  is_integer, Value, undefined, number, Compiled, CompileError, placeholder_mismatch,
}

-- `args[i]`.
abbrev pub arg_at : List Value → ℕ → Value
arg_at [] i = undefined
arg_at (v ∷ vs) zero = v
arg_at (v ∷ vs) (suc i) = arg_at vs i

unfoldable pub click_house_type : Value → String
click_house_type (number n) = if is_integer n then "Int64" else "Float64"
click_house_type _ = "String"

pub record ClickHouseQuery : Type 0 where
  pub query : String
  pub query_params : List (String × Value)

-- `p${i}`, and the text that stands for it.
unfoldable pub param_name : ℕ → String
param_name i = template ("p" ∷ decimal i ∷ [])

unfoldable pub named_place : ℕ → Value → String
named_place i value = template ("{" ∷ param_name i ∷ ":" ∷ click_house_type value ∷ "}" ∷ [])

-- What `replace` has made, with the final `i` and the parameters.
pub record Replaced : Type 0 where
  pub text : String
  pub count : ℕ
  pub params : List (String × Value)

-- The walk of `replace` over the text, and its callback at each place.
unfoldable pub replace_places : List Value → String → ℕ → List (String × Value) → Replaced
replace_places args String.[] i params = record { text = ""; count = i; params = params }
replace_places args (String.◌∷◌ c s) i params =
    let place : Bool = code c == b'?' in
    let value : Value = arg_at args i in
    let rest : Replaced =
      replace_places args s (if place then suc i else i)
        (if place then params ++ (param_name i, value) ∷ [] else params) in
    record rest {
      text = String.◌++◌ (if place then named_place i value else String.◌∷◌ c String.[]) rest.text;
    }

unfoldable pub to_click_house : Compiled → Result CompileError ClickHouseQuery
unfolding replace_places
to_click_house compiled =
    let done : Replaced = replace_places compiled.args compiled.sql 0 [] in
    if done.count == length compiled.args
    then ok (record { query = done.text; query_params = done.params })
    else err placeholder_mismatch
