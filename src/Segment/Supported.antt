-- ===== src/Segment/Supported.antt =====
-- Which definitions the compiler accepts, said of the definition alone: an independent description
-- that `Supported/Compile.antt` compares with the compiler's own checks.
mod Verdicts
mod Attribute
mod Reach
pub mod Compile
use Prim.Native.String.{String}
use text.Mathlib.Text.{◌==◌ as str_eq}
use nudgeon_platform.Common.{
  Bool, true, false, not, ◌&&◌, ◌||◌, List, [], ◌∷◌, Option, none, some, ◌==◌, all, Result, ok, err,
}
use nudgeon_platform.Segment.{
  Number, Value, boolean, number, string, array, items, LogicalOp, and, or, AttributeOp, one_of,
  exists, not_exists, in_last_days, not_in_last_days, EventOp, count_gte, count_lte, performed,
  not_performed, first_performed, last_performed, ChannelOp, push_reachable, token_platform_in,
  Condition, attribute, event, channel, device, unknown, SegmentGroup, SegmentDsl,
}

abbrev pub is_scalar : Value → Bool
is_scalar (string s) = true
is_scalar (number n) = true
is_scalar (boolean b) = true
is_scalar _ = false

abbrev pub is_number : Value → Bool
is_number (number n) = true
is_number _ = false

abbrev pub is_array_of : (Value → Bool) → Value → Bool
is_array_of p (array vs) = all p (items vs)
is_array_of p _ = false

abbrev pub is_known : LogicalOp → Bool
is_known and = true
is_known or = true
is_known LogicalOp.other = false

-- The value that an attribute operator needs.
abbrev pub fits : AttributeOp → Value → Bool
fits exists value = true
fits not_exists value = true
fits one_of value = is_array_of is_scalar value
fits in_last_days value = is_number value
fits not_in_last_days value = is_number value
fits AttributeOp.other value = false
fits _ value = is_scalar value

abbrev pub is_given : Option Number → Bool
is_given none = false
is_given (some days) = true

-- What an event operator needs of the value and of the window.
abbrev pub event_fits : EventOp → Value → Option Number → Bool
event_fits performed value days = true
event_fits not_performed value days = true
event_fits count_gte value days = is_number value
event_fits count_lte value days = is_number value
event_fits first_performed value days = is_given days
event_fits last_performed value days = is_given days
event_fits EventOp.other value days = false

abbrev pub is_platform_name : String → Bool
is_platform_name s = str_eq s "ios" || str_eq s "android"

abbrev pub is_empty {ℓ} : {A : Type ℓ} → List A → Bool
is_empty [] = true
is_empty (x ∷ xs) = false

module _ (number_text : Number → String) where
  abbrev pub is_platform : Value → Bool
  is_platform (string s) = is_platform_name s
  is_platform (number n) = is_platform_name (number_text n)
  is_platform _ = false

  abbrev pub channel_fits : ChannelOp → Value → Bool
  channel_fits push_reachable value = true
  channel_fits token_platform_in value = is_array_of is_platform value
  channel_fits ChannelOp.other value = false

  -- No device condition is supported.
  abbrev pub is_supported : Condition → Bool
  is_supported (attribute c) = not (str_eq c.key "") && fits c.op c.value
  is_supported (event c) = not (str_eq c.event "") && event_fits c.op c.value c.window_days
  is_supported (channel c) = channel_fits c.op c.value
  is_supported (device c) = false
  is_supported unknown = false

  abbrev pub is_supported_group : SegmentGroup → Bool
  is_supported_group g =
      is_known g.operator && not (is_empty g.conditions) && all is_supported g.conditions

  abbrev pub is_supported_dsl : SegmentDsl → Bool
  is_supported_dsl dsl =
      dsl.version == 1 && is_known dsl.operator && all is_supported_group dsl.groups

abbrev pub is_ok {ℓ κ} : {E : Type ℓ} {A : Type κ} → Result E A → Bool
is_ok (ok a) = true
is_ok (err e) = false
