-- ===== src/Segment.antt =====
-- packages/segment-dsl/src/index.ts: the segment DSL, its types.
mod Params
mod Attribute
mod Channel
mod Event
mod Compile
pub mod Bind
pub mod Emits
pub mod Nests
pub mod Scope
pub mod Supported
mod Tests
use Prim.Native.String.{String}
use nudgeon_platform.Common.{ℕ, Bool, false, List, [], ◌∷◌, Option, ◌==◌}

-- A JavaScript number. `finite negative whole part`: `whole` before the point, and `part` the
-- fraction behind it in units of 2^-1074, below which no number goes.
pub data Number : Type 0 where
  finite : (negative : Bool) (whole part : ℕ) → Number
  infinite : (negative : Bool) → Number
  nan : Number

-- `Number.isInteger`.
abbrev pub is_integer : Number → Bool
is_integer (finite negative whole part) = part == 0
is_integer _ = false

-- `Math.trunc`.
abbrev pub trunc : Number → Number
trunc (finite negative whole part) = finite negative whole 0
trunc (infinite negative) = infinite negative
trunc nan = nan

-- A value of type `unknown`. Of an object the compiler reads only that it is one.
mutual
  pub data Value : Type 0 where
    undefined : Value
    null : Value
    boolean : Bool → Value
    number : Number → Value
    string : String → Value
    array : Values → Value
    object : Value

  pub data Values : Type 0 where
    nil : Values
    cons : Value → Values → Values

abbrev pub items : Values → List Value
items nil = []
items (cons v vs) = v ∷ items vs

-- `LogicalOp`; `other` is any value that is not one.
pub data LogicalOp : Type 0 where
  and or other : LogicalOp

pub data Category : Type 0 where
  marketing transactional : Category

-- The operators; `other` is any value outside the whitelist.
pub data AttributeOp : Type 0 where
  eq neq gt gte lt lte one_of exists not_exists contains before after : AttributeOp
  in_last_days not_in_last_days : AttributeOp
  other : AttributeOp

pub data EventOp : Type 0 where
  count_gte count_lte performed not_performed first_performed last_performed other : EventOp

pub data ChannelOp : Type 0 where
  push_reachable token_platform_in other : ChannelOp

pub record AttributeCondition : Type 0 where
  pub key : String
  pub op : AttributeOp
  pub value : Value

-- `none` is `undefined` or `null`.
pub record EventCondition : Type 0 where
  pub event : String
  pub op : EventOp
  pub value : Value
  pub window_days : Option Number

pub record ChannelCondition : Type 0 where
  pub op : ChannelOp
  pub value : Value

-- The key is one of `DEVICE_COLS`, and the operator one of `CMP_OPS`, or they are not.
pub record DeviceCondition : Type 0 where
  pub key : String
  pub op : AttributeOp
  pub value : Value

pub data Condition : Type 0 where
  attribute : AttributeCondition → Condition
  event : EventCondition → Condition
  channel : ChannelCondition → Condition
  device : DeviceCondition → Condition
  unknown : Condition

pub record SegmentGroup : Type 0 where
  pub operator : LogicalOp
  pub conditions : List Condition

pub record SegmentDsl : Type 0 where
  pub version : ℕ
  pub operator : LogicalOp
  pub groups : List SegmentGroup

-- What is bound in order to the places `?` of the text.
pub record Compiled : Type 0 where
  pub sql : String
  pub args : List Value

-- `CompileError`, a constructor for each place that throws one.
pub data CompileError : Type 0 where
  unsupported_version top_operator group_operator empty_group unknown_condition : CompileError
  missing_key attribute_op not_scalar not_array element_type not_number : CompileError
  platform channel_op device_column device_op device_unsupported : CompileError
  missing_event missing_window event_op placeholder_mismatch : CompileError
