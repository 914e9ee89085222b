-- ===== src/Segment/Channel.antt =====
-- packages/segment-dsl/src/index.ts: `compileChannel` and `compileDevice`.
use Prim.Native.String.{String}
use nudgeon_platform.Common.{List, [], ◌∷◌, Option, none, some, if◌then◌else◌, template, join}
use nudgeon_platform.Segment.{
  Number, Value, string, Category, marketing, transactional, ChannelOp, push_reachable,
  token_platform_in, ChannelCondition, DeviceCondition, platform, channel_op, device_column,
  device_op, device_unsupported,
}
use nudgeon_platform.Segment.Params.{
  M, ◌>>=◌, pure, throw, lift, add, platform_values, device_cols, has, cmp_ops, array_values,
}

-- The places of the platforms, each of which must be known.
unfoldable pub add_platforms : List String → M (List String)
add_platforms [] = pure []
add_platforms (v ∷ vs) =
    if has platform_values v
    then (do first ← add (string v); rest ← add_platforms vs; pure (first ∷ rest))
    else throw platform

unfoldable pub compile_platforms : List String → M String
compile_platforms [] = pure "0"
compile_platforms (v ∷ vs) = do
  places ← add_platforms (v ∷ vs)
  pure (template ("arrayExists(x -> x IN (" ∷ join ", " places ∷ "), platforms)" ∷ []))

-- `compileChannel`, by its operator.
unfoldable pub compile_channel_op : (Number → String) → ChannelOp → Value → Category → M String
compile_channel_op number_text push_reachable value transactional =
    pure "(os_permission_granted = 1 AND token_active = 1)"
compile_channel_op number_text push_reachable value marketing =
    pure "(push_opt_in = 1 AND os_permission_granted = 1 AND token_active = 1)"
compile_channel_op number_text token_platform_in value category = do
  values ← lift (array_values number_text value)
  compile_platforms values
compile_channel_op number_text ChannelOp.other value category = throw channel_op

unfoldable pub compile_channel : (Number → String) → ChannelCondition → Category → M String
compile_channel number_text c category = compile_channel_op number_text c.op c.value category

-- `c.op in CMP_OPS` failed, or the comparison is not supported.
unfoldable pub refusal : Option String → M String
refusal none = throw device_op
refusal (some text) = throw device_unsupported

-- Every device condition is refused: the mirror has no device columns to compare.
unfoldable pub compile_device : DeviceCondition → M String
compile_device c = if has device_cols c.key then refusal (cmp_ops c.op) else throw device_column
