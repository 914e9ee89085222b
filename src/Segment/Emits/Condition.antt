-- ===== src/Segment/Emits/Condition.antt =====
-- packages/segment-dsl/src/index.ts: the values and the places of the conditions on channels, devices and
-- events.
use Prim.Native.String.{String}
use text.Mathlib.Text.{◌==◌ as str_eq}
use nudgeon_platform.Common.{
  ◌+◌, ◌≡◌, refl, List, [], ◌∷◌, Option, none, some, arith, occurrences, occurrences-join,
}
use nudgeon_platform.Segment.{
  Number, Value, Category, marketing, transactional, ChannelOp, push_reachable, token_platform_in,
  ChannelCondition, DeviceCondition, EventOp, count_gte, count_lte, performed, not_performed,
  first_performed, last_performed, EventCondition,
}
use nudgeon_platform.Segment.Params.{
  has, platform_values, device_cols, cmp_ops, int_value, array_values,
}
use nudgeon_platform.Segment.Channel.{
  add_platforms, compile_platforms, compile_channel_op, compile_channel, refusal, compile_device,
}
use nudgeon_platform.Segment.Event.{
  merge_map, event_query, within_window, base_windowed, compile_performed, compile_count,
  compile_moment, compile_event_op, compile_event,
}
use nudgeon_platform.Segment.Emits.{
  holes, holes_in, Owes, Owes-pure, Owes-throw, Owes-lift, Owes-bind, Owes-add, if-Owes,
  Owes-template,
}

add_platforms-Owes : (vs : List String) → Owes 0 holes_in (add_platforms vs)
unfolding add_platforms
add_platforms-Owes [] = Owes-pure _ refl
add_platforms-Owes (v ∷ vs) =
    if-Owes (has platform_values v)
      (Owes-bind (Owes-add _)
        λ first. Owes-bind (add_platforms-Owes vs) λ rest. Owes-pure _ (omega arith))
      (Owes-throw _)

compile_platforms-Owes : (vs : List String) → Owes 0 holes (compile_platforms vs)
unfolding compile_platforms occurrences
compile_platforms-Owes [] = Owes-pure _ refl
compile_platforms-Owes (v ∷ vs) =
    Owes-bind (add_platforms-Owes (v ∷ vs))
      λ places. Owes-template _ (omega (arith, occurrences-join b'?' ", " places refl))

compile_channel_op-Owes :
    (number_text : Number → String) (op : ChannelOp) (value : Value) (category : Category)
    → Owes 0 holes (compile_channel_op number_text op value category)
unfolding compile_channel_op occurrences
compile_channel_op-Owes text push_reachable value transactional = Owes-pure _ refl
compile_channel_op-Owes text push_reachable value marketing = Owes-pure _ refl
compile_channel_op-Owes text token_platform_in value category =
    Owes-lift (array_values text value) λ vs. compile_platforms-Owes vs
compile_channel_op-Owes text ChannelOp.other value category = Owes-throw _

pub compile_channel-Owes :
    (number_text : Number → String) (c : ChannelCondition) (category : Category)
    → Owes 0 holes (compile_channel number_text c category)
unfolding compile_channel
compile_channel-Owes text c category = compile_channel_op-Owes text c.op c.value category

refused-Owes : (o : Option String) → Owes 0 holes (refusal o)
unfolding refusal
refused-Owes none = Owes-throw _
refused-Owes (some t) = Owes-throw _

pub compile_device-Owes : (c : DeviceCondition) → Owes 0 holes (compile_device c)
unfolding compile_device
compile_device-Owes c = if-Owes (has device_cols c.key) (refused-Owes (cmp_ops c.op)) (Owes-throw _)

within_window-Owes :
    (query : String) (days : Option Number)
    → Owes (0 + holes query) holes (within_window query days)
unfolding within_window occurrences
within_window-Owes query none = Owes-pure _ (omega arith)
within_window-Owes query (some days) = Owes-bind (Owes-add _) λ place. Owes-template _ (omega arith)

module _ (tenant_id app_id : String) where
  merge_map-Owes : Owes 0 holes (merge_map tenant_id app_id)
  unfolding merge_map occurrences
  merge_map-Owes =
      Owes-bind (Owes-add _) λ t. Owes-bind (Owes-add _) λ a. Owes-template _ (omega arith)

  event_query-Owes : (name : String) → Owes 0 holes (event_query tenant_id app_id name)
  unfolding event_query occurrences
  event_query-Owes name = Owes-bind merge_map-Owes λ merges.
      Owes-bind (Owes-add _)
        λ t. Owes-bind (Owes-add _) λ a. Owes-bind (Owes-add _) λ e. Owes-template _ (omega arith)

  base_windowed-Owes : (c : EventCondition) → Owes 0 holes (base_windowed tenant_id app_id c)
  unfolding base_windowed
  base_windowed-Owes c =
      Owes-bind (event_query-Owes c.event) λ query. within_window-Owes query c.window_days

  compile_performed-Owes :
      (membership : String) (c : EventCondition)
      → holes membership ≡ 0
      → Owes 0 holes (compile_performed tenant_id app_id membership c)
  unfolding compile_performed occurrences
  compile_performed-Owes membership c h =
      Owes-bind (base_windowed-Owes c) λ base. Owes-template _ (omega arith)

  compile_count-Owes :
      (cmp : String) (c : EventCondition)
      → holes cmp ≡ 0
      → Owes 0 holes (compile_count tenant_id app_id cmp c)
  unfolding compile_count occurrences
  compile_count-Owes cmp c h = Owes-lift (int_value c.value) λ n.
      Owes-bind (base_windowed-Owes c)
        λ base. Owes-bind (Owes-add _) λ place. Owes-template _ (omega arith)

  compile_moment-Owes :
      (agg name : String) (days : Option Number)
      → holes agg ≡ 0
      → Owes 0 holes (compile_moment tenant_id app_id agg name days)
  unfolding compile_moment occurrences
  compile_moment-Owes agg name none h = Owes-throw _
  compile_moment-Owes agg name (some days) h =
      Owes-bind (event_query-Owes name)
        λ base. Owes-bind (Owes-add _) λ place. Owes-template _ (omega arith)

  compile_event_op-Owes :
      (op : EventOp) (c : EventCondition) → Owes 0 holes (compile_event_op tenant_id app_id op c)
  unfolding compile_event_op occurrences
  compile_event_op-Owes performed c = compile_performed-Owes "IN" c refl
  compile_event_op-Owes not_performed c = compile_performed-Owes "NOT IN" c refl
  compile_event_op-Owes count_gte c = compile_count-Owes ">=" c refl
  compile_event_op-Owes count_lte c = compile_count-Owes "<=" c refl
  compile_event_op-Owes first_performed c = compile_moment-Owes "min" c.event c.window_days refl
  compile_event_op-Owes last_performed c = compile_moment-Owes "max" c.event c.window_days refl
  compile_event_op-Owes EventOp.other c = Owes-throw _

  pub compile_event-Owes : (c : EventCondition) → Owes 0 holes (compile_event tenant_id app_id c)
  unfolding compile_event
  compile_event-Owes c = if-Owes (str_eq c.event "") (Owes-throw _) (compile_event_op-Owes c.op c)
