-- ===== src/Segment/Nests/Condition.antt =====
-- packages/segment-dsl/src/index.ts: the brackets of the conditions on channels, devices and events.
use Prim.Native.String.{String}
use text.Mathlib.Text.{◌==◌ as str_eq}
use nudgeon_platform.Common.{refl, List, [], ◌∷◌, Option, none, some}
use nudgeon_platform.Segment.{
  Number, Value, Category, marketing, transactional, ChannelOp, push_reachable, token_platform_in,
  ChannelCondition, DeviceCondition, EventOp, count_gte, count_lte, performed, not_performed,
  first_performed, last_performed, EventCondition,
}
use nudgeon_platform.Segment.Params.{
  has, platform_values, device_cols, cmp_ops, int_value, array_values,
}
use nudgeon_platform.Segment.Channel.{
  add_platforms, compile_platforms, compile_channel_op, compile_channel, refusal, compile_device,
}
use nudgeon_platform.Segment.Event.{
  merge_map, event_query, within_window, base_windowed, compile_performed, compile_count,
  compile_moment, compile_event_op, compile_event,
}
use nudgeon_platform.Segment.Nests.{
  nest, nest_all, IsBalanced, AreBalanced, join-IsBalanced, Gives, Gives-pure, Gives-throw,
  if-Gives, Gives-lift, Gives-bind, Gives-add, Gives-template,
}

add_platforms-Gives : (vs : List String) → Gives AreBalanced (add_platforms vs)
unfolding add_platforms
add_platforms-Gives [] = Gives-pure _ tt
add_platforms-Gives (v ∷ vs) =
    if-Gives (has platform_values v)
      (Gives-bind (Gives-add _)
        λ first h. Gives-bind (add_platforms-Gives vs) λ rest hs. Gives-pure _ (h, hs))
      (Gives-throw _)

compile_platforms-Gives : (vs : List String) → Gives IsBalanced (compile_platforms vs)
unfolding compile_platforms nest nest_all
compile_platforms-Gives [] = Gives-pure _ λ depth. refl
compile_platforms-Gives (v ∷ vs) =
    Gives-bind (add_platforms-Gives (v ∷ vs))
      λ places hs. Gives-template _ λ depth. rw (join-IsBalanced ", " places (λ d. refl) hs) refl

compile_channel_op-Gives :
    (number_text : Number → String) (op : ChannelOp) (value : Value) (category : Category)
    → Gives IsBalanced (compile_channel_op number_text op value category)
unfolding compile_channel_op nest
compile_channel_op-Gives text push_reachable value transactional = Gives-pure _ λ depth. refl
compile_channel_op-Gives text push_reachable value marketing = Gives-pure _ λ depth. refl
compile_channel_op-Gives text token_platform_in value category =
    Gives-lift (array_values text value) λ vs. compile_platforms-Gives vs
compile_channel_op-Gives text ChannelOp.other value category = Gives-throw _

pub compile_channel-Gives :
    (number_text : Number → String) (c : ChannelCondition) (category : Category)
    → Gives IsBalanced (compile_channel number_text c category)
unfolding compile_channel
compile_channel-Gives text c category = compile_channel_op-Gives text c.op c.value category

refusal-Gives : (o : Option String) → Gives IsBalanced (refusal o)
unfolding refusal
refusal-Gives none = Gives-throw _
refusal-Gives (some t) = Gives-throw _

pub compile_device-Gives : (c : DeviceCondition) → Gives IsBalanced (compile_device c)
unfolding compile_device
compile_device-Gives c =
    if-Gives (has device_cols c.key) (refusal-Gives (cmp_ops c.op)) (Gives-throw _)

within_window-Gives :
    (query : String) (days : Option Number)
    → IsBalanced query
    → Gives IsBalanced (within_window query days)
unfolding within_window nest nest_all
within_window-Gives query none h = Gives-pure _ h
within_window-Gives query (some days) h =
    Gives-bind (Gives-add _) λ place k. Gives-template _ λ depth. rw (h, k) refl

module _ (tenant_id app_id : String) where
  merge_map-Gives : Gives IsBalanced (merge_map tenant_id app_id)
  unfolding merge_map nest nest_all
  merge_map-Gives =
      Gives-bind (Gives-add _)
        λ t ht. Gives-bind (Gives-add _) λ a ha. Gives-template _ λ depth. rw (ht, ha) refl

  event_query-Gives : (name : String) → Gives IsBalanced (event_query tenant_id app_id name)
  unfolding event_query nest nest_all
  event_query-Gives name = Gives-bind merge_map-Gives λ merges hm. Gives-bind (Gives-add _) λ t ht.
      Gives-bind (Gives-add _)
        λ a ha. Gives-bind (Gives-add _) λ e he. Gives-template _ λ depth. rw (hm, ht, ha, he) refl

  base_windowed-Gives : (c : EventCondition) → Gives IsBalanced (base_windowed tenant_id app_id c)
  unfolding base_windowed
  base_windowed-Gives c =
      Gives-bind (event_query-Gives c.event) λ query h. within_window-Gives query c.window_days h

  compile_performed-Gives :
      (membership : String) (c : EventCondition)
      → IsBalanced membership
      → Gives IsBalanced (compile_performed tenant_id app_id membership c)
  unfolding compile_performed nest nest_all
  compile_performed-Gives membership c h =
      Gives-bind (base_windowed-Gives c) λ base hb. Gives-template _ λ depth. rw (h, hb) refl

  compile_count-Gives :
      (cmp : String) (c : EventCondition)
      → IsBalanced cmp
      → Gives IsBalanced (compile_count tenant_id app_id cmp c)
  unfolding compile_count nest nest_all
  compile_count-Gives cmp c h = Gives-lift (int_value c.value) λ n.
      Gives-bind (base_windowed-Gives c) λ base hb.
        Gives-bind (Gives-add _) λ place hp. Gives-template _ λ depth. rw (hb, h, hp) refl

  compile_moment-Gives :
      (agg name : String) (days : Option Number)
      → IsBalanced agg
      → Gives IsBalanced (compile_moment tenant_id app_id agg name days)
  unfolding compile_moment nest nest_all
  compile_moment-Gives agg name none h = Gives-throw _
  compile_moment-Gives agg name (some days) h =
      Gives-bind (event_query-Gives name) λ base hb.
        Gives-bind (Gives-add _) λ place hp. Gives-template _ λ depth. rw (hb, h, hp) refl

  compile_event_op-Gives :
      (op : EventOp) (c : EventCondition)
      → Gives IsBalanced (compile_event_op tenant_id app_id op c)
  unfolding compile_event_op nest
  compile_event_op-Gives performed c = compile_performed-Gives "IN" c λ d. refl
  compile_event_op-Gives not_performed c = compile_performed-Gives "NOT IN" c λ d. refl
  compile_event_op-Gives count_gte c = compile_count-Gives ">=" c λ d. refl
  compile_event_op-Gives count_lte c = compile_count-Gives "<=" c λ d. refl
  compile_event_op-Gives first_performed c =
      compile_moment-Gives "min" c.event c.window_days λ d. refl
  compile_event_op-Gives last_performed c =
      compile_moment-Gives "max" c.event c.window_days λ d. refl
  compile_event_op-Gives EventOp.other c = Gives-throw _

  pub compile_event-Gives :
      (c : EventCondition) → Gives IsBalanced (compile_event tenant_id app_id c)
  unfolding compile_event
  compile_event-Gives c =
      if-Gives (str_eq c.event "") (Gives-throw _) (compile_event_op-Gives c.op c)
