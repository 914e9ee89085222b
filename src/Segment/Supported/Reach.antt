-- ===== src/Segment/Supported/Reach.antt =====
-- The conditions on channels, devices and events: when their compilers return.
use Prim.Native.String.{String}
use text.Mathlib.Text.{◌==◌ as str_eq}
use nudgeon_platform.Common.{
  ◌≡◌, refl, sym, ap, ◌∙◌, Bool, true, false, ◌&&◌, ◌||◌, List, [], ◌∷◌, Option, none, some, all,
  if◌then◌else◌, arith, Result, ok, err,
}
use nudgeon_platform.Segment.{
  Number, Value, undefined, boolean, number, string, array, items, Category, marketing,
  transactional, EventOp, count_gte, count_lte, performed, not_performed, first_performed,
  last_performed, ChannelOp, push_reachable, token_platform_in, EventCondition, DeviceCondition,
  CompileError,
}
use nudgeon_platform.Segment.Params.{
  has, platform_values, device_cols, cmp_ops, int_value, element_text, element_texts, array_values,
}
use nudgeon_platform.Segment.Channel.{
  add_platforms, compile_platforms, compile_channel_op, refusal, compile_device,
}
use nudgeon_platform.Segment.Event.{
  merge_map, event_query, within_window, base_windowed, compile_performed, compile_count,
  compile_moment, compile_event_op,
}
use nudgeon_platform.Segment.Supported.{
  is_ok, is_number, is_array_of, is_given, event_fits, is_platform_name, is_platform, channel_fits,
}
use nudgeon_platform.Segment.Supported.Attribute.{is_ok-int_value, and_true, at}
use nudgeon_platform.Segment.Supported.Verdicts.{
  Verdict, Verdict-pure, Verdict-throw, Verdict-add, if-Verdict, Verdict-lift, Verdict-bind,
}

add_platforms-Verdict : (vs : List String) → Verdict (all is_platform_name vs) (add_platforms vs)
unfolding add_platforms
add_platforms-Verdict [] = Verdict-pure _
add_platforms-Verdict (v ∷ vs) =
    at (branch (str_eq v "ios") (str_eq v "android") (all is_platform_name vs)) (
      if-Verdict (has platform_values v)
        (Verdict-bind (Verdict-add _)
          λ first. Verdict-bind (add_platforms-Verdict vs) λ rest. Verdict-pure _)
        (Verdict-throw _))
  where
    branch : (a b c : Bool) → (if a || (b || false) then c && true else false) ≡ (a || b) && c
    branch true b c = and_true c
    branch false true c = and_true c
    branch false false c = refl

compile_platforms-Verdict :
    (vs : List String) → Verdict (all is_platform_name vs) (compile_platforms vs)
unfolding compile_platforms
compile_platforms-Verdict [] = Verdict-pure _
compile_platforms-Verdict (v ∷ vs) =
    at (and_true _) (Verdict-bind (add_platforms-Verdict (v ∷ vs)) λ places. Verdict-pure _)

-- The check of the elements and that of their texts, made one after the other.
abbrev named_platforms : Result CompileError (List String) → Bool
named_platforms (ok texts) = all is_platform_name texts
named_platforms (err e) = false

and-false : (b : Bool) → (b && false) ≡ false
and-false true = refl
and-false false = refl

cons-platforms :
    (text : String) (r : Result CompileError (List String)) {b : Bool}
    → named_platforms r ≡ b
    → named_platforms (elim r [ ok rest ↦ ok (text ∷ rest) | err e ↦ err e ])
      ≡ is_platform_name text && b
cons-platforms text (ok rest) h = ap (λ x. is_platform_name text && x) h
cons-platforms text (err e) h = ground (arith, and-false (is_platform_name text))

module _ (number_text : Number → String) where
  element_texts-platforms :
      (vs : List Value)
      → named_platforms (element_texts number_text vs) ≡ all (is_platform number_text) vs
  unfolding element_texts element_text
  element_texts-platforms [] = refl
  element_texts-platforms (string s ∷ vs) = cons-platforms s _ (element_texts-platforms vs)
  element_texts-platforms (number n ∷ vs) =
      cons-platforms (number_text n) _ (element_texts-platforms vs)
  element_texts-platforms (boolean true ∷ vs) = cons-platforms "true" _ (element_texts-platforms vs)
  element_texts-platforms (boolean false ∷ vs) =
      cons-platforms "false" _ (element_texts-platforms vs)
  element_texts-platforms (undefined ∷ vs) = refl
  element_texts-platforms (v ∷ vs) = refl

  array_values-platforms :
      (v : Value)
      → named_platforms (array_values number_text v) ≡ is_array_of (is_platform number_text) v
  unfolding array_values
  array_values-platforms (array vs) = element_texts-platforms (items vs)
  array_values-platforms _ = refl

  absorb :
      (r : Result CompileError (List String)) → (is_ok r && named_platforms r) ≡ named_platforms r
  absorb (ok texts) = refl
  absorb (err e) = refl

  pub compile_channel_op-Verdict :
      (op : ChannelOp) (v : Value) (category : Category)
      → Verdict (channel_fits number_text op v) (compile_channel_op number_text op v category)
  unfolding compile_channel_op
  compile_channel_op-Verdict push_reachable v transactional = Verdict-pure _
  compile_channel_op-Verdict push_reachable v marketing = Verdict-pure _
  compile_channel_op-Verdict token_platform_in v category =
      let r = array_values number_text v in
      at (absorb r ∙ array_values-platforms v) (
        Verdict-lift r refl
          λ texts e. at (ap named_platforms (sym e)) (compile_platforms-Verdict texts))
  compile_channel_op-Verdict ChannelOp.other v category = Verdict-throw _

pub compile_device-Verdict : (c : DeviceCondition) → Verdict false (compile_device c)
unfolding compile_device refusal
compile_device-Verdict c =
    at (both (has device_cols c.key))
      (if-Verdict (has device_cols c.key) (refused (cmp_ops c.op)) (Verdict-throw _))
  where
    both : (b : Bool) → (if b then false else false) ≡ false
    both true = refl
    both false = refl

    refused : (o : Option String) → Verdict false (refusal o)
    refused none = Verdict-throw _
    refused (some t) = Verdict-throw _

within_window-Verdict :
    (query : String) (days : Option Number) → Verdict true (within_window query days)
unfolding within_window
within_window-Verdict query none = Verdict-pure _
within_window-Verdict query (some days) = Verdict-bind (Verdict-add _) λ place. Verdict-pure _

module _ (tenant_id app_id : String) where
  event_query-Verdict : (name : String) → Verdict true (event_query tenant_id app_id name)
  unfolding event_query merge_map
  event_query-Verdict name =
      Verdict-bind
        (Verdict-bind (Verdict-add _) λ t. Verdict-bind (Verdict-add _) λ a. Verdict-pure _)
        λ merges.
          Verdict-bind (Verdict-add _)
            λ t. Verdict-bind (Verdict-add _) λ a. Verdict-bind (Verdict-add _) λ e. Verdict-pure _

  base_windowed-Verdict : (c : EventCondition) → Verdict true (base_windowed tenant_id app_id c)
  unfolding base_windowed
  base_windowed-Verdict c =
      Verdict-bind (event_query-Verdict c.event) λ query. within_window-Verdict query c.window_days

  compile_count-Verdict :
      (cmp : String) (c : EventCondition)
      → Verdict (is_number c.value) (compile_count tenant_id app_id cmp c)
  unfolding compile_count
  compile_count-Verdict cmp c = at (and_true _) (
      Verdict-lift (int_value c.value) (is_ok-int_value c.value) λ n _.
        Verdict-bind (base_windowed-Verdict c)
          λ base. Verdict-bind (Verdict-add _) λ place. Verdict-pure _)

  compile_moment-Verdict :
      (agg name : String) (days : Option Number)
      → Verdict (is_given days) (compile_moment tenant_id app_id agg name days)
  unfolding compile_moment
  compile_moment-Verdict agg name none = Verdict-throw _
  compile_moment-Verdict agg name (some days) =
      Verdict-bind (event_query-Verdict name)
        λ base. Verdict-bind (Verdict-add _) λ place. Verdict-pure _

  pub compile_event_op-Verdict :
      (op : EventOp) (c : EventCondition)
      → Verdict (event_fits op c.value c.window_days) (compile_event_op tenant_id app_id op c)
  unfolding compile_event_op compile_performed
  compile_event_op-Verdict performed c =
      Verdict-bind (base_windowed-Verdict c) λ base. Verdict-pure _
  compile_event_op-Verdict not_performed c =
      Verdict-bind (base_windowed-Verdict c) λ base. Verdict-pure _
  compile_event_op-Verdict count_gte c = compile_count-Verdict ">=" c
  compile_event_op-Verdict count_lte c = compile_count-Verdict "<=" c
  compile_event_op-Verdict first_performed c = compile_moment-Verdict "min" c.event c.window_days
  compile_event_op-Verdict last_performed c = compile_moment-Verdict "max" c.event c.window_days
  compile_event_op-Verdict EventOp.other c = Verdict-throw _
