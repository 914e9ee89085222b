-- ===== src/Segment/Supported/Compile.antt =====
-- packages/segment-dsl/src/index.ts: when `compile` returns.
use Prim.Native.String.{String}
use text.Mathlib.Text.{◌==◌ as str_eq}
use nudgeon_platform.Common.{
  ◌≡◌, refl, ap, ◌∙◌, not, ◌&&◌, List, [], ◌∷◌, ◌==◌, all, Result, ok, err, Bool-cases, inl, inr,
}
use nudgeon_platform.Segment.{
  Number, Value, LogicalOp, and, or, Category, Condition, attribute, event, channel, device,
  unknown, SegmentGroup, SegmentDsl, CompileError,
}
use nudgeon_platform.Segment.Channel.{compile_channel}
use nudgeon_platform.Segment.Event.{compile_event}
use nudgeon_platform.Segment.Compile.{
  separator, compile_condition, compile_conditions, compile_parts, compile_checked, compile_group,
  compile_groups, where_groups, compile_where, compile_joined, finish, compile,
}
use nudgeon_platform.Segment.Supported.{
  is_ok, is_known, event_fits, is_empty, is_supported, is_supported_group, is_supported_dsl,
}
use nudgeon_platform.Segment.Supported.Attribute.{compile_attribute-Verdict, and_true, at, guarded}
use nudgeon_platform.Segment.Supported.Reach.{
  compile_channel_op-Verdict, compile_device-Verdict, compile_event_op-Verdict,
}
use nudgeon_platform.Segment.Supported.Verdicts.{
  Verdict, Verdict-pure, Verdict-throw, Verdict-add, if-Verdict, Verdict-bind,
}

module _ (number_text : Number → String) (tenant_id app_id : String) (category : Category) where
  compile_condition-Verdict :
      (c : Condition)
      → Verdict
          (is_supported number_text c)
          (compile_condition number_text tenant_id app_id category c)
  unfolding compile_condition compile_channel compile_event
  compile_condition-Verdict (attribute c) = compile_attribute-Verdict number_text c
  compile_condition-Verdict (channel c) =
      compile_channel_op-Verdict number_text c.op c.value category
  compile_condition-Verdict (device c) = compile_device-Verdict c
  compile_condition-Verdict (event c) =
      at (guarded (str_eq c.event "") (event_fits c.op c.value c.window_days)) (
        if-Verdict (str_eq c.event "") (Verdict-throw _)
          (compile_event_op-Verdict tenant_id app_id c.op c))
  compile_condition-Verdict unknown = Verdict-throw _

  compile_conditions-Verdict :
      (cs : List Condition)
      → Verdict
          (all (is_supported number_text) cs)
          (compile_conditions number_text tenant_id app_id category cs)
  unfolding compile_conditions
  compile_conditions-Verdict [] = Verdict-pure _
  compile_conditions-Verdict (c ∷ cs) =
      at (ap (λ x. is_supported number_text c && x) (and_true _)) (
        Verdict-bind (compile_condition-Verdict c)
          λ part. Verdict-bind (compile_conditions-Verdict cs) λ parts. Verdict-pure _)

  compile_parts-Verdict :
      (between : String) (cs : List Condition)
      → Verdict
          (not (is_empty cs) && all (is_supported number_text) cs)
          (compile_parts number_text tenant_id app_id category between cs)
  unfolding compile_parts
  compile_parts-Verdict between [] = Verdict-throw _
  compile_parts-Verdict between (c ∷ cs) =
      at (and_true _) (Verdict-bind (compile_conditions-Verdict (c ∷ cs)) λ parts. Verdict-pure _)

  compile_checked-Verdict :
      (op : LogicalOp) (cs : List Condition)
      → Verdict
          (is_known op && not (is_empty cs) && all (is_supported number_text) cs)
          (compile_checked number_text tenant_id app_id category (separator op) cs)
  unfolding compile_checked
  compile_checked-Verdict and cs = compile_parts-Verdict " AND " cs
  compile_checked-Verdict or cs = compile_parts-Verdict " OR " cs
  compile_checked-Verdict LogicalOp.other cs = Verdict-throw _

  compile_groups-Verdict :
      (gs : List SegmentGroup)
      → Verdict
          (all (is_supported_group number_text) gs)
          (compile_groups number_text tenant_id app_id category gs)
  unfolding compile_groups compile_group
  compile_groups-Verdict [] = Verdict-pure _
  compile_groups-Verdict (g ∷ gs) =
      at (ap (λ x. is_supported_group number_text g && x) (and_true _)) (
        Verdict-bind (compile_checked-Verdict g.operator g.conditions)
          λ part. Verdict-bind (compile_groups-Verdict gs) λ parts. Verdict-pure _)

  where_groups-Verdict :
      (between : String) (gs : List SegmentGroup)
      → Verdict
          (all (is_supported_group number_text) gs)
          (where_groups number_text tenant_id app_id category between gs)
  unfolding where_groups
  where_groups-Verdict between [] = Verdict-pure _
  where_groups-Verdict between (g ∷ gs) =
      at (and_true _) (Verdict-bind (compile_groups-Verdict (g ∷ gs)) λ groups. Verdict-pure _)

  compile_where-Verdict :
      (between : String) (gs : List SegmentGroup)
      → Verdict
          (all (is_supported_group number_text) gs)
          (compile_where number_text tenant_id app_id category between gs)
  unfolding compile_where
  compile_where-Verdict between gs = at (and_true _) (
      Verdict-bind (Verdict-add _) λ t.
        Verdict-bind (Verdict-add _)
          λ a. Verdict-bind (where_groups-Verdict between gs) λ more. Verdict-pure _)

  is_ok-finish : (r : Result CompileError (String × List Value)) → is_ok (finish r) ≡ is_ok r
  unfolding finish
  is_ok-finish (ok (sql, args)) = refl
  is_ok-finish (err e) = refl

  is_ok-joined :
      (op : LogicalOp) (gs : List SegmentGroup)
      → is_ok (compile_joined number_text tenant_id app_id category (separator op) gs)
        ≡ is_known op && all (is_supported_group number_text) gs
  unfolding compile_joined
  is_ok-joined and gs = is_ok-finish _ ∙ (compile_where-Verdict " AND " gs).verdict []
  is_ok-joined or gs = is_ok-finish _ ∙ (compile_where-Verdict " OR " gs).verdict []
  is_ok-joined LogicalOp.other gs = refl

  -- `compile` returns exactly on the definitions that `is_supported_dsl` describes, whatever the
  -- tenant, the app and the category; on all others it throws.
  pub is_ok-compile :
      (dsl : SegmentDsl)
      → is_ok (compile number_text tenant_id app_id category dsl) ≡ is_supported_dsl number_text dsl
  unfolding compile
  is_ok-compile dsl = elim (Bool-cases (dsl.version == 1)) [
    | inl same ↦ rw same (is_ok-joined dsl.operator dsl.groups)
    | inr other ↦ rw other refl
  ]
