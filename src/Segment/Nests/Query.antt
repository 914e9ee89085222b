-- ===== src/Segment/Nests/Query.antt =====
-- packages/segment-dsl/src/index.ts: the brackets of the groups.
use Prim.Native.String.{String}
use nudgeon_platform.Common.{◌≡◌, refl, subst, List, [], ◌∷◌, Option, none, some}
use nudgeon_platform.Segment.{
  Number, LogicalOp, and, or, Category, Condition, attribute, event, channel, device, unknown,
  SegmentGroup,
}
use nudgeon_platform.Segment.Compile.{
  separator, compile_condition, compile_conditions, compile_parts, compile_group, compile_groups,
  compile_checked,
}
use nudgeon_platform.Segment.Nests.{
  nest, nest_all, IsBalanced, AreBalanced, join-IsBalanced, Gives, Gives-pure, Gives-throw,
  Gives-bind, Gives-template,
}
use nudgeon_platform.Segment.Nests.Attribute.{compile_attribute-Gives}
use nudgeon_platform.Segment.Nests.Condition.{
  compile_channel-Gives, compile_device-Gives, compile_event-Gives,
}

abbrev IsPlain : Option String → Type 0
IsPlain none = Unit
IsPlain (some between) = IsBalanced between

separator-IsPlain : (op : LogicalOp) → IsPlain (separator op)
unfolding nest
separator-IsPlain and = λ depth. refl
separator-IsPlain or = λ depth. refl
separator-IsPlain LogicalOp.other = tt

pub separator-IsBalanced :
    (op : LogicalOp) {between : String} → separator op ≡ some between → IsBalanced between
separator-IsBalanced op e = subst IsPlain e (separator-IsPlain op)

module _ (number_text : Number → String) (tenant_id app_id : String) (category : Category) where
  compile_condition-Gives :
      (c : Condition) → Gives IsBalanced (compile_condition number_text tenant_id app_id category c)
  unfolding compile_condition
  compile_condition-Gives (attribute c) = compile_attribute-Gives number_text c
  compile_condition-Gives (channel c) = compile_channel-Gives number_text c category
  compile_condition-Gives (device c) = compile_device-Gives c
  compile_condition-Gives (event c) = compile_event-Gives tenant_id app_id c
  compile_condition-Gives unknown = Gives-throw _

  compile_conditions-Gives :
      (cs : List Condition)
      → Gives AreBalanced (compile_conditions number_text tenant_id app_id category cs)
  unfolding compile_conditions
  compile_conditions-Gives [] = Gives-pure _ tt
  compile_conditions-Gives (c ∷ cs) =
      Gives-bind (compile_condition-Gives c)
        λ part h. Gives-bind (compile_conditions-Gives cs) λ parts hs. Gives-pure _ (h, hs)

  compile_parts-Gives :
      (between : String) (cs : List Condition)
      → IsBalanced between
      → Gives IsBalanced (compile_parts number_text tenant_id app_id category between cs)
  unfolding compile_parts nest nest_all
  compile_parts-Gives between [] h = Gives-throw _
  compile_parts-Gives between (c ∷ cs) h =
      Gives-bind (compile_conditions-Gives (c ∷ cs))
        λ parts hs. Gives-template _ λ depth. rw (join-IsBalanced between parts h hs) refl

  compile_checked-Gives :
      (o : Option String) (cs : List Condition)
      → IsPlain o
      → Gives IsBalanced (compile_checked number_text tenant_id app_id category o cs)
  unfolding compile_checked
  compile_checked-Gives none cs h = Gives-throw _
  compile_checked-Gives (some between) cs h = compile_parts-Gives between cs h

  compile_group-Gives :
      (g : SegmentGroup) → Gives IsBalanced (compile_group number_text tenant_id app_id category g)
  unfolding compile_group
  compile_group-Gives g =
      compile_checked-Gives (separator g.operator) g.conditions (separator-IsPlain g.operator)

  pub compile_groups-Gives :
      (gs : List SegmentGroup)
      → Gives AreBalanced (compile_groups number_text tenant_id app_id category gs)
  unfolding compile_groups
  compile_groups-Gives [] = Gives-pure _ tt
  compile_groups-Gives (g ∷ gs) =
      Gives-bind (compile_group-Gives g)
        λ part h. Gives-bind (compile_groups-Gives gs) λ parts hs. Gives-pure _ (h, hs)
