-- ===== src/Segment/Emits/Query.antt =====
-- packages/segment-dsl/src/index.ts: the values and the places of the whole query.
use Prim.Native.String.{String}
use nudgeon_platform.Common.{
  ◌+◌, ◌≡◌, refl, subst, List, [], ◌∷◌, Option, none, some, arith, ok, length, occurrences,
  occurrences-join, occurrences-template, template, join,
}
use nudgeon_platform.Segment.{
  Number, LogicalOp, and, or, Category, Condition, attribute, event, channel, device, unknown,
  SegmentGroup, SegmentDsl, Compiled,
}
use nudgeon_platform.Segment.Compile.{
  separator, compile_condition, compile_conditions, compile_parts, compile_group, compile_groups,
  where_groups, compile_where, compile_checked, where_clause, compile, compile-eq-ok,
}
use nudgeon_platform.Segment.Emits.{
  holes, holes_in, Owes, Owes-pure, Owes-throw, Owes-bind, Owes-add, Owes-template, Owes-ok,
}
use nudgeon_platform.Segment.Emits.Attribute.{compile_attribute-Owes}
use nudgeon_platform.Segment.Emits.Condition.{
  compile_channel-Owes, compile_device-Owes, compile_event-Owes,
}

-- The separators hold no place.
abbrev IsFree : Option String → Type 0
IsFree none = Unit
IsFree (some between) = holes between ≡ 0

separator-IsFree : (op : LogicalOp) → IsFree (separator op)
unfolding occurrences
separator-IsFree and = refl
separator-IsFree or = refl
separator-IsFree LogicalOp.other = tt

pub separator-holes :
    (op : LogicalOp) {between : String} → separator op ≡ some between → holes between ≡ 0
separator-holes op e = subst IsFree e (separator-IsFree op)

where_clause-holes :
    (tenant app : String) (more : List String)
    → holes (where_clause tenant app more) ≡ holes tenant + holes app + holes_in more
unfolding where_clause occurrences
where_clause-holes tenant app more = omega (
  arith,
  occurrences-join b'?' " AND "
      (template ("tenant_id = toUUID(" ∷ tenant ∷ ")" ∷ [])
        ∷ (template ("app_id = toUUID(" ∷ app ∷ ")" ∷ []) ∷ ("status = 'active'" ∷ more)))
      refl,
  occurrences-template b'?' ("tenant_id = toUUID(" ∷ tenant ∷ ")" ∷ []),
  occurrences-template b'?' ("app_id = toUUID(" ∷ app ∷ ")" ∷ []),
)

module _ (number_text : Number → String) (tenant_id app_id : String) (category : Category) where
  compile_condition-Owes :
      (c : Condition) → Owes 0 holes (compile_condition number_text tenant_id app_id category c)
  unfolding compile_condition
  compile_condition-Owes (attribute c) = compile_attribute-Owes number_text c
  compile_condition-Owes (channel c) = compile_channel-Owes number_text c category
  compile_condition-Owes (device c) = compile_device-Owes c
  compile_condition-Owes (event c) = compile_event-Owes tenant_id app_id c
  compile_condition-Owes unknown = Owes-throw _

  compile_conditions-Owes :
      (cs : List Condition)
      → Owes 0 holes_in (compile_conditions number_text tenant_id app_id category cs)
  unfolding compile_conditions
  compile_conditions-Owes [] = Owes-pure _ refl
  compile_conditions-Owes (c ∷ cs) =
      Owes-bind (compile_condition-Owes c)
        λ part. Owes-bind (compile_conditions-Owes cs) λ parts. Owes-pure _ (omega arith)

  compile_parts-Owes :
      (between : String) (cs : List Condition)
      → holes between ≡ 0
      → Owes 0 holes (compile_parts number_text tenant_id app_id category between cs)
  unfolding compile_parts occurrences
  compile_parts-Owes between [] h = Owes-throw _
  compile_parts-Owes between (c ∷ cs) h =
      Owes-bind (compile_conditions-Owes (c ∷ cs))
        λ parts. Owes-template _ (omega (arith, occurrences-join b'?' between parts h))

  compile_checked-Owes :
      (o : Option String) (cs : List Condition)
      → IsFree o
      → Owes 0 holes (compile_checked number_text tenant_id app_id category o cs)
  unfolding compile_checked
  compile_checked-Owes none cs h = Owes-throw _
  compile_checked-Owes (some between) cs h = compile_parts-Owes between cs h

  compile_group-Owes :
      (g : SegmentGroup) → Owes 0 holes (compile_group number_text tenant_id app_id category g)
  unfolding compile_group
  compile_group-Owes g =
      compile_checked-Owes (separator g.operator) g.conditions (separator-IsFree g.operator)

  compile_groups-Owes :
      (gs : List SegmentGroup)
      → Owes 0 holes_in (compile_groups number_text tenant_id app_id category gs)
  unfolding compile_groups
  compile_groups-Owes [] = Owes-pure _ refl
  compile_groups-Owes (g ∷ gs) =
      Owes-bind (compile_group-Owes g)
        λ part. Owes-bind (compile_groups-Owes gs) λ parts. Owes-pure _ (omega arith)

  pub where_groups-Owes :
      (between : String) (gs : List SegmentGroup)
      → holes between ≡ 0
      → Owes 0 holes_in (where_groups number_text tenant_id app_id category between gs)
  unfolding where_groups occurrences
  where_groups-Owes between [] h = Owes-pure _ refl
  where_groups-Owes between (g ∷ gs) h = Owes-bind (compile_groups-Owes (g ∷ gs)) λ groups.
      Owes-pure _ (
        omega (
          arith,
          occurrences-template b'?' ("(" ∷ join between groups ∷ ")" ∷ []),
          occurrences-join b'?' between groups h,
        ))

  compile_where-Owes :
      (between : String) (gs : List SegmentGroup)
      → holes between ≡ 0
      → Owes 0 holes (compile_where number_text tenant_id app_id category between gs)
  unfolding compile_where occurrences
  compile_where-Owes between gs h = Owes-bind (Owes-add _) λ t. Owes-bind (Owes-add _) λ a.
      Owes-bind (where_groups-Owes between gs h)
        λ more. Owes-template _ (omega (arith, where_clause-holes t a more))

  -- A compiled query binds exactly one value for each place `?` of its text.
  pub compile-balanced :
      (dsl : SegmentDsl) (c : Compiled)
      → compile number_text tenant_id app_id category dsl ≡ ok c
      → holes c.sql ≡ length c.args
  compile-balanced dsl c e =
      let (between, joined, body) = compile-eq-ok number_text tenant_id app_id category dsl c e in
      let (new, eq_args, eq_count) =
        Owes-ok [] (compile_where-Owes between dsl.groups (separator-holes _ joined)) body in
      rw eq_args (omega (arith, eq_count))
