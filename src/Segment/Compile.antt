-- ===== src/Segment/Compile.antt =====
-- packages/segment-dsl/src/index.ts: `compileCondition`, `compileGroup` and `compile`.
use Prim.Native.String.{String}
use nudgeon_platform.Common.{
  ◌≡◌, refl, arith, Bool, true, false, List, [], ◌∷◌, Option, none, some, ◌==◌, if◌then◌else◌,
  Result, ok, err, template, join,
}
use nudgeon_platform.Segment.{
  Number, Value, string, LogicalOp, and, or, Category, Condition, attribute, event, channel, device,
  unknown, SegmentGroup, SegmentDsl, Compiled, CompileError, unsupported_version, top_operator,
  group_operator, empty_group, unknown_condition,
}
use nudgeon_platform.Segment.Params.{M, ◌>>=◌, pure, throw, add}
use nudgeon_platform.Segment.Attribute.{compile_attribute}
use nudgeon_platform.Segment.Channel.{compile_channel, compile_device}
use nudgeon_platform.Segment.Event.{compile_event}

-- The text that joins the parts of an operator, between blanks; `none` is refused.
abbrev pub separator : LogicalOp → Option String
separator and = some " AND "
separator or = some " OR "
separator LogicalOp.other = none

-- `Params` starts with no value, and its values go into the result.
unfoldable pub finish : Result CompileError (String × List Value) → Result CompileError Compiled
finish (ok (sql, args)) = ok (record { sql = sql; args = args })
finish (err e) = err e

-- The list `where`, joined.
unfoldable pub where_clause : String → String → List String → String
where_clause tenant app more = join " AND " (
    template ("tenant_id = toUUID(" ∷ tenant ∷ ")" ∷ [])
    ∷ (template ("app_id = toUUID(" ∷ app ∷ ")" ∷ []) ∷ ("status = 'active'" ∷ more)))

module _ (number_text : Number → String) (tenant_id app_id : String) (category : Category) where
  unfoldable pub compile_condition : Condition → M String
  compile_condition (attribute c) = compile_attribute number_text c
  compile_condition (channel c) = compile_channel number_text c category
  compile_condition (device c) = compile_device c
  compile_condition (event c) = compile_event tenant_id app_id c
  compile_condition unknown = throw unknown_condition

  unfoldable pub compile_conditions : List Condition → M (List String)
  compile_conditions [] = pure []
  compile_conditions (c ∷ cs) = do
    part ← compile_condition c
    parts ← compile_conditions cs
    pure (part ∷ parts)

  -- The conditions of a group, of which there is one at least.
  unfoldable pub compile_parts : String → List Condition → M String
  compile_parts between [] = throw empty_group
  compile_parts between (c ∷ cs) = do
    parts ← compile_conditions (c ∷ cs)
    pure (template ("(" ∷ join between parts ∷ ")" ∷ []))

  -- The check of the group's operator, and what follows it.
  unfoldable pub compile_checked : Option String → List Condition → M String
  compile_checked none conditions = throw group_operator
  compile_checked (some between) conditions = compile_parts between conditions

  unfoldable pub compile_group : SegmentGroup → M String
  compile_group g = compile_checked (separator g.operator) g.conditions

  unfoldable pub compile_groups : List SegmentGroup → M (List String)
  compile_groups [] = pure []
  compile_groups (g ∷ gs) = do
    part ← compile_group g
    parts ← compile_groups gs
    pure (part ∷ parts)

  -- What the groups add to the list `where`.
  unfoldable pub where_groups : String → List SegmentGroup → M (List String)
  where_groups between [] = pure []
  where_groups between (g ∷ gs) = do
    groups ← compile_groups (g ∷ gs)
    pure (template ("(" ∷ join between groups ∷ ")" ∷ []) ∷ [])

  -- The body of `compile`, behind its two checks.
  unfoldable pub compile_where : String → List SegmentGroup → M String
  compile_where between groups = do
    tenant ← add (string tenant_id)
    app ← add (string app_id)
    more ← where_groups between groups
    pure (
        template
          ("SELECT user_id FROM profiles_mirror FINAL WHERE " ∷ where_clause tenant app more ∷ []))

  -- The check of the top operator, and what follows it.
  unfoldable pub compile_joined : Option String → List SegmentGroup → Result CompileError Compiled
  compile_joined none groups = err top_operator
  compile_joined (some between) groups = finish (compile_where between groups [])

  unfoldable pub compile : SegmentDsl → Result CompileError Compiled
  compile dsl =
      if dsl.version == 1
      then compile_joined (separator dsl.operator) dsl.groups
      else err unsupported_version

checked-eq-ok :
    {A : Type 0} (b : Bool) {r : Result CompileError A} (x : CompileError) {a : A}
    → (if b then r else err x) ≡ ok a
    → r ≡ ok a
checked-eq-ok true x h = h
checked-eq-ok false x h = cc

finish-eq-ok :
    (r : Result CompileError (String × List Value)) (c : Compiled)
    → finish r ≡ ok c
    → r ≡ ok (c.sql, c.args)
unfolding finish
finish-eq-ok (ok (sql, args)) c e = ground arith
finish-eq-ok (err x) c e = cc

module _ (number_text : Number → String) (tenant_id app_id : String) (category : Category) where
  joined-eq-ok :
      (o : Option String) (gs : List SegmentGroup) (c : Compiled)
      → compile_joined number_text tenant_id app_id category o gs ≡ ok c
      → (between : String) × (o ≡ some between)
        × (compile_where number_text tenant_id app_id category between gs [] ≡ ok (c.sql, c.args))
  unfolding compile_joined
  joined-eq-ok none gs c e = cc
  joined-eq-ok (some between) gs c e = (between, refl, finish-eq-ok _ c e)

  -- A compiled query has passed the two checks, and is made by the body.
  pub compile-eq-ok :
      (dsl : SegmentDsl) (c : Compiled)
      → compile number_text tenant_id app_id category dsl ≡ ok c
      → (between : String) × (separator dsl.operator ≡ some between)
        × (compile_where number_text tenant_id app_id category between dsl.groups []
            ≡ ok (c.sql, c.args))
  unfolding compile
  compile-eq-ok dsl c e =
      joined-eq-ok (separator dsl.operator) dsl.groups c
        (checked-eq-ok (dsl.version == 1) unsupported_version e)
