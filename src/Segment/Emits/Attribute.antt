-- ===== src/Segment/Emits/Attribute.antt =====
-- packages/segment-dsl/src/index.ts: the values and the places of `compileAttribute`.
use Prim.Native.String.{String}
use text.Mathlib.Text.{◌==◌ as str_eq}
use nudgeon_platform.Common.{
  ◌≡◌, refl, Bool, true, false, List, [], ◌∷◌, arith, if◌then◌else◌, occurrences,
  occurrences-template, occurrences-join,
}
use nudgeon_platform.Segment.{
  Number, Value, AttributeOp, eq, neq, gt, gte, lt, lte, one_of, exists, not_exists, contains,
  before, after, in_last_days, not_in_last_days, AttributeCondition,
}
use nudgeon_platform.Segment.Params.{
  has, std_attr_keys, promoted_keys, scalar, int_value, array_values, add_all,
}
use nudgeon_platform.Segment.Attribute.{
  extract_promoted, extract_column, json_extract, extract, extract_raw, compile_comparison, date_of,
  compile_days, compile_date, compile_contains, compile_in, compile_attribute_op, compile_attribute,
}
use nudgeon_platform.Segment.Emits.{
  holes, holes_in, Owes, pure-if-Owes, Owes-template, if-Owes, Owes-pure, Owes-throw, Owes-lift,
  Owes-bind, Owes-add,
}

extract_promoted-Owes : (key fn : String) → holes fn ≡ 0 → Owes 0 holes (extract_promoted key fn)
unfolding extract_promoted occurrences
extract_promoted-Owes key fn h =
    Owes-bind (Owes-add _)
      λ a. Owes-bind (Owes-add _) λ b. Owes-bind (Owes-add _) λ c. Owes-template _ (omega arith)

column-holes : (b : Bool) → holes (if b then "std_attrs" else "custom_attrs") ≡ 0
unfolding occurrences
column-holes true = refl
column-holes false = refl

extract_column-Owes : (key fn : String) → holes fn ≡ 0 → Owes 0 holes (extract_column key fn)
unfolding extract_column occurrences
extract_column-Owes key fn h =
    Owes-bind (Owes-add _)
      λ a. Owes-template _ (omega (arith, column-holes (has std_attr_keys key)))

json_extract-Owes : (key fn : String) → holes fn ≡ 0 → Owes 0 holes (json_extract key fn)
unfolding json_extract
json_extract-Owes key fn h =
    if-Owes (has promoted_keys key) (extract_promoted-Owes key fn h) (extract_column-Owes key fn h)

extract-Owes : (key : String) → Owes 0 holes (extract key)
unfolding occurrences
extract-Owes key = json_extract-Owes key "JSONExtractString" refl

extract_raw-Owes : (key : String) → Owes 0 holes (extract_raw key)
unfolding occurrences
extract_raw-Owes key = json_extract-Owes key "JSONExtractRaw" refl

compile_comparison-Owes :
    (key op : String) (value : Value)
    → holes op ≡ 0
    → Owes 0 holes (compile_comparison key op value)
unfolding compile_comparison occurrences
compile_comparison-Owes key op value h = Owes-lift (scalar value) λ r.
    Owes-bind (extract-Owes key) λ left.
      Owes-bind (Owes-add r.0) λ right.
        pure-if-Owes r.1 _ _ (Owes-template _ (omega arith)) (Owes-template _ (omega arith))

date_of-holes : (t : String) → holes (date_of t) ≡ holes t
unfolding date_of occurrences
date_of-holes t = rw occurrences-template (omega arith)

compile_days-Owes :
    (key cmp : String) (value : Value) → holes cmp ≡ 0 → Owes 0 holes (compile_days key cmp value)
unfolding compile_days occurrences
compile_days-Owes key cmp value h = Owes-lift (int_value value) λ days.
    Owes-bind (extract-Owes key)
      λ left. Owes-bind (Owes-add _) λ right. Owes-template _ (omega (arith, date_of-holes left))

compile_date-Owes :
    (key cmp : String) (value : Value) → holes cmp ≡ 0 → Owes 0 holes (compile_date key cmp value)
unfolding compile_date occurrences
compile_date-Owes key cmp value h = Owes-lift (scalar value) λ r.
    Owes-bind (extract-Owes key) λ left.
      Owes-bind (Owes-add _)
        λ right. Owes-template _ (omega (arith, date_of-holes left, date_of-holes right))

compile_contains-Owes : (key : String) (value : Value) → Owes 0 holes (compile_contains key value)
unfolding compile_contains occurrences
compile_contains-Owes key value = Owes-lift (scalar value) λ r.
    Owes-bind (extract_raw-Owes key)
      λ left. Owes-bind (Owes-add _) λ right. Owes-template _ (omega arith)

add_all-Owes : (vs : List String) → Owes 0 holes_in (add_all vs)
unfolding add_all
add_all-Owes [] = Owes-pure _ refl
add_all-Owes (v ∷ vs) =
    Owes-bind (Owes-add _) λ first. Owes-bind (add_all-Owes vs) λ rest. Owes-pure _ (omega arith)

compile_in-Owes : (key : String) (vs : List String) → Owes 0 holes (compile_in key vs)
unfolding compile_in occurrences
compile_in-Owes key [] = Owes-pure _ refl
compile_in-Owes key (v ∷ vs) = Owes-bind (extract-Owes key) λ left.
    Owes-bind (add_all-Owes (v ∷ vs))
      λ places. Owes-template _ (omega (arith, occurrences-join b'?' ", " places refl))

compile_attribute_op-Owes :
    (number_text : Number → String) (key : String) (op : AttributeOp) (value : Value)
    → Owes 0 holes (compile_attribute_op number_text key op value)
unfolding compile_attribute_op occurrences
compile_attribute_op-Owes text key exists value =
    Owes-bind (extract_raw-Owes key) λ raw. Owes-template _ (omega arith)
compile_attribute_op-Owes text key not_exists value =
    Owes-bind (extract_raw-Owes key) λ raw. Owes-template _ (omega arith)
compile_attribute_op-Owes text key eq value = compile_comparison-Owes key "=" value refl
compile_attribute_op-Owes text key neq value = compile_comparison-Owes key "!=" value refl
compile_attribute_op-Owes text key gt value = compile_comparison-Owes key ">" value refl
compile_attribute_op-Owes text key gte value = compile_comparison-Owes key ">=" value refl
compile_attribute_op-Owes text key lt value = compile_comparison-Owes key "<" value refl
compile_attribute_op-Owes text key lte value = compile_comparison-Owes key "<=" value refl
compile_attribute_op-Owes text key one_of value =
    Owes-lift (array_values text value) λ vs. compile_in-Owes key vs
compile_attribute_op-Owes text key contains value = compile_contains-Owes key value
compile_attribute_op-Owes text key in_last_days value = compile_days-Owes key ">=" value refl
compile_attribute_op-Owes text key not_in_last_days value = compile_days-Owes key "<" value refl
compile_attribute_op-Owes text key before value = compile_date-Owes key "<" value refl
compile_attribute_op-Owes text key after value = compile_date-Owes key ">" value refl
compile_attribute_op-Owes text key AttributeOp.other value = Owes-throw _

pub compile_attribute-Owes :
    (number_text : Number → String) (c : AttributeCondition)
    → Owes 0 holes (compile_attribute number_text c)
unfolding compile_attribute
compile_attribute-Owes text c =
    if-Owes (str_eq c.key "") (Owes-throw _) (compile_attribute_op-Owes text c.key c.op c.value)
