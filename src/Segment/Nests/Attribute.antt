-- ===== src/Segment/Nests/Attribute.antt =====
-- packages/segment-dsl/src/index.ts: the brackets of `compileAttribute`.
use Prim.Native.String.{String}
use text.Mathlib.Text.{◌==◌ as str_eq}
use nudgeon_platform.Common.{refl, Bool, true, false, List, [], ◌∷◌, if◌then◌else◌, template}
use nudgeon_platform.Segment.{
  Number, Value, AttributeOp, eq, neq, gt, gte, lt, lte, one_of, exists, not_exists, contains,
  before, after, in_last_days, not_in_last_days, AttributeCondition,
}
use nudgeon_platform.Segment.Params.{
  has, std_attr_keys, promoted_keys, scalar, int_value, array_values, add_all,
}
use nudgeon_platform.Segment.Attribute.{
  extract_promoted, extract_column, json_extract, extract, extract_raw, compile_comparison, date_of,
  compile_days, compile_date, compile_contains, compile_in, compile_attribute_op, compile_attribute,
}
use nudgeon_platform.Segment.Nests.{
  nest, nest_all, IsBalanced, AreBalanced, join-IsBalanced, Gives, Gives-pure, Gives-throw,
  if-Gives, Gives-lift, Gives-bind, Gives-add, template-IsBalanced, Gives-template,
}

extract_promoted-Gives :
    (key fn : String) → IsBalanced fn → Gives IsBalanced (extract_promoted key fn)
unfolding extract_promoted nest nest_all
extract_promoted-Gives key fn h = Gives-bind (Gives-add _) λ a ha.
    Gives-bind (Gives-add _)
      λ b hb. Gives-bind (Gives-add _) λ c hc. Gives-template _ λ depth. rw (ha, h, hb, h, hc) refl

column-IsBalanced : (b : Bool) → IsBalanced (if b then "std_attrs" else "custom_attrs")
unfolding nest
column-IsBalanced true depth = refl
column-IsBalanced false depth = refl

extract_column-Gives : (key fn : String) → IsBalanced fn → Gives IsBalanced (extract_column key fn)
unfolding extract_column nest nest_all
extract_column-Gives key fn h =
    Gives-bind (Gives-add _)
      λ a ha. Gives-template _ λ depth. rw (h, column-IsBalanced (has std_attr_keys key), ha) refl

json_extract-Gives : (key fn : String) → IsBalanced fn → Gives IsBalanced (json_extract key fn)
unfolding json_extract
json_extract-Gives key fn h =
    if-Gives (has promoted_keys key) (extract_promoted-Gives key fn h)
      (extract_column-Gives key fn h)

extract-Gives : (key : String) → Gives IsBalanced (extract key)
unfolding nest
extract-Gives key = json_extract-Gives key "JSONExtractString" λ depth. refl

extract_raw-Gives : (key : String) → Gives IsBalanced (extract_raw key)
unfolding nest
extract_raw-Gives key = json_extract-Gives key "JSONExtractRaw" λ depth. refl

compared-IsBalanced :
    (is_num : Bool) (left op right : String)
    → IsBalanced left
    → IsBalanced op
    → IsBalanced right
    → IsBalanced (
        if is_num
        then template ("toFloat64OrNull(" ∷ left ∷ ") " ∷ op ∷ " " ∷ right ∷ [])
        else template (left ∷ " " ∷ op ∷ " " ∷ right ∷ []))
unfolding nest nest_all
compared-IsBalanced true left op right hl h hr = template-IsBalanced _ λ depth. rw (hl, h, hr) refl
compared-IsBalanced false left op right hl h hr = template-IsBalanced _ λ depth. rw (hl, h, hr) refl

compile_comparison-Gives :
    (key op : String) (value : Value)
    → IsBalanced op
    → Gives IsBalanced (compile_comparison key op value)
unfolding compile_comparison
compile_comparison-Gives key op value h = Gives-lift (scalar value) λ r.
    Gives-bind (extract-Gives key) λ left hl.
      Gives-bind (Gives-add r.0)
        λ right hr. Gives-pure _ (compared-IsBalanced r.1 left op right hl h hr)

date_of-IsBalanced : (t : String) → IsBalanced t → IsBalanced (date_of t)
unfolding date_of nest nest_all
date_of-IsBalanced t h = template-IsBalanced _ λ depth. rw h refl

compile_days-Gives :
    (key cmp : String) (value : Value)
    → IsBalanced cmp
    → Gives IsBalanced (compile_days key cmp value)
unfolding compile_days nest nest_all
compile_days-Gives key cmp value h = Gives-lift (int_value value) λ days.
    Gives-bind (extract-Gives key) λ left hl.
      Gives-bind (Gives-add _)
        λ right hr. Gives-template _ λ depth. rw (date_of-IsBalanced left hl, h, hr) refl

compile_date-Gives :
    (key cmp : String) (value : Value)
    → IsBalanced cmp
    → Gives IsBalanced (compile_date key cmp value)
unfolding compile_date nest nest_all
compile_date-Gives key cmp value h = Gives-lift (scalar value) λ r.
    Gives-bind (extract-Gives key) λ left hl. Gives-bind (Gives-add _) λ right hr.
      Gives-template _ λ depth. rw (date_of-IsBalanced left hl, h, date_of-IsBalanced right hr) refl

compile_contains-Gives :
    (key : String) (value : Value) → Gives IsBalanced (compile_contains key value)
unfolding compile_contains nest nest_all
compile_contains-Gives key value = Gives-lift (scalar value) λ r.
    Gives-bind (extract_raw-Gives key)
      λ left hl. Gives-bind (Gives-add _) λ right hr. Gives-template _ λ depth. rw (hl, hr) refl

add_all-Gives : (vs : List String) → Gives AreBalanced (add_all vs)
unfolding add_all
add_all-Gives [] = Gives-pure _ tt
add_all-Gives (v ∷ vs) =
    Gives-bind (Gives-add _)
      λ first h. Gives-bind (add_all-Gives vs) λ rest hs. Gives-pure _ (h, hs)

compile_in-Gives : (key : String) (vs : List String) → Gives IsBalanced (compile_in key vs)
unfolding compile_in nest nest_all
compile_in-Gives key [] = Gives-pure _ λ depth. refl
compile_in-Gives key (v ∷ vs) = Gives-bind (extract-Gives key) λ left hl.
    Gives-bind (add_all-Gives (v ∷ vs)) λ places hs.
      Gives-template _ λ depth. rw (hl, join-IsBalanced ", " places (λ d. refl) hs) refl

compile_attribute_op-Gives :
    (number_text : Number → String) (key : String) (op : AttributeOp) (value : Value)
    → Gives IsBalanced (compile_attribute_op number_text key op value)
unfolding compile_attribute_op nest nest_all
compile_attribute_op-Gives text key exists value =
    Gives-bind (extract_raw-Gives key) λ raw h. Gives-template _ λ depth. rw h refl
compile_attribute_op-Gives text key not_exists value =
    Gives-bind (extract_raw-Gives key) λ raw h. Gives-template _ λ depth. rw h refl
compile_attribute_op-Gives text key eq value = compile_comparison-Gives key "=" value λ d. refl
compile_attribute_op-Gives text key neq value = compile_comparison-Gives key "!=" value λ d. refl
compile_attribute_op-Gives text key gt value = compile_comparison-Gives key ">" value λ d. refl
compile_attribute_op-Gives text key gte value = compile_comparison-Gives key ">=" value λ d. refl
compile_attribute_op-Gives text key lt value = compile_comparison-Gives key "<" value λ d. refl
compile_attribute_op-Gives text key lte value = compile_comparison-Gives key "<=" value λ d. refl
compile_attribute_op-Gives text key one_of value =
    Gives-lift (array_values text value) λ vs. compile_in-Gives key vs
compile_attribute_op-Gives text key contains value = compile_contains-Gives key value
compile_attribute_op-Gives text key in_last_days value = compile_days-Gives key ">=" value λ d. refl
compile_attribute_op-Gives text key not_in_last_days value =
    compile_days-Gives key "<" value λ d. refl
compile_attribute_op-Gives text key before value = compile_date-Gives key "<" value λ d. refl
compile_attribute_op-Gives text key after value = compile_date-Gives key ">" value λ d. refl
compile_attribute_op-Gives text key AttributeOp.other value = Gives-throw _

pub compile_attribute-Gives :
    (number_text : Number → String) (c : AttributeCondition)
    → Gives IsBalanced (compile_attribute number_text c)
unfolding compile_attribute
compile_attribute-Gives text c =
    if-Gives (str_eq c.key "") (Gives-throw _) (compile_attribute_op-Gives text c.key c.op c.value)
