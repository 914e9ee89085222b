-- ===== src/Segment/Attribute.antt =====
-- packages/segment-dsl/src/index.ts: `compileAttribute`.
use Prim.Native.String.{String}
use text.Mathlib.Text.{◌==◌ as str_eq}
use nudgeon_platform.Common.{List, [], ◌∷◌, if◌then◌else◌, template, join}
use nudgeon_platform.Segment.{
  Number, Value, number, string, AttributeOp, eq, neq, gt, gte, lt, lte, one_of, exists, not_exists,
  contains, before, after, in_last_days, not_in_last_days, AttributeCondition, missing_key,
  attribute_op,
}
use nudgeon_platform.Segment.Params.{
  M, ◌>>=◌, pure, throw, lift, add, add_all, std_attr_keys, promoted_keys, has, scalar, int_value,
  array_values,
}

-- The two ways that `jsonExtract` reads a key: a promoted one from either column.
unfoldable pub extract_promoted : String → String → M String
extract_promoted key fn = do
  a ← add (string key)
  b ← add (string key)
  c ← add (string key)
  pure (
      template (
        "if(JSONHas(std_attrs, " ∷ a ∷ "), " ∷ fn ∷ "(std_attrs, " ∷ b ∷ "), " ∷ fn
        ∷ "(custom_attrs, " ∷ c ∷ "))" ∷ []))

unfoldable pub extract_column : String → String → M String
extract_column key fn = do
  a ← add (string key)
  pure (
      template (
        fn
        ∷ "("
        ∷ (if has std_attr_keys key then "std_attrs" else "custom_attrs")
        ∷ ", "
        ∷ a
        ∷ ")"
        ∷ []))

unfoldable pub json_extract : String → String → M String
json_extract key fn =
    if has promoted_keys key then extract_promoted key fn else extract_column key fn

abbrev pub extract : String → M String
extract key = json_extract key "JSONExtractString"

abbrev pub extract_raw : String → M String
extract_raw key = json_extract key "JSONExtractRaw"

-- The case of the six comparisons, by the operator's text.
unfoldable pub compile_comparison : String → String → Value → M String
compile_comparison key op value = do
  (v, is_num) ← lift (scalar value)
  left ← extract key
  right ← add v
  pure (
      if is_num
      then template ("toFloat64OrNull(" ∷ left ∷ ") " ∷ op ∷ " " ∷ right ∷ [])
      else template (left ∷ " " ∷ op ∷ " " ∷ right ∷ []))

-- What reads a condition on a date, and compares it.
unfoldable pub date_of : String → String
date_of text = template ("parseDateTimeBestEffortOrNull(" ∷ text ∷ ")" ∷ [])

unfoldable pub compile_days : String → String → Value → M String
compile_days key cmp value = do
  days ← lift (int_value value)
  left ← extract key
  right ← add (number days)
  pure (template (date_of left ∷ " " ∷ cmp ∷ " now() - INTERVAL " ∷ right ∷ " DAY" ∷ []))

unfoldable pub compile_date : String → String → Value → M String
compile_date key cmp value = do
  (v, is_num) ← lift (scalar value)
  left ← extract key
  right ← add v
  pure (template (date_of left ∷ " " ∷ cmp ∷ " " ∷ date_of right ∷ []))

unfoldable pub compile_contains : String → Value → M String
compile_contains key value = do
  (v, is_num) ← lift (scalar value)
  left ← extract_raw key
  right ← add v
  pure (template ("has(JSONExtract(" ∷ left ∷ ", 'Array(String)'), " ∷ right ∷ ")" ∷ []))

-- The case `in`, whose values are not empty.
unfoldable pub compile_in : String → List String → M String
compile_in key [] = pure "0"
compile_in key (v ∷ vs) = do
  left ← extract key
  places ← add_all (v ∷ vs)
  pure (template (left ∷ " IN (" ∷ join ", " places ∷ ")" ∷ []))

module _ (number_text : Number → String) where
  unfoldable pub compile_attribute_op : String → AttributeOp → Value → M String
  compile_attribute_op key exists value = do
    raw ← extract_raw key
    pure (template (raw ∷ " != ''" ∷ []))
  compile_attribute_op key not_exists value = do
    raw ← extract_raw key
    pure (template (raw ∷ " = ''" ∷ []))
  compile_attribute_op key eq value = compile_comparison key "=" value
  compile_attribute_op key neq value = compile_comparison key "!=" value
  compile_attribute_op key gt value = compile_comparison key ">" value
  compile_attribute_op key gte value = compile_comparison key ">=" value
  compile_attribute_op key lt value = compile_comparison key "<" value
  compile_attribute_op key lte value = compile_comparison key "<=" value
  compile_attribute_op key one_of value = do
    values ← lift (array_values number_text value)
    compile_in key values
  compile_attribute_op key contains value = compile_contains key value
  compile_attribute_op key in_last_days value = compile_days key ">=" value
  compile_attribute_op key not_in_last_days value = compile_days key "<" value
  compile_attribute_op key before value = compile_date key "<" value
  compile_attribute_op key after value = compile_date key ">" value
  compile_attribute_op key AttributeOp.other value = throw attribute_op

  unfoldable pub compile_attribute : AttributeCondition → M String
  compile_attribute c =
      if str_eq c.key "" then throw missing_key else compile_attribute_op c.key c.op c.value
