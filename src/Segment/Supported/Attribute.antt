-- ===== src/Segment/Supported/Attribute.antt =====
-- packages/segment-dsl/src/index.ts: when `compileAttribute` returns.
use Prim.Native.String.{String}
use text.Mathlib.Text.{◌==◌ as str_eq}
use nudgeon_platform.Common.{
  ◌≡◌, refl, Bool, true, false, not, ◌&&◌, List, [], ◌∷◌, all, if◌then◌else◌, arith, subst,
}
use nudgeon_platform.Segment.{
  Number, Value, boolean, number, string, array, items, AttributeOp, eq, neq, gt, gte, lt, lte,
  one_of, exists, not_exists, contains, before, after, in_last_days, not_in_last_days,
  AttributeCondition,
}
use nudgeon_platform.Segment.Params.{
  M, has, promoted_keys, add_all, scalar, int_value, element_text, element_texts, array_values,
}
use nudgeon_platform.Segment.Attribute.{
  extract_promoted, extract_column, json_extract, compile_comparison, compile_days, compile_date,
  compile_contains, compile_in, compile_attribute_op, compile_attribute,
}
use nudgeon_platform.Segment.Supported.{is_ok, is_scalar, is_number, is_array_of, fits}
use nudgeon_platform.Segment.Supported.Verdicts.{
  Verdict, Verdict-pure, Verdict-throw, Verdict-add, if-Verdict, Verdict-lift, Verdict-bind,
}

is_ok-scalar : (v : Value) → is_ok (scalar v) ≡ is_scalar v
unfolding scalar
is_ok-scalar (string s) = refl
is_ok-scalar (number n) = refl
is_ok-scalar (boolean b) = refl
is_ok-scalar _ = refl

pub is_ok-int_value : (v : Value) → is_ok (int_value v) ≡ is_number v
unfolding int_value
is_ok-int_value (number n) = refl
is_ok-int_value _ = refl

same_branches : (b : Bool) → (if b then true else true) ≡ true
same_branches true = refl
same_branches false = refl

pub and_true : (b : Bool) → (b && true) ≡ b
and_true true = refl
and_true false = refl

pub guarded : (b c : Bool) → (if b then false else c) ≡ not b && c
guarded true c = refl
guarded false c = refl

-- A verdict, read at an equal truth value.
pub at : {A : Type 0} {b c : Bool} {m : M A} → b ≡ c → Verdict b m → Verdict c m
at {m} e = subst (λ x. Verdict x m) e

json_extract-Verdict : (key fn : String) → Verdict true (json_extract key fn)
unfolding json_extract extract_promoted extract_column
json_extract-Verdict key fn = at (same_branches (has promoted_keys key)) (
    if-Verdict (has promoted_keys key)
      (Verdict-bind (Verdict-add _)
        λ a. Verdict-bind (Verdict-add _) λ b. Verdict-bind (Verdict-add _) λ c. Verdict-pure _)
      (Verdict-bind (Verdict-add _) λ a. Verdict-pure _))

-- A place for the key and one for the value, behind a check of the value.
compile_comparison-Verdict :
    (key op : String) (v : Value) → Verdict (is_scalar v) (compile_comparison key op v)
unfolding compile_comparison
compile_comparison-Verdict key op v = at (and_true _) (
    Verdict-lift (scalar v) (is_ok-scalar v) λ r _.
      Verdict-bind (json_extract-Verdict key _)
        λ left. Verdict-bind (Verdict-add _) λ right. Verdict-pure _)

compile_date-Verdict :
    (key cmp : String) (v : Value) → Verdict (is_scalar v) (compile_date key cmp v)
unfolding compile_date
compile_date-Verdict key cmp v = at (and_true _) (
    Verdict-lift (scalar v) (is_ok-scalar v) λ r _.
      Verdict-bind (json_extract-Verdict key _)
        λ left. Verdict-bind (Verdict-add _) λ right. Verdict-pure _)

compile_contains-Verdict :
    (key : String) (v : Value) → Verdict (is_scalar v) (compile_contains key v)
unfolding compile_contains
compile_contains-Verdict key v = at (and_true _) (
    Verdict-lift (scalar v) (is_ok-scalar v) λ r _.
      Verdict-bind (json_extract-Verdict key _)
        λ left. Verdict-bind (Verdict-add _) λ right. Verdict-pure _)

compile_days-Verdict :
    (key cmp : String) (v : Value) → Verdict (is_number v) (compile_days key cmp v)
unfolding compile_days
compile_days-Verdict key cmp v = at (and_true _) (
    Verdict-lift (int_value v) (is_ok-int_value v) λ days _.
      Verdict-bind (json_extract-Verdict key _)
        λ left. Verdict-bind (Verdict-add _) λ right. Verdict-pure _)

add_all-Verdict : (vs : List String) → Verdict true (add_all vs)
unfolding add_all
add_all-Verdict [] = Verdict-pure _
add_all-Verdict (v ∷ vs) =
    Verdict-bind (Verdict-add _) λ first. Verdict-bind (add_all-Verdict vs) λ rest. Verdict-pure _

compile_in-Verdict : (key : String) (vs : List String) → Verdict true (compile_in key vs)
unfolding compile_in
compile_in-Verdict key [] = Verdict-pure _
compile_in-Verdict key (v ∷ vs) =
    Verdict-bind (json_extract-Verdict key _)
      λ left. Verdict-bind (add_all-Verdict (v ∷ vs)) λ places. Verdict-pure _

module _ (number_text : Number → String) where
  is_ok-element_text : (v : Value) → is_ok (element_text number_text v) ≡ is_scalar v
  unfolding element_text
  is_ok-element_text (string s) = refl
  is_ok-element_text (number n) = refl
  is_ok-element_text (boolean b) = refl
  is_ok-element_text _ = refl

  is_ok-element_texts : (vs : List Value) → is_ok (element_texts number_text vs) ≡ all is_scalar vs
  unfolding element_texts
  is_ok-element_texts [] = refl
  is_ok-element_texts (v ∷ vs) = ground (arith, is_ok-element_text v, is_ok-element_texts vs)

  is_ok-array_values : (v : Value) → is_ok (array_values number_text v) ≡ is_array_of is_scalar v
  unfolding array_values
  is_ok-array_values (array vs) = is_ok-element_texts (items vs)
  is_ok-array_values _ = refl

  compile_attribute_op-Verdict :
      (key : String) (op : AttributeOp) (v : Value)
      → Verdict (fits op v) (compile_attribute_op number_text key op v)
  unfolding compile_attribute_op
  compile_attribute_op-Verdict key exists v =
      Verdict-bind (json_extract-Verdict key _) λ raw. Verdict-pure _
  compile_attribute_op-Verdict key not_exists v =
      Verdict-bind (json_extract-Verdict key _) λ raw. Verdict-pure _
  compile_attribute_op-Verdict key eq v = compile_comparison-Verdict key _ v
  compile_attribute_op-Verdict key neq v = compile_comparison-Verdict key _ v
  compile_attribute_op-Verdict key gt v = compile_comparison-Verdict key _ v
  compile_attribute_op-Verdict key gte v = compile_comparison-Verdict key _ v
  compile_attribute_op-Verdict key lt v = compile_comparison-Verdict key _ v
  compile_attribute_op-Verdict key lte v = compile_comparison-Verdict key _ v
  compile_attribute_op-Verdict key one_of v = at (and_true _) (
      Verdict-lift (array_values number_text v) (is_ok-array_values v)
        λ vs _. compile_in-Verdict key vs)
  compile_attribute_op-Verdict key contains v = compile_contains-Verdict key v
  compile_attribute_op-Verdict key in_last_days v = compile_days-Verdict key _ v
  compile_attribute_op-Verdict key not_in_last_days v = compile_days-Verdict key _ v
  compile_attribute_op-Verdict key before v = compile_date-Verdict key _ v
  compile_attribute_op-Verdict key after v = compile_date-Verdict key _ v
  compile_attribute_op-Verdict key AttributeOp.other v = Verdict-throw _

  pub compile_attribute-Verdict :
      (c : AttributeCondition)
      → Verdict (not (str_eq c.key "") && fits c.op c.value) (compile_attribute number_text c)
  unfolding compile_attribute
  compile_attribute-Verdict c = at (guarded (str_eq c.key "") (fits c.op c.value)) (
      if-Verdict (str_eq c.key "") (Verdict-throw _)
        (compile_attribute_op-Verdict c.key c.op c.value))
