-- ===== src/Segment/Tests.antt =====
-- Runs of the compiler on cases of packages/segment-dsl/golden/cases.json and index.test.ts, and the
-- theorems at such inputs.
use Prim.Native.String.{String}
use nudgeon_platform.Common.{
  ◌≡◌, refl, ◌⊎◌, true, none, false, List, [], ◌∷◌, some, Result, ok, err, template, join,
  occurrences, decimal,
}
use nudgeon_platform.Segment.{
  Number, finite, Value, undefined, string, number, array, nil, cons, and, or, marketing, eq,
  AttributeOp, count_gte, not_performed, token_platform_in, Condition, attribute, event, channel,
  device, SegmentDsl, Compiled, CompileError, platform, first_performed, attribute_op,
  unsupported_version, device_unsupported,
}
use nudgeon_platform.Segment.Params.{
  ◌>>=◌, pure, throw, lift, add, add_all, cmp_ops, scalar, int_value, element_text, element_texts,
  array_values,
}
use nudgeon_platform.Segment.Attribute.{
  extract_promoted, extract_column, json_extract, compile_comparison, date_of, compile_days,
  compile_date, compile_contains, compile_in, compile_attribute_op, compile_attribute,
}
use nudgeon_platform.Segment.Channel.{
  add_platforms, compile_platforms, compile_channel_op, compile_channel, refusal, compile_device,
}
use nudgeon_platform.Segment.Event.{
  merge_map, event_query, within_window, base_windowed, compile_performed, compile_count,
  compile_moment, compile_event_op, compile_event,
}
use nudgeon_platform.Segment.Compile.{
  finish, where_clause, compile_condition, compile_conditions, compile_parts, compile_checked,
  compile_group, compile_groups, where_groups, compile_where, compile_joined, compile,
}
use nudgeon_platform.Segment.Bind.{
  param_name, named_place, click_house_type, replace_places, to_click_house, ClickHouseQuery,
}
use nudgeon_platform.Segment.Bind.Laws.{named, to_click_house-compile}
use nudgeon_platform.Segment.Emits.{holes}
use nudgeon_platform.Segment.Emits.Query.{compile-balanced}
use nudgeon_platform.Segment.Supported.{is_ok, is_supported_dsl}
use nudgeon_platform.Segment.Supported.Compile.{is_ok-compile}
use nudgeon_platform.Segment.Nests.{nest}
use nudgeon_platform.Segment.Scope.{scope, IsWithin, compile-IsWithin}

compiler : Unit {0}
unfolding ◌>>=◌ pure throw lift add add_all cmp_ops scalar int_value element_text element_texts
    array_values extract_promoted extract_column json_extract compile_comparison date_of
    compile_days compile_date compile_contains compile_in compile_attribute_op compile_attribute
    add_platforms compile_platforms compile_channel_op compile_channel refusal compile_device
    merge_map event_query within_window base_windowed compile_performed compile_count compile_moment
    compile_event_op compile_event finish where_clause compile_condition compile_conditions
    compile_parts compile_checked compile_group compile_groups where_groups compile_where
    compile_joined compile template join param_name named_place click_house_type replace_places
    to_click_house decimal occurrences
compiler = tt

abbrev text_of : Number → String
text_of n = "1"

abbrev whole : Number
whole = finite false 30 0

abbrev of_condition : Condition → SegmentDsl
of_condition c = record {
  version = 1;
  operator = and;
  groups = record { operator = or; conditions = c ∷ [] } ∷ [];
}

abbrev run : SegmentDsl → Result CompileError Compiled
run dsl = compile text_of "T" "A" marketing dsl

abbrev country : SegmentDsl
country = of_condition (attribute (record { key = "country"; op = eq; value = string "KR" }))

abbrev country_sql : String
country_sql =
    "SELECT user_id FROM profiles_mirror FINAL WHERE tenant_id = toUUID(?) AND app_id = toUUID(?) AND status = 'active' AND ((JSONExtractString(std_attrs, ?) = ?))"

abbrev country_query : Compiled
country_query = record {
  sql = country_sql;
  args = string "T" ∷ string "A" ∷ string "country" ∷ string "KR" ∷ [];
}

country_test : run country ≡ ok country_query
unfolding compiler
country_test = refl

-- The values of two event conditions are bound in the order of the text.
abbrev two_events : SegmentDsl
two_events = record {
  version = 1;
  operator = and;
  groups =
      record {
        operator = and;
        conditions =
            event (record {
              event = "purchase";
              op = count_gte;
              value = number (finite false 2 0);
              window_days = some (finite false 30 0);
            })
            ∷ event (record {
              event = "cancel";
              op = not_performed;
              value = undefined;
              window_days = some (finite false 7 0);
            })
            ∷ [];
      }
      ∷ [];
}

abbrev args_of : Result CompileError Compiled → List Value
args_of (ok c) = c.args
args_of (err e) = []

two_events_args :
    args_of (run two_events)
    ≡ string "T"
      ∷ string "A"
      ∷ string "T"
      ∷ string "A"
      ∷ string "T"
      ∷ string "A"
      ∷ string "purchase"
      ∷ number (finite false 30 0)
      ∷ number (finite false 2 0)
      ∷ string "T"
      ∷ string "A"
      ∷ string "T"
      ∷ string "A"
      ∷ string "cancel"
      ∷ number (finite false 7 0)
      ∷ []
unfolding compiler
two_events_args = refl

-- An unknown operator, another version, an unknown platform and a device condition are refused.
refusals :
    (run
        (of_condition (attribute (record { key = "x"; op = AttributeOp.other; value = undefined })))
      ≡ err attribute_op)
    × (run (record { version = 99; operator = and; groups = [] }) ≡ err unsupported_version)
    × (run (
          of_condition
            (channel (record { op = token_platform_in; value = array (cons (string "web") nil) })))
        ≡ err platform)
    × (run (of_condition (device (record { key = "app_version"; op = eq; value = string "1" })))
        ≡ err device_unsupported)
unfolding compiler
refusals = (refl, refl, refl, refl)

compile-balanced_example : holes country_sql ≡ 4
compile-balanced_example =
    compile-balanced text_of "T" "A" marketing country country_query country_test

compile-IsWithin_example :
    ((country.groups ≡ []) × (country_sql ≡ scope) ⊎ IsWithin country_sql)
    × ((rest : List Value) × (country_query.args ≡ string "T" ∷ string "A" ∷ rest))
compile-IsWithin_example =
    compile-IsWithin text_of "T" "A" marketing country country_query country_test

to_click_house-compile_example :
    (q : ClickHouseQuery) × (to_click_house country_query ≡ ok q)
    × (q.query_params ≡ named 0 country_query.args)
    × (holes q.query ≡ 0)
to_click_house-compile_example =
    to_click_house-compile text_of "T" "A" marketing country country_query country_test

-- What is accepted, and what is not: a window is missing here.
abbrev first_time : SegmentDsl
first_time = of_condition (
    event
      (record { event = "purchase"; op = first_performed; value = undefined; window_days = none }))

is_ok-compile_example : is_ok (run first_time) ≡ false
is_ok-compile_example = is_ok-compile text_of "T" "A" marketing first_time

supported_tests :
    (is_supported_dsl text_of country ≡ true) × (is_supported_dsl text_of two_events ≡ true)
supported_tests = (refl, refl)

-- What two groups without brackets of their own round them would leave between the brackets.
escaped_test : nest 0 "country = 'KR') OR (country = 'JP'" ≡ none
unfolding nest
escaped_test = refl
