-- ===== src/Segment/Event.antt =====
-- packages/segment-dsl/src/index.ts: `compileEvent`.
use Prim.Native.String.{String}
use text.Mathlib.Text.{◌==◌ as str_eq}
use nudgeon_platform.Common.{[], ◌∷◌, Option, none, some, if◌then◌else◌, template}
use nudgeon_platform.Segment.{
  Number, number, string, EventOp, count_gte, count_lte, performed, not_performed, first_performed,
  last_performed, EventCondition, missing_event, missing_window, event_op,
}
use nudgeon_platform.Segment.Params.{M, ◌>>=◌, pure, throw, lift, add, int_value}

-- The end of `base`, behind the query.
unfoldable pub within_window : String → Option Number → M String
within_window query none = pure query
within_window query (some days) = do
  place ← add (number days)
  pure (template (query ∷ " AND e.server_ts >= now() - INTERVAL " ∷ place ∷ " DAY" ∷ []))

module _ (tenant_id app_id : String) where
  -- `mergeMap`: the newest edge from each merged user.
  unfoldable pub merge_map : M String
  merge_map = do
    tenant ← add (string tenant_id)
    app ← add (string app_id)
    pure (
        template (
          "(SELECT from_user_id, argMax(to_user_id, merged_at) AS to_user_id FROM user_merges WHERE tenant_id = toUUID("
          ∷ tenant ∷ ") AND app_id = toUUID(" ∷ app ∷ ") GROUP BY from_user_id)" ∷ []))

  -- `query` in `base`.
  unfoldable pub event_query : String → M String
  event_query name = do
    merges ← merge_map
    tenant ← add (string tenant_id)
    app ← add (string app_id)
    event ← add (string name)
    pure (
        template (
          "SELECT if(m.to_user_id = toUUID('00000000-0000-0000-0000-000000000000'), e.user_id, m.to_user_id) AS user_id FROM events e LEFT JOIN "
          ∷ merges ∷ " m ON e.user_id = m.from_user_id WHERE e.tenant_id = toUUID(" ∷ tenant
          ∷ ") AND e.app_id = toUUID(" ∷ app ∷ ") AND e.event_name = " ∷ event ∷ []))

  -- `base(true)`.
  unfoldable pub base_windowed : EventCondition → M String
  base_windowed c = do query ← event_query c.event; within_window query c.window_days

  unfoldable pub compile_performed : String → EventCondition → M String
  compile_performed membership c = do
    base ← base_windowed c
    pure (template ("user_id " ∷ membership ∷ " (" ∷ base ∷ " GROUP BY user_id)" ∷ []))

  unfoldable pub compile_count : String → EventCondition → M String
  compile_count cmp c = do
    n ← lift (int_value c.value)
    base ← base_windowed c
    place ← add (number n)
    pure (
        template (
          "user_id IN (" ∷ base ∷ " GROUP BY user_id HAVING uniqExact(insert_id) " ∷ cmp ∷ " "
          ∷ place ∷ ")" ∷ []))

  -- The first or the last time lies in the window, which is no filter of the rows here.
  unfoldable pub compile_moment : String → String → Option Number → M String
  compile_moment agg name none = throw missing_window
  compile_moment agg name (some days) = do
    base ← event_query name
    place ← add (number days)
    pure (
        template (
          "user_id IN (" ∷ base ∷ " GROUP BY user_id HAVING " ∷ agg
          ∷ "(e.server_ts) >= now() - INTERVAL " ∷ place ∷ " DAY)" ∷ []))

  unfoldable pub compile_event_op : EventOp → EventCondition → M String
  compile_event_op performed c = compile_performed "IN" c
  compile_event_op not_performed c = compile_performed "NOT IN" c
  compile_event_op count_gte c = compile_count ">=" c
  compile_event_op count_lte c = compile_count "<=" c
  compile_event_op first_performed c = compile_moment "min" c.event c.window_days
  compile_event_op last_performed c = compile_moment "max" c.event c.window_days
  compile_event_op EventOp.other c = throw event_op

  unfoldable pub compile_event : EventCondition → M String
  compile_event c = if str_eq c.event "" then throw missing_event else compile_event_op c.op c
