-- ===== src/Segment/Scope.antt =====
-- packages/segment-dsl/src/index.ts: the head of the query that `compile` builds.
use Prim.Native.String.{String}
use Prim.Native.String
use text.Mathlib.TextLemmas.{append_assoc as text_assoc, append-nil as text-nil}
use nudgeon_platform.Common.{
  ◌≡◌, refl, subst, ◌⊎◌, inl, inr, List, [], ◌∷◌, arith, ok, template, join,
}
use nudgeon_platform.Segment.{Number, Value, string, Category, SegmentGroup, SegmentDsl, Compiled}
use nudgeon_platform.Segment.Params.{add, pure, ◌>>=◌}
use nudgeon_platform.Segment.Compile.{
  where_groups, compile_groups, compile_where, where_clause, compile, compile-eq-ok,
}
use nudgeon_platform.Segment.Emits.{Owes-ok, bind-eq-ok}
use nudgeon_platform.Segment.Nests.{IsBalanced, join-IsBalanced, Gives-ok}
use nudgeon_platform.Segment.Nests.Query.{separator-IsBalanced, compile_groups-Gives}
use nudgeon_platform.Segment.Emits.Query.{where_groups-Owes, separator-holes}

abbrev pub scope : String
scope =
    "SELECT user_id FROM profiles_mirror FINAL WHERE tenant_id = toUUID(?) AND app_id = toUUID(?) AND status = 'active'"

-- Behind the scope stands one more condition in brackets: the last one closes the first, since what stands between
-- them closes all that it opens and nothing else.
abbrev pub IsWithin : String → Type 0
IsWithin sql =
    (body : String) × (sql ≡ template (scope ∷ " AND (" ∷ body ∷ ")" ∷ [])) × IsBalanced body

scoped_text : List String → String
scoped_text more =
    template ("SELECT user_id FROM profiles_mirror FINAL WHERE " ∷ where_clause "?" "?" more ∷ [])

regroup :
    (select tenant s app active bracket body close : String)
    → String.◌++◌ select (
        String.◌++◌
          (String.◌++◌ tenant (
            String.◌++◌ s (
              String.◌++◌ app (
                String.◌++◌ s (
                  String.◌++◌ active (
                    String.◌++◌ s
                      (String.◌++◌ bracket (String.◌++◌ body (String.◌++◌ close "")))))))))
          "")
      ≡ String.◌++◌
          (String.◌++◌ select
            (String.◌++◌ tenant (String.◌++◌ s (String.◌++◌ app (String.◌++◌ s active)))))
          (String.◌++◌ (String.◌++◌ s bracket) (String.◌++◌ body (String.◌++◌ close "")))
regroup select tenant s app active bracket body close = simp (text_assoc, text-nil)

module _ (number_text : Number → String) (tenant_id app_id : String) (category : Category) where
  abbrev Shape : List SegmentGroup → List String → Type 0
  Shape gs more =
      ((gs ≡ []) × (more ≡ []))
      ⊎ ((body : String) × (more ≡ template ("(" ∷ body ∷ ")" ∷ []) ∷ []) × IsBalanced body)

  where_groups-Shape :
      (between : String) (gs : List SegmentGroup) (p : List Value) {more : List String}
      {q : List Value}
      → IsBalanced between
      → where_groups number_text tenant_id app_id category between gs p ≡ ok (more, q)
      → Shape gs more
  unfolding where_groups pure
  where_groups-Shape between [] p h e = inl (refl, ground arith)
  where_groups-Shape between (g ∷ gs) p h e =
      let (groups, q', first, last) =
        bind-eq-ok (compile_groups number_text tenant_id app_id category (g ∷ gs)) _ p e in
      let nested =
        Gives-ok p (compile_groups-Gives number_text tenant_id app_id category (g ∷ gs)) first in
      inr (join between groups, ground arith, join-IsBalanced between groups h nested)

  scoped_text-IsWithin :
      (gs : List SegmentGroup) (more : List String)
      → Shape gs more
      → (gs ≡ []) × (scoped_text more ≡ scope) ⊎ IsWithin (scoped_text more)
  unfolding scoped_text where_clause template join
  scoped_text-IsWithin gs more (inl (empty, e)) = inl (empty, rw e refl)
  scoped_text-IsWithin gs more (inr (body, e, balanced)) = inr (
    body,
    rw e (
        regroup "SELECT user_id FROM profiles_mirror FINAL WHERE " "tenant_id = toUUID(?)" " AND "
          "app_id = toUUID(?)" "status = 'active'" "(" body ")"),
    balanced,
  )

  returned-IsWithin :
      (gs : List SegmentGroup) (more : List String) (new : List Value) {q : List Value}
      (c : Compiled)
      → Shape gs more
      → pure (scoped_text more) q ≡ ok (c.sql, c.args)
      → q ≡ string tenant_id ∷ string app_id ∷ new
      → ((gs ≡ []) × (c.sql ≡ scope) ⊎ IsWithin c.sql)
        × ((rest : List Value) × (c.args ≡ string tenant_id ∷ string app_id ∷ rest))
  unfolding pure
  returned-IsWithin gs more new c shape last bound =
      let same : scoped_text more ≡ c.sql = ground arith in
      (
        subst (λ s. (gs ≡ []) × (s ≡ scope) ⊎ IsWithin s) same (scoped_text-IsWithin gs more shape),
        (new, ground arith),
      )

  -- The text of a compiled query is the scope alone where there is no group, and otherwise the scope, an
  -- `AND` and one condition in brackets: the bracket behind the `AND` is closed by the last character of the
  -- text and not before, whatever conditions and operators the groups have, so that no `OR` of the groups
  -- stands beside the scope. The first two values that are bound are the tenant's and the app's.
  pub compile-IsWithin :
      (dsl : SegmentDsl) (c : Compiled)
      → compile number_text tenant_id app_id category dsl ≡ ok c
      → ((dsl.groups ≡ []) × (c.sql ≡ scope) ⊎ IsWithin c.sql)
        × ((rest : List Value) × (c.args ≡ string tenant_id ∷ string app_id ∷ rest))
  unfolding compile_where scoped_text add ◌>>=◌
  compile-IsWithin dsl c e =
      let (between, joined, body) = compile-eq-ok number_text tenant_id app_id category dsl c e in
      let bound : List Value = string tenant_id ∷ string app_id ∷ [] in
      let (more, q, first, last) =
        bind-eq-ok (where_groups number_text tenant_id app_id category between dsl.groups) _ bound
          body in
      let (new, eq_args, _) =
        Owes-ok bound
          (where_groups-Owes number_text tenant_id app_id category between dsl.groups
            (separator-holes dsl.operator joined))
          first in
      returned-IsWithin dsl.groups more new c
        (where_groups-Shape between dsl.groups bound (separator-IsBalanced dsl.operator joined)
          first)
        last eq_args
