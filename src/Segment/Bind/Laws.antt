-- ===== src/Segment/Bind/Laws.antt =====
-- packages/segment-dsl/src/index.ts: `toClickHouse` on a text whose places are as many as its values.
use Prim.Native.Char.{code}
use Prim.Native.String.{String}
use mathlib.Core.List.{append-nil, append_assoc}
use nudgeon_platform.Common.{
  ℕ, zero, suc, ◌+◌, ◌/◌, ◌%◌, ◌≡◌, refl, sym, ap, ◌∙◌, inl, inr, Bool, true, false, Bool-cases,
  List, [], ◌∷◌, ◌++◌, ◌==◌, if◌then◌else◌, arith, ok, length, decimal, digit, decimal_from, ==_iff,
  occurrences, occurrences-append, occurrences-template, length-append,
}
use nudgeon_platform.Segment.{is_integer, Value, number, SegmentDsl, Number, Category, Compiled}
use nudgeon_platform.Segment.Bind.{
  arg_at, click_house_type, ClickHouseQuery, param_name, named_place, replace_places,
  to_click_house,
}
use nudgeon_platform.Segment.Compile.{compile}
use nudgeon_platform.Segment.Emits.{holes}
use nudgeon_platform.Segment.Emits.Query.{compile-balanced}

-- The parameters of values, from number `i` on.
abbrev pub named : ℕ → List Value → List (String × Value)
named i [] = []
named i (v ∷ vs) = (param_name i, v) ∷ named (suc i) vs

arg_at-append :
    (done : List Value) (v : Value) (rest : List Value)
    → arg_at (done ++ v ∷ rest) (length done) ≡ v
arg_at-append [] v rest = refl
arg_at-append (d ∷ done) v rest = arg_at-append done v rest

module _ (args : List Value) where
  replace_places-count :
      (s : String) (i : ℕ) (params : List (String × Value))
      → (replace_places args s i params).count ≡ i + holes s
  unfolding replace_places occurrences
  replace_places-count String.[] i params = omega arith
  replace_places-count (String.◌∷◌ c s) i params = elim (Bool-cases (code c == b'?')) [
    | inl e ↦ rw e (
        omega
          (arith, replace_places-count s (suc i) (params ++ (param_name i, arg_at args i) ∷ [])))
    | inr e ↦ rw e (omega (arith, replace_places-count s i params))
  ]

  place_params :
      (s : String) (i : ℕ) (done rest : List Value) (v : Value)
      (params found : List (String × Value))
      → args ≡ done ++ v ∷ rest
      → i ≡ length done
      → found ≡ (params ++ (param_name i, arg_at args i) ∷ []) ++ named (suc i) rest
      → found ≡ params ++ named i (v ∷ rest)
  place_params s i done rest v params found e same h =
      let read : arg_at args i ≡ v = rw (e, same) (arg_at-append done v rest) in
      h
      ∙ append_assoc params ((param_name i, arg_at args i) ∷ []) (named (suc i) rest)
      ∙ ap (λ (x : Value). params ++ (param_name i, x) ∷ named (suc i) rest) read

  replace_places-params :
      (s : String) (i : ℕ) (done rest : List Value) (params : List (String × Value))
      → args ≡ done ++ rest
      → i ≡ length done
      → holes s ≡ length rest
      → (replace_places args s i params).params ≡ params ++ named i rest
  unfolding replace_places occurrences
  replace_places-params String.[] i done [] params e same h = sym (append-nil params)
  replace_places-params String.[] i done (v ∷ rest) params e same h = absurd (omega arith)
  replace_places-params (String.◌∷◌ c s) i done [] params e same h =
      elim (Bool-cases (code c == b'?')) [
        | inl hit ↦ absurd (omega (arith, rw hit at h))
        | inr miss ↦
            rw miss (replace_places-params s i done [] params e same (omega (arith, rw miss at h)))
      ]
  replace_places-params (String.◌∷◌ c s) i done (v ∷ rest) params e same h =
      elim (Bool-cases (code c == b'?')) [
        | inl hit ↦ rw hit (
            place_params s i done rest v params _ e same (
              replace_places-params s (suc i) (done ++ v ∷ []) rest
                (params ++ (param_name i, arg_at args i) ∷ [])
                (e ∙ sym (append_assoc done (v ∷ []) rest))
                (omega (arith, length-append done (v ∷ []))) (omega (arith, rw hit at h))))
        | inr miss ↦
            rw miss (
              replace_places-params s i done (v ∷ rest) params e same (omega (arith, rw miss at h)))
      ]

digit-holes : (n : ℕ) → holes (digit n) ≡ 0
unfolding occurrences
digit-holes zero = refl
digit-holes (suc zero) = refl
digit-holes (suc (suc zero)) = refl
digit-holes (suc (suc (suc zero))) = refl
digit-holes (suc (suc (suc (suc zero)))) = refl
digit-holes (suc (suc (suc (suc (suc zero))))) = refl
digit-holes (suc (suc (suc (suc (suc (suc zero)))))) = refl
digit-holes (suc (suc (suc (suc (suc (suc (suc zero))))))) = refl
digit-holes (suc (suc (suc (suc (suc (suc (suc (suc zero)))))))) = refl
digit-holes _ = refl

decimal_from-holes : (fuel n : ℕ) → holes (decimal_from fuel n) ≡ 0
unfolding decimal_from
decimal_from-holes zero n = digit-holes (n % 10)
decimal_from-holes (suc fuel) n = elim (Bool-cases ((n / 10) == 0)) [
  | inl small ↦ rw small (digit-holes n)
  | inr large ↦ rw large (
      omega (
        arith,
        occurrences-append b'?' (decimal_from fuel (n / 10)) (digit (n % 10)),
        decimal_from-holes fuel (n / 10),
        digit-holes (n % 10),
      ))
]

integer_type-holes : (b : Bool) → holes (if b then "Int64" else "Float64") ≡ 0
unfolding occurrences
integer_type-holes true = refl
integer_type-holes false = refl

type-holes : (v : Value) → holes (click_house_type v) ≡ 0
unfolding click_house_type occurrences
type-holes (number n) = integer_type-holes (is_integer n)
type-holes v = refl

named_place-holes : (i : ℕ) (v : Value) → holes (named_place i v) ≡ 0
unfolding named_place param_name occurrences decimal
named_place-holes i v = omega (
  arith,
  occurrences-template b'?' ("{" ∷ param_name i ∷ ":" ∷ click_house_type v ∷ "}" ∷ []),
  occurrences-template b'?' ("p" ∷ decimal i ∷ []),
  decimal_from-holes i i,
  type-holes v,
)

replace_places-holes :
    (args : List Value) (s : String) (i : ℕ) (params : List (String × Value))
    → holes (replace_places args s i params).text ≡ 0
unfolding replace_places occurrences
replace_places-holes args String.[] i params = refl
replace_places-holes args (String.◌∷◌ c s) i params = elim (Bool-cases (code c == b'?')) [
  | inl hit ↦
      let next = params ++ (param_name i, arg_at args i) ∷ [] in
      rw hit (
        omega (
          arith,
          occurrences-append b'?' (named_place i (arg_at args i))
              (replace_places args s (suc i) next).text,
          named_place-holes i (arg_at args i),
          replace_places-holes args s (suc i) next,
        ))
  | inr miss ↦ rw miss (
      omega (
        arith,
        occurrences-append b'?' (String.◌∷◌ c String.[]) (replace_places args s i params).text,
        replace_places-holes args s i params,
        ap (λ (b : Bool). (if b then 1 else 0) + 0) miss,
      ))
]

-- A text with as many places as values becomes a query, with the values in order as the parameters
-- p0, p1, … and with no place left.
pub to_click_house-named :
    (c : Compiled)
    → holes c.sql ≡ length c.args
    → (q : ClickHouseQuery) × (to_click_house c ≡ ok q)
      × (q.query_params ≡ named 0 c.args)
      × (holes q.query ≡ 0)
unfolding to_click_house
to_click_house-named c h =
    let done = replace_places c.args c.sql 0 [] in
    let count : (done.count == length c.args) ≡ true =
      (==_iff _ _).1 (omega (arith, replace_places-count c.args c.sql 0 [])) in
    (
      record { query = done.text; query_params = done.params },
      rw count refl,
      replace_places-params c.args c.sql 0 [] c.args [] refl refl h,
      replace_places-holes c.args c.sql 0 [],
    )

-- Every definition that compiles becomes such a query: `toClickHouse` never refuses it.
pub to_click_house-compile :
    (number_text : Number → String) (tenant_id app_id : String) (category : Category)
    (dsl : SegmentDsl) (c : Compiled)
    → compile number_text tenant_id app_id category dsl ≡ ok c
    → (q : ClickHouseQuery) × (to_click_house c ≡ ok q)
      × (q.query_params ≡ named 0 c.args)
      × (holes q.query ≡ 0)
to_click_house-compile number_text tenant_id app_id category dsl c e =
    to_click_house-named c (compile-balanced number_text tenant_id app_id category dsl c e)
