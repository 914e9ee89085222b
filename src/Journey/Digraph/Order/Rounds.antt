-- ===== src/Journey/Digraph/Order/Rounds.antt =====
-- The rounds of the sorting of `validateGraph`: what each of them keeps.
use Prim.Native.String.{String}
use text.Mathlib.Text.{◌==◌ as str_eq}
use text.Mathlib.TextEquality.{eq_iff}
use nudgeon_platform.Common.{
  ℕ, zero, suc, ◌+◌, ◌<◌, ◌≡◌, refl, sym, ap, subst, ◌∙◌, inl, inr, true, false, ◌&&◌, ◌||◌, List,
  [], ◌∷◌, ◌++◌, Memᴰ, ◌==◌, arith, Bool-cases, length, length-append, count_rows,
}
use nudgeon_platform.Journey.Digraph.{
  Arc, has, targets, put, Sorting, lowered, relax, relax_all, pass,
}
use nudgeon_platform.Journey.Digraph.Counts.{
  has-append, distinct, distinct-snoc, has_of_distinct, append_snoc, occurs, is_open, is_open-pass,
  zeros-put, zeros-put_pos, position, position-lt, position-append, position-snoc, has_of_position,
}
use nudgeon_platform.Journey.Digraph.Order.Queue.{append_assoc, open-none}

-- `ts` are the targets that the inner loop has still to lower.
pub record IsSorting (nodes : List String) (arcs : List Arc) (ts : List String) (s : Sorting)
    : Type 0 where
  pub counted :
      (v : String)
      → has nodes v ≡ true
      → s.degrees v ≡ count_rows (is_open s.passed v) arcs + occurs v ts
  pub queued :
      (v : String) → has nodes v ≡ true → has (s.passed ++ s.waiting) v ≡ (s.degrees v == 0)
  pub within : (v : String) → has (s.passed ++ s.waiting) v ≡ true → has nodes v ≡ true
  pub once : distinct (s.passed ++ s.waiting) ≡ true
  pub many : length s.passed + length s.waiting ≡ count_rows (λ v. s.degrees v == 0) nodes
  pub ordered :
      (u v : String)
      → Memᴰ (u, v) arcs
      → has s.passed v ≡ true
      → position s.passed u < position s.passed v

module _ (nodes : List String) (arcs : List Arc) (all_once : distinct nodes ≡ true) where
  pub put-counted :
      (t : String) (ts : List String) (s : Sorting) (k : ℕ)
      → IsSorting nodes arcs (t ∷ ts) s
      → s.degrees t ≡ suc k
      → (v : String) → has nodes v ≡ true
      → put s.degrees t k v ≡ count_rows (is_open s.passed v) arcs + occurs v ts
  put-counted t ts s k h e v m = elim (Bool-cases (str_eq t v)) [
    | inl same ↦
        let one : s.degrees t ≡ s.degrees v = ap s.degrees ((eq_iff t v).0 same) in
        ground (arith, h.counted v m)
    | inr apart ↦ ground (arith, h.counted v m)
  ]

  pub put-queued :
      (t : String) (ts : List String) (s : Sorting) (k : ℕ)
      → IsSorting nodes arcs (t ∷ ts) s
      → s.degrees t ≡ suc k
      → (v : String) → has nodes v ≡ true
      → (has (s.passed ++ s.waiting) v || str_eq t v && k == 0) ≡ (put s.degrees t k v == 0)
  put-queued t ts s k h e v m = elim (Bool-cases (str_eq t v)) [
    | inl same ↦
        let one : s.degrees t ≡ s.degrees v = ap s.degrees ((eq_iff t v).0 same) in
        ground (arith, h.queued v m)
    | inr apart ↦ ground (arith, h.queued v m)
  ]

  pub lowered-pos :
      (t : String) (ts : List String) (s : Sorting) (k : ℕ)
      → IsSorting nodes arcs (t ∷ ts) s
      → s.degrees t ≡ suc (suc k)
      → IsSorting nodes arcs ts (record s { degrees = put s.degrees t (suc k) })
  lowered-pos t ts s k h e = record {
    counted = put-counted t ts s (suc k) h e;
    queued = λ v m. ground (arith, put-queued t ts s (suc k) h e v m);
    within = h.within;
    once = h.once;
    many =
        omega
          (arith, h.many, zeros-put_pos nodes s.degrees t (suc k) (ground arith) (ground arith));
    ordered = h.ordered;
  }

  pub lowered-zero :
      (t : String) (ts : List String) (s : Sorting)
      → IsSorting nodes arcs (t ∷ ts) s
      → has nodes t ≡ true
      → s.degrees t ≡ 1
      → IsSorting nodes arcs ts
          (record s { degrees = put s.degrees t 0; waiting = s.waiting ++ t ∷ [] })
  lowered-zero t ts s h node e =
      let same = append_assoc s.passed s.waiting (t ∷ []) in
      let new : has (s.passed ++ s.waiting) t ≡ false = ground (arith, h.queued t node) in
      record {
        counted = put-counted t ts s 0 h e;
        queued = λ v m. rw (← same) (
            ground
              (arith, has-append (s.passed ++ s.waiting) (t ∷ []) v, put-queued t ts s 0 h e v m));
        within = λ v m. elim (Bool-cases (str_eq t v)) [
          | inl one ↦ subst (λ w. has nodes w ≡ true) ((eq_iff t v).0 one) node
          | inr apart ↦
              h.within v
                (ground (arith, has-append (s.passed ++ s.waiting) (t ∷ []) v, rw (← same) at m))
        ];
        once = rw (← same) (distinct-snoc (s.passed ++ s.waiting) t h.once new);
        many = omega (
          arith,
          h.many,
          length-append s.waiting (t ∷ []),
          zeros-put nodes s.degrees t all_once node (ground arith),
        );
        ordered = h.ordered;
      }

  pub by_degree :
      (t : String) (ts : List String) (s : Sorting)
      → IsSorting nodes arcs (t ∷ ts) s
      → has nodes t ≡ true
      → (d : ℕ) → s.degrees t ≡ d
      → IsSorting nodes arcs ts (lowered t d s)
  by_degree t ts s h node zero e =
      let counted = h.counted t node in absurd (ground (arith, eq_iff t t))
  by_degree t ts s h node (suc zero) e = lowered-zero t ts s h node e
  by_degree t ts s h node (suc (suc k)) e =
      let away : (suc k == 0) ≡ false = ground arith in rw away (lowered-pos t ts s k h e)

  pub relax-IsSorting :
      (t : String) (ts : List String) (s : Sorting)
      → IsSorting nodes arcs (t ∷ ts) s
      → IsSorting nodes arcs ts (relax nodes t s)
  unfolding relax
  relax-IsSorting t ts s h = elim (Bool-cases (has nodes t)) [
    | inr outside ↦ rw outside (record {
      counted = λ v m. elim (Bool-cases (str_eq t v)) [
        | inl one ↦
            let clash : has nodes t ≡ has nodes v = ap (has nodes) ((eq_iff t v).0 one) in cc
        | inr apart ↦ ground (arith, h.counted v m)
      ];
      queued = h.queued;
      within = h.within;
      once = h.once;
      many = h.many;
      ordered = h.ordered;
    })
    | inl node ↦ rw node (by_degree t ts s h node (s.degrees t) refl)
  ]

  pub relax_all-IsSorting :
      (ts : List String) (s : Sorting)
      → IsSorting nodes arcs ts s
      → IsSorting nodes arcs [] (relax_all nodes ts s)
  unfolding relax_all
  relax_all-IsSorting [] s h = h
  relax_all-IsSorting (t ∷ ts) s h =
      relax_all-IsSorting ts (relax nodes t s) (relax-IsSorting t ts s h)

  pub pass-ordered :
      (s : Sorting) (w : String) (rest : List String)
      → IsSorting nodes arcs [] s
      → s.waiting ≡ w ∷ rest
      → has s.passed w ≡ false
      → (u v : String) → Memᴰ (u, v) arcs
      → has (s.passed ++ w ∷ []) v ≡ true
      → position (s.passed ++ w ∷ []) u < position (s.passed ++ w ∷ []) v
  pass-ordered s w rest h e new u v arc m = elim (Bool-cases (has s.passed v)) [
    | inl old ↦
        let before = h.ordered u v arc old in
        let there : has s.passed u ≡ true =
          has_of_position s.passed u (omega (arith, before, position-lt s.passed v old)) in
        omega (
          arith,
          before,
          position-append s.passed (w ∷ []) u there,
          position-append s.passed (w ∷ []) v old,
        )
    | inr fresh ↦
        let one : w ≡ v = ground (arith, has-append s.passed (w ∷ []) v, eq_iff w v) in
        let listed : has (s.passed ++ s.waiting) w ≡ true =
          rw e (ground (arith, has-append s.passed (w ∷ rest) w, eq_iff w w)) in
        let node = h.within w listed in
        let zeroed : s.degrees w ≡ 0 = ground (arith, h.queued w node) in
        let there : has s.passed u ≡ true =
          open-none arcs s.passed u w (omega (arith, zeroed, h.counted w node))
            (subst (λ x. Memᴰ (u, x) arcs) (sym one) arc) in
        subst (λ x. position (s.passed ++ w ∷ []) u < position (s.passed ++ w ∷ []) x) one
          (omega (
            arith,
            position-append s.passed (w ∷ []) u there,
            position-lt s.passed u there,
            position-snoc s.passed w new,
          ))
  ]

  pub pass-IsSorting :
      (s : Sorting) (w : String) (rest : List String)
      → IsSorting nodes arcs [] s
      → s.waiting ≡ w ∷ rest
      → IsSorting nodes arcs [] (pass nodes arcs w rest s)
  unfolding pass
  pass-IsSorting s w rest h e =
      let same : (s.passed ++ w ∷ []) ++ rest ≡ s.passed ++ s.waiting =
        append_snoc s.passed rest w ∙ ap (λ q. s.passed ++ q) (sym e) in
      let new : has s.passed w ≡ false = has_of_distinct s.passed rest w (rw e at h.once) in
      relax_all-IsSorting (targets arcs w)
        (record s { passed = s.passed ++ w ∷ []; waiting = rest })
        (record {
          counted = λ v m. omega (arith, h.counted v m, is_open-pass arcs s.passed w v new);
          queued = λ v m. rw same (h.queued v m);
          within = λ v m. h.within v (rw same at m);
          once = rw same h.once;
          many = omega (arith, h.many, length-append s.passed (w ∷ []), ap length e);
          ordered = pass-ordered s w rest h e new;
        })
