-- ===== src/Journey/Digraph/Order.antt =====
-- The sorting by degrees of `validateGraph`: what holds in each round, that the rounds suffice, and when it
-- passes all nodes.
mod Queue
mod Rounds
use Prim.Native.String.{String}
use text.Mathlib.Text.{◌==◌ as str_eq}
use text.Mathlib.TextEquality.{eq_iff}
use nudgeon_platform.Common.{
  ℕ, zero, suc, ◌+◌, ◌≤◌, ◌<◌, ◌≡◌, refl, sym, ap, subst, ◌∙◌, ◌↔◌, ◌⊎◌, inl, inr, true, false,
  ◌&&◌, ◌||◌, List, [], ◌∷◌, ◌++◌, some, Memᴰ, ◌==◌, arith, Bool-cases, some-injective, length,
  length-append, count_rows,
}
use mathlib.Core.List.{append-nil}
use nudgeon_platform.Journey.Digraph.{
  Arc, has, targets, put, Sorting, lowered, relax, relax_all, pass, sort_loop, in_degree, sources,
  sort_start, sort_nodes,
}
use nudgeon_platform.Journey.Digraph.Counts.{
  has-append, distinct, distinct-snoc, has_of_distinct, append_snoc, occurs, is_open, is_open-pass,
  zeros-put, zeros-put_pos, zeros-all, zeros_of_all, zeros-le, position, position-lt,
  position-append, position-snoc, has_of_position,
}
use nudgeon_platform.Journey.Digraph.Order.Queue.{
  append_assoc, List-cases, open-none, closed-none, open-nil, has_of_sources, has-sources,
  distinct-sources, length-sources, lowered-passed, relax-passed, relax_all-passed, pass-passed,
  sort_loop-cons,
}
use nudgeon_platform.Journey.Digraph.Order.Rounds.{
  IsSorting, put-counted, put-queued, lowered-pos, lowered-zero, by_degree, relax-IsSorting,
  relax_all-IsSorting, pass-ordered, pass-IsSorting,
}

module _ (nodes : List String) (arcs : List Arc) (all_once : distinct nodes ≡ true) where
  start-IsSorting : IsSorting nodes arcs [] (sort_start nodes arcs)
  unfolding sort_start
  start-IsSorting = record {
    counted = λ v m. omega (arith, open-nil arcs v);
    queued = λ v m. has-sources (in_degree arcs) nodes v m;
    within = λ v m. has_of_sources (in_degree arcs) nodes v m;
    once = distinct-sources (in_degree arcs) nodes all_once;
    many = omega (arith, length-sources (in_degree arcs) nodes);
    ordered = λ u v arc m. cc;
  }

  loop_ends :
      (fuel : ℕ) (s : Sorting)
      → IsSorting nodes arcs [] s
      → length nodes ≤ fuel + length s.passed
      → (t : Sorting) × (sort_loop nodes arcs fuel s ≡ some t)
        × IsSorting nodes arcs [] t
        × (t.waiting ≡ [])
  unfolding sort_loop
  loop_ends zero s h enough = elim (List-cases s.waiting) [
    | inl empty ↦ (s, rw empty refl, h, empty)
    | inr (u, rest, e) ↦ absurd (omega (arith, h.many, zeros-le nodes s.degrees, ap length e))
  ]
  loop_ends (suc fuel) s h enough = elim (List-cases s.waiting) [
    | inl empty ↦ (s, rw empty refl, h, empty)
    | inr (u, rest, e) ↦
        let (t, found, kept, done) =
          loop_ends fuel (pass nodes arcs u rest s)
            (pass-IsSorting nodes arcs all_once s u rest h e)
            (omega (
              arith,
              ap length (pass-passed nodes arcs u rest s),
              length-append s.passed (u ∷ []),
            )) in
        (t, sort_loop-cons nodes arcs fuel s u rest e ∙ found, kept, done)
  ]

-- A number for each node that grows along the arcs, so that no walk comes back.
abbrev pub IsRanked : List Arc → Type 0
IsRanked arcs = (rank : String → ℕ) × ((u v : String) → Memᴰ (u, v) arcs → rank u < rank v)

all_zero :
    (nodes : List String) (arcs : List Arc) (degrees : String → ℕ) (passed : List String)
    (rank : String → ℕ)
    → ((u v : String) → Memᴰ (u, v) arcs → rank u < rank v)
    → ((u v : String) → Memᴰ (u, v) arcs → has nodes u ≡ true)
    → ((v : String) → has nodes v ≡ true → degrees v ≡ count_rows (is_open passed v) arcs)
    → ((u : String) → has nodes u ≡ true → degrees u ≡ 0 → has passed u ≡ true)
    → (bound : ℕ) (v : String) → has nodes v ≡ true
    → rank v < bound
    → degrees v ≡ 0
all_zero nodes arcs degrees passed rank grows inside counted left zero v node low =
    absurd (omega arith)
all_zero nodes arcs degrees passed rank grows inside counted left (suc bound) v node low =
    counted v node
    ∙ closed-none arcs passed v (λ u m.
      let source = inside u v m in
      left u source (
        all_zero nodes arcs degrees passed rank grows inside counted left bound u source
          (omega (arith, grows u v m))))

-- The sorting ends within its rounds.
pub sort_nodes_ends :
    (nodes : List String) (arcs : List Arc)
    → distinct nodes ≡ true
    → (t : Sorting) × (sort_nodes nodes arcs ≡ some t)
unfolding sort_nodes
sort_nodes_ends nodes arcs once =
    let (t, found, _, _) =
      loop_ends nodes arcs once (length nodes) (sort_start nodes arcs)
        (start-IsSorting nodes arcs once) (omega arith) in
    (t, found)

-- It passes as many as there are nodes exactly when the arcs between them can be ranked.
pub sort_nodes_iff :
    (nodes : List String) (arcs : List Arc) (t : Sorting)
    → distinct nodes ≡ true
    → ((u v : String) → Memᴰ (u, v) arcs → (has nodes u ≡ true) × (has nodes v ≡ true))
    → sort_nodes nodes arcs ≡ some t
    → (length t.passed ≡ length nodes) ↔ IsRanked arcs
unfolding sort_nodes
sort_nodes_iff nodes arcs t once inside e =
    let (t', found, kept, empty) =
      loop_ends nodes arcs once (length nodes) (sort_start nodes arcs)
        (start-IsSorting nodes arcs once) (omega arith) in
    let same : t' ≡ t = some-injective (sym found ∙ e) in
    let (h, done) =
      subst (λ (x : Sorting). IsSorting nodes arcs [] x × (x.waiting ≡ [])) same (kept, empty) in
    let queue : t.passed ++ t.waiting ≡ t.passed = rw done (append-nil t.passed) in
    (
      λ full. (
        position t.passed,
        λ u v arc. h.ordered u v arc (
            rw (← queue) (
              ground (
                arith,
                h.queued v ((inside u v arc).1),
                zeros-all nodes t.degrees v (omega (arith, h.many, ap length done, full))
                    ((inside u v arc).1),
              ))),
      ),
      λ (rank, grows).
          let zeroed =
            all_zero nodes arcs t.degrees t.passed rank grows (λ u v m. (inside u v m).0)
              (λ v node. omega (arith, h.counted v node))
              (λ u node e.
                ap (λ q. has q u) (sym queue) ∙ h.queued u node ∙ ap (λ d. d == 0) e ∙ refl) in
          omega (
            arith,
            h.many,
            ap length done,
            zeros_of_all nodes t.degrees (λ v node. zeroed (suc (rank v)) v node (omega arith)),
          ),
    )
