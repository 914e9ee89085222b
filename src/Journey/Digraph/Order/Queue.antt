-- ===== src/Journey/Digraph/Order/Queue.antt =====
-- The nodes that `validateGraph` starts its sorting with, the order of the lists, and single steps of the loops.
use Prim.Native.String.{String}
use text.Mathlib.Text.{◌==◌ as str_eq}
use text.Mathlib.TextEquality.{eq_iff}
use nudgeon_platform.Common.{
  ℕ, zero, suc, ◌≡◌, refl, sym, ap, ◌∙◌, ◌⊎◌, inl, inr, true, List, [], ◌∷◌, ◌++◌, some, Memᴰ, ◌==◌,
  arith, Bool-cases, length, count_rows,
}
use nudgeon_platform.Journey.Digraph.{
  Arc, has, targets, Sorting, lowered, relax, relax_all, pass, sort_loop, in_degree, sources,
}
use nudgeon_platform.Journey.Digraph.Counts.{distinct, is_open}

pub append_assoc : (xs ys zs : List String) → (xs ++ ys) ++ zs ≡ xs ++ (ys ++ zs)
append_assoc [] ys zs = refl
append_assoc (x ∷ xs) ys zs = ap (λ r. x ∷ r) (append_assoc xs ys zs)

pub List-cases :
    (xs : List String) → (xs ≡ []) ⊎ ((u : String) × (rest : List String) × (xs ≡ u ∷ rest))
List-cases [] = inl refl
List-cases (x ∷ xs) = inr (x, xs, refl)

pub open-none :
    (arcs : List Arc) (passed : List String) (u v : String)
    → count_rows (is_open passed v) arcs ≡ 0
    → Memᴰ (u, v) arcs
    → has passed u ≡ true
open-none [] passed u v none_open m = elim m [ ]
open-none ((a, b) ∷ arcs) passed u v none_open (Memᴰ.head e) =
    let source : u ≡ a = ap (λ p. p.0) e in
    let target : v ≡ b = ap (λ p. p.1) e in rw source (ground (arith, eq_iff b v))
open-none ((a, b) ∷ arcs) passed u v none_open (Memᴰ.tail m) =
    open-none arcs passed u v (ground arith) m

pub closed-none :
    (arcs : List Arc) (passed : List String) (v : String)
    → ((u : String) → Memᴰ (u, v) arcs → has passed u ≡ true)
    → count_rows (is_open passed v) arcs ≡ 0
closed-none [] passed v h = refl
closed-none ((a, b) ∷ arcs) passed v h =
    let rest = closed-none arcs passed v (λ u m. h u (Memᴰ.tail m)) in
    elim (Bool-cases (str_eq b v)) [
      | inl same ↦
          let first : has passed a ≡ true =
            h a (Memᴰ.head (ap (λ w. (a, w)) (sym ((eq_iff b v).0 same)))) in
          ground arith
      | inr apart ↦ ground arith
    ]

pub open-nil : (arcs : List Arc) (v : String) → count_rows (is_open [] v) arcs ≡ in_degree arcs v
open-nil [] v = refl
open-nil ((a, b) ∷ arcs) v = ground (arith, open-nil arcs v)

pub has_of_sources :
    (degrees : String → ℕ) (nodes : List String) (v : String)
    → has (sources degrees nodes) v ≡ true
    → has nodes v ≡ true
has_of_sources degrees [] v h = cc
has_of_sources degrees (x ∷ xs) v h = ground (arith, has_of_sources degrees xs v)

pub has-sources :
    (degrees : String → ℕ) (nodes : List String) (v : String)
    → has nodes v ≡ true
    → has (sources degrees nodes) v ≡ (degrees v == 0)
has-sources degrees [] v h = cc
has-sources degrees (x ∷ xs) v h = elim (Bool-cases (str_eq x v)) [
  | inl same ↦
      let one : degrees x ≡ degrees v = ap degrees ((eq_iff x v).0 same) in
      ground (arith, has_of_sources degrees xs v, has-sources degrees xs v)
  | inr apart ↦ ground (arith, has-sources degrees xs v)
]

pub distinct-sources :
    (degrees : String → ℕ) (nodes : List String)
    → distinct nodes ≡ true
    → distinct (sources degrees nodes) ≡ true
distinct-sources degrees [] d = refl
distinct-sources degrees (x ∷ xs) d =
    ground (arith, distinct-sources degrees xs, has_of_sources degrees xs x)

pub length-sources :
    (degrees : String → ℕ) (nodes : List String)
    → length (sources degrees nodes) ≡ count_rows (λ v. degrees v == 0) nodes
length-sources degrees [] = refl
length-sources degrees (x ∷ xs) = ground (arith, length-sources degrees xs)

pub lowered-passed : (t : String) (d : ℕ) (s : Sorting) → (lowered t d s).passed ≡ s.passed
lowered-passed t zero s = refl
lowered-passed t (suc k) s = refl

pub relax-passed :
    (nodes : List String) (t : String) (s : Sorting) → (relax nodes t s).passed ≡ s.passed
unfolding relax
relax-passed nodes t s = elim (Bool-cases (has nodes t)) [
  | inl node ↦ rw node (lowered-passed t (s.degrees t) s)
  | inr outside ↦ rw outside refl
]

pub relax_all-passed :
    (nodes ts : List String) (s : Sorting) → (relax_all nodes ts s).passed ≡ s.passed
unfolding relax_all
relax_all-passed nodes [] s = refl
relax_all-passed nodes (t ∷ ts) s =
    relax_all-passed nodes ts (relax nodes t s) ∙ relax-passed nodes t s

pub pass-passed :
    (nodes : List String) (arcs : List Arc) (u : String) (rest : List String) (s : Sorting)
    → (pass nodes arcs u rest s).passed ≡ s.passed ++ u ∷ []
unfolding pass
pass-passed nodes arcs u rest s = relax_all-passed nodes (targets arcs u) _

pub sort_loop-cons :
    (nodes : List String) (arcs : List Arc) (fuel : ℕ) (s : Sorting) (u : String)
    (rest : List String)
    → s.waiting ≡ u ∷ rest
    → sort_loop nodes arcs (suc fuel) s ≡ sort_loop nodes arcs fuel (pass nodes arcs u rest s)
unfolding sort_loop
sort_loop-cons nodes arcs fuel s u rest e =
    ap
      (λ (q : List String). elim q [
        | [] ↦ some s
        | v ∷ others ↦ sort_loop nodes arcs fuel (pass nodes arcs v others s)
      ])
      e
