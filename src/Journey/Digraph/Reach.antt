-- ===== src/Journey/Digraph/Reach.antt =====
-- The nodes reached from the start in `validateGraph`: the loop ends, and reaches what walks lead to.
use Prim.Native.String.{String}
use text.Mathlib.Text.{◌==◌ as str_eq}
use text.Mathlib.TextEquality.{eq_iff}
use nudgeon_platform.Common.{
  ℕ, zero, suc, ◌+◌, ◌≤◌, ◌≡◌, refl, sym, ap, subst, ◌∙◌, ◌↔◌, inl, inr, Bool, true, false, not,
  ◌||◌, List, [], ◌∷◌, some, Memᴰ, arith, Bool-cases, length, count_rows, some-injective,
}
use mathlib.Core.List.Memᴰ
use nudgeon_platform.Journey.Digraph.{Arc, has, targets, push_all, reach_loop, reached_from}
use nudgeon_platform.Journey.Digraph.Counts.{
  has_of_mem, mem_of_has, has-push_all, length-push_all, length-targets,
}

-- The walks from the start along the arcs.
pub data Walk (arcs : List Arc) (start : List String) : String → Type 0 where
  here : {v : String} → Memᴰ v start → Walk arcs start v
  step : {u v : String} → Walk arcs start u → Memᴰ (u, v) arcs → Walk arcs start v

targets-mem : (arcs : List Arc) (u v : String) → Memᴰ v (targets arcs u) → Memᴰ (u, v) arcs
targets-mem [] u v m = elim m [ ]
targets-mem ((a, b) ∷ arcs) u v m = elim (Bool-cases (str_eq a u)) [
  | inl same ↦ elim (Memᴰ.cases_cons (rw same at m)) [
    | inl e ↦ Memᴰ.head (λ i. (sym ((eq_iff a u).0 same) i, e i))
    | inr later ↦ Memᴰ.tail (targets-mem arcs u v later)
  ]
  | inr apart ↦ Memᴰ.tail (targets-mem arcs u v (rw apart at m))
]

has-targets : (arcs : List Arc) (u v : String) → Memᴰ (u, v) arcs → has (targets arcs u) v ≡ true
has-targets [] u v m = elim m [ ]
has-targets ((a, b) ∷ arcs) u v (Memᴰ.head e) =
    ground (arith, eq_iff a u, eq_iff b v, ap (λ p. p.0) e, ap (λ p. p.1) e)
has-targets ((a, b) ∷ arcs) u v (Memᴰ.tail m) = ground (arith, has-targets arcs u v m)

-- The arcs whose source has not been reached.
abbrev is_fresh : List String → Arc → Bool
is_fresh reached a = not (has reached a.0)

is_fresh-reach :
    (arcs : List Arc) (reached : List String) (u : String)
    → has reached u ≡ false
    → count_rows (is_fresh (u ∷ reached)) arcs + count_rows (λ a. str_eq a.0 u) arcs
      ≡ count_rows (is_fresh reached) arcs
is_fresh-reach [] reached u h = refl
is_fresh-reach ((a, b) ∷ arcs) reached u h =
    ground (arith, is_fresh-reach arcs reached u h, eq_iff a u, eq_iff u a)

fresh-le : (arcs : List Arc) → count_rows (is_fresh []) arcs ≤ length arcs
fresh-le [] = omega arith
fresh-le (a ∷ arcs) = ground (arith, fresh-le arcs)

module _ (arcs : List Arc) (start : List String) where
  record IsWalked (reached stack : List String) : Type 0 where
    sound : (v : String) → (has reached v || has stack v) ≡ true → Walk arcs start v
    closed :
        (u v : String)
        → Memᴰ (u, v) arcs
        → has reached u ≡ true
        → (has reached v || has stack v) ≡ true
    started : (v : String) → has start v ≡ true → (has reached v || has stack v) ≡ true

  IsWalked-skip :
      (reached stack : List String) (u : String)
      → has reached u ≡ true
      → IsWalked reached (u ∷ stack)
      → IsWalked reached stack
  IsWalked-skip reached stack u known h = record {
    sound = λ v m. h.sound v (ground arith);
    closed = λ a v arc m. ground (
      arith,
      h.closed a v arc m,
      λ (e : u ≡ v). subst (λ w. has reached w ≡ true) e known,
      eq_iff u v,
    );
    started = λ v m. ground (
      arith,
      h.started v m,
      λ (e : u ≡ v). subst (λ w. has reached w ≡ true) e known,
      eq_iff u v,
    );
  }

  IsWalked-reach :
      (reached stack : List String) (u : String)
      → IsWalked reached (u ∷ stack)
      → IsWalked (u ∷ reached) (push_all (targets arcs u) stack)
  IsWalked-reach reached stack u h = record {
    sound = λ v m. elim (Bool-cases (has reached v || has (u ∷ stack) v)) [
      | inl old ↦ h.sound v old
      | inr new ↦ step (h.sound u (ground (arith, eq_iff u u))) (
          targets-mem arcs u v
            (mem_of_has (targets arcs u) v (ground (arith, has-push_all (targets arcs u) stack v))))
    ];
    closed = λ a v arc m. elim (Bool-cases (str_eq u a)) [
      | inl same ↦
          let next : has (targets arcs u) v ≡ true =
            has-targets arcs u v (subst (λ w. Memᴰ (w, v) arcs) (sym ((eq_iff u a).0 same)) arc) in
          ground (arith, has-push_all (targets arcs u) stack v)
      | inr apart ↦
          ground (arith, h.closed a v arc (ground arith), has-push_all (targets arcs u) stack v)
    ];
    started = λ v m. ground (arith, h.started v m, has-push_all (targets arcs u) stack v);
  }

  loop_ends :
      (fuel : ℕ) (reached stack : List String)
      → IsWalked reached stack
      → length stack + count_rows (is_fresh reached) arcs ≤ fuel
      → (r : List String) × (reach_loop arcs fuel reached stack ≡ some r) × IsWalked r []
  unfolding reach_loop
  loop_ends zero reached [] h enough = (reached, refl, h)
  loop_ends (suc fuel) reached [] h enough = (reached, refl, h)
  loop_ends zero reached (v ∷ stack) h enough = absurd (omega arith)
  loop_ends (suc fuel) reached (v ∷ stack) h enough = elim (Bool-cases (has reached v)) [
    | inl known ↦
        let (r, found, kept) =
          loop_ends fuel reached stack (IsWalked-skip reached stack v known h) (omega arith) in
        (r, rw (known, reach_loop) found, kept)
    | inr new ↦
        let (r, found, kept) =
          loop_ends fuel (v ∷ reached) (push_all (targets arcs v) stack)
            (IsWalked-reach reached stack v h)
            (omega (
              arith,
              length-push_all (targets arcs v) stack,
              length-targets arcs v,
              is_fresh-reach arcs reached v new,
            )) in
        (r, rw (new, reach_loop) found, kept)
  ]

  Walk-has : (r : List String) → IsWalked r [] → {v : String} → Walk arcs start v → has r v ≡ true
  Walk-has r h (here {v} m) = ground (arith, h.started v (has_of_mem start v m))
  Walk-has r h (step {u} {v} walk arc) = ground (arith, h.closed u v arc (Walk-has r h walk))

  IsWalked-start : IsWalked [] start
  IsWalked-start = record {
    sound = λ v m. here (mem_of_has start v (ground arith));
    closed = λ u v arc m. cc;
    started = λ v m. ground arith;
  }

  -- The loop ends.
  pub reached_from_ends : (r : List String) × (reached_from arcs start ≡ some r)
  unfolding reached_from
  reached_from_ends =
      let (r, found, _) =
        loop_ends (length start + length arcs) [] start IsWalked-start
          (omega (arith, fresh-le arcs)) in
      (r, found)

  -- It reaches what a walk leads to, and nothing else.
  pub reached_from_iff :
      (r : List String) (v : String)
      → reached_from arcs start ≡ some r
      → (has r v ≡ true) ↔ Walk arcs start v
  unfolding reached_from
  reached_from_iff r v e =
      let (r', found, kept) =
        loop_ends (length start + length arcs) [] start IsWalked-start
          (omega (arith, fresh-le arcs)) in
      let h : IsWalked r [] = subst (λ x. IsWalked x []) (some-injective (sym found ∙ e)) kept in
      (λ m. h.sound v (ground arith), λ walk. Walk-has r h walk)
