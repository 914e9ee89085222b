-- ===== src/Journey/Digraph/Counts.antt =====
-- Members and counts in the lists that stand for sets, and in the arcs of a graph.
use Prim.Native.String.{String}
use text.Mathlib.Text.{◌==◌ as str_eq}
use text.Mathlib.TextEquality.{eq_iff}
use nudgeon_platform.Common.{
  ℕ, suc, ◌+◌, ◌≤◌, ◌<◌, ◌≡◌, refl, sym, ap, inl, inr, Bool, true, false, not, ◌&&◌, ◌||◌, List, [],
  ◌∷◌, ◌++◌, Memᴰ, ◌==◌, if◌then◌else◌, arith, Bool-cases, length, count_rows,
}
use nudgeon_platform.Journey.Digraph.{Arc, has, targets, put, push_all}

pub has-append : (xs ys : List String) (v : String) → has (xs ++ ys) v ≡ (has xs v || has ys v)
has-append [] ys v = refl
has-append (x ∷ xs) ys v = ground (arith, has-append xs ys v)

pub has-push_all :
    (vs stack : List String) (v : String) → has (push_all vs stack) v ≡ (has vs v || has stack v)
has-push_all [] stack v = refl
has-push_all (x ∷ vs) stack v = ground (arith, has-push_all vs (x ∷ stack) v)

pub length-push_all :
    (vs stack : List String) → length (push_all vs stack) ≡ length vs + length stack
length-push_all [] stack = omega arith
length-push_all (x ∷ vs) stack = omega (arith, length-push_all vs (x ∷ stack))

pub has_of_mem : (xs : List String) (v : String) → Memᴰ v xs → has xs v ≡ true
has_of_mem [] v m = elim m [ ]
has_of_mem (x ∷ xs) v (Memᴰ.head e) = ground (arith, eq_iff x v)
has_of_mem (x ∷ xs) v (Memᴰ.tail m) = ground (arith, has_of_mem xs v m)

pub mem_of_has : (xs : List String) (v : String) → has xs v ≡ true → Memᴰ v xs
mem_of_has [] v h = cc
mem_of_has (x ∷ xs) v h = elim (Bool-cases (str_eq x v)) [
  | inl same ↦ Memᴰ.head (sym ((eq_iff x v).0 same))
  | inr apart ↦ Memᴰ.tail (mem_of_has xs v (rw apart at h))
]

-- No text is listed twice.
abbrev pub distinct : List String → Bool
distinct [] = true
distinct (x ∷ xs) = not (has xs x) && distinct xs

pub distinct-snoc :
    (xs : List String) (v : String)
    → distinct xs ≡ true
    → has xs v ≡ false
    → distinct (xs ++ v ∷ []) ≡ true
distinct-snoc [] v d h = refl
distinct-snoc (x ∷ xs) v d h =
    ground (arith, distinct-snoc xs v, has-append xs (v ∷ []) x, eq_iff x v, eq_iff v x)

pub has_of_distinct :
    (xs ys : List String) (v : String) → distinct (xs ++ v ∷ ys) ≡ true → has xs v ≡ false
has_of_distinct [] ys v d = refl
has_of_distinct (x ∷ xs) ys v d =
    ground (arith, has_of_distinct xs ys v, has-append xs (v ∷ ys) x, eq_iff x v, eq_iff v x)

pub append_snoc : (xs ys : List String) (v : String) → (xs ++ v ∷ []) ++ ys ≡ xs ++ v ∷ ys
append_snoc [] ys v = refl
append_snoc (x ∷ xs) ys v = ap (λ r. x ∷ r) (append_snoc xs ys v)

pub length-targets :
    (arcs : List Arc) (u : String) → length (targets arcs u) ≡ count_rows (λ a. str_eq a.0 u) arcs
length-targets [] u = refl
length-targets ((a, b) ∷ arcs) u = ground (arith, length-targets arcs u)

-- How often a text is listed.
abbrev pub occurs : String → List String → ℕ
occurs v [] = 0
occurs v (x ∷ xs) = let rest = occurs v xs in if str_eq x v then suc rest else rest

-- The arcs into a node whose source has not been passed.
abbrev pub is_open : List String → String → Arc → Bool
is_open passed v a = str_eq a.1 v && not (has passed a.0)

pub is_open-pass :
    (arcs : List Arc) (passed : List String) (u v : String)
    → has passed u ≡ false
    → count_rows (is_open passed v) arcs
      ≡ count_rows (is_open (passed ++ u ∷ []) v) arcs + occurs v (targets arcs u)
is_open-pass [] passed u v h = refl
is_open-pass ((a, b) ∷ arcs) passed u v h =
    ground
      (arith, is_open-pass arcs passed u v h, has-append passed (u ∷ []) a, eq_iff a u, eq_iff u a)

zeros-put_absent :
    (vs : List String) (degrees : String → ℕ) (t : String) (k : ℕ)
    → has vs t ≡ false
    → count_rows (λ v. put degrees t k v == 0) vs ≡ count_rows (λ v. degrees v == 0) vs
zeros-put_absent [] degrees t k h = refl
zeros-put_absent (x ∷ vs) degrees t k h =
    ground (arith, zeros-put_absent vs degrees t k, eq_iff t x, eq_iff x t)

-- Changing one entry to 0 adds one to the zeros of a list that has it once.
pub zeros-put :
    (vs : List String) (degrees : String → ℕ) (t : String)
    → distinct vs ≡ true
    → has vs t ≡ true
    → (degrees t == 0) ≡ false
    → count_rows (λ v. put degrees t 0 v == 0) vs ≡ suc (count_rows (λ v. degrees v == 0) vs)
zeros-put [] degrees t d h n = cc
zeros-put (x ∷ vs) degrees t d h n = elim (Bool-cases (str_eq x t)) [
  | inl same ↦
      let one : x ≡ t = (eq_iff x t).0 same in
      ground (arith, zeros-put_absent vs degrees t 0, eq_iff t x, ap degrees one, ap (has vs) one)
  | inr apart ↦ ground (arith, zeros-put vs degrees t, eq_iff t x, eq_iff x t)
]

-- Changing an entry that is not 0 to one that is not leaves the zeros.
pub zeros-put_pos :
    (vs : List String) (degrees : String → ℕ) (t : String) (k : ℕ)
    → (degrees t == 0) ≡ false
    → (k == 0) ≡ false
    → count_rows (λ v. put degrees t k v == 0) vs ≡ count_rows (λ v. degrees v == 0) vs
zeros-put_pos [] degrees t k n m = refl
zeros-put_pos (x ∷ vs) degrees t k n m = elim (Bool-cases (str_eq t x)) [
  | inl same ↦
      let one : degrees t ≡ degrees x = ap degrees ((eq_iff t x).0 same) in
      ground (arith, zeros-put_pos vs degrees t k)
  | inr apart ↦ ground (arith, zeros-put_pos vs degrees t k)
]

pub zeros-le :
    (vs : List String) (degrees : String → ℕ) → count_rows (λ v. degrees v == 0) vs ≤ length vs
zeros-le [] degrees = omega arith
zeros-le (x ∷ vs) degrees = ground (arith, zeros-le vs degrees)

-- If as many are 0 as there are, all are.
pub zeros-all :
    (vs : List String) (degrees : String → ℕ) (v : String)
    → count_rows (λ w. degrees w == 0) vs ≡ length vs
    → has vs v ≡ true
    → degrees v ≡ 0
zeros-all [] degrees v e h = cc
zeros-all (x ∷ vs) degrees v e h = elim (Bool-cases (str_eq x v)) [
  | inl same ↦
      let one : degrees x ≡ degrees v = ap degrees ((eq_iff x v).0 same) in
      ground (arith, zeros-le vs degrees)
  | inr apart ↦ ground (arith, zeros-all vs degrees v, zeros-le vs degrees)
]

pub zeros_of_all :
    (vs : List String) (degrees : String → ℕ)
    → ((v : String) → has vs v ≡ true → degrees v ≡ 0)
    → count_rows (λ v. degrees v == 0) vs ≡ length vs
zeros_of_all [] degrees h = refl
zeros_of_all (x ∷ vs) degrees h =
    let first : degrees x ≡ 0 = h x (ground (arith, eq_iff x x)) in
    let rest : count_rows (λ v. degrees v == 0) vs ≡ length vs =
      zeros_of_all vs degrees (λ v m. h v (ground arith)) in
    ground arith

-- Where a text stands in a list; behind the last, if it does not.
abbrev pub position : List String → String → ℕ
position [] v = 0
position (x ∷ xs) v = let rest = position xs v in if str_eq x v then 0 else suc rest

pub position-lt : (xs : List String) (v : String) → has xs v ≡ true → position xs v < length xs
position-lt [] v h = cc
position-lt (x ∷ xs) v h = ground (arith, position-lt xs v)

pub has_of_position : (xs : List String) (v : String) → position xs v < length xs → has xs v ≡ true
has_of_position [] v h = absurd (omega arith)
has_of_position (x ∷ xs) v h = ground (arith, has_of_position xs v)

pub position-append :
    (xs ys : List String) (v : String) → has xs v ≡ true → position (xs ++ ys) v ≡ position xs v
position-append [] ys v h = cc
position-append (x ∷ xs) ys v h = ground (arith, position-append xs ys v)

pub position-snoc :
    (xs : List String) (v : String) → has xs v ≡ false → position (xs ++ v ∷ []) v ≡ length xs
position-snoc [] v h = ground (arith, eq_iff v v)
position-snoc (x ∷ xs) v h = ground (arith, position-snoc xs v)
