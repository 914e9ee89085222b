-- ===== src/Journey/Digraph.antt =====
-- The two walks of `validateGraph` in packages/journey-model/src/validation.ts over the arcs of a graph: the
-- sorting by degrees, and the nodes reached from the start. A set is the list of its elements.
pub mod Counts
pub mod Order
pub mod Reach
use Prim.Native.String.{String}
use text.Mathlib.Text.{◌==◌ as str_eq}
use nudgeon_platform.Common.{
  ℕ, zero, suc, ◌+◌, Bool, true, false, not, ◌&&◌, List, [], ◌∷◌, ◌++◌, Option, none, some, ◌==◌,
  if◌then◌else◌, any, length, count_rows,
}

-- From a source to a target.
abbrev pub Arc : Type 0
Arc = String × String

abbrev pub has : List String → String → Bool
has xs v = any (λ x. str_eq x v) xs

-- `adjacency.get(id) ?? []`.
abbrev pub targets : List Arc → String → List String
targets [] u = []
targets ((a, b) ∷ arcs) u = let rest = targets arcs u in if str_eq a u then b ∷ rest else rest

abbrev pub into : String → Arc → Bool
into v a = str_eq a.1 v

-- `map.set(key, value)` where the map has the key.
abbrev pub put : (String → ℕ) → String → ℕ → String → ℕ
put degrees k n v = if str_eq k v then n else degrees v

-- `queue` is what the loop has passed, and what it has not.
pub record Sorting : Type 0 where
  pub degrees : String → ℕ
  pub passed : List String
  pub waiting : List String

-- What follows `indegree.get(target)! - 1`; a degree below 0 is one that no test finds to be 0.
abbrev pub lowered : String → ℕ → Sorting → Sorting
lowered target zero s = s
lowered target (suc k) s = record s {
  degrees = put s.degrees target k;
  waiting = if k == 0 then s.waiting ++ target ∷ [] else s.waiting;
}

-- The body of the inner loop.
unfoldable pub relax : List String → String → Sorting → Sorting
relax nodes target s = if has nodes target then lowered target (s.degrees target) s else s

unfoldable pub relax_all : List String → List String → Sorting → Sorting
relax_all nodes [] s = s
relax_all nodes (t ∷ ts) s = relax_all nodes ts (relax nodes t s)

-- The round of the outer loop for the first that waits.
unfoldable pub pass : List String → List Arc → String → List String → Sorting → Sorting
pass nodes arcs u rest s =
    relax_all nodes (targets arcs u) (record s { passed = s.passed ++ u ∷ []; waiting = rest })

-- `for (let i = 0; i < queue.length; i++)`.
unfoldable pub sort_loop : List String → List Arc → ℕ → Sorting → Option Sorting
sort_loop nodes arcs zero s = elim s.waiting [ [] ↦ some s | _ ∷ _ ↦ none ]
sort_loop nodes arcs (suc fuel) s = elim s.waiting [
  | [] ↦ some s
  | u ∷ rest ↦ sort_loop nodes arcs fuel (pass nodes arcs u rest s)
]

-- `indegree`, which counts the targets of all sources.
abbrev pub in_degree : List Arc → String → ℕ
in_degree arcs v = count_rows (into v) arcs

-- `[...nodes.keys()].filter(id => indegree.get(id) === 0)`.
abbrev pub sources : (String → ℕ) → List String → List String
sources degrees [] = []
sources degrees (v ∷ vs) =
    let rest = sources degrees vs in if degrees v == 0 then v ∷ rest else rest

unfoldable pub sort_start : List String → List Arc → Sorting
sort_start nodes arcs = record {
  degrees = in_degree arcs;
  passed = [];
  waiting = sources (in_degree arcs) nodes;
}

-- A node waits once at most, so there are as many rounds as nodes.
unfoldable pub sort_nodes : List String → List Arc → Option Sorting
sort_nodes nodes arcs = sort_loop nodes arcs (length nodes) (sort_start nodes arcs)

-- `pending.push(...ids)`, with the last on top.
abbrev pub push_all : List String → List String → List String
push_all [] stack = stack
push_all (v ∷ vs) stack = push_all vs (v ∷ stack)

-- `while (pending.length)`, with the stack's top first.
unfoldable pub reach_loop : List Arc → ℕ → List String → List String → Option (List String)
reach_loop arcs fuel reached [] = some reached
reach_loop arcs zero reached (v ∷ stack) = none
reach_loop arcs (suc fuel) reached (v ∷ stack) = elim (has reached v) [
  | true ↦ reach_loop arcs fuel reached stack
  | false ↦ reach_loop arcs fuel (v ∷ reached) (push_all (targets arcs v) stack)
]

-- A target is pushed once at most for each arc.
unfoldable pub reached_from : List Arc → List String → Option (List String)
reached_from arcs start = reach_loop arcs (length start + length arcs) [] start
