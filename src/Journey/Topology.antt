-- ===== src/Journey/Topology.antt =====
-- packages/journey-model/src/validation.ts: `validateGraph`. A `Map` is the list of its entries in the order of
-- their insertion, and the key `JSON.stringify([source, port])` is the pair.
pub mod Sound
pub mod Unique
pub mod Nodes
pub mod Edges
pub mod Wiring
use Prim.Native.Char.{code}
use Prim.Native.String.{String, len}
use Prim.Native.String
use text.Mathlib.Text.{◌==◌ as str_eq}
use nudgeon_platform.Common.{
  ℕ, zero, suc, Bool, true, false, not, ◌&&◌, ◌||◌, List, [], ◌∷◌, ◌++◌, Option, none, some, ◌==◌,
  leb, if◌then◌else◌, any, length,
}
use nudgeon_platform.TwoFactor.Totp.{is_space}
use nudgeon_platform.Journey.{
  NodeKind, JourneyNode, JourneyEdge, JourneyDefinition, Issue, error_of, output_ports,
  node_id_required, duplicate_node_id, missing_start, missing_edges, bad_edge_id, missing_source,
  unknown_port, missing_target, port_reused, port_open, cyclic, unreachable,
}
use nudgeon_platform.Journey.Digraph.{Arc, has, Sorting, sort_nodes, reached_from}

-- `!s.trim().length`: only space.
unfoldable pub is_blank : String → Bool
is_blank String.[] = true
is_blank (String.◌∷◌ c s) = is_space (code c) && is_blank s

abbrev pub max_id_bytes : ℕ
max_id_bytes = 128

abbrev pub NodeMap : Type 0
NodeMap = List (String × NodeKind)

abbrev pub keys : NodeMap → List String
keys [] = []
keys ((id, kind) ∷ m) = id ∷ keys m

abbrev pub kind_of : NodeMap → String → Option NodeKind
kind_of [] id = none
kind_of ((k, kind) ∷ m) id = let rest = kind_of m id in if str_eq k id then some kind else rest

-- A text that can be a node's id.
abbrev pub is_usable : String → Bool
is_usable id = not (is_blank id) && leb (len id) max_id_bytes

-- What the node's id adds to the issues, and to the map.
abbrev pub id_issues : ℕ → NodeMap → Option String → List Issue
id_issues index m none =
    record (error_of node_id_required) { node_index = some index; field = some "id" } ∷ []
id_issues index m (some id) =
    if is_usable id
    then (if has (keys m) id
        then record (error_of duplicate_node_id) { node_id = some id; field = some "id" } ∷ []
        else [])
    else record (error_of node_id_required) { node_index = some index; field = some "id" } ∷ []

abbrev pub entered : NodeMap → Option String → NodeKind → NodeMap
entered m none kind = m
entered m (some id) kind = if is_usable id && not (has (keys m) id) then m ++ (id, kind) ∷ [] else m

-- The loop over the nodes.
unfoldable pub collect_nodes : ℕ → List JourneyNode → NodeMap → NodeMap × List Issue
collect_nodes index [] m = (m, [])
collect_nodes index (n ∷ ns) m =
    let (all, rest) = collect_nodes (suc index) ns (entered m n.id n.kind) in
    (all, id_issues index m n.id ++ rest)

abbrev pub start_issues : NodeMap → Option String → List Issue
start_issues m none = record (error_of missing_start) { field = some "start_node_id" } ∷ []
start_issues m (some id) =
    if has (keys m) id && not (str_eq id "")
    then []
    else record (error_of missing_start) { field = some "start_node_id" } ∷ []

abbrev pub Output : Type 0
Output = String × String

abbrev pub same_output : Output → Output → Bool
same_output a b = str_eq a.0 b.0 && str_eq a.1 b.1

abbrev pub has_output : List Output → Output → Bool
has_output outputs o = any (λ x. same_output x o) outputs

abbrev pub output_of : JourneyEdge → Output
output_of e = (e.source, e.source_port)

-- An issue with the details of an edge.
abbrev pub edge_issue : JourneyEdge → Issue → Issue
edge_issue e i = record i { edge_id = some e.id; node_id = some e.source }

abbrev pub source_issues : JourneyEdge → Option NodeKind → List Issue
source_issues e none = edge_issue e (error_of missing_source) ∷ []
source_issues e (some kind) =
    if has (output_ports kind) e.source_port then [] else edge_issue e (error_of unknown_port) ∷ []

abbrev pub target_issues : NodeMap → JourneyEdge → Option String → List Issue
target_issues m e none = []
target_issues m e (some target) =
    if has (keys m) target then [] else edge_issue e (error_of missing_target) ∷ []

-- The loop over the edges, with the ids and the outputs that came before.
unfoldable pub edge_issues : NodeMap → List String → List Output → List JourneyEdge → List Issue
edge_issues m ids outputs [] = []
edge_issues m ids outputs (e ∷ es) =
    let rest = edge_issues m (e.id ∷ ids) (output_of e ∷ outputs) es in
    (if is_blank e.id || has ids e.id then edge_issue e (error_of bad_edge_id) ∷ [] else [])
    ++ (source_issues e (kind_of m e.source)
        ++ (target_issues m e e.target
            ++ ((if has_output outputs (output_of e)
                  then edge_issue e (error_of port_reused) ∷ []
                  else [])
                ++ rest)))

abbrev pub outputs_of : List JourneyEdge → List Output
outputs_of [] = []
outputs_of (e ∷ es) = output_of e ∷ outputs_of es

-- The ports of one node, and of all, to which no edge is tied.
abbrev pub port_issues : List Output → String → List String → List Issue
port_issues outputs id [] = []
port_issues outputs id (port ∷ ports) =
    (if has_output outputs (id, port)
      then []
      else record (error_of port_open) { node_id = some id; field = some "edges" } ∷ [])
    ++ port_issues outputs id ports

abbrev pub open_ports : List Output → NodeMap → List Issue
open_ports outputs [] = []
open_ports outputs ((id, kind) ∷ m) =
    port_issues outputs id (output_ports kind) ++ open_ports outputs m

-- `adjacency`: the edges that lead to a node.
abbrev pub arc_of : JourneyEdge → Option String → List Arc → List Arc
arc_of e none arcs = arcs
arc_of e (some target) arcs = (e.source, target) ∷ arcs

abbrev pub arcs_of : List JourneyEdge → List Arc
arcs_of [] = []
arcs_of (e ∷ es) = arc_of e e.target (arcs_of es)

-- The sorting has passed all nodes, or not. It always ends.
abbrev pub cycle_issues : ℕ → Option Sorting → List Issue
cycle_issues size none = record (error_of cyclic) { field = some "edges" } ∷ []
cycle_issues size (some sorted) =
    if length sorted.passed == size
    then []
    else record (error_of cyclic) { field = some "edges" } ∷ []

abbrev pub unreached : List String → List String → List Issue
unreached reached [] = []
unreached reached (id ∷ ids) =
    (if has reached id then [] else record (error_of unreachable) { node_id = some id } ∷ [])
    ++ unreached reached ids

abbrev pub reach_issues : List String → Option (List String) → List Issue
reach_issues ids none = []
reach_issues ids (some reached) = unreached reached ids

-- `def.start_node_id ? [def.start_node_id] : []`.
abbrev pub start_list : Option String → List String
start_list none = []
start_list (some id) = if str_eq id "" then [] else id ∷ []

-- What follows the check that there are edges.
unfoldable pub wiring_issues : NodeMap → Option String → Option (List JourneyEdge) → List Issue
wiring_issues m start none = record (error_of missing_edges) { field = some "edges" } ∷ []
wiring_issues m start (some edges) =
    edge_issues m [] [] edges
    ++ (open_ports (outputs_of edges) m
        ++ (cycle_issues (length m) (sort_nodes (keys m) (arcs_of edges))
            ++ reach_issues (keys m) (reached_from (arcs_of edges) (start_list start))))

unfoldable pub validate_graph : JourneyDefinition → List Issue
validate_graph def =
    let (m, issues) = collect_nodes 0 def.nodes [] in
    issues ++ (start_issues m def.start_node_id ++ wiring_issues m def.start_node_id def.edges)
