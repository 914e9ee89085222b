-- ===== src/Journey/Tests.antt =====
-- A small journey, what the checks of its graph say, and the theorems at it.
use Prim.Native.String.{String}
use nudgeon_platform.Common.{◌≡◌, ◌↔◌, refl, false, List, [], ◌∷◌, none, some}
use nudgeon_platform.Segment.{finite, marketing}
use nudgeon_platform.Journey.{
  NodeKind, message, delay, branch, JourneyNode, JourneyEdge, JourneyDefinition, blast, never,
  output_ports, error_of, cyclic, unreachable,
}
use nudgeon_platform.Journey.Digraph.{
  relax, relax_all, pass, sort_loop, sort_start, sort_nodes, reach_loop, reached_from,
}
use nudgeon_platform.Journey.Topology.{
  is_blank, collect_nodes, edge_issues, wiring_issues, validate_graph,
}
use nudgeon_platform.Journey.Topology.Sound.{IsWired, validate_graph_iff}

abbrev node : String → NodeKind → JourneyNode
node id kind = record { id = some id; kind = kind }

abbrev greeting : NodeKind
greeting = message (record {
  push = some (record { title = some "Hello"; body = some "there" });
  email = none;
  alimtalk = none;
})

abbrev a_day : NodeKind
a_day = delay (finite false 86400 0)

-- Each edge is named after its port.
abbrev edge : String → String → JourneyEdge
edge id source = record { id = id; source = source; source_port = "next"; target = none }

abbrev graph : List JourneyNode → List JourneyEdge → JourneyDefinition
graph nodes edges = record {
  schema_version = some 2;
  entry_type = some blast;
  segment_id = some "s";
  trigger_event = none;
  nodes = nodes;
  start_node_id = some "a";
  edges = some edges;
  conversion_event = none;
  category = some marketing;
  reentry = never;
}

abbrev onboarding : JourneyDefinition
onboarding = graph (node "a" greeting ∷ node "b" (branch none) ∷ node "c" a_day ∷ []) (
    record (edge "e1" "a") { target = some "b" }
    ∷ record (edge "e2" "b") { source_port = "true" }
    ∷ record (edge "e3" "b") { source_port = "false"; target = some "c" }
    ∷ edge "e4" "c"
    ∷ [])

-- `c` leads back to `a`, and nothing leads to `d`.
abbrev tangled : JourneyDefinition
tangled = graph (node "a" greeting ∷ node "c" a_day ∷ node "d" greeting ∷ []) (
    record (edge "e1" "a") { target = some "c" }
    ∷ record (edge "e2" "c") { target = some "a" }
    ∷ edge "e3" "d"
    ∷ [])

runs : Unit {0}
unfolding output_ports relax relax_all pass sort_loop sort_start sort_nodes reach_loop reached_from
    is_blank collect_nodes edge_issues wiring_issues validate_graph
runs = tt

onboarding-clean : validate_graph onboarding ≡ []
unfolding runs
onboarding-clean = refl

tangled-issues :
    validate_graph tangled
    ≡ record (error_of cyclic) { field = some "edges" }
      ∷ record (error_of unreachable) { node_id = some "d" }
      ∷ []
unfolding runs
tangled-issues = refl

validate_graph_iff_example : (validate_graph onboarding ≡ []) ↔ (
    (start : String) × (edges : List JourneyEdge) × (onboarding.start_node_id ≡ some start)
    × (onboarding.edges ≡ some edges)
    × IsWired onboarding.nodes start edges)
validate_graph_iff_example = validate_graph_iff onboarding
