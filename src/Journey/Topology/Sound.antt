-- ===== src/Journey/Topology/Sound.antt =====
-- What a graph is that `validateGraph` (packages/journey-model/src/validation.ts) has nothing to say against.
use Prim.Native.String.{String}
use text.Mathlib.Text.{◌==◌ as str_eq}
use nudgeon_platform.Common.{
  ◌≡◌, ◌↔◌, refl, sym, ap, subst, ◌∙◌, true, List, [], ◌∷◌, ◌++◌, Option, none, some, Memᴰ, arith,
  all, &&-true,
}
use nudgeon_platform.Journey.{
  NodeKind, JourneyNode, JourneyEdge, JourneyDefinition, Issue, output_ports,
}
use nudgeon_platform.Journey.Digraph.{has}
use nudgeon_platform.Journey.Digraph.Counts.{has_of_mem, mem_of_has, distinct}
use nudgeon_platform.Journey.Digraph.Order.{IsRanked}
use nudgeon_platform.Journey.Digraph.Reach.{Walk}
use nudgeon_platform.Journey.Topology.{
  NodeMap, keys, collect_nodes, start_issues, same_output, has_output, outputs_of, arcs_of,
  wiring_issues, validate_graph,
}
use nudgeon_platform.Journey.Topology.Unique.{
  is_nil, is_nil_iff, is_nil-append, all_iff, separate_nil, unique, unique-distinct,
}
use nudgeon_platform.Journey.Topology.Nodes.{
  entries, is_identified, collect_nodes-clean, collect_nodes-entries,
}
use nudgeon_platform.Journey.Topology.Edges.{edge_ids, is_tied, all_filled_iff}
use nudgeon_platform.Journey.Topology.Wiring.{IsLinked, wiring-clean, usable-entries, not-empty}

-- A graph whose nodes and edges are told apart by their ids, with one edge at each port, that has no cycle
-- and can be walked from its start.
pub record IsWired (nodes : List JourneyNode) (start : String) (edges : List JourneyEdge)
    : Type 0 where
  pub identified : (n : JourneyNode) → Memᴰ n nodes → is_identified n ≡ true
  pub unique_nodes : distinct (keys (entries nodes)) ≡ true
  pub started : Memᴰ start (keys (entries nodes))
  pub tied : (e : JourneyEdge) → Memᴰ e edges → is_tied (entries nodes) e ≡ true
  pub unique_edges : unique str_eq (edge_ids edges) ≡ true
  pub single : unique same_output (outputs_of edges) ≡ true
  pub filled :
      (id : String) (kind : NodeKind) (port : String)
      → Memᴰ (id, kind) (entries nodes)
      → Memᴰ port (output_ports kind)
      → has_output (outputs_of edges) (id, port) ≡ true
  pub acyclic : IsRanked (arcs_of edges)
  pub reached : (v : String) → Memᴰ v (keys (entries nodes)) → Walk (arcs_of edges) (start ∷ []) v

-- The nodes have their ids exactly where the loop over them reports nothing.
nodes-clean :
    (ns : List JourneyNode)
    → (is_nil (collect_nodes 0 ns []).1 ≡ true)
      ↔ ((all is_identified ns ≡ true) × (distinct (keys (entries ns)) ≡ true))
nodes-clean ns =
    rw
      (
        collect_nodes-clean 0 ns [],
        separate_nil str_eq (keys (entries ns)),
        unique-distinct (keys (entries ns)),
      )
      (λ h. &&-true _ _ h, λ h. rw (h.0, h.1))

IsWired-linked :
    (ns : List JourneyNode) (start : String) (edges : List JourneyEdge)
    → all is_identified ns ≡ true
    → distinct (keys (entries ns)) ≡ true
    → has (keys (entries ns)) start ≡ true
    → IsLinked (entries ns) start edges
    → IsWired ns start edges
IsWired-linked ns start edges named once begun h =
    let (tie, rest) = &&-true (all (is_tied (entries ns)) edges) _ h.on_edges in
    let (ids, outputs) = &&-true (unique str_eq (edge_ids edges)) _ rest in
    record {
      identified = (all_iff is_identified ns).0 named;
      unique_nodes = once;
      started = mem_of_has (keys (entries ns)) start begun;
      tied = (all_iff (is_tied (entries ns)) edges).0 tie;
      unique_edges = ids;
      single = outputs;
      filled = (all_filled_iff (outputs_of edges) (entries ns)).0 h.on_ports;
      acyclic = h.ranks;
      reached = h.walks;
    }

IsLinked-wired :
    (ns : List JourneyNode) (start : String) (edges : List JourneyEdge)
    → IsWired ns start edges
    → IsLinked (entries ns) start edges
IsLinked-wired ns start edges h = record {
  on_edges = rw ((all_iff (is_tied (entries ns)) edges).1 h.tied, h.unique_edges, h.single);
  on_ports = (all_filled_iff (outputs_of edges) (entries ns)).1 h.filled;
  ranks = h.acyclic;
  walks = h.reached;
}

IsWired-of_clean :
    (ns : List JourneyNode) (start : Option String) (edges : Option (List JourneyEdge))
    → all is_identified ns ≡ true
    → distinct (keys (entries ns)) ≡ true
    → is_nil (start_issues (entries ns) start) ≡ true
    → is_nil (wiring_issues (entries ns) start edges) ≡ true
    → (s : String) × (es : List JourneyEdge) × (start ≡ some s)
      × (edges ≡ some es)
      × IsWired ns s es
unfolding wiring_issues
IsWired-of_clean ns none edges named once begun wired = cc
IsWired-of_clean ns (some s) none named once begun wired = cc
IsWired-of_clean ns (some s) (some es) named once begun wired = (
  s,
  es,
  refl,
  refl,
  IsWired-linked ns s es named once at_node (
      (wiring-clean (entries ns) s es (not-empty s (usable-entries ns s named at_node)) once).0
        wired),
)
  where
    at_node : has (keys (entries ns)) s ≡ true
    at_node = ground arith

-- What the graph's checks report, behind those of the nodes.
abbrev rest_issues : NodeMap → Option String → Option (List JourneyEdge) → List Issue
rest_issues m start edges = start_issues m start ++ wiring_issues m start edges

clean_of_wired :
    (ns : List JourneyNode) (s : String) (es : List JourneyEdge)
    → IsWired ns s es
    → is_nil (rest_issues (entries ns) (some s) (some es)) ≡ true
clean_of_wired ns s es h =
    let at_node = has_of_mem (keys (entries ns)) s h.started in
    let named =
      not-empty s (usable-entries ns s ((all_iff is_identified ns).1 h.identified) at_node) in
    rw (
      is_nil-append,
      at_node,
      named,
      (wiring-clean (entries ns) s es named h.unique_nodes).1 (IsLinked-wired ns s es h),
    )

-- `validateGraph` reports nothing exactly where the journey has a start and edges, its nodes are told apart by
-- usable ids, each edge has an id of its own and leads from a port of a node to a node or to the end, each port of
-- each node has exactly one edge, no walk along the edges comes back, and each node can be walked to from the start.
pub validate_graph_iff :
    (def : JourneyDefinition)
    → (validate_graph def ≡ []) ↔ (
        (start : String) × (edges : List JourneyEdge) × (def.start_node_id ≡ some start)
        × (def.edges ≡ some edges)
        × IsWired def.nodes start edges)
unfolding validate_graph
validate_graph_iff def = (
  λ h.
      let (named, rest) =
        &&-true (is_nil (collect_nodes 0 def.nodes []).1) _
          (sym (is_nil-append (collect_nodes 0 def.nodes []).1 _) ∙ ap is_nil h) in
      let (ids, once) = (nodes-clean def.nodes).0 named in
      let m : (collect_nodes 0 def.nodes []).0 ≡ entries def.nodes =
        collect_nodes-entries 0 def.nodes [] named in
      let (begun, wired) = &&-true (is_nil (start_issues (entries def.nodes) def.start_node_id)) _ (
        sym (is_nil-append (start_issues (entries def.nodes) def.start_node_id) _)
        ∙ subst (λ k. is_nil (rest_issues k def.start_node_id def.edges) ≡ true) m rest) in
      IsWired-of_clean def.nodes def.start_node_id def.edges ids once begun wired,
  λ (start, edges, at, tied, h).
      let named =
        (nodes-clean def.nodes).1
          ((all_iff is_identified def.nodes).1 h.identified, h.unique_nodes) in
      (is_nil_iff _).0 (
        is_nil-append (collect_nodes 0 def.nodes []).1 _
        ∙ rw (named, collect_nodes-entries 0 def.nodes [] named, at, tied)
            (clean_of_wired def.nodes start edges h)),
)
