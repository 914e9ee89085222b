-- ===== src/Journey/Topology/Wiring.antt =====
-- The checks of `validateGraph` (packages/journey-model/src/validation.ts) on the nodes that it has collected: the
-- edges, the ports, the cycles and what the start reaches.
use Prim.Native.String.{String}
use text.Mathlib.Text.{◌==◌ as str_eq}
use text.Mathlib.TextEquality.{eq_iff}
use nudgeon_platform.Common.{
  suc, ◌≡◌, ◌↔◌, refl, sym, ap, subst, ◌∙◌, inl, inr, true, false, not, ◌&&◌, List, [], ◌∷◌, ◌++◌,
  Option, none, some, Memᴰ, arith, Bool-cases, all, &&-true, length,
}
use mathlib.Core.Bool.{false≢true}
use nudgeon_platform.Journey.{NodeKind, JourneyNode, JourneyEdge}
use nudgeon_platform.Journey.Digraph.{Arc, has, sort_nodes, reached_from}
use nudgeon_platform.Journey.Digraph.Counts.{distinct}
use nudgeon_platform.Journey.Digraph.Order.{IsRanked, sort_nodes_ends, sort_nodes_iff}
use nudgeon_platform.Journey.Digraph.Reach.{Walk, reached_from_ends, reached_from_iff}
use nudgeon_platform.Journey.Topology.{
  is_blank, NodeMap, keys, kind_of, is_usable, same_output, edge_issues, outputs_of, open_ports,
  arc_of, arcs_of, cycle_issues, unreached, reach_issues, wiring_issues,
}
use nudgeon_platform.Journey.Topology.Unique.{is_nil, is_nil-append, all_iff, separate_nil, unique}
use nudgeon_platform.Journey.Topology.Nodes.{entries, entry, has_usable, is_identified}
use nudgeon_platform.Journey.Topology.Edges.{
  edge_ids, is_port_of, is_end, is_tied, edge_issues-clean, all_filled, open_ports-clean,
}

kind_of-keys :
    (m : NodeMap) (port id : String)
    → is_port_of port (kind_of m id) ≡ true
    → has (keys m) id ≡ true
kind_of-keys [] port id h = cc
kind_of-keys ((k, kind) ∷ m) port id h = ground (arith, kind_of-keys m port id)

length-keys : (m : NodeMap) → length (keys m) ≡ length m
length-keys [] = refl
length-keys ((k, kind) ∷ m) = ap suc (length-keys m)

abbrev Inside : NodeMap → List Arc → Type 0
Inside m arcs =
    (u v : String) → Memᴰ (u, v) arcs → (has (keys m) u ≡ true) × (has (keys m) v ≡ true)

arc_of-Inside :
    (m : NodeMap) (e : JourneyEdge) (o : Option String) (arcs : List Arc)
    → is_port_of e.source_port (kind_of m e.source) ≡ true
    → is_end m o ≡ true
    → Inside m arcs
    → Inside m (arc_of e o arcs)
arc_of-Inside m e none arcs from to inside u v n = inside u v n
arc_of-Inside m e (some w) arcs from to inside u v (Memᴰ.head q) = (
  subst (λ x. has (keys m) x ≡ true) (sym (ap (λ p. p.0) q))
      (kind_of-keys m e.source_port e.source from),
  subst (λ x. has (keys m) x ≡ true) (sym (ap (λ p. p.1) q)) to,
)
arc_of-Inside m e (some w) arcs from to inside u v (Memᴰ.tail n) = inside u v n

-- An arc of tied edges joins two nodes.
arcs_of-Inside :
    (m : NodeMap) (es : List JourneyEdge) → all (is_tied m) es ≡ true → Inside m (arcs_of es)
arcs_of-Inside m [] h = λ u v n. elim n [ ]
arcs_of-Inside m (e ∷ es) h =
    let (tie, rest) = &&-true (is_tied m e) (all (is_tied m) es) h in
    let (_, ends) = &&-true (not (is_blank e.id)) _ tie in
    let (from, to) =
      &&-true (is_port_of e.source_port (kind_of m e.source)) (is_end m e.target) ends in
    arc_of-Inside m e e.target (arcs_of es) from to (arcs_of-Inside m es rest)

-- The sorting reports no cycle exactly where the arcs can be ranked.
cycle-clean :
    (m : NodeMap) (arcs : List Arc)
    → distinct (keys m) ≡ true
    → Inside m arcs
    → (is_nil (cycle_issues (length m) (sort_nodes (keys m) arcs)) ≡ true) ↔ IsRanked arcs
cycle-clean m arcs once inside =
    let (t, e) = sort_nodes_ends (keys m) arcs once in
    let ranks = sort_nodes_iff (keys m) arcs t once inside e in
    rw e
      (λ h. ranks.0 (ground (arith, length-keys m)), λ r. ground (arith, length-keys m, ranks.1 r))

unreached-clean :
    (reached ids : List String) → is_nil (unreached reached ids) ≡ all (has reached) ids
unreached-clean reached [] = refl
unreached-clean reached (id ∷ ids) = ground (arith, unreached-clean reached ids)

-- The walk of the code reports nothing exactly where there is a walk to each node.
reach-clean :
    (ids : List String) (arcs : List Arc) (start : List String)
    → (is_nil (reach_issues ids (reached_from arcs start)) ≡ true)
      ↔ ((v : String) → Memᴰ v ids → Walk arcs start v)
reach-clean ids arcs start =
    let (r, e) = reached_from_ends arcs start in
    let found = all_iff (has r) ids in
    rw e (
      λ h v n.
          (reached_from_iff arcs start r v e).0 (found.0 (sym (unreached-clean r ids) ∙ h) v n),
      λ walks.
          unreached-clean r ids
          ∙ found.1 (λ v n. (reached_from_iff arcs start r v e).1 (walks v n)),
    )

usable-entry :
    (o : Option String) (kind : NodeKind) (rest : NodeMap) (v : String)
    → has_usable o ≡ true
    → (has (keys rest) v ≡ true → is_usable v ≡ true)
    → has (keys (entry o kind rest)) v ≡ true
    → is_usable v ≡ true
usable-entry none kind rest v u later n = later n
usable-entry (some id) kind rest v u later n = elim (Bool-cases (str_eq id v)) [
  | inl same ↦ subst (λ x. is_usable x ≡ true) ((eq_iff id v).0 same) u
  | inr apart ↦ later (rw apart at n)
]

-- Each id of the map can be one.
pub usable-entries :
    (ns : List JourneyNode) (v : String)
    → all is_identified ns ≡ true
    → has (keys (entries ns)) v ≡ true
    → is_usable v ≡ true
usable-entries [] v h n = cc
usable-entries (x ∷ ns) v h n =
    let (first, rest) = &&-true (is_identified x) (all is_identified ns) h in
    usable-entry x.id x.kind (entries ns) v first (usable-entries ns v rest) n

pub not-empty : (v : String) → is_usable v ≡ true → str_eq v "" ≡ false
unfolding is_blank
not-empty v u = elim (Bool-cases (str_eq v "")) [
  | inl empty ↦ absurd (false≢true (subst (λ x. is_usable x ≡ true) ((eq_iff v "").0 empty) u))
  | inr other ↦ other
]

four_parts {ℓ} :
    {A : Type ℓ} (a b c d : List A)
    → is_nil (a ++ (b ++ (c ++ d))) ≡ (is_nil a && (is_nil b && (is_nil c && is_nil d)))
four_parts a b c d = simp is_nil-append

edges-clean :
    (m : NodeMap) (es : List JourneyEdge)
    → is_nil (edge_issues m [] [] es)
      ≡ (all (is_tied m) es && (unique str_eq (edge_ids es) && unique same_output (outputs_of es)))
edges-clean m es =
    edge_issues-clean m [] [] es
    ∙ simp (separate_nil str_eq (edge_ids es), separate_nil same_output (outputs_of es))

-- What the loops report on the nodes that have been collected.
module _ (m : NodeMap) (start : String) (edges : List JourneyEdge) where
  pub record IsLinked : Type 0 where
    pub on_edges :
        (all (is_tied m) edges
          && (unique str_eq (edge_ids edges) && unique same_output (outputs_of edges)))
        ≡ true
    pub on_ports : all_filled (outputs_of edges) m ≡ true
    pub ranks : IsRanked (arcs_of edges)
    pub walks : (v : String) → Memᴰ v (keys m) → Walk (arcs_of edges) (start ∷ []) v

  pub wiring-clean :
      str_eq start "" ≡ false
      → distinct (keys m) ≡ true
      → (is_nil (wiring_issues m (some start) (some edges)) ≡ true) ↔ IsLinked
  unfolding wiring_issues
  wiring-clean named once =
      rw (named, four_parts)
        (
          λ h.
              let (on_edges, h) = &&-true (is_nil (edge_issues m [] [] edges)) _ h in
              let (on_ports, h) = &&-true (is_nil (open_ports (outputs_of edges) m)) _ h in
              let (sorted, walked) =
                &&-true (is_nil (cycle_issues (length m) (sort_nodes (keys m) (arcs_of edges)))) _
                  h in
              let tied = sym (edges-clean m edges) ∙ on_edges in
              record {
                on_edges = tied;
                on_ports = sym (open_ports-clean (outputs_of edges) m) ∙ on_ports;
                ranks =
                    (cycle-clean m (arcs_of edges) once
                        (arcs_of-Inside m edges (&&-true _ _ tied).0)).0
                      sorted;
                walks = (reach-clean (keys m) (arcs_of edges) (start ∷ [])).0 walked;
              },
          λ h. rw (
            edges-clean m edges,
            h.on_edges,
            open_ports-clean (outputs_of edges) m,
            h.on_ports,
            (cycle-clean m (arcs_of edges) once
                  (arcs_of-Inside m edges (&&-true _ _ h.on_edges).0)).1
                h.ranks,
            (reach-clean (keys m) (arcs_of edges) (start ∷ [])).1 h.walks,
          ),
        )
