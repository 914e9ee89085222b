-- ===== src/Journey/Topology/Edges.antt =====
-- The loop of `validateGraph` over the edges (packages/journey-model/src/validation.ts), and the one over the
-- ports to which no edge is tied.
use Prim.Native.String.{String}
use text.Mathlib.Text.{◌==◌ as str_eq}
use nudgeon_platform.Common.{
  ◌≡◌, ◌↔◌, refl, sym, ap, subst, ◌∙◌, Bool, true, false, not, ◌&&◌, ◌||◌, List, [], ◌∷◌, Option,
  none, some, arith, if◌then◌else◌, all, Memᴰ, &&-true,
}
use mathlib.Core.Path.{ap₂}
use nudgeon_platform.Journey.{NodeKind, JourneyEdge, output_ports}
use nudgeon_platform.Journey.Digraph.{has}
use nudgeon_platform.Journey.Topology.{
  is_blank, NodeMap, keys, kind_of, Output, same_output, has_output, output_of, source_issues,
  target_issues, edge_issues, outputs_of, port_issues, open_ports,
}
use nudgeon_platform.Journey.Topology.Nodes.{str_eq_comm}
use nudgeon_platform.Journey.Topology.Unique.{
  is_nil, is_nil-append, all_iff, listed, separate, separate-cons, unique,
}

abbrev pub edge_ids : List JourneyEdge → List String
edge_ids [] = []
edge_ids (e ∷ es) = e.id ∷ edge_ids es

-- The source is a node that has the port.
abbrev pub is_port_of : String → Option NodeKind → Bool
is_port_of port none = false
is_port_of port (some kind) = has (output_ports kind) port

abbrev pub is_end : NodeMap → Option String → Bool
is_end m none = true
is_end m (some target) = has (keys m) target

-- What holds of an edge on its own.
abbrev pub is_tied : NodeMap → JourneyEdge → Bool
is_tied m e =
    not (is_blank e.id) && (is_port_of e.source_port (kind_of m e.source) && is_end m e.target)

is_nil-if {ℓ} : {A : Type ℓ} (b : Bool) (x : A) → is_nil (if b then x ∷ [] else []) ≡ not b
is_nil-if true x = refl
is_nil-if false x = refl

is_nil-source :
    (e : JourneyEdge) (o : Option NodeKind)
    → is_nil (source_issues e o) ≡ is_port_of e.source_port o
is_nil-source e none = refl
is_nil-source e (some kind) = ground arith

is_nil-target :
    (m : NodeMap) (e : JourneyEdge) (o : Option String) → is_nil (target_issues m e o) ≡ is_end m o
is_nil-target m e none = refl
is_nil-target m e (some target) = ground arith

same_output_comm : (a b : Output) → same_output a b ≡ same_output b a
same_output_comm a b = ground (arith, str_eq_comm a.0 b.0, str_eq_comm a.1 b.1)

-- `fresh` and `single` are about the ids and the outputs of those before, `new` and `once` about those behind.
gather :
    (blank source target seen taken rest new fresh ids once single outputs : Bool)
    → (not (blank || seen)
        && (source
            && (target
                && (not taken
                    && (rest && (((new && fresh) && ids) && ((once && single) && outputs)))))))
      ≡ (((not blank && (source && target)) && rest)
          && (((not seen && fresh) && (new && ids))
              && ((not taken && single) && (once && outputs))))
gather blank source target seen taken rest new fresh ids once single outputs = ground arith

-- The loop reports nothing, exactly where each edge is tied to nodes, and no id and no output comes twice.
pub edge_issues-clean :
    (m : NodeMap) (ids : List String) (outputs : List Output) (es : List JourneyEdge)
    → is_nil (edge_issues m ids outputs es) ≡ (
        all (is_tied m) es
        && ((separate str_eq ids (edge_ids es) && unique str_eq (edge_ids es))
            && (separate same_output outputs (outputs_of es)
                && unique same_output (outputs_of es))))
unfolding edge_issues
edge_issues-clean m ids outputs [] = refl
edge_issues-clean m ids outputs (e ∷ es) =
    simp
      (
        is_nil-append,
        is_nil-if,
        is_nil-source e,
        is_nil-target m e,
        edge_issues-clean m (e.id ∷ ids) (output_of e ∷ outputs) es,
        separate-cons str_eq str_eq_comm,
        separate-cons same_output same_output_comm,
      )
      (gather (is_blank e.id) (is_port_of e.source_port (kind_of m e.source)) (is_end m e.target)
        (has ids e.id) (has_output outputs (output_of e)) (all (is_tied m) es)
        (not (listed str_eq (edge_ids es) e.id)) (separate str_eq ids (edge_ids es))
        (unique str_eq (edge_ids es)) (not (listed same_output (outputs_of es) (output_of e)))
        (separate same_output outputs (outputs_of es)) (unique same_output (outputs_of es)))

-- The port of a node is the output of an edge.
abbrev pub is_filled : List Output → String → String → Bool
is_filled outputs id port = has_output outputs (id, port)

-- Each port of each node is.
abbrev pub all_filled : List Output → NodeMap → Bool
all_filled outputs [] = true
all_filled outputs ((id, kind) ∷ m) =
    all (is_filled outputs id) (output_ports kind) && all_filled outputs m

port_issues-clean :
    (outputs : List Output) (id : String) (ports : List String)
    → is_nil (port_issues outputs id ports) ≡ all (is_filled outputs id) ports
port_issues-clean outputs id [] = refl
port_issues-clean outputs id (port ∷ ports) = ground (arith, port_issues-clean outputs id ports)

pub open_ports-clean :
    (outputs : List Output) (m : NodeMap) → is_nil (open_ports outputs m) ≡ all_filled outputs m
open_ports-clean outputs [] = refl
open_ports-clean outputs ((id, kind) ∷ m) =
    is_nil-append (port_issues outputs id (output_ports kind)) (open_ports outputs m)
    ∙ ap₂ ◌&&◌ (port_issues-clean outputs id (output_ports kind)) (open_ports-clean outputs m)

pub all_filled_iff :
    (outputs : List Output) (m : NodeMap)
    → (all_filled outputs m ≡ true) ↔ (
        (id : String) (kind : NodeKind) (port : String)
        → Memᴰ (id, kind) m
        → Memᴰ port (output_ports kind)
        → has_output outputs (id, port) ≡ true)
all_filled_iff outputs m = (given m, shown m)
  where
    given :
        (m : NodeMap)
        → all_filled outputs m ≡ true
        → (id : String) (kind : NodeKind) (port : String) → Memᴰ (id, kind) m
        → Memᴰ port (output_ports kind)
        → has_output outputs (id, port) ≡ true
    given [] h id kind port n p = elim n [ ]
    given ((k, x) ∷ m) h id kind port (Memᴰ.head e) p =
        subst (λ i. has_output outputs (i, port) ≡ true) (sym (ap (λ q. q.0) e))
          ((all_iff (is_filled outputs k) (output_ports x)).0 (&&-true _ _ h).0 port
            (subst (λ y. Memᴰ port (output_ports y)) (ap (λ q. q.1) e) p))
    given ((k, x) ∷ m) h id kind port (Memᴰ.tail n) p = given m (&&-true _ _ h).1 id kind port n p

    shown :
        (m : NodeMap)
        → ((id : String) (kind : NodeKind) (port : String)
            → Memᴰ (id, kind) m
            → Memᴰ port (output_ports kind)
            → has_output outputs (id, port) ≡ true)
        → all_filled outputs m ≡ true
    shown [] h = refl
    shown ((k, x) ∷ m) h =
        rw
          ((all_iff (is_filled outputs k) (output_ports x)).1
            (λ port p. h k x port (Memᴰ.head refl) p))
          (shown m (λ id kind port n p. h id kind port (Memᴰ.tail n) p))
