-- ===== src/Journey/Topology/Nodes.antt =====
-- The loop of `validateGraph` over the nodes and their ids (packages/journey-model/src/validation.ts).
use Prim.Native.String.{String}
use text.Mathlib.Text.{◌==◌ as str_eq}
use text.Mathlib.TextEquality.{eq_iff}
use nudgeon_platform.Common.{
  ℕ, suc, ◌≡◌, refl, sym, ap, ◌∙◌, inl, inr, Bool, true, false, not, ◌&&◌, List, [], ◌∷◌, ◌++◌,
  Option, none, some, arith, Bool-cases, all, &&-true, &&-false,
}
use nudgeon_platform.Journey.{NodeKind, JourneyNode}
use nudgeon_platform.Journey.Digraph.{has}
use nudgeon_platform.Journey.Topology.{NodeMap, keys, entered, is_usable, id_issues, collect_nodes}
use nudgeon_platform.Journey.Topology.Unique.{
  is_nil, is_nil-append, separate, separate-snoc, unique,
}

abbrev pub entry : Option String → NodeKind → NodeMap → NodeMap
entry none kind rest = rest
entry (some id) kind rest = (id, kind) ∷ rest

-- The nodes that have an id, by their ids.
abbrev pub entries : List JourneyNode → NodeMap
entries [] = []
entries (n ∷ ns) = entry n.id n.kind (entries ns)

abbrev pub has_usable : Option String → Bool
has_usable none = false
has_usable (some id) = is_usable id

abbrev pub is_identified : JourneyNode → Bool
is_identified n = has_usable n.id

keys-snoc :
    (m : NodeMap) (id : String) (kind : NodeKind) → keys (m ++ (id, kind) ∷ []) ≡ keys m ++ id ∷ []
keys-snoc [] id kind = refl
keys-snoc ((k, x) ∷ m) id kind = ap (λ r. k ∷ r) (keys-snoc m id kind)

append_entry :
    (m : NodeMap) (x : String × NodeKind) (rest : NodeMap) → (m ++ x ∷ []) ++ rest ≡ m ++ x ∷ rest
append_entry [] x rest = refl
append_entry (y ∷ m) x rest = ap (λ r. y ∷ r) (append_entry m x rest)

append_none : (m : NodeMap) → m ++ [] ≡ m
append_none [] = refl
append_none (y ∷ m) = ap (λ r. y ∷ r) (append_none m)

pub str_eq_comm : (a b : String) → str_eq a b ≡ str_eq b a
str_eq_comm a b = ground (arith, eq_iff a b, eq_iff b a)

shuffle :
    (before after rest again once : Bool)
    → after ≡ (not again && before)
    → (rest && (after && once)) ≡ (rest && (before && (not again && once)))
shuffle before after rest again once e = ground arith

clean_node :
    (index : ℕ) (o : Option String) (kind : NodeKind) (ns : List JourneyNode) (m : NodeMap)
    → ((m' : NodeMap)
        → is_nil (collect_nodes (suc index) ns m').1 ≡ (
            all is_identified ns
            && (separate str_eq (keys m') (keys (entries ns))
                && unique str_eq (keys (entries ns)))))
    → is_nil (id_issues index m o ++ (collect_nodes (suc index) ns (entered m o kind)).1) ≡ (
        (has_usable o && all is_identified ns)
        && (separate str_eq (keys m) (keys (entry o kind (entries ns)))
            && unique str_eq (keys (entry o kind (entries ns)))))
clean_node index none kind ns m rest = refl
clean_node index (some id) kind ns m rest = elim (Bool-cases (is_usable id)) [
  | inr unusable ↦ rw unusable refl
  | inl usable ↦ elim (Bool-cases (has (keys m) id)) [
    | inl taken ↦ rw (usable, taken) (sym (&&-false (all is_identified ns)))
    | inr new ↦
        rw (usable, new)
          (rest (m ++ (id, kind) ∷ [])
            ∙ shuffle _ _ (all is_identified ns) (has (keys (entries ns)) id)
                (unique str_eq (keys (entries ns)))
                (ap (λ ks. separate str_eq ks (keys (entries ns))) (keys-snoc m id kind)
                  ∙ separate-snoc str_eq str_eq_comm id (keys m) (keys (entries ns))))
  ]
]

-- The loop reports nothing, exactly where the ids are usable, and differ from those before and from each other.
pub collect_nodes-clean :
    (index : ℕ) (ns : List JourneyNode) (m : NodeMap)
    → is_nil (collect_nodes index ns m).1 ≡ (
        all is_identified ns
        && (separate str_eq (keys m) (keys (entries ns)) && unique str_eq (keys (entries ns))))
unfolding collect_nodes
collect_nodes-clean index [] m = refl
collect_nodes-clean index (n ∷ ns) m =
    clean_node index n.id n.kind ns m (λ m'. collect_nodes-clean (suc index) ns m')

entered-entries :
    (m : NodeMap) (o : Option String) (kind : NodeKind) (ns : List JourneyNode)
    → has_usable o ≡ true
    → separate str_eq (keys m) (keys (entry o kind (entries ns))) ≡ true
    → entered m o kind ++ entries ns ≡ m ++ entry o kind (entries ns)
entered-entries m none kind ns u s = cc
entered-entries m (some id) kind ns u s = rw (u, fresh_id) (append_entry m (id, kind) (entries ns))
  where
    fresh_id : has (keys m) id ≡ false
    fresh_id = ground arith

-- Where the loop reports nothing, its map has the nodes in their order.
pub collect_nodes-entries :
    (index : ℕ) (ns : List JourneyNode) (m : NodeMap)
    → is_nil (collect_nodes index ns m).1 ≡ true
    → (collect_nodes index ns m).0 ≡ m ++ entries ns
unfolding collect_nodes
collect_nodes-entries index [] m h = sym (append_none m)
collect_nodes-entries index (n ∷ ns) m h =
    collect_nodes-entries (suc index) ns (entered m n.id n.kind)
      (&&-true _ _ (sym (is_nil-append (id_issues index m n.id) _) ∙ h)).1
    ∙ entered-entries m n.id n.kind ns (ground (arith, parts)) (ground (arith, parts))
  where
    parts :
        ((has_usable n.id && all is_identified ns)
          && (separate str_eq (keys m) (keys (entry n.id n.kind (entries ns)))
              && unique str_eq (keys (entry n.id n.kind (entries ns)))))
        ≡ true
    parts =
        sym (clean_node index n.id n.kind ns m (λ m'. collect_nodes-clean (suc index) ns m')) ∙ h
