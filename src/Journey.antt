-- ===== src/Journey.antt =====
-- packages/journey-model/src/index.ts: the definition of a journey, its types and `outputPorts`. A field that
-- the code reads behind a test for its absence is an option.
pub mod Digraph
pub mod Topology
mod Tests
use Prim.Native.String.{String}
use nudgeon_platform.Common.{ℕ, Bool, List, [], ◌∷◌, Option, none, some, map}
use nudgeon_platform.Segment.{Number, Value, LogicalOp, Category}

-- `{ id, label, weight }`; none is an id or a label that is no text.
pub record Variant : Type 0 where
  pub id : String
  pub label : Option String
  pub weight : Number

pub record Push : Type 0 where
  pub title : Option String
  pub body : Option String

pub record Email : Type 0 where
  pub subject : Option String
  pub html : Option String
  pub provider : Option String

-- `fallback` is its text.
pub record Alimtalk : Type 0 where
  pub sender_id : Option String
  pub template_code : Option String
  pub fallback : Option (Option String)

pub record Message : Type 0 where
  pub push : Option Push
  pub email : Option Email
  pub alimtalk : Option Alimtalk

-- A condition of a branch. `keys` are `Object.keys`, and an operator is its text.
pub data BranchCondition : Type 0 where
  event :
      (keys : List String)
      → (name op : Option String) → (window_days : Option Number) → BranchCondition
  attribute : (keys : List String) → (key op : Option String) → (value : Value) → BranchCondition
  other : BranchCondition

-- `none` is no list.
pub record BranchGroup : Type 0 where
  pub keys : List String
  pub operator : LogicalOp
  pub conditions : Option (List BranchCondition)

-- `SegmentDSL` as `validateBranchCondition` reads it.
pub record BranchDsl : Type 0 where
  pub keys : List String
  pub version : Number
  pub operator : LogicalOp
  pub groups : Option (List (Option BranchGroup))

-- What a node does, by its `type`; `unsupported` is any other.
pub data NodeKind : Type 0 where
  message : Message → NodeKind
  delay : (duration_seconds : Number) → NodeKind
  branch : Option BranchDsl → NodeKind
  event_wait : (event_name : Option String) → (timeout_seconds : Number) → NodeKind
  ab_split : List Variant → NodeKind
  unsupported : NodeKind

pub record JourneyNode : Type 0 where
  pub id : Option String
  pub kind : NodeKind

pub record JourneyEdge : Type 0 where
  pub id : String
  pub source : String
  pub source_port : String
  pub target : Option String

abbrev pub variant_ids : List Variant → List String
variant_ids [] = []
variant_ids (v ∷ vs) = v.id ∷ variant_ids vs

-- The ids of `outputPorts`, whose labels are only shown.
unfoldable pub output_ports : NodeKind → List String
output_ports (branch condition) = "true" ∷ "false" ∷ []
output_ports (event_wait name timeout) = "matched" ∷ "timeout" ∷ []
output_ports (ab_split variants) = variant_ids variants
output_ports (message m) = "next" ∷ []
output_ports (delay d) = "next" ∷ []
output_ports unsupported = "next" ∷ []

-- `entry.type`; `other` is a text that is neither.
pub data EntryType : Type 0 where
  blast trigger other : EntryType

-- `reentry`; `other` is any value that is none of these.
pub data Reentry : Type 0 where
  never always other : Reentry
  after_days : Number → Reentry

-- The list of nodes is empty where it is missing, `edges` are none where they are no list, and a category
-- is none where it is neither of the two.
pub record JourneyDefinition : Type 0 where
  pub schema_version : Option ℕ
  pub entry_type : Option EntryType
  pub segment_id : Option String
  pub trigger_event : Option String
  pub nodes : List JourneyNode
  pub start_node_id : Option String
  pub edges : Option (List JourneyEdge)
  pub conversion_event : Option String
  pub category : Option Category
  pub reentry : Reentry

pub data Level : Type 0 where
  error warning : Level

-- The messages of `validateJourney` and `validateGraph`, each by a name. `condition` carries one of
-- `validateBranchCondition`.
pub data IssueMessage : Type 0 where
  unsupported_version missing_entry missing_segment missing_trigger unsupported_entry : IssueMessage
  no_nodes too_many_nodes linear_only empty_email unknown_provider missing_sender : IssueMessage
  missing_template empty_fallback empty_push ambiguous_channel bad_duration : IssueMessage
  missing_event bad_timeout conversion_first variant_count variant_ids_unique : IssueMessage
  variant_labels variant_weights unsupported_node no_message ends_in_delay : IssueMessage
  missing_category bad_reentry long_reentry : IssueMessage
  node_id_required duplicate_node_id missing_start missing_edges bad_edge_id : IssueMessage
  missing_source unknown_port missing_target port_reused port_open cyclic : IssueMessage
  unreachable changed_allocation : IssueMessage
  condition : (text : ℕ) → IssueMessage

pub record Issue : Type 0 where
  pub level : Level
  pub message : IssueMessage
  pub node_index : Option ℕ
  pub node_id : Option String
  pub edge_id : Option String
  pub field : Option String

-- `{ level: "error", message, ...details }`, with no detail.
abbrev pub error_of : IssueMessage → Issue
error_of text = record {
  level = error;
  message = text;
  node_index = none;
  node_id = none;
  edge_id = none;
  field = none;
}
