-- ===== src/Model.antt =====
-- backend/internal/model/model.go: the plain data that the parser, the graph builder and the diff
-- share. Times are numbers, and the fields that only the stores fill keep their zero values.
pub mod Roles
use urara_vision.Base.{ℕ, Bool, false, List, []}
use urara_vision.Base.Text.{Text, codes}

-- How a declared target was matched; `unset` is the empty string before resolution.
pub data Resolution : Type 0 where
  unset local conformed unresolved narrative : Resolution

unfoldable pub resolution_text : Resolution → Text
resolution_text unset = []
resolution_text local = codes "local"
resolution_text conformed = codes "conformed"
resolution_text unresolved = codes "unresolved"
resolution_text narrative = codes "narrative"

pub data Severity : Type 0 where
  error warning info : Severity

pub record Stats : Type 0 where
  pub domains : ℕ
  pub tables : ℕ
  pub columns : ℕ
  pub relationships : ℕ
  pub lineage_edges : ℕ
  pub source_tables : ℕ
  pub conformed : ℕ
  pub files_parsed : ℕ
  pub files_skipped : ℕ
  pub diagnostics : ℕ
  pub translated : ℕ

pub record Project : Type 0 where
  pub name : Text
  pub version : Text
  pub description : Text

pub record Internationalization : Type 0 where
  pub primary : Text
  pub supported : List Text
  pub kind : Text  -- Type

pub record ProjectMeta : Type 0 where
  pub project : Project
  pub internationalization : Internationalization

pub record Snapshot : Type 0 where
  pub id : Text
  pub name : Text
  pub source_label : Text
  pub created_at : ℕ
  pub stats : Stats
  pub project : ProjectMeta
  pub project_id : Text
  pub project_slug : Text

pub record DomainLineage : Type 0 where
  pub proposed_table : Text
  pub source_models : List Text

pub record Domain : Type 0 where
  pub id : Text
  pub snapshot_id : Text
  pub name : Text
  pub title : Text
  pub description : Text
  pub mermaid : Text
  pub lineage : List DomainLineage
  pub doc_path : Text
  pub table_count : ℕ

pub record Column : Type 0 where
  pub name : Text
  pub kind : Text  -- Type
  pub description : Text
  pub ordinal : ℕ
  pub is_pk : Bool
  pub is_fk : Bool

pub record ColumnLineage : Type 0 where
  pub column : Text
  pub source_table : Text
  pub source_column : Text
  pub notes : Text
  pub derived : Bool

pub record Relationship : Type 0 where
  pub id : Text
  pub from_table_id : Text
  pub to_table_id : Text
  pub target_ref : Text
  pub from_column : Text
  pub to_column : Text
  pub join_key_raw : Text
  pub cardinality : Text
  pub resolution : Resolution
  pub candidates : List Text

pub record Table : Type 0 where
  pub id : Text
  pub snapshot_id : Text
  pub name : Text
  pub domain_id : Text
  pub kind : Text
  pub kind_raw : Text
  pub grain : Text
  pub update_frequency : Text
  pub layer : Text
  pub domain_label : Text
  pub description : Text
  pub columns : List Column
  pub column_lineage : List ColumnLineage
  pub relationships : List Relationship
  pub notes : List Text
  pub relationship_note : Text
  pub doc_path : Text
  pub conformed : Bool
  pub conformed_in : List Text

pub record Diagnostic : Type 0 where
  pub severity : Severity
  pub code : Text
  pub message : Text
  pub domain_id : Text
  pub table_id : Text
  pub doc_path : Text

pub record SourceTable : Type 0 where
  pub id : Text
  pub dataset : Text
  pub name : Text
  pub refs : ℕ

pub record Model : Type 0 where
  pub snapshot : Snapshot
  pub domains : List Domain
  pub tables : List Table
  pub source_tables : List SourceTable
  pub diagnostics : List Diagnostic
