-- ===== src/Chat/Tools/Backend.antt =====
-- backend/internal/chat/apiclient/types.go and backend/internal/chat/tools/tools.go: what the tools
-- ask the backend for, and what it answers.
use urara_vision.Base.{ℕ, Bool, List}
use urara_vision.Base.Text.{Text}
use urara_vision.Base.Json.{Members, ℤ}
use urara_vision.Model.{Domain, Diagnostic, SourceTable}

-- apiclient.Error, for what it is matched with: the unavailable one may have a timeout as its cause.
pub record ApiError : Type 0 where
  pub status : ℕ
  pub message : Text
  pub unreachable : Bool
  pub timed_out : Bool

-- What a call of the backend or of a tool may fail with.
pub data Failure : Type 0 where
  backend_error : ApiError → Failure
  deadline_exceeded : Failure
  other_failure : Text → Failure

-- What a tool gives.
pub data Outcome {ℓ} (A : Type ℓ) : Type ℓ where
  came : A → Outcome A
  went_wrong : Failure → Outcome A

pub record TableSummary : Type 0 where
  pub id : Text
  pub name : Text
  pub domain_id : Text
  pub kind : Text
  pub grain : Text
  pub conformed : Bool
  pub column_count : ℕ

pub record SearchHit : Type 0 where
  pub table_id : Text
  pub name : Text
  pub domain_id : Text
  pub kind : Text
  pub grain : Text
  pub matched_on : List Text

pub record Node : Type 0 where
  pub id : Text
  pub label : Text
  pub kind : Text  -- Type
  pub domain_id : Text
  pub table_kind : Text  -- Kind

pub record Link : Type 0 where
  pub source : Text
  pub target : Text
  pub kind : Text  -- Type
  pub from_column : Text
  pub to_column : Text
  pub cardinality : Text

pub record Graph : Type 0 where
  pub nodes : List Node
  pub links : List Link

pub record PathHop : Type 0 where
  pub from_table : Text
  pub to_table : Text
  pub from_column : Text
  pub to_column : Text
  pub cardinality : Text

pub record JoinPath : Type 0 where
  pub hops_count : ℕ  -- Length
  pub tables : List Text
  pub hops : List PathHop

pub record LineageEntry : Type 0 where
  pub id : Text
  pub label : Text
  pub dataset : Text
  pub domain_id : Text
  pub columns : List Text

pub record TableDetail (T R : Type 0) : Type 0 where
  pub table : T
  pub incoming : List R
  pub upstream : List LineageEntry
  pub siblings : List LineageEntry

pub record TablesDetail (T R : Type 0) : Type 0 where
  pub tables : List (TableDetail T R)
  pub missing : List Text

-- tools.Backend, bound to one snapshot. Tables and referrers are what asMap makes of them.
pub record Backend : Type 0 where
  pub domains : Outcome (List Domain)
  pub tables : Text → Outcome (List TableSummary)
  pub tables_detail : List Text → Outcome (TablesDetail (Outcome Members) (Outcome Members))
  pub search : Text → ℤ → Outcome (List SearchHit)
  pub neighbourhood : Text → ℤ → Outcome Graph
  pub join_paths : Text → Text → ℤ → ℕ → Outcome (List JoinPath)
  pub lineage : Text → Text → Outcome (List LineageEntry)
  pub diagnostics : Text → Outcome (List Diagnostic)
  pub sources : Outcome (List SourceTable)
