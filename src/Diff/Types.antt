-- ===== src/Diff/Types.antt =====
-- backend/internal/diff/diff.go: the types of a comparison.
use urara_vision.Base.{ℕ, Bool, List}
use urara_vision.Base.Text.{Text}
use urara_vision.Model.{ColumnLineage}

pub data Change : Type 0 where
  added removed changed : Change

-- The values a field is compared at: the source's `any`.
pub data Value : Type 0 where
  text : Text → Value
  flag : Bool → Value

pub record FieldChange : Type 0 where
  pub field : Text
  pub from : Value
  pub to : Value

pub record Counts : Type 0 where
  pub added : ℕ
  pub removed : ℕ
  pub changed : ℕ

pub record Summary : Type 0 where
  pub domains : Counts
  pub tables : Counts
  pub columns : Counts
  pub relationships : Counts
  pub lineage : Counts

pub record DomainDiff : Type 0 where
  pub id : Text
  pub change : Change
  pub fields : List FieldChange

pub record ColumnDiff : Type 0 where
  pub name : Text
  pub change : Change
  pub fields : List FieldChange

pub record TableDiff : Type 0 where
  pub id : Text
  pub domain_id : Text
  pub change : Change
  pub fields : List FieldChange
  pub columns : List ColumnDiff

pub record RelationshipDiff : Type 0 where
  pub from_table_id : Text
  pub to_table_id : Text
  pub target_ref : Text
  pub from_column : Text
  pub to_column : Text
  pub change : Change
  pub fields : List FieldChange

pub record LineageDiff : Type 0 where
  pub table_id : Text
  pub column : Text
  pub source_table : Text
  pub source_column : Text
  pub change : Change
  pub fields : List FieldChange

pub record Result : Type 0 where
  pub summary : Summary
  pub domains : List DomainDiff
  pub tables : List TableDiff
  pub relationships : List RelationshipDiff
  pub lineage : List LineageDiff

pub record TableLineage : Type 0 where
  pub table_id : Text
  pub row : ColumnLineage
