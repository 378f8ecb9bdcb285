-- ===== src/Diff.antt =====
-- backend/internal/diff/diff.go: comparing two models of one project.
pub mod Types
pub mod Keys
pub mod Walk
pub mod Walks
pub mod Laws
use urara_vision.Base.{Bool, true, false, List, [], ◌∷◌, ◌++◌, map, ◌&&◌, is_empty, if◌then◌else◌}
use urara_vision.Base.Text.{Text}
use urara_vision.Model.{Domain, Table, Column, ColumnLineage, Relationship, Model}
use urara_vision.Diff.Types.{
  FieldChange, Counts, Summary, DomainDiff, ColumnDiff, TableDiff, RelationshipDiff, LineageDiff,
  Result, TableLineage,
}
use urara_vision.Diff.Keys.{
  domain_key, table_key, column_key, relationship_key, lineage_key, index, pair_index,
}
use urara_vision.Diff.Walk.{
  Visit, gone, new, both, change_of, pick, walk, domain_fields, table_fields, column_fields,
  relationship_fields, lineage_fields, same_relationship, same_lineage,
}

-- The fields of a pair by a comparison; of an item on one side there are none.
abbrev pub fields_of : {T : Type 0} → (T → T → List FieldChange) → Visit T → List FieldChange
fields_of compared (both a b) = compared a b
fields_of compared (gone a) = []
fields_of compared (new b) = []

-- `c == Changed && len(fs) == 0`
abbrev pub unchanged : {T : Type 0} → Visit T → List FieldChange → Bool
unchanged (both a b) fs = is_empty fs
unchanged (gone a) fs = false
unchanged (new b) fs = false

-- The shape that the four plain emits share: report the item, or return false.
unfoldable pub report :
    {T D : Type 0}
    → (T → T → List FieldChange)
    → (Visit T → List FieldChange → D)
    → Visit T
    → List D
    → Bool × List D
report compared entry v out =
    let fs = fields_of compared v in
    if unchanged v fs then (false, out) else (true, out ++ entry v fs ∷ [])

unfoldable pub domain_entry : Visit Domain → List FieldChange → DomainDiff
domain_entry v fs = record { id = (pick v).id; change = change_of v; fields = fs }

unfoldable pub column_entry : Visit Column → List FieldChange → ColumnDiff
column_entry v fs = record { name = (pick v).name; change = change_of v; fields = fs }

unfoldable pub relationship_entry : Visit Relationship → List FieldChange → RelationshipDiff
relationship_entry v fs =
    let rel = pick v in
    record {
      from_table_id = rel.from_table_id;
      to_table_id = rel.to_table_id;
      target_ref = rel.target_ref;
      from_column = rel.from_column;
      to_column = rel.to_column;
      change = change_of v;
      fields = fs;
    }

unfoldable pub lineage_entry : Visit TableLineage → List FieldChange → LineageDiff
lineage_entry v fs =
    let l = pick v in
    record {
      table_id = l.table_id;
      column = l.row.column;
      source_table = l.row.source_table;
      source_column = l.row.source_column;
      change = change_of v;
      fields = fs;
    }

unfoldable pub compare_columns : List Column → List Column → Counts → Counts × List ColumnDiff
compare_columns from to counts =
    walk (index column_key from) (index column_key to) counts (report column_fields column_entry) []

-- What the columns of a pair of tables are; those of a table on one side are not looked at.
abbrev pub columns_of : Visit Table → Counts → Counts × List ColumnDiff
columns_of (both a b) counts = compare_columns a.columns b.columns counts
columns_of (gone a) counts = (counts, [])
columns_of (new b) counts = (counts, [])

unfoldable pub table_entry : Visit Table → List FieldChange → List ColumnDiff → TableDiff
table_entry v fs cols =
    let t = pick v in
    record { id = t.id; domain_id = t.domain_id; change = change_of v; fields = fs; columns = cols }

-- The emit of the tables, which counts the columns that it compares too.
unfoldable pub report_table :
    Visit Table → Counts × List TableDiff → Bool × (Counts × List TableDiff)
report_table v (columns, out) =
    let fs = fields_of table_fields v in
    let (columns', cols) = columns_of v columns in
    if unchanged v fs && is_empty cols
    then (false, (columns', out))
    else (true, (columns', out ++ table_entry v fs cols ∷ []))

unfoldable pub relationships : List Table → List Relationship
relationships [] = []
relationships (t ∷ ts) = t.relationships ++ relationships ts

abbrev row_of : Text → ColumnLineage → TableLineage
row_of table_id l = record { table_id = table_id; row = l }

unfoldable pub lineage : List Table → List TableLineage
lineage [] = []
lineage (t ∷ ts) = map (row_of t.id) t.column_lineage ++ lineage ts

abbrev pub no_counts : Counts
no_counts = record { added = 0; removed = 0; changed = 0 }

abbrev pub row_key : TableLineage → Text
row_key l = lineage_key l.table_id l.row

unfoldable pub compare_domains : Model → Model → Counts × List DomainDiff
compare_domains from to =
    walk (index domain_key from.domains) (index domain_key to.domains) no_counts
      (report domain_fields domain_entry) []

-- The counts of the tables, those of the columns, and the entries.
unfoldable pub compare_tables : Model → Model → Counts × (Counts × List TableDiff)
compare_tables from to =
    walk (index table_key from.tables) (index table_key to.tables) no_counts report_table
      (no_counts, [])

unfoldable pub compare_relationships : Model → Model → Counts × List RelationshipDiff
compare_relationships from to =
    let (rel_from, rel_to) =
      pair_index relationship_key same_relationship (relationships from.tables)
        (relationships to.tables) in
    walk rel_from rel_to no_counts (report relationship_fields relationship_entry) []

unfoldable pub compare_lineage : Model → Model → Counts × List LineageDiff
compare_lineage from to =
    let (lin_from, lin_to) =
      pair_index row_key same_lineage (lineage from.tables) (lineage to.tables) in
    walk lin_from lin_to no_counts (report lineage_fields lineage_entry) []

unfoldable pub compare : Model → Model → Result
compare from to =
    let (domain_counts, domains) = compare_domains from to in
    let (table_counts, (column_counts, tables)) = compare_tables from to in
    let (relationship_counts, rels) = compare_relationships from to in
    let (lineage_counts, rows) = compare_lineage from to in
    record {
      summary = record {
        domains = domain_counts;
        tables = table_counts;
        columns = column_counts;
        relationships = relationship_counts;
        lineage = lineage_counts;
      };
      domains = domains;
      tables = tables;
      relationships = rels;
      lineage = rows;
    }
