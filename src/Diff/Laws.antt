-- ===== src/Diff/Laws.antt =====
-- backend/internal/diff/diff.go: what a comparison reports.
pub mod Counting
pub mod Entries
pub mod Domains
use urara_vision.Base.{
  ℕ, ◌≡◌, refl, ap, ◌∙◌, Bool, true, false, Option, none, some, List, [], ◌∷◌, ◌++◌, ◌&&◌,
  if◌then◌else◌, is_empty,
}
use urara_vision.Base.Text.{Text, codes, ◌==◌, ==_refl}
use urara_vision.Base.Maps.{Map}
use urara_vision.Model.{Domain, Table, Column, Relationship, Model, resolution_text}
use urara_vision.Diff.Types.{
  Value, text, flag, FieldChange, Counts, Summary, Result, TableLineage, DomainDiff, TableDiff,
  ColumnDiff, RelationshipDiff, LineageDiff,
}
use urara_vision.Diff.Keys.{index, pair_index, column_key, relationship_key}
use urara_vision.Diff.Keys.Pairs.{pair_index_self}
use urara_vision.Diff.Walk.{
  Visit, both, walk, field, domain_fields, table_fields, column_fields, relationship_fields,
  lineage_fields, same_relationship, same_lineage, same_flag,
}
use urara_vision.Diff.Walks.{walk_self, field_self}
use urara_vision.Diff.{
  report, domain_entry, column_entry, relationship_entry, lineage_entry, compare_columns,
  report_table, relationships, lineage, no_counts, row_key, compare_domains, compare_tables,
  compare_relationships, compare_lineage, compare,
}

report_self :
    {T D : Type 0} (compared : T → T → List FieldChange) (entry : Visit T → List FieldChange → D)
    → ((t : T) → compared t t ≡ [])
    → (a : T) (out : List D) → report compared entry (both a a) out ≡ (false, out)
unfolding report
report_self compared entry h a out = rw (h a) refl

domain_fields_self : (a : Domain) → domain_fields a a ≡ []
unfolding domain_fields
domain_fields_self a = simp field_self refl

column_fields_self : (a : Column) → column_fields a a ≡ []
unfolding column_fields
column_fields_self a = simp field_self refl

table_fields_self : (a : Table) → table_fields a a ≡ []
unfolding table_fields
table_fields_self a = simp field_self refl

relationship_fields_self : (a : Relationship) → relationship_fields a a ≡ []
unfolding relationship_fields
relationship_fields_self a = simp field_self refl

lineage_fields_self : (a : TableLineage) → lineage_fields a a ≡ []
unfolding lineage_fields
lineage_fields_self a = simp field_self refl

compare_columns_self :
    (cs : List Column) (counts : Counts) → compare_columns cs cs counts ≡ (counts, [])
unfolding compare_columns
compare_columns_self cs counts =
    walk_self (report column_fields column_entry) (index column_key cs) counts []
      (report_self column_fields column_entry column_fields_self)

report_table_self :
    (a : Table) (st : Counts × List TableDiff) → report_table (both a a) st ≡ (false, st)
unfolding report_table
report_table_self a (counts, out) =
    rw (table_fields_self a, compare_columns_self a.columns counts) refl

same_relationship_self : (r : Relationship) → same_relationship r r ≡ true
unfolding same_relationship
same_relationship_self r =
    rw (==_refl r.cardinality, ==_refl (resolution_text r.resolution), ==_refl r.to_table_id) refl

same_flag_self : (b : Bool) → same_flag b b ≡ true
same_flag_self true = refl
same_flag_self false = refl

same_lineage_self : (l : TableLineage) → same_lineage l l ≡ true
unfolding same_lineage
same_lineage_self l = rw (==_refl l.row.notes, same_flag_self l.row.derived) refl

abbrev pub nothing : Result
nothing = record {
  summary = record {
    domains = no_counts;
    tables = no_counts;
    columns = no_counts;
    relationships = no_counts;
    lineage = no_counts;
  };
  domains = [];
  tables = [];
  relationships = [];
  lineage = [];
}

compare_relationships_self : (m : Model) → compare_relationships m m ≡ (no_counts, [])
unfolding compare_relationships
compare_relationships_self m =
    let (o, e) =
      pair_index_self same_relationship same_relationship_self relationship_key
        (relationships m.tables) in
    rw e (
      walk_self (report relationship_fields relationship_entry) o no_counts []
        (report_self relationship_fields relationship_entry relationship_fields_self))

compare_lineage_self : (m : Model) → compare_lineage m m ≡ (no_counts, [])
unfolding compare_lineage
compare_lineage_self m =
    let (o, e) = pair_index_self same_lineage same_lineage_self row_key (lineage m.tables) in
    rw e (
      walk_self (report lineage_fields lineage_entry) o no_counts []
        (report_self lineage_fields lineage_entry lineage_fields_self))

compare_domains_self : (m : Model) → compare_domains m m ≡ (no_counts, [])
unfolding compare_domains
compare_domains_self m =
    walk_self (report domain_fields domain_entry) _ no_counts []
      (report_self domain_fields domain_entry domain_fields_self)

compare_tables_self : (m : Model) → compare_tables m m ≡ (no_counts, (no_counts, []))
unfolding compare_tables
compare_tables_self m = walk_self report_table _ no_counts (no_counts, []) report_table_self

-- Comparing a model with itself reports nothing and counts nothing, whatever it holds: repeated
-- keys, relationships and lineage rows included.
pub compare_self : (m : Model) → compare m m ≡ nothing
unfolding compare
compare_self m =
    rw
      (
        compare_domains_self m,
        compare_tables_self m,
        compare_relationships_self m,
        compare_lineage_self m,
      )
      refl
