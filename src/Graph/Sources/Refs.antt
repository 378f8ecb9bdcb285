-- ===== src/Graph/Sources/Refs.antt =====
-- backend/internal/graph/sources.go: the references that are counted.
use urara_vision.Base.{
  ℕ, suc, ◌+◌, ◌≡◌, refl, ap, Bool, true, false, List, [], ◌∷◌, arith, if◌then◌else◌, length, count,
}
use urara_vision.Base.Text.{Text, ◌==◌}
use urara_vision.Base.Maps.{Map, get_or, put}
use urara_vision.Base.Sort.{sort_by, insert_by}
use urara_vision.Model.{Table, ColumnLineage, SourceTable}
use urara_vision.Graph.Sources.{
  is_source_ref, Tally, collect_row, collect_rows, collect_tables, source_tables, source_less,
  collect_sources, canonicalise_sources,
}

abbrev pub total_refs : List SourceTable → ℕ
total_refs [] = 0
total_refs (s ∷ ss) = s.refs + total_refs ss

abbrev total : Map ℕ → ℕ
total [] = 0
total ((k, n) ∷ m) = n + total m

total-bump : (k : Text) (m : Map ℕ) → total (put k (suc (get_or k m 0)) m) ≡ suc (total m)
unfolding put get_or
total-bump k [] = omega arith
total-bump k ((j, n) ∷ m) = ground (arith, total-bump k m)

total_refs-source_tables : (m : Map ℕ) → total_refs (source_tables m) ≡ total m
unfolding source_tables
total_refs-source_tables [] = refl
total_refs-source_tables ((id, n) ∷ m) = ap (λ (k : ℕ). n + k) (total_refs-source_tables m)

total_refs-insert_by :
    (s : SourceTable) (ss : List SourceTable)
    → total_refs (insert_by source_less s ss) ≡ s.refs + total_refs ss
unfolding insert_by
total_refs-insert_by s [] = refl
total_refs-insert_by s (t ∷ ts) = ground (arith, total_refs-insert_by s ts)

total_refs-sort_by : (ss : List SourceTable) → total_refs (sort_by source_less ss) ≡ total_refs ss
unfolding sort_by
total_refs-sort_by [] = refl
total_refs-sort_by (s ∷ ss) =
    omega (arith, total_refs-insert_by s (sort_by source_less ss), total_refs-sort_by ss)

-- How many lineage rows of a table, and of all tables, cite an upstream model.
abbrev pub cites : ColumnLineage → Bool
cites l = is_source_ref l.source_table

abbrev pub cited : List Table → ℕ
cited [] = 0
cited (t ∷ ts) = count cites t.column_lineage + cited ts

abbrev pub documented_columns : List Table → ℕ
documented_columns [] = 0
documented_columns (t ∷ ts) = length t.columns + documented_columns ts

-- What a stretch of the loop does to the counters, when it meets `n` citations and `c` columns.
record Counts (st st' : Tally) (n c : ℕ) : Type 0 where
  edges : st'.lineage_edges ≡ st.lineage_edges + n
  refs : total st'.src_refs ≡ total st.src_refs + n
  columns : st'.col_count ≡ st.col_count + c

not_empty : (s : Text) → (s == []) ≡ true → is_source_ref s ≡ false
unfolding is_source_ref
not_empty s h = rw h

module _ (rewrite : Map Text) where
  Counts-collect_row :
      (id : Text) (l : ColumnLineage) (st : Tally)
      → Counts st (collect_row rewrite id l st).1 (if cites l then 1 else 0) 0
  unfolding collect_row
  Counts-collect_row id l st = ground (
    arith,
    not_empty l.source_table,
    total-bump (get_or l.source_table rewrite l.source_table) st.src_refs,
  )

  Counts-collect_rows :
      (id : Text) (ls : List ColumnLineage) (st : Tally)
      → Counts st (collect_rows rewrite id ls st).1 (count cites ls) 0
  unfolding collect_rows count
  Counts-collect_rows id [] st = omega arith
  Counts-collect_rows id (l ∷ ls) st =
      let st' = (collect_row rewrite id l st).1 in
      let step = Counts-collect_row id l st in
      let rest = Counts-collect_rows id ls st' in omega (arith, step, rest)

  Counts-collect_tables :
      (ts : List Table) (st : Tally)
      → Counts st (collect_tables rewrite ts st).1 (cited ts) (documented_columns ts)
  unfolding collect_tables
  Counts-collect_tables [] st = omega arith
  Counts-collect_tables (t ∷ ts) st =
      let start : Tally = record st { col_count = st.col_count + length t.columns } in
      let step = Counts-collect_rows t.id t.column_lineage start in
      let rest = Counts-collect_tables ts (collect_rows rewrite t.id t.column_lineage start).1 in
      omega (arith, step, rest)

-- The lineage edges that are counted are the rows that cite an upstream model; the references of the
-- source tables add up to exactly these; and the columns counted are the documented ones.
pub collect_sources_counts :
    (by_id : Map Table) (ts : List Table)
    → let s = collect_sources by_id ts in
      (s.lineage_edges ≡ cited ts)
      × (total_refs s.sources ≡ cited ts)
      × (s.col_count ≡ documented_columns ts)
unfolding collect_sources
collect_sources_counts by_id ts =
    let start : Tally = record {
      src_refs = [];
      undocumented = [];
      lineage_edges = 0;
      col_count = 0;
    } in
    let rewrite = canonicalise_sources ts in
    let refs = (collect_tables rewrite ts start).1.src_refs in
    omega (
      arith,
      Counts-collect_tables rewrite ts start,
      total_refs-sort_by (source_tables refs),
      total_refs-source_tables refs,
    )
