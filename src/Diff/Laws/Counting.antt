-- ===== src/Diff/Laws/Counting.antt =====
-- backend/internal/diff/diff.go: the summary counts the entries.
use mathlib.Core.Path.{subst}
use mathlib.Core.List.{append_assoc, append-nil}
use urara_vision.Base.{
  ◌≡◌, refl, sym, ap, ◌∙◌, inl, inr, Bool, true, false, ◌&&◌, some, List, [], ◌∷◌, ◌++◌, arith,
  Bool-cases, count, count-append, is_empty,
}
use urara_vision.Base.Maps.{Map}
use urara_vision.Model.{Table, Model}
use urara_vision.Diff.Types.{
  Change, added, removed, changed, FieldChange, Counts, TableDiff, ColumnDiff,
}
use urara_vision.Diff.Walk.{
  Visit, gone, new, both, change_of, bump, visit, walk, column_fields, table_fields, domain_fields,
  relationship_fields, lineage_fields,
}
use urara_vision.Diff.Walks.{walk-keeps}
use urara_vision.Diff.{
  report, fields_of, unchanged, columns_of, domain_entry, column_entry, relationship_entry,
  lineage_entry, table_entry, compare_columns, report_table, no_counts, compare_domains,
  compare_tables, compare_relationships, compare_lineage, compare,
}

abbrev pub is_change : Change → Change → Bool
is_change added added = true
is_change removed removed = true
is_change changed changed = true
is_change _ _ = false

-- A tally counts a list of entries when it says how many of them were added, removed and changed.
abbrev pub Tallies : {D : Type 0} → (D → Change) → Counts → List D → Type 0
Tallies kind c ds =
    (c.added ≡ count (λ d. is_change added (kind d)) ds)
    × (c.removed ≡ count (λ d. is_change removed (kind d)) ds)
    × (c.changed ≡ count (λ d. is_change changed (kind d)) ds)

module _ {D : Type 0} (kind : D → Change) where
  Tallies-none : Tallies kind no_counts []
  unfolding count
  Tallies-none = (refl, refl, refl)

  -- One more entry, on the list behind `before`, and one more on its count.
  Tallies-more :
      (c : Counts) (ds : List D) (d : D) (x : Change)
      → kind d ≡ x
      → Tallies kind c ds
      → Tallies kind (bump x c) (ds ++ d ∷ [])
  unfolding bump count
  Tallies-more c ds d added e h =
      rw
        (
          count-append (λ d. is_change added (kind d)) ds (d ∷ []),
          count-append (λ d. is_change removed (kind d)) ds (d ∷ []),
          count-append (λ d. is_change changed (kind d)) ds (d ∷ []),
          e,
        )
        (omega arith)
  Tallies-more c ds d removed e h =
      rw
        (
          count-append (λ d. is_change added (kind d)) ds (d ∷ []),
          count-append (λ d. is_change removed (kind d)) ds (d ∷ []),
          count-append (λ d. is_change changed (kind d)) ds (d ∷ []),
          e,
        )
        (omega arith)
  Tallies-more c ds d changed e h =
      rw
        (
          count-append (λ d. is_change added (kind d)) ds (d ∷ []),
          count-append (λ d. is_change removed (kind d)) ds (d ∷ []),
          count-append (λ d. is_change changed (kind d)) ds (d ∷ []),
          e,
        )
        (omega arith)

module _ {T D : Type 0} (kind : D → Change) (compared : T → T → List FieldChange)
    (entry : Visit T → List FieldChange → D)
    (kind-entry : (v : Visit T) (fs : List FieldChange) → kind (entry v fs) ≡ change_of v)
    (before : List D) where
  visit-Tallies :
      (v : Visit T) (z : Counts × List D)
      → Tallies kind z.0 (before ++ z.1)
      → (let st = visit (report compared entry) (some v) z in Tallies kind st.0 (before ++ st.1))
  unfolding report
  visit-Tallies v (c, out) h = elim (Bool-cases (unchanged v (fields_of compared v))) [
    | inl e ↦ rw e h
    | inr e ↦
        rw (e, sym (append_assoc before out (entry v (fields_of compared v) ∷ [])))
          (Tallies-more kind c (before ++ out) _ (change_of v) (kind-entry v _) h)
  ]

  walk-Tallies :
      (from to : Map T) (counts : Counts)
      → Tallies kind counts (before ++ [])
      → (let st = walk from to counts (report compared entry) [] in
          Tallies kind st.0 (before ++ st.1))
  walk-Tallies from to counts h =
      walk-keeps (report compared entry) (λ z. Tallies kind z.0 (before ++ z.1)) from to counts []
        visit-Tallies h

-- The column entries of the tables that are reported.
abbrev pub column_entries : List TableDiff → List ColumnDiff
column_entries [] = []
column_entries (d ∷ ds) = d.columns ++ column_entries ds

column_entries-append :
    (ds : List TableDiff) (d : TableDiff)
    → column_entries (ds ++ d ∷ []) ≡ column_entries ds ++ d.columns
column_entries-append [] d = append-nil d.columns
column_entries-append (e ∷ ds) d =
    ap (λ l. e.columns ++ l) (column_entries-append ds d)
    ∙ sym (append_assoc e.columns (column_entries ds) d.columns)

abbrev column_kind : ColumnDiff → Change
column_kind d = d.change

abbrev table_kind : TableDiff → Change
table_kind d = d.change

columns_of-Tallies :
    (v : Visit Table) (cols : Counts) (before : List ColumnDiff)
    → Tallies column_kind cols before
    → (let st = columns_of v cols in Tallies column_kind st.0 (before ++ st.1))
unfolding compare_columns column_entry
columns_of-Tallies (gone a) cols before h = rw (append-nil before) h
columns_of-Tallies (new b) cols before h = rw (append-nil before) h
columns_of-Tallies (both a b) cols before h =
    walk-Tallies column_kind column_fields column_entry (λ v fs. refl) before _ _ cols
      (rw (append-nil before) h)

abbrev TablesTally : Counts × (Counts × List TableDiff) → Type 0
TablesTally (c, (cols, ds)) = Tallies table_kind c ds × Tallies column_kind cols (column_entries ds)

no_more : {A : Type 0} (xs ys : List A) → is_empty ys ≡ true → xs ++ ys ≡ xs
no_more xs [] h = append-nil xs
no_more xs (y ∷ ys) h = cc

visit-TablesTally :
    (v : Visit Table) (z : Counts × (Counts × List TableDiff))
    → TablesTally z
    → TablesTally (visit report_table (some v) z)
unfolding report_table table_entry
visit-TablesTally v (c, (cols, ds)) (h, k) =
    let counted = columns_of-Tallies v cols (column_entries ds) k in
    let entries = (columns_of v cols).1 in
    elim (Bool-cases (unchanged v (fields_of table_fields v) && is_empty entries)) [
      | inl e ↦ rw e (
        h,
        subst (Tallies column_kind (columns_of v cols).0)
            (no_more (column_entries ds) entries (ground arith)) counted,
      )
      | inr e ↦
          rw (e, column_entries-append ds (table_entry v (fields_of table_fields v) entries))
            (Tallies-more table_kind c ds _ (change_of v) refl h, counted)
    ]

plain-Tallies :
    {T D : Type 0} (kind : D → Change) (compared : T → T → List FieldChange)
    (entry : Visit T → List FieldChange → D)
    → ((v : Visit T) (fs : List FieldChange) → kind (entry v fs) ≡ change_of v)
    → (from to : Map T)
    → (let st = walk from to no_counts (report compared entry) [] in Tallies kind st.0 st.1)
plain-Tallies kind compared entry h from to =
    walk-Tallies kind compared entry h [] from to no_counts (Tallies-none kind)

domains-Tallies :
    (from to : Model) → (let st = compare_domains from to in Tallies (λ d. d.change) st.0 st.1)
unfolding compare_domains domain_entry
domains-Tallies from to =
    plain-Tallies (λ d. d.change) domain_fields domain_entry (λ v fs. refl) _ _

relationships-Tallies :
    (from to : Model)
    → (let st = compare_relationships from to in Tallies (λ d. d.change) st.0 st.1)
unfolding compare_relationships relationship_entry
relationships-Tallies from to =
    plain-Tallies (λ d. d.change) relationship_fields relationship_entry (λ v fs. refl) _ _

lineage-Tallies :
    (from to : Model) → (let st = compare_lineage from to in Tallies (λ d. d.change) st.0 st.1)
unfolding compare_lineage lineage_entry
lineage-Tallies from to =
    plain-Tallies (λ d. d.change) lineage_fields lineage_entry (λ v fs. refl) _ _

tables-Tallies : (from to : Model) → TablesTally (compare_tables from to)
unfolding compare_tables
tables-Tallies from to =
    walk-keeps report_table TablesTally _ _ no_counts (no_counts, []) visit-TablesTally
      (Tallies-none table_kind, Tallies-none column_kind)

-- The summary of a comparison counts its entries: for domains, tables, relationships and lineage
-- rows, and for the columns of all the tables reported, it says how many were added, removed and
-- changed.
pub compare_counts :
    (from to : Model)
    → let r = compare from to in
      Tallies (λ d. d.change) r.summary.domains r.domains
      × Tallies (λ d. d.change) r.summary.tables r.tables
      × Tallies (λ d. d.change) r.summary.columns (column_entries r.tables)
      × Tallies (λ d. d.change) r.summary.relationships r.relationships
      × Tallies (λ d. d.change) r.summary.lineage r.lineage
unfolding compare
compare_counts from to =
    let (tables, columns) = tables-Tallies from to in
    (
      domains-Tallies from to,
      tables,
      columns,
      relationships-Tallies from to,
      lineage-Tallies from to,
    )
