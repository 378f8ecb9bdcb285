-- ===== src/Graph/Sources/Canon.antt =====
-- backend/internal/graph/sources.go: canonicaliseSources rewrites a bare name only where every
-- qualified citation of it agrees.
use urara_vision.Base.{
  ◌≡◌, refl, inl, inr, Bool, true, false, not, ◌&&◌, ◌||◌, Option, none, some, List, [], ◌∷◌, arith,
  Bool-cases, All,
}
use urara_vision.Base.Text.{Text, ◌==◌, ==_iff}
use urara_vision.Base.Maps.{Map, get, get_or, get-put, get_or-put}
use urara_vision.Model.{Table, ColumnLineage}
use urara_vision.Graph.Sources.{
  is_source_ref, split_qualified, Scan, scan_ref, scan_lineage, scan_tables, unambiguous,
  canonicalise_sources, note_source,
}

-- The text is a qualified citation.
abbrev pub is_qualified : Text → Bool
is_qualified src = is_source_ref src && not ((split_qualified src).0 == [])

abbrev is_value : Option Text → Text → Bool
is_value none src = false
is_value (some v) src = v == src

-- The scan has met the citation: its name is ambiguous, or stands for just this citation.
abbrev settled : Scan → Text → Bool
settled st src =
    let name = (split_qualified src).1 in
    not (is_qualified src) || get_or name st.ambiguous false || is_value (get name st.qualified) src

settled-scan_ref : (src : Text) (st : Scan) → settled (scan_ref src st) src ≡ true
unfolding scan_ref
settled-scan_ref src st =
    let name = (split_qualified src).1 in
    ground (
      arith,
      get-put name name src st.qualified,
      get_or-put name name true false st.ambiguous,
      ==_iff name name,
      ==_iff src src,
    )

keep-note_source :
    (src name x : Text) (st : Scan) (o : Option Text)
    → get name st.qualified ≡ o
    → settled st x ≡ true
    → settled (note_source src name st o) x ≡ true
keep-note_source src name x st none e h =
    let other = (split_qualified x).1 in
    ground (arith, get-put name other src st.qualified, ==_iff name other)
keep-note_source src name x st (some prev) e h =
    let other = (split_qualified x).1 in
    ground (
      arith,
      get-put name other src st.qualified,
      get_or-put name other true false st.ambiguous,
      ==_iff name other,
      ==_iff prev src,
      ==_iff prev x,
      ==_iff src x,
    )

keep-scan_ref :
    (src x : Text) (st : Scan) → settled st x ≡ true → settled (scan_ref src st) x ≡ true
unfolding scan_ref
keep-scan_ref src x st h =
    let name = (split_qualified src).1 in
    elim (Bool-cases (is_source_ref src)) [
      | inr n ↦ rw n h
      | inl y ↦ elim (Bool-cases ((split_qualified src).0 == [])) [
        | inl p ↦ rw (y, p) h
        | inr p ↦ rw (y, p) (keep-note_source src name x st (get name st.qualified) refl h)
      ]
    ]

keep-scan_lineage :
    (ls : List ColumnLineage) (x : Text) (st : Scan)
    → settled st x ≡ true
    → settled (scan_lineage ls st) x ≡ true
unfolding scan_lineage
keep-scan_lineage [] x st h = h
keep-scan_lineage (l ∷ ls) x st h =
    keep-scan_lineage ls x (scan_ref l.source_table st) (keep-scan_ref l.source_table x st h)

keep-scan_tables :
    (ts : List Table) (x : Text) (st : Scan)
    → settled st x ≡ true
    → settled (scan_tables ts st) x ≡ true
unfolding scan_tables
keep-scan_tables [] x st h = h
keep-scan_tables (t ∷ ts) x st h =
    keep-scan_tables ts x (scan_lineage t.column_lineage st)
      (keep-scan_lineage t.column_lineage x st h)

IsSettled : Scan → ColumnLineage → Type 0
IsSettled st l = settled st l.source_table ≡ true

All-keep :
    (ts : List Table) (ls : List ColumnLineage) (st : Scan)
    → All (IsSettled st) ls
    → All (IsSettled (scan_tables ts st)) ls
unfolding IsSettled
All-keep ts [] st h = tt
All-keep ts (l ∷ ls) st h = (keep-scan_tables ts l.source_table st h.0, All-keep ts ls st h.1)

IsSettled-scan_lineage :
    (ls : List ColumnLineage) (st : Scan) → All (IsSettled (scan_lineage ls st)) ls
unfolding scan_lineage IsSettled
IsSettled-scan_lineage [] st = tt
IsSettled-scan_lineage (l ∷ ls) st = (
  keep-scan_lineage ls l.source_table _ (settled-scan_ref l.source_table st),
  IsSettled-scan_lineage ls (scan_ref l.source_table st),
)

-- After the loop every row of every table is settled.
IsSettled-scan_tables :
    (ts : List Table) (st : Scan)
    → All (λ t. All (IsSettled (scan_tables ts st)) t.column_lineage) ts
unfolding scan_tables
IsSettled-scan_tables [] st = tt
IsSettled-scan_tables (t ∷ ts) st = (
  All-keep ts t.column_lineage _ (IsSettled-scan_lineage t.column_lineage st),
  IsSettled-scan_tables ts (scan_lineage t.column_lineage st),
)

pub get-unambiguous :
    (n : Text) (a : Map Bool) (m : Map Text) (v : Text)
    → get n (unambiguous a m) ≡ some v
    → (get_or n a false ≡ false) × (get n m ≡ some v)
unfolding get unambiguous
get-unambiguous n a [] v h = absurd (cc h)
get-unambiguous n a ((j, w) ∷ m) v h = ground (arith, get-unambiguous n a m v, ==_iff j n)

-- A row either is no qualified citation of the name `n` or cites just `v`.
abbrev pub CitesOnly : Text → Text → ColumnLineage → Type 0
CitesOnly n v l =
    (is_qualified l.source_table
      && ((split_qualified l.source_table).1 == n)
      && not (l.source_table == v))
    ≡ false

row-CitesOnly :
    (n v : Text) (st : Scan) (l : ColumnLineage)
    → get_or n st.ambiguous false ≡ false
    → get n st.qualified ≡ some v
    → settled st l.source_table ≡ true
    → CitesOnly n v l
row-CitesOnly n v st l a q h = ground (
  arith,
  ==_iff (split_qualified l.source_table).1 n,
  ==_iff v l.source_table,
  ==_iff l.source_table v,
)

rows-CitesOnly :
    (n v : Text) (st : Scan) (ls : List ColumnLineage)
    → get_or n st.ambiguous false ≡ false
    → get n st.qualified ≡ some v
    → All (IsSettled st) ls
    → All (CitesOnly n v) ls
unfolding IsSettled
rows-CitesOnly n v st [] a q h = tt
rows-CitesOnly n v st (l ∷ ls) a q h =
    (row-CitesOnly n v st l a q h.0, rows-CitesOnly n v st ls a q h.1)

tables-CitesOnly :
    (n v : Text) (st : Scan) (ts : List Table)
    → get_or n st.ambiguous false ≡ false
    → get n st.qualified ≡ some v
    → All (λ t. All (IsSettled st) t.column_lineage) ts
    → All (λ t. All (CitesOnly n v) t.column_lineage) ts
tables-CitesOnly n v st [] a q h = tt
tables-CitesOnly n v st (t ∷ ts) a q h =
    (rows-CitesOnly n v st t.column_lineage a q h.0, tables-CitesOnly n v st ts a q h.1)

-- A bare name that is rewritten to `v` is cited with a dataset as `v` only, in every row of every
-- table: a name that two datasets share is never rewritten.
pub canonicalise_sources_agrees :
    (ts : List Table) (n v : Text)
    → get n (canonicalise_sources ts) ≡ some v
    → All (λ t. All (CitesOnly n v) t.column_lineage) ts
unfolding canonicalise_sources
canonicalise_sources_agrees ts n v h =
    let st = scan_tables ts (record { qualified = []; ambiguous = [] }) in
    let (clear, found) = get-unambiguous n st.ambiguous st.qualified v h in
    tables-CitesOnly n v st ts clear found (IsSettled-scan_tables ts _)
