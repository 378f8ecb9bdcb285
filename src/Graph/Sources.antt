-- ===== src/Graph/Sources.antt =====
-- backend/internal/graph/sources.go: upstream source models, read from the column-level lineage.
-- The matcher of sourceRefRe is written out.
pub mod Canon
pub mod Idempotence
pub mod Refs
use urara_vision.Base.{
  ℕ, suc, ◌+◌, Bool, true, false, Option, none, some, List, [], ◌∷◌, ◌++◌, ◌||◌, ◌&&◌, not, length,
  leb, nat_eq, if◌then◌else◌,
}
use urara_vision.Base.Text.{Text, codes, ◌==◌, text_lt}
use urara_vision.Base.Maps.{Map, get, get_or, put}
use urara_vision.Base.Print.{itoa}
use urara_vision.Base.Sort.{sort_by}
use urara_vision.Model.{Table, ColumnLineage, SourceTable, Severity, info, Diagnostic}
use urara_vision.Graph.Orient.{about}

abbrev pub word_byte : ℕ → Bool
word_byte c =
    leb b'A' c && leb c b'Z'
    || leb b'a' c && leb c b'z'
    || leb b'0' c && leb c b'9'
    || nat_eq c b'_'

-- `^[A-Za-z0-9_]+(\.[A-Za-z0-9_]+)*$`; `inside` tells that the last byte is a word byte.
unfoldable pub source_ref_from : Bool → Text → Bool
source_ref_from inside [] = inside
source_ref_from inside (c ∷ s) =
    (word_byte c || nat_eq c b'.' && inside) && source_ref_from (word_byte c) s

unfoldable pub is_source_ref : Text → Bool
unfolding source_ref_from
is_source_ref s = not (s == []) && source_ref_from false s

abbrev pub extend : ℕ → Text → Option (Text × Text) → Option (Text × Text)
extend c s (some (a, b)) = some (c ∷ a, b)
extend c s none = if nat_eq c b'.' then some ([], s) else none

-- What stands before and behind the last dot.
unfoldable pub last_dot : Text → Option (Text × Text)
last_dot [] = none
last_dot (c ∷ s) = extend c s (last_dot s)

abbrev pub or_bare : Text → Option (Text × Text) → Text × Text
or_bare id (some (d ∷ ds, name)) = (d ∷ ds, name)
or_bare id (some ([], name)) = ([], id)
or_bare id none = ([], id)

-- The dataset and the name: the dot must not stand first.
unfoldable pub split_qualified : Text → Text × Text
split_qualified id = or_bare id (last_dot id)

pub record Scan : Type 0 where
  pub qualified : Map Text
  pub ambiguous : Map Bool

abbrev pub note_source : Text → Text → Scan → Option Text → Scan
note_source src name st (some prev) =
    if prev == src
    then record st { qualified = put name src st.qualified }
    else record st { ambiguous = put name true st.ambiguous }
note_source src name st none = record st { qualified = put name src st.qualified }

-- One round of the loop of canonicaliseSources.
unfoldable pub scan_ref : Text → Scan → Scan
scan_ref src st =
    let (dataset, name) = split_qualified src in
    if not (is_source_ref src)
    then st
    else if dataset == []
    then st
    else note_source src name st (get name st.qualified)

unfoldable pub scan_lineage : List ColumnLineage → Scan → Scan
scan_lineage [] st = st
scan_lineage (l ∷ ls) st = scan_lineage ls (scan_ref l.source_table st)

unfoldable pub scan_tables : List Table → Scan → Scan
scan_tables [] st = st
scan_tables (t ∷ ts) st = scan_tables ts (scan_lineage t.column_lineage st)

unfoldable pub unambiguous : Map Bool → Map Text → Map Text
unambiguous ambiguous [] = []
unambiguous ambiguous ((name, id) ∷ m) =
    if get_or name ambiguous false
    then unambiguous ambiguous m
    else (name, id) ∷ unambiguous ambiguous m

unfoldable pub canonicalise_sources : List Table → Map Text
canonicalise_sources ts =
    let st = scan_tables ts (record { qualified = []; ambiguous = [] }) in
    unambiguous st.ambiguous st.qualified

abbrev pub canon : Map Text → Text → Text
canon rewrite src = get_or src rewrite src

-- The counters of collectSources.
pub record Tally : Type 0 where
  pub src_refs : Map ℕ
  pub undocumented : Map ℕ
  pub lineage_edges : ℕ
  pub col_count : ℕ

abbrev bump : Text → Map ℕ → Map ℕ
bump k m = put k (suc (get_or k m 0)) m

abbrev cite : Text → ColumnLineage → Tally → ColumnLineage × Tally
cite src l st = (
  record l { source_table = src },
  record st { src_refs = bump src st.src_refs; lineage_edges = suc st.lineage_edges },
)

-- One round of the inner loop: the lineage row, rewritten, and the counters.
unfoldable pub collect_row : Map Text → Text → ColumnLineage → Tally → ColumnLineage × Tally
collect_row rewrite table_id l st =
    if l.source_table == []
    then (l, st)
    else if not (is_source_ref l.source_table)
    then (l, record st { undocumented = bump table_id st.undocumented })
    else cite (canon rewrite l.source_table) l st

unfoldable pub collect_rows :
    Map Text → Text → List ColumnLineage → Tally → List ColumnLineage × Tally
collect_rows rewrite table_id [] st = ([], st)
collect_rows rewrite table_id (l ∷ ls) st =
    let (l', st') = collect_row rewrite table_id l st in
    let (ls', st'') = collect_rows rewrite table_id ls st' in (l' ∷ ls', st'')

unfoldable pub collect_tables : Map Text → List Table → Tally → List Table × Tally
collect_tables rewrite [] st = ([], st)
collect_tables rewrite (t ∷ ts) st =
    let (ls, st') =
      collect_rows rewrite t.id t.column_lineage
        (record st { col_count = st.col_count + length t.columns }) in
    let (ts', st'') = collect_tables rewrite ts st' in
    (record t { column_lineage = ls } ∷ ts', st'')

unfoldable pub undocumented_lineage : Table → ℕ → Diagnostic
undocumented_lineage t n =
    about info (codes "undocumented_lineage")
      (t.name
        ++ codes " has "
        ++ itoa n
        ++ codes " column(s) whose source is recorded as prose rather than a model name; "
        ++ codes "those are excluded from the lineage graph.")
      t

abbrev pub report_undocumented : Option Table → ℕ → List Diagnostic → List Diagnostic
report_undocumented none n ds = ds
report_undocumented (some t) n ds = undocumented_lineage t n ∷ ds

unfoldable pub undocumented_all : Map Table → Map ℕ → List Diagnostic
undocumented_all by_id [] = []
undocumented_all by_id ((id, n) ∷ m) =
    report_undocumented (get id by_id) n (undocumented_all by_id m)

unfoldable pub source_tables : Map ℕ → List SourceTable
source_tables [] = []
source_tables ((id, refs) ∷ m) =
    let (dataset, name) = split_qualified id in
    record { id = id; dataset = dataset; name = name; refs = refs } ∷ source_tables m

unfoldable pub source_less : SourceTable → SourceTable → Bool
source_less a b = text_lt a.id b.id

pub record Sources : Type 0 where
  pub tables : List Table
  pub diagnostics : List Diagnostic
  pub sources : List SourceTable
  pub lineage_edges : ℕ
  pub col_count : ℕ

unfoldable pub collect_sources : Map Table → List Table → Sources
collect_sources by_id ts =
    let rewrite = canonicalise_sources ts in
    let start : Tally = record {
      src_refs = [];
      undocumented = [];
      lineage_edges = 0;
      col_count = 0;
    } in
    let (ts', st) = collect_tables rewrite ts start in
    record {
      tables = ts';
      diagnostics = undocumented_all by_id st.undocumented;
      sources = sort_by source_less (source_tables st.src_refs);
      lineage_edges = st.lineage_edges;
      col_count = st.col_count;
    }
