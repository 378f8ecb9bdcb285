-- ===== src/Graph/Build.antt =====
-- backend/internal/graph/build.go: the stages in order, from a parse result to a model.
pub mod Joins
pub mod Errors
pub mod Laws
use urara_vision.Base.{ℕ, List, [], ◌∷◌, ◌++◌, length}
use urara_vision.Base.Text.{Text}
use urara_vision.Model.{Table, Domain, Diagnostic, ProjectMeta, Stats, Snapshot, Model}
use urara_vision.Graph.Ids.{sort_diagnostics}
use urara_vision.Graph.Registry.{Registry, new_registry, mark_conformed}
use urara_vision.Graph.Resolve.{resolve_relationships}
use urara_vision.Graph.Sources.{Sources, collect_sources}
use urara_vision.Graph.Domains.{count_domain_tables, flag_isolated_tables}
use urara_vision.Graph.Drift.{detect_conformed_drift}
use urara_vision.I18n.Prose.{check}

-- parser.Result
pub record Result : Type 0 where
  pub domains : List Domain
  pub tables : List Table
  pub diagnostics : List Diagnostic
  pub parsed : ℕ
  pub skipped : ℕ

abbrev no_stats : Stats
no_stats = record {
  domains = 0;
  tables = 0;
  columns = 0;
  relationships = 0;
  lineage_edges = 0;
  source_tables = 0;
  conformed = 0;
  files_parsed = 0;
  files_skipped = 0;
  diagnostics = 0;
  translated = 0;
}

-- What m.Snapshot is while the stages run: its project alone is set.
abbrev pub project_only : ProjectMeta → Snapshot
project_only meta = record {
  id = [];
  name = [];
  source_label = [];
  created_at = 0;
  stats = no_stats;
  project = meta;
  project_id = [];
  project_slug = [];
}

-- What the stages before detectConformedDrift leave behind: the registry, the model, and the four
-- counts they return.
pub record Staged : Type 0 where
  pub registry : Registry
  pub model : Model
  pub conformed : ℕ
  pub relationships : ℕ
  pub lineage_edges : ℕ
  pub columns : ℕ

unfoldable pub stages : (Text → List ℕ) → Text → ProjectMeta → Result → Staged
stages sha1 snapshot_id meta pr =
    let (stamped, reg) = new_registry pr.tables snapshot_id in
    let (marked, conformed) = mark_conformed reg stamped in
    let (resolved, reports, relationships) = resolve_relationships sha1 reg marked in
    let sources = collect_sources reg.by_id resolved in
    let (domains, empties) = count_domain_tables sources.tables pr.domains snapshot_id in
    record {
      registry = reg;
      model = record {
        snapshot = project_only meta;
        domains = domains;
        tables = sources.tables;
        source_tables = sources.sources;
        diagnostics =
            pr.diagnostics
            ++ reports
            ++ sources.diagnostics
            ++ empties
            ++ flag_isolated_tables sources.tables;
      };
      conformed = conformed;
      relationships = relationships;
      lineage_edges = sources.lineage_edges;
      columns = sources.col_count;
    }

-- Everything that is reported, before it is sorted.
unfoldable pub found : Staged → List Diagnostic
found st =
    st.model.diagnostics
    ++ detect_conformed_drift st.registry.by_name st.registry.by_id
    ++ (check st.model).diagnostics

-- The stages after: drift, the languages, the sorting and the counts of the snapshot.
unfoldable pub finish : Text → Text → Text → ProjectMeta → Result → Staged → Model
finish snapshot_id name source_label meta pr st =
    let m = st.model in
    let diagnostics = sort_diagnostics (found st) in
    record m {
      diagnostics = diagnostics;
      snapshot = record {
        id = snapshot_id;
        name = name;
        source_label = source_label;
        created_at = 0;
        stats = record {
          domains = length m.domains;
          tables = length m.tables;
          columns = st.columns;
          relationships = st.relationships;
          lineage_edges = st.lineage_edges;
          source_tables = length m.source_tables;
          conformed = st.conformed;
          files_parsed = pr.parsed;
          files_skipped = pr.skipped;
          diagnostics = length diagnostics;
          translated = (check m).translated;
        };
        project = meta;
        project_id = [];
        project_slug = [];
      };
    }

unfoldable pub build :
    (sha1 : Text → List ℕ) (snapshot_id name source_label : Text) → ProjectMeta → Result → Model
build sha1 snapshot_id name source_label meta pr =
    finish snapshot_id name source_label meta pr (stages sha1 snapshot_id meta pr)
