-- ===== src/Graph/Build/Laws.antt =====
-- backend/internal/graph/build.go: what the finished model says of itself.
use mathlib.Core.Path.{subst}
use urara_vision.Base.{
  ℕ, ◌+◌, ◌≡◌, refl, sym, ap, ◌∙◌, fun_ext, Bool, true, false, List, [], ◌∷◌, map, if◌then◌else◌,
  length, count, All,
}
use urara_vision.Base.Text.{Text, elem}
use urara_vision.Base.Maps.{Map}
use urara_vision.Base.Sort.{sort_strings, count-sort_by}
use urara_vision.Model.{Table, Relationship, ProjectMeta, Diagnostic, Model}
use urara_vision.Graph.Ids.{diagnostic_less, sort_diagnostics}
use urara_vision.Graph.Registry.{Registry, stamp_all, new_registry, mark_conformed}
use urara_vision.Graph.Registry.Laws.{
  ids, ids_named, keys-new_registry, by_name-new_registry, mark_conformed-count,
}
use urara_vision.Graph.Resolve.{resolve_relationships}
use urara_vision.Graph.Resolve.Bound.{
  Outcome, registered, listed, AllRelationships, resolve_relationships_bound,
}
use urara_vision.Graph.Resolve.Reports.{is_error, declared, resolve_relationships_reports}
use urara_vision.Graph.Resolve.Unresolved.{
  expected_in, none_satisfies, resolve_relationships_expected,
}
use urara_vision.Graph.Sources.{Tally, collect_tables, collect_sources}
use urara_vision.Graph.Sources.Refs.{total_refs, documented_columns, collect_sources_counts}
use urara_vision.Graph.Build.{Result, Staged, stages, found, finish, build}
use urara_vision.Graph.Build.Errors.{
  counts-stages, errors-collect_sources, errors-count_domain_tables, errors-flag_isolated_tables,
  errors-detect_conformed_drift, errors-check,
}
use urara_vision.Graph.Build.Joins.{
  joins, joins-marked, joins-collect_sources, ids-eq, declared-eq, expected_in-eq,
  AllRelationships-eq, ids-resolve_relationships,
}

abbrev Says : (Text → Bool) → (Text → List Text) → Text → Relationship → Type 0
Says known named domain r = Outcome known named r.resolution domain r.target_ref r.to_table_id

-- The outcome, with what is known and named read off the tables themselves.
abbrev pub OutcomeIn : List Table → List Table → Text → Relationship → Type 0
OutcomeIn ts documents domain r =
    Outcome (λ id. elem id (ids ts)) (λ n. sort_strings (ids_named n documents)) r.resolution domain
      r.target_ref r.to_table_id

is_flagged : Table → Bool
is_flagged t = t.conformed

flagged-resolve_relationships :
    (sha1 : Text → List ℕ) (reg : Registry) (ts : List Table)
    → count is_flagged (resolve_relationships sha1 reg ts).0 ≡ count is_flagged ts
unfolding resolve_relationships count is_flagged
flagged-resolve_relationships sha1 reg [] = refl
flagged-resolve_relationships sha1 reg (t ∷ ts) =
    ap (λ (n : ℕ). (if t.conformed then 1 else 0) + n) (flagged-resolve_relationships sha1 reg ts)

flagged-collect_tables :
    (rewrite : Map Text) (ts : List Table) (st : Tally)
    → (count is_flagged (collect_tables rewrite ts st).0 ≡ count is_flagged ts)
      × (documented_columns (collect_tables rewrite ts st).0 ≡ documented_columns ts)
unfolding collect_tables count is_flagged
flagged-collect_tables rewrite [] st = (refl, refl)
flagged-collect_tables rewrite (t ∷ ts) st =
    let (flags, cols) = flagged-collect_tables rewrite ts _ in
    (
      ap (λ (n : ℕ). (if t.conformed then 1 else 0) + n) flags,
      ap (λ (n : ℕ). length t.columns + n) cols,
    )

flagged-collect_sources :
    (by_id : Map Table) (ts : List Table)
    → (count is_flagged (collect_sources by_id ts).tables ≡ count is_flagged ts)
      × (documented_columns (collect_sources by_id ts).tables ≡ documented_columns ts)
unfolding collect_sources
flagged-collect_sources by_id ts = flagged-collect_tables _ ts _

flags-stamp_all :
    (sid : Text) (ts : List Table)
    → All (λ t. t.conformed ≡ false) ts
    → All (λ t. t.conformed ≡ false) (stamp_all sid ts)
unfolding stamp_all
flags-stamp_all sid [] h = tt
flags-stamp_all sid (t ∷ ts) h = (h.0, flags-stamp_all sid ts h.1)

flagged-mark_conformed :
    (reg : Registry) (sid : Text) (ts : List Table)
    → All (λ t. t.conformed ≡ false) ts
    → (mark_conformed reg (new_registry ts sid).0).1
      ≡ count is_flagged (mark_conformed reg (new_registry ts sid).0).0
unfolding new_registry is_flagged
flagged-mark_conformed reg sid ts h =
    mark_conformed-count reg (stamp_all sid ts) (flags-stamp_all sid ts h)

module _ (sha1 : Text → List ℕ) (sid name label : Text) (meta : ProjectMeta) (pr : Result) where
  abbrev built : Model
  built = build sha1 sid name label meta pr

  abbrev reg : Registry
  reg = (new_registry pr.tables sid).1

  abbrev marked : List Table
  marked = (mark_conformed reg (new_registry pr.tables sid).0).0

  abbrev resolved : List Table
  resolved = (resolve_relationships sha1 reg marked).0

  tables-build : built.tables ≡ (collect_sources reg.by_id resolved).tables
  unfolding build stages finish
  tables-build = refl

  joins-build : map joins built.tables ≡ map joins resolved
  joins-build = ap (map joins) tables-build ∙ joins-collect_sources reg.by_id resolved

  ids-build : ids built.tables ≡ ids pr.tables
  ids-build =
      ids-eq built.tables resolved joins-build
      ∙ ids-resolve_relationships sha1 reg marked
      ∙ ids-eq marked pr.tables (joins-marked sid pr.tables reg)

  abbrev known_built : Text → Bool
  known_built id = elem id (ids built.tables)

  registered-build : registered reg ≡ (λ id. elem id (ids built.tables))
  registered-build =
      fun_ext (λ id. keys-new_registry pr.tables sid id ∙ ap (elem id) (sym ids-build))

  listed-build : listed reg ≡ (λ n. sort_strings (ids_named n pr.tables))
  listed-build = fun_ext (λ n. by_name-new_registry pr.tables sid n)

  -- No table is lost or added, and when the parsed relationships are not bound yet, every
  -- relationship of the model is classified by the tables of the model: a local one is bound to the
  -- table of its own domain that it names, which is there; a conformed one to a table that is there
  -- and has the name, its own domain having none; an unresolved one is unbound and no document has
  -- the name; a narrative one is unbound and no identifier.
  pub build_bound :
      AllRelationships (λ t r. r.to_table_id ≡ []) pr.tables
      → (ids (build sha1 sid name label meta pr).tables ≡ ids pr.tables)
        × AllRelationships
            (λ t r. OutcomeIn (build sha1 sid name label meta pr).tables pr.tables t.domain_id r)
            (build sha1 sid name label meta pr).tables
  build_bound h =
      let unbound =
        AllRelationships-eq (λ d r. r.to_table_id ≡ []) marked pr.tables
          (joins-marked sid pr.tables reg) h in
      let by_registry = resolve_relationships_bound sha1 pr.tables marked sid unbound in
      let by_tables =
        subst (λ known. AllRelationships (λ t r. Says known (listed reg) t.domain_id r) resolved)
          registered-build by_registry in
      let by_names =
        subst (λ named. AllRelationships (λ t r. Says known_built named t.domain_id r) resolved)
          listed-build by_tables in
      (
        ids-build,
        AllRelationships-eq (OutcomeIn built.tables pr.tables) built.tables resolved joins-build
            by_names,
      )

  stats-eq :
      (built.snapshot.stats.relationships ≡ (resolve_relationships sha1 reg marked).2)
      × (built.snapshot.stats.lineage_edges ≡ (collect_sources reg.by_id resolved).lineage_edges)
      × (built.snapshot.stats.columns ≡ (collect_sources reg.by_id resolved).col_count)
      × (built.snapshot.stats.conformed ≡ (mark_conformed reg (new_registry pr.tables sid).0).1)
      × (built.source_tables ≡ (collect_sources reg.by_id resolved).sources)
  unfolding build stages finish
  stats-eq = (refl, refl, refl, refl, refl)

  -- When no parsed table is flagged yet, the counts of the snapshot are those of the model it
  -- describes: the relationships its tables declare, their columns, the tables flagged as conformed,
  -- and as many lineage edges as the references of its source tables add up to.
  pub build_stats :
      All (λ t. t.conformed ≡ false) pr.tables
      → let m = build sha1 sid name label meta pr in
        (m.snapshot.stats.relationships ≡ declared m.tables)
        × (m.snapshot.stats.columns ≡ documented_columns m.tables)
        × (m.snapshot.stats.conformed ≡ count (λ t. t.conformed) m.tables)
        × (m.snapshot.stats.lineage_edges ≡ total_refs m.source_tables)
  unfolding is_flagged
  build_stats h =
      let (rels, edges, cols, flags, srcs) = stats-eq in
      let (n, kept, errs) = resolve_relationships_reports sha1 reg marked in
      let (e, refs, c) = collect_sources_counts reg.by_id resolved in
      let (f, d) = flagged-collect_sources reg.by_id resolved in
      (
        rels ∙ n ∙ sym kept ∙ sym (declared-eq built.tables resolved joins-build),
        cols ∙ c ∙ sym d ∙ ap documented_columns (sym tables-build),
        flags
            ∙ flagged-mark_conformed reg sid pr.tables h
            ∙ sym (flagged-resolve_relationships sha1 reg marked)
            ∙ sym f
            ∙ ap (count is_flagged) (sym tables-build),
        edges ∙ e ∙ sym refs ∙ ap total_refs (sym srcs),
      )

  abbrev staged : Staged
  staged = stages sha1 sid meta pr

  counts-found :
      (p : Diagnostic → Bool)
      → ((d : Diagnostic) → p d ≡ true → is_error d ≡ true)
      → count p (found staged)
        ≡ count p pr.diagnostics + count p (resolve_relationships sha1 reg marked).1
  unfolding found stages
  counts-found p only =
      let none = none_satisfies p only in
      counts-stages p pr.diagnostics (resolve_relationships sha1 reg marked).1 _ _ _ _ _
        (none _ (errors-collect_sources reg.by_id resolved))
        (none _
          (errors-count_domain_tables (collect_sources reg.by_id resolved).tables pr.domains sid))
        (none _ (errors-flag_isolated_tables (collect_sources reg.by_id resolved).tables))
        (none _ (errors-detect_conformed_drift reg.by_name reg.by_id))
        (none _ (errors-check staged.model))

  diagnostics-build : built.diagnostics ≡ sort_diagnostics (found staged)
  unfolding build finish
  diagnostics-build = refl

  -- The errors of a finished model are, as often as each is there, those that parsing reported and, for
  -- each relationship of its tables that is left unresolved, the error that names the table and the
  -- target that no document defines; no other error is in it. That is: of any test that only errors
  -- satisfy, as many diagnostics of the model satisfy it as of these.
  pub build_errors :
      (p : Diagnostic → Bool)
      → ((d : Diagnostic) → p d ≡ true → is_error d ≡ true)
      → let m = build sha1 sid name label meta pr in
        count p m.diagnostics ≡ count p pr.diagnostics + count p (expected_in m.tables)
  unfolding sort_diagnostics
  build_errors p only =
      ap (count p) diagnostics-build
      ∙ count-sort_by diagnostic_less p (found staged)
      ∙ counts-found p only
      ∙ ap (λ (n : ℕ). count p pr.diagnostics + n)
          (resolve_relationships_expected p only sha1 reg marked
            ∙ ap (count p) (sym (expected_in-eq built.tables resolved joins-build)))
