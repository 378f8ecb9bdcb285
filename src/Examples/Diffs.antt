-- ===== src/Examples/Diffs.antt =====
-- Comparing two versions of a small project.
use urara_vision.Base.{◌≡◌, ◌↔◌, refl, [], ◌∷◌, length, In}
use urara_vision.Base.Text.{codes, elem}
use urara_vision.Model.{Model}
use urara_vision.Graph.Build.{build}
use urara_vision.Diff.Types.{removed, DomainDiff}
use urara_vision.Diff.Keys.{index, column_key}
use urara_vision.Diff.Keys.Laws.{index_drops}
use urara_vision.Diff.{compare}
use urara_vision.Diff.Laws.{nothing, compare_self}
use urara_vision.Diff.Laws.Counting.{Tallies, column_entries, compare_counts}
use urara_vision.Diff.Laws.Domains.{DomainEntry, compare_domains_exact}
use urara_vision.Examples.{a_column, a_domain, orders, customers, parsed, the_project, digest}

abbrev old : Model
old = build digest (codes "a") [] [] the_project parsed

abbrev later : Model
later =
    build digest (codes "b") [] [] the_project
      (record parsed { tables = orders ∷ customers ∷ []; domains = a_domain (codes "sales") ∷ [] })

compare_self_example : compare old old ≡ nothing
compare_self_example = compare_self old

compare_counts_example :
    let r = compare old later in
    Tallies (λ d. d.change) r.summary.domains r.domains
    × Tallies (λ d. d.change) r.summary.tables r.tables
    × Tallies (λ d. d.change) r.summary.columns (column_entries r.tables)
    × Tallies (λ d. d.change) r.summary.relationships r.relationships
    × Tallies (λ d. d.change) r.summary.lineage r.lineage
compare_counts_example = compare_counts old later

abbrev lost : DomainDiff
lost = record { id = codes "hr"; change = removed; fields = [] }

compare_domains_exact_example :
    In lost (compare old later).domains ↔ DomainEntry old.domains later.domains lost
unfolding elem build urara_vision.Graph.Build.finish urara_vision.Graph.Build.stages
    urara_vision.Graph.Domains.count_domain_tables urara_vision.Graph.Domains.count_domains
    urara_vision.Base.Text.◌==◌
compare_domains_exact_example =
    compare_domains_exact old later lost (refl, (refl, (refl, tt))) (refl, tt)

index_drops_example :
    length (
      index column_key
        (a_column (codes "id") ∷ a_column (codes "id") ∷ a_column (codes "id#2") ∷ []))
    ≡ 2
index_drops_example =
    index_drops column_key (a_column (codes "id")) (a_column (codes "id")) (a_column (codes "id#2"))
      refl refl
