-- ===== src/Examples/Graphs.antt =====
-- The graph builder on the documents of a small project.
use urara_vision.Base.{◌+◌, ◌≡◌, refl, List, [], ◌∷◌, ◌++◌, any, count}
use urara_vision.Base.Text.{Text, codes, ◌==◌, to_lower, trim_space, has_prefix}
use urara_vision.Model.{Table}
use urara_vision.Graph.Registry.{Registry, new_registry}
use urara_vision.Graph.Registry.Laws.{ids}
use urara_vision.Graph.Resolve.Bound.{AllRelationships}
use urara_vision.Graph.Resolve.Reports.{is_error, declared}
use urara_vision.Graph.Resolve.Unresolved.{expected_in}
use urara_vision.Graph.Sources.Refs.{total_refs, documented_columns}
use urara_vision.Graph.Edges.{edges}
use urara_vision.Graph.Edges.Output.{runs, edges_once}
use urara_vision.Graph.Build.{build}
use urara_vision.Graph.Build.Laws.{OutcomeIn, build_bound, build_stats, build_errors}
use urara_vision.Examples.{documents_read, a_join, orders, customers, parsed, the_project, digest}

abbrev sid : Text
sid = codes "snap"

abbrev the_registry : Registry
the_registry = (new_registry documents_read sid).1

build_bound_example :
    (ids (build digest sid [] [] the_project parsed).tables ≡ ids documents_read)
    × AllRelationships
        (λ t r.
          OutcomeIn (build digest sid [] [] the_project parsed).tables documents_read t.domain_id r)
        (build digest sid [] [] the_project parsed).tables
build_bound_example =
    build_bound digest sid [] [] the_project parsed
      ((refl, (refl, (refl, (refl, tt)))), ((refl, tt), (tt, (tt, tt))))

build_stats_example :
    let m = build digest sid [] [] the_project parsed in
    (m.snapshot.stats.relationships ≡ declared m.tables)
    × (m.snapshot.stats.columns ≡ documented_columns m.tables)
    × (m.snapshot.stats.conformed ≡ count (λ t. t.conformed) m.tables)
    × (m.snapshot.stats.lineage_edges ≡ total_refs m.source_tables)
build_stats_example =
    build_stats digest sid [] [] the_project parsed (refl, (refl, (refl, (refl, tt))))

build_errors_example :
    let m = build digest sid [] [] the_project parsed in
    count is_error m.diagnostics
    ≡ count is_error parsed.diagnostics + count is_error (expected_in m.tables)
build_errors_example = build_errors digest sid [] [] the_project parsed is_error (λ d e. e)

-- The ends of the edge from the orders to the customers.
abbrev to_customers : Text
to_customers =
    codes "sales/orders"
    ++ 0 ∷ codes "sales/customers"
    ++ 0 ∷ codes "customer_id"
    ++ 0 ∷ codes "customer_id"

-- Both sides state the join.
abbrev bound_tables : List Table
bound_tables =
    record orders {
      relationships =
          record (a_join (codes "sales/orders") (codes "customers") (codes "customer_id")
            (codes "Many-to-one")) { to_table_id = codes "sales/customers" }
          ∷ [];
    }
    ∷ record customers {
      relationships =
          record (a_join (codes "sales/customers") (codes "orders") (codes "customer_id")
            (codes " One-to-many")) { to_table_id = codes "sales/orders" }
          ∷ [];
    }
    ∷ []

edges_once_example : count (runs to_customers) (edges digest bound_tables) ≡ 1
unfolding any ◌==◌ to_lower trim_space has_prefix
edges_once_example = edges_once digest bound_tables to_customers
