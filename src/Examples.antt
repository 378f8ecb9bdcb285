-- ===== src/Examples.antt =====
-- The documents of a small project, and the theorems at work on them.
mod Graphs
mod Joins
mod Prose
mod Diffs
mod Access
mod Chat
mod Parser
mod Turns
mod Waits
mod Tools
mod Answers
use urara_vision.Base.{Bool, true, false, List, [], ◌∷◌}
use urara_vision.Base.Text.{Text, codes}
use urara_vision.Model.{
  Project, Internationalization, ProjectMeta, Domain, Column, ColumnLineage, Relationship, Table,
  unset,
}
use urara_vision.Graph.Build.{Result}

abbrev pub a_column : Text → Column
a_column name = record {
  name = name;
  kind = codes "text";
  description = [];
  ordinal = 0;
  is_pk = false;
  is_fk = false;
}

abbrev pub a_row : Text → Text → ColumnLineage
a_row column source = record {
  column = column;
  source_table = source;
  source_column = codes "id";
  notes = [];
  derived = false;
}

abbrev pub a_join : Text → Text → Text → Text → Relationship
a_join from target column cardinality = record {
  id = [];
  from_table_id = from;
  to_table_id = [];
  target_ref = target;
  from_column = column;
  to_column = column;
  join_key_raw = column;
  cardinality = cardinality;
  resolution = unset;
  candidates = [];
}

abbrev pub a_table :
    Text → Text → Text → Text → List Text → List ColumnLineage → List Relationship → Table
a_table id domain name kind cols rows joins = record {
  id = id;
  snapshot_id = [];
  name = name;
  domain_id = domain;
  kind = kind;
  kind_raw = kind;
  grain = [];
  update_frequency = [];
  layer = [];
  domain_label = [];
  description = [];
  columns = columns_of cols;
  column_lineage = rows;
  relationships = joins;
  notes = [];
  relationship_note = [];
  doc_path = [];
  conformed = false;
  conformed_in = [];
}
  where
    columns_of : List Text → List Column
    columns_of [] = []
    columns_of (c ∷ cs) = a_column c ∷ columns_of cs

abbrev pub orders : Table
orders =
    a_table (codes "sales/orders") (codes "sales") (codes "orders") (codes "fact")
      (codes "order_id" ∷ codes "customer_id" ∷ [])
      (a_row (codes "customer_id") (codes "customers")
        ∷ a_row (codes "order_id") (codes "crm.customers")
        ∷ [])
      (a_join (codes "sales/orders") (codes "customers") (codes "customer_id") (codes "Many-to-one")
        ∷ a_join (codes "sales/orders") (codes "ledger") (codes "order_id") (codes "Many-to-one")
        ∷ a_join (codes "sales/orders") (codes "regions") (codes "region_id") (codes "Many-to-one")
        ∷ a_join (codes "sales/orders") (codes "see the wiki") [] []
        ∷ [])

abbrev pub customers : Table
customers =
    a_table (codes "sales/customers") (codes "sales") (codes "customers") (codes "dimension")
      (codes "customer_id" ∷ codes "name" ∷ []) []
      (a_join (codes "sales/customers") (codes "orders") (codes "customer_id") (codes "One-to-many")
        ∷ [])

abbrev pub ledger : Table
ledger =
    a_table (codes "finance/ledger") (codes "finance") (codes "ledger") (codes "fact")
      (codes "order_id" ∷ codes "amount" ∷ []) [] []

abbrev pub more_customers : Table
more_customers =
    a_table (codes "finance/customers") (codes "finance") (codes "customers") (codes "dimension")
      (codes "customer_id" ∷ []) [] []

abbrev pub documents_read : List Table
documents_read = orders ∷ customers ∷ ledger ∷ more_customers ∷ []

abbrev pub a_domain : Text → Domain
a_domain id = record {
  id = id;
  snapshot_id = [];
  name = id;
  title = id;
  description = [];
  mermaid = [];
  lineage = [];
  doc_path = [];
  table_count = 0;
}

abbrev pub two_languages : Internationalization
two_languages = record { primary = codes "en"; supported = codes "en" ∷ codes "de" ∷ []; kind = [] }

abbrev pub the_project : ProjectMeta
the_project = record {
  project = record { name = codes "shop"; version = []; description = [] };
  internationalization = two_languages;
}

abbrev pub parsed : Result
parsed = record {
  domains = a_domain (codes "sales") ∷ a_domain (codes "finance") ∷ a_domain (codes "hr") ∷ [];
  tables = documents_read;
  diagnostics = [];
  parsed = 4;
  skipped = 1;
}

-- Stands in for the digest.
abbrev pub digest : Text → Text
digest t = t
