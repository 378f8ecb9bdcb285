-- ===== src/Examples/Joins.antt =====
-- Join keys, candidates, conformed tables and edges of a small project.
use mathlib.Core.Bool.{xor}
use urara_vision.Base.{◌++◌, ◌≡◌, ◌≢◌, refl, false, some, [], ◌∷◌, In, inl, inr}
use urara_vision.Base.Text.{Text, codes, ◌==◌, ==_iff, elem}
use urara_vision.Base.Maps.{Map, get}
use urara_vision.Model.{Table, Relationship, warning}
use urara_vision.Graph.Orient.{orient_join_key, orient_relationship}
use urara_vision.Graph.Orient.Laws.{orient_join_key_order, orient_relationship_misreports}
use urara_vision.Graph.Resolve.{pick_conformed}
use urara_vision.Graph.Resolve.Pick.{IsAsGood, pick_conformed_best}
use urara_vision.Examples.{orders, customers, more_customers, a_join}

-- What compares unequal differs.
differs : (s t : Text) → (s == t) ≡ false → s ≢ t
differs s t h e = absurd (cc (h, (==_iff s t).1 e))

abbrev key : Text
key = codes "customer_id"

orient_join_key_order_example :
    orient_join_key (codes "name") (codes "order_id") orders customers
    ≡ orient_join_key (codes "order_id") (codes "name") orders customers
unfolding ◌==◌ xor elem
orient_join_key_order_example =
    orient_join_key_order (codes "name") (codes "order_id") orders customers (differs _ _ refl)
      (differs _ _ refl) refl

abbrev misread : Relationship
misread = record (a_join (codes "sales/orders") (codes "customers") (codes "name") []) {
  to_column = codes "nick";
}

orient_relationship_misreports_example :
    (orient_relationship misread orders (some customers)).1
    ≡ record {
      severity = warning;
      code = codes "unmatched_join_key";
      message =
          codes "orders joins customers on \"name\""
          ++ codes ", but neither side names a documented column of either table.";
      domain_id = codes "sales";
      table_id = codes "sales/orders";
      doc_path = orders.doc_path;
    }
      ∷ []
unfolding ◌==◌ elem urara_vision.Base.Print.quote
orient_relationship_misreports_example =
    orient_relationship_misreports misread orders customers (differs _ _ refl) (differs _ _ refl)
      refl refl refl

abbrev two_tables : Map Table
two_tables = (codes "sales/customers", customers) ∷ (codes "finance/customers", more_customers) ∷ []

pick_conformed_best_example :
    In
      (pick_conformed (codes "finance/customers") (codes "sales/customers" ∷ []) two_tables)
      (codes "finance/customers" ∷ codes "sales/customers" ∷ [])
    × ((u : Table) × (get
            (pick_conformed (codes "finance/customers") (codes "sales/customers" ∷ []) two_tables)
            two_tables
          ≡ some u)
        × IsAsGood
            (pick_conformed (codes "finance/customers") (codes "sales/customers" ∷ []) two_tables)
            u
            (codes "sales/customers")
            customers)
unfolding get ◌==◌
pick_conformed_best_example =
    pick_conformed_best two_tables (codes "finance/customers") (codes "sales/customers" ∷ [])
      (codes "sales/customers") customers (inr (inl refl)) refl

abbrev renamed : Table
renamed = record customers { id = codes "finance/customers" }
