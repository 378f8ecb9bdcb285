-- ===== src/Graph/Edges/Mirror.antt =====
-- backend/internal/graph/edges.go: a join declared from both sides.
use urara_vision.Base.{ℕ, ◌≡◌, ◌∙◌, Bool, true, false, ◌||◌, List, [], arith, ◌≢◌}
use urara_vision.Base.Text.{Text, ==_iff}
use urara_vision.Base.Maps.{Map}
use urara_vision.Model.{Relationship}
use urara_vision.Graph.Edges.{ends_key, normalise, is_one_to_many, merge_edge, Merged}
use urara_vision.Graph.Edges.Merging.{
  IsMerged, draws, order-merge_edge, order-merge_edge_known, merge_edge-IsMerged,
}

-- `s` states the join of `r` from the other side: the ends and the columns are exchanged.
pub record IsMirror (r s : Relationship) : Type 0 where
  pub ends_from : s.from_table_id ≡ r.to_table_id
  pub ends_to : s.to_table_id ≡ r.from_table_id
  pub columns_from : s.from_column ≡ r.to_column
  pub columns_to : s.to_column ≡ r.from_column

-- A join that one side writes as one-to-many and the other not is drawn under one key.
same_ends :
    (r s : Relationship)
    → IsMirror r s
    → is_one_to_many r.cardinality ≡ false
    → is_one_to_many s.cardinality ≡ true
    → ends_key (normalise r) ≡ ends_key (normalise s)
unfolding normalise
same_ends r s m p q = ground arith

drawn_by :
    (r s : Relationship) (b : Bool)
    → IsMirror r s
    → is_one_to_many r.cardinality ≡ false
    → is_one_to_many s.cardinality ≡ true
    → r.to_table_id ≢ []
    → (draws (ends_key (normalise s)) r || b) ≡ true
drawn_by r s b m p q n = ground (
  arith,
  same_ends r s m p q,
  ==_iff (ends_key (normalise r)) (ends_key (normalise s)),
  ==_iff r.to_table_id [],
)

module _ (sha1 : Text → List ℕ) (domain_of : Map Text) where
  -- A join declared from its many side and then, one-to-many, from its other side adds one edge: the
  -- second declaration adds none.
  pub merge_edge_mirror :
      (id id' : Text) (r s : Relationship) (st : Merged)
      → IsMerged st
      → IsMirror r s
      → is_one_to_many r.cardinality ≡ false
      → is_one_to_many s.cardinality ≡ true
      → r.to_table_id ≢ []
      → (merge_edge sha1 domain_of id' s (merge_edge sha1 domain_of id r st)).order
        ≡ (merge_edge sha1 domain_of id r st).order
  merge_edge_mirror id id' r s st h m p q n =
      order-merge_edge_known sha1 domain_of id' s (merge_edge sha1 domain_of id r st)
        (merge_edge-IsMerged sha1 domain_of id r st h)
        (order-merge_edge sha1 domain_of id r st h (ends_key (normalise s))
          ∙ drawn_by r s _ m p q n)
