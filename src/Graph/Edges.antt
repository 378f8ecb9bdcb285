-- ===== src/Graph/Edges.antt =====
-- backend/internal/graph/edges.go: resolved relationships as deduplicated, directed edges.
pub mod Merging
pub mod Output
pub mod Mirror
use urara_vision.Base.{
  ℕ, Bool, true, false, Option, none, some, List, [], ◌∷◌, ◌++◌, ◌||◌, ◌&&◌, not, if◌then◌else◌,
}
use urara_vision.Base.Text.{Text, codes, ◌==◌, text_lt, elem, has_prefix, to_lower, trim_space}
use urara_vision.Base.Maps.{Map, get, get_or, put}
use urara_vision.Base.Sort.{sort_by, sort_strings}
use urara_vision.Model.{Table, Relationship, Resolution, conformed}
use urara_vision.Graph.Ids.{edge_id}

pub record Edge : Type 0 where
  pub id : Text
  pub from : Text
  pub to : Text
  pub from_column : Text
  pub to_column : Text
  pub cardinality : Text
  pub resolution : Resolution
  pub declared_by : List Text
  pub cross_domain : Bool

unfoldable pub is_one_to_many : Text → Bool
is_one_to_many c =
    let l = to_lower (trim_space c) in
    has_prefix l (codes "one-to-many")
    || has_prefix l (codes "one to many")
    || has_prefix l (codes "1:n")

-- The ends, columns and cardinality of a relationship, pointed from the many side to the one.
pub record Ends : Type 0 where
  pub from : Text
  pub to : Text
  pub from_column : Text
  pub to_column : Text
  pub cardinality : Text

unfoldable pub many_to_one : Text
many_to_one = codes "Many-to-one"

unfoldable pub normalise : Relationship → Ends
normalise r =
    if is_one_to_many r.cardinality
    then record {
      from = r.to_table_id;
      to = r.from_table_id;
      from_column = r.to_column;
      to_column = r.from_column;
      cardinality = many_to_one;
    }
    else record {
      from = r.from_table_id;
      to = r.to_table_id;
      from_column = r.from_column;
      to_column = r.to_column;
      cardinality = r.cardinality;
    }

-- from + "\x00" + to + "\x00" + fromCol + "\x00" + toCol
unfoldable pub key_of : Text → Text → Text → Text → Text
key_of from to from_col to_col = from ++ 0 ∷ to ++ 0 ∷ from_col ++ 0 ∷ to_col

abbrev pub ends_key : Ends → Text
ends_key n = key_of n.from n.to n.from_column n.to_column

abbrev pub edge_key : Edge → Text
edge_key e = key_of e.from e.to e.from_column e.to_column

-- The two variables of the loop.
pub record Merged : Type 0 where
  pub merged : Map Edge
  pub order : List Text

unfoldable pub domains_of : List Table → Map Text → Map Text
domains_of [] m = m
domains_of (t ∷ ts) m = domains_of ts (put t.id t.domain_id m)

-- What a further declaration of an edge by the table `id` changes.
unfoldable pub declare : Relationship → Text → Edge → Edge
declare r id e = record e {
  resolution = elim r.resolution [ conformed ↦ conformed | _ ↦ e.resolution ];
  declared_by = if elem id e.declared_by then e.declared_by else e.declared_by ++ id ∷ [];
}

module _ (sha1 : Text → List ℕ) (domain_of : Map Text) where
  unfoldable pub new_edge : Relationship → Ends → Edge
  new_edge r n = record {
    id = edge_id sha1 n.from n.to n.from_column n.to_column 0;
    from = n.from;
    to = n.to;
    from_column = n.from_column;
    to_column = n.to_column;
    cardinality = n.cardinality;
    resolution = r.resolution;
    declared_by = [];
    cross_domain = not (get_or n.from domain_of [] == get_or n.to domain_of []);
  }

  unfoldable pub merge_at : Relationship → Text → Text → Ends → Merged → Option Edge → Merged
  merge_at r id key n st (some e) = record st { merged = put key (declare r id e) st.merged }
  merge_at r id key n st none = record {
    merged = put key (declare r id (new_edge r n)) st.merged;
    order = st.order ++ key ∷ [];
  }

  -- One round of the inner loop: `r` is declared by the table `id`.
  unfoldable pub merge_edge : Text → Relationship → Merged → Merged
  unfolding merge_at
  merge_edge id r st =
      if r.to_table_id == []
      then st
      else let n = normalise r in merge_at r id (ends_key n) n st (get (ends_key n) st.merged)

  unfoldable pub merge_all : Text → List Relationship → Merged → Merged
  merge_all id [] st = st
  merge_all id (r ∷ rs) st = merge_all id rs (merge_edge id r st)

  unfoldable pub merge_tables : List Table → Merged → Merged
  merge_tables [] st = st
  merge_tables (t ∷ ts) st = merge_tables ts (merge_all t.id t.relationships st)

-- The "less" of the final sort.
unfoldable pub edge_less : Edge → Edge → Bool
edge_less a b =
    if not (a.from == b.from)
    then text_lt a.from b.from
    else if not (a.to == b.to)
    then text_lt a.to b.to
    else text_lt a.from_column b.from_column

abbrev sort_declared : Edge → Edge
sort_declared e = record e { declared_by = sort_strings e.declared_by }

abbrev pub output_edge : Option Edge → List Edge → List Edge
output_edge (some e) es = sort_declared e ∷ es
output_edge none es = es

-- The edges in the order of their keys. Every key is in the map (Merging): a missing one, which the
-- code would dereference as nil, adds nothing here.
unfoldable pub collect : List Text → Map Edge → List Edge
collect [] m = []
collect (k ∷ ks) m = output_edge (get k m) (collect ks m)

-- Edges that agree in both ends and the first column are ordered as sort.Slice leaves them; here
-- they keep their order.
unfoldable pub edges : (Text → List ℕ) → List Table → List Edge
edges sha1 ts =
    let st = merge_tables sha1 (domains_of ts []) ts (record { merged = []; order = [] }) in
    sort_by edge_less (collect st.order st.merged)
