-- ===== src/Graph/Registry.antt =====
-- backend/internal/graph/registry.go: the tables by identifier and by name.
-- The pointers of byID are modelled by the tables that they point to: of those the graph builder
-- reads Name, DomainID, DomainLabel, KindRaw, Columns and DocPath only, which nothing writes.
pub mod Laws
use urara_vision.Base.{
  ℕ, suc, ◌+◌, Bool, true, List, [], ◌∷◌, ◌++◌, ◌||◌, ◌&&◌, not, length, keep, leb, ltb,
  if◌then◌else◌,
}
use urara_vision.Base.Text.{Text, codes, ◌==◌, contains, to_lower}
use urara_vision.Base.Maps.{Map, get_or, put}
use urara_vision.Base.Sort.{sort_strings}
use urara_vision.Model.{Table}

pub record Registry : Type 0 where
  pub by_id : Map Table
  pub by_name : Map (List Text)

abbrev pub stamp : Text → Table → Table
stamp snapshot_id t = record t { snapshot_id = snapshot_id }

unfoldable pub stamp_all : Text → List Table → List Table
stamp_all snapshot_id [] = []
stamp_all snapshot_id (t ∷ ts) = stamp snapshot_id t ∷ stamp_all snapshot_id ts

abbrev add_table : Table → Registry → Registry
add_table t reg = record {
  by_id = put t.id t reg.by_id;
  by_name = put t.name (get_or t.name reg.by_name [] ++ t.id ∷ []) reg.by_name;
}

-- The loop over the tables, which are stamped already.
unfoldable pub index_tables : List Table → Registry → Registry
index_tables [] reg = reg
index_tables (t ∷ ts) reg = index_tables ts (add_table t reg)

unfoldable pub sort_names : Map (List Text) → Map (List Text)
sort_names [] = []
sort_names ((n, ids) ∷ m) = (n, sort_strings ids) ∷ sort_names m

-- The stamped tables and their registry.
unfoldable pub new_registry : List Table → Text → List Table × Registry
unfolding index_tables sort_names stamp_all
new_registry tables snapshot_id =
    let stamped = stamp_all snapshot_id tables in
    let reg = index_tables stamped (record { by_id = []; by_name = [] }) in
    (stamped, record reg { by_name = sort_names reg.by_name })

unfoldable pub declares_conformed : Table → Bool
declares_conformed t =
    contains (to_lower (t.domain_label ++ codes " " ++ t.kind_raw)) (codes "conformed")

unfoldable pub is_conformed : Registry → Table → Bool
is_conformed reg t =
    not (ltb (length (get_or t.name reg.by_name [])) 2 && not (declares_conformed t))

abbrev conform : Registry → Table → Table
conform reg t = record t {
  conformed = true;
  conformed_in = t.conformed_in ++ keep (λ id. not (id == t.id)) (get_or t.name reg.by_name []);
}

-- The tables with their flags, and how many were flagged.
unfoldable pub mark_conformed : Registry → List Table → List Table × ℕ
unfolding is_conformed
mark_conformed reg [] = ([], 0)
mark_conformed reg (t ∷ ts) =
    let (rest, n) = mark_conformed reg ts in
    if is_conformed reg t then (conform reg t ∷ rest, suc n) else (t ∷ rest, n)
