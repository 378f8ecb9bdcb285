-- ===== src/Chat/Tools/Results.antt =====
-- backend/internal/chat/tools/shrink.go: what the model reads of the tables, graphs and paths that
-- the backend answers.
pub mod Closed
use urara_vision.Base.{
  ℕ, Bool, true, false, Option, none, some, List, [], ◌∷◌, ◌++◌, ◌&&◌, map, take, length, keep,
  is_empty, if◌then◌else◌,
}
use urara_vision.Base.Text.{Text, codes, ◌==◌, elem}
use urara_vision.Base.Json.{
  Value, null, bool, num, str, arr, obj, Items, no_items, item, Members, no_members, member,
  items_of, set_member, delete_member, members_of, find, number,
}
use urara_vision.Chat.Tools.Shrink.{
  capped, prune, prune_members, strs, truncate_runes, max_items, max_column_description_runes,
}
use urara_vision.Chat.Tools.Backend.{
  Outcome, came, went_wrong, Node, Link, Graph, PathHop, JoinPath, LineageEntry, TableDetail,
  TablesDetail,
}

-- The description of a column, which counts as empty unless it is a text, is cut.
unfoldable pub text_of : Option Value → Text
text_of (some (str s)) = s
text_of v = []

unfoldable pub cut_column : Value → Value
unfolding text_of
cut_column (obj ms) = obj (
    set_member (codes "description")
      (str (truncate_runes (text_of (find (codes "description") ms)) max_column_description_runes))
      ms)
cut_column v = v

unfoldable pub cut_columns : Items → Items
unfolding cut_column
cut_columns no_items = no_items
cut_columns (item v vs) = item (cut_column v) (cut_columns vs)

unfoldable pub with_columns : Option Value → Members → Members
unfolding cut_columns
with_columns (some (arr cols)) ms = set_member (codes "columns") (arr (cut_columns cols)) ms
with_columns v ms = ms

-- The table without the members that only drawing needs.
unfoldable pub shrink_table_map : Members → Members
unfolding with_columns
shrink_table_map ms =
    let kept = delete_member (codes "snapshotId") (delete_member (codes "docPath") ms) in
    with_columns (find (codes "columns") kept) kept

-- The maps of the referrers, unless one fails.
unfoldable pub incoming_maps : List (Outcome Members) → Outcome (List Value)
incoming_maps [] = came []
incoming_maps (went_wrong e ∷ rs) = went_wrong e
incoming_maps (came m ∷ rs) = elim (incoming_maps rs) [
  | went_wrong e ↦ went_wrong e
  | came vs ↦ came (obj (delete_member (codes "docPath") m) ∷ vs)
]

abbrev entry_id : LineageEntry → Text
entry_id e = e.id

-- entryIDs
unfoldable pub entry_ids : List LineageEntry → Value
entry_ids es = strs (map entry_id es)

-- A member that is left out of a map when its list is empty.
abbrev pub unless_empty : {A : Type 0} → Text → List A → Value → Members → Members
unless_empty k xs v ms = if is_empty xs then ms else set_member k v ms

abbrev Detail : Type 0
Detail = TableDetail (Outcome Members) (Outcome Members)

unfoldable pub shrink_maps : Detail → Outcome Members → Outcome (List Value) → Outcome Value
unfolding shrink_table_map entry_ids
shrink_maps d (went_wrong e) incoming = went_wrong e
shrink_maps d (came table) (went_wrong e) = went_wrong e
shrink_maps d (came table) (came incoming) = came (
    prune (
      obj (
        unless_empty (codes "siblings") d.siblings (entry_ids d.siblings) (
          unless_empty (codes "upstream") d.upstream (entry_ids d.upstream) (
            unless_empty (codes "incoming") d.incoming (arr (items_of incoming))
              (member (codes "table") (obj (shrink_table_map table)) no_members))))))

-- shrinkTable
unfoldable pub shrink_table : Detail → Outcome Value
unfolding shrink_maps incoming_maps
shrink_table d = shrink_maps d d.table (incoming_maps d.incoming)

unfoldable pub node_value : Node → Value
node_value n = prune (
    obj (
      members_of (
        (codes "id", str n.id)
        ∷ (codes "label", str n.label)
        ∷ (codes "kind", str n.table_kind)
        ∷ (codes "domainId", str n.domain_id)
        ∷ (codes "type", str n.kind)
        ∷ [])))

unfoldable pub link_value : Link → Value
link_value l = prune (
    obj (
      members_of (
        (codes "source", str l.source)
        ∷ (codes "target", str l.target)
        ∷ (codes "type", str l.kind)
        ∷ (codes "fromColumn", str l.from_column)
        ∷ (codes "toColumn", str l.to_column)
        ∷ (codes "cardinality", str l.cardinality)
        ∷ [])))

abbrev pub node_id : Node → Text
node_id n = n.id

-- The links between nodes that are kept.
unfoldable pub kept_links : List Text → List Link → List Link
kept_links kept ls = keep (λ (l : Link). elem l.source kept && elem l.target kept) ls

-- shrinkGraph
unfoldable pub shrink_graph : Graph → Members
unfolding node_value link_value kept_links
shrink_graph g =
    let kept = take max_items (map node_id g.nodes) in
    set_member (codes "links")
      (arr (items_of (take max_items (map link_value (kept_links kept g.links)))))
      (capped (map node_value g.nodes))

unfoldable pub hop_value : PathHop → Value
hop_value h = obj (
    members_of (
      (codes "from", str h.from_table)
      ∷ (codes "to", str h.to_table)
      ∷ (codes "fromColumn", str h.from_column)
      ∷ (codes "toColumn", str h.to_column)
      ∷ (codes "cardinality", str h.cardinality)
      ∷ []))

-- shrinkPath
unfoldable pub shrink_path : JoinPath → Value
unfolding hop_value
shrink_path p = obj (
    members_of (
      (codes "length", number p.hops_count)
      ∷ (codes "tables", strs p.tables)
      ∷ (codes "hops", arr (items_of (map hop_value p.hops)))
      ∷ []))

unfoldable pub shrink_tables : List Detail → Outcome (List Value)
unfolding shrink_table
shrink_tables [] = came []
shrink_tables (d ∷ ds) = elim (shrink_table d) [
  | went_wrong e ↦ went_wrong e
  | came v ↦ elim (shrink_tables ds) [ went_wrong e ↦ went_wrong e | came vs ↦ came (v ∷ vs) ]
]

-- shrinkBatch
unfoldable pub shrink_batch : TablesDetail (Outcome Members) (Outcome Members) → Outcome Members
unfolding shrink_tables
shrink_batch b = elim (shrink_tables b.tables) [
  | went_wrong e ↦ went_wrong e
  | came tables ↦ came (set_member (codes "missing") (strs b.missing) (capped tables))
]
