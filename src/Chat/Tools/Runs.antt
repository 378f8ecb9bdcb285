-- ===== src/Chat/Tools/Runs.antt =====
-- backend/internal/chat/tools/tools.go: what each tool asks the backend, and what it makes of the
-- answer. `unmarshal` stands for json.Unmarshal into a value; the names of arguments are matched as
-- they are written. Descriptions and schemas are left out.
pub mod Decodes
pub mod Accepted
pub mod Blanks
use urara_vision.Base.{
  ℕ, Bool, true, false, Option, none, some, List, [], ◌∷◌, ◌++◌, map, is_empty, if◌then◌else◌,
}
use urara_vision.Base.Text.{Text, codes}
use urara_vision.Base.Maps.{Map}
use urara_vision.Base.Json.{
  Value, null, bool, num, str, arr, obj, Items, no_items, item, Members, no_members, find,
  set_member, members_of, number, ℤ, pos, int_of,
}
use urara_vision.Model.{Domain, Diagnostic, SourceTable, Severity, error, warning, info}
use urara_vision.Chat.Tools.Shrink.{capped, prune, strs}
use urara_vision.Chat.Tools.Backend.{
  Failure, other_failure, Outcome, came, went_wrong, TableSummary, SearchHit, LineageEntry, Backend,
}
use urara_vision.Chat.Tools.Results.{shrink_graph, shrink_path, shrink_batch}

unfoldable pub and_then : {A B : Type 0} → Outcome A → (A → Outcome B) → Outcome B
and_then (came a) f = f a
and_then (went_wrong e) f = went_wrong e

abbrev mismatch : {A : Type 0} → Outcome A
mismatch = went_wrong (other_failure (codes "json: cannot unmarshal"))

-- decode, as far as the object goes: no arguments are the empty one.
unfoldable pub decode_value : Option Value → Outcome Members
decode_value none = went_wrong (other_failure (codes "invalid JSON"))
decode_value (some (obj ms)) = came ms
decode_value (some null) = came no_members
decode_value (some v) = mismatch

unfoldable pub decode : (Text → Option Value) → Text → Outcome Members
unfolding decode_value
decode unmarshal args = if is_empty args then came no_members else decode_value (unmarshal args)

-- A member that is read into a string, an int or a list of strings, over its default.
unfoldable pub text_arg : Text → Option Value → Outcome Text
text_arg d none = came d
text_arg d (some null) = came d
text_arg d (some (str s)) = came s
text_arg d (some v) = mismatch

unfoldable pub or_mismatch : Option ℤ → Outcome ℤ
or_mismatch none = mismatch
or_mismatch (some n) = came n

unfoldable pub int_arg : ℕ → Option Value → Outcome ℤ
unfolding or_mismatch
int_arg d none = came (pos d)
int_arg d (some null) = came (pos d)
int_arg d (some (num t)) = or_mismatch (int_of t)
int_arg d (some v) = mismatch

unfoldable pub texts_in : Items → Outcome (List Text)
unfolding and_then text_arg
texts_in no_items = came []
texts_in (item v vs) =
    and_then (text_arg [] (some v)) λ s. and_then (texts_in vs) λ ss. came (s ∷ ss)

unfoldable pub texts_arg : Option Value → Outcome (List Text)
unfolding texts_in
texts_arg none = came []
texts_arg (some null) = came []
texts_arg (some (arr vs)) = texts_in vs
texts_arg (some v) = mismatch

-- The arguments of the tools that have more than one.
unfoldable pub search_args : Members → Outcome (Text × ℤ)
unfolding and_then text_arg int_arg
search_args ms =
    and_then (text_arg [] (find (codes "query") ms))
      λ q. and_then (int_arg 20 (find (codes "limit") ms)) λ n. came (q, n)

unfoldable pub neighbourhood_args : Members → Outcome (Text × ℤ)
unfolding and_then text_arg int_arg
neighbourhood_args ms =
    and_then (text_arg [] (find (codes "table_id") ms))
      λ id. and_then (int_arg 1 (find (codes "depth") ms)) λ n. came (id, n)

unfoldable pub join_paths_args : Members → Outcome (Text × Text × ℤ)
unfolding and_then text_arg int_arg
join_paths_args ms = and_then (text_arg [] (find (codes "from_table") ms)) λ a.
    and_then (text_arg [] (find (codes "to_table") ms))
      λ b. and_then (int_arg 4 (find (codes "max_depth") ms)) λ n. came (a, b, n)

unfoldable pub lineage_args : Members → Outcome (Text × Text)
unfolding and_then text_arg
lineage_args ms =
    and_then (text_arg [] (find (codes "table_id") ms))
      λ id. and_then (text_arg (codes "upstream") (find (codes "direction") ms)) λ d. came (id, d)

abbrev domain_value : Domain → Value
domain_value d = obj (
    members_of (
      (codes "id", str d.id)
      ∷ (codes "title", str d.title)
      ∷ (codes "description", str d.description)
      ∷ (codes "tableCount", number d.table_count)
      ∷ []))

abbrev summary_value : TableSummary → Value
summary_value t = prune (
    obj (
      members_of (
        (codes "id", str t.id)
        ∷ (codes "name", str t.name)
        ∷ (codes "domainId", str t.domain_id)
        ∷ (codes "kind", str t.kind)
        ∷ (codes "grain", str t.grain)
        ∷ (codes "columnCount", number t.column_count)
        ∷ (codes "conformed", bool t.conformed)
        ∷ [])))

abbrev hit_value : SearchHit → Value
hit_value h = prune (
    obj (
      members_of (
        (codes "tableId", str h.table_id)
        ∷ (codes "name", str h.name)
        ∷ (codes "domainId", str h.domain_id)
        ∷ (codes "kind", str h.kind)
        ∷ (codes "grain", str h.grain)
        ∷ (codes "matchedOn", strs h.matched_on)
        ∷ [])))

abbrev entry_value : LineageEntry → Value
entry_value e = prune (
    obj (
      members_of (
        (codes "id", str e.id)
        ∷ (codes "label", str e.label)
        ∷ (codes "dataset", str e.dataset)
        ∷ (codes "domainId", str e.domain_id)
        ∷ (codes "columns", strs e.columns)
        ∷ [])))

unfoldable pub severity_text : Severity → Text
severity_text error = codes "error"
severity_text warning = codes "warning"
severity_text info = codes "info"

abbrev diagnostic_value : Diagnostic → Value
diagnostic_value d = prune (
    obj (
      members_of (
        (codes "severity", str (severity_text d.severity))
        ∷ (codes "code", str d.code)
        ∷ (codes "message", str d.message)
        ∷ (codes "domainId", str d.domain_id)
        ∷ (codes "tableId", str d.table_id)
        ∷ [])))

abbrev source_value : SourceTable → Value
source_value s = obj (
    members_of (
      (codes "id", str s.id)
      ∷ (codes "dataset", str s.dataset)
      ∷ (codes "name", str s.name)
      ∷ (codes "refs", number s.refs)
      ∷ []))

abbrev as_list : {A : Type 0} → (A → Value) → List A → Outcome Value
as_list f xs = came (obj (capped (map f xs)))

abbrev join_path_limit : ℕ
join_path_limit = 10

module _ (b : Backend) where
  unfoldable pub list_domains : Outcome Value
  unfolding and_then
  list_domains = and_then b.domains (as_list domain_value)

  unfoldable pub list_tables : Members → Outcome Value
  unfolding and_then text_arg severity_text
  list_tables ms =
      and_then (text_arg [] (find (codes "domain") ms))
        λ d. and_then (b.tables d) (as_list summary_value)

  unfoldable pub get_tables : Members → Outcome Value
  unfolding and_then texts_arg shrink_batch
  get_tables ms =
      and_then (texts_arg (find (codes "ids") ms)) λ ids.
        and_then (b.tables_detail ids) λ batch. and_then (shrink_batch batch) λ m. came (obj m)

  unfoldable pub search_model : Members → Outcome Value
  unfolding and_then search_args
  search_model ms = and_then (search_args ms) λ (q, n). and_then (b.search q n) (as_list hit_value)

  unfoldable pub get_neighbourhood : Members → Outcome Value
  unfolding and_then neighbourhood_args shrink_graph
  get_neighbourhood ms =
      and_then (neighbourhood_args ms)
        λ (id, n). and_then (b.neighbourhood id n) λ g. came (obj (shrink_graph g))

  unfoldable pub find_join_paths : Members → Outcome Value
  unfolding and_then join_paths_args shrink_path
  find_join_paths ms =
      and_then (join_paths_args ms)
        λ (x, y, n). and_then (b.join_paths x y n join_path_limit) (as_list shrink_path)

  -- The result names the direction and the table that were asked for.
  abbrev lineage_result : Text → Text → List LineageEntry → Outcome Value
  lineage_result id d es = came (
      obj (
        set_member (codes "tableId") (str id)
          (set_member (codes "direction") (str d) (capped (map entry_value es)))))

  unfoldable pub get_lineage : Members → Outcome Value
  unfolding and_then lineage_args
  get_lineage ms =
      and_then (lineage_args ms) λ (id, d). and_then (b.lineage id d) (lineage_result id d)

  unfoldable pub list_diagnostics : Members → Outcome Value
  unfolding and_then text_arg severity_text
  list_diagnostics ms =
      and_then (text_arg [] (find (codes "severity") ms))
        λ s. and_then (b.diagnostics s) (as_list diagnostic_value)

  unfoldable pub list_source_models : Outcome Value
  unfolding and_then
  list_source_models = and_then b.sources (as_list source_value)

  abbrev pub on_object : (Text → Option Value) → (Members → Outcome Value) → Text → Outcome Value
  on_object unmarshal f args = and_then (decode unmarshal args) f

  -- Build
  unfoldable pub build_tools : (Text → Option Value) → Map (Text → Outcome Value)
  unfolding list_domains list_tables get_tables search_model get_neighbourhood find_join_paths
      get_lineage list_diagnostics list_source_models decode
  build_tools um =
      (codes "list_domains", λ args. list_domains)
      ∷ (codes "list_tables", on_object um list_tables)
      ∷ (codes "get_tables", on_object um get_tables)
      ∷ (codes "search_model", on_object um search_model)
      ∷ (codes "get_neighbourhood", on_object um get_neighbourhood)
      ∷ (codes "find_join_paths", on_object um find_join_paths)
      ∷ (codes "get_lineage", on_object um get_lineage)
      ∷ (codes "list_diagnostics", on_object um list_diagnostics)
      ∷ (codes "list_source_models", λ args. list_source_models)
      ∷ []
