-- ===== src/Examples/Tools.antt =====
-- The theorems on the tools of the chat agent, at a search.
use urara_vision.Base.{
  ℕ, ◌≤◌, ◌≡◌, ◌⊎◌, ◌↔◌, inl, inr, refl, Bool, true, false, Option, none, some, List, [], ◌∷◌,
  arith, All, map, take, length,
}
use urara_vision.Base.Text.{Text, codes, trim_space}
use urara_vision.Base.Maps.{get}
use urara_vision.Base.Json.{
  Value, null, bool, num, str, arr, obj, no_items, item, Members, no_members, member, find,
  items_of, number, ℤ,
}
use urara_vision.Chat.Tools.Shrink.{max_items, prune}
use urara_vision.Chat.Tools.Shrink.Pruning.{Pruned, prune_lem}
use urara_vision.Chat.Tools.Backend.{
  Failure, backend_error, other_failure, Outcome, came, went_wrong, Node, Link, Graph, Backend,
}
use urara_vision.Chat.Tools.Results.{node_value, link_value, node_id, shrink_graph}
use urara_vision.Chat.Tools.Results.Closed.{Joins, shrink_graph_lem}
use urara_vision.Chat.Tools.Fields.{Field, all_fields}
use urara_vision.Chat.Tools.Validate.{fine, validate}
use urara_vision.Chat.Tools.Validate.Accepts.{IsAccepted}
use urara_vision.Chat.Tools.Validate.Exact.{arguments, validate_lem}
use urara_vision.Chat.Tools.Guard.{guarded}
use urara_vision.Chat.Tools.Guard.Advises.{IsFinal, guarded_lem}
use urara_vision.Chat.Tools.Runs.{
  text_arg, texts_arg, search_args, neighbourhood_args, join_paths_args, lineage_args, list_tables,
  on_object,
}
use urara_vision.Chat.Tools.Runs.Decodes.{Decoded, Between, Anything, IsFew}
use urara_vision.Chat.Tools.Runs.Accepted.{Reads, validate-decode}
use urara_vision.Chat.Tools.Runs.Blanks.{blank_args_fail}

abbrev sparse : Value
sparse =
    obj (member (codes "a") null (member (codes "b") (arr (item (str []) no_items)) no_members))

prune_lem_example :
    Pruned (prune sparse)
    × (Pruned sparse → prune sparse ≡ sparse)
    × (prune (prune sparse) ≡ prune sparse)
prune_lem_example = prune_lem sparse

abbrev a_node : Text → Node
a_node i = record {
  id = i;
  label = i;
  kind = codes "table";
  domain_id = codes "d";
  table_kind = codes "fact";
}

abbrev a_link : Text → Text → Link
a_link s t = record {
  source = s;
  target = t;
  kind = codes "joins";
  from_column = codes "id";
  to_column = codes "id";
  cardinality = [];
}

abbrev small : Graph
small = record {
  nodes = a_node (codes "d/a") ∷ a_node (codes "d/b") ∷ [];
  links = a_link (codes "d/a") (codes "d/b") ∷ a_link (codes "d/a") (codes "d/c") ∷ [];
}

shrink_graph_lem_example :
    let shown = take max_items small.nodes in
    (links : List Link) × (find (codes "items") (shrink_graph small)
      ≡ some (arr (items_of (map node_value shown))))
    × (find (codes "links") (shrink_graph small) ≡ some (arr (items_of (map link_value links))))
    × (find (codes "total") (shrink_graph small) ≡ some (number (length small.nodes)))
    × (length shown ≤ max_items)
    × (length links ≤ max_items)
    × All (Joins (map node_id shown)) links
shrink_graph_lem_example = shrink_graph_lem small

abbrev searching : Members
searching =
    member (codes "limit") (num (codes "5"))
      (member (codes "query") (str (codes "refund")) no_members)

abbrev reads : Text → Option Value
reads s = some (obj searching)

abbrev reads_none : Text → Option Value
reads_none s = none

abbrev never : Text → Bool
never t = false

abbrev same : Text → Text
same t = t

validate_lem_example : (validate never same reads (codes "search_model") (codes "{}") ≡ fine) ↔ (
    (spec : List Field) × (ms : Members) × (get (codes "search_model") all_fields ≡ some spec)
    × (arguments reads (codes "{}") ≡ some ms)
    × IsAccepted spec ms)
validate_lem_example = validate_lem never same reads (codes "search_model") (codes "{}")

abbrev forbidden : Failure
forbidden =
    backend_error (record { status = 403; message = []; unreachable = false; timed_out = false })

abbrev refuses : Text → Outcome Value
refuses args = went_wrong forbidden

guarded_lem_example :
    (validate never same reads (codes "search_model") (codes "{}") ≡ fine)
    × (◌≡◌ {A = Outcome Value} (went_wrong forbidden) (went_wrong forbidden))
    × (◌≡◌ {A = Bool} false true ⊎ IsFinal forbidden)
unfolding guarded validate get urara_vision.Base.Text.◌==◌ urara_vision.Base.Text.trim_space find
    urara_vision.Chat.Tools.Checks.check urara_vision.Base.Json.int_of
    urara_vision.Base.Json.int_below urara_vision.Base.Json.int_above
    urara_vision.Base.Sort.sort_strings urara_vision.Base.keep urara_vision.Base.Json.member_keys
    urara_vision.Base.Text.elem
guarded_lem_example =
    guarded_lem never same reads (codes "search_model") refuses false (codes "{}") forbidden refl

validate-decode_example :
    Reads never same reads
      (codes "search_model")
      (codes "{}")
      (λ ms. Decoded (search_args ms) (λ (q, n). Between 1 50 n))
    × Reads never same reads
        (codes "get_neighbourhood")
        (codes "{}")
        (λ ms. Decoded (neighbourhood_args ms) (λ (id, n). Between 1 3 n))
    × Reads never same reads
        (codes "find_join_paths")
        (codes "{}")
        (λ ms. Decoded (join_paths_args ms) (λ (x, y, n). Between 1 6 n))
    × Reads never same reads
        (codes "get_tables")
        (codes "{}")
        (λ ms. Decoded (texts_arg (find (codes "ids") ms)) IsFew)
    × Reads never same reads
        (codes "get_lineage")
        (codes "{}")
        (λ ms. Decoded (lineage_args ms) Anything)
    × Reads never same reads
        (codes "list_tables")
        (codes "{}")
        (λ ms. Decoded (text_arg [] (find (codes "domain") ms)) Anything)
    × Reads never same reads
        (codes "list_diagnostics")
        (codes "{}")
        (λ ms. Decoded (text_arg [] (find (codes "severity") ms)) Anything)
unfolding trim_space
validate-decode_example = validate-decode never same reads (codes "{}") refl

abbrev empty_backend : Backend
empty_backend = record {
  domains = came [];
  tables = λ d. came [];
  tables_detail = λ ids. came (record { tables = []; missing = [] });
  search = λ q n. came [];
  neighbourhood = λ i n. came (record { nodes = []; links = [] });
  join_paths = λ x y n k. came [];
  lineage = λ i d. came [];
  diagnostics = λ s. came [];
  sources = came [];
}

blank_args_fail_example :
    (validate never same reads_none (codes "list_tables") (codes " ") ≡ fine)
    × ((e : Text) × (guarded never same reads_none
            (codes "list_tables")
            (on_object empty_backend reads_none (list_tables empty_backend))
            false
            (codes " ")
          ≡ went_wrong (other_failure e)))
unfolding urara_vision.Base.Text.trim_space
blank_args_fail_example =
    blank_args_fail never same reads_none empty_backend (codes " ") refl refl refl
