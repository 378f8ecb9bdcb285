-- ===== src/Graph/Orient.antt =====
-- backend/internal/graph/orient.go: which side of a join key belongs to which table.
pub mod Laws
use urara_vision.Base.{
  ℕ, Bool, true, false, Option, none, some, List, [], ◌∷◌, ◌++◌, ◌||◌, ◌&&◌, not, if◌then◌else◌,
}
use urara_vision.Base.Text.{Text, codes, ◌==◌}
use urara_vision.Base.Maps.{Map, get_or, put}
use urara_vision.Base.Print.{quote}
use urara_vision.Model.{Column, Table, Relationship, Severity, warning, Diagnostic}

-- columnSet of drift.go, the set of a table's column names
unfoldable pub add_columns : List Column → Map Bool → Map Bool
add_columns [] s = s
add_columns (c ∷ cs) s = add_columns cs (put c.name true s)

unfoldable pub column_set : Table → Map Bool
unfolding add_columns
column_set t = add_columns t.columns []

abbrev pub has : Text → Map Bool → Bool
has c s = get_or c s false

-- The `switch`, on which table has which side.
unfoldable pub orient_by :
    Text → Text → (left_owner right_other left_other right_owner : Bool) → Text × Text × Bool
orient_by left right left_owner right_other left_other right_owner =
    if left_owner && right_other && not (left_other && right_owner)
    then (left, right, true)
    else if left_other && right_owner && not (left_owner && right_other)
    then (right, left, true)
    else if left_owner && right_other
    then (left, right, true)
    else if left_owner
    then (left, right, true)
    else if right_owner
    then (right, left, true)
    else (left, right, false)

unfoldable pub orient_join_key : Text → Text → Table → Table → Text × Text × Bool
unfolding orient_by
orient_join_key left right owner other =
    if left == [] || right == []
    then (left, right, false)
    else if left == right
    then (left, right, true)
    else orient_by left right (has left (column_set owner)) (has right (column_set other))
        (has left (column_set other)) (has right (column_set owner))

-- A diagnostic about a table.
unfoldable pub about : Severity → Text → Text → Table → Diagnostic
about s code message t = record {
  severity = s;
  code = code;
  message = message;
  domain_id = t.domain_id;
  table_id = t.id;
  doc_path = t.doc_path;
}

unfoldable pub unmatched_join_key : Relationship → Table → Table → Diagnostic
unfolding about
unmatched_join_key r owner other =
    about warning (codes "unmatched_join_key")
      (owner.name
        ++ codes " joins "
        ++ other.name
        ++ codes " on "
        ++ quote r.join_key_raw
        ++ codes ", but neither side names a documented column of either table.")
      owner

-- The relationship with its columns oriented, and the diagnostics that are appended.
unfoldable pub orient_relationship :
    Relationship → Table → Option Table → Relationship × List Diagnostic
unfolding orient_join_key
orient_relationship r owner none = (r, [])
orient_relationship r owner (some other) =
    let (from, to, ok) = orient_join_key r.from_column r.to_column owner other in
    (
      record r { from_column = from; to_column = to },
      if ok || r.join_key_raw == [] then [] else unmatched_join_key r owner other ∷ [],
    )
