-- ===== src/Diff/Walk.antt =====
-- backend/internal/diff/diff.go: the walk over two maps, and the fields that are compared. Where emit
-- of the source appends to a slice it closes over, the model's emit is given that state and returns
-- it.
use urara_vision.Base.{
  suc, Bool, true, false, Option, none, some, List, [], ◌∷◌, ◌++◌, not, ◌&&◌, keep, if◌then◌else◌,
}
use urara_vision.Base.Text.{Text, ◌==◌, codes, elem}
use urara_vision.Base.Maps.{Map, get, keys}
use urara_vision.Base.Sort.{sort_strings}
use urara_vision.Model.{Domain, Table, Column, Relationship, resolution_text}
use urara_vision.Diff.Types.{
  Change, added, removed, changed, Value, text, flag, FieldChange, Counts, TableLineage,
}

-- What emit is called with: the two pointers, one of which may be nil, and the change.
pub data Visit (T : Type 0) : Type 0 where
  gone : T → Visit T
  new : T → Visit T
  both : T → T → Visit T

unfoldable pub change_of : {T : Type 0} → Visit T → Change
change_of (gone a) = removed
change_of (new b) = added
change_of (both a b) = changed

unfoldable pub pick : {T : Type 0} → Visit T → T
pick (gone a) = a
pick (new b) = b
pick (both a b) = b

unfoldable pub bump : Change → Counts → Counts
bump added c = record c { added = suc c.added }
bump removed c = record c { removed = suc c.removed }
bump changed c = record c { changed = suc c.changed }

abbrev pub visit_of : {T : Type 0} → Option T → Option T → Option (Visit T)
visit_of (some a) none = some (gone a)
visit_of none (some b) = some (new b)
visit_of (some a) (some b) = some (both a b)
visit_of none none = none

module _ {T S : Type 0} (emit : Visit T → S → Bool × S) where
  -- A key of neither side, which the source never visits, changes nothing.
  abbrev pub visit : Option (Visit T) → Counts × S → Counts × S
  visit none st = st
  visit (some v) (counts, st) =
      let (reported, st') = emit v st in
      (if reported then bump (change_of v) counts else counts, st')

  unfoldable pub visit_all : Map T → Map T → List Text → Counts × S → Counts × S
  visit_all from to [] st = st
  visit_all from to (k ∷ ks) st = visit_all from to ks (visit (visit_of (get k from) (get k to)) st)

unfoldable pub union_keys : {T : Type 0} → Map T → Map T → List Text
union_keys from to = sort_strings (keys from ++ keep (λ k. not (elem k (keys from))) (keys to))

unfoldable pub walk :
    {T S : Type 0} → Map T → Map T → Counts → (Visit T → S → Bool × S) → S → Counts × S
walk from to counts emit st = visit_all emit from to (union_keys from to) (counts, st)

abbrev pub same_flag : Bool → Bool → Bool
same_flag true b = b
same_flag false b = not b

unfoldable pub same_value : Value → Value → Bool
same_value (text s) (text t) = s == t
same_value (flag a) (flag b) = same_flag a b
same_value (text s) (flag b) = false
same_value (flag a) (text t) = false

unfoldable pub field : List FieldChange → Text → Value → Value → List FieldChange
field fs name from to =
    if same_value from to then fs else fs ++ record { field = name; from = from; to = to } ∷ []

unfoldable pub domain_fields : Domain → Domain → List FieldChange
domain_fields a b =
    let fs = field [] (codes "title") (text a.title) (text b.title) in
    field fs (codes "description") (text a.description) (text b.description)

unfoldable pub table_fields : Table → Table → List FieldChange
table_fields a b =
    let fs = field [] (codes "kind") (text a.kind) (text b.kind) in
    let fs' = field fs (codes "grain") (text a.grain) (text b.grain) in
    let fs'' =
      field fs' (codes "updateFrequency") (text a.update_frequency) (text b.update_frequency) in
    let fs''' = field fs'' (codes "layer") (text a.layer) (text b.layer) in
    let fs'''' = field fs''' (codes "description") (text a.description) (text b.description) in
    field fs'''' (codes "conformed") (flag a.conformed) (flag b.conformed)

unfoldable pub column_fields : Column → Column → List FieldChange
column_fields a b =
    let fs = field [] (codes "type") (text a.kind) (text b.kind) in
    let fs' = field fs (codes "description") (text a.description) (text b.description) in
    let fs'' = field fs' (codes "isPk") (flag a.is_pk) (flag b.is_pk) in
    field fs'' (codes "isFk") (flag a.is_fk) (flag b.is_fk)

unfoldable pub relationship_fields : Relationship → Relationship → List FieldChange
relationship_fields a b =
    let fs = field [] (codes "cardinality") (text a.cardinality) (text b.cardinality) in
    let fs' =
      field fs (codes "resolution") (text (resolution_text a.resolution))
        (text (resolution_text b.resolution)) in
    field fs' (codes "toTableId") (text a.to_table_id) (text b.to_table_id)

unfoldable pub lineage_fields : TableLineage → TableLineage → List FieldChange
lineage_fields a b =
    let fs = field [] (codes "notes") (text a.row.notes) (text b.row.notes) in
    field fs (codes "derived") (flag a.row.derived) (flag b.row.derived)

unfoldable pub same_relationship : Relationship → Relationship → Bool
same_relationship a b =
    a.cardinality == b.cardinality
    && resolution_text a.resolution == resolution_text b.resolution
    && a.to_table_id == b.to_table_id

unfoldable pub same_lineage : TableLineage → TableLineage → Bool
same_lineage a b = a.row.notes == b.row.notes && same_flag a.row.derived b.row.derived
