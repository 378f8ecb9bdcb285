-- ===== src/Graph/Orient/Laws.antt =====
-- backend/internal/graph/orient.go: orienting a join key.
use mathlib.Core.Bool.{xor}
use urara_vision.Base.{
  ◌≡◌, refl, ◌≢◌, ◌⊎◌, Bool, true, false, not, ◌&&◌, ◌||◌, some, List, [], ◌∷◌, ◌++◌, map, arith,
  ◌∙◌,
}
use urara_vision.Base.Text.{Text, codes, ◌==◌, ==_iff, elem}
use urara_vision.Base.Maps.{Map, get_or, put}
use urara_vision.Model.{Column, Table, Relationship, warning}
use urara_vision.Base.Print.{quote}
use urara_vision.Graph.Orient.{
  add_columns, column_set, has, orient_by, orient_join_key, orient_relationship, unmatched_join_key,
  about,
}

-- The table has a column of that name.
abbrev pub documents : Table → Text → Bool
documents t c = elem c (map (λ d. d.name) t.columns)

has-put : (c k : Text) (s : Map Bool) → has c (put k true s) ≡ (k == c || has c s)
unfolding get_or put
has-put c k [] = ground arith
has-put c k ((j, b) ∷ s) = ground (arith, has-put c k s, ==_iff j c, ==_iff k c, ==_iff j k)

has-add_columns :
    (c : Text) (cs : List Column) (s : Map Bool)
    → has c (add_columns cs s) ≡ (elem c (map (λ d. d.name) cs) || has c s)
unfolding add_columns elem
has-add_columns c [] s = refl
has-add_columns c (d ∷ ds) s =
    ground (arith, has-add_columns c ds (put d.name true s), has-put c d.name s)

-- The set that the code builds holds exactly the documented names.
pub has-column_set : (c : Text) (t : Table) → has c (column_set t) ≡ documents t c
unfolding column_set get_or
has-column_set c t = has-add_columns c t.columns [] ∙ ground arith

module _ (left right : Text) (owner other : Table) where
  -- The assignment counts as established exactly when both sides are written and they are the same,
  -- or the declaring table documents one of them.
  pub orient_join_key-ok : (orient_join_key left right owner other).2 ≡ (
      not (left == [])
      && not (right == [])
      && (left == right || documents owner left || documents owner right))
  unfolding orient_join_key orient_by
  orient_join_key-ok = simp has-column_set (ground arith)

  -- The columns returned are the two that were written, in one of the two orders.
  pub orient_join_key-pair :
      let (from, to, ok) = orient_join_key left right owner other in
      ((from ≡ left) × (to ≡ right)) ⊎ ((from ≡ right) × (to ≡ left))
  unfolding orient_join_key orient_by
  orient_join_key-pair = ground arith

  -- When the assignment is established for two different names, the first column returned is one
  -- that the declaring table documents.
  pub orient_join_key-owner :
      (orient_join_key left right owner other).2 ≡ true
      → left ≢ right
      → documents owner (orient_join_key left right owner other).0 ≡ true
  unfolding orient_join_key orient_by
  orient_join_key-owner h n = ground (
    arith,
    has-column_set left owner,
    has-column_set right owner,
    has-column_set left other,
    has-column_set right other,
    ==_iff left right,
  )

  -- When both sides are written and exactly one of the two readings fits the columns of both
  -- tables, the result does not depend on the order in which the key is written.
  pub orient_join_key_order :
      left ≢ []
      → right ≢ []
      → xor
          (documents owner left && documents other right)
          (documents owner right && documents other left)
        ≡ true
      → orient_join_key left right owner other ≡ orient_join_key right left owner other
  unfolding orient_join_key orient_by xor
  orient_join_key_order l r h = ground (
    arith,
    has-column_set left owner,
    has-column_set right owner,
    has-column_set left other,
    has-column_set right other,
    ==_iff left right,
    ==_iff right left,
    ==_iff left [],
    ==_iff right [],
  )

-- A key of two different sides, one of which the joined table documents and neither of which the
-- declaring table does, is reported, in a warning about the declaring table, as
-- naming a documented column of neither table, which is not so.
pub orient_relationship_misreports :
    (r : Relationship) (owner other : Table)
    → r.join_key_raw ≢ []
    → r.from_column ≢ r.to_column
    → documents owner r.from_column ≡ false
    → documents owner r.to_column ≡ false
    → documents other r.from_column || documents other r.to_column ≡ true
    → (orient_relationship r owner (some other)).1
      ≡ record {
        severity = warning;
        code = codes "unmatched_join_key";
        message =
            owner.name
            ++ codes " joins "
            ++ other.name
            ++ codes " on "
            ++ quote r.join_key_raw
            ++ codes ", but neither side names a documented column of either table.";
        domain_id = owner.domain_id;
        table_id = owner.id;
        doc_path = owner.doc_path;
      }
        ∷ []
unfolding orient_relationship unmatched_join_key about
orient_relationship_misreports r owner other j n a b c = ground (
  arith,
  orient_join_key-ok r.from_column r.to_column owner other,
  ==_iff r.from_column r.to_column,
  ==_iff r.join_key_raw [],
)
