-- ===== src/Graph/Edges/Output.antt =====
-- backend/internal/graph/edges.go: what Edges returns.
use urara_vision.Base.{
  ℕ, ◌+◌, ◌≡◌, refl, sym, ap, ◌∙◌, inl, inr, Bool, true, Option, none, some, List, [], ◌∷◌, arith,
  Option-cases, Bool-cases, false, not, ◌++◌, ◌&&◌, ◌||◌, any, if◌then◌else◌, All, count,
}
use urara_vision.Base.Text.{
  Text, codes, ◌==◌, ==_iff, elem, text_lt, has_prefix, to_lower, trim_space,
}
use urara_vision.Base.Maps.{Map, get, Distinct}
use urara_vision.Base.Sort.{
  IsOrder, IsSortedBy, sort_by-IsSortedBy, count-sort_by, Distinct-sort_by, All-sort_by,
  lex-IsOrder, IsOrder-pull, ==-eq, text_lt-IsOrder, sort_strings,
}
use urara_vision.Model.{Table, Relationship}
use urara_vision.Graph.Edges.{
  Edge, edge_key, ends_key, key_of, normalise, is_one_to_many, domains_of, merge_tables, collect,
  output_edge, edge_less, edges,
}
use urara_vision.Graph.Edges.Merging.{is_there, draws, drawn, merge_tables-IsMerged, IsMerged-empty}

abbrev pub has_key : Text → Edge → Bool
has_key k e = edge_key e == k

count-output_edge :
    (k j : Text) (o : Option Edge) (es : List Edge)
    → ((e : Edge) → o ≡ some e → edge_key e ≡ j)
    → is_there o ≡ true
    → count (has_key k) (output_edge o es) ≡ (if j == k then 1 else 0) + count (has_key k) es
unfolding count
count-output_edge k j none es keyed there = cc
count-output_edge k j (some e) es keyed there = rw (keyed e refl) refl

-- One edge for a key that is listed, and none for another.
count-collect :
    (ks : List Text) (m : Map Edge) (k : Text)
    → Distinct ks
    → ((j : Text) (e : Edge) → get j m ≡ some e → edge_key e ≡ j)
    → ((j : Text) → elem j ks ≡ true → is_there (get j m) ≡ true)
    → count (has_key k) (collect ks m) ≡ (if elem k ks then 1 else 0)
unfolding collect elem count
count-collect [] m k h keyed there = refl
count-collect (j ∷ ks) m k h keyed there = ground (
  arith,
  count-output_edge k j (get j m) (collect ks m) (keyed j) (there j (ground (arith, ==_iff j j))),
  count-collect ks m k h.1 keyed (λ i p. there i (ground arith)),
  ==_iff j k,
)

All-collect :
    (P : Edge → Type 0) (ks : List Text) (m : Map Edge)
    → ((j : Text) (e : Edge)
        → get j m ≡ some e
        → P (record e { declared_by = sort_strings e.declared_by }))
    → All P (collect ks m)
unfolding collect
All-collect P [] m h = tt
All-collect P (j ∷ ks) m h = elim (Option-cases (get j m)) [
  | inl e ↦ rw e (All-collect P ks m h)
  | inr (x, e) ↦ rw e (h j x e, All-collect P ks m h)
]

-- A cardinality that starts with one-to-many, in one of its spellings and in any case.
abbrev pub reads_one_to_many : Text → Bool
reads_one_to_many c =
    any (λ p. has_prefix (to_lower (trim_space c)) p)
      (codes "one-to-many" ∷ codes "one to many" ∷ codes "1:n" ∷ [])

-- The ends and columns of a relationship with a zero byte between them, the many side first.
abbrev pub pointing : Relationship → Text
pointing r =
    if reads_one_to_many r.cardinality
    then r.to_table_id ++ 0 ∷ r.from_table_id ++ 0 ∷ r.to_column ++ 0 ∷ r.from_column
    else r.from_table_id ++ 0 ∷ r.to_table_id ++ 0 ∷ r.from_column ++ 0 ∷ r.to_column

-- Some bound relationship of the tables points so.
abbrev pub pointed : Text → List Table → Bool
pointed k [] = false
pointed k (t ∷ ts) =
    any (λ r. not (r.to_table_id == []) && pointing r == k) t.relationships || pointed k ts

-- An edge with those ends and columns.
abbrev pub runs : Text → Edge → Bool
runs k e = (e.from ++ 0 ∷ e.to ++ 0 ∷ e.from_column ++ 0 ∷ e.to_column) == k

reads_one_to_many_lem : (c : Text) → is_one_to_many c ≡ reads_one_to_many c
unfolding is_one_to_many any
reads_one_to_many_lem c = ground arith

pointing_lem : (r : Relationship) → ends_key (normalise r) ≡ pointing r
unfolding normalise key_of
pointing_lem r = elim (Bool-cases (is_one_to_many r.cardinality)) [
  | inl e ↦ rw (e, sym (reads_one_to_many_lem r.cardinality) ∙ e) refl
  | inr e ↦ rw (e, sym (reads_one_to_many_lem r.cardinality) ∙ e) refl
]

any_same :
    (p q : Relationship → Bool) (rs : List Relationship)
    → ((r : Relationship) → p r ≡ q r)
    → any p rs ≡ any q rs
unfolding any
any_same p q [] h = refl
any_same p q (r ∷ rs) h = rw (h r, any_same p q rs h) refl

pointed_lem : (k : Text) (ts : List Table) → drawn k ts ≡ pointed k ts
unfolding drawn
pointed_lem k [] = refl
pointed_lem k (t ∷ ts) =
    rw
      (
        any_same (draws k) (λ r. not (r.to_table_id == []) && pointing r == k) t.relationships
            (λ r. ap (λ l. not (r.to_table_id == []) && l == k) (pointing_lem r)),
        pointed_lem k ts,
      )
      refl

-- Of every key, two ends and their columns with a zero byte between them, there is exactly one edge if
-- some bound relationship of the tables has that key once it points from its many side to its one
-- side, so with its ends and columns exchanged if it is declared one-to-many; and none if no such
-- relationship does. Edges are neither lost, nor invented, nor repeated.
pub edges_once :
    (sha1 : Text → List ℕ) (ts : List Table) (k : Text)
    → count (runs k) (edges sha1 ts) ≡ (if pointed k ts then 1 else 0)
unfolding edges elem key_of
edges_once sha1 ts k =
    let st = merge_tables sha1 (domains_of ts []) ts (record { merged = []; order = [] }) in
    let inv = merge_tables-IsMerged sha1 (domains_of ts []) ts _ IsMerged-empty in
    count-sort_by edge_less (has_key k) (collect st.order st.merged)
    ∙ count-collect st.order st.merged k inv.0.distinct inv.0.keyed
        (λ j p. sym (inv.0.listed j) ∙ p)
    ∙ ground (arith, inv.1 k)
    ∙ ap (λ (b : Bool). if b then 1 else 0) (pointed_lem k ts)

edge_less-IsOrder : IsOrder edge_less
unfolding edge_less
edge_less-IsOrder =
    lex-IsOrder (λ a b. a.from == b.from) (λ a b. text_lt a.from b.from) _
      (λ a b. ==-eq a.from b.from) (IsOrder-pull (λ (e : Edge). e.from) text_lt-IsOrder)
      (lex-IsOrder (λ a b. a.to == b.to) (λ a b. text_lt a.to b.to) _ (λ a b. ==-eq a.to b.to)
        (IsOrder-pull (λ (e : Edge). e.to) text_lt-IsOrder)
        (IsOrder-pull (λ (e : Edge). e.from_column) text_lt-IsOrder))

-- The documents that declare an edge are listed in order, each once.
abbrev pub IsAttributed : Edge → Type 0
IsAttributed e = IsSortedBy text_lt e.declared_by × Distinct e.declared_by

sorted-IsAttributed :
    (e : Edge)
    → Distinct e.declared_by
    → IsAttributed (record e { declared_by = sort_strings e.declared_by })
unfolding sort_strings
sorted-IsAttributed e h =
    (sort_by-IsSortedBy text_lt-IsOrder e.declared_by, Distinct-sort_by text_lt e.declared_by h)

-- The edges come sorted by their ends and first column, and each names the documents that declare
-- it in order and each once.
pub edges_sorted :
    (sha1 : Text → List ℕ) (ts : List Table)
    → IsSortedBy edge_less (edges sha1 ts) × All IsAttributed (edges sha1 ts)
unfolding edges
edges_sorted sha1 ts =
    let inv = merge_tables-IsMerged sha1 (domains_of ts []) ts _ IsMerged-empty in
    (
      sort_by-IsSortedBy edge_less-IsOrder _,
      All-sort_by edge_less IsAttributed _
          (All-collect IsAttributed _ _ (λ j e p. sorted-IsAttributed e (inv.0.declared j e p))),
    )
