-- ===== src/Graph/Edges/Merging.antt =====
-- backend/internal/graph/edges.go: the loop keeps one edge for each key that it has met.
use mathlib.Core.Path.{subst}
use urara_vision.Base.{
  ℕ, ◌≡◌, refl, sym, ◌∙◌, inl, inr, Bool, true, false, not, ◌&&◌, ◌||◌, Option, none, some, List,
  [], ◌∷◌, ◌++◌, arith, Bool-cases, any,
}
use urara_vision.Base.Text.{Text, ◌==◌, ==_iff, elem, elem-append}
use urara_vision.Base.Maps.{Map, get, put, get-put, Distinct}
use urara_vision.Model.{Table, Relationship}
use urara_vision.Graph.Edges.{
  Edge, Ends, ends_key, edge_key, normalise, Merged, declare, new_edge, merge_at, merge_edge,
  merge_all, merge_tables,
}

abbrev pub is_there : Option Edge → Bool
is_there none = false
is_there (some e) = true

-- `order` lists the keys of `merged`, each once, and every edge is stored under its own key.
pub record IsMerged (st : Merged) : Type 0 where
  pub distinct : Distinct st.order
  pub listed : (k : Text) → elem k st.order ≡ is_there (get k st.merged)
  pub keyed : (k : Text) (e : Edge) → get k st.merged ≡ some e → edge_key e ≡ k
  pub declared : (k : Text) (e : Edge) → get k st.merged ≡ some e → Distinct e.declared_by

-- The relationship is drawn, as the edge of that key.
abbrev pub draws : Text → Relationship → Bool
draws k r = not (r.to_table_id == []) && (ends_key (normalise r) == k)

-- Some relationship of the tables is drawn as the edge of that key.
unfoldable pub drawn : Text → List Table → Bool
drawn k [] = false
drawn k (t ∷ ts) = any (draws k) t.relationships || drawn k ts

Distinct-append :
    (ks : List Text) (k : Text) → Distinct ks → elem k ks ≡ false → Distinct (ks ++ k ∷ [])
unfolding elem
Distinct-append [] k h n = (refl, tt)
Distinct-append (j ∷ ks) k h n =
    ground (arith, Distinct-append ks k h.1, elem-append j ks (k ∷ []), ==_iff j k, ==_iff k j)

declare-Distinct :
    (r : Relationship) (id : Text) (e : Edge)
    → Distinct e.declared_by
    → Distinct (declare r id e).declared_by
unfolding declare
declare-Distinct r id e h = elim (Bool-cases (elem id e.declared_by)) [
  | inl y ↦ rw y h
  | inr n ↦ rw n (Distinct-append e.declared_by id h n)
]

-- The three invariants of an edge that is put into the map.
module _ (st : Merged) (h : IsMerged st) (key : Text) (e : Edge) (fits : edge_key e ≡ key)
    (once : Distinct e.declared_by) where
  keyed-put : (k : Text) (x : Edge) → get k (put key e st.merged) ≡ some x → edge_key x ≡ k
  keyed-put k x p = ground (arith, get-put key k e st.merged, ==_iff key k, h.keyed k x)

  declared-put :
      (k : Text) (x : Edge) → get k (put key e st.merged) ≡ some x → Distinct x.declared_by
  declared-put k x p = elim (Bool-cases (key == k)) [
    | inl y ↦
        let same : e ≡ x = ground (arith, get-put key k e st.merged) in
        subst (λ (z : Edge). Distinct z.declared_by) same once
    | inr n ↦ h.declared k x (ground (arith, get-put key k e st.merged))
  ]

module _ (sha1 : Text → List ℕ) (domain_of : Map Text) where
  merge_at-IsMerged :
      (r : Relationship) (id key : Text) (n : Ends) (st : Merged) (o : Option Edge)
      → ends_key n ≡ key
      → get key st.merged ≡ o
      → IsMerged st
      → IsMerged (merge_at sha1 domain_of r id key n st o)
  unfolding merge_at
  merge_at-IsMerged r id key n st (some e) same found h =
      let e' = declare r id e in
      let fits : edge_key e' ≡ key = unfold declare in h.keyed key e found in
      let once : Distinct e'.declared_by = declare-Distinct r id e (h.declared key e found) in
      record {
        distinct = h.distinct;
        listed = λ k. ground (arith, get-put key k e' st.merged, ==_iff key k, h.listed k);
        keyed = keyed-put st h key e' fits once;
        declared = declared-put st h key e' fits once;
      }
  merge_at-IsMerged r id key n st none same found h =
      let e' = declare r id (new_edge sha1 domain_of r n) in
      let fits : edge_key e' ≡ key = unfold declare new_edge in same in
      let once : Distinct e'.declared_by =
        declare-Distinct r id (new_edge sha1 domain_of r n) (unfold new_edge in tt) in
      record {
        distinct = Distinct-append st.order key h.distinct (ground (arith, h.listed key));
        listed = λ k.
            unfold elem in
            ground
              (arith, get-put key k e' st.merged, h.listed k, elem-append k st.order (key ∷ []));
        keyed = keyed-put st h key e' fits once;
        declared = declared-put st h key e' fits once;
      }

  order-merge_at :
      (r : Relationship) (id key : Text) (n : Ends) (st : Merged) (o : Option Edge)
      → get key st.merged ≡ o
      → IsMerged st
      → (k : Text)
      → elem k (merge_at sha1 domain_of r id key n st o).order ≡ (key == k || elem k st.order)
  unfolding merge_at elem
  order-merge_at r id key n st (some e) found h k = ground (arith, h.listed key, ==_iff key k)
  order-merge_at r id key n st none found h k = ground (arith, elem-append k st.order (key ∷ []))

  pub merge_edge-IsMerged :
      (id : Text) (r : Relationship) (st : Merged)
      → IsMerged st
      → IsMerged (merge_edge sha1 domain_of id r st)
  unfolding merge_edge
  merge_edge-IsMerged id r st h = elim (Bool-cases (r.to_table_id == [])) [
    | inl y ↦ rw y h
    | inr n ↦ rw n (merge_at-IsMerged r id _ (normalise r) st _ refl refl h)
  ]

  pub order-merge_edge :
      (id : Text) (r : Relationship) (st : Merged)
      → IsMerged st
      → (k : Text)
      → elem k (merge_edge sha1 domain_of id r st).order ≡ (draws k r || elem k st.order)
  unfolding merge_edge
  order-merge_edge id r st h k = elim (Bool-cases (r.to_table_id == [])) [
    | inl y ↦ rw y
    | inr n ↦ rw n (order-merge_at r id _ (normalise r) st _ refl h k)
  ]

  order-merge_at_known :
      (r : Relationship) (id key : Text) (n : Ends) (st : Merged) (o : Option Edge)
      → is_there o ≡ true
      → (merge_at sha1 domain_of r id key n st o).order ≡ st.order
  unfolding merge_at
  order-merge_at_known r id key n st (some e) h = refl
  order-merge_at_known r id key n st none h = cc

  -- A key that is there already adds no edge.
  pub order-merge_edge_known :
      (id : Text) (r : Relationship) (st : Merged)
      → IsMerged st
      → elem (ends_key (normalise r)) st.order ≡ true
      → (merge_edge sha1 domain_of id r st).order ≡ st.order
  unfolding merge_edge
  order-merge_edge_known id r st h known = elim (Bool-cases (r.to_table_id == [])) [
    | inl y ↦ rw y
    | inr n ↦ rw n (
        order-merge_at_known r id _ (normalise r) st _
          (sym (h.listed (ends_key (normalise r))) ∙ known))
  ]

  merge_all-IsMerged :
      (id : Text) (rs : List Relationship) (st : Merged)
      → IsMerged st
      → IsMerged (merge_all sha1 domain_of id rs st)
        × ((k : Text)
            → elem k (merge_all sha1 domain_of id rs st).order
              ≡ (any (draws k) rs || elem k st.order))
  unfolding merge_all any
  merge_all-IsMerged id [] st h = (h, λ k. refl)
  merge_all-IsMerged id (r ∷ rs) st h =
      let rest =
        merge_all-IsMerged id rs (merge_edge sha1 domain_of id r st)
          (merge_edge-IsMerged id r st h) in
      (rest.0, λ k. ground (arith, rest.1 k, order-merge_edge id r st h k))

  -- The loop over all tables: the invariant holds, and the keys are those that are drawn.
  pub merge_tables-IsMerged :
      (ts : List Table) (st : Merged)
      → IsMerged st
      → IsMerged (merge_tables sha1 domain_of ts st)
        × ((k : Text)
            → elem k (merge_tables sha1 domain_of ts st).order ≡ (drawn k ts || elem k st.order))
  unfolding merge_tables drawn
  merge_tables-IsMerged [] st h = (h, λ k. refl)
  merge_tables-IsMerged (t ∷ ts) st h =
      let step = merge_all-IsMerged t.id t.relationships st h in
      let rest =
        merge_tables-IsMerged ts (merge_all sha1 domain_of t.id t.relationships st) step.0 in
      (rest.0, λ k. ground (arith, rest.1 k, step.1 k))

pub IsMerged-empty : IsMerged (record { merged = []; order = [] })
unfolding elem get
IsMerged-empty = record {
  distinct = tt;
  listed = λ k. refl;
  keyed = λ k e p. cc;
  declared = λ k e p. absurd (cc);
}
