-- ===== src/Graph/Resolve/Bound.antt =====
-- backend/internal/graph/resolve.go: what a relationship is bound to after resolution.
use urara_vision.Base.{
  ℕ, suc, ◌≡◌, refl, ap, ◌∙◌, inl, inr, Bool, true, false, Option, none, some, List, [], ◌∷◌,
  Bool-cases, All,
}
use urara_vision.Base.Text.{Text, elem, In→elem}
use urara_vision.Base.Maps.{get, get_or, keys, get_of_elem, elem_of_get, not_elem_of_get}
use urara_vision.Model.{
  Table, Relationship, Resolution, unset, local, conformed, unresolved, narrative,
}
use urara_vision.Graph.Registry.{Registry, new_registry}
use urara_vision.Graph.Registry.Laws.{IsSound, new_registry-IsSound}
use urara_vision.Graph.Orient.{orient_relationship}
use urara_vision.Graph.Resolve.{
  is_identifier, local_id, local_name, resolve_elsewhere, resolve_identifier, resolve_one,
  resolve_all, resolve_relationships, pick_conformed,
}
use urara_vision.Graph.Resolve.Pick.{pick_conformed_best}

-- What each resolution says of a relationship declared in `domain`, of what it refers to and of the
-- table that it is bound to, when `known` tells the identifiers there are and `named` lists those
-- of a name.
abbrev pub Outcome :
    (known : Text → Bool) (named : Text → List Text)
    → Resolution
    → (domain target_ref to_table_id : Text) → Type 0
Outcome known named unset domain ref id = ⊥
Outcome known named local domain ref id = (id ≡ local_name domain ref) × (known id ≡ true)
Outcome known named conformed domain ref id =
    (known (local_name domain ref) ≡ false) × (known id ≡ true) × (elem id (named ref) ≡ true)
Outcome known named unresolved domain ref id =
    (known (local_name domain ref) ≡ false) × (named ref ≡ []) × (id ≡ [])
Outcome known named narrative domain ref id = (is_identifier ref ≡ false) × (id ≡ [])

module _ (reg : Registry) where
  abbrev pub registered : Text → Bool
  registered id = elem id (keys reg.by_id)

  abbrev pub listed : Text → List Text
  listed n = get_or n reg.by_name []

  abbrev pub IsResolved : Table → Relationship → Type 0
  IsResolved t r = Outcome registered listed r.resolution t.domain_id r.target_ref r.to_table_id

  -- Orienting touches the two columns alone.
  oriented-IsResolved :
      (t : Table) (r : Relationship) (other : Option Table)
      → IsResolved t r
      → IsResolved t (orient_relationship r t other).0
  unfolding orient_relationship
  oriented-IsResolved t r none h = h
  oriented-IsResolved t r (some other) h = h

module _ (reg : Registry) (sound : IsSound reg) (t : Table) where
  pick-registered :
      (c : Text) (cs : List Text) (n : Text)
      → get_or n reg.by_name [] ≡ c ∷ cs
      → (registered reg (pick_conformed c cs reg.by_id) ≡ true)
        × (elem (pick_conformed c cs reg.by_id) (c ∷ cs) ≡ true)
  pick-registered c cs n e =
      let (u, u_reg) =
        get_of_elem c reg.by_id (sound n c (ap (elem c) e ∙ In→elem c (c ∷ cs) (inl refl))) in
      let (p_in, (v, v_reg, best)) = pick_conformed_best reg.by_id c cs c u (inl refl) u_reg in
      (elem_of_get _ reg.by_id v v_reg, In→elem _ (c ∷ cs) p_in)

  resolve_elsewhere-IsResolved :
      (r : Relationship) (l : List Text)
      → get_or r.target_ref reg.by_name [] ≡ l
      → registered reg (local_id t r) ≡ false
      → r.to_table_id ≡ []
      → IsResolved reg t (resolve_elsewhere reg t r l).0
  unfolding resolve_elsewhere
  resolve_elsewhere-IsResolved r [] e n z = (n, e, z)
  resolve_elsewhere-IsResolved r (c ∷ cs) e n z =
      let (is_known, is_listed) = pick-registered c cs r.target_ref e in
      oriented-IsResolved reg t _ (get (pick_conformed c cs reg.by_id) reg.by_id)
        (n, is_known, ap (elem (pick_conformed c cs reg.by_id)) e ∙ is_listed)

  resolve_identifier-IsResolved :
      (r : Relationship)
      → r.to_table_id ≡ []
      → IsResolved reg t (resolve_identifier reg t r (get (local_id t r) reg.by_id)).0
  unfolding resolve_identifier
  resolve_identifier-IsResolved r z = by_local (get (local_id t r) reg.by_id) refl
    where
      by_local :
          (o : Option Table)
          → get (local_id t r) reg.by_id ≡ o
          → IsResolved reg t (resolve_identifier reg t r o).0
      by_local none e = resolve_elsewhere-IsResolved r _ refl (not_elem_of_get _ reg.by_id e) z
      by_local (some u) e = oriented-IsResolved reg t _ (some u) (refl, elem_of_get _ reg.by_id u e)

  module _ (sha1 : Text → List ℕ) where
    resolve_one-IsResolved :
        (j : ℕ) (r : Relationship)
        → r.to_table_id ≡ []
        → IsResolved reg t (resolve_one sha1 reg t j r).0
    unfolding resolve_one
    resolve_one-IsResolved j r z = elim (Bool-cases (is_identifier r.target_ref)) [
      | inl e ↦ rw e (resolve_identifier-IsResolved _ z)
      | inr e ↦ rw e (e, z)
    ]

    pub resolve_all-IsResolved :
        (j : ℕ) (rs : List Relationship)
        → All (λ r. r.to_table_id ≡ []) rs
        → All (IsResolved reg t) (resolve_all sha1 reg t j rs).0
    unfolding resolve_all
    resolve_all-IsResolved j [] h = tt
    resolve_all-IsResolved j (r ∷ rs) h =
        (resolve_one-IsResolved j r h.0, resolve_all-IsResolved (suc j) rs h.1)

abbrev pub AllRelationships : (Table → Relationship → Type 0) → List Table → Type 0
AllRelationships P ts = All (λ t. All (P t) t.relationships) ts

resolve_relationships-IsResolved :
    (sha1 : Text → List ℕ) (reg : Registry) (ts : List Table)
    → IsSound reg
    → AllRelationships (λ t r. r.to_table_id ≡ []) ts
    → AllRelationships (IsResolved reg) (resolve_relationships sha1 reg ts).0
unfolding resolve_relationships
resolve_relationships-IsResolved sha1 reg [] sound h = tt
resolve_relationships-IsResolved sha1 reg (t ∷ ts) sound h = (
  resolve_all-IsResolved reg sound t sha1 0 t.relationships h.0,
  resolve_relationships-IsResolved sha1 reg ts sound h.1,
)

-- When no declared relationship is bound yet, every relationship is classified by the registry of
-- the indexed documents `ts`: a local one is bound to a registered table of its own domain, a
-- conformed one to a registered table of the name it refers to when its own domain has none, an
-- unresolved one is unbound and nothing has its name, and a narrative one is unbound and no
-- identifier. So no relationship is bound to a table that is not there.
pub resolve_relationships_bound :
    (sha1 : Text → List ℕ) (ts us : List Table) (sid : Text)
    → AllRelationships (λ t r. r.to_table_id ≡ []) us
    → AllRelationships
        (IsResolved (new_registry ts sid).1)
        (resolve_relationships sha1 (new_registry ts sid).1 us).0
resolve_relationships_bound sha1 ts us sid =
    resolve_relationships-IsResolved sha1 (new_registry ts sid).1 us (new_registry-IsSound ts sid)
