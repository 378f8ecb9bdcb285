-- ===== src/Graph/Resolve.antt =====
-- backend/internal/graph/resolve.go: matching a declared target to a real table.
pub mod Pick
pub mod Bound
pub mod Reports
pub mod Unresolved
use urara_vision.Base.{
  ℕ, suc, ◌+◌, Bool, true, false, Option, none, some, List, [], ◌∷◌, ◌++◌, ◌||◌, ◌&&◌, not, length,
  leb, ltb, nat_eq, if◌then◌else◌,
}
use urara_vision.Base.Text.{Text, codes, ◌==◌, text_lt}
use urara_vision.Base.Maps.{Map, get, get_or}
use urara_vision.Base.Print.{quote}
use urara_vision.Base.Sort.{sort_by}
use urara_vision.Model.{
  Table, Relationship, Resolution, local, conformed, unresolved, narrative, Severity, error,
  warning, info, Diagnostic,
}
use urara_vision.Graph.Ids.{edge_id}
use urara_vision.Graph.Registry.{Registry, declares_conformed}
use urara_vision.Graph.Orient.{about, orient_relationship}

pub record Scored : Type 0 where
  pub id : Text
  pub declared : Bool
  pub columns : ℕ

unfoldable pub rank : Map Table → List Text → List Scored
rank by_id [] = []
rank by_id (id ∷ ids) = elim (get id by_id) [
  | none ↦ rank by_id ids
  | some t ↦
      record { id = id; declared = declares_conformed t; columns = length t.columns }
      ∷ rank by_id ids
]

-- The "less" of pickConformed.
unfoldable pub scored_less : Scored → Scored → Bool
scored_less a b =
    if not (if a.declared then b.declared else not b.declared)
    then a.declared
    else if not (nat_eq a.columns b.columns)
    then ltb b.columns a.columns
    else text_lt a.id b.id

unfoldable pub first_id : Text → List Scored → Text
first_id c [] = c
first_id c (s ∷ ss) = s.id

-- The candidates are `c ∷ cs`: the code reads candidates[0].
unfoldable pub pick_conformed : Text → List Text → Map Table → Text
unfolding first_id
pick_conformed c cs by_id = first_id c (sort_by scored_less (rank by_id (c ∷ cs)))

abbrev pub ident_byte : ℕ → Bool
ident_byte r =
    leb b'a' r && leb r b'z'
    || leb b'A' r && leb r b'Z'
    || leb b'0' r && leb r b'9'
    || nat_eq r b'_'
    || nat_eq r b'.'

ident_bytes : Text → Bool
ident_bytes [] = true
ident_bytes (r ∷ s) = ident_byte r && ident_bytes s

unfoldable pub is_identifier : Text → Bool
unfolding ident_bytes
is_identifier s = not (s == []) && ident_bytes s

unfoldable pub narrative_reference : Table → Relationship → Diagnostic
narrative_reference t r =
    about info (codes "narrative_reference")
      (t.name
        ++ codes " references "
        ++ quote r.target_ref
        ++ codes ", which is prose rather than a table document.")
      t

unfoldable pub unresolved_reference : Table → Relationship → Diagnostic
unresolved_reference t r =
    about error (codes "unresolved_reference")
      (t.name
        ++ codes " declares a relationship to "
        ++ quote r.target_ref
        ++ codes " but no document defines that table.")
      t

unfoldable pub cross_domain_reference : Table → Relationship → Diagnostic
cross_domain_reference t r =
    about warning (codes "cross_domain_reference")
      (t.name
        ++ codes " references "
        ++ r.target_ref
        ++ codes ", which has no document in domain "
        ++ quote t.domain_id
        ++ codes "; bound to "
        ++ r.to_table_id
        ++ codes ".")
      t

-- domain/reference, the identifier of a table in the same domain
abbrev pub local_name : Text → Text → Text
local_name domain ref = domain ++ b'/' ∷ ref

abbrev pub local_id : Table → Relationship → Text
local_id t r = local_name t.domain_id r.target_ref

abbrev bind : Relationship → Text → Resolution → List Text → Relationship
bind r target how candidates = record r {
  to_table_id = target;
  resolution = how;
  candidates = candidates;
}

-- The target is not in its own domain: what else has its name?
unfoldable pub resolve_elsewhere :
    Registry → Table → Relationship → List Text → Relationship × List Diagnostic
resolve_elsewhere reg t r [] = (record r { resolution = unresolved }, unresolved_reference t r ∷ [])
resolve_elsewhere reg t r (c ∷ cs) =
    let target = pick_conformed c cs reg.by_id in
    let bound = bind r target conformed (c ∷ cs) in
    let (oriented, diags) = orient_relationship bound t (get target reg.by_id) in
    (oriented, diags ++ cross_domain_reference t oriented ∷ [])

unfoldable pub resolve_identifier :
    Registry → Table → Relationship → Option Table → Relationship × List Diagnostic
unfolding resolve_elsewhere
resolve_identifier reg t r none = resolve_elsewhere reg t r (get_or r.target_ref reg.by_name [])
resolve_identifier reg t r (some target) =
    orient_relationship (record r { to_table_id = local_id t r; resolution = local }) t
      (some target)

module _ (sha1 : Text → List ℕ) where
  -- One round of the inner loop, at index j.
  unfoldable pub resolve_one : Registry → Table → ℕ → Relationship → Relationship × List Diagnostic
  unfolding resolve_identifier
  resolve_one reg t j declared =
      let r : Relationship = record declared {
        id = edge_id sha1 t.id declared.target_ref declared.from_column declared.to_column j;
      } in
      if is_identifier r.target_ref
      then resolve_identifier reg t r (get (local_id t r) reg.by_id)
      else (record r { resolution = narrative }, narrative_reference t r ∷ [])

  unfoldable pub resolve_all :
      Registry → Table → ℕ → List Relationship → List Relationship × List Diagnostic
  unfolding resolve_one
  resolve_all reg t j [] = ([], [])
  resolve_all reg t j (r ∷ rs) =
      let (r', ds) = resolve_one reg t j r in
      let (rs', es) = resolve_all reg t (suc j) rs in (r' ∷ rs', ds ++ es)

  -- The tables with their relationships resolved, the diagnostics that are appended, and how many
  -- relationships were declared.
  unfoldable pub resolve_relationships : Registry → List Table → List Table × List Diagnostic × ℕ
  unfolding resolve_all
  resolve_relationships reg [] = ([], [], 0)
  resolve_relationships reg (t ∷ ts) =
      let (rs, ds) = resolve_all reg t 0 t.relationships in
      let (rest, es, n) = resolve_relationships reg ts in
      (record t { relationships = rs } ∷ rest, ds ++ es, length rs + n)
