-- ===== src/Graph/Resolve/Reports.antt =====
-- backend/internal/graph/resolve.go: what is counted, and what is reported as an error.
use mathlib.Core.List.{append-nil}
use urara_vision.Base.{
  ℕ, suc, ◌+◌, ◌≡◌, refl, sym, ap, ◌∙◌, inl, inr, Bool, true, false, Option, none, some, List, [],
  ◌∷◌, ◌++◌, arith, Bool-cases, if◌then◌else◌, length, count, count-append,
}
use urara_vision.Base.Text.{Text}
use urara_vision.Base.Maps.{get}
use urara_vision.Model.{Table, Relationship, unresolved, Diagnostic, error}
use urara_vision.Graph.Registry.{Registry}
use urara_vision.Graph.Orient.{orient_relationship, about, unmatched_join_key}
use urara_vision.Graph.Resolve.{
  is_identifier, resolve_elsewhere, resolve_identifier, resolve_one, resolve_all,
  resolve_relationships, pick_conformed, unresolved_reference, cross_domain_reference,
  narrative_reference,
}

abbrev pub is_error : Diagnostic → Bool
is_error d = elim d.severity [ error ↦ true | _ ↦ false ]

abbrev pub is_unresolved : Relationship → Bool
is_unresolved r = elim r.resolution [ unresolved ↦ true | _ ↦ false ]

errors-orient_relationship :
    (r : Relationship) (t : Table) (other : Option Table)
    → count is_error (orient_relationship r t other).1 ≡ 0
unfolding count orient_relationship unmatched_join_key about
errors-orient_relationship r t none = refl
errors-orient_relationship r t (some u) = ground arith

pub resolution-orient_relationship :
    (r : Relationship) (t : Table) (other : Option Table)
    → (orient_relationship r t other).0.resolution ≡ r.resolution
unfolding orient_relationship
resolution-orient_relationship r t none = refl
resolution-orient_relationship r t (some u) = refl

abbrev pub flag : Relationship → ℕ
flag r = if is_unresolved r then 1 else 0

-- Orienting a bound relationship reports no error and leaves it bound.
pub errors-oriented :
    (r : Relationship) (t : Table) (other : Option Table) (ds : List Diagnostic)
    → is_unresolved r ≡ false
    → count is_error ds ≡ 0
    → count is_error ((orient_relationship r t other).1 ++ ds)
      ≡ flag (orient_relationship r t other).0
errors-oriented r t other ds h e = ground (
  arith,
  count-append is_error (orient_relationship r t other).1 ds,
  errors-orient_relationship r t other,
  resolution-orient_relationship r t other,
)

errors-resolve_elsewhere :
    (reg : Registry) (t : Table) (r : Relationship) (l : List Text)
    → count is_error (resolve_elsewhere reg t r l).1 ≡ flag (resolve_elsewhere reg t r l).0
unfolding resolve_elsewhere count unresolved_reference cross_domain_reference about
errors-resolve_elsewhere reg t r [] = refl
errors-resolve_elsewhere reg t r (c ∷ cs) =
    errors-oriented _ t (get (pick_conformed c cs reg.by_id) reg.by_id) _ refl refl

errors-resolve_identifier :
    (reg : Registry) (t : Table) (r : Relationship) (o : Option Table)
    → count is_error (resolve_identifier reg t r o).1 ≡ flag (resolve_identifier reg t r o).0
unfolding resolve_identifier
errors-resolve_identifier reg t r none = errors-resolve_elsewhere reg t r _
errors-resolve_identifier reg t r (some u) =
    ap (count is_error) (sym (append-nil _))
    ∙ errors-oriented _ t (some u) [] refl (unfold count in refl)

-- How many relationships the documents declare, and how many of those satisfy a test.
abbrev pub declared : List Table → ℕ
declared [] = 0
declared (t ∷ ts) = length t.relationships + declared ts

abbrev pub declared_that : (Relationship → Bool) → List Table → ℕ
declared_that p [] = 0
declared_that p (t ∷ ts) = count p t.relationships + declared_that p ts

module _ (sha1 : Text → List ℕ) (reg : Registry) where
  errors-resolve_one :
      (t : Table) (j : ℕ) (r : Relationship)
      → count is_error (resolve_one sha1 reg t j r).1 ≡ flag (resolve_one sha1 reg t j r).0
  unfolding resolve_one count narrative_reference about
  errors-resolve_one t j r = elim (Bool-cases (is_identifier r.target_ref)) [
    | inl e ↦ rw e (errors-resolve_identifier reg t _ _)
    | inr e ↦ rw e refl
  ]

  errors-resolve_all :
      (t : Table) (j : ℕ) (rs : List Relationship)
      → count is_error (resolve_all sha1 reg t j rs).1
        ≡ count is_unresolved (resolve_all sha1 reg t j rs).0
  unfolding resolve_all count
  errors-resolve_all t j [] = refl
  errors-resolve_all t j (r ∷ rs) = omega (
    arith,
    count-append is_error (resolve_one sha1 reg t j r).1 (resolve_all sha1 reg t (suc j) rs).1,
    errors-resolve_one t j r,
    errors-resolve_all t (suc j) rs,
  )

  length-resolve_all :
      (t : Table) (j : ℕ) (rs : List Relationship)
      → length (resolve_all sha1 reg t j rs).0 ≡ length rs
  unfolding resolve_all
  length-resolve_all t j [] = refl
  length-resolve_all t j (r ∷ rs) = ap suc (length-resolve_all t (suc j) rs)

  -- Resolution counts every declared relationship, drops none, and reports exactly one error for
  -- each that is left unresolved.
  pub resolve_relationships_reports :
      (ts : List Table)
      → let (resolved, diags, n) = resolve_relationships sha1 reg ts in
        (n ≡ declared ts)
        × (declared resolved ≡ declared ts)
        × (count is_error diags ≡ declared_that is_unresolved resolved)
  unfolding resolve_relationships
  resolve_relationships_reports [] = (refl, refl, unfold count in refl)
  resolve_relationships_reports (t ∷ ts) = omega (
    arith,
    resolve_relationships_reports ts,
    length-resolve_all t 0 t.relationships,
    errors-resolve_all t 0 t.relationships,
    count-append is_error (resolve_all sha1 reg t 0 t.relationships).1
        (resolve_relationships sha1 reg ts).1,
  )
