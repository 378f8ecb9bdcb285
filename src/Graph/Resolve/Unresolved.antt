-- ===== src/Graph/Resolve/Unresolved.antt =====
-- backend/internal/graph/resolve.go: which errors are reported, by the relationships that are left
-- unresolved.
use mathlib.Core.List.{append-nil}
use urara_vision.Base.{
  ℕ, suc, ◌+◌, ◌≡◌, refl, sym, ap, ◌∙◌, inl, inr, Bool, true, false, Option, none, some, List, [],
  ◌∷◌, ◌++◌, arith, Bool-cases, if◌then◌else◌, count, count-append,
}
use urara_vision.Base.Text.{Text, codes}
use urara_vision.Base.Print.{quote}
use urara_vision.Base.Maps.{get}
use urara_vision.Model.{Table, Relationship, Diagnostic, error}
use urara_vision.Graph.Registry.{Registry}
use urara_vision.Graph.Orient.{orient_relationship, about}
use urara_vision.Graph.Resolve.{
  is_identifier, resolve_elsewhere, resolve_identifier, resolve_one, resolve_all,
  resolve_relationships, pick_conformed, unresolved_reference, cross_domain_reference,
  narrative_reference,
}
use urara_vision.Graph.Resolve.Reports.{
  is_error, is_unresolved, errors-oriented, resolution-orient_relationship,
}

-- The error that a table is to be given for a relationship.
abbrev pub no_such_table : Table → Relationship → Diagnostic
no_such_table t r = record {
  severity = error;
  code = codes "unresolved_reference";
  message =
      t.name
      ++ codes " declares a relationship to "
      ++ quote r.target_ref
      ++ codes " but no document defines that table.";
  domain_id = t.domain_id;
  table_id = t.id;
  doc_path = t.doc_path;
}

-- One for each relationship of the tables that is unresolved.
abbrev pub expected : Table → List Relationship → List Diagnostic
expected t [] = []
expected t (r ∷ rs) = if is_unresolved r then no_such_table t r ∷ expected t rs else expected t rs

abbrev pub expected_in : List Table → List Diagnostic
expected_in [] = []
expected_in (t ∷ ts) = expected t t.relationships ++ expected_in ts

-- A test that only errors satisfy.
module _ (p : Diagnostic → Bool) (only : (d : Diagnostic) → p d ≡ true → is_error d ≡ true) where
  pub none_satisfies : (ds : List Diagnostic) → count is_error ds ≡ 0 → count p ds ≡ 0
  unfolding count
  none_satisfies [] h = refl
  none_satisfies (d ∷ ds) h = ground (arith, none_satisfies ds, only d)

  abbrev Fits : Table → Relationship × List Diagnostic → Type 0
  Fits t out = count p out.1 ≡ count p (expected t (out.0 ∷ []))

  oriented-Fits :
      (r : Relationship) (t : Table) (other : Option Table) (ds : List Diagnostic)
      → is_unresolved r ≡ false
      → count is_error ds ≡ 0
      → Fits t ((orient_relationship r t other).0, (orient_relationship r t other).1 ++ ds)
  oriented-Fits r t other ds h e =
      let bound : is_unresolved (orient_relationship r t other).0 ≡ false =
        ground (arith, resolution-orient_relationship r t other) in
      none_satisfies _ (errors-oriented r t other ds h e ∙ rw bound refl)
      ∙ rw bound (unfold count in refl)

  elsewhere-Fits :
      (reg : Registry) (t : Table) (r : Relationship) (l : List Text)
      → Fits t (resolve_elsewhere reg t r l)
  unfolding resolve_elsewhere unresolved_reference cross_domain_reference about count
  elsewhere-Fits reg t r [] = refl
  elsewhere-Fits reg t r (c ∷ cs) =
      oriented-Fits _ t (get (pick_conformed c cs reg.by_id) reg.by_id) _ refl refl

  identifier-Fits :
      (reg : Registry) (t : Table) (r : Relationship) (o : Option Table)
      → Fits t (resolve_identifier reg t r o)
  unfolding resolve_identifier
  identifier-Fits reg t r none = elsewhere-Fits reg t r _
  identifier-Fits reg t r (some u) =
      ap (count p) (sym (append-nil _)) ∙ oriented-Fits _ t (some u) [] refl (unfold count in refl)

  module _ (sha1 : Text → List ℕ) (reg : Registry) where
    one-Fits : (t : Table) (j : ℕ) (r : Relationship) → Fits t (resolve_one sha1 reg t j r)
    unfolding resolve_one narrative_reference about count
    one-Fits t j r = elim (Bool-cases (is_identifier r.target_ref)) [
      | inl e ↦ rw e (identifier-Fits reg t _ _)
      | inr e ↦ rw e (none_satisfies (_ ∷ []) refl)
    ]

    all-Fits :
        (t : Table) (j : ℕ) (rs : List Relationship)
        → count p (resolve_all sha1 reg t j rs).1
          ≡ count p (expected t (resolve_all sha1 reg t j rs).0)
    unfolding resolve_all
    all-Fits t j [] = refl
    all-Fits t j (r ∷ rs) =
        let out = resolve_one sha1 reg t j r in
        let rest = resolve_all sha1 reg t (suc j) rs in
        count-append p out.1 rest.1
        ∙ ap (λ n. n + count p rest.1) (one-Fits t j r)
        ∙ ap (λ n. count p (expected t (out.0 ∷ [])) + n) (all-Fits t (suc j) rs)
        ∙ sym (one_more t out.0 rest.0)
      where
        one_more :
            (t : Table) (r : Relationship) (rs : List Relationship)
            → count p (expected t (r ∷ rs))
              ≡ count p (expected t (r ∷ [])) + count p (expected t rs)
        one_more t r rs = elim (Bool-cases (is_unresolved r)) [
          | inl e ↦ rw e (count-append p (no_such_table t r ∷ []) (expected t rs))
          | inr e ↦ rw e (unfold count in omega arith)
        ]

    -- What satisfies the test is reported once for each relationship whose error satisfies it.
    pub resolve_relationships_expected :
        (ts : List Table)
        → let (resolved, diags, n) = resolve_relationships sha1 reg ts in
          count p diags ≡ count p (expected_in resolved)
    unfolding resolve_relationships
    resolve_relationships_expected [] = refl
    resolve_relationships_expected (t ∷ ts) =
        let one = resolve_all sha1 reg t 0 t.relationships in
        let rest = resolve_relationships sha1 reg ts in
        count-append p one.1 rest.1
        ∙ ap (λ n. n + count p rest.1) (all-Fits t 0 t.relationships)
        ∙ ap (λ n. count p (expected t one.0) + n) (resolve_relationships_expected ts)
        ∙ sym (count-append p (expected t one.0) (expected_in rest.0))
