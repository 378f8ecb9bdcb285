-- ===== src/Graph/Build/Joins.antt =====
-- backend/internal/graph/build.go: the stages after resolution leave every relationship alone.
use mathlib.Core.Path.{subst}
use mathlib.Core.List.{map}
use urara_vision.Base.{
  ℕ, ◌+◌, ◌≡◌, refl, sym, ap, ◌∙◌, inl, inr, Bool, List, [], ◌∷◌, ◌++◌, if◌then◌else◌, Bool-cases,
  length, count, All,
}
use urara_vision.Base.Text.{Text, codes}
use urara_vision.Base.Print.{quote}
use urara_vision.Base.Maps.{Map}
use urara_vision.Model.{Table, Relationship, Diagnostic, error}
use urara_vision.Graph.Registry.{Registry, stamp_all, new_registry, is_conformed, mark_conformed}
use urara_vision.Graph.Registry.Laws.{ids}
use urara_vision.Graph.Resolve.{resolve_relationships}
use urara_vision.Graph.Resolve.Bound.{AllRelationships}
use urara_vision.Graph.Resolve.Reports.{declared, declared_that, is_unresolved}
use urara_vision.Graph.Resolve.Unresolved.{expected, expected_in}
use urara_vision.Graph.Sources.{Tally, collect_tables, collect_sources}

-- What a stage keeps of a table when it writes no relationship: where it stands, what it is called
-- and what it declares.
pub record Joins : Type 0 where
  pub id : Text
  pub domain_id : Text
  pub name : Text
  pub doc_path : Text
  pub relationships : List Relationship

abbrev pub joins : Table → Joins
joins t = record {
  id = t.id;
  domain_id = t.domain_id;
  name = t.name;
  doc_path = t.doc_path;
  relationships = t.relationships;
}

joins-stamp_all : (sid : Text) (ts : List Table) → map joins (stamp_all sid ts) ≡ map joins ts
unfolding stamp_all
joins-stamp_all sid [] = refl
joins-stamp_all sid (t ∷ ts) = ap (λ js. joins t ∷ js) (joins-stamp_all sid ts)

joins-mark_conformed :
    (reg : Registry) (ts : List Table) → map joins (mark_conformed reg ts).0 ≡ map joins ts
unfolding mark_conformed
joins-mark_conformed reg [] = refl
joins-mark_conformed reg (t ∷ ts) = elim (Bool-cases (is_conformed reg t)) [
  | inl e ↦ rw e (ap (λ js. joins t ∷ js) (joins-mark_conformed reg ts))
  | inr e ↦ rw e (ap (λ js. joins t ∷ js) (joins-mark_conformed reg ts))
]

-- The tables that are resolved are the parsed ones, with other flags.
pub joins-marked :
    (sid : Text) (ts : List Table) (reg : Registry)
    → map joins (mark_conformed reg (new_registry ts sid).0).0 ≡ map joins ts
unfolding new_registry
joins-marked sid ts reg = joins-mark_conformed reg (stamp_all sid ts) ∙ joins-stamp_all sid ts

joins-collect_tables :
    (rewrite : Map Text) (ts : List Table) (st : Tally)
    → map joins (collect_tables rewrite ts st).0 ≡ map joins ts
unfolding collect_tables
joins-collect_tables rewrite [] st = refl
joins-collect_tables rewrite (t ∷ ts) st =
    ap (λ js. joins t ∷ js) (joins-collect_tables rewrite ts _)

pub joins-collect_sources :
    (by_id : Map Table) (ts : List Table)
    → map joins (collect_sources by_id ts).tables ≡ map joins ts
unfolding collect_sources
joins-collect_sources by_id ts = joins-collect_tables _ ts _

ids-joins : (ts : List Table) → ids ts ≡ map (λ j. j.id) (map joins ts)
ids-joins [] = refl
ids-joins (t ∷ ts) = ap (λ l. t.id ∷ l) (ids-joins ts)

-- Tables with the same joins are called the same, declare as much and have as much of a kind.
pub ids-eq : (ts us : List Table) → map joins ts ≡ map joins us → ids ts ≡ ids us
ids-eq ts us e = ids-joins ts ∙ ap (map (λ j. j.id)) e ∙ sym (ids-joins us)

total : (List Relationship → ℕ) → List Joins → ℕ
total f [] = 0
total f (j ∷ js) = f j.relationships + total f js

declared-joins : (ts : List Table) → declared ts ≡ total length (map joins ts)
unfolding total
declared-joins [] = refl
declared-joins (t ∷ ts) = ap (λ n. length t.relationships + n) (declared-joins ts)

pub declared-eq : (ts us : List Table) → map joins ts ≡ map joins us → declared ts ≡ declared us
declared-eq ts us e = declared-joins ts ∙ ap (total length) e ∙ sym (declared-joins us)

declared_that-joins :
    (p : Relationship → Bool) (ts : List Table)
    → declared_that p ts ≡ total (count p) (map joins ts)
unfolding total
declared_that-joins p [] = refl
declared_that-joins p (t ∷ ts) = ap (λ n. count p t.relationships + n) (declared_that-joins p ts)

pub declared_that-eq :
    (p : Relationship → Bool) (ts us : List Table)
    → map joins ts ≡ map joins us
    → declared_that p ts ≡ declared_that p us
declared_that-eq p ts us e =
    declared_that-joins p ts ∙ ap (total (count p)) e ∙ sym (declared_that-joins p us)

module _ (P : Text → Relationship → Type 0) where
  AllJoins : List Joins → Type 0
  AllJoins = All (λ j. All (P j.domain_id) j.relationships)

  to_joins :
      (ts : List Table) → AllRelationships (λ t r. P t.domain_id r) ts → AllJoins (map joins ts)
  unfolding AllJoins
  to_joins [] h = tt
  to_joins (t ∷ ts) (h, hs) = (h, to_joins ts hs)

  of_joins :
      (ts : List Table) → AllJoins (map joins ts) → AllRelationships (λ t r. P t.domain_id r) ts
  unfolding AllJoins
  of_joins [] h = tt
  of_joins (t ∷ ts) (h, hs) = (h, of_joins ts hs)

  pub AllRelationships-eq :
      (ts us : List Table)
      → map joins ts ≡ map joins us
      → AllRelationships (λ t r. P t.domain_id r) us
      → AllRelationships (λ t r. P t.domain_id r) ts
  AllRelationships-eq ts us e h = of_joins ts (subst AllJoins (sym e) (to_joins us h))

-- Resolution writes relationships, and no identifier.
pub ids-resolve_relationships :
    (sha1 : Text → List ℕ) (reg : Registry) (ts : List Table)
    → ids (resolve_relationships sha1 reg ts).0 ≡ ids ts
unfolding resolve_relationships
ids-resolve_relationships sha1 reg [] = refl
ids-resolve_relationships sha1 reg (t ∷ ts) =
    ap (λ l. t.id ∷ l) (ids-resolve_relationships sha1 reg ts)

-- The errors that are expected of a table are given by its joins.
expected_of : Joins → List Relationship → List Diagnostic
expected_of j [] = []
expected_of j (r ∷ rs) =
    if is_unresolved r
    then record {
      severity = error;
      code = codes "unresolved_reference";
      message =
          j.name
          ++ codes " declares a relationship to "
          ++ quote r.target_ref
          ++ codes " but no document defines that table.";
      domain_id = j.domain_id;
      table_id = j.id;
      doc_path = j.doc_path;
    }
      ∷ expected_of j rs
    else expected_of j rs

expected-joins : (t : Table) (rs : List Relationship) → expected t rs ≡ expected_of (joins t) rs
unfolding expected_of
expected-joins t [] = refl
expected-joins t (r ∷ rs) = rw (expected-joins t rs) refl

expected_all : List Joins → List Diagnostic
expected_all [] = []
expected_all (j ∷ js) = expected_of j j.relationships ++ expected_all js

expected_in-joins : (ts : List Table) → expected_in ts ≡ expected_all (map joins ts)
unfolding expected_all
expected_in-joins [] = refl
expected_in-joins (t ∷ ts) = rw (expected-joins t t.relationships, expected_in-joins ts) refl

pub expected_in-eq :
    (ts us : List Table) → map joins ts ≡ map joins us → expected_in ts ≡ expected_in us
expected_in-eq ts us e = expected_in-joins ts ∙ ap expected_all e ∙ sym (expected_in-joins us)
