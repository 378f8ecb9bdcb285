-- ===== src/Graph/Build/Errors.antt =====
-- backend/internal/graph/build.go: which stages report errors.
use urara_vision.Base.{
  ℕ, ◌+◌, ◌≡◌, refl, ◌∙◌, inl, inr, Bool, false, Option, none, some, List, [], ◌∷◌, ◌++◌, map,
  arith, Bool-cases, if◌then◌else◌, count, count-append,
}
use urara_vision.Base.Text.{Text}
use urara_vision.Base.Maps.{Map, get, get_or}
use urara_vision.Model.{Table, Domain, Diagnostic, Model}
use urara_vision.Graph.Orient.{about}
use urara_vision.Graph.Resolve.{pick_conformed}
use urara_vision.Graph.Resolve.Reports.{is_error}
use urara_vision.Graph.Sources.{
  undocumented_all, undocumented_lineage, report_undocumented, collect_sources,
}
use urara_vision.Graph.Domains.{
  count_domains, count_domain_tables, empty_domain, flag_isolated_tables, isolated,
}
use urara_vision.Graph.Drift.{
  drift_of, drift_against, drift_from, drift_in, drift_all, detect_conformed_drift, conformed_drift,
}
use urara_vision.I18n.{Field, Splitter, split}
use urara_vision.I18n.Prose.{
  Site, check_sites, check, field_diagnostics, duplicate_tag, missing_primary, is_skipped,
}

abbrev pub errors : List Diagnostic → ℕ
errors ds = count is_error ds

pub errors-append : (ds es : List Diagnostic) → errors (ds ++ es) ≡ errors ds + errors es
errors-append ds es = count-append is_error ds es

errors-report_undocumented :
    (o : Option Table) (n : ℕ) (ds : List Diagnostic)
    → errors (report_undocumented o n ds) ≡ errors ds
unfolding undocumented_lineage about count
errors-report_undocumented none n ds = refl
errors-report_undocumented (some t) n ds = omega arith

errors-undocumented_all : (by_id : Map Table) (m : Map ℕ) → errors (undocumented_all by_id m) ≡ 0
unfolding undocumented_all count
errors-undocumented_all by_id [] = refl
errors-undocumented_all by_id ((id, n) ∷ m) =
    errors-report_undocumented (get id by_id) n (undocumented_all by_id m)
    ∙ errors-undocumented_all by_id m

pub errors-collect_sources :
    (by_id : Map Table) (ts : List Table) → errors (collect_sources by_id ts).diagnostics ≡ 0
unfolding collect_sources
errors-collect_sources by_id ts = errors-undocumented_all by_id _

errors-count_domains :
    (m : Map ℕ) (sid : Text) (ds : List Domain) → errors (count_domains m sid ds).1 ≡ 0
unfolding count_domains count empty_domain
errors-count_domains m sid [] = refl
errors-count_domains m sid (d ∷ ds) = ground (arith, errors-count_domains m sid ds)

pub errors-count_domain_tables :
    (ts : List Table) (ds : List Domain) (sid : Text) → errors (count_domain_tables ts ds sid).1 ≡ 0
unfolding count_domain_tables
errors-count_domain_tables ts ds sid = errors-count_domains _ sid ds

pub errors-flag_isolated_tables : (ts : List Table) → errors (flag_isolated_tables ts) ≡ 0
unfolding flag_isolated_tables count isolated about
errors-flag_isolated_tables [] = refl
errors-flag_isolated_tables (t ∷ ts) = ground (arith, errors-flag_isolated_tables ts)

errors-drift_of : (id : Text) (base : Table) (o : Option Table) → errors (drift_of id base o) ≡ 0
unfolding drift_of count conformed_drift
errors-drift_of id base none = refl
errors-drift_of id base (some t) = ground arith

errors-drift_against :
    (by_id : Map Table) (authority : Text) (base : Table) (cs : List Text)
    → errors (drift_against by_id authority base cs) ≡ 0
unfolding drift_against count
errors-drift_against by_id authority base [] = refl
errors-drift_against by_id authority base (id ∷ cs) = ground (
  arith,
  errors-drift_against by_id authority base cs,
  errors-drift_of id base (get id by_id),
  errors-append (drift_of id base (get id by_id)) (drift_against by_id authority base cs),
)

errors-drift_from :
    (by_id : Map Table) (ids : List Text) (authority : Text) (o : Option Table)
    → errors (drift_from by_id ids authority o) ≡ 0
unfolding count
errors-drift_from by_id cs authority none = refl
errors-drift_from by_id cs authority (some base) = errors-drift_against by_id authority base cs

errors-drift_in : (by_id : Map Table) (cs : List Text) → errors (drift_in by_id cs) ≡ 0
unfolding drift_in count
errors-drift_in by_id [] = refl
errors-drift_in by_id (c ∷ cs) =
    errors-drift_from by_id (c ∷ cs) _ (get (pick_conformed c cs by_id) by_id)

errors-drift_all :
    (by_name : Map (List Text)) (by_id : Map Table) (ns : List Text)
    → errors (drift_all by_name by_id ns) ≡ 0
unfolding drift_all count
errors-drift_all by_name by_id [] = refl
errors-drift_all by_name by_id (n ∷ ns) = omega (
  arith,
  errors-append (drift_in by_id (get_or n by_name [])) (drift_all by_name by_id ns),
  errors-drift_in by_id (get_or n by_name []),
  errors-drift_all by_name by_id ns,
)

pub errors-detect_conformed_drift :
    (by_name : Map (List Text)) (by_id : Map Table)
    → errors (detect_conformed_drift by_name by_id) ≡ 0
unfolding detect_conformed_drift
errors-detect_conformed_drift by_name by_id = errors-drift_all by_name by_id _

errors-duplicates : (s : Site) (ls : List Text) → errors (map (duplicate_tag s) ls) ≡ 0
unfolding count duplicate_tag
errors-duplicates s [] = refl
errors-duplicates s (l ∷ ls) = omega (arith, errors-duplicates s ls)

errors-one_more :
    (ds : List Diagnostic) (b : Bool) (d : Diagnostic)
    → errors ds ≡ 0
    → is_error d ≡ false
    → errors (ds ++ (if b then d ∷ [] else [])) ≡ 0
unfolding count
errors-one_more ds b d e n = ground (arith, errors-append ds [], errors-append ds (d ∷ []))

errors-field_diagnostics : (s : Site) (f : Field) → errors (field_diagnostics s f) ≡ 0
unfolding field_diagnostics missing_primary
errors-field_diagnostics s f = errors-one_more _ _ _ (errors-duplicates s f.duplicated) refl

errors-check_sites : (sp : Splitter) (ss : List Site) → errors (check_sites sp ss).diagnostics ≡ 0
unfolding check_sites count
errors-check_sites sp [] = refl
errors-check_sites sp (s ∷ ss) = elim (Bool-cases (is_skipped sp s)) [
  | inl e ↦ rw e (errors-check_sites sp ss)
  | inr e ↦ rw e (
      omega (
        arith,
        errors-append (field_diagnostics s (split sp s.text)) (check_sites sp ss).diagnostics,
        errors-field_diagnostics s (split sp s.text),
        errors-check_sites sp ss,
      ))
]

pub errors-check : (m : Model) → errors (check m).diagnostics ≡ 0
unfolding check
errors-check m = errors-check_sites _ _

-- Five lists in which nothing is counted, after two.
pub counts-stages :
    (p : Diagnostic → Bool) (a b c d e f g : List Diagnostic)
    → count p c ≡ 0
    → count p d ≡ 0
    → count p e ≡ 0
    → count p f ≡ 0
    → count p g ≡ 0
    → count p (a ++ b ++ c ++ d ++ e ++ f ++ g) ≡ count p a + count p b
counts-stages p a b c d e f g c0 d0 e0 f0 g0 =
    quiet (a ++ b ++ c ++ d ++ e ++ f) g g0
    ∙ quiet (a ++ b ++ c ++ d ++ e) f f0
    ∙ quiet (a ++ b ++ c ++ d) e e0
    ∙ quiet (a ++ b ++ c) d d0
    ∙ quiet (a ++ b) c c0
    ∙ count-append p a b
  where
    quiet : (ds es : List Diagnostic) → count p es ≡ 0 → count p (ds ++ es) ≡ count p ds
    quiet ds es e = omega (arith, count-append p ds es)
