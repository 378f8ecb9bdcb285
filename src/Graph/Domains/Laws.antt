-- ===== src/Graph/Domains/Laws.antt =====
-- backend/internal/graph/domains.go: the counts are right, and just the empty and the isolated are
-- reported.
use mathlib.Core.Path.{ap₂}
use urara_vision.Base.{
  count_zero, ℕ, suc, ◌+◌, ◌≡◌, refl, Bool, not, ◌&&◌, List, [], ◌∷◌, map, arith, count, keep,
  nat_eq, any,
}
use urara_vision.Base.Text.{Text, ◌==◌, ==_iff, elem}
use urara_vision.Base.Maps.{Map, get_or, put, get_or-put}
use urara_vision.Model.{Domain, Table}
use urara_vision.Model.Roles.{is_connective}
use urara_vision.Model.Roles.Laws.{connective_kinds, is_connective-eq-elem}
use urara_vision.Graph.Domains.{
  count_by_domain, count_domains, count_domain_tables, with_count, empty_domain, is_linked,
  is_isolated, isolated, flag_isolated_tables,
}

-- How many tables stand in a domain.
abbrev pub tables_in : List Table → Text → ℕ
tables_in ts d = count (λ (t : Table). t.domain_id == d) ts

get-count_by_domain :
    (d : Text) (ts : List Table) (m : Map ℕ)
    → get_or d (count_by_domain ts m) 0 ≡ get_or d m 0 + tables_in ts d
unfolding count_by_domain count
get-count_by_domain d [] m = omega arith
get-count_by_domain d (t ∷ ts) m = ground (
  arith,
  get-count_by_domain d ts (put t.domain_id (suc (get_or t.domain_id m 0)) m),
  get_or-put t.domain_id d (suc (get_or t.domain_id m 0)) 0 m,
  ==_iff t.domain_id d,
)

abbrev empty_in : List Table → Domain → Bool
empty_in ts d = nat_eq (tables_in ts d.id) 0

count_domains_lem :
    (ts : List Table) (m : Map ℕ) (sid : Text) (ds : List Domain)
    → ((d : Text) → get_or d m 0 ≡ tables_in ts d)
    → (count_domains m sid ds).0 ≡ map (λ d. with_count sid (tables_in ts d.id) d) ds
unfolding count_domains
count_domains_lem ts m sid [] h = refl
count_domains_lem ts m sid (d ∷ ds) h = cc (h d.id, count_domains_lem ts m sid ds h)

reports_lem :
    (ts : List Table) (m : Map ℕ) (sid : Text) (ds : List Domain)
    → ((d : Text) → get_or d m 0 ≡ tables_in ts d)
    → (count_domains m sid ds).1 ≡ map empty_domain (keep (λ d. nat_eq (tables_in ts d.id) 0) ds)
unfolding count_domains keep
reports_lem ts m sid [] h = refl
reports_lem ts m sid (d ∷ ds) h = ground (arith, h d.id, reports_lem ts m sid ds h)

get_or-count_by_domain :
    (ts : List Table) (d : Text) → get_or d (count_by_domain ts []) 0 ≡ tables_in ts d
unfolding get_or
get_or-count_by_domain ts d = omega (arith, get-count_by_domain d ts [])

-- Every domain is given the number of tables whose documents stand in it, and a warning is added
-- for each domain that has none, in order, and for no other.
pub count_domain_tables_lem :
    (ts : List Table) (ds : List Domain) (sid : Text)
    → let (domains, diags) = count_domain_tables ts ds sid in
      (domains ≡ map (λ d. with_count sid (tables_in ts d.id) d) ds)
      × (diags ≡ map empty_domain (keep (λ d. nat_eq (tables_in ts d.id) 0) ds))
unfolding count_domain_tables
count_domain_tables_lem ts ds sid =
    let counted = λ (d : Text). get_or-count_by_domain ts d in
    (count_domains_lem ts _ sid ds counted, reports_lem ts _ sid ds counted)

-- The kind is one of those that must join others, and no relationship is bound to a table.
abbrev pub joins_nothing : Table → Bool
joins_nothing t = elem t.kind connective_kinds && not (any is_linked t.relationships)

is_isolated-eq : (t : Table) → is_isolated t ≡ joins_nothing t
unfolding is_isolated is_connective
is_isolated-eq t = ap₂ ◌&&◌ (is_connective-eq-elem t.kind) (count_zero is_linked t.relationships)

-- Reported as isolated are, in the order of the tables, just those that are a fact, a factless
-- fact, a bridge, a link or an associative table and have no relationship that is bound to a table.
pub flag_isolated_tables_lem :
    (ts : List Table) → flag_isolated_tables ts ≡ map isolated (keep joins_nothing ts)
unfolding flag_isolated_tables keep
flag_isolated_tables_lem [] = refl
flag_isolated_tables_lem (t ∷ ts) = ground (arith, is_isolated-eq t, flag_isolated_tables_lem ts)
