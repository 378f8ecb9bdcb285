-- ===== src/Graph/Domains.antt =====
-- backend/internal/graph/domains.go: how many tables a domain documents, and isolated tables.
pub mod Laws
use urara_vision.Base.{
  ℕ, suc, ◌+◌, Bool, true, false, List, [], ◌∷◌, ◌++◌, ◌||◌, not, ◌&&◌, nat_eq, count,
  if◌then◌else◌,
}
use urara_vision.Base.Text.{Text, codes, ◌==◌}
use urara_vision.Base.Maps.{Map, get_or, put}
use urara_vision.Model.{Domain, Table, Relationship, Diagnostic, Severity, warning}
use urara_vision.Model.Roles.{Role, role_of, kind_fact, kind_factless}
use urara_vision.Graph.Orient.{about}

unfoldable pub count_by_domain : List Table → Map ℕ → Map ℕ
count_by_domain [] m = m
count_by_domain (t ∷ ts) m = count_by_domain ts (put t.domain_id (suc (get_or t.domain_id m 0)) m)

unfoldable pub empty_domain : Domain → Diagnostic
empty_domain d = record {
  severity = warning;
  code = codes "empty_domain";
  message = codes "Domain index exists but no table documents were found in its directory.";
  domain_id = d.id;
  table_id = [];
  doc_path = d.doc_path;
}

abbrev pub with_count : Text → ℕ → Domain → Domain
with_count snapshot_id n d = record d { snapshot_id = snapshot_id; table_count = n }

-- The second loop: the domains with their counts, and the diagnostics that are appended.
unfoldable pub count_domains : Map ℕ → Text → List Domain → List Domain × List Diagnostic
count_domains counts snapshot_id [] = ([], [])
count_domains counts snapshot_id (d ∷ ds) =
    let n = get_or d.id counts 0 in
    let (rest, diags) = count_domains counts snapshot_id ds in
    (with_count snapshot_id n d ∷ rest, if nat_eq n 0 then empty_domain d ∷ diags else diags)

unfoldable pub count_domain_tables : List Table → List Domain → Text → List Domain × List Diagnostic
count_domain_tables ts ds snapshot_id = count_domains (count_by_domain ts []) snapshot_id ds

unfoldable pub isolation_code : Text → Text
isolation_code k =
    if k == kind_fact || k == kind_factless then codes "isolated_fact" else codes "isolated_table"

unfoldable pub isolated : Table → Diagnostic
isolated t =
    about warning (isolation_code t.kind)
      ((role_of t.kind).label ++ codes " table has no resolvable relationship to any other table.")
      t

abbrev pub is_linked : Relationship → Bool
is_linked r = not (r.to_table_id == [])

-- The table must join others and joins none.
unfoldable pub is_isolated : Table → Bool
is_isolated t = (role_of t.kind).connective && nat_eq (count is_linked t.relationships) 0

unfoldable pub flag_isolated_tables : List Table → List Diagnostic
unfolding is_isolated
flag_isolated_tables [] = []
flag_isolated_tables (t ∷ ts) =
    if is_isolated t then isolated t ∷ flag_isolated_tables ts else flag_isolated_tables ts
