-- ===== src/Graph/Drift.antt =====
-- backend/internal/graph/drift.go: one table name documented differently in different domains.
pub mod Columns
use urara_vision.Base.{
  ℕ, ◌-◌, Bool, true, false, Option, none, some, List, [], ◌∷◌, ◌++◌, ◌&&◌, not, length, take, keep,
  is_empty, ltb, leb, if◌then◌else◌,
}
use urara_vision.Base.Text.{Text, codes, ◌==◌, join}
use urara_vision.Base.Maps.{Map, get, get_or, keys}
use urara_vision.Base.Print.{itoa}
use urara_vision.Base.Sort.{sort_strings}
use urara_vision.Model.{Table, Severity, warning, Diagnostic}
use urara_vision.Graph.Orient.{column_set, has}
use urara_vision.Graph.Resolve.{pick_conformed}

unfoldable pub diff_columns : Map Bool → Map Bool → List Text × List Text
diff_columns base other = (
  sort_strings (keep (λ c. not (has c other)) (keys base)),
  sort_strings (keep (λ c. not (has c base)) (keys other)),
)

-- At most three names.
unfoldable pub preview : List Text → Text
preview v =
    if leb (length v) 3
    then join (codes ", ") v
    else join (codes ", ") (take 3 v) ++ codes ", +" ++ itoa (length v - 3) ++ codes " more"

unfoldable pub drift_part : Text → List Text → List Text
drift_part verb [] = []
drift_part verb (c ∷ cs) =
    (verb ++ codes " " ++ itoa (length (c ∷ cs)) ++ codes " (" ++ preview (c ∷ cs) ++ codes ")")
    ∷ []

unfoldable pub describe_drift : List Text → List Text → Text
describe_drift missing extra =
    join (codes ", ") (drift_part (codes "missing") missing ++ drift_part (codes "adds") extra)

unfoldable pub conformed_drift : Text → Table → Table → List Text → List Text → Diagnostic
conformed_drift id base t missing extra = record {
  severity = warning;
  code = codes "conformed_drift";
  message =
      id
      ++ codes " differs from the conformed definition in "
      ++ base.domain_id
      ++ codes ": "
      ++ describe_drift missing extra
      ++ codes ".";
  domain_id = t.domain_id;
  table_id = t.id;
  doc_path = t.doc_path;
}

-- What one other instance adds to the report.
unfoldable pub drift_of : Text → Table → Option Table → List Diagnostic
drift_of id base none = []
drift_of id base (some t) =
    let (missing, extra) = diff_columns (column_set base) (column_set t) in
    if is_empty missing && is_empty extra then [] else conformed_drift id base t missing extra ∷ []

unfoldable pub drift_against : Map Table → Text → Table → List Text → List Diagnostic
drift_against by_id authority base [] = []
drift_against by_id authority base (id ∷ ids) =
    (if id == authority then [] else drift_of id base (get id by_id))
    ++ drift_against by_id authority base ids

abbrev pub drift_from : Map Table → List Text → Text → Option Table → List Diagnostic
drift_from by_id ids authority none = []
drift_from by_id ids authority (some base) = drift_against by_id authority base ids

-- The instances of one name; there are two at least.
unfoldable pub drift_in : Map Table → List Text → List Diagnostic
drift_in by_id [] = []
drift_in by_id (c ∷ cs) =
    let authority = pick_conformed c cs by_id in
    drift_from by_id (c ∷ cs) authority (get authority by_id)

unfoldable pub shared_names : Map (List Text) → List Text
shared_names [] = []
shared_names ((n, ids) ∷ m) = if ltb 1 (length ids) then n ∷ shared_names m else shared_names m

unfoldable pub drift_all : Map (List Text) → Map Table → List Text → List Diagnostic
drift_all by_name by_id [] = []
drift_all by_name by_id (n ∷ ns) =
    drift_in by_id (get_or n by_name []) ++ drift_all by_name by_id ns

unfoldable pub detect_conformed_drift : Map (List Text) → Map Table → List Diagnostic
detect_conformed_drift by_name by_id = drift_all by_name by_id (sort_strings (shared_names by_name))
