-- ===== src/Graph/Ids/Order.antt =====
-- backend/internal/graph/ids.go: sortDiagnostics puts the worst first and loses nothing.
use urara_vision.Base.{◌≤◌, ◌≡◌, false, List, [], ◌∷◌, Perm, All, arith, ltb, nat_eq}
use urara_vision.Base.Text.{◌==◌, text_lt}
use urara_vision.Base.Sort.{
  IsOrder, IsSortedBy, sort_by, sort_by-IsSortedBy, sort_by-perm, lex-IsOrder, IsOrder-pull,
  ltb-IsOrder, nat_eq-eq, ==-eq, text_lt-IsOrder,
}
use urara_vision.Model.{Diagnostic}
use urara_vision.Graph.Ids.{severity_rank, diagnostic_less, sort_diagnostics}

-- The comparison of two diagnostics is a strict weak order.
pub diagnostic_less-IsOrder : IsOrder diagnostic_less
unfolding diagnostic_less
diagnostic_less-IsOrder =
    lex-IsOrder (λ a b. nat_eq (severity_rank a.severity) (severity_rank b.severity))
      (λ a b. ltb (severity_rank a.severity) (severity_rank b.severity)) _
      (λ a b. nat_eq-eq (severity_rank a.severity) (severity_rank b.severity))
      (IsOrder-pull (λ (d : Diagnostic). severity_rank d.severity) ltb-IsOrder)
      (lex-IsOrder (λ a b. a.code == b.code) (λ a b. text_lt a.code b.code) _
        (λ a b. ==-eq a.code b.code) (IsOrder-pull (λ (d : Diagnostic). d.code) text_lt-IsOrder)
        (IsOrder-pull (λ (d : Diagnostic). d.message) text_lt-IsOrder))

rank_le :
    (d e : Diagnostic)
    → diagnostic_less e d ≡ false
    → severity_rank d.severity ≤ severity_rank e.severity
unfolding diagnostic_less
rank_le d e h = ground arith

-- The severities never get worse along the list.
abbrev pub IsWorstFirst : List Diagnostic → Type 0
IsWorstFirst [] = Unit
IsWorstFirst (d ∷ ds) =
    All (λ e. severity_rank d.severity ≤ severity_rank e.severity) ds × IsWorstFirst ds

not_less-rank :
    (d : Diagnostic) (ds : List Diagnostic)
    → All (λ e. diagnostic_less e d ≡ false) ds
    → All (λ e. severity_rank d.severity ≤ severity_rank e.severity) ds
not_less-rank d [] h = tt
not_less-rank d (e ∷ es) h = (rank_le d e h.0, not_less-rank d es h.1)

IsSortedBy-IsWorstFirst : (ds : List Diagnostic) → IsSortedBy diagnostic_less ds → IsWorstFirst ds
IsSortedBy-IsWorstFirst [] h = tt
IsSortedBy-IsWorstFirst (d ∷ ds) h = (not_less-rank d ds h.0, IsSortedBy-IsWorstFirst ds h.1)

-- Sorting the diagnostics keeps every one of them as often as it was found, and puts errors before
-- warnings and warnings before the rest.
pub sort_diagnostics_lem :
    (ds : List Diagnostic) → Perm (sort_diagnostics ds) ds × IsWorstFirst (sort_diagnostics ds)
unfolding sort_diagnostics
sort_diagnostics_lem ds = (
  sort_by-perm diagnostic_less ds,
  IsSortedBy-IsWorstFirst (sort_by diagnostic_less ds)
      (sort_by-IsSortedBy diagnostic_less-IsOrder ds),
)
