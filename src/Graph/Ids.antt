-- ===== src/Graph/Ids.antt =====
-- backend/internal/graph/ids.go: stable identifiers and the order of diagnostics.
-- crypto/sha1 is the parameter `sha1`.
pub mod Order
use urara_vision.Base.{
  ℕ, ◌+◌, ◌-◌, ◌/◌, ◌%◌, Bool, List, [], ◌∷◌, ◌++◌, not, nat_eq, ltb, take, if◌then◌else◌,
}
use urara_vision.Base.Text.{Text, codes, ◌==◌, text_lt}
use urara_vision.Base.Print.{itoa, hex_digit}
use urara_vision.Base.Sort.{sort_by}
use urara_vision.Model.{Severity, error, warning, info, Diagnostic}

-- hex.EncodeToString
unfoldable pub hex : List ℕ → Text
hex [] = []
hex (b ∷ bs) = hex_digit (b / 16) ∷ hex_digit (b % 16) ∷ hex bs

module _ (sha1 : Text → List ℕ) where
  unfoldable pub edge_id : Text → Text → Text → Text → ℕ → Text
  edge_id from target from_col to_col ordinal = hex (
      take 8 (
        sha1 (
          from
          ++ codes "|"
          ++ target
          ++ codes "|"
          ++ from_col
          ++ codes "|"
          ++ to_col
          ++ codes "|"
          ++ itoa ordinal)))

unfoldable pub severity_rank : Severity → ℕ
severity_rank error = 0
severity_rank warning = 1
severity_rank info = 2

-- The "less" of sortDiagnostics.
unfoldable pub diagnostic_less : Diagnostic → Diagnostic → Bool
unfolding severity_rank
diagnostic_less a b =
    if not (nat_eq (severity_rank a.severity) (severity_rank b.severity))
    then ltb (severity_rank a.severity) (severity_rank b.severity)
    else if not (a.code == b.code)
    then text_lt a.code b.code
    else text_lt a.message b.message

unfoldable pub sort_diagnostics : List Diagnostic → List Diagnostic
unfolding diagnostic_less sort_by
sort_diagnostics = sort_by diagnostic_less
