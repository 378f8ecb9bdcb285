-- ===== src/Parser/Rows.antt =====
-- backend/internal/parser/mdtable.go: one row of a markdown table.
pub mod Laws
use urara_vision.Base.{ℕ, zero, suc, Bool, true, false, List, [], ◌∷◌, ◌++◌, nat_eq, if◌then◌else◌}
use urara_vision.Base.Text.{Text, trim_space}

-- strings.TrimPrefix(line, "|")
unfoldable pub trim_prefix : Text → Text
trim_prefix [] = []
trim_prefix (c ∷ s) = if nat_eq c b'|' then s else c ∷ s

-- strings.TrimSuffix(line, "|")
unfoldable pub trim_suffix : Text → Text
trim_suffix [] = []
trim_suffix (c ∷ []) = if nat_eq c b'|' then [] else c ∷ []
trim_suffix (c ∷ d ∷ s) = c ∷ trim_suffix (d ∷ s)

-- The loop over the line, from `escaped` and what is in the builder.
unfoldable pub split_cells : Bool → Text → Text → List Text
split_cells escaped cur [] = trim_space cur ∷ []
split_cells true cur (r ∷ s) = split_cells false (cur ++ r ∷ []) s
split_cells false cur (r ∷ s) =
    let after_escape = split_cells true cur s in
    let next_cell = trim_space cur ∷ split_cells false [] s in
    let longer_cell = split_cells false (cur ++ r ∷ []) s in
    if nat_eq r 92 then after_escape else if nat_eq r b'|' then next_cell else longer_cell

unfoldable pub split_row : Text → List Text
split_row line = split_cells false [] (trim_suffix (trim_prefix (trim_space line)))

-- Column i of a row, or nothing when the row is short.
unfoldable pub cell : List Text → ℕ → Text
cell [] i = []
cell (c ∷ row) zero = c
cell (c ∷ row) (suc i) = cell row i
