-- ===== src/Examples/Parser.antt =====
-- A row of a markdown table with an escaped pipe in a cell, and two tables with prose between them.
use urara_vision.Base.{ℕ, ◌≡◌, refl, [], ◌∷◌, ◌++◌, map, keep, length}
use urara_vision.Base.Text.{Text, codes, trim_space}
use urara_vision.Parser.Rows.{split_row}
use urara_vision.Parser.Rows.Laws.{row_text, split_row-row_text}
use urara_vision.Parser.Tables.{split_on, parse_tables}
use urara_vision.Parser.Tables.Laws.{all_rows, is_row, row_cells, parse_tables_lem}

split_row-row_text_example :
    split_row (row_text (codes " order_id ") (codes " a|b " ∷ codes " many to one " ∷ []))
    ≡ map trim_space (codes " order_id " ∷ codes " a|b " ∷ codes " many to one " ∷ [])
split_row-row_text_example =
    split_row-row_text (codes " order_id ") (codes " a|b " ∷ codes " many to one " ∷ [])

-- A table of a header, a divider and a row, a line of prose, and a table without a divider.
abbrev two_tables : Text
two_tables =
    codes "| Column | Type |"
    ++ 10 ∷ codes "|:---|--:|"
    ++ 10 ∷ codes "| `id` | INT |"
    ++ 10 ∷ codes "Notes."
    ++ 10 ∷ codes "| Key |"
    ++ 10 ∷ codes "| a |"

two_tables_read : length (parse_tables two_tables) ≡ 2
unfolding parse_tables urara_vision.Base.Text.has_prefix trim_space split_row
    urara_vision.Parser.Rows.split_cells urara_vision.Parser.Rows.trim_suffix
    urara_vision.Parser.Rows.trim_prefix
two_tables_read = refl

two_tables_rows :
    all_rows (parse_tables two_tables)
    ≡ (codes "Column" ∷ codes "Type" ∷ [])
      ∷ (codes "`id`" ∷ codes "INT" ∷ [])
      ∷ (codes "Key" ∷ [])
      ∷ (codes "a" ∷ [])
      ∷ []
unfolding parse_tables urara_vision.Base.Text.has_prefix trim_space split_row
    urara_vision.Parser.Rows.split_cells urara_vision.Parser.Rows.trim_suffix
    urara_vision.Parser.Rows.trim_prefix
two_tables_rows = refl

parse_tables_lem_example :
    all_rows (parse_tables two_tables) ≡ map row_cells (keep is_row (split_on 10 two_tables))
parse_tables_lem_example = parse_tables_lem two_tables
