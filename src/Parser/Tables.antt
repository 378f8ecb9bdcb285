-- ===== src/Parser/Tables.antt =====
-- backend/internal/parser/mdtable.go: the tables in a block of text. A divider line is matched piece by
-- piece, between its pipes, which is what its regular expression says.
pub mod Laws
use urara_vision.Base.{
  ℕ, Bool, true, false, not, Option, none, some, List, [], ◌∷◌, ◌++◌, ◌&&◌, ◌||◌, nat_eq, is_empty,
  if◌then◌else◌,
}
use urara_vision.Base.Text.{Text, codes, has_prefix, trim_space}
use urara_vision.Parser.Rows.{split_row}

pub record MdTable : Type 0 where
  pub header : List Text
  pub rows : List (List Text)

-- A byte before the first of the pieces.
abbrev grow_first : ℕ → List Text → List Text
grow_first c [] = (c ∷ []) ∷ []
grow_first c (p ∷ ps) = (c ∷ p) ∷ ps

-- strings.Split on a separator of one byte
unfoldable pub split_on : ℕ → Text → List Text
split_on sep [] = [] ∷ []
split_on sep (c ∷ s) =
    let rest = split_on sep s in if nat_eq c sep then [] ∷ rest else grow_first c rest

-- \s
abbrev re_space : ℕ → Bool
re_space c = nat_eq c 32 || nat_eq c 9 || nat_eq c 10 || nat_eq c 12 || nat_eq c 13

unfoldable pub all_blank : Text → Bool
all_blank [] = true
all_blank (c ∷ s) = re_space c && all_blank s

-- What may follow two dashes: -*:?\s*
unfoldable pub dashes_end : Text → Bool
unfolding all_blank
dashes_end [] = true
dashes_end (c ∷ s) =
    let more = dashes_end s in
    if nat_eq c b'-' then more else if nat_eq c b':' then all_blank s else all_blank (c ∷ s)

abbrev two_dashes : Text → Bool
two_dashes (c ∷ d ∷ s) = nat_eq c b'-' && nat_eq d b'-' && dashes_end s
two_dashes s = false

-- \s*:?-{2,}:?\s*
unfoldable pub divider_cell : Text → Bool
unfolding dashes_end
divider_cell [] = false
divider_cell (c ∷ s) =
    let later = divider_cell s in
    if re_space c then later else if nat_eq c b':' then two_dashes s else two_dashes (c ∷ s)

-- The pieces after the first: the last may be what follows the closing pipe.
unfoldable pub divider_rest : List Text → Bool
unfolding divider_cell all_blank
divider_rest [] = true
divider_rest (p ∷ []) = divider_cell p || all_blank p
divider_rest (p ∷ q ∷ ps) = divider_cell p && divider_rest (q ∷ ps)

abbrev divider_cells : List Text → Bool
divider_cells [] = false
divider_cells (p ∷ ps) = divider_cell p && divider_rest ps

-- dividerRe
unfoldable pub is_divider : List Text → Bool
unfolding divider_rest divider_cell all_blank
is_divider [] = false
is_divider (p ∷ ps) = if all_blank p then divider_cells ps else divider_cells (p ∷ ps)

unfoldable pub flush : Option MdTable → List MdTable → List MdTable
flush none tables = tables
flush (some t) tables = if is_empty t.header then tables else tables ++ t ∷ []

unfoldable pub add_row : List Text → Option MdTable → Option MdTable
add_row cells none = some (record { header = cells; rows = [] })
add_row cells (some t) = some (record { header = t.header; rows = t.rows ++ cells ∷ [] })

-- The loop over the lines, from the tables read and the one being read.
unfoldable pub read_lines : List MdTable → Option MdTable → List Text → List MdTable
unfolding flush add_row is_divider split_on
read_lines tables cur [] = flush cur tables
read_lines tables cur (line ∷ ls) =
    let trimmed = trim_space line in
    let after_table = read_lines (flush cur tables) none ls in
    let after_divider = read_lines tables cur ls in
    let after_row = read_lines tables (add_row (split_row trimmed) cur) ls in
    if not (has_prefix trimmed (codes "|"))
    then after_table
    else if is_divider (split_on b'|' trimmed)
    then after_divider
    else after_row

-- parseTables
unfoldable pub parse_tables : Text → List MdTable
unfolding read_lines split_on
parse_tables body = read_lines [] none (split_on 10 body)
