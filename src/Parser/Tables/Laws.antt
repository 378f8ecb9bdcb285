-- ===== src/Parser/Tables/Laws.antt =====
-- backend/internal/parser/mdtable.go: what parseTables keeps of a block of text.
use mathlib.Core.List.{append_assoc, append-nil}
use urara_vision.Base.{
  ◌≡◌, refl, sym, ap, ◌∙◌, inl, inr, Bool, true, false, not, Option, none, some, List, [], ◌∷◌,
  ◌++◌, ◌&&◌, arith, map, keep, Bool-cases, is_empty,
}
use urara_vision.Base.Text.{Text, codes, has_prefix, trim_space}
use urara_vision.Parser.Rows.{split_row, split_cells, trim_prefix, trim_suffix}
use urara_vision.Parser.Tables.{
  MdTable, split_on, is_divider, flush, add_row, read_lines, parse_tables,
}

-- A line of a table that is no divider.
abbrev pub is_row : Text → Bool
is_row line =
    has_prefix (trim_space line) (codes "|") && not (is_divider (split_on b'|' (trim_space line)))

abbrev pub row_cells : Text → List Text
row_cells line = split_row (trim_space line)

-- The headers and rows of tables, in order.
abbrev pub all_rows : List MdTable → List (List Text)
all_rows [] = []
all_rows (t ∷ ts) = (t.header ∷ t.rows) ++ all_rows ts

abbrev open_rows : Option MdTable → List (List Text)
open_rows none = []
open_rows (some t) = t.header ∷ t.rows

abbrev headed : Option MdTable → Bool
headed none = true
headed (some t) = not (is_empty t.header)

all_rows-append : (ts us : List MdTable) → all_rows (ts ++ us) ≡ all_rows ts ++ all_rows us
all_rows-append [] us = refl
all_rows-append (t ∷ ts) us =
    ap (λ l. (t.header ∷ t.rows) ++ l) (all_rows-append ts us)
    ∙ sym (append_assoc (t.header ∷ t.rows) (all_rows ts) (all_rows us))

split_cells-headed : (e : Bool) (cur s : Text) → is_empty (split_cells e cur s) ≡ false
unfolding split_cells
split_cells-headed e cur [] = refl
split_cells-headed true cur (c ∷ s) = split_cells-headed false (cur ++ c ∷ []) s
split_cells-headed false cur (c ∷ s) =
    ground (arith, split_cells-headed true cur s, split_cells-headed false (cur ++ c ∷ []) s)

headed-add_row :
    (line : Text) (cur : Option MdTable)
    → headed cur ≡ true
    → headed (add_row (row_cells line) cur) ≡ true
unfolding add_row split_row
headed-add_row line none h =
    ap not (split_cells-headed false [] (trim_suffix (trim_prefix (trim_space (trim_space line)))))
headed-add_row line (some t) h = h

all_rows-flush :
    (cur : Option MdTable) (tables : List MdTable)
    → headed cur ≡ true
    → all_rows (flush cur tables) ≡ all_rows tables ++ open_rows cur
unfolding flush
all_rows-flush none tables h = sym (append-nil (all_rows tables))
all_rows-flush (some t) tables h = elim (Bool-cases (is_empty t.header)) [
  | inl e ↦ ground arith
  | inr e ↦ rw e (
      all_rows-append tables (t ∷ [])
      ∙ ap (λ l. all_rows tables ++ l) (append-nil (t.header ∷ t.rows)))
]

open_rows-add_row :
    (cells : List Text) (cur : Option MdTable)
    → open_rows (add_row cells cur) ≡ open_rows cur ++ cells ∷ []
unfolding add_row
open_rows-add_row cells none = refl
open_rows-add_row cells (some t) = refl

row_kept :
    (before : List (List Text)) (cells : List Text) (cur : Option MdTable)
    (after : List (List Text))
    → (before ++ open_rows (add_row cells cur)) ++ after
      ≡ (before ++ open_rows cur) ++ cells ∷ after
row_kept before cells cur after =
    ap (λ l. (before ++ l) ++ after) (open_rows-add_row cells cur)
    ∙ ap (λ l. l ++ after) (sym (append_assoc before (open_rows cur) (cells ∷ [])))
    ∙ append_assoc (before ++ open_rows cur) (cells ∷ []) after

all_rows-read_lines :
    (tables : List MdTable) (cur : Option MdTable) (ls : List Text)
    → headed cur ≡ true
    → all_rows (read_lines tables cur ls)
      ≡ (all_rows tables ++ open_rows cur) ++ map row_cells (keep is_row ls)
unfolding read_lines keep
all_rows-read_lines tables cur [] h =
    all_rows-flush cur tables h ∙ sym (append-nil (all_rows tables ++ open_rows cur))
all_rows-read_lines tables cur (line ∷ ls) h =
    elim (Bool-cases (has_prefix (trim_space line) (codes "|"))) [
      | inr e ↦ rw e (
          all_rows-read_lines (flush cur tables) none ls refl
          ∙ ap (λ l. l ++ map row_cells (keep is_row ls))
              (append-nil (all_rows (flush cur tables)) ∙ all_rows-flush cur tables h))
      | inl e ↦ elim (Bool-cases (is_divider (split_on b'|' (trim_space line)))) [
        | inl d ↦ rw (e, d) (all_rows-read_lines tables cur ls h)
        | inr d ↦
            rw (e, d)
              (all_rows-read_lines tables (add_row (row_cells line) cur) ls
                  (headed-add_row line cur h)
                ∙ row_kept (all_rows tables) (row_cells line) cur (map row_cells (keep is_row ls)))
      ]
    ]

-- The tables of a block of text have among them, in their order, the cells of every line that starts
-- with a pipe and is no divider: none is lost, repeated or made up, headers included.
pub parse_tables_lem :
    (body : Text) → all_rows (parse_tables body) ≡ map row_cells (keep is_row (split_on 10 body))
unfolding parse_tables
parse_tables_lem body = all_rows-read_lines [] none (split_on 10 body) refl
