-- ===== src/Parser/Rows/Laws.antt =====
-- backend/internal/parser/mdtable.go: reading back a row that was written with escapes.
use mathlib.Core.List.{append_assoc, append-nil}
use urara_vision.Base.{
  ◌≡◌, refl, sym, ap, ◌∙◌, inl, inr, false, ◌||◌, List, [], ◌∷◌, ◌++◌, map, arith, Bool-cases,
  nat_eq, if◌then◌else◌,
}
use urara_vision.Base.Text.{Text, trim_space, trim_left, trim_right}
use urara_vision.Parser.Rows.{trim_prefix, trim_suffix, split_cells, split_row}

-- A backslash before each pipe and each backslash.
abbrev pub escape : Text → Text
escape [] = []
escape (c ∷ s) = if nat_eq c 92 || nat_eq c b'|' then 92 ∷ c ∷ escape s else c ∷ escape s

-- The cells, each with a pipe after it.
abbrev pub cells_text : Text → List Text → Text
cells_text c [] = escape c ++ b'|' ∷ []
cells_text c (d ∷ ds) = escape c ++ b'|' ∷ cells_text d ds

-- A row of one cell or more, between pipes.
abbrev pub row_text : Text → List Text → Text
row_text c cs = b'|' ∷ cells_text c cs

split_cells-escape :
    (cur c rest : Text)
    → split_cells false cur (escape c ++ rest) ≡ split_cells false (cur ++ c) rest
unfolding split_cells
split_cells-escape cur [] rest = ap (λ z. split_cells false z rest) (sym (append-nil cur))
split_cells-escape cur (c ∷ s) rest = elim (Bool-cases (nat_eq c 92 || nat_eq c b'|')) [
  | inl e ↦ rw e (
      split_cells-escape (cur ++ c ∷ []) s rest
      ∙ ap (λ z. split_cells false z rest) (append_assoc cur (c ∷ []) s))
  | inr e ↦ rw e (
      ground arith
      ∙ split_cells-escape (cur ++ c ∷ []) s rest
      ∙ ap (λ z. split_cells false z rest) (append_assoc cur (c ∷ []) s))
]

trim_right-pipe : (x : Text) → trim_right (x ++ b'|' ∷ []) ≡ x ++ b'|' ∷ []
unfolding trim_right
trim_right-pipe [] = refl
trim_right-pipe (c ∷ []) = refl
trim_right-pipe (c ∷ d ∷ s) = rw (trim_right-pipe (d ∷ s)) refl

trim_suffix-pipe : (x : Text) → trim_suffix (x ++ b'|' ∷ []) ≡ x
unfolding trim_suffix
trim_suffix-pipe [] = refl
trim_suffix-pipe (c ∷ []) = refl
trim_suffix-pipe (c ∷ d ∷ s) = ap (λ l. c ∷ l) (trim_suffix-pipe (d ∷ s))

-- The cells with pipes between them only.
between : Text → List Text → Text
between c [] = escape c
between c (d ∷ ds) = escape c ++ b'|' ∷ between d ds

cells_text-between : (c : Text) (cs : List Text) → cells_text c cs ≡ between c cs ++ b'|' ∷ []
unfolding between
cells_text-between c [] = refl
cells_text-between c (d ∷ ds) =
    ap (λ l. escape c ++ b'|' ∷ l) (cells_text-between d ds)
    ∙ sym (append_assoc (escape c) (b'|' ∷ between d ds) (b'|' ∷ []))

split_cells-between :
    (c : Text) (cs : List Text) → split_cells false [] (between c cs) ≡ map trim_space (c ∷ cs)
unfolding between split_cells
split_cells-between c [] =
    ap (split_cells false []) (sym (append-nil (escape c))) ∙ split_cells-escape [] c []
split_cells-between c (d ∷ ds) =
    split_cells-escape [] c (b'|' ∷ between d ds)
    ∙ ap (λ l. trim_space c ∷ l) (split_cells-between d ds)

-- A row of cells that was written with a backslash before each pipe and each backslash, and a pipe
-- on either side, is read back as its cells, trimmed.
pub split_row-row_text :
    (c : Text) (cs : List Text) → split_row (row_text c cs) ≡ map trim_space (c ∷ cs)
unfolding split_row trim_space trim_left trim_prefix
split_row-row_text c cs =
    rw
      (
        cells_text-between c cs,
        trim_right-pipe (b'|' ∷ between c cs),
        trim_suffix-pipe (between c cs),
      )
      (split_cells-between c cs)
