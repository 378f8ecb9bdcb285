-- ===== src/Graph/Drift/Columns.antt =====
-- backend/internal/graph/drift.go: diffColumns finds every difference between two tables' columns.
use mathlib.Core.Path.{ap₂}
use urara_vision.Base.{
  ◌≡◌, refl, ◌∙◌, inl, inr, Bool, true, false, not, ◌&&◌, ◌||◌, some, List, [], ◌∷◌, arith,
  Bool-cases, map, keep, is_empty,
}
use urara_vision.Base.Text.{Text, ◌==◌, ==_iff, ==_refl, elem}
use urara_vision.Base.Maps.{Map, keys, put, elem-keys-put}
use urara_vision.Base.Sort.{sort_strings, elem-sort_by}
use urara_vision.Base.Text.{text_lt}
use urara_vision.Model.{Column, Table}
use urara_vision.Graph.Orient.{column_set, add_columns, has}
use urara_vision.Graph.Orient.Laws.{documents, has-column_set}
use urara_vision.Graph.Drift.{diff_columns, drift_of}

elem-keep : (p : Text → Bool) (c : Text) (xs : List Text) → elem c (keep p xs) ≡ (elem c xs && p c)
unfolding elem keep
elem-keep p c [] = refl
elem-keep p c (x ∷ xs) = elim (Bool-cases (x == c)) [
  | inl y ↦
      let same : x ≡ c = (==_iff x c).0 y in rw same (ground (arith, elem-keep p c xs, ==_refl c))
  | inr n ↦ ground (arith, elem-keep p c xs)
]

keys-add_columns :
    (c : Text) (cs : List Column) (s : Map Bool)
    → elem c (keys (add_columns cs s)) ≡ (elem c (map (λ d. d.name) cs) || elem c (keys s))
unfolding add_columns elem
keys-add_columns c [] s = refl
keys-add_columns c (d ∷ ds) s =
    ground (arith, keys-add_columns c ds (put d.name true s), elem-keys-put c d.name true s)

keys-column_set : (c : Text) (t : Table) → elem c (keys (column_set t)) ≡ documents t c
unfolding column_set keys elem
keys-column_set c t = keys-add_columns c t.columns [] ∙ ground arith

elem-difference :
    (c : Text) (t u : Table)
    → elem c (sort_strings (keep (λ c. not (has c (column_set u))) (keys (column_set t))))
      ≡ (documents t c && not (documents u c))
unfolding sort_strings
elem-difference c t u =
    elem-sort_by text_lt c (keep (λ c. not (has c (column_set u))) (keys (column_set t)))
    ∙ elem-keep (λ c. not (has c (column_set u))) c (keys (column_set t))
    ∙ ap₂ (λ a b. a && not b) (keys-column_set c t) (has-column_set c u)

-- A column is reported missing exactly when the authority documents it and the other instance does
-- not, and as added exactly when the other instance documents it and the authority does not.
pub diff_columns_lem :
    (base other : Table) (c : Text)
    → let (missing, extra) = diff_columns (column_set base) (column_set other) in
      (elem c missing ≡ (documents base c && not (documents other c)))
      × (elem c extra ≡ (documents other c && not (documents base c)))
unfolding diff_columns
diff_columns_lem base other c = (elem-difference c base other, elem-difference c other base)

none_missing : (c : Text) (l : List Text) → is_empty l ≡ true → elem c l ≡ false
unfolding elem
none_missing c [] h = refl
none_missing c (x ∷ xs) h = cc

-- An instance that is not reported documents the same columns as the authority.
pub drift_of_silent :
    (id : Text) (base t : Table) (c : Text)
    → drift_of id base (some t) ≡ []
    → documents base c ≡ documents t c
unfolding drift_of
drift_of_silent id base t c h =
    let d = diff_columns (column_set base) (column_set t) in
    let found = diff_columns_lem base t c in
    ground (arith, none_missing c d.0, none_missing c d.1, found)
